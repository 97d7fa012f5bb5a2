-- ===== src/Settings.antt =====
-- What the processes are configured with: the flags of cmd/main.go and the fields of
-- internal/config/config.go that the controller reads, with the plugins that were loaded.
use node_drain.Base.{ℕ, String, Bool, List}
use node_drain.Cluster.Pods.{ResourceRequirements}

-- A Go time.Duration in nanoseconds: `negsuc n` is -(n + 1).
pub data ℤ : Type 0 where
  pos negsuc : ℕ → ℤ

pub record Settings : Type 0 where
  -- --namespace, and POD_NODENAME: the node that the controller runs on
  pub manager_namespace : String
  pub own_node : String
  pub container_node : Bool
  pub reboot_check_interval : ℤ
  pub container_resources : ResourceRequirements
  pub priority_class_name : String
  -- the keys of `drainClients`, in the order of the iteration
  pub plugins : List String
