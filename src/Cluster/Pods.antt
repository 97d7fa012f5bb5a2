-- ===== src/Cluster/Pods.antt =====
-- The parts of corev1.Pod that the program sets, and the selection of pods by a label and a node.
use node_drain.Base.{ℕ, String, Bool, false, Option, List, [], ◌∷◌, ◌==◌, ◌&&◌, ◌||◌}

pub record Toleration : Type 0 where
  pub key : String
  pub operator : String
  pub effect : String

-- A volume on a path of the host, with its mount in the container.
pub record HostMount : Type 0 where
  pub volume : String
  pub path : String
  pub mount_path : String
  pub read_only : Bool

-- corev1.ResourceList: quantities by resource name, or nil
abbrev pub KubeResourceList : Type 0
KubeResourceList = Option (List (String × ℕ))

-- corev1.ResourceRequirements
pub record ResourceRequirements : Type 0 where
  pub requests : KubeResourceList
  pub limits : KubeResourceList

-- corev1.SecurityContext of a container
pub record ContainerSecurity : Type 0 where
  pub add_capabilities : List String
  pub allow_privilege_escalation : Bool
  pub privileged : Bool
  pub read_only_root_filesystem : Bool

-- corev1.PodSecurityContext
pub record PodSecurity : Type 0 where
  pub run_as_user : Option ℕ
  pub run_as_group : Option ℕ
  pub run_as_non_root : Option Bool
  pub app_armor_profile : Option String

-- A pod with one container.
pub record Pod : Type 0 where
  pub generate_name : String
  pub namespace : String
  pub labels : List (String × String)
  pub host_mount : Option HostMount
  pub container_name : String
  pub image : String
  pub command : List String
  pub container_security : Option ContainerSecurity
  pub resources : ResourceRequirements
  pub restart_policy : String
  pub termination_grace_period : Option ℕ
  pub host_pid : Bool
  pub node_name : String
  pub security : PodSecurity
  pub tolerations : List Toleration
  pub priority_class_name : String

-- metav1.ListOptions as `CleanupNode` builds them, with the namespace: the label `key` is one of
-- `values`, and `spec.nodeName` is `on_node`
pub record PodSelector : Type 0 where
  pub in_namespace : String
  pub key : String
  pub values : List String
  pub on_node : String

abbrev one_of : List String → String → Bool
one_of [] v = false
one_of (w ∷ ws) v = w == v || one_of ws v

abbrev has_label : String → List String → List (String × String) → Bool
has_label key values [] = false
has_label key values ((k, v) ∷ labels) = k == key && one_of values v || has_label key values labels

-- The documented meaning of a label selector `in` with a field selector.
unfoldable pub selects : PodSelector → Pod → Bool
selects s p =
    p.namespace == s.in_namespace && p.node_name == s.on_node && has_label s.key s.values p.labels

-- types.NamespacedName
pub record NamespacedName : Type 0 where
  pub namespace : String
  pub name : String
