-- ===== src/Controller/Setup.antt =====
-- NewNodeReconciler and SetupWithManager of node_controller.go, and NewRebootManager of
-- reboot-manager.go.
use node_drain.Base.{
  String, ◌==◌, List, [], ◌∷◌, map, Result, ok, err, Exec, pure, lift, wrapping, look, ◌>>=◌, ◌>>◌,
  if◌then◌else◌,
}
use node_drain.Api.{Node, current_state_string}
use node_drain.Cluster.{KubeNode}
use node_drain.DrainManager.Loading.{Tables, Processes, new_drain_manager}

-- RebootManager, the field that its pods depend on
pub record RebootManager : Type 0 where
  pub namespace : String

-- NewRebootManager
unfoldable pub new_reboot_manager : Result (Unit {0}) → String → Result RebootManager
new_reboot_manager (ok client_set) namespace = ok (record { namespace = namespace })
new_reboot_manager (err e) namespace = err e

-- nodeReconciler, with the keys of its drain manager's `drainClients`
pub record NodeReconciler : Type 0 where
  pub manager_namespace : String
  pub node_name : String
  pub reboot_manager : RebootManager
  pub plugins : List String

abbrev pub keys : Tables → List String
keys st = map (λ k. k.0) st.drain_clients

module _ (p : Processes) (named_logger new_client_set : Result (Unit {0}))
    (manager_namespace node_name : String) where
  -- NewNodeReconciler
  unfoldable pub new_node_reconciler : Exec Tables NodeReconciler
  new_node_reconciler = do
    lift named_logger
    reboot_manager ←
        wrapping "failed to create reboot manager: "
          (lift (new_reboot_manager new_client_set manager_namespace))
    wrapping "failed to create drain manager: " (new_drain_manager p)
    look λ st. pure (record {
      manager_namespace = manager_namespace;
      node_name = node_name;
      reboot_manager = reboot_manager;
      plugins = keys st;
    })

-- The function of the index on the current state.
unfoldable pub index_current_state : Node → List String
index_current_state node =
    let state = current_state_string node.status.current_state in
    if state == "" then [] else state ∷ []

-- The names of the requests for an event on a Kubernetes node.
unfoldable pub requests_for : KubeNode → List String
requests_for node = node.name ∷ []

-- SetupWithManager; `complete` registers the controller with the functions of its two watches
unfoldable pub set_up_with_manager :
    {S : Type 0}
    → ((Node → List String) → Exec S (Unit {0}))
    → ((KubeNode → List String) → Exec S (Unit {0}))
    → Exec S (Unit {0})
set_up_with_manager index_field complete = do index_field index_current_state; complete requests_for
