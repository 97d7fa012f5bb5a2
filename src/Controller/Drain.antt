-- ===== src/Controller/Drain.antt =====
-- node_controller.go: `drain` and `rescheduleController`.
use node_drain.Base.{String, Bool, true, false, ◌||◌, not, Option, none, some, ◌*◌, ◌<>◌, ◌==◌}
use node_drain.Base.{if◌then◌else◌, msg, join, ok, err, pure, gets, fail, lift, attempt}
use node_drain.Base.{wrapping, look, ◌>>=◌, ◌>>◌}
use node_drain.Api.{NodeCurrentState, same_current_state, drain}
use node_drain.Cluster.{Io, Env, normal, event, call, record_entry, drained_node, deleted_pod}
use node_drain.Settings.{Settings}
use node_drain.DrainManager
use node_drain.RebootManager
use node_drain.Controller.Objects.{M, io, CtrlResult, after, minute, patch_status}
use node_drain.Controller.Objects.{set_current_state, set_unschedulable}

module _ (env : Env) (s : Settings) where
  -- rescheduleController: the controller deletes its own pod
  unfoldable pub reschedule_controller : Io (Unit {0})
  reschedule_controller = do
    wrapping "failed to create clientset: " (lift env.new_client_set)
    pod ← wrapping "failed to get hostname/podName: " (lift env.hostname)
    call (λ t. env.delete_pod t s.manager_namespace pod) (deleted_pod s.manager_namespace pod)

  -- `if node.Status.CurrentState == NodeCurrentStateNext { … }`: the checks before a drain starts
  unfoldable pub start_draining : M (Unit {0})
  start_draining = look λ st. do
    healthy ← io (
        wrapping "failed to check if cluster is healthy: "
          (DrainManager.is_healthy env s.plugins st.node.name))
    elim healthy [
      | false ↦ fail (msg "cluster is not healthy")
      | true ↦ do
        drain_ok ← io (
            wrapping "failed to check if node is ok to drain: "
              (DrainManager.is_drain_ok env s.plugins st.node.name))
        elim drain_ok [
          | false ↦ fail (msg ("node is not ok to drain: " <> st.node.name))
          | true ↦ set_current_state env NodeCurrentState.draining
        ]
    ]

  -- The plugins' hooks, the removal of the manager's pods, and the drain itself.
  unfoldable pub evict : String → Io (Unit {0})
  evict node = do
    wrapping "failed to run plugin PreDrain for node: "
        (DrainManager.run_pre_drain env s.plugins node)
    lift env.new_client_set
    wrapping "failed to cleanup node for reboot manager pods: "
        (RebootManager.cleanup_node env s node)
    drained ← attempt (call (λ t. env.run_node_drain t node) (drained_node node))
    elim drained [ ok _ ↦ pure tt | err e ↦ fail (join (msg ("failed to drain node: " <> node)) e) ]

  -- The last patch sets both fields at once.
  unfoldable pub mark_drained : M (Unit {0})
  mark_drained = look λ st. do
    patch_status env "failed to update drained status on node: "
        (λ u. record u { drained = true; current_state = NodeCurrentState.drained })
    io (record_entry (event normal "Drained" st.node.name))

  -- `if r.nodeName == node.Name { … }`, and what follows it
  unfoldable pub drain_there : String → Bool → M (Option CtrlResult)
  drain_there name true = do
    io (wrapping "failed to reschedule controller: " reschedule_controller)
    pure (some (after (5 * minute)))
  drain_there name false = do io (evict name); mark_drained; pure none

  -- From the cordon on.
  unfoldable pub drain_cordoned : M (Option CtrlResult)
  drain_cordoned = do
    set_unschedulable env true
    name ← gets (λ st. st.node.name)
    drain_there name (s.own_node == name)

  -- drain
  unfoldable pub drain_node : M (Option CtrlResult)
  drain_node = look λ st.
      if not (drain st.node.state) || st.node.status.drained then pure none else (do
        if same_current_state st.node.status.current_state NodeCurrentState.next
            then start_draining
            else pure tt
        drain_cordoned)
