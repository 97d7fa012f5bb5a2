-- ===== src/Controller.antt =====
-- internal/controller/node_controller.go: the reconciler. One run of `Reconcile` works on its own
-- copies of the two objects of a node (`Session`). The parts of `Reconcile` are one definition
-- each; a part that may return early gives `some` result, and `none` where the code goes on.
pub mod Objects
pub mod Undrain
pub mod Drain
pub mod Queue
pub mod Work
pub mod Triple
pub mod Diagram
pub mod Walk
pub mod Guards
pub mod Exclusion
pub mod Early
pub mod Progress
pub mod Remembering
pub mod Required
pub mod Requeue
pub mod Interval
pub mod Setup
use node_drain.Base.{String, Bool, true, false, ◌&&◌, ◌||◌, not, Option, none, some, ◌==◌, ◌*◌}
use node_drain.Base.{
  ltb, if◌then◌else◌, is_not_found, ok, err, pure, fail, attempt, look, ◌>>=◌, ◌>>◌,
}
use node_drain.Api.{NodeState, NodeCurrentState, Node, same_current_state, work_state}
use node_drain.Cluster.{KubeNode, warning, got_kube_node, got_node, updated_node, event, Io, Env}
use node_drain.Cluster.{call, record_entry}
use node_drain.Settings.{Settings}
use node_drain.PodUtils.{get_field_owner}
use node_drain.RebootManager
use Objects.{Session, M, io, run_session, CtrlResult, done, after, second, minute, return_or}
use Objects.{
  set_drained, set_current_state, set_unschedulable, set_node, create_new_node,
  node_drain_finalizer,
}
use Objects.{is_zero}
use Undrain.{undrain}
use Queue.{is_next_node, manager_of_unschedulable}
use Work.{check_reboot_required, work}

module _ (env : Env) (s : Settings) where
  -- The branch for an object that is being deleted.
  unfoldable pub finalize : M CtrlResult
  finalize = look λ st.
      if env.contains_finalizer st.node node_drain_finalizer
      then (do
        let node = env.remove_finalizer st.node node_drain_finalizer
        set_node node
        io (call (λ t. env.update_node t node) (updated_node node))
        pure done)
      else pure done

  -- A node that can be scheduled is no longer drained.
  unfoldable pub refresh_drained : M (Unit {0})
  refresh_drained = look λ st.
      if not st.kube_node.unschedulable && st.node.status.drained
      then set_drained env false
      else pure tt

  -- `case drainv1.NodeStateActive`
  unfoldable pub make_active : M (Option CtrlResult)
  make_active = look λ st.
      let manager = manager_of_unschedulable env st.kube_node in
      if not (manager == "") && not (manager == get_field_owner s.manager_namespace)
      then (do
        io (record_entry (event warning "NodeNotSchedulable" st.node.name))
        pure (some done))
      else (do
        set_unschedulable env false
        set_current_state env NodeCurrentState.ok
        attempt (io (RebootManager.cleanup_node env s st.node.name))
        pure none)

  -- `case drainv1.NodeStateCordoned`
  unfoldable pub make_cordoned : M (Option CtrlResult)
  make_cordoned = do
    set_unschedulable env true
    set_current_state env NodeCurrentState.cordoned
    pure none

  -- `case drainv1.NodeStateDrained, drainv1.NodeStateRebootIfRequired`
  unfoldable pub enqueue : M (Option CtrlResult)
  enqueue = look λ st.
      if not (work_state st.node.status.current_state)
        && not (same_current_state st.node.status.current_state NodeCurrentState.queued)
      then (do set_current_state env NodeCurrentState.queued; pure (some (after second)))
      else pure none

  -- The `switch` on the desired state.
  unfoldable pub by_state : NodeState → M (Option CtrlResult)
  by_state NodeState.active = make_active
  by_state NodeState.cordoned = make_cordoned
  by_state NodeState.drained = enqueue
  by_state NodeState.reboot_if_required = enqueue
  by_state (NodeState.other _) = pure none

  -- The last part: the work on a node, or the wait in the queue.
  unfoldable pub progress : M CtrlResult
  progress = look λ st.
      if work_state st.node.status.current_state
      then work env s
      else if same_current_state st.node.status.current_state NodeCurrentState.queued
      then (do next ← is_next_node env; pure (after (if next then second else minute)))
      else pure done

  unfoldable pub reconcile_node : M CtrlResult
  reconcile_node = look λ st.
      if not (is_zero st.node.deletion_timestamp)
      then finalize
      else return_or (undrain env s) (do
        refresh_drained
        check_reboot_required env s
        return_or (look λ st'. by_state st'.node.state) progress)

  -- Reconcile
  unfoldable pub reconcile : String → Io CtrlResult
  reconcile name = do
    kube_node ← call (λ t. env.get_kube_node t name) (got_kube_node name)
    found ← attempt (call (λ t. env.get_node t name) (got_node name))
    elim found [
      | ok node ↦ run_session reconcile_node node kube_node
      | err e ↦ if is_not_found e then create_new_node env kube_node else fail e
    ]
