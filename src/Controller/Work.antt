-- ===== src/Controller/Work.antt =====
-- node_controller.go: the checks for a required reboot, and the part of `Reconcile` that works on
-- a node that has left the queue.
use node_drain.Base.{ℕ, ◌+◌, ◌*◌, String, Bool, true, false, ◌&&◌, ◌||◌, not, Option, none, some}
use node_drain.Base.{ltb, if◌then◌else◌, pure, gets, wrapping, look, ◌>>=◌, ◌>>◌}
use node_drain.Api.{NodeState, NodeCurrentState, same_state, same_current_state, drain}
use node_drain.Api.{work_state}
use node_drain.Cluster.{Env, normal, event, record_entry}
use node_drain.Settings.{ℤ, pos, negsuc, Settings}
use node_drain.RebootManager
use node_drain.Controller.Objects.{M, io, CtrlResult, done, after, second, minute, is_zero}
use node_drain.Controller.Objects.{
  return_or, patch_status, set_current_state, set_state, set_boot_id,
}
use node_drain.Controller.Drain.{drain_node}

abbrev pub hour : ℕ
hour = 60 * minute

-- The interval of the configuration, or a day where it is under five minutes.
unfoldable pub check_interval : ℤ → ℕ
check_interval (pos n) = if ltb n (5 * minute) then 24 * hour else n
check_interval (negsuc n) = 24 * hour

-- The last check is missing, or lies before `now - interval`.
unfoldable pub is_stale : Option ℕ → ℕ → ℕ → Bool
is_stale none now interval = true
is_stale (some t) now interval = is_zero (some t) || ltb (t + interval) now

module _ (env : Env) (s : Settings) where
  -- `if required { r.recorder.Eventf(…) }`
  unfoldable pub report : String → Bool → M (Unit {0})
  report name true = io (record_entry (event normal "RebootRequired" name))
  report name false = pure tt

  -- isRebootRequired
  unfoldable pub is_reboot_required : M Bool
  is_reboot_required = look λ st. do
    required ← io (
        wrapping "failed to check if reboot is required: "
          (RebootManager.is_reboot_required env s st.node.name))
    now ← gets (λ st'. env.now st'.trace)
    patch_status env "failed to update node reboot required last checked: "
        (λ u. record u { reboot_required = some required; reboot_required_last_checked = some now })
    name ← gets (λ st'. st'.node.name)
    report name required
    pure required

  -- checkRebootRequired
  unfoldable pub check_reboot_required : M (Unit {0})
  check_reboot_required = look λ st.
      if work_state st.node.status.current_state
      then pure tt
      else if is_stale st.node.status.reboot_required_last_checked (env.now st.trace)
          (check_interval s.reboot_check_interval)
      then (do is_reboot_required; pure tt)
      else pure tt

  -- `required` of the recheck: a new check if the last is older than two minutes
  unfoldable pub still_required : M Bool
  still_required = look λ st.
      if is_stale st.node.status.reboot_required_last_checked (env.now st.trace) (2 * minute)
      then is_reboot_required
      else pure (elim st.node.status.reboot_required [ some b ↦ b | none ↦ false ])

  -- Before a node is drained for a reboot, and before it is rebooted.
  unfoldable pub recheck_reboot : M (Option CtrlResult)
  recheck_reboot = look λ st.
      if same_state st.node.state NodeState.reboot_if_required
        && (same_current_state st.node.status.current_state NodeCurrentState.next
            || same_current_state st.node.status.current_state NodeCurrentState.drained)
      then (do
        required ← still_required
        elim required [
          | true ↦ pure none
          | false ↦ do set_state env NodeState.active; pure (some done)
        ])
      else pure none

  unfoldable pub drain_if_wanted : M (Option CtrlResult)
  drain_if_wanted = look λ st.
      if drain st.node.state && not st.node.status.drained then drain_node env s else pure none

  -- Saves the boot ID, reboots, and waits.
  unfoldable pub start_reboot : M CtrlResult
  start_reboot = do
    set_boot_id env
    name ← gets (λ st. st.node.name)
    io (RebootManager.reboot_node env s name)
    set_current_state env NodeCurrentState.rebooting
    pure (after minute)

  -- The node is back: the reboot's marks are reset and the node is to be active.
  unfoldable pub finish_reboot : M CtrlResult
  finish_reboot = do
    now ← gets (λ st. env.now st.trace)
    patch_status env "failed to update node reboot required last checked: " (λ u. record u {
      boot_id = "";
      reboot_required = some false;
      reboot_required_last_checked = some now;
    })
    set_state env NodeState.active
    name ← gets (λ st. st.node.name)
    io (record_entry (event normal "Reboot" name))
    pure (after second)

  unfoldable pub await_reboot : M CtrlResult
  await_reboot = look λ st. do
    rebooted ← io (RebootManager.is_node_rebooted env s st.kube_node st.node.status.boot_id)
    elim rebooted [ true ↦ finish_reboot | false ↦ pure (after minute) ]

  -- `if node.Spec.State == NodeStateRebootIfRequired { … }`
  unfoldable pub reboot_if_drained : M CtrlResult
  reboot_if_drained = look λ st.
      if not (same_state st.node.state NodeState.reboot_if_required)
      then pure done
      else if same_current_state st.node.status.current_state NodeCurrentState.drained
          && st.node.status.drained
      then start_reboot
      else if same_current_state st.node.status.current_state NodeCurrentState.rebooting
      then await_reboot
      else pure done

  -- `if node.Status.CurrentState.WorkState() { … }`
  unfoldable pub work : M CtrlResult
  work = return_or recheck_reboot (return_or drain_if_wanted reboot_if_drained)
