-- ===== src/Examples/Reboots.antt =====
-- Nodes that are to be rebooted if this is required: test data and runs.
use node_drain.Base.{
  Bool, true, false, ◌||◌, ◌≡◌, refl, some, [], ◌∷◌, look, attempt, wrapping, ◌>>=◌,
}
use node_drain.Base.Outcomes.{Outcome}
use node_drain.Api.{NodeState, NodeCurrentState, drain, work_state, state_string}
use node_drain.Cluster.{Trace, created_pod, call, record_entry}
use node_drain.Cluster.Quiet.{is_reboot_pod}
use node_drain.PodUtils.{get_node}
use node_drain.DrainManager.{is_supported, run_hooks, run_pre_drain}
use node_drain.RebootManager
use node_drain.Controller.Drain.{evict, mark_drained, drain_there, drain_cordoned, drain_node}
use node_drain.Controller.Objects.{
  Session, done, io, return_or, patch_reply, kube_reply, patch_status, set_current_state,
  patch_kube_node, set_unschedulable, set_boot_id,
}
use node_drain.Controller.Required.{IsCalledOff, work-IsCalledOff}
use node_drain.Controller.Work.{
  is_stale, recheck_reboot, drain_if_wanted, start_reboot, reboot_if_drained, work,
}
use node_drain.Examples.{waiting, host, cluster, queued, settings}

-- The last check, which is a nanosecond old, found that no reboot is required.
abbrev unneeded : NodeCurrentState → Session
unneeded c = record {
  node = record waiting {
    state = NodeState.reboot_if_required;
    status = record waiting.status {
      current_state = c;
      reboot_required = some false;
      reboot_required_last_checked = some 999_999_999_999;
    };
  };
  kube_node = host;
  trace = [];
}

work-IsCalledOff_example :
    Outcome
      (IsCalledOff (cluster queued) settings (unneeded NodeCurrentState.next))
      (λ r st.
        (r ≡ done) × IsCalledOff (cluster queued) settings (unneeded NodeCurrentState.next) st)
      (work (cluster queued) settings (unneeded NodeCurrentState.next))
unfolding is_stale
work-IsCalledOff_example =
    work-IsCalledOff (cluster queued) settings (unneeded NodeCurrentState.next) refl refl refl refl

abbrev has_rebooted : Trace → Bool
has_rebooted [] = false
has_rebooted (created_pod p r ∷ t) = is_reboot_pod p || has_rebooted t
has_rebooted (_ ∷ t) = has_rebooted t

-- A node whose drain is resumed is not checked again, and is rebooted in the run that drains it.
resumed :
    has_rebooted (work (cluster queued) settings (unneeded NodeCurrentState.draining)).1.trace
    ≡ true
unfolding is_stale recheck_reboot drain_if_wanted start_reboot reboot_if_drained work evict
    mark_drained drain_there drain_cordoned drain_node io return_or patch_reply kube_reply
    patch_status set_current_state patch_kube_node set_unschedulable set_boot_id is_supported
    run_hooks run_pre_drain RebootManager.cleanup_selector RebootManager.create_pod
    RebootManager.cleanup_node RebootManager.reboot_node RebootManager.reboot_node_pod get_node call
    record_entry look attempt wrapping ◌>>=◌ drain work_state state_string
resumed = refl
