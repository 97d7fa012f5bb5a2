-- ===== src/Examples/Server.antt =====
-- A server with two waiting nodes, whose reads are what its patches left: test data and runs.
use node_drain.Base.{
  String, true, false, refl, sym, ap, ◌∙◌, ◌≡◌, ◌==◌, inl, inr, List, [], ◌∷◌, map, All, Any, ok,
  err, eq_iff, Bool-cases,
}
use node_drain.Api.{Node, NodeCurrentState}
use node_drain.Cluster.{Entry, Trace, Env, patched_status}
use node_drain.RebootManager.Quiet.{IsPolling}
use node_drain.Base.{look, attempt, wrapping, deferring, ◌>>=◌}
use node_drain.Api.{drain, work_state, state_string}
use node_drain.Cluster.{call, record_entry}
use node_drain.PodUtils.{
  get_pod, exec_cmd, get_node, is_pod_running, is_pod_completed, phase_running, phase_completed,
  get_field_owner,
}
use node_drain.DrainManager.{
  not_ready, check_conditions, check_nodes, join_errors, start_round, add_error, add_status,
  verdict, event_type, is_cluster_nodes_healthy, is_supported, judge, ask_plugin, ask_plugins,
  run_hooks, is_healthy, is_drain_ok, run_pre_drain, run_post_drain,
}
use node_drain.RebootManager
use node_drain.Controller.Work.{
  check_interval, is_stale, report, is_reboot_required, check_reboot_required, still_required,
  recheck_reboot, drain_if_wanted, start_reboot, finish_reboot, await_reboot, reboot_if_drained,
  work,
}
use node_drain.Controller.Queue.{
  any_working, leave_queue, is_next_node, lookup, member, owns_unschedulable, claims_unschedulable,
  first_manager, manager_of_unschedulable,
}
use node_drain.Controller.Drain.{
  reschedule_controller, start_draining, evict, mark_drained, drain_there, drain_cordoned,
  drain_node,
}
use node_drain.Controller.Undrain.{
  undrain_due, uncordon_if_healthy, after_uncordon, finish_undrain, undrain_as_due, undrain,
}
use node_drain.Controller.Objects.{
  io, run_session, set_node, return_or, patch_reply, kube_reply, patch_status, set_drained,
  set_current_state, set_state, patch_kube_node, set_unschedulable, set_boot_id, create_new_node,
}
use node_drain.Controller.{
  finalize, refresh_drained, make_active, make_cordoned, enqueue, by_state, progress,
  reconcile_node, reconcile,
}
use node_drain.Controller.Diagram.{IsUndisturbed}
use node_drain.Controller.Exclusion.{
  States, patch, is_busy, is_status_write, IsServer, Exclusive, Always, NoJump, reconcile_all,
}
use node_drain.Controller.Exclusion.Always.{patch-there}
use node_drain.Controller.Exclusion.Always.{reconcile_all-Exclusive}
use node_drain.Controller.Exclusion.Refines.{Reach, IsApart, label, reconcile_all-Reach}
use node_drain.Examples.{queued, cluster, settings}

abbrev viewed : Trace → States
viewed [] n = NodeCurrentState.queued
viewed (patched_status b m (ok a) ∷ t) n = patch m (viewed t) n
viewed (_ ∷ t) n = viewed t n

abbrev in_state : String → NodeCurrentState → Node → Node
in_state name c n = record n { name = name; status = record n.status { current_state = c } }

abbrev known : Trace → List Node
known [] = queued ∷ record queued { name = "n3" } ∷ []
known (patched_status b m (ok a) ∷ t) = m ∷ known t
known (_ ∷ t) = known t

abbrev current : States → Node → Node
current f n = in_state n.name (f n.name) n

abbrev served : Env
served = record (cluster queued) {
  get_node = λ t name. ok (in_state name (viewed t name) queued);
  list_nodes = λ t. ok (map (current (viewed t)) (known t));
}

seen :
    (f : States) (t : Trace) (name : String)
    → is_busy (viewed t name) ≡ true
    → Any (λ n. n.status.current_state ≡ f name) (map (current f) (known t))
seen f [] name h = cc
seen f (patched_status b m (ok a) ∷ t) name h = elim (Bool-cases (m.name == name)) [
  | inl e ↦ inl (ap f ((eq_iff m.name name).0 e))
  | inr e ↦ inr (seen f t name (ap is_busy (sym (patch-there m (viewed t) name e)) ∙ h))
]
seen f (patched_status b m (err x) ∷ t) name h = seen f t name h
seen f (_ ∷ t) name h = seen f t name h

kept :
    (e : Entry) (t : Trace) (n : String) → is_status_write e ≡ false → viewed (e ∷ t) n ≡ viewed t n
kept (patched_status b m r) t n q = cc
kept _ t n q = refl

listed :
    (ns : List Node) (t : Trace)
    → served.list_nodes t ≡ ok ns
    → (name : String) → is_busy (viewed t name) ≡ true
    → Any (λ n. n.status.current_state ≡ viewed t name) ns
listed ns t e name h =
    let q : map (current (viewed t)) (known t) ≡ ns = cc in rw (sym q) (seen (viewed t) t name h)

served-IsServer : IsServer served viewed
served-IsServer = record {
  keeps = kept;
  creations = λ m r t n. inl refl;
  updates = λ m r t n. inl refl;
  patches = λ b m a t n. refl;
  failures = λ b m x t. inl (λ n. refl);
  gets = λ name n t e. (cc, cc);
  lists = listed;
}

served-IsPolling : IsPolling served
served-IsPolling = record { keeps = λ P c k. record { at = λ t h. k.at t h } }

served-IsUndisturbed : IsUndisturbed served
served-IsUndisturbed = record {
  status_answer = λ t b m r e. (cc, cc, cc, cc);
  spec_answer = λ t b m r e. (cc, cc, cc, cc);
}

viewed-Exclusive : Exclusive (viewed [])
viewed-Exclusive x y p q = cc

abbrev turns : List String
turns = "n1" ∷ "n3" ∷ "n1" ∷ "n3" ∷ []

-- The first node gets its turn and is drained, the second waits.
outcome :
    (viewed (reconcile_all served settings turns []) "n1" ≡ NodeCurrentState.drained)
    × (viewed (reconcile_all served settings turns []) "n3" ≡ NodeCurrentState.queued)
    × All NoJump (reconcile_all served settings turns [])
unfolding reconcile reconcile_node finalize refresh_drained make_active make_cordoned enqueue
    by_state progress io run_session set_node return_or patch_reply kube_reply patch_status
    set_drained set_current_state set_state patch_kube_node set_unschedulable set_boot_id
    create_new_node undrain_due uncordon_if_healthy after_uncordon finish_undrain undrain_as_due
    undrain reschedule_controller start_draining evict mark_drained drain_there drain_cordoned
    drain_node any_working leave_queue is_next_node lookup member owns_unschedulable
    claims_unschedulable first_manager manager_of_unschedulable check_interval is_stale report
    is_reboot_required check_reboot_required still_required recheck_reboot drain_if_wanted
    start_reboot finish_reboot await_reboot reboot_if_drained work not_ready check_conditions
    check_nodes join_errors start_round add_error add_status verdict event_type
    is_cluster_nodes_healthy is_supported judge ask_plugin ask_plugins run_hooks is_healthy
    is_drain_ok run_pre_drain run_post_drain RebootManager.reboot_required_pod
    RebootManager.ready_seen RebootManager.cleanup_selector RebootManager.create_pod
    RebootManager.delete_pod RebootManager.cleanup_node RebootManager.probe_pod
    RebootManager.probe_running RebootManager.probe_reboot_required RebootManager.is_reboot_required
    RebootManager.reboot_node get_pod exec_cmd get_node is_pod_running is_pod_completed
    phase_running phase_completed get_field_owner call record_entry look attempt wrapping deferring
    ◌>>=◌ drain work_state state_string
outcome = (refl, refl, search)

reconcile_all-Exclusive_example :
    Always (λ v. Exclusive (viewed v)) (reconcile_all served settings turns [])
reconcile_all-Exclusive_example =
    reconcile_all-Exclusive served settings viewed served-IsServer served-IsUndisturbed
      served-IsPolling viewed-Exclusive turns outcome.2

viewed-IsApart : IsApart viewed
viewed-IsApart = record { creations = λ m r t n. refl; updates = λ m r t. inl (λ n. refl) }

reconcile_all-Reach_example :
    Reach
      (viewed [])
      (map label (reconcile_all served settings turns []))
      (viewed (reconcile_all served settings turns []))
reconcile_all-Reach_example =
    reconcile_all-Reach served settings viewed served-IsServer viewed-IsApart served-IsUndisturbed
      served-IsPolling turns
