-- ===== src/Controller/Remembering/Whole.antt =====
-- The checks for a reboot, the work, and the run.
use node_drain.Base.{
  Bool, true, false, not, ◌&&◌, ◌||◌, String, ◌==◌, refl, look, if_false, ◌∙◌, ◌*◌,
}
use node_drain.Base.Keeps.{
  Keeps, Keeps-bind, Keeps-pure, Keeps-gets, Keeps-attempt, Keeps-wrapping, Keeps-if, Keeps-look,
}
use node_drain.Api.{
  Node, NodeState, NodeCurrentState, same_state, same_current_state, work_state, drain,
}
use node_drain.Cluster.{Trace, Env, Io, created_pod}
use node_drain.Cluster.Quiet.{Grows, IsAside, Keeps-call}
use node_drain.Settings.{Settings}
use node_drain.PodUtils.{get_field_owner}
use node_drain.RebootManager.Quiet.{
  IsPolling, cleanup_node-IsQuiet, is_reboot_required-IsQuiet, is_node_rebooted-IsQuiet,
}
use node_drain.RebootManager.Reboot.{reboot_node-Keeps}
use node_drain.Controller.{
  refresh_drained, make_active, make_cordoned, enqueue, by_state, progress, reconcile_node,
}
use node_drain.Controller.Objects.{M, CtrlResult, io, is_zero, set_current_state, minute}
use node_drain.Controller.Queue.{leave_queue, is_next_node, manager_of_unschedulable}
use node_drain.Controller.Work.{
  report, is_reboot_required, is_stale, check_interval, check_reboot_required, still_required,
  recheck_reboot, drain_if_wanted, start_reboot, finish_reboot, await_reboot, reboot_if_drained,
  work,
}
use node_drain.Controller.Remembering.{IsRemembering, IsCurrent}
use node_drain.Controller.Remembering.Parts.{
  Has, Has-aside, io-Current, quiet-Current, event-Current, patch_status-Current,
  set_drained-Current, set_current_state-Current, set_boot_id-Current, set_state-Current,
  set_unschedulable-Current, return_or-Current,
}
use node_drain.Controller.Remembering.Draining.{undrain-Current, drain_node-Current}

module _ (env : Env) (s : Settings) (name : String) (current : Trace → Node)
    (r : IsRemembering env name current) (polling : IsPolling env) where
  abbrev Ours : {A : Type 0} → M A → Type 0
  Ours m = Keeps (IsCurrent name current) m

  quiet : {A : Type 0} (m : Io A) → ((t : Trace) → Keeps (Grows IsAside t) m) → Ours (io m)
  quiet m q = quiet-Current env name current r m q

  to_state : (c : NodeCurrentState) → Ours (set_current_state env c)
  to_state c = set_current_state-Current env name current r c

  report-Current : (n : String) (b : Bool) → Ours (report env s n b)
  unfolding report
  report-Current n true = event-Current env name current r _ refl
  report-Current n false = Keeps-pure _

  is_reboot_required-Current : Ours (is_reboot_required env s)
  unfolding is_reboot_required
  is_reboot_required-Current = Keeps-look _ (λ st.
      Keeps-bind _ _
        (quiet _ (λ t. Keeps-wrapping _ _ (is_reboot_required-IsQuiet env s polling _)))
        (λ b. Keeps-bind _ _ (Keeps-gets _) (λ now.
          Keeps-bind _ _ (patch_status-Current env name current r _ _) (λ _.
            Keeps-bind _ _ (Keeps-gets _)
              (λ n. Keeps-bind _ _ (report-Current n b) (λ _. Keeps-pure _))))))

  check_reboot_required-Current : Ours (check_reboot_required env s)
  unfolding check_reboot_required
  check_reboot_required-Current = Keeps-look _ (λ st.
      Keeps-if (work_state st.node.status.current_state) _ _ (λ _. Keeps-pure _)
        (λ _.
          Keeps-if
            (is_stale st.node.status.reboot_required_last_checked (env.now st.trace)
              (check_interval s.reboot_check_interval))
            _ _ (λ _. Keeps-bind _ _ is_reboot_required-Current (λ _. Keeps-pure _))
            (λ _. Keeps-pure _)))

  still_required-Current : Ours (still_required env s)
  unfolding still_required
  still_required-Current = Keeps-look _ (λ st.
      Keeps-if
        (is_stale st.node.status.reboot_required_last_checked (env.now st.trace) (2 * minute)) _ _
        (λ _. is_reboot_required-Current) (λ _. Keeps-pure _))

  recheck_reboot-Current : Ours (recheck_reboot env s)
  unfolding recheck_reboot
  recheck_reboot-Current = Keeps-look _ (λ st.
      Keeps-if
        (same_state st.node.state NodeState.reboot_if_required
          && (same_current_state st.node.status.current_state NodeCurrentState.next
              || same_current_state st.node.status.current_state NodeCurrentState.drained))
        _ _
        (λ _. Keeps-bind _ _ still_required-Current (elim [
          | true ↦ Keeps-pure _
          | false ↦ Keeps-bind _ _ (set_state-Current env name current r _) (λ _. Keeps-pure _)
        ]))
        (λ _. Keeps-pure _))

  start_reboot-Current : Ours (start_reboot env s)
  unfolding start_reboot
  start_reboot-Current = Keeps-bind _ _ (set_boot_id-Current env name current r) (λ _.
      Keeps-bind _ _ (Keeps-gets _) (λ n.
        Keeps-bind _ _
          (io-Current env name current r _ (λ m.
            reboot_node-Keeps env s n (Has env name current r m) (Has-aside env name current r m)
              (λ a t h. r.kept (created_pod _ a) t refl ∙ h)))
          (λ _. Keeps-bind _ _ (to_state _) (λ _. Keeps-pure _))))

  finish_reboot-Current : Ours (finish_reboot env s)
  unfolding finish_reboot
  finish_reboot-Current = Keeps-bind _ _ (Keeps-gets _) (λ now.
      Keeps-bind _ _ (patch_status-Current env name current r _ _) (λ _.
        Keeps-bind _ _ (set_state-Current env name current r _) (λ _.
          Keeps-bind _ _ (Keeps-gets _)
            (λ n. Keeps-bind _ _ (event-Current env name current r _ refl) (λ _. Keeps-pure _)))))

  reboot_if_drained-Current : Ours (reboot_if_drained env s)
  unfolding reboot_if_drained await_reboot
  reboot_if_drained-Current = Keeps-look _ (λ st.
      Keeps-if (not (same_state st.node.state NodeState.reboot_if_required)) _ _ (λ _. Keeps-pure _)
        (λ _.
          Keeps-if
            (same_current_state st.node.status.current_state NodeCurrentState.drained
              && st.node.status.drained)
            _ _ (λ _. start_reboot-Current)
            (λ _.
              Keeps-if (same_current_state st.node.status.current_state NodeCurrentState.rebooting)
                _ _
                (λ _. Keeps-look _ (λ st'.
                  Keeps-bind _ _ (quiet _ (λ t. is_node_rebooted-IsQuiet env s polling _ _))
                    (elim [ true ↦ finish_reboot-Current | false ↦ Keeps-pure _ ])))
                (λ _. Keeps-pure _))))

  drain_if_wanted-Current : Ours (drain_if_wanted env s)
  unfolding drain_if_wanted
  drain_if_wanted-Current = Keeps-look _ (λ st.
      Keeps-if (drain st.node.state && not st.node.status.drained) _ _
        (λ _. drain_node-Current env s name current r polling) (λ _. Keeps-pure _))

  work-Current : Ours (work env s)
  unfolding work
  work-Current =
      return_or-Current env name current r _ _ recheck_reboot-Current
        (return_or-Current env name current r _ _ drain_if_wanted-Current reboot_if_drained-Current)

  -- The states.
  refresh_drained-Current : Ours (refresh_drained env s)
  unfolding refresh_drained
  refresh_drained-Current = Keeps-look _ (λ st.
      Keeps-if (not st.kube_node.unschedulable && st.node.status.drained) _ _
        (λ _. set_drained-Current env name current r false) (λ _. Keeps-pure _))

  make_active-Current : Ours (make_active env s)
  unfolding make_active
  make_active-Current = Keeps-look _ (λ st.
      let manager = manager_of_unschedulable env st.kube_node in
      Keeps-if (not (manager == "") && not (manager == get_field_owner s.manager_namespace)) _ _
        (λ _. Keeps-bind _ _ (event-Current env name current r _ refl) (λ _. Keeps-pure _))
        (λ _. Keeps-bind _ _ (set_unschedulable-Current env name current r false) (λ _.
          Keeps-bind _ _ (to_state _) (λ _.
            Keeps-bind _ _ (Keeps-attempt _ (quiet _ (λ t. cleanup_node-IsQuiet env s _)))
              (λ _. Keeps-pure _)))))

  enqueue-Current : Ours (enqueue env s)
  unfolding enqueue
  enqueue-Current = Keeps-look _ (λ st.
      Keeps-if
        (not (work_state st.node.status.current_state)
          && not (same_current_state st.node.status.current_state NodeCurrentState.queued))
        _ _ (λ _. Keeps-bind _ _ (to_state _) (λ _. Keeps-pure _)) (λ _. Keeps-pure _))

  by_state-Current : (c : NodeState) → Ours (by_state env s c)
  unfolding by_state make_cordoned
  by_state-Current NodeState.active = make_active-Current
  by_state-Current NodeState.cordoned =
      Keeps-bind _ _ (set_unschedulable-Current env name current r true)
        (λ _. Keeps-bind _ _ (to_state _) (λ _. Keeps-pure _))
  by_state-Current NodeState.drained = enqueue-Current
  by_state-Current NodeState.reboot_if_required = enqueue-Current
  by_state-Current (NodeState.other x) = Keeps-pure _

  leave_queue-Current : (b : Bool) (c : NodeCurrentState) → Ours (leave_queue env b c)
  unfolding leave_queue
  leave_queue-Current true c = Keeps-pure _
  leave_queue-Current false c =
      Keeps-if (same_current_state c NodeCurrentState.queued) _ _
        (λ _. Keeps-bind _ _ (to_state _) (λ _. Keeps-pure _)) (λ _. Keeps-pure _)

  progress-Current : Ours (progress env s)
  unfolding progress is_next_node
  progress-Current = Keeps-look _ (λ st.
      Keeps-if (work_state st.node.status.current_state) _ _ (λ _. work-Current)
        (λ _.
          Keeps-if (same_current_state st.node.status.current_state NodeCurrentState.queued) _ _
            (λ _.
              Keeps-bind _ _
                (Keeps-bind _ _ (quiet _ (λ t. Keeps-call _ _ (λ a. refl)))
                  (λ ns. Keeps-bind _ _ (Keeps-gets _) (λ c. leave_queue-Current _ c)))
                (λ b. Keeps-pure _))
            (λ _. Keeps-pure _)))

  -- A run on an object that is not being deleted leaves its copy as the server has it, also where a
  -- call fails.
  pub reconcile_node-Current : Ours (reconcile_node env s)
  unfolding reconcile_node look
  reconcile_node-Current = record {
    at = λ st h.
        if_false (λ (m : M CtrlResult). IsCurrent name current (m st).1)
          (not (is_zero st.node.deletion_timestamp)) _ _ (rw h.alive refl)
          ((return_or-Current env name current r _ _ (undrain-Current env s name current r polling)
              (Keeps-bind _ _ refresh_drained-Current (λ _.
                Keeps-bind _ _ check_reboot_required-Current (λ _.
                  return_or-Current env name current r _ _
                    (Keeps-look _ (λ st'. by_state-Current st'.node.state)) progress-Current)))).at
            st h);
  }
