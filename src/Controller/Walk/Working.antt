-- ===== src/Controller/Walk/Working.antt =====
-- node_controller.go, the work on a node: the rules for what the walk asks for.
use node_drain.Base.{Bool, true, false, not, ◌&&◌, ◌||◌, ◌*◌, ◌≡◌, refl, String, arith}
use node_drain.Base.Keeps.{Keeps-wrapping}
use node_drain.Api.{NodeState, NodeCurrentState, same_state, same_current_state, Node}
use node_drain.Api.{work_state, drain}
use node_drain.Cluster.{Trace, Env}
use node_drain.Settings.{Settings}
use node_drain.RebootManager.Quiet.{IsPolling, is_reboot_required-IsQuiet}
use node_drain.RebootManager.Quiet.{is_node_rebooted-IsQuiet}
use node_drain.Controller.Objects.{Session, minute}
use node_drain.Controller.Work.{
  report, is_reboot_required, check_reboot_required, still_required, recheck_reboot,
  drain_if_wanted, start_reboot, finish_reboot, await_reboot, reboot_if_drained, work, is_stale,
  check_interval,
}
use node_drain.Controller.Triple.{
  Triple-pure, Triple-gets, Triple-bind, Triple-if, Triple-return_or,
}
use node_drain.Controller.Walk.{IsPreserved, OnSession, is_ordinary}
use node_drain.Controller.Walk.Rules.{Sound, Early, Last, Triple-peek, Triple-calls}
use node_drain.Controller.Walk.Patches.{
  stays, quiet, entry, patch_status-Triple, set_current_state-Triple, set_state-Triple,
  set_boot_id-Triple,
}
use node_drain.Controller.Walk.Draining.{drain_node-Early}

to_rebooting : (from : NodeCurrentState) → is_ordinary from NodeCurrentState.rebooting ≡ true
to_rebooting from = ground arith

module _ (env : Env) (s : Settings) {I : Trace → Type 0} {J : Node → Trace → Type 0}
    (h : IsPreserved env s I J) (polling : IsPolling env) where
  abbrev Here : {A : Type 0} → A → Session → Type 0
  Here a st = J st.node st.trace

  report-Sound : (name : String) (b : Bool) → Sound I J (report env s name b)
  unfolding report
  report-Sound name true = entry env s h _ refl
  report-Sound name false = Triple-pure _ (λ st j. j)

  is_reboot_required-Sound : Sound I J (is_reboot_required env s)
  unfolding is_reboot_required
  is_reboot_required-Sound = Triple-peek _ λ st.
      Triple-bind Here _ _
        (quiet env s h _ (λ t. Keeps-wrapping _ _ (is_reboot_required-IsQuiet env s polling _)))
        (λ required. Triple-bind Here _ _ (Triple-gets _ (λ st' j. j)) (λ now.
          Triple-bind Here _ _ (patch_status-Triple env s h _ _ (λ n. stays n.status.current_state))
            (λ _. Triple-bind Here _ _ (Triple-gets _ (λ st' j. j)) (λ name.
              Triple-bind Here _ _ (report-Sound name required)
                (λ _. Triple-pure _ (λ st' j. j))))))

  pub check_reboot_required-Sound : Sound I J (check_reboot_required env s)
  unfolding check_reboot_required
  check_reboot_required-Sound = Triple-peek _ λ st.
      Triple-if (work_state st.node.status.current_state) _ _ (λ _. Triple-pure _ (λ st' j. j))
        (λ _.
          Triple-if
            (is_stale st.node.status.reboot_required_last_checked (env.now st.trace)
              (check_interval s.reboot_check_interval))
            _ _
            (λ _. Triple-bind Here _ _ is_reboot_required-Sound (λ _. Triple-pure _ (λ st' j. j)))
            (λ _. Triple-pure _ (λ st' j. j)))

  still_required-Sound : Sound I J (still_required env s)
  unfolding still_required
  still_required-Sound = Triple-peek _ λ st.
      Triple-if
        (is_stale st.node.status.reboot_required_last_checked (env.now st.trace) (2 * minute)) _ _
        (λ _. is_reboot_required-Sound) (λ _. Triple-pure _ (λ st' j. j))

  recheck_reboot-Early : Early I J (recheck_reboot env s)
  unfolding recheck_reboot
  recheck_reboot-Early = Triple-peek _ λ st.
      Triple-if
        (same_state st.node.state NodeState.reboot_if_required
          && (same_current_state st.node.status.current_state NodeCurrentState.next
              || same_current_state st.node.status.current_state NodeCurrentState.drained))
        _ _
        (λ _. Triple-bind Here _ _ still_required-Sound (elim [
          | true ↦ Triple-pure _ (λ st' j. j)
          | false ↦
              Triple-bind Here _ _ (set_state-Triple env s h NodeState.active)
                (λ _. Triple-pure _ (λ st' j. tt))
        ]))
        (λ _. Triple-pure _ (λ st' j. j))

  drain_if_wanted-Early : Early I J (drain_if_wanted env s)
  unfolding drain_if_wanted
  drain_if_wanted-Early = Triple-peek _ λ st.
      Triple-if (drain st.node.state && not st.node.status.drained) _ _
        (λ _. drain_node-Early env s h) (λ _. Triple-pure _ (λ st' j. j))

  start_reboot-Last : Last I J (start_reboot env s)
  unfolding start_reboot
  start_reboot-Last = Triple-bind Here _ _ (set_boot_id-Triple env s h) (λ _.
      Triple-bind Here _ _ (Triple-gets _ (λ st j. j)) (λ name.
        Triple-bind Here _ _ (Triple-calls _ (h.reboots name) (λ n. h.node_reboots n name)) (λ _.
          Triple-bind Here _ _ (set_current_state-Triple env s h _ to_rebooting)
            (λ _. Triple-pure _ (λ st j. tt)))))

  finish_reboot-Last : Last I J (finish_reboot env s)
  unfolding finish_reboot
  finish_reboot-Last = Triple-bind Here _ _ (Triple-gets _ (λ st j. j)) (λ now.
      Triple-bind Here _ _ (patch_status-Triple env s h _ _ (λ n. stays n.status.current_state))
        (λ _. Triple-bind Here _ _ (set_state-Triple env s h NodeState.active) (λ _.
          Triple-bind Here _ _ (Triple-gets _ (λ st j. j)) (λ name.
            Triple-bind Here _ _ (entry env s h _ refl) (λ _. Triple-pure _ (λ st j. tt))))))

  await_reboot-Last : Last I J (await_reboot env s)
  unfolding await_reboot
  await_reboot-Last = Triple-peek _ λ st.
      Triple-bind Here _ _ (quiet env s h _ (λ t. is_node_rebooted-IsQuiet env s polling _ _))
        (elim [ true ↦ finish_reboot-Last | false ↦ Triple-pure _ (λ st' j. tt) ])

  reboot_if_drained-Last : Last I J (reboot_if_drained env s)
  unfolding reboot_if_drained
  reboot_if_drained-Last = Triple-peek _ λ st.
      Triple-if (not (same_state st.node.state NodeState.reboot_if_required)) _ _
        (λ _. Triple-pure _ (λ st' j. tt))
        (λ _.
          Triple-if
            (same_current_state st.node.status.current_state NodeCurrentState.drained
              && st.node.status.drained)
            _ _ (λ _. start_reboot-Last)
            (λ _.
              Triple-if (same_current_state st.node.status.current_state NodeCurrentState.rebooting)
                _ _ (λ _. await_reboot-Last) (λ _. Triple-pure _ (λ st' j. tt))))

  pub work-Last : Last I J (work env s)
  unfolding work
  work-Last =
      Triple-return_or (OnSession J) _ _ recheck_reboot-Early
        (Triple-return_or (OnSession J) _ _ drain_if_wanted-Early reboot_if_drained-Last)
