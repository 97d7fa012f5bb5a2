-- ===== src/Controller/Diagram/Working.antt =====
-- node_controller.go, the work on a node that has left the queue: the diagram along it.
use node_drain.Base.{ℕ, Bool, true, false, not, ◌&&◌, ◌||◌, ◌*◌, ◌≡◌, refl, ◌∙◌, arith}
use node_drain.Base.{String}
use node_drain.Base.Keeps.{Keeps-wrapping}
use node_drain.Api.{NodeState, NodeCurrentState, same_state, same_current_state, work_state}
use node_drain.Api.{drain}
use node_drain.Api.States.{same_current_state→eq}
use node_drain.Cluster.{Env}
use node_drain.Cluster.Quiet.{Keeps-record_entry}
use node_drain.Settings.{Settings}
use node_drain.RebootManager.Quiet.{IsPolling, is_reboot_required-IsQuiet, is_node_rebooted-IsQuiet}
use node_drain.Controller.Objects.{Session, minute}
use node_drain.Controller.Work.{
  report, is_reboot_required, check_reboot_required, still_required, recheck_reboot,
  drain_if_wanted, start_reboot, finish_reboot, await_reboot, reboot_if_drained, work, is_stale,
  check_interval,
}
use node_drain.Controller.Triple.{
  Triple, Going, Triple-pure, Triple-gets, Triple-bind, Triple-look, Triple-io, Triple-if,
  Triple-weaken, Triple-return_or,
}
use node_drain.RebootManager.Reboot.{reboot_node-Keeps}
use node_drain.Controller.Diagram.{AllFollow, AllFollow-aside, aside, IsUndisturbed}
use node_drain.Controller.Diagram.Patches.{
  stays, patch_status-Triple, set_current_state-Triple, set_state-Triple, set_boot_id-Triple,
}
use node_drain.Controller.Diagram.Draining.{IsForward, drain_node-Triple}

module _ (env : Env) (s : Settings) (u : IsUndisturbed env) (polling : IsPolling env) where
  -- The checks for a required reboot leave the two states.
  module _ (P : NodeState → NodeCurrentState → Type 0) where
    abbrev Of : Session → Type 0
    Of st = P st.node.state st.node.status.current_state

    report-Triple : (name : String) (b : Bool) → Triple AllFollow Of (report env s name b) (λ _. Of)
    unfolding report
    report-Triple name true = Triple-io _ (aside (λ t. Keeps-record_entry _ refl)) (λ st' t q. q)
    report-Triple name false = Triple-pure _ (λ st' q. q)

    pub is_reboot_required-Triple : Triple AllFollow Of (is_reboot_required env s) (λ _. Of)
    unfolding is_reboot_required
    is_reboot_required-Triple = Triple-look _ λ st p.
        Triple-weaken _ (λ st' e. rw e p)
          (Triple-bind (λ _. Of) _ _
            (Triple-io _
              (Keeps-wrapping _ _ (aside (λ t. is_reboot_required-IsQuiet env s polling _)))
              (λ st' t q. q))
            (λ required.
              Triple-bind (λ _. Of) _ _ (Triple-gets _ (λ st' q. q))
                (λ (now : ℕ).
                  Triple-bind (λ _. Of) _ _
                    (patch_status-Triple env u Of Of _ _
                      (λ st' q. stays st'.node.status.current_state)
                      (λ st' n t q c d _. rw (c, d) q))
                    (λ _.
                      Triple-bind (λ _. Of) _ _ (Triple-gets _ (λ st' q. q))
                        (λ name.
                          Triple-bind (λ _. Of) _ _ (report-Triple name required)
                            (λ _. Triple-pure _ (λ st' q. q)))))))

    pub check_reboot_required-Triple : Triple AllFollow Of (check_reboot_required env s) (λ _. Of)
    unfolding check_reboot_required
    check_reboot_required-Triple = Triple-look _ λ st p.
        Triple-weaken _ (λ st' e. rw e p)
          (Triple-if (work_state st.node.status.current_state) _ _ (λ _. Triple-pure _ (λ st' q. q))
            (λ _.
              Triple-if
                (is_stale st.node.status.reboot_required_last_checked (env.now st.trace)
                  (check_interval s.reboot_check_interval))
                _ _
                (λ _.
                  Triple-bind (λ _. Of) _ _ is_reboot_required-Triple
                    (λ _. Triple-pure _ (λ st' q. q)))
                (λ _. Triple-pure _ (λ st' q. q))))

    still_required-Triple : Triple AllFollow Of (still_required env s) (λ _. Of)
    unfolding still_required
    still_required-Triple = Triple-look _ λ st p.
        Triple-weaken _ (λ st' e. rw e p)
          (Triple-if
            (is_stale st.node.status.reboot_required_last_checked (env.now st.trace) (2 * minute)) _
            _ (λ _. is_reboot_required-Triple) (λ _. Triple-pure _ (λ st' q. q)))

  abbrev Forward : Session → Type 0
  Forward st = IsForward st.node.status.current_state

  recheck_reboot-Triple : Triple AllFollow Forward (recheck_reboot env s) (Going Forward)
  unfolding recheck_reboot
  recheck_reboot-Triple = Triple-look _ λ st p.
      Triple-weaken _ (λ st' e. rw e p)
        (Triple-if
          (same_state st.node.state NodeState.reboot_if_required
            && (same_current_state st.node.status.current_state NodeCurrentState.next
                || same_current_state st.node.status.current_state NodeCurrentState.drained))
          _ _
          (λ _.
            Triple-bind (λ _. Forward) _ _ (still_required-Triple (λ _ c. IsForward c))
              (elim [
                | true ↦ Triple-pure _ (λ st' q. q)
                | false ↦
                    Triple-bind (λ _ _. Unit {0}) _ _
                      (set_state-Triple env u _ _ NodeState.active (λ st' q. tt)
                        (λ st' n t q _. tt))
                      (λ _. Triple-pure _ (λ st' q. tt))
              ]))
          (λ _. Triple-pure _ (λ st' q. q)))

  drain_if_wanted-Triple : Triple AllFollow Forward (drain_if_wanted env s) (Going Forward)
  unfolding drain_if_wanted
  drain_if_wanted-Triple = Triple-look _ λ st p.
      Triple-weaken _ (λ st' e. rw e p)
        (Triple-if (drain st.node.state && not st.node.status.drained) _ _
          (λ _. drain_node-Triple env s u) (λ _. Triple-pure _ (λ st' q. q)))

  abbrev Drained : Session → Type 0
  Drained st = st.node.status.current_state ≡ NodeCurrentState.drained

  start_reboot-Triple : Triple AllFollow Drained (start_reboot env s) (λ _ _. Unit {0})
  unfolding start_reboot
  start_reboot-Triple =
      Triple-bind (λ _. Drained) _ _
        (set_boot_id-Triple env u Drained Drained (λ st' q. q) (λ st' n t q c _ _. c ∙ q))
        (λ _.
          Triple-bind (λ _. Drained) _ _ (Triple-gets _ (λ st' q. q))
            (λ name.
              Triple-bind (λ _. Drained) _ _
                (Triple-io _
                  (reboot_node-Keeps env s name AllFollow AllFollow-aside (λ r t h. (tt, h)))
                  (λ st' t q. q))
                (λ _.
                  Triple-bind (λ _ _. Unit {0}) _ _
                    (set_current_state-Triple env u Drained _ NodeCurrentState.rebooting
                      (λ st' q. rw q refl) (λ st' q c. tt) (λ st' n t q _ _ _. tt))
                    (λ _. Triple-pure _ (λ st' q. tt)))))

  finish_reboot-Triple : Triple AllFollow (λ _. Unit {0}) (finish_reboot env s) (λ _ _. Unit {0})
  unfolding finish_reboot
  finish_reboot-Triple =
      Triple-bind (λ _ _. Unit {0}) _ _ (Triple-gets _ (λ st' q. q))
        (λ now.
          Triple-bind (λ _ _. Unit {0}) _ _
            (patch_status-Triple env u _ _ _ _ (λ st' q. stays st'.node.status.current_state)
              (λ st' n t q _ _ _. tt))
            (λ _.
              Triple-bind (λ _ _. Unit {0}) _ _
                (set_state-Triple env u _ _ NodeState.active (λ st' q. tt) (λ st' n t q _. tt))
                (λ _.
                  Triple-bind (λ _ _. Unit {0}) _ _ (Triple-gets _ (λ st' q. q))
                    (λ name.
                      Triple-bind (λ _ _. Unit {0}) _ _
                        (Triple-io _ (aside (λ t. Keeps-record_entry _ refl)) (λ st' t q. q))
                        (λ _. Triple-pure _ (λ st' q. tt))))))

  await_reboot-Triple : Triple AllFollow (λ _. Unit {0}) (await_reboot env s) (λ _ _. Unit {0})
  unfolding await_reboot
  await_reboot-Triple = Triple-look _ λ st _.
      Triple-weaken _ (λ st' e. tt)
        (Triple-bind (λ _ _. Unit {0}) _ _
          (Triple-io _ (aside (λ t. is_node_rebooted-IsQuiet env s polling _ _)) (λ st' t q. q))
          (elim [ true ↦ finish_reboot-Triple | false ↦ Triple-pure _ (λ st' q. tt) ]))

  reboot_if_drained-Triple : Triple AllFollow Forward (reboot_if_drained env s) (λ _ _. Unit {0})
  unfolding reboot_if_drained
  reboot_if_drained-Triple = Triple-look _ λ st p.
      Triple-if (not (same_state st.node.state NodeState.reboot_if_required)) _ _
        (λ _. Triple-pure _ (λ st' q. tt))
        (λ _.
          Triple-if
            (same_current_state st.node.status.current_state NodeCurrentState.drained
              && st.node.status.drained)
            _ _
            (λ h.
              Triple-weaken _ (λ st' e. rw e (same_current_state→eq _ _ (ground arith)))
                start_reboot-Triple)
            (λ _.
              Triple-if (same_current_state st.node.status.current_state NodeCurrentState.rebooting)
                _ _ (λ _. Triple-weaken _ (λ st' e. tt) await_reboot-Triple)
                (λ _. Triple-pure _ (λ st' q. tt))))

  pub work-Triple : Triple AllFollow Forward (work env s) (λ _ _. Unit {0})
  unfolding work
  work-Triple =
      Triple-return_or Forward _ _ recheck_reboot-Triple
        (Triple-return_or Forward _ _ drain_if_wanted-Triple reboot_if_drained-Triple)
