-- ===== src/Controller/Diagram/Draining.antt =====
-- node_controller.go, `drain`: the diagram along it.
use node_drain.Base.{Bool, true, false, not, ◌||◌, ◌≡◌, refl, Option, none, some, arith}
use node_drain.Base.Keeps.{Keeps, Keeps-bind, Keeps-pure, Keeps-fail, Keeps-lift, Keeps-wrapping}
use node_drain.Base.Keeps.{Keeps-attempt}
use node_drain.Base.{String, ok, err, ◌==◌}
use node_drain.Api.{NodeCurrentState, same_current_state, work_state, drain}
use node_drain.Api.States.{same_current_state→eq}
use node_drain.Cluster.{Env, call, drained_node}
use node_drain.Cluster.Quiet.{Keeps-call, Keeps-record_entry}
use node_drain.Settings.{Settings}
use node_drain.DrainManager.Quiet.{is_healthy-IsQuiet, is_drain_ok-IsQuiet, run_pre_drain-IsQuiet}
use node_drain.RebootManager.Quiet.{cleanup_node-IsQuiet}
use node_drain.Controller.Objects.{Session, CtrlResult}
use node_drain.Controller.Drain.{
  reschedule_controller, start_draining, evict, mark_drained, drain_there, drain_cordoned,
  drain_node,
}
use node_drain.Controller.Triple.{
  Triple, Going, Triple-pure, Triple-fail, Triple-gets, Triple-bind, Triple-look, Triple-io,
  Triple-if, Triple-weaken, Triple-conclude,
}
use node_drain.Controller.Diagram.{may_follow, AllFollow, aside, IsUndisturbed}
use node_drain.Controller.Diagram.Patches.{
  patch_status-Triple, set_current_state-Triple, set_unschedulable-Triple,
}

-- The node is worked on, and is not on its way back.
abbrev pub IsForward : NodeCurrentState → Type 0
IsForward c = (work_state c ≡ true) × (same_current_state c NodeCurrentState.undraining ≡ false)

-- … and is past the checks.
abbrev CanDrain : Session → Type 0
CanDrain st = may_follow st.node.status.current_state NodeCurrentState.drained ≡ true

abbrev IsDrained : Session → Type 0
IsDrained st = st.node.status.current_state ≡ NodeCurrentState.drained

IsForward-may_follow :
    (c : NodeCurrentState)
    → IsForward c
    → same_current_state c NodeCurrentState.next ≡ false
    → may_follow c NodeCurrentState.drained ≡ true
unfolding work_state
IsForward-may_follow c f h = ground arith

drained-IsForward :
    (o : Option CtrlResult) (st : Session)
    → Going IsDrained o st
    → Going (λ st'. IsForward st'.node.status.current_state) o st
unfolding work_state
drained-IsForward none st p = rw p (refl, refl)
drained-IsForward (some r) st p = tt

module _ (env : Env) (s : Settings) (u : IsUndisturbed env) where
  reschedule_controller-AllFollow : Keeps AllFollow (reschedule_controller env s)
  unfolding reschedule_controller
  reschedule_controller-AllFollow = aside λ t.
      Keeps-bind _ _ (Keeps-wrapping _ _ (Keeps-lift _))
        (λ _. Keeps-bind _ _ (Keeps-wrapping _ _ (Keeps-lift _)) (λ p. Keeps-call _ _ (λ r. refl)))

  drained_node-AllFollow :
      (node : String) → Keeps AllFollow (call (λ t. env.run_node_drain t node) (drained_node node))
  unfolding call
  drained_node-AllFollow node = record { at = λ t h. (tt, h) }

  evict-AllFollow : (node : String) → Keeps AllFollow (evict env s node)
  unfolding evict
  evict-AllFollow node =
      Keeps-bind _ _ (Keeps-wrapping _ _ (aside (λ t. run_pre_drain-IsQuiet env s.plugins node)))
        (λ _. Keeps-bind _ _ (Keeps-lift _) (λ _.
          Keeps-bind _ _ (Keeps-wrapping _ _ (aside (λ t. cleanup_node-IsQuiet env s node))) (λ _.
            Keeps-bind _ _ (Keeps-attempt _ (drained_node-AllFollow node))
              (elim [ ok _ ↦ Keeps-pure _ | err e ↦ Keeps-fail _ ]))))

  start_draining-Triple :
      Triple AllFollow
        (λ st. st.node.status.current_state ≡ NodeCurrentState.next)
        (start_draining env s)
        (λ _. CanDrain)
  unfolding start_draining
  start_draining-Triple = Triple-look _ λ st p.
      Triple-weaken _ (λ st' e. rw e p)
        (Triple-bind (λ _ st'. st'.node.status.current_state ≡ NodeCurrentState.next) _ _
          (Triple-io _ (Keeps-wrapping _ _ (aside (λ t. is_healthy-IsQuiet env s.plugins _)))
            (λ st' t q. q))
          (elim [
            | false ↦ Triple-fail _
            | true ↦
                Triple-bind (λ _ st'. st'.node.status.current_state ≡ NodeCurrentState.next) _ _
                  (Triple-io _
                    (Keeps-wrapping _ _ (aside (λ t. is_drain_ok-IsQuiet env s.plugins _)))
                    (λ st' t q. q))
                  (elim [
                    | false ↦ Triple-fail _
                    | true ↦
                        set_current_state-Triple env u _ _ NodeCurrentState.draining
                          (λ st' q. rw q refl) (λ st' q c. rw c refl) (λ st' n t q c _ _. rw c refl)
                  ])
          ]))

  mark_drained-Triple : Triple AllFollow CanDrain (mark_drained env s) (λ _. IsDrained)
  unfolding mark_drained
  mark_drained-Triple = Triple-look _ λ st p.
      Triple-weaken _ (λ st' e. rw e p)
        (Triple-bind (λ _. IsDrained) _ _
          (patch_status-Triple env u CanDrain _ _ _ (λ st' q. q) (λ st' n t q c _ _. c))
          (λ _. Triple-io _ (aside (λ t. Keeps-record_entry _ refl)) (λ st' t q. q)))

  drain_there-Triple :
      (name : String) (own : Bool)
      → Triple AllFollow CanDrain (drain_there env s name own) (Going IsDrained)
  unfolding drain_there
  drain_there-Triple name true =
      Triple-bind (λ _. CanDrain) _ _
        (Triple-io _ (Keeps-wrapping _ _ reschedule_controller-AllFollow) (λ st' t q. q))
        (λ _. Triple-pure _ (λ st' q. tt))
  drain_there-Triple name false =
      Triple-bind (λ _. CanDrain) _ _ (Triple-io _ (evict-AllFollow name) (λ st' t q. q))
        (λ _.
          Triple-bind (λ _. IsDrained) _ _ mark_drained-Triple (λ _. Triple-pure _ (λ st' q. q)))

  drain_cordoned-Triple : Triple AllFollow CanDrain (drain_cordoned env s) (Going IsDrained)
  unfolding drain_cordoned
  drain_cordoned-Triple =
      Triple-bind (λ _. CanDrain) _ _ (set_unschedulable-Triple env u _ _ true (λ st' k t q. q))
        (λ _.
          Triple-bind (λ _. CanDrain) _ _ (Triple-gets _ (λ st' q. q))
            (λ name. drain_there-Triple name (s.own_node == name)))

  -- Where it goes on, the node is drained or the state is as it was.
  pub drain_node-Triple :
      Triple AllFollow
        (λ st. IsForward st.node.status.current_state)
        (drain_node env s)
        (Going (λ st. IsForward st.node.status.current_state))
  unfolding drain_node
  drain_node-Triple = Triple-look _ λ st p.
      Triple-if (not (drain st.node.state) || st.node.status.drained) _ _
        (λ _. Triple-pure none (λ st' e. rw e p))
        (λ _.
          Triple-bind (λ _. CanDrain) _ _
            (Triple-if (same_current_state st.node.status.current_state NodeCurrentState.next) _ _
              (λ h.
                Triple-weaken _ (λ st' e. rw e (same_current_state→eq _ _ h)) start_draining-Triple)
              (λ h. Triple-pure _ (λ st' e. rw e (IsForward-may_follow _ p h))))
            (λ _. Triple-conclude _ drained-IsForward drain_cordoned-Triple))
