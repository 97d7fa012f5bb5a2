-- ===== src/Controller/Diagram/Undraining.antt =====
-- node_controller.go, `undrain`: the diagram along it.
use node_drain.Base.{Bool, true, false, ◌≡◌, refl, none}
use node_drain.Base.{some, ok, err, Result, arith, ◌∙◌}
use node_drain.Api.{NodeState, NodeCurrentState, same_current_state}
use node_drain.Api.States.{same_current_state→eq}
use node_drain.Cluster.{Env}
use node_drain.Cluster.Quiet.{Keeps-record_entry}
use node_drain.Settings.{Settings}
use node_drain.DrainManager.Quiet.{is_cluster_nodes_healthy-IsQuiet, run_post_drain-IsQuiet}
use node_drain.Controller.Objects.{Session}
use node_drain.Controller.Undrain.{
  undrain_due, uncordon_if_healthy, after_uncordon, finish_undrain, undrain_as_due, undrain,
}
use node_drain.Controller.Triple.{
  Triple, Going, Triple-pure, Triple-fail, Triple-bind, Triple-attempt, Triple-look, Triple-io,
  Triple-attempt_io, Attempted, Triple-if, Triple-weaken,
}
use node_drain.Controller.Diagram.{may_follow, AllFollow, aside, IsUndisturbed}
use node_drain.Controller.Diagram.Patches.{
  set_drained-Triple, set_current_state-Triple, set_unschedulable-Triple,
}

-- What holds where `undrain` goes on.
abbrev pub IsSettled : Session → Type 0
IsSettled st =
    (same_current_state st.node.status.current_state NodeCurrentState.undraining ≡ false)
    × (undrain_due st.node.state st.node.status.current_state ≡ ok false)

abbrev IsUndraining : Session → Type 0
IsUndraining st = st.node.status.current_state ≡ NodeCurrentState.undraining

ok-IsSettled : (st : Session) → st.node.status.current_state ≡ NodeCurrentState.ok → IsSettled st
unfolding undrain_due
ok-IsSettled st p = rw p (refl, refl)

due-may_follow :
    (state : NodeState) (c : NodeCurrentState)
    → undrain_due state c ≡ ok true
    → may_follow c NodeCurrentState.undraining ≡ true
unfolding undrain_due
due-may_follow state c h = ground arith

module _ (env : Env) (s : Settings) (u : IsUndisturbed env) where
  uncordon_if_healthy-Triple :
      Triple AllFollow IsUndraining (uncordon_if_healthy env s) (Going IsUndraining)
  unfolding uncordon_if_healthy
  uncordon_if_healthy-Triple = Triple-look _ λ st p.
      Triple-weaken _ (λ st' e. rw e p)
        (Triple-if st.kube_node.unschedulable _ _
          (λ _.
            Triple-bind (λ _ st'. IsUndraining st') _ _
              (Triple-attempt_io _ (aside (λ t. is_cluster_nodes_healthy-IsQuiet env))
                (λ st' t q. q))
              (elim [
                | err e ↦ Triple-pure _ (λ st' q. tt)
                | ok false ↦ Triple-pure _ (λ st' q. tt)
                | ok true ↦
                    Triple-bind (Attempted (λ _. IsUndraining)) _ _
                      (Triple-attempt _ (set_unschedulable-Triple env u _ _ false (λ st' k t q. q)))
                      (elim [
                        | err e ↦ Triple-pure _ (λ st' q. tt)
                        | ok _ ↦ Triple-pure _ (λ st' q. q)
                      ])
              ]))
          (λ _. Triple-pure none (λ st' q. q)))

  after_uncordon-Triple : Triple AllFollow IsUndraining (after_uncordon env s) (Going IsUndraining)
  unfolding after_uncordon
  after_uncordon-Triple = Triple-look _ λ st p.
      Triple-weaken _ (λ st' e. rw e p)
        (Triple-bind (λ _ st'. IsUndraining st') _ _
          (Triple-attempt_io _ (aside (λ t. run_post_drain-IsQuiet env s.plugins _)) (λ st' t q. q))
          (elim [
            | err e ↦ Triple-pure _ (λ st' q. tt)
            | ok _ ↦
                Triple-if st.node.status.drained _ _
                  (λ _.
                    Triple-bind (Attempted (λ _. IsUndraining)) _ _
                      (Triple-attempt _
                        (set_drained-Triple env u _ _ false (λ st' n t q c _ _. c ∙ q)))
                      (elim [
                        | err e ↦ Triple-pure _ (λ st' q. tt)
                        | ok _ ↦ Triple-pure _ (λ st' q. q)
                      ]))
                  (λ _. Triple-pure none (λ st' q. q))
          ]))

  finish_undrain-Triple : Triple AllFollow IsUndraining (finish_undrain env s) (Going IsSettled)
  unfolding finish_undrain
  finish_undrain-Triple = Triple-look _ λ st p.
      Triple-weaken _ (λ st' e. rw e p)
        (Triple-bind (λ _ st'. st'.node.status.current_state ≡ NodeCurrentState.ok) _ _
          (set_current_state-Triple env u IsUndraining _ NodeCurrentState.ok (λ st' q. rw q refl)
            (λ st' q c. c) (λ st' n t q c _ _. c))
          (λ _.
            Triple-bind (λ _ st'. st'.node.status.current_state ≡ NodeCurrentState.ok) _ _
              (Triple-io _ (aside (λ t. Keeps-record_entry _ refl)) (λ st' t q. q))
              (λ _. Triple-pure none ok-IsSettled)))

  pub undrain-Triple : Triple AllFollow (λ st. Unit {0}) (undrain env s) (Going IsSettled)
  unfolding undrain undrain_as_due
  undrain-Triple = Triple-look _ λ st _.
      Triple-if (same_current_state st.node.status.current_state NodeCurrentState.undraining) _ _
        (λ h.
          Triple-weaken _ (λ st' e. rw e (same_current_state→eq _ _ h))
            (Triple-bind (Going IsUndraining) _ _ uncordon_if_healthy-Triple (elim [
              | some r ↦ Triple-pure _ (λ st' q. tt)
              | none ↦
                  Triple-bind (Going IsUndraining) _ _ after_uncordon-Triple
                    (elim [ some r ↦ Triple-pure _ (λ st' q. tt) | none ↦ finish_undrain-Triple ])
            ])))
        (λ h. undrain_or_go st h (undrain_due st.node.state st.node.status.current_state) refl)
    where
      undrain_or_go :
          (st : Session)
          → same_current_state st.node.status.current_state NodeCurrentState.undraining ≡ false
          → (d : Result Bool) → undrain_due st.node.state st.node.status.current_state ≡ d
          → Triple AllFollow (λ st'. st' ≡ st) (undrain_as_due env s d) (Going IsSettled)
      undrain_or_go st h (err e) d = Triple-fail e
      undrain_or_go st h (ok false) d = Triple-pure none (λ st' e. rw e (h, d))
      undrain_or_go st h (ok true) d =
          Triple-bind (λ _ _. Unit {0}) _ _
            (set_current_state-Triple env u _ _ NodeCurrentState.undraining
              (λ st' e. rw e (due-may_follow st.node.state st.node.status.current_state d))
              (λ st' e c. tt) (λ st' n t e _ _ _. tt))
            (λ _. Triple-pure _ (λ st' q. tt))
