-- ===== src/Controller/Walk/Undraining.antt =====
-- node_controller.go, `undrain`: what it keeps, from what its calls keep.
use node_drain.Base.{Bool, true, false, ◌≡◌, refl, none, some, ok, err, Result}
use node_drain.Api.{NodeCurrentState, same_current_state}
use node_drain.Cluster.{Entry, Env, Trace, record_entry}
use node_drain.Cluster.Quiet.{IsAside}
use node_drain.Settings.{Settings}
use node_drain.DrainManager.{is_cluster_nodes_healthy}
use node_drain.Controller.Objects.{Session, CtrlResult, io, set_unschedulable, set_current_state}
use node_drain.Controller.Undrain.{
  undrain_due, uncordon_if_healthy, after_uncordon, finish_undrain, undrain_as_due, undrain,
}
use node_drain.Controller.Triple.{
  Triple, Going, Attempted, Triple-pure, Triple-fail, Triple-bind, Triple-if, Triple-look,
  Triple-attempt, Triple-weaken,
}
use node_drain.Controller.Walk.Rules.{Triple-peek, Triple-retry}

-- `P` holds at the start, `Ready` where the nodes were found ready, `Ran` after the hooks, and `Q`
-- where the run goes on.
pub record IsUndrained (env : Env) (s : Settings) (I : Trace → Type 0)
    (P Ready Ran Q : Session → Type 0) : Type 0 where
  pub healthy : Triple I P (io (is_cluster_nodes_healthy env)) (λ b st. b ≡ true → Ready st)
  pub uncordons : Triple I Ready (set_unschedulable env false) (λ _. P)
  pub hooks : Triple I P (after_uncordon env s) (Going {A = CtrlResult} Ran)
  pub finishes : Triple I Ran (set_current_state env NodeCurrentState.ok) (λ _. Q)
  pub reports : (e : Entry) → IsAside e → Triple I Q (io (record_entry e)) (λ _. Q)
  pub starts : Triple I P (set_current_state env NodeCurrentState.undraining) (λ _ _. Unit {0})
  pub leaves :
      (st : Session)
      → P st
      → same_current_state st.node.status.current_state NodeCurrentState.undraining ≡ false
      → Q st

module _ (env : Env) (s : Settings) {I : Trace → Type 0} {P Ready Ran Q : Session → Type 0}
    (h : IsUndrained env s I P Ready Ran Q) where
  uncordon_if_healthy-Triple : Triple I P (uncordon_if_healthy env s) (Going {A = CtrlResult} P)
  unfolding uncordon_if_healthy
  uncordon_if_healthy-Triple = Triple-peek _ λ st.
      Triple-if st.kube_node.unschedulable _ _
        (λ _.
          Triple-bind (Attempted (λ b st'. b ≡ true → Ready st')) _ _ (Triple-attempt _ h.healthy)
            (elim [
              | err e ↦ Triple-pure _ (λ st' q. tt)
              | ok false ↦ Triple-pure _ (λ st' q. tt)
              | ok true ↦ Triple-retry _ _ (Triple-weaken _ (λ st' q. q refl) h.uncordons)
            ]))
        (λ _. Triple-pure _ (λ st' p. p))

  finish_undrain-Triple : Triple I Ran (finish_undrain env s) (Going {A = CtrlResult} Q)
  unfolding finish_undrain
  finish_undrain-Triple = Triple-peek _ λ st.
      Triple-bind (λ _. Q) _ _ h.finishes
        (λ _. Triple-bind (λ _. Q) _ _ (h.reports _ refl) (λ _. Triple-pure _ (λ st' q. q)))

  undrain_as_due-Triple :
      (d : Result Bool)
      → Triple I (λ st. P st × Q st) (undrain_as_due env s d) (Going {A = CtrlResult} Q)
  unfolding undrain_as_due
  undrain_as_due-Triple (err e) = Triple-fail _
  undrain_as_due-Triple (ok false) = Triple-pure _ (λ st q. q.1)
  undrain_as_due-Triple (ok true) =
      Triple-bind (λ _ _. Unit {0}) _ _ (Triple-weaken _ (λ st q. q.0) h.starts)
        (λ _. Triple-pure _ (λ st q. tt))

  pub undrain-Triple : Triple I P (undrain env s) (Going {A = CtrlResult} Q)
  unfolding undrain
  undrain-Triple = Triple-look _ λ st p.
      Triple-if (same_current_state st.node.status.current_state NodeCurrentState.undraining) _ _
        (λ _.
          Triple-weaken _ (λ st' e. rw e p)
            (Triple-bind (Going P) _ _ uncordon_if_healthy-Triple (elim [
              | some r ↦ Triple-pure _ (λ st' q. tt)
              | none ↦
                  Triple-bind (Going Ran) _ _ h.hooks
                    (elim [ some r ↦ Triple-pure _ (λ st' q. tt) | none ↦ finish_undrain-Triple ])
            ])))
        (λ d.
          Triple-weaken _ (λ st' e. rw e (p, h.leaves st p d))
            (undrain_as_due-Triple (undrain_due st.node.state st.node.status.current_state)))
