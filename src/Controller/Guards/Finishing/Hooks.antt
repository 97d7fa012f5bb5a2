-- ===== src/Controller/Guards/Finishing/Hooks.antt =====
-- drain-manager.go, `RunPostDrain`: the evidence that undrain has of the hooks when it is done.
use mathlib.Core.Path.{subst}
use node_drain.Base.{
  sym, ap, ◌∙◌, String, List, true, false, ◌≡◌, refl, ◌⊎◌, inl, inr, All, ok, err, Result, ◌∷◌,
  arith,
}
use node_drain.Api.{Node, NodeCurrentState, same_current_state}
use node_drain.Cluster.{Entry, Trace, Env, patched_status, ran_post_drain, event, normal}
use node_drain.Cluster.Hoare.{Hoare, Hoare-bind, Hoare-conclude, Hoare-entry}
use node_drain.Cluster.Quiet.{IsAside, Keeps-Grows}
use node_drain.Cluster.Evidence.{Lasts, Lately-Lasts, All-Lasts, Throughout}
use node_drain.Settings.{Settings}
use node_drain.DrainManager.{run_post_drain}
use node_drain.DrainManager.Evidence.{Cleared, run_hooks-Hoare}
use node_drain.DrainManager.Quiet.{run_post_drain-IsQuiet}
use node_drain.Controller.Diagram.{IsUndisturbed}
use node_drain.Controller.Objects.{Session, io, set_drained}
use node_drain.Controller.Undrain.{after_uncordon}
use node_drain.Controller.Triple.{
  Triple, Going, Attempted, Triple-pure, Triple-bind, Triple-if, Triple-io, Triple-attempt,
  Triple-look, Triple-conclude, Triple-weaken, Triple-both,
}
use node_drain.Controller.Guards.Starting.{Triple-hoare}
use node_drain.Controller.Walk.Rules.{Triple-patch_status, Triple-retry}

-- Every plugin's PostDrain hook for the node succeeded lately, or it does not support the cluster.
abbrev pub Released : List String → String → Trace → Type 0
Released plugins n t = All (λ id. Cleared (λ i. ran_post_drain i n) id t) plugins

-- So it was, now or before one patch of the status that left the observed state as it was.
abbrev pub HooksRan : List String → String → Trace → Type 0
HooksRan plugins n t =
    Released plugins n t
    ⊎ ((b : Node) × (m : Node) × (r : Result Node) × (u : Trace) × (t ≡ patched_status b m r ∷ u)
        × (m.status.current_state ≡ b.status.current_state)
        × Released plugins n u)

-- A node leaves the state Undraining for OK after the hooks.
abbrev pub FinishGuard : List String → Entry → Trace → Type 0
FinishGuard plugins (patched_status b m r) t =
    same_current_state b.status.current_state NodeCurrentState.undraining ≡ true
    → same_current_state m.status.current_state NodeCurrentState.ok ≡ true
    → HooksRan plugins b.name t
FinishGuard plugins _ t = Unit

abbrev pub Finishes : List String → Trace → Type 0
Finishes plugins = Throughout (FinishGuard plugins)

apart :
    {A : Type 0} (c : NodeCurrentState)
    → same_current_state c NodeCurrentState.undraining ≡ true
    → same_current_state c NodeCurrentState.ok ≡ true
    → A
apart c h k = ground arith

module _ (env : Env) (s : Settings) (u : IsUndisturbed env) where
  abbrev I : Trace → Type 0
  I = Finishes s.plugins

  abbrev J : Node → Trace → Type 0
  J n t = HooksRan s.plugins n.name t

  abbrev Any : Session → Type 0
  Any st = Unit {0}

  abbrev pub Ran : Session → Type 0
  Ran st = J st.node st.trace

  guard-aside : (e : Entry) (t : Trace) → IsAside e → FinishGuard s.plugins e t
  guard-aside (patched_status b m r) t q = cc
  guard-aside _ t q = tt

  pub Finishes-Lasts : Lasts I
  Finishes-Lasts e t q h = (guard-aside e t q, h)

  Released-Lasts : (n : String) → Lasts (Released s.plugins n)
  Released-Lasts n = All-Lasts _ (λ id. Lately-Lasts _) s.plugins

  abbrev Anything : Trace → Type 0
  Anything t = Unit {0}

  post_drain-Hoare :
      (n : String)
      → Hoare Anything Anything (run_post_drain env s.plugins n) (λ _. Released s.plugins n)
  unfolding run_post_drain
  post_drain-Hoare n =
      Hoare-bind (λ _. Released s.plugins n) _ _
        (Hoare-conclude (λ a t q. q.1)
          (run_hooks-Hoare {I = Anything} (λ e t q h. tt) env (λ i. ran_post_drain i n)
            (λ i r. refl) (λ i t. env.post_drain t i n) _ _ n s.plugins {R = Anything}
            (λ e t q h. h)))
        (λ _. Hoare-entry _ (λ t i p. (tt, Released-Lasts n (event normal "PostDrain" n) t refl p)))

  hooks-Triple :
      (n : Node)
      → Triple I
          (λ st. st.node ≡ n)
          (io (run_post_drain env s.plugins n.name))
          (λ _ st. (st.node ≡ n) × Released s.plugins n.name st.trace)
  hooks-Triple n =
      Triple-conclude _ (λ b st q. q.1)
        (Triple-weaken _ (λ st p. (tt, (p, tt)))
          (Triple-both _
            (Triple-io {P = Any} _
              (Keeps-Grows Finishes-Lasts (λ t. run_post_drain-IsQuiet env s.plugins n.name))
              (λ st t p. tt))
            (Triple-hoare n _ (post_drain-Hoare n.name))))

  -- The patch of the field `drained` leaves the observed state.
  set_drained-Triple :
      (n : Node)
      → Triple I
          (λ st. (st.node ≡ n) × Released s.plugins n.name st.trace)
          (set_drained env false)
          (λ _. Ran)
  unfolding set_drained
  set_drained-Triple n =
      Triple-patch_status env I J _ _ _ (λ st r i p. (λ h k. apart _ h k, i))
        (λ st a p e.
          let (_, _, _, same) = u.status_answer st.trace st.node _ a e in
          let named : n.name ≡ a.name = sym (ap Node.name p.0) ∙ sym same in
          inr (
            st.node,
            record st.node { status = record st.node.status { drained = false } },
            ok a,
            st.trace,
            refl,
            refl,
            subst (λ x. Released s.plugins x st.trace) named p.1,
          ))

  pub after_uncordon-Triple : Triple I Any (after_uncordon env s) (Going Ran)
  unfolding after_uncordon
  after_uncordon-Triple = Triple-look _ λ st p.
      Triple-bind
        (Attempted (λ _ st'. (st'.node ≡ st.node) × Released s.plugins st.node.name st'.trace)) _ _
        (Triple-attempt _ (Triple-weaken _ (λ st' e. ap Session.node e) (hooks-Triple st.node)))
        (elim [
          | err e ↦ Triple-pure _ (λ st' q. tt)
          | ok _ ↦
              Triple-if st.node.status.drained _ _
                (λ _. Triple-retry _ _ (set_drained-Triple st.node))
                (λ _. Triple-pure _ (λ st' q.
                  inl (subst (λ x. Released s.plugins x st'.trace) (sym (ap Node.name q.0)) q.1)))
        ])
