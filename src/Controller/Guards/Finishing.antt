-- ===== src/Controller/Guards/Finishing.antt =====
-- node_controller.go, `undrain`: the guard of its last step, to the state OK, along a run of
-- `Reconcile`.
pub mod Hooks
use mathlib.Core.Path.{subst}
use node_drain.Base.{
  sym, ap, ◌∙◌, String, List, true, false, ◌≡◌, refl, ◌⊎◌, inl, inr, All, ok, err, Result, ◌∷◌,
  arith,
}
use node_drain.Api.{Node, NodeCurrentState, same_current_state}
use node_drain.Cluster.{Entry, Trace, Env, patched_status, ran_post_drain, event, normal}
use node_drain.Cluster.Hoare.{Hoare, Hoare-bind, Hoare-conclude, Hoare-entry}
use node_drain.Cluster.Quiet.{IsAside, Keeps-Grows}
use node_drain.Cluster.Evidence.{Lasts, Lately-Lasts, All-Lasts, Throughout}
use node_drain.Settings.{Settings}
use node_drain.DrainManager.{run_post_drain}
use node_drain.DrainManager.Evidence.{Cleared, run_hooks-Hoare}
use node_drain.DrainManager.Quiet.{is_cluster_nodes_healthy-IsQuiet, run_post_drain-IsQuiet}
use node_drain.Controller.Diagram.{IsUndisturbed}
use node_drain.Controller.Objects.{Session, io, set_drained}
use node_drain.Controller.Undrain.{after_uncordon}
use node_drain.Controller.Triple.{
  Triple, Going, Attempted, Triple-pure, Triple-bind, Triple-if, Triple-io, Triple-attempt,
  Triple-look, Triple-conclude, Triple-weaken, Triple-both,
}
use node_drain.RebootManager.Quiet.{IsPolling}
use node_drain.RebootManager.Reboot.{reboot_node-Keeps}
use node_drain.Controller.{reconcile}
use node_drain.Controller.Guards.Starting.{Triple-hoare}
use node_drain.Controller.Walk.{is_write, is_ordinary, OnSession, IsPreserved, IsEntered}
use node_drain.Controller.Walk.Evicts.{evict-Keeps}
use node_drain.Controller.Walk.Patches.{entry}
use node_drain.Controller.Walk.Rules.{
  Triple-patch_status, Triple-set_current_state, Triple-uncordon, Triple-retry,
}
use node_drain.Controller.Walk.Starts.{start_draining-Triple}
use node_drain.Controller.Walk.Turns.{is_next_node-Triple}
use node_drain.Controller.Walk.Undraining.{IsUndrained, undrain-Triple}
use node_drain.Controller.Walk.Whole.{reconcile-I}
use node_drain.Controller.Guards.Finishing.Hooks.{
  Finishes, FinishGuard, Ran, Finishes-Lasts, after_uncordon-Triple,
}

not_undraining :
    (c : NodeCurrentState)
    → same_current_state c NodeCurrentState.ok ≡ true
    → same_current_state c NodeCurrentState.undraining ≡ false
not_undraining c q = ground arith

ordinary-Left :
    (from to : NodeCurrentState)
    → is_ordinary from to ≡ true
    → same_current_state from NodeCurrentState.undraining ≡ false
    → same_current_state to NodeCurrentState.undraining ≡ false
ordinary-Left from to o q = ground arith

module _ (env : Env) (s : Settings) (u : IsUndisturbed env) where
  abbrev I : Trace → Type 0
  I = Finishes s.plugins

  abbrev Any : Session → Type 0
  Any st = Unit {0}

  -- The state is not Undraining: so it is from undrain on.
  abbrev Left : Node → Trace → Type 0
  Left n t = same_current_state n.status.current_state NodeCurrentState.undraining ≡ false

  moved-Left :
      (c d : NodeCurrentState)
      → same_current_state d NodeCurrentState.undraining ≡ false
      → c ≡ d
      → same_current_state c NodeCurrentState.undraining ≡ false
  moved-Left c d q e = rw e q

  answer-Left :
      (t : Trace) (b m a : Node)
      → env.patch_status t b m ≡ ok a
      → same_current_state m.status.current_state NodeCurrentState.undraining ≡ false
      → same_current_state a.status.current_state NodeCurrentState.undraining ≡ false
  answer-Left t b m a e q = let (c, _, _, _) = u.status_answer t b m a e in moved-Left _ _ q c

  guard-write : (e : Entry) (t : Trace) → is_write e ≡ true → FinishGuard s.plugins e t
  guard-write (patched_status b m r) t q = cc
  guard-write _ t q = tt

  preserved : IsPreserved env s I Left
  preserved = record {
    asides = (Finishes-Lasts env s u);
    node_asides = λ n e t q j. j;
    status = λ b m r t e o i j. ((λ h k. cc), i);
    node_status = λ b m a t o j e. answer-Left t b m a e (ordinary-Left _ _ o j);
    writes = λ e t w i. (guard-write e t w, i);
    kube = λ b m r t o i. (tt, i);
    node_spec = λ b a c t j e.
        let (q, _, _, _) = u.spec_answer t b (record b { state = c }) a e in moved-Left _ _ j q;
    node_kube = λ n k m r t j. j;
    turns =
        is_next_node-Triple env I Left (Finishes-Lasts env s u) (λ n e t q j. j)
          (Triple-set_current_state env I Left _ _ (λ st q p. p.0) (λ st r d i p. ((λ h k. cc), i))
            (λ st a p e. answer-Left _ _ _ a e refl));
    starts =
        start_draining-Triple env s I Left (Finishes-Lasts env s u) (λ n e t q j. j)
          (Triple-set_current_state env I Left _ _ (λ st q p. p.0) (λ st r d i p. ((λ h k. cc), i))
            (λ st a p e. answer-Left _ _ _ a e refl));
    evicts = λ n e. evict-Keeps env s n I (Finishes-Lasts env s u) (λ r t i. (tt, i));
    node_evicts = λ n name e. record { at = λ t j. j };
    reboots = λ n. reboot_node-Keeps env s n I (Finishes-Lasts env s u) (λ r t i. (tt, i));
    node_reboots = λ n name. record { at = λ t j. j };
  }

  undrained : IsUndrained env s I Any Any (Ran env s u) (OnSession Left)
  undrained = record {
    healthy =
        Triple-conclude _ (λ b st q h. tt)
          (Triple-io {P = Any} _
            (Keeps-Grows (Finishes-Lasts env s u) (λ t. is_cluster_nodes_healthy-IsQuiet env))
            (λ st t p. tt));
    uncordons = Triple-uncordon env I _ _ (λ st r i p. (tt, i)) (λ st p. tt) (λ st k p. tt);
    hooks = after_uncordon-Triple env s u;
    finishes =
        Triple-set_current_state env I Left (Ran env s u) NodeCurrentState.ok
          (λ st q p. not_undraining _ q) (λ st r d i p. ((λ h k. p), i))
          (λ st a p e. answer-Left _ _ _ a e refl);
    reports = λ e q. entry env s preserved e q;
    starts =
        Triple-set_current_state env I (λ _ _. Unit {0}) Any NodeCurrentState.undraining
          (λ st q p. tt) (λ st r d i p. ((λ h k. cc), i)) (λ st a p e. tt);
    leaves = λ st p d. d;
  }

  entered : IsEntered env s I (λ _ _. Unit {0}) Left
  entered = record { enters = λ name n t i e. tt; undrains = undrain-Triple env s undrained }

  -- In every environment in which polling only calls its condition and no other writer changes the
  -- fields between a read and a patch's answer, a run of `Reconcile` on any node leaves a trace in
  -- which each patch that moves a status from Undraining to OK has its guard, if it started from
  -- one: each plugin's PostDrain hook for this node succeeded, or it said that it does not support
  -- the cluster, since the last change of an object but one patch of the status that leaves the
  -- observed state.
  pub reconcile-Finishes :
      IsPolling env
      → (name : String) (t : Trace) → Finishes s.plugins t
      → Finishes s.plugins (reconcile env s name t).1
  reconcile-Finishes polling name t h = (reconcile-I env s preserved entered polling name).at t h
