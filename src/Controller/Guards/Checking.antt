-- ===== src/Controller/Guards/Checking.antt =====
-- node_controller.go, the checks of `drain`: their place along runs of `Reconcile`.
use node_drain.Base.{String, true, false, ◌≡◌, arith}
use node_drain.Api.{NodeCurrentState, same_current_state}
use node_drain.Cluster.{Entry, Trace, Env, patched_status}
use node_drain.Cluster.Quiet.{IsAside}
use node_drain.Cluster.Evidence.{Lasts, Throughout}
use node_drain.Settings.{Settings}
use node_drain.RebootManager.Quiet.{IsPolling}
use node_drain.Controller.{reconcile}
use node_drain.Controller.Guards.Starting.{Checked}
use node_drain.Controller.Walk.{is_write, is_ordinary, IsPreserved, IsEntered}
use node_drain.Controller.Walk.Draining.{undrain-Early}
use node_drain.Controller.Walk.Rules.{Triple-set_current_state, Triple-uncordon}
use node_drain.Controller.Walk.Starts.{start_draining-Triple}
use node_drain.Controller.Walk.Turns.{is_next_node-Triple}
use node_drain.Controller.Walk.Whole.{reconcile-I}
use node_drain.Controller.Walk.Evicts.{evict-Keeps}
use node_drain.RebootManager.Reboot.{reboot_node-Keeps}

-- A patch that begins to drain a node comes after both checks.
abbrev pub StartGuard : Settings → Entry → Trace → Type 0
StartGuard s (patched_status b m r) t =
    same_current_state b.status.current_state NodeCurrentState.draining ≡ false
    → same_current_state m.status.current_state NodeCurrentState.draining ≡ true
    → Checked s.plugins b.name t
StartGuard s _ t = Unit

ordinary-clash :
    {A : Type 0} (from to : NodeCurrentState)
    → is_ordinary from to ≡ true
    → same_current_state from NodeCurrentState.draining ≡ false
    → same_current_state to NodeCurrentState.draining ≡ true
    → A
ordinary-clash from to o f t = ground arith

module _ (env : Env) (s : Settings) where
  abbrev pub Starts : Trace → Type 0
  Starts = Throughout (StartGuard s)

  guard-aside : (e : Entry) (t : Trace) → IsAside e → StartGuard s e t
  guard-aside (patched_status b m r) t q = cc
  guard-aside _ t q = tt

  Starts-Lasts : Lasts Starts
  Starts-Lasts e t q h = (guard-aside e t q, h)

  guard-write : (e : Entry) (t : Trace) → is_write e ≡ true → StartGuard s e t
  guard-write (patched_status b m r) t q = cc
  guard-write _ t q = tt

  preserved : IsPreserved env s Starts (λ _ _. Unit {0})
  preserved = record {
    asides = Starts-Lasts;
    node_asides = λ n e t q j. tt;
    status = λ b m r t e o i j. ((λ f d. ordinary-clash _ _ o f d), i);
    node_status = λ b m a t o j e. tt;
    kube = λ b m r t o i. (tt, i);
    writes = λ e t w i. (guard-write e t w, i);
    node_spec = λ b a c t j e. tt;
    node_kube = λ n k m r t j. tt;
    turns =
        is_next_node-Triple env Starts _ Starts-Lasts (λ n e t q j. tt)
          (Triple-set_current_state env Starts _ _ _ (λ st q p. tt) (λ st r d i p. ((λ f e. cc), i))
            (λ st a p e. tt));
    starts =
        start_draining-Triple env s Starts _ Starts-Lasts (λ n e t q j. tt)
          (Triple-set_current_state env Starts _ _ _ (λ st q p. tt)
            (λ st r d i p. ((λ f e. p.1), i)) (λ st a p e. tt));
    evicts = λ n e. evict-Keeps env s n Starts Starts-Lasts (λ r t i. (tt, i));
    node_evicts = λ n name e. record { at = λ t j. tt };
    reboots = λ n. reboot_node-Keeps env s n Starts Starts-Lasts (λ r t i. (tt, i));
    node_reboots = λ n name. record { at = λ t j. tt };
  }

  entered : IsEntered env s Starts (λ _ _. Unit {0}) (λ _ _. Unit {0})
  entered = record {
    enters = λ name n t i e. tt;
    undrains =
        undrain-Early env s preserved
          (Triple-uncordon env Starts _ _ (λ st r i j. (tt, i)) (λ st j. tt) (λ st k j. tt))
          (Triple-set_current_state env Starts (λ _ _. Unit {0}) _ _ (λ st q p. tt)
            (λ st r d i p. ((λ f e. cc), i)) (λ st a p e. tt));
  }

  -- In every environment in which polling only calls its condition, a run of `Reconcile` on any
  -- node leaves a trace in which each patch that moves a status to Draining from another state has
  -- its guard, if it started from one: since the last change of an object, drain or reboot the
  -- nodes of the cluster were listed and none was found that is not ready, and each plugin that
  -- supports the cluster said that the cluster is healthy and that the node is ok to drain.
  pub reconcile-Starts :
      IsPolling env → (name : String) (t : Trace) → Starts t → Starts (reconcile env s name t).1
  reconcile-Starts polling name t h = (reconcile-I env s preserved entered polling name).at t h
