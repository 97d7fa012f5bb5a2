-- ===== src/Controller/Walk/Plain.antt =====
-- Invariants that are said of the trace alone, and that take any patch of a status.
use node_drain.Base.{◌≡◌, true, false, String, ◌==◌, ◌∷◌, ◌⊎◌, Result}
use node_drain.Base.Keeps.{Keeps}
use node_drain.Api.{Node, NodeCurrentState}
use node_drain.Cluster.{Entry, Trace, Env, KubeNode, patched_status, patched_kube_node}
use node_drain.Cluster.Evidence.{Lasts}
use node_drain.Settings.{Settings}
use node_drain.RebootManager.{reboot_node}
use node_drain.Controller.Objects.{Session, set_current_state}
use node_drain.Controller.Drain.{evict}
use node_drain.Controller.Triple.{Triple, Triple-weaken}
use node_drain.Controller.Walk.{IsPreserved, IsEntered, is_write, is_foreign}
use node_drain.Controller.Walk.Draining.{undrain-Early}
use node_drain.Controller.Walk.Starts.{start_draining-Triple}
use node_drain.Controller.Walk.Turns.{is_next_node-Triple}
use node_drain.Controller.Walk.Rules.{Triple-set_current_state, Triple-uncordon}

pub record IsKept (env : Env) (s : Settings) (I : Trace → Type 0) : Type 0 where
  pub asides : Lasts I
  pub status : (b m : Node) (r : Result Node) (t : Trace) → I t → I (patched_status b m r ∷ t)
  pub writes : (e : Entry) (t : Trace) → is_write e ≡ true → I t → I (e ∷ t)
  pub kube :
      (b m : KubeNode) (r : Result KubeNode) (t : Trace)
      → (m.unschedulable ≡ true) ⊎ (is_foreign env s b ≡ false)
      → I t
      → I (patched_kube_node b m r ∷ t)
  pub evicts : (name : String) → (s.own_node == name) ≡ false → Keeps I (evict env s name)
  pub reboots : (name : String) → Keeps I (reboot_node env s name)

module _ (env : Env) (s : Settings) {I : Trace → Type 0} (h : IsKept env s I) where
  abbrev Any : Session → Type 0
  Any st = Unit {0}

  pub set_current_state-Triple :
      (c : NodeCurrentState) → Triple I Any (set_current_state env c) (λ _. Any)
  set_current_state-Triple c =
      Triple-set_current_state env I (λ _ _. Unit {0}) Any c (λ st q p. tt)
        (λ st r d i p. h.status _ _ r st.trace i) (λ st a p e. tt)

  pub plain : IsPreserved env s I (λ _ _. Unit {0})
  plain = record {
    asides = h.asides;
    node_asides = λ n e t q j. tt;
    status = λ b m r t e o i j. h.status b m r t i;
    node_status = λ b m a t o j e. tt;
    writes = h.writes;
    kube = h.kube;
    node_spec = λ b a c t j e. tt;
    node_kube = λ n k m r t j. tt;
    turns =
        is_next_node-Triple env I _ h.asides (λ n e t q j. tt)
          (Triple-weaken _ (λ st q. tt) (set_current_state-Triple NodeCurrentState.next));
    starts =
        start_draining-Triple env s I _ h.asides (λ n e t q j. tt)
          (Triple-weaken _ (λ st q. tt) (set_current_state-Triple NodeCurrentState.draining));
    evicts = h.evicts;
    node_evicts = λ n name e. record { at = λ t j. tt };
    reboots = h.reboots;
    node_reboots = λ n name. record { at = λ t j. tt };
  }

  -- undrain needs nothing, if any patch of a Kubernetes node keeps the invariant.
  pub plain-IsEntered :
      ((b m : KubeNode) (r : Result KubeNode) (t : Trace) → I t → I (patched_kube_node b m r ∷ t))
      → IsEntered env s I (λ _ _. Unit {0}) (λ _ _. Unit {0})
  plain-IsEntered kube = record {
    enters = λ name n t i e. tt;
    undrains =
        undrain-Early env s plain
          (Triple-uncordon env I _ _ (λ st r i j. kube _ _ r st.trace i) (λ st j. tt)
            (λ st k j. tt))
          (set_current_state-Triple NodeCurrentState.undraining);
  }
