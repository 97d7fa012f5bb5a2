-- ===== src/Controller/Exclusion/Turns.antt =====
-- The guard of the queue along a run of `Reconcile`.
use node_drain.Base.{
  String, true, false, refl, sym, ap, ◌∙◌, ◌≡◌, ◌∷◌, [], List, All, Any, inl, inr, ok, arith,
  eq_iff, Bool-cases, ◌==◌,
}
use node_drain.Api.{Node, NodeCurrentState, same_current_state, work_state}
use node_drain.Cluster.{Entry, Trace, Env, patched_status, got_node, created_node, updated_node}
use node_drain.Cluster.Quiet.{IsAside}
use node_drain.Cluster.Evidence.{Lasts, Throughout}
use node_drain.Settings.{Settings}
use node_drain.RebootManager.Quiet.{IsPolling}
use node_drain.RebootManager.Reboot.{reboot_node-Keeps}
use node_drain.Controller.{reconcile}
use node_drain.Controller.Diagram.{IsUndisturbed}
use node_drain.Controller.Queue.Turns.{IsIdle}
use node_drain.Controller.Walk.{is_write, is_ordinary, OnSession, IsPreserved, IsEntered}
use node_drain.Controller.Walk.Draining.{undrain-Early}
use node_drain.Controller.Triple.{Triple-conclude}
use node_drain.Controller.Walk.Evicts.{evict-Keeps}
use node_drain.Controller.Walk.Rules.{Triple-set_current_state, Triple-uncordon}
use node_drain.Controller.Walk.Starts.{start_draining-Triple}
use node_drain.Controller.Walk.Turns.{is_next_node-Triple, SawIdle}
use node_drain.Controller.Walk.Whole.{reconcile-I}
use node_drain.Controller.Exclusion.{is_busy, is_status_write, States, IsServer, TurnGuard, patch}

same-name : (a b : String) → a ≡ b → (a == b) ≡ true
same-name a b e = (eq_iff a b).1 e

-- An ordinary patch lets no node leave the queue.
leaves-clash :
    {A : Type 0} (from to : NodeCurrentState)
    → is_ordinary from to ≡ true
    → same_current_state from NodeCurrentState.queued ≡ true
    → same_current_state to NodeCurrentState.next ≡ true
    → A
leaves-clash from to o f t = ground arith

idle-busy : (c : NodeCurrentState) → work_state c ≡ false → is_busy c ≡ false
unfolding work_state
idle-busy c w = ground arith

aside-keeps : (e : Entry) → IsAside e → is_status_write e ≡ false
aside-keeps (patched_status b m r) q = cc
aside-keeps (created_node m r) q = cc
aside-keeps (updated_node m r) q = cc
aside-keeps _ q = refl

-- A list in which each busy node of the server lies says that the server has none if it has none.
none-busy :
    (f : States) (name : String) (ns : List Node)
    → All IsIdle ns
    → Any (λ n. n.status.current_state ≡ f name) ns
    → is_busy (f name) ≡ false
none-busy f name [] h k = elim k [ ]
none-busy f name (n ∷ ns) h (inl e) = rw (sym e) (idle-busy _ h.0)
none-busy f name (n ∷ ns) h (inr k) = none-busy f name ns h.1 k

All-idle :
    (f : States) (ns : List Node)
    → All IsIdle ns
    → ((name : String) → is_busy (f name) ≡ true → Any (λ n. n.status.current_state ≡ f name) ns)
    → (name : String) → is_busy (f name) ≡ false
All-idle f ns h k name = elim (Bool-cases (is_busy (f name))) [
  | inl b ↦ none-busy f name ns h (k name b)
  | inr b ↦ b
]

pub patch-here :
    (m : Node) (f : States) (n : String) → m.name ≡ n → patch m f n ≡ m.status.current_state
patch-here m f n e = rw (same-name m.name n e)

module _ (env : Env) (s : Settings) (stored : Trace → States) (server : IsServer env stored)
    (u : IsUndisturbed env) where
  abbrev pub Turns : Trace → Type 0
  Turns = Throughout (TurnGuard stored)

  -- The run's copy of the node has the stored state.
  abbrev InSync : Node → Trace → Type 0
  InSync n t = stored t n.name ≡ n.status.current_state

  guard-other : (e : Entry) (t : Trace) → is_status_write e ≡ false → TurnGuard stored e t
  guard-other (patched_status b m r) t q = cc
  guard-other _ t q = tt

  guard-write : (e : Entry) (t : Trace) → is_write e ≡ true → TurnGuard stored e t
  guard-write (patched_status b m r) t q = cc
  guard-write _ t q = tt

  Turns-Lasts : Lasts Turns
  Turns-Lasts e t q h = (guard-other e t (aside-keeps e q), h)

  InSync-Lasts : (n : Node) → Lasts (InSync n)
  InSync-Lasts n e t q h = server.keeps e t n.name (aside-keeps e q) ∙ h

  answer-InSync :
      (b m a : Node) (t : Trace)
      → env.patch_status t b m ≡ ok a
      → InSync a (patched_status b m (ok a) ∷ t)
  answer-InSync b m a t e =
      let (c, _, _, n) = u.status_answer t b m a e in
      server.patches b m a t a.name ∙ (patch-here m (stored t) a.name (sym n) ∙ sym c)

  move-InSync :
      (b a : Node) (t : Trace)
      → InSync b t
      → a.name ≡ b.name
      → a.status.current_state ≡ b.status.current_state
      → InSync a t
  move-InSync b a t j n c = ap (stored t) n ∙ (j ∙ sym c)

  saw-idle : (t : Trace) → SawIdle env t → (n : String) → is_busy (stored t n) ≡ false
  saw-idle t (ns, (v, e, l), h) n =
      ap (λ w. is_busy (stored w n)) e
      ∙ (ap is_busy (server.keeps _ v n refl) ∙ All-idle (stored v) ns h (server.lists ns v l) n)

  enters-InSync :
      (name : String) (n : Node) (t : Trace)
      → env.get_node t name ≡ ok n
      → InSync n (got_node name (ok n) ∷ t)
  enters-InSync name n t e =
      let (q, c) = server.gets name n t e in server.keeps _ t n.name refl ∙ (ap (stored t) q ∙ c)

  preserved : IsPreserved env s Turns InSync
  preserved = record {
    asides = Turns-Lasts;
    node_asides = InSync-Lasts;
    status = λ b m r t e o i j. ((e, j, λ f d. leaves-clash _ _ o f d), i);
    node_status = λ b m a t o j e. answer-InSync b m a t e;
    kube = λ b m r t o i. (tt, i);
    writes = λ e t w i. (guard-write e t w, i);
    node_spec = λ b a c t j e.
        let (q, _, _, n) = u.spec_answer t b (record b { state = c }) a e in
        server.keeps _ t a.name refl ∙ move-InSync b a t j n q;
    node_kube = λ n k m r t j. server.keeps _ t n.name refl ∙ j;
    turns = is_next_node-Triple env Turns InSync Turns-Lasts InSync-Lasts (
        Triple-set_current_state env Turns InSync _ _ (λ st q p. p.0)
          (λ st r d i p. ((refl, p.0, λ q x. saw-idle st.trace p.2), i))
          (λ st a p e. answer-InSync _ _ a st.trace e));
    starts = start_draining-Triple env s Turns InSync Turns-Lasts InSync-Lasts (
        Triple-set_current_state env Turns InSync _ _ (λ st q p. p.0)
          (λ st r d i p. ((refl, p.0, λ q x. cc), i)) (λ st a p e. answer-InSync _ _ a st.trace e));
    evicts = λ n e. evict-Keeps env s n Turns Turns-Lasts (λ r t i. (tt, i));
    node_evicts = λ n name e.
        evict-Keeps env s name (InSync n) (InSync-Lasts n)
          (λ r t j. server.keeps _ t n.name refl ∙ j);
    reboots = λ n. reboot_node-Keeps env s n Turns Turns-Lasts (λ r t i. (tt, i));
    node_reboots = λ n name.
        reboot_node-Keeps env s name (InSync n) (InSync-Lasts n)
          (λ r t j. server.keeps _ t n.name refl ∙ j);
  }

  entered : IsEntered env s Turns InSync InSync
  entered = record {
    enters = λ name n t i e. enters-InSync name n t e;
    undrains =
        undrain-Early env s preserved
          (Triple-uncordon env Turns (OnSession InSync) (OnSession InSync) (λ st r i j. (tt, i))
            (λ st j. j) (λ st k j. server.keeps _ st.trace st.node.name refl ∙ j))
          (Triple-conclude _ (λ _ st j. tt)
            (Triple-set_current_state env Turns InSync (OnSession InSync) _ (λ st q p. p)
              (λ st r d i p. ((refl, p, λ q x. cc), i))
              (λ st a p e. answer-InSync _ _ a st.trace e)));
  }

  pub reconcile-Turns :
      IsPolling env → (name : String) (t : Trace) → Turns t → Turns (reconcile env s name t).1
  reconcile-Turns polling name t h = (reconcile-I env s preserved entered polling name).at t h
