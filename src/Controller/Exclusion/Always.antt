-- ===== src/Controller/Exclusion/Always.antt =====
-- At most one node at work, after every call of a sequence of runs of `Reconcile`.
use node_drain.Base.{
  String, true, false, refl, sym, ap, ◌∙◌, ◌≡◌, ◌⊎◌, inl, inr, ◌==◌, ◌∷◌, [], List, All, Result, ok,
  err, arith, Bool-cases, eq_iff,
}
use node_drain.Api.{Node, NodeCurrentState, same_current_state}
use node_drain.Cluster.{Entry, Trace, Env, patched_status, created_node, updated_node}
use node_drain.Cluster.Evidence.{Throughout}
use node_drain.Settings.{Settings}
use node_drain.RebootManager.Quiet.{IsPolling}
use node_drain.Controller.Diagram.{may_follow, Follows, AllFollow, IsUndisturbed}
use node_drain.Controller.Diagram.Whole.{reconcile-AllFollow}
use node_drain.Controller.Exclusion.Turns.{patch-here, reconcile-Turns}
use node_drain.Controller.Exclusion.{
  is_busy, is_jump, States, patch, IsServer, Exclusive, Always, TurnGuard, NoJump, reconcile_all,
}

-- A patch along the diagram leaves a node at work that was at work, or is the one step out of the
-- queue, or a jump.
comes_from :
    (from to : NodeCurrentState)
    → may_follow from to ≡ true
    → is_jump from to ≡ false
    → is_busy to ≡ true
    → (is_busy from ≡ true)
      ⊎ ((same_current_state from NodeCurrentState.queued ≡ true)
          × (same_current_state to NodeCurrentState.next ≡ true))
comes_from from to f j b = ground arith

pub patch-there : (m : Node) (f : States) (n : String) → (m.name == n) ≡ false → patch m f n ≡ f n
patch-there m f n e = rw e refl

-- The patched node was at work or leaves the queue, where no other node is at work.
module _ (f : States) (b m : Node) (n : m.name ≡ b.name) (s : f b.name ≡ b.status.current_state)
    (c : is_busy m.status.current_state ≡ true
      → (is_busy b.status.current_state ≡ true) ⊎ ((y : String) → is_busy (f y) ≡ false))
    (h : Exclusive f) where
  other-busy :
      (x y : String)
      → m.name ≡ x
      → is_busy m.status.current_state ≡ true
      → is_busy (f y) ≡ true
      → x ≡ y
  other-busy x y e p q = elim (c p) [
    | inl w ↦ h x y (ap is_busy (ap f (sym e ∙ n) ∙ s) ∙ w) q
    | inr z ↦ (let k : false ≡ true = sym (z y) ∙ q in cc)
  ]

  patched-Exclusive : Exclusive (patch m f)
  patched-Exclusive x y p q = elim (Bool-cases (m.name == x)) [
    | inl i ↦
        let e : m.name ≡ x = (eq_iff m.name x).0 i in
        let p' : is_busy m.status.current_state ≡ true =
          ap is_busy (sym (patch-here m f x e)) ∙ p in
        elim (Bool-cases (m.name == y)) [
          | inl j ↦ sym e ∙ (eq_iff m.name y).0 j
          | inr j ↦ other-busy x y e p' (ap is_busy (sym (patch-there m f y j)) ∙ q)
        ]
    | inr i ↦
        let p' : is_busy (f x) ≡ true = ap is_busy (sym (patch-there m f x i)) ∙ p in
        elim (Bool-cases (m.name == y)) [
          | inl j ↦
              let e : m.name ≡ y = (eq_iff m.name y).0 j in
              sym (other-busy y x e (ap is_busy (sym (patch-here m f y e)) ∙ q) p')
          | inr j ↦ h x y p' (ap is_busy (sym (patch-there m f y j)) ∙ q)
        ]
  ]

-- States that are those of an exclusive map, or not at work, are exclusive.
same-Exclusive :
    (f g : States)
    → ((n : String) → (g n ≡ f n) ⊎ (is_busy (g n) ≡ false))
    → Exclusive f
    → Exclusive g
same-Exclusive f g k h x y p q =
    let was : (n : String) → is_busy (g n) ≡ true → is_busy (f n) ≡ true = λ n r. elim (k n) [
      | inl e ↦ ap is_busy (sym e) ∙ r
      | inr e ↦ (let z : false ≡ true = sym e ∙ r in cc)
    ] in
    h x y (was x p) (was y q)

module _ (env : Env) (stored : Trace → States) (server : IsServer env stored) where
  answered-Exclusive :
      (b m : Node) (r : Result Node) (t : Trace)
      → Exclusive (stored t)
      → Exclusive (patch m (stored t))
      → Exclusive (stored (patched_status b m r ∷ t))
  answered-Exclusive b m (ok a) t h k = same-Exclusive _ _ (λ x. inl (server.patches b m a t x)) k
  answered-Exclusive b m (err e) t h k = elim (server.failures b m e t) [
    | inl q ↦ same-Exclusive _ _ (λ x. inl (q x)) h
    | inr q ↦ same-Exclusive _ _ (λ x. inl (q x)) k
  ]

  status-Exclusive :
      (b m : Node) (r : Result Node) (t : Trace)
      → TurnGuard stored (patched_status b m r) t
      → may_follow b.status.current_state m.status.current_state ≡ true
      → is_jump b.status.current_state m.status.current_state ≡ false
      → Exclusive (stored t)
      → Exclusive (stored (patched_status b m r ∷ t))
  status-Exclusive b m r t (n, s, c) f j h =
      let from : is_busy m.status.current_state ≡ true
          → (is_busy b.status.current_state ≡ true)
            ⊎ ((y : String) → is_busy (stored t y) ≡ false) =
        λ w. elim (comes_from _ _ f j w) [ inl v ↦ inl v | inr (q, x) ↦ inr (c q x) ] in
      answered-Exclusive b m r t h (patched-Exclusive (stored t) b m n s from h)

  entry-Exclusive :
      (e : Entry) (t : Trace)
      → TurnGuard stored e t
      → Follows e
      → NoJump e
      → Exclusive (stored t)
      → Exclusive (stored (e ∷ t))
  entry-Exclusive (patched_status b m r) t g f j h = status-Exclusive b m r t g f j h
  entry-Exclusive (created_node m r) t g f j h = same-Exclusive _ _ (server.creations m r t) h
  entry-Exclusive (updated_node m r) t g f j h = same-Exclusive _ _ (server.updates m r t) h
  entry-Exclusive e t g f j h = same-Exclusive _ _ (λ n. inl (server.keeps e t n refl)) h

  -- A trace that keeps the guard of the queue and the diagram.
  guarded-Always :
      (t : Trace)
      → Throughout (TurnGuard stored) t
      → AllFollow t
      → All NoJump t
      → Exclusive (stored [])
      → Exclusive (stored t) × Always (λ v. Exclusive (stored v)) t
  guarded-Always [] g f j h = (h, h)
  guarded-Always (e ∷ t) g f j h =
      let (now, before) = guarded-Always t g.1 f.1 j.1 h in
      let next = entry-Exclusive e t g.0 f.0 j.0 now in (next, (next, before))

module _ (env : Env) (s : Settings) (stored : Trace → States) (server : IsServer env stored)
    (u : IsUndisturbed env) (polling : IsPolling env) where
  pub all-guarded :
      (names : List String) (t : Trace)
      → Throughout (TurnGuard stored) t
      → AllFollow t
      → Throughout (TurnGuard stored) (reconcile_all env s names t)
        × AllFollow (reconcile_all env s names t)
  all-guarded [] t g f = (g, f)
  all-guarded (name ∷ names) t g f =
      all-guarded names _ (reconcile-Turns env s stored server u polling name t g)
        (reconcile-AllFollow env s u polling name t f)

  -- Let a server answer whose observed states only these runs write and whose reads are not stale,
  -- let no other writer change the desired state, the observed state, the field drained or the name
  -- of a Node between a read and a patch's answer, and let PollUntilContextTimeout only call its
  -- condition. If at most one node is at work when the controller starts, then after every call of
  -- any sequence of runs of Reconcile, also where calls fail, at most one node is in one of the
  -- states Next, Draining, Drained, Undraining and Rebooting, as long as no patch moves a node from
  -- a state outside the constants to Drained.
  pub reconcile_all-Exclusive :
      Exclusive (stored [])
      → (names : List String) → All NoJump (reconcile_all env s names [])
      → Always (λ v. Exclusive (stored v)) (reconcile_all env s names [])
  reconcile_all-Exclusive h names j =
      let (g, f) = all-guarded names [] tt tt in
      (guarded-Always env stored server (reconcile_all env s names []) g f j h).1
