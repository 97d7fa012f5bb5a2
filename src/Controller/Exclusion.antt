-- ===== src/Controller/Exclusion.antt =====
-- The queue of node_controller.go seen from the whole cluster: at most one node is at work. The
-- server's copy of the observed states is a function of the calls made so far.
pub mod Turns
pub mod Always
pub mod Refines
use node_drain.Base.{
  String, Bool, true, false, ◌&&◌, ◌≡◌, ◌==◌, ◌⊎◌, if◌then◌else◌, List, [], ◌∷◌, Any, Result, ok,
  err, Error,
}
use node_drain.Api.{Node, NodeCurrentState, same_current_state}
use node_drain.Cluster.{Entry, Trace, Env, patched_status, created_node, updated_node}
use node_drain.Settings.{Settings}
use node_drain.Controller.{reconcile}

-- The states of a node between the queue and the end of its work.
abbrev pub is_busy : NodeCurrentState → Bool
is_busy NodeCurrentState.next = true
is_busy NodeCurrentState.draining = true
is_busy NodeCurrentState.drained = true
is_busy NodeCurrentState.undraining = true
is_busy NodeCurrentState.rebooting = true
is_busy _ = false

-- A step past the queue: a node whose observed state is none of the constants is drained at once.
abbrev pub is_jump : NodeCurrentState → NodeCurrentState → Bool
is_jump (NodeCurrentState.other _) NodeCurrentState.drained = true
is_jump _ _ = false

abbrev pub States : Type 0
States = String → NodeCurrentState

-- The observed states after a patch that the server applied.
abbrev pub patch : Node → States → States
patch m f n = if m.name == n then m.status.current_state else f n

-- A call that may write the status of a node.
abbrev pub is_status_write : Entry → Bool
is_status_write (patched_status _ _ _) = true
is_status_write (created_node _ _) = true
is_status_write (updated_node _ _) = true
is_status_write _ = false

-- A server whose observed states only this program writes, and whose reads are not stale. A failed
-- patch may still have been applied; a node that is created has no status, and one whose last
-- finalizer is removed may be gone.
pub record IsServer (env : Env) (stored : Trace → States) : Type 0 where
  pub keeps :
      (e : Entry) (t : Trace) (n : String)
      → is_status_write e ≡ false
      → stored (e ∷ t) n ≡ stored t n
  pub creations :
      (m : Node) (r : Result (Unit {0})) (t : Trace) (n : String)
      → (stored (created_node m r ∷ t) n ≡ stored t n)
        ⊎ (is_busy (stored (created_node m r ∷ t) n) ≡ false)
  pub updates :
      (m : Node) (r : Result Node) (t : Trace) (n : String)
      → (stored (updated_node m r ∷ t) n ≡ stored t n)
        ⊎ (is_busy (stored (updated_node m r ∷ t) n) ≡ false)
  pub patches :
      (b m a : Node) (t : Trace) (n : String)
      → stored (patched_status b m (ok a) ∷ t) n ≡ patch m (stored t) n
  pub failures :
      (b m : Node) (x : Error) (t : Trace)
      → ((n : String) → stored (patched_status b m (err x) ∷ t) n ≡ stored t n)
        ⊎ ((n : String) → stored (patched_status b m (err x) ∷ t) n ≡ patch m (stored t) n)
  pub gets :
      (name : String) (n : Node) (t : Trace)
      → env.get_node t name ≡ ok n
      → (n.name ≡ name) × (stored t name ≡ n.status.current_state)
  pub lists :
      (ns : List Node) (t : Trace)
      → env.list_nodes t ≡ ok ns
      → (name : String) → is_busy (stored t name) ≡ true
      → Any (λ n. n.status.current_state ≡ stored t name) ns

-- Two nodes at work are one.
abbrev pub Exclusive : States → Type 0
Exclusive f = (x y : String) → is_busy (f x) ≡ true → is_busy (f y) ≡ true → x ≡ y

-- After every call of the trace, and before the first.
abbrev pub Always : (Trace → Type 0) → Trace → Type 0
Always P [] = P []
Always P (e ∷ t) = P (e ∷ t) × Always P t

-- A patch of a status knows the stored state, and lets a node leave the queue only where no node
-- is at work.
abbrev pub TurnGuard : (Trace → States) → Entry → Trace → Type 0
TurnGuard stored (patched_status b m r) t =
    (m.name ≡ b.name)
    × (stored t b.name ≡ b.status.current_state)
    × (same_current_state b.status.current_state NodeCurrentState.queued ≡ true
        → same_current_state m.status.current_state NodeCurrentState.next ≡ true
        → (n : String) → is_busy (stored t n) ≡ false)
TurnGuard stored _ t = Unit

abbrev pub NoJump : Entry → Type 0
NoJump (patched_status b m r) = is_jump b.status.current_state m.status.current_state ≡ false
NoJump _ = Unit

-- The controller's one worker: a run for each name that the work queue hands out.
abbrev pub reconcile_all : Env → Settings → List String → Trace → Trace
reconcile_all env s [] t = t
reconcile_all env s (name ∷ names) t = reconcile_all env s names (reconcile env s name t).1
