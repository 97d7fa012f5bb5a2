-- ===== src/Controller/Exclusion/Refines.antt =====
-- What the controller promises of the states of the nodes, as a relation of steps, and the
-- controller's runs (node_controller.go) as such steps.
use node_drain.Base.{
  String, Bool, true, false, refl, ap, ◌∙◌, ◌&&◌, ◌≡◌, ◌⊎◌, inl, inr, ◌==◌, ◌∷◌, [], List, map,
  Result, ok, err, arith, Bool-cases,
}
use node_drain.Api.{Node, NodeCurrentState, same_current_state}
use node_drain.Cluster.{Entry, Trace, Env, patched_status, created_node, updated_node}
use node_drain.Cluster.Evidence.{Throughout}
use node_drain.Settings.{Settings}
use node_drain.RebootManager.Quiet.{IsPolling}
use node_drain.Controller.Diagram.{may_follow, Follows, AllFollow, IsUndisturbed}
use node_drain.Controller.Exclusion.Turns.{patch-here}
use node_drain.Controller.Exclusion.Always.{patch-there, all-guarded}
use node_drain.Controller.Exclusion.{is_busy, States, patch, IsServer, TurnGuard, reconcile_all}

-- The step out of the queue.
abbrev pub is_turn : NodeCurrentState → NodeCurrentState → Bool
is_turn from to =
    same_current_state from NodeCurrentState.queued && same_current_state to NodeCurrentState.next

-- All nodes but one keep their state.
abbrev pub Others : String → States → States → Type 0
Others x f g = (n : String) → (x == n) ≡ false → g n ≡ f n

-- What a call asks of the cluster: an observed state for a node, the release of a node's object by
-- an update, or neither.
pub data Label : Type 0 where
  sets : String → NodeCurrentState → Label
  releases : String → Label
  silent : Label

abbrev pub label : Entry → Label
label (patched_status b m r) = sets b.name m.status.current_state
label (updated_node m r) = releases m.name
label _ = silent

-- A node without an object, or without an observed state.
abbrev pub absent : NodeCurrentState
absent = NodeCurrentState.other ""

-- One step of the cluster under a label, from the states `f` to the states `g`.
pub data Step (f : States) (l : Label) (g : States) : Type 0 where
  -- Nothing changes.
  stay : ((n : String) → g n ≡ f n) → Step f l g
  -- A node gets its turn, and no node is at work.
  turn :
      (x : String) (c : NodeCurrentState)
      → l ≡ sets x c
      → is_turn (f x) c ≡ true
      → ((n : String) → is_busy (f n) ≡ false)
      → g x ≡ c
      → Others x f g
      → Step f l g
  -- A node takes another step of the diagram.
  move :
      (x : String) (c : NodeCurrentState)
      → l ≡ sets x c
      → is_turn (f x) c ≡ false
      → may_follow (f x) c ≡ true
      → g x ≡ c
      → Others x f g
      → Step f l g
  -- The object of a node is gone.
  release : (x : String) → l ≡ releases x → g x ≡ absent → Others x f g → Step f l g

-- The states that steps under these labels reach, the newest label first.
pub data Reach (f : States) : List Label → States → Type 0 where
  here : Reach f [] f
  next :
      {ls : List Label} {l : Label} {g h : States} → Reach f ls g → Step g l h → Reach f (l ∷ ls) h

-- The status is apart from the object: a creation drops the status that it is sent, and an update
-- leaves the status, or removes the last finalizer of an object that is being deleted.
pub record IsApart (stored : Trace → States) : Type 0 where
  pub creations :
      (m : Node) (r : Result (Unit {0})) (t : Trace) (n : String)
      → stored (created_node m r ∷ t) n ≡ stored t n
  pub updates :
      (m : Node) (r : Result Node) (t : Trace)
      → ((n : String) → stored (updated_node m r ∷ t) n ≡ stored t n)
        ⊎ ((stored (updated_node m r ∷ t) m.name ≡ absent)
            × Others m.name (stored t) (stored (updated_node m r ∷ t)))

turn_parts :
    (from to : NodeCurrentState)
    → is_turn from to ≡ true
    → (same_current_state from NodeCurrentState.queued ≡ true)
      × (same_current_state to NodeCurrentState.next ≡ true)
turn_parts from to e = ground arith

-- Steps depend only on the states of each node.
step_to : (f g h : States) (l : Label) → ((n : String) → h n ≡ g n) → Step f l g → Step f l h
step_to f g h l e (stay k) = stay (λ n. e n ∙ k n)
step_to f g h l e (turn x c q t i v o) = turn x c q t i (e x ∙ v) (λ n z. e n ∙ o n z)
step_to f g h l e (move x c q t m v o) = move x c q t m (e x ∙ v) (λ n z. e n ∙ o n z)
step_to f g h l e (release x q v o) = release x q (e x ∙ v) (λ n z. e n ∙ o n z)

-- A patch that keeps the guard of the queue and the diagram is a step.
module _ (f : States) (b m : Node) (n : m.name ≡ b.name) (s : f b.name ≡ b.status.current_state)
    (c : same_current_state b.status.current_state NodeCurrentState.queued ≡ true
      → same_current_state m.status.current_state NodeCurrentState.next ≡ true
      → (y : String) → is_busy (f y) ≡ false)
    (d : may_follow b.status.current_state m.status.current_state ≡ true) where
  moved-Step :
      (g : States)
      → g b.name ≡ m.status.current_state
      → Others b.name f g
      → Step f (sets b.name m.status.current_state) g
  moved-Step g e o = elim (Bool-cases (is_turn b.status.current_state m.status.current_state)) [
    | inl t ↦ let (p, q) = turn_parts _ _ t in turn b.name _ refl (rw s t) (c p q) e o
    | inr t ↦ move b.name _ refl (rw s t) (rw s d) e o
  ]

  patched-Step : Step f (sets b.name m.status.current_state) (patch m f)
  patched-Step =
      moved-Step _ (patch-here m f b.name n) (λ x e. patch-there m f x (ap (λ w. w == x) n ∙ e))

module _ (env : Env) (stored : Trace → States) (server : IsServer env stored)
    (apart : IsApart stored) where
  answered-Step :
      (b m : Node) (r : Result Node) (t : Trace)
      → Step (stored t) (sets b.name m.status.current_state) (patch m (stored t))
      → Step (stored t) (sets b.name m.status.current_state) (stored (patched_status b m r ∷ t))
  answered-Step b m (ok a) t k = step_to _ _ _ _ (server.patches b m a t) k
  answered-Step b m (err e) t k = elim (server.failures b m e t) [
    | inl q ↦ stay q
    | inr q ↦ step_to _ _ _ _ q k
  ]

  entry-Step :
      (e : Entry) (t : Trace)
      → TurnGuard stored e t
      → Follows e
      → Step (stored t) (label e) (stored (e ∷ t))
  entry-Step (patched_status b m r) t (n, s, c) f =
      answered-Step b m r t (patched-Step (stored t) b m n s c f)
  entry-Step (created_node m r) t g f = stay (apart.creations m r t)
  entry-Step (updated_node m r) t g f = elim (apart.updates m r t) [
    | inl q ↦ stay q
    | inr q ↦ release m.name refl q.0 q.1
  ]
  entry-Step e t g f = stay (λ n. server.keeps e t n refl)

  guarded-Reach :
      (t : Trace)
      → Throughout (TurnGuard stored) t
      → AllFollow t
      → Reach (stored []) (map label t) (stored t)
  guarded-Reach [] g f = here
  guarded-Reach (e ∷ t) g f = next (guarded-Reach t g.1 f.1) (entry-Step e t g.0 f.0)

-- Let a server answer whose observed states only these runs write and whose reads are not stale,
-- which leaves them where an object is created, and where one is updated leaves them or removes
-- this object. Let no other writer change the desired state, the observed state, the field drained
-- or the name of a Node between a read and a patch's answer, and let PollUntilContextTimeout only
-- call its condition. Then any sequence of runs of Reconcile, also where calls fail, is call by
-- call a sequence of steps of the cluster from the states at the start: a call that asks for an
-- observed state of a node changes nothing, or lets this node leave the queue while no node is at
-- work, or takes it another step of the diagram, to the state asked for; an update of a node's
-- object changes nothing or leaves this node without an observed state; every other call changes
-- nothing.
pub reconcile_all-Reach :
    (env : Env) (s : Settings) (stored : Trace → States)
    → IsServer env stored
    → IsApart stored
    → IsUndisturbed env
    → IsPolling env
    → (names : List String)
    → Reach
        (stored [])
        (map label (reconcile_all env s names []))
        (stored (reconcile_all env s names []))
reconcile_all-Reach env s stored server apart u polling names =
    let (g, f) = all-guarded env s stored server u polling names [] tt tt in
    guarded-Reach env stored server apart _ g f
