-- ===== src/Controller/Diagram.antt =====
-- The diagram of a node's observed state, and what it is for a patch of a status to follow it.
mod Patches
mod Undraining
mod Draining
mod Working
pub mod Desired
pub mod Whole
use node_drain.Base.{Bool, true, false, ◌||◌, ◌≡◌, refl, Result, ok, ◌∷◌, All}
use node_drain.Api.{NodeState, NodeCurrentState, Node, same_current_state}
use node_drain.Cluster.{Entry, patched_status, Trace, Io, Env}
use node_drain.Base.Keeps.{Keeps}
use node_drain.Cluster.Quiet.{IsAside, Grows, Keeps-Grows}
use node_drain.Controller.Objects.{Session}

-- The states that may come after each state. A state outside the constants is what a new object
-- has, and is taken for work.
abbrev next_states : NodeCurrentState → NodeCurrentState → Bool
next_states NodeCurrentState.ok NodeCurrentState.cordoned = true
next_states NodeCurrentState.ok NodeCurrentState.queued = true
next_states NodeCurrentState.cordoned NodeCurrentState.ok = true
next_states NodeCurrentState.cordoned NodeCurrentState.queued = true
next_states NodeCurrentState.queued NodeCurrentState.ok = true
next_states NodeCurrentState.queued NodeCurrentState.cordoned = true
next_states NodeCurrentState.queued NodeCurrentState.next = true
next_states NodeCurrentState.next NodeCurrentState.ok = true
next_states NodeCurrentState.next NodeCurrentState.cordoned = true
next_states NodeCurrentState.next NodeCurrentState.draining = true
next_states NodeCurrentState.draining NodeCurrentState.cordoned = true
next_states NodeCurrentState.draining NodeCurrentState.drained = true
next_states NodeCurrentState.draining NodeCurrentState.undraining = true
next_states NodeCurrentState.drained NodeCurrentState.cordoned = true
next_states NodeCurrentState.drained NodeCurrentState.rebooting = true
next_states NodeCurrentState.drained NodeCurrentState.undraining = true
next_states NodeCurrentState.undraining NodeCurrentState.ok = true
next_states NodeCurrentState.rebooting NodeCurrentState.cordoned = true
next_states NodeCurrentState.rebooting NodeCurrentState.drained = true
next_states NodeCurrentState.rebooting NodeCurrentState.undraining = true
next_states (NodeCurrentState.other _) NodeCurrentState.ok = true
next_states (NodeCurrentState.other _) NodeCurrentState.cordoned = true
next_states (NodeCurrentState.other _) NodeCurrentState.drained = true
next_states _ _ = false

-- The diagram, in which a state may also stay.
abbrev pub may_follow : NodeCurrentState → NodeCurrentState → Bool
may_follow from to = same_current_state from to || next_states from to

abbrev pub Follows : Entry → Type 0
Follows (patched_status b m r) = may_follow b.status.current_state m.status.current_state ≡ true
Follows _ = Unit

abbrev pub AllFollow : Trace → Type 0
AllFollow t = All Follows t

pub AllFollow-aside : (e : Entry) (t : Trace) → IsAside e → AllFollow t → AllFollow (e ∷ t)
AllFollow-aside (patched_status b m r) t q h = cc
AllFollow-aside _ t q h = (tt, h)

-- Calls that change no object keep the invariant.
pub aside : {A : Type 0} {m : Io A} → ((t : Trace) → Keeps (Grows IsAside t) m) → Keeps AllFollow m
aside quiet = Keeps-Grows AllFollow-aside quiet

-- No other writer changes the fields that the code decides on between its read of an object and
-- the answer to its patch: the answer has them as the patch left them.
pub record IsUndisturbed (env : Env) : Type 0 where
  pub status_answer :
      (t : Trace) (b m r : Node)
      → env.patch_status t b m ≡ ok r
      → (r.status.current_state ≡ m.status.current_state)
        × (r.state ≡ m.state)
        × (r.status.drained ≡ m.status.drained)
        × (r.name ≡ m.name)
  pub spec_answer :
      (t : Trace) (b m r : Node)
      → env.patch_node t b m ≡ ok r
      → (r.status.current_state ≡ m.status.current_state)
        × (r.state ≡ m.state)
        × (r.status.drained ≡ m.status.drained)
        × (r.name ≡ m.name)
