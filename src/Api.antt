-- ===== src/Api.antt =====
-- api/v1/node_types.go: the custom resource `Node`, its desired state (`NodeState`) and its
-- observed state (`NodeCurrentState`). Both are strings in the source; a string that is none of
-- the constants, the empty one included, is `other`.
pub mod States
use node_drain.Base.{ℕ, String, Bool, true, false, Option, List, [], ◌∷◌, ◌==◌}

pub data NodeState : Type 0 where
  active cordoned drained reboot_if_required : NodeState
  other : String → NodeState

pub data NodeCurrentState : Type 0 where
  ok cordoned queued next draining drained undraining rebooting : NodeCurrentState
  other : String → NodeCurrentState

-- NodeState.Drain
unfoldable pub drain : NodeState → Bool
drain NodeState.drained = true
drain NodeState.reboot_if_required = true
drain _ = false

-- NodeCurrentState.WorkState
unfoldable pub work_state : NodeCurrentState → Bool
work_state NodeCurrentState.ok = false
work_state NodeCurrentState.cordoned = false
work_state NodeCurrentState.queued = false
work_state _ = true

-- NodeState.String: the constants' texts
unfoldable pub state_string : NodeState → String
state_string NodeState.active = "Active"
state_string NodeState.cordoned = "Cordoned"
state_string NodeState.drained = "Drained"
state_string NodeState.reboot_if_required = "RebootIfRequired"
state_string (NodeState.other s) = s

-- NodeCurrentState.String: the constants' texts
unfoldable pub current_state_string : NodeCurrentState → String
current_state_string NodeCurrentState.ok = "OK"
current_state_string NodeCurrentState.cordoned = "Cordoned"
current_state_string NodeCurrentState.queued = "Queued"
current_state_string NodeCurrentState.next = "Next"
current_state_string NodeCurrentState.draining = "Draining"
current_state_string NodeCurrentState.drained = "Drained"
current_state_string NodeCurrentState.undraining = "Undraining"
current_state_string NodeCurrentState.rebooting = "Rebooting"
current_state_string (NodeCurrentState.other s) = s

-- nodeCurrentStates, GetNodeCurrentStates
unfoldable pub get_node_current_states : List NodeCurrentState
get_node_current_states =
    NodeCurrentState.ok ∷ NodeCurrentState.cordoned ∷ NodeCurrentState.queued
    ∷ NodeCurrentState.next ∷ NodeCurrentState.draining ∷ NodeCurrentState.drained
    ∷ NodeCurrentState.undraining ∷ NodeCurrentState.rebooting ∷ []

-- `==` on the states. The code compares with a constant only.
abbrev pub same_state : NodeState → NodeState → Bool
same_state NodeState.active NodeState.active = true
same_state NodeState.cordoned NodeState.cordoned = true
same_state NodeState.drained NodeState.drained = true
same_state NodeState.reboot_if_required NodeState.reboot_if_required = true
same_state (NodeState.other s) (NodeState.other t) = s == t
same_state _ _ = false

abbrev pub same_current_state : NodeCurrentState → NodeCurrentState → Bool
same_current_state NodeCurrentState.ok NodeCurrentState.ok = true
same_current_state NodeCurrentState.cordoned NodeCurrentState.cordoned = true
same_current_state NodeCurrentState.queued NodeCurrentState.queued = true
same_current_state NodeCurrentState.next NodeCurrentState.next = true
same_current_state NodeCurrentState.draining NodeCurrentState.draining = true
same_current_state NodeCurrentState.drained NodeCurrentState.drained = true
same_current_state NodeCurrentState.undraining NodeCurrentState.undraining = true
same_current_state NodeCurrentState.rebooting NodeCurrentState.rebooting = true
same_current_state (NodeCurrentState.other s) (NodeCurrentState.other t) = s == t
same_current_state _ _ = false

-- Condition: the embedded metav1.Condition, and the time of the last check
pub record Condition : Type 0 where
  pub condition_type : String
  pub condition_status : String
  pub last_check_time : Option ℕ

-- NodeStatus. A metav1.Time is a number of nanoseconds since the zero time, which is 0.
pub record NodeStatus : Type 0 where
  pub conditions : List Condition
  pub reboot_required_last_checked : Option ℕ
  pub reboot_required : Option Bool
  pub drained : Bool
  pub current_state : NodeCurrentState
  pub boot_id : String

-- Node, with `NodeSpec` as the field `state` and the metadata that the program reads or writes
pub record Node : Type 0 where
  pub name : String
  pub deletion_timestamp : Option ℕ
  pub finalizers : List String
  pub owner_references : List String
  pub state : NodeState
  pub status : NodeStatus
