-- ===== src/Controller/Queue.antt =====
-- node_controller.go: `isNextNode`, by which a node leaves the queue, and
-- `getManagerOfUnschedulable`.
pub mod Turns
pub mod Managers
use node_drain.Base.{String, Bool, true, false, ◌||◌, Option, none, some, List, [], ◌∷◌, ◌==◌}
use node_drain.Base.{if◌then◌else◌, Result, ok, err, pure, gets, ◌>>=◌, ◌>>◌}
use node_drain.Api.{NodeCurrentState, Node, same_current_state, work_state}
use node_drain.Cluster.{Json, Fields, KubeNode, ManagedField, listed_nodes, Env, call}
use node_drain.Controller.Objects.{M, io, set_current_state}

-- The loop of isNextNode: some node is doing work.
unfoldable pub any_working : List Node → Bool
any_working [] = false
any_working (n ∷ ns) = work_state n.status.current_state || any_working ns

module _ (env : Env) where
  -- After the loop: `working` is its early return.
  unfoldable pub leave_queue : Bool → NodeCurrentState → M Bool
  leave_queue true current = pure false
  leave_queue false current =
      if same_current_state current NodeCurrentState.queued
      then (do set_current_state env NodeCurrentState.next; pure true)
      else pure false

  -- isNextNode
  unfoldable pub is_next_node : M Bool
  is_next_node = do
    nodes ← io (call env.list_nodes listed_nodes)
    current ← gets (λ st. st.node.status.current_state)
    leave_queue (any_working nodes) current

unfoldable pub lookup : String → Fields → Option Json
lookup key Fields.end = none
lookup key (Fields.field k v fields) = if k == key then some v else lookup key fields

-- `m[key]` for a decoded object; `none` also where the value is no object
unfoldable pub member : String → Json → Option Json
member key (Json.object fields) = lookup key fields
member key _ = none

-- The entry claims `spec.unschedulable` for its manager.
unfoldable pub owns_unschedulable : Json → Bool
unfolding member
owns_unschedulable m = elim (member "f:spec" m) [
  | none ↦ false
  | some v ↦ elim (member "f:unschedulable" v) [ none ↦ false | some _ ↦ true ]
]

module _ (env : Env) where
  -- What the body of the loop finds in one entry.
  unfoldable pub claims_unschedulable : ManagedField → Bool
  claims_unschedulable f =
      if f.subresource == ""
      then elim f.fields_v1 [
        | none ↦ false
        | some raw ↦ elim (env.unmarshal raw) [ err e ↦ false | ok m ↦ owns_unschedulable m ]
      ]
      else false

  unfoldable pub first_manager : List ManagedField → String
  first_manager [] = ""
  first_manager (f ∷ fs) = if claims_unschedulable f then f.manager else first_manager fs

  -- getManagerOfUnschedulable
  unfoldable pub manager_of_unschedulable : KubeNode → String
  manager_of_unschedulable k = first_manager k.managed_fields
