-- ===== src/Controller/Remembering.antt =====
-- node_controller.go on a server that answers a patch with the object that is asked for, and that
-- remembers it: after every part of a run, the run's copy of the node is the server's.
pub mod Parts
pub mod Draining
pub mod Whole
pub mod Runs
use node_drain.Base.{Bool, true, false, String, ◌≡◌, none, ok, ◌∷◌}
use node_drain.Api.{Node}
use node_drain.Cluster.{
  Entry, Trace, Env, KubeNode, patched_node, patched_status, created_node, updated_node,
}
use node_drain.Controller.Objects.{Session}

-- A call that may write an object of the resource Node.
abbrev pub is_node_write : Entry → Bool
is_node_write (patched_node _ _ _) = true
is_node_write (patched_status _ _ _) = true
is_node_write (created_node _ _) = true
is_node_write (updated_node _ _) = true
is_node_write _ = false

-- `current` is the server's object of this name after the calls of a trace; only this program
-- writes it, and reads are not stale.
pub record IsRemembering (env : Env) (name : String) (current : Trace → Node) : Type 0 where
  pub status_patches : (t : Trace) (b m : Node) → env.patch_status t b m ≡ ok m
  pub spec_patches : (t : Trace) (b m : Node) → env.patch_node t b m ≡ ok m
  pub kept : (e : Entry) (t : Trace) → is_node_write e ≡ false → current (e ∷ t) ≡ current t
  pub status :
      (b m : Node) (t : Trace) → m.name ≡ name → current (patched_status b m (ok m) ∷ t) ≡ m
  pub spec : (b m : Node) (t : Trace) → m.name ≡ name → current (patched_node b m (ok m) ∷ t) ≡ m
  pub gets : (t : Trace) → env.get_node t name ≡ ok (current t)
  pub gets_kube : (t : Trace) → (k : KubeNode) × (env.get_kube_node t name ≡ ok k)

-- The run's copy is the server's object, and is not being deleted.
pub record IsCurrent (name : String) (current : Trace → Node) (st : Session) : Type 0 where
  pub same : current st.trace ≡ st.node
  pub called : st.node.name ≡ name
  pub alive : st.node.deletion_timestamp ≡ none
