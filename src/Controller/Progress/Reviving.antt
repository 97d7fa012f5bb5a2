-- ===== src/Controller/Progress/Reviving.antt =====
-- The runs on a node that was drained and is to be active again, one after the other.
use node_drain.Base.{ℕ, Bool, true, false, String, ◌≡◌, Option, none, ok}
use node_drain.Api.{Node, NodeState, NodeCurrentState}
use node_drain.Cluster.{Trace, Env, KubeNode}
use node_drain.Settings.{Settings}
use node_drain.Controller.Objects.{Session}
use node_drain.Controller.Work.{is_stale, check_interval}
use node_drain.Controller.Progress.{IsServing}
use node_drain.Controller.Walk.{is_foreign}
use node_drain.Controller.Remembering.{IsRemembering}

-- The states from which a node is undrained.
abbrev pub is_drainage : NodeCurrentState → Bool
is_drainage NodeCurrentState.draining = true
is_drainage NodeCurrentState.drained = true
is_drainage NodeCurrentState.rebooting = true
is_drainage _ = false

-- The object is to be active, and has this observed state and this last check for a reboot.
pub record IsReturning (name : String) (last : Option ℕ) (c : NodeCurrentState) (n : Node)
    : Type 0 where
  pub called : n.name ≡ name
  pub alive : n.deletion_timestamp ≡ none
  pub wanted : n.state ≡ NodeState.active
  pub checked : n.status.reboot_required_last_checked ≡ last
  pub observed : n.status.current_state ≡ c

-- A cluster whose nodes and plugins are well, that remembers the object, where no check for a
-- reboot is due, and where no other manager marks the node as unschedulable.
pub record IsReviving (env : Env) (s : Settings) (name : String) (last : Option ℕ)
    (current : Trace → Node) : Type 0 where
  pub serving : IsServing env s name
  pub remembering : IsRemembering env name current
  pub hooks : (t : Trace) (id node : String) → env.post_drain t id node ≡ ok tt
  pub fresh :
      (t : Trace) → is_stale last (env.now t) (check_interval s.reboot_check_interval) ≡ false
  pub ours :
      (t u : Trace) (k : KubeNode) → env.get_kube_node t name ≡ ok k → is_foreign env s k ≡ false

-- The object of an active node.
abbrev pub IsActiveNode : Node → Type 0
IsActiveNode n =
    (n.state ≡ NodeState.active)
    × (n.status.current_state ≡ NodeCurrentState.ok)
    × (n.status.drained ≡ false)

module _ (env : Env) (s : Settings) (name : String) (w : IsServing env s name)
    (last : Option ℕ) where
  abbrev Undraining : Session → Type 0
  Undraining st = IsReturning name last NodeCurrentState.undraining st.node
