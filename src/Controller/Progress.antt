-- ===== src/Controller/Progress.antt =====
-- node_controller.go where no call fails and all agree: a node that waits gets its turn, and is
-- drained.
pub mod Steps
pub mod Run
pub mod Goal
pub mod Attempts
pub mod Return
pub mod Active
pub mod Settling
pub mod Reviving
use node_drain.Base.{ℕ, String, true, false, ◌≡◌, ◌==◌, Option, none, ok, List}
use node_drain.Api.{Node, NodeState, NodeCurrentState}
use node_drain.Cluster.{Trace, Env, KubeNode}
use node_drain.Cluster.Pods.{PodSelector}
use node_drain.Settings.{Settings}
use node_drain.DrainManager.Willing.{IsWilling}
use node_drain.Controller.Objects.{Session}
use node_drain.Controller.Queue.{any_working}
use node_drain.Controller.Work.{is_stale, check_interval}

-- Patches are answered with the object that they ask for, and a drain succeeds. The controller runs
-- on another node.
pub record IsServing (env : Env) (s : Settings) (name : String) : Type 0 where
  pub willing : IsWilling env
  pub status_patches : (t : Trace) (b m : Node) → env.patch_status t b m ≡ ok m
  pub kube_patches : (t : Trace) (b m : KubeNode) → env.patch_kube_node t b m ≡ ok m
  pub client_set : env.new_client_set ≡ ok tt
  pub requirement : env.new_requirement ≡ ok tt
  pub deletions : (t : Trace) (p : PodSelector) → env.delete_pods t p ≡ ok tt
  pub drains : (t : Trace) → env.run_node_drain t name ≡ ok tt
  pub elsewhere : s.own_node == name ≡ false
  pub named : name == "" ≡ false

-- The node is to be drained, and has this last check for a reboot and this observed state.
pub record IsAt (name : String) (last : Option ℕ) (c : NodeCurrentState) (st : Session)
    : Type 0 where
  pub called : st.node.name ≡ name
  pub alive : st.node.deletion_timestamp ≡ none
  pub wanted : st.node.state ≡ NodeState.drained
  pub undrained : st.node.status.drained ≡ false
  pub checked : st.node.status.reboot_required_last_checked ≡ last
  pub observed : st.node.status.current_state ≡ c

-- The end: the node is drained, in both fields.
abbrev pub IsDrained : Session → Type 0
IsDrained st =
    (st.node.state ≡ NodeState.drained)
    × (st.node.status.current_state ≡ NodeCurrentState.drained)
    × (st.node.status.drained ≡ true)

-- No check of the reboot is due.
abbrev pub IsFresh : Env → Settings → Session → Type 0
IsFresh env s st =
    is_stale st.node.status.reboot_required_last_checked (env.now st.trace)
      (check_interval s.reboot_check_interval)
    ≡ false

-- A list of the nodes that is made now shows none at work.
abbrev pub NoneWorking : Env → Trace → Type 0
NoneWorking env t = (ns : List Node) × (env.list_nodes t ≡ ok ns) × (any_working ns ≡ false)
