-- ===== src/Controller/Walk.antt =====
-- What a run of `Reconcile` keeps, from what its parts keep: `I` is said of the trace, and holds
-- also where the run ends with an error; `J` is said of the run's copy of the node and the trace,
-- and holds as long as no call has failed.
pub mod Plain
pub mod Rules
pub mod Starts
pub mod Evicts
pub mod Turns
pub mod Patches
pub mod Undraining
pub mod Draining
pub mod Working
pub mod Whole
use node_drain.Base.{Bool, true, false, not, ◌||◌, ◌&&◌, ◌⊎◌, ◌≡◌, String, ◌==◌, ◌∷◌, Result, ok}
use node_drain.Base.Keeps.{Keeps}
use node_drain.Api.{Node, NodeState, NodeCurrentState, same_current_state}
use node_drain.Cluster.{Entry, Trace, Env, patched_node, patched_status, got_node}
use node_drain.Cluster.{patched_kube_node, created_node, updated_node, KubeNode}
use node_drain.Cluster.Evidence.{Lasts}
use node_drain.Settings.{Settings}
use node_drain.RebootManager.{reboot_node}
use node_drain.Controller.Objects.{Session, CtrlResult}
use node_drain.Controller.Undrain.{undrain}
use node_drain.PodUtils.{get_field_owner}
use node_drain.Controller.Drain.{evict, start_draining}
use node_drain.Controller.Queue.{is_next_node, manager_of_unschedulable}
use node_drain.Controller.Triple.{Triple, Going}

-- A patch of the status that neither starts a drain or its reversal nor lets a node leave the
-- queue.
abbrev pub is_ordinary : NodeCurrentState → NodeCurrentState → Bool
is_ordinary from to =
    same_current_state from to
    || not (
        same_current_state to NodeCurrentState.next
        || same_current_state to NodeCurrentState.draining
        || same_current_state to NodeCurrentState.undraining)

-- A patch of a Node's specification, an update or the creation of a Node.
abbrev pub is_write : Entry → Bool
is_write (patched_node _ _ _) = true
is_write (created_node _ _) = true
is_write (updated_node _ _) = true
is_write _ = false

-- Another manager than this program's made the Kubernetes node unschedulable.
abbrev pub is_foreign : Env → Settings → KubeNode → Bool
is_foreign env s k =
    not (manager_of_unschedulable env k == "")
    && not (manager_of_unschedulable env k == get_field_owner s.manager_namespace)

abbrev pub OnSession : (Node → Trace → Type 0) → Session → Type 0
OnSession J st = J st.node st.trace

pub record IsPreserved (env : Env) (s : Settings) (I : Trace → Type 0) (J : Node → Trace → Type 0)
    : Type 0 where
  pub asides : Lasts I
  pub node_asides : (n : Node) → Lasts (J n)
  pub status :
      (b m : Node) (r : Result Node) (t : Trace)
      → m.name ≡ b.name
      → is_ordinary b.status.current_state m.status.current_state ≡ true
      → I t
      → J b t
      → I (patched_status b m r ∷ t)
  pub node_status :
      (b m a : Node) (t : Trace)
      → is_ordinary b.status.current_state m.status.current_state ≡ true
      → J b t
      → env.patch_status t b m ≡ ok a
      → J a (patched_status b m (ok a) ∷ t)
  pub writes : (e : Entry) (t : Trace) → is_write e ≡ true → I t → I (e ∷ t)
  -- the patches of a Kubernetes node outside of undrain
  pub kube :
      (b m : KubeNode) (r : Result KubeNode) (t : Trace)
      → (m.unschedulable ≡ true) ⊎ (is_foreign env s b ≡ false)
      → I t
      → I (patched_kube_node b m r ∷ t)
  pub node_spec :
      (b a : Node) (c : NodeState) (t : Trace)
      → J b t
      → env.patch_node t b (record b { state = c }) ≡ ok a
      → J a (patched_node b (record b { state = c }) (ok a) ∷ t)
  pub node_kube :
      (n : Node) (k m : KubeNode) (r : Result KubeNode) (t : Trace)
      → J n t
      → J n (patched_kube_node k m r ∷ t)
  pub turns : Triple I (OnSession J) (is_next_node env) (λ _. OnSession J)
  pub starts : Triple I (OnSession J) (start_draining env s) (λ _. OnSession J)
  -- the controller does not run on the node
  pub evicts : (name : String) → (s.own_node == name) ≡ false → Keeps I (evict env s name)
  pub node_evicts :
      (n : Node) (name : String) → (s.own_node == name) ≡ false → Keeps (J n) (evict env s name)
  pub reboots : (name : String) → Keeps I (reboot_node env s name)
  pub node_reboots : (n : Node) (name : String) → Keeps (J n) (reboot_node env s name)

-- How a run comes to `J`: by the reads that it starts with, and by undrain.
pub record IsEntered (env : Env) (s : Settings) (I : Trace → Type 0) (J J' : Node → Trace → Type 0)
    : Type 0 where
  pub enters :
      (name : String) (n : Node) (t : Trace)
      → I t
      → env.get_node t name ≡ ok n
      → J n (got_node name (ok n) ∷ t)
  pub undrains : Triple I (OnSession J) (undrain env s) (Going {A = CtrlResult} (OnSession J'))
