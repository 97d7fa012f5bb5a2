-- ===== src/Controller/Objects.antt =====
-- node_controller.go: the objects that a run works on, and the functions that change one field of
-- them by a patch.
use node_drain.Base.{
  ℕ, zero, suc, String, Bool, true, false, Option, none, some, [], ◌∷◌, ◌*◌, ◌==◌,
}
use node_drain.Base.{if◌then◌else◌, wrap, Result, ok, err, Exec, pure, lift, ◌>>=◌, ◌>>◌}
use node_drain.Api.{NodeState, NodeCurrentState, NodeStatus, Node, same_state, same_current_state}
use node_drain.Cluster.{KubeNode, Entry, created_node, patched_node, patched_status}
use node_drain.Cluster.{patched_kube_node, Trace, Io, Env, call}

abbrev pub node_drain_finalizer : String
node_drain_finalizer = "nodedrain.k8s.slyng.dk/node"

-- ctrl.Result: the time after which the node is queued again, in nanoseconds; 0 is `Result{}`
pub record CtrlResult : Type 0 where
  pub requeue_after : ℕ

abbrev pub second : ℕ
second = 1_000_000_000

abbrev pub minute : ℕ
minute = 60_000_000_000

abbrev pub after : ℕ → CtrlResult
after d = record { requeue_after = d }

abbrev pub done : CtrlResult
done = after 0

-- metav1.Time.IsZero, on a pointer
abbrev pub is_zero : Option ℕ → Bool
is_zero none = true
is_zero (some zero) = true
is_zero (some (suc t)) = false

pub record Session : Type 0 where
  pub node : Node
  pub kube_node : KubeNode
  pub trace : Trace

abbrev pub M : Type 0 → Type 0
M A = Exec Session A

-- A call that does not touch the two objects.
unfoldable pub io : {A : Type 0} → Io A → M A
io m st = let (r, t) = m st.trace in (r, record st { trace = t })

unfoldable pub run_session : {A : Type 0} → M A → Node → KubeNode → Io A
run_session m node kube_node t =
    let (r, st) = m (record { node = node; kube_node = kube_node; trace = t }) in (r, st.trace)

-- An assignment to the object that `node` points to.
unfoldable pub set_node : Node → M (Unit {0})
set_node node st = (ok tt, record st { node = node })

-- `if r != nil { return *r, nil }`
unfoldable pub return_or : {A : Type 0} → M (Option A) → M A → M A
unfolding ◌>>=◌
return_or m k = do r ← m; elim r [ some a ↦ pure a | none ↦ k ]

-- What a patch leaves: the object that the server answered with, or the changed copy and an error.
unfoldable pub patch_reply : String → Node → Entry → Result Node → M (Unit {0})
patch_reply text modified entry (ok answer) st =
    (ok tt, record st { node = answer; trace = entry ∷ st.trace })
patch_reply text modified entry (err e) st =
    (err (wrap text e), record st { node = modified; trace = entry ∷ st.trace })

unfoldable pub kube_reply : KubeNode → Entry → Result KubeNode → M (Unit {0})
kube_reply modified entry (ok answer) st =
    (ok tt, record st { kube_node = answer; trace = entry ∷ st.trace })
kube_reply modified entry (err e) st = (
  err (wrap "failed to update unschedulable status on node: " e),
  record st { kube_node = modified; trace = entry ∷ st.trace },
)

-- The object that createNewNode builds, before its owner and its finalizer are set.
abbrev pub new_node : String → NodeState → Node
new_node name state = record {
  name = name;
  deletion_timestamp = none;
  finalizers = [];
  owner_references = [];
  state = state;
  status = record {
    conditions = [];
    reboot_required_last_checked = none;
    reboot_required = none;
    drained = false;
    current_state = NodeCurrentState.other "";
    boot_id = "";
  };
}

module _ (env : Env) where
  -- `patch := client.MergeFrom(node.DeepCopy())`, a change of the status, `r.Status().Patch`
  unfoldable pub patch_status : String → (NodeStatus → NodeStatus) → M (Unit {0})
  unfolding patch_reply
  patch_status text change st =
      let modified = record st.node { status = change st.node.status } in
      let r = env.patch_status st.trace st.node modified in
      patch_reply text modified (patched_status st.node modified r) r st

  -- setDrained
  unfoldable pub set_drained : Bool → M (Unit {0})
  set_drained drained =
      patch_status "failed to update drained status on node: " (λ u. record u { drained = drained })

  -- setCurrentState
  unfoldable pub set_current_state : NodeCurrentState → M (Unit {0})
  set_current_state c st =
      if same_current_state st.node.status.current_state c
      then (ok tt, st)
      else patch_status "failed to update current state on node: "
          (λ u. record u { current_state = c }) st

  -- setState
  unfoldable pub set_state : NodeState → M (Unit {0})
  unfolding patch_reply
  set_state c st =
      if same_state st.node.state c
      then (ok tt, st)
      else (let modified = record st.node { state = c } in
          let r = env.patch_node st.trace st.node modified in
          patch_reply "failed to update state on node: " modified (patched_node st.node modified r)
            r st)

  unfoldable pub patch_kube_node : Bool → M (Unit {0})
  unfolding kube_reply
  patch_kube_node unschedulable st =
      let modified = record st.kube_node { unschedulable = unschedulable } in
      let r = env.patch_kube_node st.trace st.kube_node modified in
      kube_reply modified (patched_kube_node st.kube_node modified r) r st

  -- setUnschedulable
  unfoldable pub set_unschedulable : Bool → M (Unit {0})
  set_unschedulable true st =
      if st.kube_node.unschedulable then (ok tt, st) else patch_kube_node true st
  set_unschedulable false st =
      if st.kube_node.unschedulable then patch_kube_node false st else (ok tt, st)

  -- setBootID
  unfoldable pub set_boot_id : M (Unit {0})
  set_boot_id st =
      if st.kube_node.boot_id == st.node.status.boot_id
      then (ok tt, st)
      else patch_status "failed to update bootID on node: "
          (λ u. record u { boot_id = st.kube_node.boot_id }) st

  -- createNewNode
  unfoldable pub create_new_node : KubeNode → Io CtrlResult
  create_new_node k = do
    let state = if k.unschedulable then NodeState.cordoned else NodeState.active
    node ← lift (env.set_owner_reference k (new_node k.name state))
    let finalized = env.add_finalizer node node_drain_finalizer
    call (λ t. env.create_node t finalized) (created_node finalized)
    pure (after (5 * second))
