-- ===== src/Controller/Undrain.antt =====
-- node_controller.go: `undrain`, which makes a node active again.
use node_drain.Base.{Bool, true, false, ◌||◌, Option, none, some, ◌*◌, ◌<>◌}
use node_drain.Base.{if◌then◌else◌, Result, msg, ok, err, pure, fail, attempt, look, ◌>>=◌, ◌>>◌}
use node_drain.Api.{NodeState, NodeCurrentState, same_current_state}
use node_drain.Cluster.{Env, normal, event, record_entry}
use node_drain.Settings.{Settings}
use node_drain.DrainManager
use node_drain.Controller.Objects.{M, io, CtrlResult, after, second, set_drained}
use node_drain.Controller.Objects.{set_current_state, set_unschedulable}

-- Whether an undrain is due: the node has been worked on and is to be active.
unfoldable pub undrain_due : NodeState → NodeCurrentState → Result Bool
undrain_due state current =
    if same_current_state current NodeCurrentState.drained
      || (same_current_state current NodeCurrentState.draining
          || same_current_state current NodeCurrentState.rebooting)
    then elim state [
      | NodeState.active ↦ ok true
      | NodeState.other s ↦ err (msg ("unhandled state for undrain: " <> s))
      | _ ↦ ok false
    ]
    else ok false

abbrev retry : Option CtrlResult
retry = some (after (30 * second))

module _ (env : Env) (s : Settings) where
  -- `if kubeNode.Spec.Unschedulable { … }`: `none` once the node can be scheduled
  unfoldable pub uncordon_if_healthy : M (Option CtrlResult)
  uncordon_if_healthy = look λ st.
      if st.kube_node.unschedulable
      then (do
        healthy ← attempt (io (DrainManager.is_cluster_nodes_healthy env))
        elim healthy [
          | err e ↦ pure retry
          | ok false ↦ pure retry
          | ok true ↦ do
            patched ← attempt (set_unschedulable env false)
            elim patched [ err e ↦ pure retry | ok _ ↦ pure none ]
        ])
      else pure none

  -- RunPostDrain, then `if node.Status.Drained { … }`
  unfoldable pub after_uncordon : M (Option CtrlResult)
  after_uncordon = look λ st. do
    ran ← attempt (io (DrainManager.run_post_drain env s.plugins st.node.name))
    elim ran [
      | err e ↦ pure retry
      | ok _ ↦
          if st.node.status.drained
          then (do
            patched ← attempt (set_drained env false)
            elim patched [ err e ↦ pure retry | ok _ ↦ pure none ])
          else pure none
    ]

  -- The last step: the node is OK.
  unfoldable pub finish_undrain : M (Option CtrlResult)
  finish_undrain = look λ st. do
    set_current_state env NodeCurrentState.ok
    io (record_entry (event normal "Undrain" st.node.name))
    pure none

  -- From `if undrain { … }` on, and the error of the `switch` before it.
  unfoldable pub undrain_as_due : Result Bool → M (Option CtrlResult)
  undrain_as_due (err e) = fail e
  undrain_as_due (ok false) = pure none
  -- a time.Duration of 1 is a nanosecond
  undrain_as_due (ok true) = do
    set_current_state env NodeCurrentState.undraining
    pure (some (after 1))

  -- undrain; `none` is `true, ctrl.Result{}, nil`
  unfoldable pub undrain : M (Option CtrlResult)
  undrain = look λ st.
      if same_current_state st.node.status.current_state NodeCurrentState.undraining
      then (do
        waiting ← uncordon_if_healthy
        elim waiting [
          | some r ↦ pure (some r)
          | none ↦ do
            waiting' ← after_uncordon
            elim waiting' [ some r ↦ pure (some r) | none ↦ finish_undrain ]
        ])
      else undrain_as_due (undrain_due st.node.state st.node.status.current_state)
