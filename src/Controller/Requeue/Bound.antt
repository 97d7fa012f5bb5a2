-- ===== src/Controller/Requeue/Bound.antt =====
-- `Reconcile`, by how long it lets the node wait.
use node_drain.Base.{String, true, false, ok, err, arith}
use node_drain.Api.{NodeState, Node}
use node_drain.Cluster.{Env, Trace, KubeNode}
use node_drain.Settings.{Settings}
use node_drain.Controller.{
  finalize, make_active, make_cordoned, enqueue, by_state, progress, reconcile_node, reconcile,
}
use node_drain.Controller.Objects.{CtrlResult, M, run_session, create_new_node}
use node_drain.Controller.Requeue.{
  IsSoon, IsSoonIfAny, Returns, Returned, Returns-pure, Returns-fail, Returns-look, Returns-if,
  Returns-then, Returns-return_or,
}
use node_drain.Controller.Requeue.Parts.{undrain-IsSoon, work-IsSoon}

-- A run of the reconciler's steps returns what they return.
Returns-run_session :
    (m : M CtrlResult) (n : Node) (k : KubeNode)
    → Returns IsSoon m
    → Returns IsSoon (run_session m n k)
unfolding run_session
Returns-run_session m n k h = record {
  at = λ t. h.at (record { node = n; kube_node = k; trace = t });
}

module _ (env : Env) (s : Settings) where
  finalize-IsSoon : Returns IsSoon (finalize env s)
  unfolding finalize
  finalize-IsSoon = Returns-look _ λ st.
      Returns-if _ _ _
        (Returns-then IsSoon _ _ (λ _. Returns-then IsSoon _ _ (λ _. Returns-pure _ (omega arith))))
        (Returns-pure _ (omega arith))

  make_active-IsSoon : Returns IsSoonIfAny (make_active env s)
  unfolding make_active
  make_active-IsSoon = Returns-look _ λ st.
      Returns-if _ _ _ (Returns-then IsSoonIfAny _ _ (λ _. Returns-pure _ (omega arith))) (
        Returns-then IsSoonIfAny _ _ (λ _.
          Returns-then IsSoonIfAny _ _
            (λ _. Returns-then IsSoonIfAny _ _ (λ _. Returns-pure _ tt))))

  make_cordoned-IsSoon : Returns IsSoonIfAny (make_cordoned env s)
  unfolding make_cordoned
  make_cordoned-IsSoon =
      Returns-then IsSoonIfAny _ _ (λ _. Returns-then IsSoonIfAny _ _ (λ _. Returns-pure _ tt))

  enqueue-IsSoon : Returns IsSoonIfAny (enqueue env s)
  unfolding enqueue
  enqueue-IsSoon = Returns-look _ λ st.
      Returns-if _ _ _ (Returns-then IsSoonIfAny _ _ (λ _. Returns-pure _ (omega arith)))
        (Returns-pure _ tt)

  by_state-IsSoon : (c : NodeState) → Returns IsSoonIfAny (by_state env s c)
  unfolding by_state
  by_state-IsSoon NodeState.active = make_active-IsSoon
  by_state-IsSoon NodeState.cordoned = make_cordoned-IsSoon
  by_state-IsSoon NodeState.drained = enqueue-IsSoon
  by_state-IsSoon NodeState.reboot_if_required = enqueue-IsSoon
  by_state-IsSoon (NodeState.other x) = Returns-pure _ tt

  progress-IsSoon : Returns IsSoon (progress env s)
  unfolding progress
  progress-IsSoon = Returns-look _ λ st. Returns-if _ _ _ (work-IsSoon env s) (
      Returns-if _ _ _
        (Returns-then IsSoon _ _
          (elim [ true ↦ Returns-pure _ (omega arith) | false ↦ Returns-pure _ (omega arith) ]))
        (Returns-pure _ (omega arith)))

  reconcile_node-IsSoon : Returns IsSoon (reconcile_node env s)
  unfolding reconcile_node
  reconcile_node-IsSoon = Returns-look _ λ st. Returns-if _ _ _ finalize-IsSoon (
      Returns-return_or _ _ (undrain-IsSoon env s) (
        Returns-then IsSoon _ _ (λ _. Returns-then IsSoon _ _ (λ _.
          Returns-return_or _ _ (Returns-look _ λ st'. by_state-IsSoon st'.node.state)
            progress-IsSoon))))

  create_node-IsSoon : (k : KubeNode) → Returns IsSoon (create_new_node env k)
  unfolding create_new_node
  create_node-IsSoon k =
      Returns-then IsSoon _ _ (λ node. Returns-then IsSoon _ _ (λ _. Returns-pure _ (omega arith)))

  reconcile-Returns : (name : String) → Returns IsSoon (reconcile env s name)
  unfolding reconcile
  reconcile-Returns name = Returns-then IsSoon _ _ (λ k. Returns-then IsSoon _ _ (elim [
    | ok node ↦ Returns-run_session _ node k reconcile_node-IsSoon
    | err e ↦ Returns-if _ _ _ (create_node-IsSoon k) (Returns-fail e)
  ]))

  -- Whatever the calls reply, a run of `Reconcile` that returns no error asks for the next run in
  -- at most five minutes, or for none.
  pub reconcile-IsSoon : (name : String) (t : Trace) → Returned IsSoon (reconcile env s name t).0
  reconcile-IsSoon name t = (reconcile-Returns name).at t
