-- ===== src/Controller/Walk/Whole.antt =====
-- node_controller.go, `Reconcile`: the rules for what the walk asks for, put together.
use node_drain.Base.{if◌then◌else◌, fail, true, false, not, ◌&&◌, ◌≡◌, refl, String, arith, ◌∷◌}
use node_drain.Base.{ok, err, ◌==◌, is_not_found, Result, attempt, ◌>>=◌}
use node_drain.Base.Keeps.{Keeps, Keeps-bind, Keeps-pure, Keeps-fail, Keeps-lift, Keeps-if}
use node_drain.Api.{NodeState, NodeCurrentState, Node, same_current_state, work_state}
use node_drain.Cluster.{Trace, Env, KubeNode, call, updated_node, got_node, Io}
use node_drain.Cluster.Quiet.{Keeps-call, Keeps-Grows}
use node_drain.Settings.{Settings}
use node_drain.PodUtils.{get_field_owner}
use node_drain.RebootManager.Quiet.{IsPolling, cleanup_node-IsQuiet}
use node_drain.Controller.{
  finalize, refresh_drained, make_active, make_cordoned, enqueue, by_state, progress,
  reconcile_node, reconcile,
}
use node_drain.Controller.Objects.{
  Session, CtrlResult, run_session, is_zero, node_drain_finalizer, create_new_node,
}
use node_drain.Controller.Queue.{manager_of_unschedulable}
use node_drain.Controller.Triple.{
  Triple-pure, Triple-bind, Triple-if, Triple-look, Triple-weaken, Triple-return_or, Triple-io,
  Triple-set_node, Post-trace,
}
use node_drain.Controller.Walk.{IsPreserved, IsEntered, OnSession, is_ordinary}
use node_drain.Controller.Walk.Rules.{Sound, Early, Last, Triple-peek}
use node_drain.Controller.Walk.Patches.{
  attempt_quiet, entry, set_drained-Triple, set_current_state-Triple, cordon-Triple,
  uncordon-Triple,
}
use node_drain.Controller.Walk.Draining.{to_ok}
use node_drain.Controller.Walk.Working.{check_reboot_required-Sound, work-Last}

to_cordoned : (from : NodeCurrentState) → is_ordinary from NodeCurrentState.cordoned ≡ true
to_cordoned from = ground arith

to_queued : (from : NodeCurrentState) → is_ordinary from NodeCurrentState.queued ≡ true
to_queued from = ground arith

module _ (env : Env) (s : Settings) {I : Trace → Type 0} {J : Node → Trace → Type 0}
    {J' : Node → Trace → Type 0} (h : IsPreserved env s I J) (starts : IsEntered env s I J' J)
    (polling : IsPolling env) where
  abbrev Here : {A : Type 0} → A → Session → Type 0
  Here a st = J st.node st.trace

  refresh_drained-Sound : Sound I J (refresh_drained env s)
  unfolding refresh_drained
  refresh_drained-Sound = Triple-peek _ λ st.
      Triple-if (not st.kube_node.unschedulable && st.node.status.drained) _ _
        (λ _. set_drained-Triple env s h false) (λ _. Triple-pure _ (λ st' j. j))

  make_active-Early : Early I J (make_active env s)
  unfolding make_active
  make_active-Early = Triple-look _ λ st j.
      Triple-if
        (not (manager_of_unschedulable env st.kube_node == "")
          && not (manager_of_unschedulable env st.kube_node == get_field_owner s.manager_namespace))
        _ _
        (λ _.
          Triple-bind Here _ _ (Triple-weaken _ (λ st' e. rw e j) (entry env s h _ refl))
            (λ _. Triple-pure _ (λ st' j. tt)))
        (λ d.
          Triple-bind Here _ _ (Triple-weaken _ (λ st' e. rw e (j, d)) (uncordon-Triple env s h))
            (λ _. Triple-bind Here _ _ (set_current_state-Triple env s h _ to_ok) (λ _.
              Triple-bind Here _ _ (attempt_quiet env s h _ (λ t. cleanup_node-IsQuiet env s _))
                (λ _. Triple-pure _ (λ st' j. j)))))

  make_cordoned-Early : Early I J (make_cordoned env s)
  unfolding make_cordoned
  make_cordoned-Early = Triple-bind Here _ _ (cordon-Triple env s h) (λ _.
      Triple-bind Here _ _ (set_current_state-Triple env s h _ to_cordoned)
        (λ _. Triple-pure _ (λ st j. j)))

  enqueue-Early : Early I J (enqueue env s)
  unfolding enqueue
  enqueue-Early = Triple-peek _ λ st.
      Triple-if
        (not (work_state st.node.status.current_state)
          && not (same_current_state st.node.status.current_state NodeCurrentState.queued))
        _ _
        (λ _.
          Triple-bind Here _ _ (set_current_state-Triple env s h _ to_queued)
            (λ _. Triple-pure _ (λ st' j. tt)))
        (λ _. Triple-pure _ (λ st' j. j))

  by_state-Early : (c : NodeState) → Early I J (by_state env s c)
  unfolding by_state
  by_state-Early NodeState.active = make_active-Early
  by_state-Early NodeState.cordoned = make_cordoned-Early
  by_state-Early NodeState.drained = enqueue-Early
  by_state-Early NodeState.reboot_if_required = enqueue-Early
  by_state-Early (NodeState.other x) = Triple-pure _ (λ st j. j)

  progress-Last : Last I J (progress env s)
  unfolding progress
  progress-Last = Triple-peek _ λ st.
      Triple-if (work_state st.node.status.current_state) _ _ (λ _. work-Last env s h polling)
        (λ _.
          Triple-if (same_current_state st.node.status.current_state NodeCurrentState.queued) _ _
            (λ _. Triple-bind Here _ _ h.turns (λ _. Triple-pure _ (λ st' j. tt)))
            (λ _. Triple-pure _ (λ st' j. tt)))

  update_node-Keeps :
      (node : Node) → Keeps I (call (λ t. env.update_node t node) (updated_node node))
  unfolding call
  update_node-Keeps node = record { at = λ t i. h.writes _ t refl i }

  finalize-Last : Last I J' (finalize env s)
  unfolding finalize
  finalize-Last = Triple-peek _ λ st.
      Triple-if (env.contains_finalizer st.node node_drain_finalizer) _ _
        (λ _.
          Triple-bind (λ _ _. Unit {0}) _ _ (Triple-set_node _ (λ st' j. tt))
            (λ _.
              Triple-bind (λ _ _. Unit {0}) _ _ (Triple-io _ (update_node-Keeps _) (λ st' t q. tt))
                (λ _. Triple-pure _ (λ st' q. tt))))
        (λ _. Triple-pure _ (λ st' j. tt))

  reconcile_node-Last : Last I J' (reconcile_node env s)
  unfolding reconcile_node
  reconcile_node-Last = Triple-peek _ λ st.
      Triple-if (not (is_zero st.node.deletion_timestamp)) _ _ (λ _. finalize-Last)
        (λ _. Triple-return_or (OnSession J) _ _ starts.undrains (
          Triple-bind Here _ _ refresh_drained-Sound (λ _.
            Triple-bind Here _ _ (check_reboot_required-Sound env s h polling) (λ _.
              Triple-return_or (OnSession J) _ _
                (Triple-peek _ λ st'. by_state-Early st'.node.state) progress-Last))))

  create_node-Keeps : (k : KubeNode) → Keeps I (create_new_node env k)
  unfolding create_new_node call
  create_node-Keeps k =
      Keeps-bind _ _ (Keeps-lift _)
        (λ node. Keeps-bind _ _ (record { at = λ t i. h.writes _ t refl i }) (λ _. Keeps-pure _))

  run-I :
      (n : Node) (k : KubeNode) (t : Trace)
      → I t
      → J' n t
      → I (run_session (reconcile_node env s) n k t).1
  unfolding run_session
  run-I n k t i j =
      let st : Session = record { node = n; kube_node = k; trace = t } in
      Post-trace I (λ _ _. Unit {0}) (reconcile_node env s st).0 (reconcile_node env s st).1
        (reconcile_node-Last.at st i j)

  -- The rest of a run, by what the read of the node returned.
  found-I :
      (name : String) (k : KubeNode) (t : Trace) (r : Result Node)
      → env.get_node t name ≡ r
      → I t
      → (let rest : Io CtrlResult = elim r [
        | ok node ↦ run_session (reconcile_node env s) node k
        | err e ↦ if is_not_found e then create_new_node env k else fail e
      ] in
          I (rest (got_node name r ∷ t)).1)
  found-I name k t (ok node) e i =
      run-I node k (got_node name (ok node) ∷ t) (h.asides _ t refl i)
        (starts.enters name node t i e)
  found-I name k t (err x) e i =
      (Keeps-if (is_not_found x) _ _ (λ _. create_node-Keeps k) (λ _. Keeps-fail x)).at _
        (h.asides (got_node name (err x)) t refl i)

  rest-Keeps :
      (name : String) (k : KubeNode)
      → Keeps I (do
        found ← attempt (call (λ t. env.get_node t name) (got_node name))
        elim found [
          | ok node ↦ run_session (reconcile_node env s) node k
          | err e ↦ if is_not_found e then create_new_node env k else fail e
        ])
  unfolding ◌>>=◌ attempt call
  rest-Keeps name k = record { at = λ t i. found-I name k t (env.get_node t name) refl i }

  pub reconcile-I : (name : String) → Keeps I (reconcile env s name)
  unfolding reconcile
  reconcile-I name =
      Keeps-bind _ _ (Keeps-Grows h.asides (λ t. Keeps-call _ _ (λ r. refl))) (rest-Keeps name)
