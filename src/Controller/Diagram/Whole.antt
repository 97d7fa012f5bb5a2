-- ===== src/Controller/Diagram/Whole.antt =====
-- node_controller.go, `Reconcile`: the diagram along it.
use node_drain.Base.{Bool, true, false, not, ◌&&◌, ◌≡◌, refl, arith}
use node_drain.Base.{String, ok, err, is_not_found}
use node_drain.Base.Keeps.{
  Keeps, Keeps-bind, Keeps-lift, Keeps-pure, Keeps-if, Keeps-fail, Keeps-attempt,
}
use node_drain.Api.{NodeCurrentState, Node, same_current_state, work_state}
use node_drain.Cluster.{Trace, Env, KubeNode, call, updated_node}
use node_drain.Cluster.Quiet.{Keeps-call}
use node_drain.Settings.{Settings}
use node_drain.RebootManager.Quiet.{IsPolling}
use node_drain.Controller.{finalize, refresh_drained, progress, reconcile_node, reconcile}
use node_drain.Controller.Objects.{create_new_node, is_zero, node_drain_finalizer}
use node_drain.Controller.Undrain.{undrain_due}
use node_drain.Controller.Queue.{is_next_node, leave_queue, any_working}
use node_drain.Controller.Triple.{
  Triple, Triple-pure, Triple-gets, Triple-bind, Triple-look, Triple-io, Triple-if, Triple-weaken,
  Triple-return_or, Triple-set_node, Keeps-run_session,
}
use node_drain.Controller.Diagram.{may_follow, AllFollow, aside, IsUndisturbed}
use node_drain.Controller.Diagram.Patches.{set_drained-Triple, set_current_state-Triple}
use node_drain.Controller.Diagram.Undraining.{IsSettled, undrain-Triple}
use node_drain.Controller.Diagram.Working.{check_reboot_required-Triple, work-Triple}
use node_drain.Controller.Diagram.Desired.{NotUndraining, Waits, by_state-Triple}

queued-next :
    (c d : NodeCurrentState)
    → d ≡ c
    → same_current_state c NodeCurrentState.queued ≡ true
    → may_follow d NodeCurrentState.next ≡ true
queued-next c d e h = ground arith

module _ (env : Env) (s : Settings) (u : IsUndisturbed env) (polling : IsPolling env) where
  Keeps-update :
      (node : Node) → Keeps AllFollow (call (λ t. env.update_node t node) (updated_node node))
  unfolding call
  Keeps-update node = record { at = λ t h. (tt, h) }

  create_new_node-AllFollow : (k : KubeNode) → Keeps AllFollow (create_new_node env k)
  unfolding create_new_node call
  create_new_node-AllFollow k =
      Keeps-bind _ _ (Keeps-lift _)
        (λ node. Keeps-bind _ _ (record { at = λ t h. (tt, h) }) (λ _. Keeps-pure _))

  refresh_drained-Triple : Triple AllFollow IsSettled (refresh_drained env s) (λ _. IsSettled)
  unfolding refresh_drained
  refresh_drained-Triple = Triple-look _ λ st p.
      Triple-weaken _ (λ st' e. rw e p)
        (Triple-if (not st.kube_node.unschedulable && st.node.status.drained) _ _
          (λ _. set_drained-Triple env u IsSettled IsSettled false (λ st' n t q c d _. rw (c, d) q))
          (λ _. Triple-pure _ (λ st' q. q)))

  leave_queue-Triple :
      (working : Bool) (c : NodeCurrentState)
      → Triple AllFollow
          (λ st. st.node.status.current_state ≡ c)
          (leave_queue env working c)
          (λ _ _. Unit {0})
  unfolding leave_queue
  leave_queue-Triple true c = Triple-pure _ (λ st q. tt)
  leave_queue-Triple false c =
      Triple-if (same_current_state c NodeCurrentState.queued) _ _
        (λ h.
          Triple-bind (λ _ _. Unit {0}) _ _
            (set_current_state-Triple env u _ _ NodeCurrentState.next (λ st q. queued-next _ _ q h)
              (λ st q e. tt) (λ st n t q _ _ _. tt))
            (λ _. Triple-pure _ (λ st q. tt)))
        (λ _. Triple-pure _ (λ st q. tt))

  is_next_node-Triple : Triple AllFollow (λ _. Unit {0}) (is_next_node env) (λ _ _. Unit {0})
  unfolding is_next_node
  is_next_node-Triple =
      Triple-bind (λ _ _. Unit {0}) _ _
        (Triple-io _ (aside (λ t. Keeps-call _ _ (λ r. refl))) (λ st t q. q))
        (λ nodes.
          Triple-bind (λ c st. st.node.status.current_state ≡ c) _ _ (Triple-gets _ (λ st q. refl))
            (λ c. leave_queue-Triple (any_working nodes) c))

  progress-Triple : Triple AllFollow Waits (progress env s) (λ _ _. Unit {0})
  unfolding progress
  progress-Triple = Triple-look _ λ st p.
      Triple-if (work_state st.node.status.current_state) _ _
        (λ h. Triple-weaken _ (λ st' e. rw e (h, p)) (work-Triple env s u polling))
        (λ _.
          Triple-if (same_current_state st.node.status.current_state NodeCurrentState.queued) _ _
            (λ _.
              Triple-weaken _ (λ st' e. tt)
                (Triple-bind (λ _ _. Unit {0}) _ _ is_next_node-Triple
                  (λ next. Triple-pure _ (λ st' q. tt))))
            (λ _. Triple-pure _ (λ st' q. tt)))

  finalize-Triple : Triple AllFollow (λ _. Unit {0}) (finalize env s) (λ _ _. Unit {0})
  unfolding finalize
  finalize-Triple = Triple-look _ λ st _.
      Triple-if (env.contains_finalizer st.node node_drain_finalizer) _ _
        (λ _.
          Triple-bind (λ _ _. Unit {0}) _ _ (Triple-set_node _ (λ st' q. tt))
            (λ _.
              Triple-bind (λ _ _. Unit {0}) _ _ (Triple-io _ (Keeps-update _) (λ st' t q. q))
                (λ _. Triple-pure _ (λ st' q. tt))))
        (λ _. Triple-pure _ (λ st' q. tt))

  reconcile_node-Triple : Triple AllFollow (λ _. Unit {0}) (reconcile_node env s) (λ _ _. Unit {0})
  unfolding reconcile_node
  reconcile_node-Triple = Triple-look _ λ st _.
      Triple-if (not (is_zero st.node.deletion_timestamp)) _ _
        (λ _. Triple-weaken _ (λ st' e. tt) finalize-Triple)
        (λ _.
          Triple-weaken _ (λ st' e. tt)
            (Triple-return_or IsSettled _ _ (undrain-Triple env s u) (
              Triple-bind (λ _. IsSettled) _ _ refresh_drained-Triple
                (λ _.
                  Triple-bind (λ _. IsSettled) _ _
                    (check_reboot_required-Triple env s u polling
                      (λ state c. NotUndraining c × (undrain_due state c ≡ ok false)))
                    (λ _.
                      Triple-return_or Waits _ _
                        (Triple-look _ λ st' p.
                          Triple-weaken _ (λ st'' e. rw e (refl, p))
                            (by_state-Triple env s u st'.node.state))
                        progress-Triple)))))

  -- Every patch of a status that a run of Reconcile sends moves the observed state along the
  -- diagram or leaves it, whatever the calls reply, as long as the answers to patches have the
  -- fields of the request and polling only calls its condition.
  pub reconcile-AllFollow :
      (name : String) (t : Trace) → AllFollow t → AllFollow (reconcile env s name t).1
  unfolding reconcile
  reconcile-AllFollow name t h =
      (Keeps-bind _ _ (aside (λ t'. Keeps-call _ _ (λ r. refl))) (λ kube_node.
          Keeps-bind _ _ (Keeps-attempt _ (aside (λ t'. Keeps-call _ _ (λ r. refl)))) (elim [
            | ok node ↦ Keeps-run_session _ reconcile_node-Triple (λ st. tt) node kube_node
            | err e ↦
                Keeps-if (is_not_found e) _ _ (λ _. create_new_node-AllFollow kube_node)
                  (λ _. Keeps-fail _)
          ]))).at
        t h
