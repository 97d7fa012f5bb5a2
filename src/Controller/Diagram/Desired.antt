-- ===== src/Controller/Diagram/Desired.antt =====
-- node_controller.go, the `switch` on the desired state in `Reconcile`: the diagram along it.
use node_drain.Base.{true, false, not, ◌&&◌, ◌≡◌, refl, arith}
use node_drain.Base.{ok, ◌==◌}
use node_drain.Api.{NodeState, NodeCurrentState, same_current_state, work_state}
use node_drain.Cluster.{Env}
use node_drain.Cluster.Quiet.{Keeps-record_entry}
use node_drain.Settings.{Settings}
use node_drain.PodUtils.{get_field_owner}
use node_drain.RebootManager.Quiet.{cleanup_node-IsQuiet}
use node_drain.Controller.{make_active, make_cordoned, enqueue, by_state}
use node_drain.Controller.Objects.{Session}
use node_drain.Controller.Undrain.{undrain_due}
use node_drain.Controller.Queue.{manager_of_unschedulable}
use node_drain.Controller.Triple.{
  Triple, Going, Triple-pure, Triple-bind, Triple-look, Triple-io, Triple-attempt_io, Triple-if,
  Triple-weaken,
}
use node_drain.Controller.Diagram.{may_follow, AllFollow, aside, IsUndisturbed}
use node_drain.Controller.Diagram.Patches.{set_current_state-Triple, set_unschedulable-Triple}
use node_drain.Controller.Diagram.Undraining.{IsSettled}

abbrev pub NotUndraining : NodeCurrentState → Type 0
NotUndraining c = same_current_state c NodeCurrentState.undraining ≡ false

abbrev pub Waits : Session → Type 0
Waits st = NotUndraining st.node.status.current_state

abbrev CanBeOk : Session → Type 0
CanBeOk st = may_follow st.node.status.current_state NodeCurrentState.ok ≡ true

settled-ok :
    (c : NodeCurrentState)
    → undrain_due NodeState.active c ≡ ok false
    → NotUndraining c
    → may_follow c NodeCurrentState.ok ≡ true
unfolding undrain_due
settled-ok c h k = ground arith

settled-cordoned :
    (c : NodeCurrentState) → NotUndraining c → may_follow c NodeCurrentState.cordoned ≡ true
settled-cordoned c k = ground arith

idle-queued :
    (c : NodeCurrentState)
    → not (work_state c) && not (same_current_state c NodeCurrentState.queued) ≡ true
    → may_follow c NodeCurrentState.queued ≡ true
unfolding work_state
idle-queued c h = ground arith

module _ (env : Env) (s : Settings) (u : IsUndisturbed env) where
  make_active-Triple :
      Triple AllFollow
        (λ st.
          (NotUndraining st.node.status.current_state)
          × (undrain_due NodeState.active st.node.status.current_state ≡ ok false))
        (make_active env s)
        (Going Waits)
  unfolding make_active
  make_active-Triple = Triple-look _ λ st p.
      Triple-if
        (not (manager_of_unschedulable env st.kube_node == "")
          && not (manager_of_unschedulable env st.kube_node == get_field_owner s.manager_namespace))
        _ _
        (λ _.
          Triple-bind (λ _ _. Unit {0}) _ _
            (Triple-weaken _ (λ st' e. tt)
              (Triple-io _ (aside (λ t. Keeps-record_entry _ refl)) (λ st' t q. q)))
            (λ _. Triple-pure _ (λ st' q. tt)))
        (λ _.
          Triple-weaken _ (λ st' e. rw e (settled-ok st.node.status.current_state p.1 p.0))
            (Triple-bind (λ _ st'. CanBeOk st') _ _
              (set_unschedulable-Triple env u CanBeOk CanBeOk false (λ st' k t q. q))
              (λ _.
                Triple-bind (λ _. Waits) _ _
                  (set_current_state-Triple env u CanBeOk Waits NodeCurrentState.ok (λ st' q. q)
                    (λ st' q c. rw c refl) (λ st' n t q c _ _. rw c refl))
                  (λ _.
                    Triple-bind (λ _. Waits) _ _
                      (Triple-attempt_io _ (aside (λ t. cleanup_node-IsQuiet env s _))
                        (λ st' t q. q))
                      (λ _. Triple-pure _ (λ st' q. q))))))

  make_cordoned-Triple : Triple AllFollow Waits (make_cordoned env s) (Going Waits)
  unfolding make_cordoned
  make_cordoned-Triple =
      Triple-bind (λ _. Waits) _ _
        (set_unschedulable-Triple env u Waits Waits true (λ st' k t q. q))
        (λ _.
          Triple-bind (λ _. Waits) _ _
            (set_current_state-Triple env u Waits Waits NodeCurrentState.cordoned
              (λ st' q. settled-cordoned st'.node.status.current_state q) (λ st' q c. q)
              (λ st' n t q c _ _. rw c refl))
            (λ _. Triple-pure _ (λ st' q. q)))

  enqueue-Triple : Triple AllFollow Waits (enqueue env s) (Going Waits)
  unfolding enqueue
  enqueue-Triple = Triple-look _ λ st p.
      Triple-if
        (not (work_state st.node.status.current_state)
          && not (same_current_state st.node.status.current_state NodeCurrentState.queued))
        _ _
        (λ h.
          Triple-bind (λ _ _. Unit {0}) _ _
            (set_current_state-Triple env u _ _ NodeCurrentState.queued
              (λ st' e. rw e (idle-queued st.node.status.current_state h)) (λ st' e c. tt)
              (λ st' n t e _ _ _. tt))
            (λ _. Triple-pure _ (λ st' q. tt)))
        (λ _. Triple-pure _ (λ st' e. rw e p))

  pub by_state-Triple :
      (state : NodeState)
      → Triple AllFollow
          (λ st. (st.node.state ≡ state) × IsSettled st)
          (by_state env s state)
          (Going Waits)
  unfolding by_state
  by_state-Triple NodeState.active =
      Triple-weaken _ (λ st p. (p.1.0, rw p.0 at p.1.1)) make_active-Triple
  by_state-Triple NodeState.cordoned = Triple-weaken _ (λ st p. p.1.0) make_cordoned-Triple
  by_state-Triple NodeState.drained = Triple-weaken _ (λ st p. p.1.0) enqueue-Triple
  by_state-Triple NodeState.reboot_if_required = Triple-weaken _ (λ st p. p.1.0) enqueue-Triple
  by_state-Triple (NodeState.other _) = Triple-pure _ (λ st p. p.1.0)
