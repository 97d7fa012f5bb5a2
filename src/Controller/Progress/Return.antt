-- ===== src/Controller/Progress/Return.antt =====
-- A node that is to be active again: the steps of `undrain` where no call fails and all agree.
use node_drain.Base.{
  String, true, false, ◌≡◌, refl, ◌∙◌, ℕ, Option, none, some, ok, err, if_true, if_false, if_intro,
  look,
}
use node_drain.Base.Outcomes.{Outcome, Outcome-bind, Outcome-pure}
use node_drain.Api.{NodeState, NodeCurrentState, same_current_state}
use node_drain.Cluster.{Trace, Env}
use node_drain.Settings.{Settings}
use node_drain.DrainManager.Willing.{Never, entry-Gives, nodes_healthy-Gives, run_post_drain-Gives}
use node_drain.Controller.Objects.{
  Session, M, CtrlResult, set_drained, set_current_state, set_unschedulable, kube_reply,
  patch_kube_node,
}
use node_drain.Controller.Queue.{manager_of_unschedulable}
use node_drain.Controller.Undrain.{uncordon_if_healthy, after_uncordon, finish_undrain, undrain}
use node_drain.Controller.Progress.{IsServing}
use node_drain.Controller.Progress.Steps.{patch_status-Surely, io-Surely, io-Only}
use node_drain.Controller.Walk.{is_foreign}
use node_drain.Controller.Progress.Attempts.{Succeeds, attempt-Succeeds}

-- A node that is to be active, with this observed state and this last check for a reboot, and that
-- no other manager has marked as unschedulable.
pub record IsBack (env : Env) (s : Settings) (last : Option ℕ) (c : NodeCurrentState) (st : Session)
    : Type 0 where
  pub alive : st.node.deletion_timestamp ≡ none
  pub wanted : st.node.state ≡ NodeState.active
  pub checked : st.node.status.reboot_required_last_checked ≡ last
  pub ours : is_foreign env s st.kube_node ≡ false
  pub observed : st.node.status.current_state ≡ c

-- The end: the node is active, observed as OK and not as drained, and can be scheduled.
abbrev pub IsActive : Session → Type 0
IsActive st =
    (st.node.state ≡ NodeState.active)
    × (st.node.status.current_state ≡ NodeCurrentState.ok)
    × (st.node.status.drained ≡ false)
    × (st.kube_node.unschedulable ≡ false)

module _ (env : Env) (s : Settings) (name : String) (w : IsServing env s name)
    (last : Option ℕ) where
  abbrev pub Back : NodeCurrentState → Session → Type 0
  Back c st = IsBack env s last c st × (st.kube_node.unschedulable ≡ false)

  traced :
      (c : NodeCurrentState) (st : Session) (t : Trace)
      → IsBack env s last c st
      → IsBack env s last c (record st { trace = t })
  traced c st t h = record {
    alive = h.alive;
    wanted = h.wanted;
    checked = h.checked;
    ours = h.ours;
    observed = h.observed;
  }

  uncordoned :
      (c : NodeCurrentState) (st : Session)
      → IsBack env s last c st
      → Outcome Never (λ _. Back c) (set_unschedulable env false st)
  unfolding set_unschedulable patch_kube_node kube_reply manager_of_unschedulable
  uncordoned c st h =
      if_intro (Outcome Never (λ _. Back c)) st.kube_node.unschedulable _ _
        (λ _.
          rw (w.kube_patches st.trace st.kube_node (record st.kube_node { unschedulable = false }))
            (
              record {
                alive = h.alive;
                wanted = h.wanted;
                checked = h.checked;
                ours = h.ours;
                observed = h.observed;
              },
              refl,
            ))
        (λ e. (h, e))

  -- A step that may ask for a wait does not.
  abbrev pub Goes : (Session → Type 0) → Option CtrlResult → Session → Type 0
  Goes P r st = (r ≡ none) × P st

  uncordon-Back :
      (c : NodeCurrentState) (st : Session)
      → IsBack env s last c st
      → Outcome Never (Goes (Back c)) (uncordon_if_healthy env s st)
  unfolding uncordon_if_healthy look
  uncordon-Back c st h =
      let Q : Option CtrlResult → Session → Type 0 = Goes (Back c) in
      if_intro (λ (m : M (Option CtrlResult)). Outcome Never Q (m st)) st.kube_node.unschedulable _
        _
        (λ _.
          Outcome-bind Never (Succeeds (λ b st'. (b ≡ true) × IsBack env s last c st')) Q _ _ st
            (attempt-Succeeds _ _ st (
              io-Surely env s name w last (IsBack env s last c) true _ st (λ t. traced c st t h)
                (nodes_healthy-Gives env w.willing st.trace)))
            (elim [
              | err e ↦ λ st1 q. elim q [ ]
              | ok b ↦ λ st1 q. rw q.0 (
                  Outcome-bind Never (Succeeds (λ _. Back c)) Q _ _ st1
                    (attempt-Succeeds (λ _. Back c) _ st1 (uncordoned c st1 q.1))
                    (elim [
                      | err e ↦ λ st2 q2. elim q2 [ ]
                      | ok _ ↦ λ st2 q2. Outcome-pure Never Q none st2 (refl, q2)
                    ]))
            ]))
        (λ e. Outcome-pure Never Q none st (refl, (h, e)))

  -- The node as the hooks find it, and as `undrain` leaves it.
  abbrev pub Cleared : NodeCurrentState → Session → Type 0
  Cleared c st = Back c st × (st.node.status.drained ≡ false)

  module _ (hooks : (t : Trace) (id node : String) → env.post_drain t id node ≡ ok tt) where
    after_uncordon-Cleared :
        (c : NodeCurrentState) (st : Session)
        → Back c st
        → Outcome Never (Goes (Cleared c)) (after_uncordon env s st)
    unfolding after_uncordon look set_drained
    after_uncordon-Cleared c st h =
        let Q : Option CtrlResult → Session → Type 0 = Goes (Cleared c) in
        let P : Session → Type 0 =
          λ st'. Back c st' × (st'.node.status.drained ≡ st.node.status.drained) in
        Outcome-bind Never (Succeeds (λ _. P)) Q _ _ st
          (attempt-Succeeds (λ _. P) _ st
            (io-Only env s name w last P tt _ st (λ t. ((traced c st t h.0, h.1), refl))
              (run_post_drain-Gives env w.willing hooks s.plugins st.node.name st.trace)))
          (elim [
            | err e ↦ λ st1 q. elim q [ ]
            | ok _ ↦ λ st1 q.
                if_intro (λ (m : M (Option CtrlResult)). Outcome Never Q (m st1))
                  st.node.status.drained _ _
                  (λ _.
                    Outcome-bind Never (Succeeds (λ _. Cleared c)) Q _ _ st1
                      (attempt-Succeeds (λ _. Cleared c) _ st1
                        (patch_status-Surely env s name w last (Cleared c) _ _ st1 (λ t. (
                          (
                            record {
                              alive = q.0.0.alive;
                              wanted = q.0.0.wanted;
                              checked = q.0.0.checked;
                              ours = q.0.0.ours;
                              observed = q.0.0.observed;
                            },
                            q.0.1,
                          ),
                          refl,
                        ))))
                      (elim [
                        | err e ↦ λ st2 q2. elim q2 [ ]
                        | ok _ ↦ λ st2 q2. Outcome-pure Never Q none st2 (refl, q2)
                      ]))
                  (λ e. Outcome-pure Never Q none st1 (refl, (q.0, q.1 ∙ e)))
          ])

    finish_undrain-Cleared :
        (st : Session)
        → Cleared NodeCurrentState.undraining st
        → Outcome Never (Goes (Cleared NodeCurrentState.ok)) (finish_undrain env s st)
    unfolding finish_undrain look set_current_state
    finish_undrain-Cleared st h =
        let P : Session → Type 0 = Cleared NodeCurrentState.ok in
        let Q : Option CtrlResult → Session → Type 0 = Goes P in
        Outcome-bind Never (λ _. P) Q _ _ st
          (if_false (Outcome Never (λ _. P))
            (same_current_state st.node.status.current_state NodeCurrentState.ok) _ _
            (rw h.0.0.observed refl)
            (patch_status-Surely env s name w last P _ _ st (λ t. (
              (
                record {
                  alive = h.0.0.alive;
                  wanted = h.0.0.wanted;
                  checked = h.0.0.checked;
                  ours = h.0.0.ours;
                  observed = refl;
                },
                h.0.1,
              ),
              h.1,
            ))))
          (λ _ st1 h1.
            Outcome-bind Never (λ _. P) Q _ _ st1
              (io-Only env s name w last P tt _ st1 (λ t. ((traced _ st1 t h1.0.0, h1.0.1), h1.1))
                (entry-Gives _ st1.trace))
              (λ _ st2 h2. Outcome-pure Never Q none st2 (refl, h2)))

    pub undrain-Cleared :
        (st : Session)
        → IsBack env s last NodeCurrentState.undraining st
        → Outcome Never (Goes (Cleared NodeCurrentState.ok)) (undrain env s st)
    unfolding undrain look
    undrain-Cleared st h =
        let Q : Option CtrlResult → Session → Type 0 = Goes (Cleared NodeCurrentState.ok) in
        let c = NodeCurrentState.undraining in
        if_true (λ (m : M (Option CtrlResult)). Outcome Never Q (m st))
          (same_current_state st.node.status.current_state NodeCurrentState.undraining) _ _
          (rw h.observed refl)
          (Outcome-bind Never (Goes (Back c)) Q _ _ st (uncordon-Back c st h) (elim [
            | some r ↦ λ st1 q. (let e = q.0 in cc)
            | none ↦ λ st1 q.
                Outcome-bind Never (Goes (Cleared c)) Q _ _ st1 (after_uncordon-Cleared c st1 q.1)
                  (elim [
                    | some r ↦ λ st2 q2. (let e = q2.0 in cc)
                    | none ↦ λ st2 q2. finish_undrain-Cleared st2 q2.1
                  ])
          ]))
