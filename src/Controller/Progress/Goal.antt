-- ===== src/Controller/Progress/Goal.antt =====
-- The last part of a run: a waiting node gets its turn, and a node that has it is drained.
use node_drain.Base.{
  ℕ, String, Bool, true, false, not, ◌&&◌, ◌||◌, ◌≡◌, refl, Option, none, if_true, if_false, look,
  ◌>>=◌,
}
use node_drain.Base.Outcomes.{Outcome, Outcome-bind, Outcome-pure, Outcome-gets}
use node_drain.Api.{NodeState, NodeCurrentState, same_state, same_current_state, work_state, drain}
use node_drain.Cluster.{Env}
use node_drain.Settings.{Settings}
use node_drain.DrainManager.Willing.{Never, call-Gives}
use node_drain.Controller.{progress, reconcile_node}
use node_drain.Controller.Objects.{Session, M, CtrlResult, after, done, second}
use node_drain.Controller.Undrain.{undrain_due}
use node_drain.Controller.Queue.{is_next_node, leave_queue}
use node_drain.Controller.Work.{recheck_reboot, drain_if_wanted, reboot_if_drained, work}
use node_drain.Controller.Progress.{IsServing, IsAt, IsFresh, NoneWorking, IsDrained}
use node_drain.Controller.Progress.Steps.{io-IsAt, set_current_state-IsAt, drain_node-IsDrained}
use node_drain.Controller.Progress.Run.{
  return_or-Surely, idle_check, next_check, reconcile_node-Surely,
}

module _ (env : Env) (s : Settings) (name : String) (w : IsServing env s name)
    (last : Option ℕ) where
  leave_queue-IsAt :
      (st : Session)
      → IsAt name last NodeCurrentState.queued st
      → Outcome Never
          (λ b st'. (b ≡ true) × IsAt name last NodeCurrentState.next st')
          (leave_queue env false NodeCurrentState.queued st)
  unfolding leave_queue
  leave_queue-IsAt st h =
      Outcome-bind Never (λ _. IsAt name last NodeCurrentState.next) _ _ _ st
        (set_current_state-IsAt env s name w last NodeCurrentState.queued _ st h refl)
        (λ _ st1 h1. Outcome-pure Never _ true st1 (refl, h1))

  is_next_node-IsAt :
      (st : Session)
      → IsAt name last NodeCurrentState.queued st
      → NoneWorking env st.trace
      → Outcome Never
          (λ b st'. (b ≡ true) × IsAt name last NodeCurrentState.next st')
          (is_next_node env st)
  unfolding is_next_node
  is_next_node-IsAt st h (ns, e, idle) =
      let c = NodeCurrentState.queued in
      let Q : Bool → Session → Type 0 =
        λ b st'. (b ≡ true) × IsAt name last NodeCurrentState.next st' in
      Outcome-bind Never (λ a st'. (a ≡ ns) × IsAt name last c st') Q _ _ st
        (io-IsAt env s name w last c ns _ st h (call-Gives _ _ st.trace ns e))
        (λ a st1 h1.
          Outcome-bind Never (λ c' st'. (c' ≡ c) × IsAt name last c st') Q _ _ st1
            (Outcome-gets Never (λ c' st'. (c' ≡ c) × IsAt name last c st') _ st1
              (h1.1.observed, h1.1))
            (λ c' st2 h2. rw (h1.0, idle, h2.0) (leave_queue-IsAt st2 h2.1)))

  progress-IsAt :
      (st : Session)
      → IsAt name last NodeCurrentState.queued st
      → NoneWorking env st.trace
      → Outcome Never
          (λ r st'. (r ≡ after second) × IsAt name last NodeCurrentState.next st')
          (progress env s st)
  unfolding progress look work_state
  progress-IsAt st h idle =
      let Q : CtrlResult → Session → Type 0 =
        λ r st'. (r ≡ after second) × IsAt name last NodeCurrentState.next st' in
      let P = λ (m : M CtrlResult). Outcome Never Q (m st) in
      if_false P (work_state st.node.status.current_state) _ _ (rw h.observed refl) (
        if_true P (same_current_state st.node.status.current_state NodeCurrentState.queued) _ _
          (rw h.observed refl)
          (Outcome-bind Never (λ b st'. (b ≡ true) × IsAt name last NodeCurrentState.next st') Q _ _
            st (is_next_node-IsAt st h idle)
            (λ b st1 h1. Outcome-pure Never Q _ st1 (rw h1.0 (refl, h1.1)))))

  -- Let every patch be answered as asked, and let no listed node be at work. A node that is to be
  -- drained and that waits in the queue, whose check for a reboot is not due, gets its turn in one
  -- run: this returns no error, asks for the next run after a second, and leaves the node in the
  -- state Next.
  pub reconcile_node-IsAt :
      (st : Session)
      → IsAt name last NodeCurrentState.queued st
      → IsFresh env s st
      → NoneWorking env st.trace
      → Outcome Never
          (λ r st'. (r ≡ after second) × IsAt name last NodeCurrentState.next st')
          (reconcile_node env s st)
  unfolding undrain_due work_state
  reconcile_node-IsAt st h f idle =
      reconcile_node-Surely env s name w last NodeCurrentState.queued _ st refl refl refl h
        (idle_check env s name w last NodeCurrentState.queued st refl h f) (progress-IsAt st h idle)

  -- Where the node is to be drained only, the reboot has no part in the work.
  recheck_reboot-Stays :
      (st : Session)
      → st.node.state ≡ NodeState.drained
      → Outcome Never (λ r st'. (r ≡ none) × (st' ≡ st)) (recheck_reboot env s st)
  unfolding recheck_reboot look ◌>>=◌
  recheck_reboot-Stays st h =
      if_false
        (λ (m : M (Option CtrlResult)). Outcome Never (λ r st'. (r ≡ none) × (st' ≡ st)) (m st))
        (same_state st.node.state NodeState.reboot_if_required
          && (same_current_state st.node.status.current_state NodeCurrentState.next
              || same_current_state st.node.status.current_state NodeCurrentState.drained))
        _ _ (rw h refl) (refl, refl)

  drain_if_wanted-IsDrained :
      (st : Session)
      → IsAt name last NodeCurrentState.next st
      → Outcome Never (λ r st'. (r ≡ none) × IsDrained st') (drain_if_wanted env s st)
  unfolding drain_if_wanted look drain
  drain_if_wanted-IsDrained st h =
      if_true
        (λ (m : M (Option CtrlResult)). Outcome Never (λ r st'. (r ≡ none) × IsDrained st') (m st))
        (drain st.node.state && not st.node.status.drained) _ _ (rw (h.wanted, h.undrained) refl)
        (drain_node-IsDrained env s name w last st h)

  reboot_if_drained-IsDrained :
      (st : Session)
      → IsDrained st
      → Outcome Never (λ r st'. (r ≡ done) × IsDrained st') (reboot_if_drained env s st)
  unfolding reboot_if_drained look ◌>>=◌
  reboot_if_drained-IsDrained st h =
      if_true (λ (m : M CtrlResult). Outcome Never (λ r st'. (r ≡ done) × IsDrained st') (m st))
        (not (same_state st.node.state NodeState.reboot_if_required)) _ _ (rw h.0 refl) (refl, h)

  work-IsDrained :
      (st : Session)
      → IsAt name last NodeCurrentState.next st
      → Outcome Never (λ r st'. (r ≡ done) × IsDrained st') (work env s st)
  unfolding work
  work-IsDrained st h =
      return_or-Surely (λ st'. st' ≡ st) _ _ _ st (recheck_reboot-Stays st h.wanted)
        (λ st1 e1. rw e1 (
          return_or-Surely (IsDrained) _ _ _ st (drain_if_wanted-IsDrained st h)
            (λ st2 h2. reboot_if_drained-IsDrained st2 h2)))

  progress-IsDrained :
      (st : Session)
      → IsAt name last NodeCurrentState.next st
      → Outcome Never (λ r st'. (r ≡ done) × IsDrained st') (progress env s st)
  unfolding progress look work_state
  progress-IsDrained st h =
      if_true (λ (m : M CtrlResult). Outcome Never (λ r st'. (r ≡ done) × IsDrained st') (m st))
        (work_state st.node.status.current_state) _ _ (rw h.observed refl) (work-IsDrained st h)

  -- Let every patch be answered as asked, let the nodes of the cluster be ready, each plugin agree
  -- and its hook succeed, and let the calls of the drain succeed, on another node than the
  -- controller's. A node that is to be drained and that has its turn is drained in one run: this
  -- returns no error, and leaves the node in the state Drained, marked as drained.
  pub reconcile_node-IsDrained :
      (st : Session)
      → IsAt name last NodeCurrentState.next st
      → Outcome Never (λ r st'. (r ≡ done) × IsDrained st') (reconcile_node env s st)
  unfolding undrain_due work_state
  reconcile_node-IsDrained st h =
      reconcile_node-Surely env s name w last NodeCurrentState.next _ st refl refl refl h
        (next_check env s name w last st h) (progress-IsDrained st h)
