-- ===== src/Controller/Progress/Steps.antt =====
-- The steps of a run towards the drain of a node.
use node_drain.Base.{
  ℕ, if_intro, if_true, if_false, String, true, false, not, ◌||◌, ◌≡◌, refl, ◌==◌, Option, none,
  Result, ok, err, look,
}
use node_drain.Base.Outcomes.{
  Outcome, Outcome-bind, Outcome-wrapping, Outcome-pure, Outcome-gets, Outcome-weaken,
}
use node_drain.Api.{NodeState, NodeCurrentState, NodeStatus, same_current_state, drain}
use node_drain.Cluster.{Trace, Env, Io}
use node_drain.Settings.{Settings}
use node_drain.DrainManager.Willing.{
  Never, Gives, lift-Gives, call-Gives, bind-Gives, attempt-Gives, entry-Gives, is_drain_ok-Gives,
  is_healthy-Gives, run_pre_drain-Gives,
}
use node_drain.RebootManager.{cleanup_node}
use node_drain.Controller.Objects.{
  Session, M, CtrlResult, io, patch_reply, patch_status, set_current_state, set_unschedulable,
  kube_reply, patch_kube_node,
}
use node_drain.Controller.Drain.{
  evict, start_draining, mark_drained, drain_there, drain_cordoned, drain_node,
}
use node_drain.Controller.Progress.{IsServing, IsAt, IsDrained}

io-Post :
    {A : Type 0} (P : Session → Type 0) (v : A) (r : Result A) (st : Session)
    → P st
    → Outcome Never (λ a (_ : Trace). a ≡ v) (r, st.trace)
    → Outcome Never (λ a st'. (a ≡ v) × P st') (r, st)
io-Post P v (ok a) st p h = (h, p)
io-Post P v (err e) st p h = h

module _ (env : Env) (s : Settings) (name : String) (w : IsServing env s name)
    (last : Option ℕ) where
  traced-IsAt :
      (c : NodeCurrentState) (st : Session) (t : Trace)
      → IsAt name last c st
      → IsAt name last c (record st { trace = t })
  traced-IsAt c st t h = record {
    called = h.called;
    alive = h.alive;
    wanted = h.wanted;
    undrained = h.undrained;
    checked = h.checked;
    observed = h.observed;
  }

  pub io-Surely :
      {A : Type 0} (P : Session → Type 0) (v : A) (m : Io A) (st : Session)
      → ((t : Trace) → P (record st { trace = t }))
      → Gives v (m st.trace)
      → Outcome Never (λ a st'. (a ≡ v) × P st') (io m st)
  unfolding io
  io-Surely P v m st h g =
      io-Post P v (m st.trace).0 (record st { trace = (m st.trace).1 }) (h (m st.trace).1) g

  pub io-Only :
      {A : Type 0} (P : Session → Type 0) (v : A) (m : Io A) (st : Session)
      → ((t : Trace) → P (record st { trace = t }))
      → Gives v (m st.trace)
      → Outcome Never (λ _. P) (io m st)
  io-Only P v m st h g =
      Outcome-weaken Never (λ a st'. (a ≡ v) × P st') (λ _. P) (io m) st (λ a st1 h1. h1.1)
        (io-Surely P v m st h g)

  pub io-IsAt :
      {A : Type 0} (c : NodeCurrentState) (v : A) (m : Io A) (st : Session)
      → IsAt name last c st
      → Gives v (m st.trace)
      → Outcome Never (λ a st'. (a ≡ v) × IsAt name last c st') (io m st)
  io-IsAt c v m st h g = io-Surely (IsAt name last c) v m st (λ t. traced-IsAt c st t h) g

  -- A patch of the status, whatever it changes.
  pub patch_status-Surely :
      (Q : Session → Type 0) (text : String) (change : NodeStatus → NodeStatus) (st : Session)
      → ((t : Trace)
          → Q (record st { node = record st.node { status = change st.node.status }; trace = t }))
      → Outcome Never (λ _. Q) (patch_status env text change st)
  unfolding patch_status patch_reply
  patch_status-Surely Q text change st q =
      rw (w.status_patches st.trace st.node (record st.node { status = change st.node.status }))
        (q _)

  pub set_current_state-IsAt :
      (c c' : NodeCurrentState) (st : Session)
      → IsAt name last c st
      → same_current_state c c' ≡ false
      → Outcome Never (λ _. IsAt name last c') (set_current_state env c' st)
  unfolding set_current_state
  set_current_state-IsAt c c' st h d =
      if_false (Outcome Never (λ _. IsAt name last c'))
        (same_current_state st.node.status.current_state c') _ _ (rw h.observed d)
        (patch_status-Surely (IsAt name last c') _ _ st (λ t. record {
          called = h.called;
          alive = h.alive;
          wanted = h.wanted;
          undrained = h.undrained;
          checked = h.checked;
          observed = refl;
        }))

  set_unschedulable-IsAt :
      (c : NodeCurrentState) (st : Session)
      → IsAt name last c st
      → Outcome Never (λ _. IsAt name last c) (set_unschedulable env true st)
  unfolding set_unschedulable patch_kube_node kube_reply
  set_unschedulable-IsAt c st h =
      if_intro (Outcome Never (λ _. IsAt name last c)) st.kube_node.unschedulable _ _ (λ _. h)
        (λ _.
          rw (w.kube_patches st.trace st.kube_node (record st.kube_node { unschedulable = true }))
            (record {
              called = h.called;
              alive = h.alive;
              wanted = h.wanted;
              undrained = h.undrained;
              checked = h.checked;
              observed = h.observed;
            }))

  start_draining-IsAt :
      (st : Session)
      → IsAt name last NodeCurrentState.next st
      → Outcome Never (λ _. IsAt name last NodeCurrentState.draining) (start_draining env s st)
  unfolding start_draining look
  start_draining-IsAt st h =
      let n = st.node.name in
      let c = NodeCurrentState.next in
      Outcome-bind Never (λ a st'. (a ≡ true) × IsAt name last c st') _ _ _ st
        (io-IsAt c true _ st h (
          Outcome-wrapping Never _ _ _ st.trace
            (is_healthy-Gives env w.willing s.plugins n st.trace)))
        (λ a st1 h1. rw h1.0 (
          Outcome-bind Never (λ b st'. (b ≡ true) × IsAt name last c st') _ _ _ st1
            (io-IsAt c true _ st1 h1.1 (
              Outcome-wrapping Never _ _ _ st1.trace
                (is_drain_ok-Gives env w.willing s.plugins n st1.trace)))
            (λ b st2 h2. rw h2.0 (set_current_state-IsAt c _ st2 h2.1 refl))))

  cleanup_node-Gives : (t : Trace) → Gives tt (cleanup_node env s name t)
  unfolding cleanup_node
  cleanup_node-Gives t =
      if_false (λ (m : Io (Unit {0})). Gives tt (m t)) (name == "") _ _ w.named
        (bind-Gives tt _ _ _ t (lift-Gives tt env.new_requirement t w.requirement)
          (λ t1. Outcome-wrapping Never _ _ _ t1 (call-Gives _ _ t1 tt (w.deletions t1 _))))

  evict-Gives : (t : Trace) → Gives tt (evict env s name t)
  unfolding evict
  evict-Gives t =
      bind-Gives tt _ _ _ t
        (Outcome-wrapping Never _ _ _ t (run_pre_drain-Gives env w.willing s.plugins name t))
        (λ t1. bind-Gives tt _ _ _ t1 (lift-Gives tt env.new_client_set t1 w.client_set) (λ t2.
          bind-Gives tt _ _ _ t2 (Outcome-wrapping Never _ _ _ t2 (cleanup_node-Gives t2)) (λ t3.
            bind-Gives (ok tt) _ _ _ t3 (attempt-Gives tt _ t3 (call-Gives _ _ t3 tt (w.drains t3)))
              (λ t4. Outcome-pure Never _ tt t4 refl))))

  mark_drained-IsDrained :
      (st : Session)
      → st.node.state ≡ NodeState.drained
      → Outcome Never (λ _. IsDrained) (mark_drained env s st)
  unfolding mark_drained look
  mark_drained-IsDrained st e =
      Outcome-bind Never (λ _. IsDrained) _ _ _ st
        (patch_status-Surely IsDrained _ _ st (λ t. (e, refl, refl)))
        (λ _ st1 h1. io-Only IsDrained tt _ st1 (λ t. h1) (entry-Gives _ st1.trace))

  drain_there-IsDrained :
      (c : NodeCurrentState) (st : Session)
      → IsAt name last c st
      → Outcome Never (λ r st'. (r ≡ none) × IsDrained st') (drain_there env s name false st)
  unfolding drain_there
  drain_there-IsDrained c st h =
      Outcome-bind Never (λ _. IsAt name last c) _ _ _ st
        (io-Only (IsAt name last c) tt _ st (λ t. traced-IsAt c st t h) (evict-Gives st.trace))
        (λ _ st1 h1.
          Outcome-bind Never (λ _. IsDrained) _ _ _ st1 (mark_drained-IsDrained st1 h1.wanted)
            (λ _ st2 h2. Outcome-pure Never _ none st2 (refl, h2)))

  drain_cordoned-IsDrained :
      (c : NodeCurrentState) (st : Session)
      → IsAt name last c st
      → Outcome Never (λ r st'. (r ≡ none) × IsDrained st') (drain_cordoned env s st)
  unfolding drain_cordoned
  drain_cordoned-IsDrained c st h =
      Outcome-bind Never (λ _. IsAt name last c) _ _ _ st (set_unschedulable-IsAt c st h)
        (λ _ st1 h1.
          Outcome-bind Never (λ n st'. (n ≡ name) × IsAt name last c st')
            (λ r st'. (r ≡ none) × IsDrained st') _ _ st1
            (Outcome-gets Never (λ n st'. (n ≡ name) × IsAt name last c st') _ st1 (h1.called, h1))
            (λ n st2 h2. rw (h2.0, w.elsewhere) (drain_there-IsDrained c st2 h2.1)))

  -- `drain`, from the state Next on.
  pub drain_node-IsDrained :
      (st : Session)
      → IsAt name last NodeCurrentState.next st
      → Outcome Never (λ r st'. (r ≡ none) × IsDrained st') (drain_node env s st)
  unfolding drain_node look drain
  drain_node-IsDrained st h =
      if_false
        (λ (m : M (Option CtrlResult)). Outcome Never (λ r st'. (r ≡ none) × IsDrained st') (m st))
        (not (drain st.node.state) || st.node.status.drained) _ _ (rw (h.wanted, h.undrained) refl)
        (Outcome-bind Never (λ _. IsAt name last NodeCurrentState.draining) _ _ _ st
          (if_true
            (λ (m : M (Unit {0})).
              Outcome Never (λ _. IsAt name last NodeCurrentState.draining) (m st))
            (same_current_state st.node.status.current_state NodeCurrentState.next) _ _
            (rw h.observed refl) (start_draining-IsAt st h))
          (λ _ st1 h1. drain_cordoned-IsDrained NodeCurrentState.draining st1 h1))
