-- ===== src/Controller/Required.antt =====
-- node_controller.go, the work on a node that is to be rebooted if this is required: where the last
-- check says that it is not.
use node_drain.Base.{
  String, ap, Bool, true, false, ◌&&◌, ◌||◌, ◌*◌, ◌≡◌, refl, ◌∷◌, Option, some, none, Result, ok,
  err, if_true, if_false, look, ◌>>=◌,
}
use node_drain.Base.Outcomes.{Outcome, Outcome-bind, Outcome-pure}
use node_drain.Api.{Node, NodeState, NodeCurrentState, same_state, same_current_state}
use node_drain.Cluster.{Env, patched_node}
use node_drain.Settings.{Settings}
use node_drain.Controller.Objects.{Session, M, CtrlResult, done, minute, set_state, patch_reply}
use node_drain.Controller.Early.{return_or-Early}
use node_drain.Controller.Work.{is_stale, still_required, recheck_reboot, work}

-- What the last check found; no check counts as one that found nothing.
abbrev pub was_required : Option Bool → Bool
was_required (some b) = b
was_required none = false

module _ (env : Env) (s : Settings) where
  -- The one call was the patch that makes the node active.
  abbrev pub IsCalledOff : Session → Session → Type 0
  IsCalledOff st st' =
      (r : Result Node) × (st'.trace
        ≡ patched_node st.node (record st.node { state = NodeState.active }) r ∷ st.trace)

  replied :
      (st : Session) (text : String) (r : Result Node)
      → (let m : Node = record st.node { state = NodeState.active } in
          Outcome
            (IsCalledOff st)
            (λ _. IsCalledOff st)
            (patch_reply text m (patched_node st.node m r) r st))
  unfolding patch_reply
  replied st text (ok a) = (ok a, refl)
  replied st text (err e) = (err e, refl)

  set_state-IsCalledOff :
      (st : Session)
      → st.node.state ≡ NodeState.reboot_if_required
      → Outcome (IsCalledOff st) (λ _. IsCalledOff st) (set_state env NodeState.active st)
  unfolding set_state patch_reply
  set_state-IsCalledOff st e =
      if_false (Outcome (IsCalledOff st) (λ _. IsCalledOff st))
        (same_state st.node.state NodeState.active) _ _ (rw e refl)
        (replied st _
          (env.patch_node st.trace st.node (record st.node { state = NodeState.active })))

  still_required-fresh :
      (st : Session)
      → is_stale st.node.status.reboot_required_last_checked (env.now st.trace) (2 * minute) ≡ false
      → was_required st.node.status.reboot_required ≡ false
      → still_required env s st ≡ (ok false, st)
  unfolding still_required look ◌>>=◌
  still_required-fresh st f n =
      if_false (λ (m : M Bool). m st ≡ (ok false, st))
        (is_stale st.node.status.reboot_required_last_checked (env.now st.trace) (2 * minute)) _ _ f
        (ap (λ b. (ok b, st)) n)

  -- The rest of the recheck, for what `still_required` gave.
  recheck-IsCalledOff :
      (st : Session)
      → st.node.state ≡ NodeState.reboot_if_required
      → same_current_state st.node.status.current_state NodeCurrentState.next
          || same_current_state st.node.status.current_state NodeCurrentState.drained
        ≡ true
      → is_stale st.node.status.reboot_required_last_checked (env.now st.trace) (2 * minute) ≡ false
      → was_required st.node.status.reboot_required ≡ false
      → Outcome
          (IsCalledOff st)
          (λ r st'. (r ≡ some done) × IsCalledOff st st')
          (recheck_reboot env s st)
  unfolding recheck_reboot look
  recheck-IsCalledOff st e c f n =
      let E = IsCalledOff st in
      let Q : Option CtrlResult → Session → Type 0 = λ r st'. (r ≡ some done) × E st' in
      if_true (λ (m : M (Option CtrlResult)). Outcome E Q (m st))
        (same_state st.node.state NodeState.reboot_if_required
          && (same_current_state st.node.status.current_state NodeCurrentState.next
              || same_current_state st.node.status.current_state NodeCurrentState.drained))
        _ _ (rw (e, c) refl)
        (Outcome-bind E (λ b st'. (b ≡ false) × (st' ≡ st)) Q (still_required env s) _ st
          (rw (still_required-fresh st f n) (refl, refl))
          (λ b st1 h.
            rw (h.0, h.1)
              (Outcome-bind E (λ _. E) Q _ _ st (set_state-IsCalledOff st e)
                (λ _ st2 h2. Outcome-pure E Q (some done) st2 (refl, h2)))))

  -- A node that is to be rebooted if this is required, that has its turn or is drained, and whose
  -- last check is at most two minutes old and did not find that a reboot is required: on every way
  -- out of the work, the one call was the patch that makes the node active. It is neither drained
  -- nor rebooted, and where the patch succeeds no other run is asked for.
  pub work-IsCalledOff :
      (st : Session)
      → st.node.state ≡ NodeState.reboot_if_required
      → same_current_state st.node.status.current_state NodeCurrentState.next
          || same_current_state st.node.status.current_state NodeCurrentState.drained
        ≡ true
      → is_stale st.node.status.reboot_required_last_checked (env.now st.trace) (2 * minute) ≡ false
      → was_required st.node.status.reboot_required ≡ false
      → Outcome (IsCalledOff st) (λ r st'. (r ≡ done) × IsCalledOff st st') (work env s st)
  unfolding work
  work-IsCalledOff st e c f n =
      return_or-Early (IsCalledOff st) (IsCalledOff st) done (recheck_reboot env s) _ st
        (recheck-IsCalledOff st e c f n)
