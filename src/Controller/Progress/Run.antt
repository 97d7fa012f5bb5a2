-- ===== src/Controller/Progress/Run.antt =====
-- Whole runs towards the drain of a node: the turn, and the drain.
use node_drain.Base.{
  ℕ, String, Bool, true, false, not, ◌&&◌, ◌≡◌, refl, Option, none, some, Result, ok, if_true,
  if_false, look, pure, ◌>>=◌,
}
use node_drain.Base.Outcomes.{Outcome, Outcome-bind, Outcome-pure}
use node_drain.Api.{NodeState, NodeCurrentState, same_current_state, work_state}
use node_drain.Cluster.{Env}
use node_drain.Settings.{Settings}
use node_drain.DrainManager.Willing.{Never}
use node_drain.Controller.{refresh_drained, enqueue, by_state, progress, reconcile_node}
use node_drain.Controller.Objects.{Session, M, CtrlResult, is_zero, return_or, after, second}
use node_drain.Controller.Undrain.{undrain_due, undrain_as_due, undrain}
use node_drain.Controller.Work.{check_reboot_required}
use node_drain.Controller.Early.{return_or-Early}
use node_drain.Controller.Progress.{IsServing, IsAt, IsFresh}
use node_drain.Controller.Progress.Steps.{set_current_state-IsAt}

going-Surely :
    {A : Type 0} (P : Session → Type 0) (Q : A → Session → Type 0) (k : M A) (r : Option A)
    (st : Session)
    → (r ≡ none) × P st
    → ((st' : Session) → P st' → Outcome Never Q (k st'))
    → (let rest : M A = elim r [ some a ↦ pure a | none ↦ k ] in Outcome Never Q (rest st))
going-Surely P Q k none st h f = f st h.1
going-Surely P Q k (some a) st h f = let e = h.0 in cc

-- A part that goes on, and the rest.
pub return_or-Surely :
    {A : Type 0} (P : Session → Type 0) (Q : A → Session → Type 0) (m : M (Option A)) (k : M A)
    (st : Session)
    → Outcome Never (λ r st'. (r ≡ none) × P st') (m st)
    → ((st' : Session) → P st' → Outcome Never Q (k st'))
    → Outcome Never Q (return_or m k st)
unfolding return_or
return_or-Surely P Q m k st h f =
    Outcome-bind Never (λ r st'. (r ≡ none) × P st') Q m _ st h
      (λ r st1 h1. going-Surely P Q k r st1 h1 f)

and_false : (b : Bool) → b && false ≡ false
and_false true = refl
and_false false = refl

module _ (env : Env) (s : Settings) (name : String) (w : IsServing env s name)
    (last : Option ℕ) where
  -- A part that goes on and leaves everything as it is.
  abbrev pub Stays : Session → Option CtrlResult → Session → Type 0
  Stays st r st' = (r ≡ none) × (st' ≡ st)

  as_due-Stays :
      (d : Result Bool) (st : Session)
      → d ≡ ok false
      → Outcome Never (Stays st) (undrain_as_due env s d st)
  unfolding undrain_as_due ◌>>=◌
  as_due-Stays d st e = rw e (refl, refl)

  undrain-Stays :
      (c : NodeCurrentState) (st : Session)
      → same_current_state c NodeCurrentState.undraining ≡ false
      → undrain_due NodeState.drained c ≡ ok false
      → IsAt name last c st
      → Outcome Never (Stays st) (undrain env s st)
  unfolding undrain look
  undrain-Stays c st b e h =
      if_false (λ (m : M (Option CtrlResult)). Outcome Never (Stays st) (m st))
        (same_current_state st.node.status.current_state NodeCurrentState.undraining) _ _
        (rw h.observed b) (as_due-Stays _ st (rw (h.wanted, h.observed) e))

  refresh_drained-Stays :
      (c : NodeCurrentState) (st : Session)
      → IsAt name last c st
      → Outcome Never (λ _ st'. st' ≡ st) (refresh_drained env s st)
  unfolding refresh_drained look ◌>>=◌
  refresh_drained-Stays c st h =
      if_false (λ (m : M (Unit {0})). Outcome Never (λ _ st'. st' ≡ st) (m st))
        (not st.kube_node.unschedulable && st.node.status.drained) _ _
        (rw h.undrained (and_false (not st.kube_node.unschedulable))) refl

  enqueue-Stays :
      (c : NodeCurrentState) (st : Session)
      → not (work_state c) && not (same_current_state c NodeCurrentState.queued) ≡ false
      → IsAt name last c st
      → Outcome Never (Stays st) (enqueue env s st)
  unfolding enqueue look ◌>>=◌
  enqueue-Stays c st b h =
      if_false (λ (m : M (Option CtrlResult)). Outcome Never (Stays st) (m st))
        (not (work_state st.node.status.current_state)
          && not (same_current_state st.node.status.current_state NodeCurrentState.queued))
        _ _ (rw h.observed b) (refl, refl)

  by_state-Stays :
      (c : NodeCurrentState) (state : NodeState) (st : Session)
      → state ≡ NodeState.drained
      → not (work_state c) && not (same_current_state c NodeCurrentState.queued) ≡ false
      → IsAt name last c st
      → Outcome Never (Stays st) (by_state env s state st)
  unfolding by_state
  by_state-Stays c state st e b h = rw e (enqueue-Stays c st b h)

  -- A run gets to the switch on the desired state with the objects as they were.
  pub reconcile_node-Through :
      (c : NodeCurrentState) (Q : CtrlResult → Session → Type 0) (st : Session)
      → same_current_state c NodeCurrentState.undraining ≡ false
      → undrain_due NodeState.drained c ≡ ok false
      → IsAt name last c st
      → Outcome Never (λ _ st'. st' ≡ st) (check_reboot_required env s st)
      → Outcome Never Q (return_or (look λ st'. by_state env s st'.node.state) (progress env s) st)
      → Outcome Never Q (reconcile_node env s st)
  unfolding reconcile_node look
  reconcile_node-Through c Q st b e h k p =
      if_false (λ (m : M CtrlResult). Outcome Never Q (m st))
        (not (is_zero st.node.deletion_timestamp)) _ _ (rw h.alive refl)
        (return_or-Surely (λ st'. st' ≡ st) Q _ _ st (undrain-Stays c st b e h)
          (λ st1 e1. rw e1 (
            Outcome-bind Never (λ _ st'. st' ≡ st) Q _ _ st (refresh_drained-Stays c st h)
              (λ _ st2 e2.
                rw e2 (Outcome-bind Never (λ _ st'. st' ≡ st) Q _ _ st k (λ _ st3 e3. rw e3 p))))))

  -- A run gets to its last part with the objects as they were.
  pub reconcile_node-Surely :
      (c : NodeCurrentState) (Q : CtrlResult → Session → Type 0) (st : Session)
      → same_current_state c NodeCurrentState.undraining ≡ false
      → undrain_due NodeState.drained c ≡ ok false
      → not (work_state c) && not (same_current_state c NodeCurrentState.queued) ≡ false
      → IsAt name last c st
      → Outcome Never (λ _ st'. st' ≡ st) (check_reboot_required env s st)
      → Outcome Never Q (progress env s st)
      → Outcome Never Q (reconcile_node env s st)
  unfolding look
  reconcile_node-Surely c Q st b e q h k p = reconcile_node-Through c Q st b e h k (
      return_or-Surely (λ st'. st' ≡ st) Q _ _ st (by_state-Stays c _ st h.wanted q h)
        (λ st4 e4. rw e4 p))

  -- A node that neither works nor waits is put in the queue.
  enqueue-Queued :
      (c : NodeCurrentState) (st : Session)
      → not (work_state c) && not (same_current_state c NodeCurrentState.queued) ≡ true
      → same_current_state c NodeCurrentState.queued ≡ false
      → IsAt name last c st
      → Outcome Never
          (λ r st'. (r ≡ some (after second)) × IsAt name last NodeCurrentState.queued st')
          (enqueue env s st)
  unfolding enqueue look
  enqueue-Queued c st b d h =
      let Q : Option CtrlResult → Session → Type 0 =
        λ r st'. (r ≡ some (after second)) × IsAt name last NodeCurrentState.queued st' in
      if_true (λ (m : M (Option CtrlResult)). Outcome Never Q (m st))
        (not (work_state st.node.status.current_state)
          && not (same_current_state st.node.status.current_state NodeCurrentState.queued))
        _ _ (rw h.observed b)
        (Outcome-bind Never (λ _. IsAt name last NodeCurrentState.queued) Q _ _ st
          (set_current_state-IsAt env s name w last c NodeCurrentState.queued st h d)
          (λ _ st1 h1. Outcome-pure Never Q _ st1 (refl, h1)))

  by_state-Queued :
      (c : NodeCurrentState) (state : NodeState) (st : Session)
      → state ≡ NodeState.drained
      → not (work_state c) && not (same_current_state c NodeCurrentState.queued) ≡ true
      → same_current_state c NodeCurrentState.queued ≡ false
      → IsAt name last c st
      → Outcome Never
          (λ r st'. (r ≡ some (after second)) × IsAt name last NodeCurrentState.queued st')
          (by_state env s state st)
  unfolding by_state
  by_state-Queued c state st e b d h = rw e (enqueue-Queued c st b d h)

  pub reconcile_node-Queued :
      (c : NodeCurrentState) (st : Session)
      → same_current_state c NodeCurrentState.undraining ≡ false
      → undrain_due NodeState.drained c ≡ ok false
      → not (work_state c) && not (same_current_state c NodeCurrentState.queued) ≡ true
      → same_current_state c NodeCurrentState.queued ≡ false
      → IsAt name last c st
      → Outcome Never (λ _ st'. st' ≡ st) (check_reboot_required env s st)
      → Outcome Never
          (λ r st'. (r ≡ after second) × IsAt name last NodeCurrentState.queued st')
          (reconcile_node env s st)
  unfolding look
  reconcile_node-Queued c st b e q d h k = reconcile_node-Through c _ st b e h k (
      return_or-Early Never (IsAt name last NodeCurrentState.queued) (after second) _ _ st
        (by_state-Queued c _ st h.wanted q d h))

  pub idle_check :
      (c : NodeCurrentState) (st : Session)
      → work_state c ≡ false
      → IsAt name last c st
      → IsFresh env s st
      → Outcome Never (λ _ st'. st' ≡ st) (check_reboot_required env s st)
  unfolding check_reboot_required look ◌>>=◌
  idle_check c st i h f =
      let P = λ (m : M (Unit {0})). Outcome Never (λ _ st'. st' ≡ st) (m st) in
      if_false P (work_state st.node.status.current_state) _ _ (rw h.observed i)
        (if_false P _ _ _ f refl)

  pub next_check :
      (st : Session)
      → IsAt name last NodeCurrentState.next st
      → Outcome Never (λ _ st'. st' ≡ st) (check_reboot_required env s st)
  unfolding check_reboot_required look ◌>>=◌ work_state
  next_check st h =
      if_true (λ (m : M (Unit {0})). Outcome Never (λ _ st'. st' ≡ st) (m st))
        (work_state st.node.status.current_state) _ _ (rw h.observed refl) refl
