-- ===== src/Controller/Guards/Starting.antt =====
-- node_controller.go, the checks of `drain`: what they leave on the trace.
use node_drain.Base.{
  String, Bool, true, false, refl, ◌≡◌, List, All, ok, err, ◌∷◌, Result, wrapping, look,
}
use node_drain.Api.{Node, NodeCurrentState, same_current_state}
use node_drain.Cluster.{Trace, Env, Io, asked_drain_ok, patched_status}
use node_drain.Cluster.Hoare.{Hoare, Leaves, Hoare-wrapping, Hoare-frame}
use node_drain.Cluster.Quiet.{Keeps-Grows}
use node_drain.Base.Keeps.{Keeps-wrapping}
use node_drain.Settings.{Settings}
use node_drain.DrainManager.Agreement.{Agreed, Healthy, Healthy-last, is_drain_ok-Hoare}
use node_drain.DrainManager.Agreement.{is_healthy-Hoare}
use node_drain.DrainManager.{is_healthy, is_drain_ok}
use node_drain.DrainManager.Quiet.{is_drain_ok-IsQuiet}
use node_drain.Controller.Objects.{Session, io, set_current_state, patch_status, patch_reply}
use node_drain.Controller.Drain.{start_draining}
use node_drain.Controller.Triple.{
  Triple, Post, Triple-bind, Triple-fail, Triple-weaken, Triple-conclude,
}

abbrev Anything : Trace → Type 0
Anything t = Unit {0}

io-Leaves :
    {A : Type 0} (Q : A → Trace → Type 0) (n : Node) (r : Result A) (st : Session) (t : Trace)
    → st.node ≡ n
    → Leaves Anything Q (r, t)
    → Post Anything (λ a st'. (st'.node ≡ n) × Q a st'.trace) (r, record st { trace = t })
io-Leaves Q n (ok a) st t e h = (tt, (e, h.1))
io-Leaves Q n (err x) st t e h = tt

-- What calls leave on the trace, beside the session's object, which they do not touch.
pub Triple-hoare :
    {A : Type 0} {P : Trace → Type 0} {Q : A → Trace → Type 0} (n : Node) (m : Io A)
    → Hoare Anything P m Q
    → Triple Anything
        (λ st. (st.node ≡ n) × P st.trace)
        (io m)
        (λ a st. (st.node ≡ n) × Q a st.trace)
unfolding io
Triple-hoare n m h = record {
  at = λ st i p. io-Leaves _ n (m st.trace).0 st (m st.trace).1 p.0 (h.at st.trace tt p.1);
}

-- Both checks succeeded lately for the node.
abbrev pub Checked : List String → String → Trace → Type 0
Checked plugins node t =
    All (λ id. Agreed (λ i. asked_drain_ok i node) id t) plugins × Healthy plugins t

-- The newest call is a patch of the status that moves a node from Next to Draining, and both checks
-- succeeded before it.
abbrev pub JustStarted : List String → Node → Trace → Type 0
JustStarted plugins n t =
    (m : Node) × (r : Result Node) × (u : Trace) × (t ≡ patched_status n m r ∷ u)
    × (m.status.current_state ≡ NodeCurrentState.draining)
    × Checked plugins n.name u

module _ (env : Env) (s : Settings) where
  reply-Post :
      (text : String) (n m : Node) (r : Result Node) (st : Session)
      → m.status.current_state ≡ NodeCurrentState.draining
      → Checked s.plugins n.name st.trace
      → Post Anything
          (λ _ st'. JustStarted s.plugins n st'.trace)
          (patch_reply text m (patched_status n m r) r st)
  unfolding patch_reply
  reply-Post text n m (ok a) st d c = (tt, (m, ok a, st.trace, refl, d, c))
  reply-Post text n m (err e) st d c = tt

  patch-Triple :
      (n : Node)
      → same_current_state n.status.current_state NodeCurrentState.draining ≡ false
      → Triple Anything
          (λ st. (st.node ≡ n) × Checked s.plugins n.name st.trace)
          (set_current_state env NodeCurrentState.draining)
          (λ _ st. JustStarted s.plugins n st.trace)
  unfolding set_current_state patch_status
  patch-Triple n d = record {
    at = λ st i p. rw (p.0, d) (reply-Post _ n _ _ (record st { node = n }) refl p.1);
  }

  -- What holds after each check that returned `b`.
  abbrev AfterHealthy : Node → Bool → Session → Type 0
  AfterHealthy n b st = (st.node ≡ n) × (b ≡ true → Healthy s.plugins st.trace)

  pub healthy-Triple :
      (n : Node)
      → Triple Anything
          (λ st. (st.node ≡ n) × Unit {0})
          (io
            (wrapping "failed to check if cluster is healthy: " (is_healthy env s.plugins n.name)))
          (AfterHealthy n)
  healthy-Triple n = Triple-hoare n _ (Hoare-wrapping _ _ (is_healthy-Hoare env s.plugins n.name))

  pub drain_ok-Triple :
      (n : Node)
      → Triple Anything
          (λ st. (st.node ≡ n) × (Unit {0} × Healthy s.plugins st.trace))
          (io (
            wrapping "failed to check if node is ok to drain: " (is_drain_ok env s.plugins n.name)))
          (λ b st. (st.node ≡ n) × (b ≡ true → Checked s.plugins n.name st.trace))
  drain_ok-Triple n =
      Triple-conclude _ (λ b st q. (q.0, λ e. (q.1.0 e, q.1.1)))
        (Triple-hoare n _ (
          Hoare-frame _
            (Keeps-wrapping _ _ (
              Keeps-Grows (Healthy-last env s.plugins n.name)
                (λ t. is_drain_ok-IsQuiet env s.plugins n.name)))
            (Hoare-wrapping _ _ (is_drain_ok-Hoare env s.plugins n.name))))

  -- If the checks before a drain of a node in another state than Draining return no error, the
  -- newest call is the patch of its status to Draining, and since the last change of an object the
  -- nodes of the cluster were listed and none was found that is not ready, and each plugin that
  -- supports the cluster said that the cluster is healthy and that the node is ok to drain.
  pub start_draining-JustStarted :
      (st : Session)
      → same_current_state st.node.status.current_state NodeCurrentState.draining ≡ false
      → Post Anything (λ _ st'. JustStarted s.plugins st.node st'.trace) (start_draining env s st)
  unfolding start_draining look
  start_draining-JustStarted st d =
      (Triple-bind _ _ _ (healthy-Triple st.node) (elim [
        | false ↦ Triple-fail _
        | true ↦
            Triple-weaken _ (λ st' q. (q.0, (tt, q.1 refl)))
              (Triple-bind _ _ _ (drain_ok-Triple st.node) (elim [
                | false ↦ Triple-fail _
                | true ↦ Triple-weaken _ (λ st' q. (q.0, q.1 refl)) (patch-Triple st.node d)
              ]))
      ])).at
        st tt (refl, tt)
