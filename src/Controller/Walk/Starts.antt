-- ===== src/Controller/Walk/Starts.antt =====
-- The checks before a drain, where the run's node keeps what is said of it: the patch of the status
-- is made under what they found.
use node_drain.Base.{◌≡◌, refl, true, false}
use node_drain.Base.Keeps.{Keeps, Keeps-wrapping}
use node_drain.Api.{Node, NodeCurrentState}
use node_drain.Cluster.{Trace, Env, Io}
use node_drain.Cluster.Quiet.{Keeps-Grows, Grows, IsAside}
use node_drain.Cluster.Evidence.{Lasts}
use node_drain.Settings.{Settings}
use node_drain.DrainManager.Agreement.{Healthy}
use node_drain.DrainManager.Quiet.{is_healthy-IsQuiet, is_drain_ok-IsQuiet}
use node_drain.Controller.Objects.{io, set_current_state}
use node_drain.Controller.Drain.{start_draining}
use node_drain.Controller.Triple.{
  Triple, Triple-fail, Triple-bind, Triple-look, Triple-weaken, Triple-both,
}
use node_drain.Controller.Guards.Starting.{Checked, healthy-Triple, drain_ok-Triple}
use node_drain.Controller.Walk.{OnSession}
use node_drain.Controller.Walk.Rules.{Triple-calls}

module _ (env : Env) (s : Settings) (I : Trace → Type 0) (J : Node → Trace → Type 0)
    (asides : Lasts I) (node_asides : (n : Node) → Lasts (J n)) where
  quiet :
      {A : Type 0} (m : Io A)
      → ((t : Trace) → Keeps (Grows IsAside t) m)
      → Triple I (OnSession J) (io m) (λ _. OnSession J)
  quiet m q = Triple-calls m (Keeps-Grows asides q) (λ n. Keeps-Grows (node_asides n) q)

  pub start_draining-Triple :
      Triple I
        (λ st. OnSession J st × Checked s.plugins st.node.name st.trace)
        (set_current_state env NodeCurrentState.draining)
        (λ _. OnSession J)
      → Triple I (OnSession J) (start_draining env s) (λ _. OnSession J)
  unfolding start_draining
  start_draining-Triple h = Triple-look _ λ st j.
      let n : Node = st.node in
      Triple-bind
        (λ b st'. OnSession J st' × ((st'.node ≡ n) × (b ≡ true → Healthy s.plugins st'.trace))) _ _
        (Triple-weaken _ (λ st' e. rw e (j, (refl, tt)))
          (Triple-both _
            (quiet _ (λ t. Keeps-wrapping _ _ (is_healthy-IsQuiet env s.plugins n.name)))
            (healthy-Triple env s n)))
        (elim [
          | false ↦ Triple-fail _
          | true ↦
              Triple-bind
                (λ b st'.
                  OnSession J st'
                  × ((st'.node ≡ n) × (b ≡ true → Checked s.plugins n.name st'.trace)))
                _ _
                (Triple-weaken _ (λ st' q. (q.0, (q.1.0, (tt, q.1.1 refl))))
                  (Triple-both _
                    (quiet _ (λ t. Keeps-wrapping _ _ (is_drain_ok-IsQuiet env s.plugins n.name)))
                    (drain_ok-Triple env s n)))
                (elim [
                  | false ↦ Triple-fail _
                  | true ↦ Triple-weaken _ (λ st' q. (q.0, rw q.1.0 (q.1.1 refl))) h
                ])
        ])
