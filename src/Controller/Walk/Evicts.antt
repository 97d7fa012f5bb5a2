-- ===== src/Controller/Walk/Evicts.antt =====
-- The eviction of a node's pods: what a property of the trace needs for it to be kept.
use node_drain.Base.{String, refl, ok, err, ◌∷◌, Result}
use node_drain.Base.Keeps.{
  Keeps, Keeps-bind, Keeps-pure, Keeps-fail, Keeps-lift, Keeps-attempt, Keeps-wrapping,
}
use node_drain.Cluster.{Trace, Env, drained_node, call}
use node_drain.Cluster.Quiet.{Grows, IsAside, Keeps-Grows, Keeps-call}
use node_drain.Cluster.Evidence.{Lasts}
use node_drain.Settings.{Settings}
use node_drain.DrainManager.Quiet.{run_pre_drain-IsQuiet}
use node_drain.RebootManager.Quiet.{cleanup_node-IsQuiet}
use node_drain.Controller.Drain.{evict, reschedule_controller}

module _ (env : Env) (s : Settings) (name : String) (P : Trace → Type 0) (asides : Lasts P)
    (drains : (r : Result (Unit {0})) (t : Trace) → P t → P (drained_node name r ∷ t)) where
  drain_call-Keeps : Keeps P (call (λ t. env.run_node_drain t name) (drained_node name))
  unfolding call
  drain_call-Keeps = record { at = λ t h. drains _ t h }

  pub evict-Keeps : Keeps P (evict env s name)
  unfolding evict
  evict-Keeps =
      Keeps-bind _ _
        (Keeps-wrapping _ _ (Keeps-Grows asides (λ t. run_pre_drain-IsQuiet env s.plugins name)))
        (λ _. Keeps-bind _ _ (Keeps-lift _) (λ _.
          Keeps-bind _ _
            (Keeps-wrapping _ _ (Keeps-Grows asides (λ t. cleanup_node-IsQuiet env s name)))
            (λ _.
              Keeps-bind _ _ (Keeps-attempt _ drain_call-Keeps)
                (elim [ ok _ ↦ Keeps-pure _ | err e ↦ Keeps-fail _ ]))))

module _ (env : Env) (s : Settings) where
  pub reschedule_controller-IsQuiet :
      {t : Trace} → Keeps (Grows IsAside t) (reschedule_controller env s)
  unfolding reschedule_controller
  reschedule_controller-IsQuiet =
      Keeps-bind _ _ (Keeps-wrapping _ _ (Keeps-lift _)) (λ _.
        Keeps-bind _ _ (Keeps-wrapping _ _ (Keeps-lift _)) (λ pod. Keeps-call _ _ (λ r. refl)))
