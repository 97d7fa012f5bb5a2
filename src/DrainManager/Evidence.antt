-- ===== src/DrainManager/Evidence.antt =====
-- drain-manager.go: RunPreDrain and RunPostDrain, and the plugins' answers on the trace.
use node_drain.Base.{
  String, Bool, true, false, ◌≡◌, refl, ◌⊎◌, inl, inr, List, [], ◌∷◌, All, ok, err,
}
use node_drain.Base.{Result}
use node_drain.Cluster.{Entry, Trace, Env, call, asked_supported}
use node_drain.Cluster.Quiet.{IsAside}
use node_drain.Cluster.Hoare.{
  Hoare, Hoare-pure, Hoare-fail, Hoare-bind, Hoare-attempt, Hoare-call, Hoare-entry, Hoare-conclude,
}
use node_drain.Cluster.Evidence.{Lately, Lasts}
use node_drain.DrainManager.{is_supported, run_hooks}

-- The plugin said lately that it does not support the cluster, or its hook ran with success.
abbrev pub Cleared : (String → Result (Unit {0}) → Entry) → String → Trace → Type 0
Cleared ran id = Lately λ e. (e ≡ asked_supported id (ok false)) ⊎ (e ≡ ran id (ok tt))

module _ {I : Trace → Type 0} (lasting : Lasts I) (env : Env)
    (ran : String → Result (Unit {0}) → Entry)
    (quiet : (id : String) (r : Result (Unit {0})) → IsAside (ran id r))
    (reply : String → Trace → Result (Unit {0})) (failed reason node : String) where
  abbrev Supports : (Trace → Type 0) → String → Bool → Trace → Type 0
  Supports R id true t = R t
  Supports R id false t = R t × Cleared ran id t

  asked :
      {R : Trace → Type 0}
      → Lasts R
      → (id : String) (b : Bool) (t : Trace) → R t
      → Supports R id b (asked_supported id (ok b) ∷ t)
  asked k id true t h = k _ t refl h
  asked k id false t h = (k _ t refl h, inl (inl refl))

  is_supported-Hoare :
      {R : Trace → Type 0}
      → Lasts R
      → (id : String) → Hoare I R (is_supported env id) (Supports R id)
  unfolding is_supported
  is_supported-Hoare k id =
      Hoare-call _ _ (λ r t i p. lasting _ t refl i) (λ b t i p. asked k id b t p)

  both : {R : Trace → Type 0} → Lasts R → (id : String) → Lasts (λ t. R t × Cleared ran id t)
  both k id e t q h = (k e t q h.0, inr (q, h.1))

  hook-Hoare :
      {R : Trace → Type 0}
      → Lasts R
      → (id : String) → Hoare I R (call (reply id) (ran id)) (λ _ t. R t × Cleared ran id t)
  hook-Hoare k id =
      Hoare-call _ _ (λ r t i p. lasting _ t (quiet id r) i)
        (λ a t i p. (k _ t (quiet id _) p, inl (inr refl)))

  -- Where the loop ends without an error, every plugin is cleared.
  pub run_hooks-Hoare :
      (ids : List String) {R : Trace → Type 0}
      → Lasts R
      → Hoare I R
          (run_hooks env (λ id. call (reply id) (ran id)) failed reason node ids)
          (λ _ t. R t × All (λ id. Cleared ran id t) ids)
  unfolding run_hooks
  run_hooks-Hoare [] k = Hoare-pure _ (λ t p. (p, tt))
  run_hooks-Hoare (id ∷ ids) {R} k =
      Hoare-bind (Supports R id) _ _ (is_supported-Hoare k id) (elim [
        | false ↦ Hoare-conclude (λ a t q. (q.0.0, (q.0.1, q.1))) (run_hooks-Hoare ids (both k id))
        | true ↦ Hoare-bind _ _ _ (Hoare-attempt _ (hook-Hoare k id)) (elim [
          | ok _ ↦ Hoare-conclude (λ a t q. (q.0.0, (q.0.1, q.1))) (run_hooks-Hoare ids (both k id))
          | err e ↦
              Hoare-bind (λ _ _. Unit {0}) _ _ (Hoare-entry _ (λ t i p. (lasting _ t refl i, tt)))
                (λ _. Hoare-fail _)
        ])
      ])
