-- ===== src/DrainManager/Agreement.antt =====
-- drain-manager.go: IsHealthy and IsDrainOk, and the plugins' answers on the trace.
use node_drain.Base.{
  String, Bool, true, false, ◌≡◌, refl, ◌⊎◌, inl, inr, List, [], ◌∷◌, All, ok, err,
}
use node_drain.Base.{ap, ◌∙◌, Result, Error, Option, none, some}
use node_drain.Cluster.{Entry, Trace, Env, KubeNode, call, asked_supported}
use node_drain.Cluster.{asked_drain_ok, asked_healthy, listed_kube_nodes, plugin_event}
use node_drain.Cluster.Quiet.{IsAside}
use node_drain.Cluster.Hoare.{
  Hoare, Hoare-pure, Hoare-fail, Hoare-bind, Hoare-attempt, Hoare-call, Hoare-entry, Hoare-conclude,
  Hoare-lift, Hoare-weaken,
}
use node_drain.Cluster.Evidence.{Lately, Lasts, Lately-Lasts, All-Lasts}
use node_drain.DrainManager.{
  Round, start_round, verdict, judge, add_error, add_status, join_errors, check_nodes, is_supported,
  ask_plugin, ask_plugins, is_cluster_nodes_healthy, is_drain_ok, is_healthy,
}

-- The plugin said lately that it does not support the cluster, or it agreed.
abbrev pub Agreed : (String → Result Bool → Entry) → String → Trace → Type 0
Agreed asked id = Lately λ e. (e ≡ asked_supported id (ok false)) ⊎ (e ≡ asked id (ok true))

-- The nodes were listed lately, and none was found that is not ready.
abbrev pub ClusterReady : Trace → Type 0
ClusterReady =
    Lately
      λ e. (ns : List KubeNode) × (e ≡ listed_kube_nodes (ok ns)) × (check_nodes true ns ≡ true)

-- The cluster was found healthy by its nodes and by the plugins.
abbrev pub Healthy : List String → Trace → Type 0
Healthy plugins t = ClusterReady t × All (λ id. Agreed asked_healthy id t) plugins

verdict_from :
    (o : Option Error) (b : Bool) → elim o [ none ↦ ok b | some e ↦ err e ] ≡ ok true → b ≡ true
verdict_from none b h = cc
verdict_from (some e) b h = cc

verdict_fine : (r : Round) → verdict r ≡ ok true → r.all_fine ≡ true
unfolding verdict
verdict_fine r h = verdict_from (join_errors r.errs) r.all_fine h

module _ {I : Trace → Type 0} (lasting : Lasts I) (env : Env) (asked : String → Result Bool → Entry)
    (quiet : (id : String) (r : Result Bool) → IsAside (asked id r))
    (reply : String → Trace → Result Bool) where
  -- `R` holds if the round is still fine.
  abbrev IfFine : Round → (Trace → Type 0) → Trace → Type 0
  IfFine r R t = r.all_fine ≡ true → R t

  ask_plugin-Hoare :
      (id : String) (r : Round) {R : Trace → Type 0}
      → Lasts R
      → Hoare I
          (IfFine r R)
          (ask_plugin env (λ i. call (reply i) (asked i)) id r)
          (λ r'. IfFine r' (λ t. R t × Agreed asked id t))
  unfolding ask_plugin is_supported judge add_error add_status
  ask_plugin-Hoare id r {R} k =
      Hoare-bind _ _ _
        (Hoare-attempt {Q = λ b t. IfFine r R t × (b ≡ false → Agreed asked id t)} _ (
          Hoare-call _ _ (λ a t i p. lasting (asked_supported id a) t refl i)
            (λ b t i p. (
              λ e. k (asked_supported id (ok b)) t refl (p e),
              λ e. inl (inl (ap (λ x. asked_supported id (ok x)) e)),
            ))))
        (elim [
          | err e ↦ Hoare-pure _ (λ t p e. cc)
          | ok false ↦ Hoare-pure _ (λ t p e. (p.0 e, p.1 refl))
          | ok true ↦
              Hoare-bind _ _ _
                (Hoare-attempt {Q = λ b t. IfFine r R t × (b ≡ true → Agreed asked id t)} _ (
                  Hoare-call _ _ (λ a t i p. lasting (asked id a) t (quiet id a) i)
                    (λ b t i p. (
                      λ e. k (asked id (ok b)) t (quiet id (ok b)) (p.0 e),
                      λ e. inl (inr (ap (λ x. asked id (ok x)) e)),
                    ))))
                (elim [
                  | ok true ↦ Hoare-pure _ (λ t p e. (p.0 e, p.1 refl))
                  | ok false ↦ Hoare-pure _ (λ t p e. cc)
                  | err x ↦ Hoare-pure _ (λ t p e. cc)
                ])
        ])

  both : {R : Trace → Type 0} → Lasts R → (id : String) → Lasts (λ t. R t × Agreed asked id t)
  both k id e t q h = (k e t q h.0, inr (q, h.1))

  -- Where the round is fine at its end, every plugin has agreed.
  pub ask_plugins-Hoare :
      (ids : List String) (r : Round) {R : Trace → Type 0}
      → Lasts R
      → Hoare I
          (IfFine r R)
          (ask_plugins env (λ i. call (reply i) (asked i)) ids r)
          (λ r'. IfFine r' (λ t. R t × All (λ id. Agreed asked id t) ids))
  unfolding ask_plugins
  ask_plugins-Hoare [] r k = Hoare-pure _ (λ t p e. (p e, tt))
  ask_plugins-Hoare (id ∷ ids) r {R} k = Hoare-bind _ _ _ (ask_plugin-Hoare id r k) (λ r'.
      Hoare-conclude (λ a t q e. ((q e).0.0, ((q e).0.1, (q e).1)))
        (ask_plugins-Hoare ids r' (both k id)))

module _ (env : Env) (plugins : List String) (node : String) where
  abbrev pub Anything : Trace → Type 0
  Anything t = Unit {0}

  abbrev Anything' : Unit {0} → Trace → Type 0
  Anything' a t = Unit {0}

  Agreed-last :
      (asked : String → Result Bool → Entry) → Lasts (λ t. All (λ id. Agreed asked id t) plugins)
  Agreed-last asked = All-Lasts _ (λ id. Lately-Lasts _) plugins

  -- If IsDrainOk returns true, every plugin that supports the cluster has agreed to the drain of
  -- this node during the call or since the last change of an object.
  pub is_drain_ok-Hoare :
      Hoare Anything Anything
        (is_drain_ok env plugins node)
        (λ b t. b ≡ true → All (λ id. Agreed (λ i. asked_drain_ok i node) id t) plugins)
  unfolding is_drain_ok
  is_drain_ok-Hoare =
      Hoare-bind _ _ _
        (Hoare-weaken (λ t p e. tt)
          (ask_plugins-Hoare (λ e t q h. tt) env (λ i. asked_drain_ok i node) (λ id a. refl)
            (λ i t. env.is_drain_ok t i node) plugins start_round {R = Anything} (λ e t q h. tt)))
        (λ r.
          Hoare-bind
            (λ _ t.
              r.all_fine ≡ true → All (λ id. Agreed (λ i. asked_drain_ok i node) id t) plugins)
            _ _
            (Hoare-entry _ (λ t i p. (
              tt,
              λ e. Agreed-last (λ i. asked_drain_ok i node) (plugin_event _ _ _ _) t refl (p e).1,
            )))
            (λ _. Hoare-lift _ (λ b t e p c. p (verdict_fine r (e ∙ ap ok c)))))

  pub cluster-Hoare :
      Hoare Anything Anything (is_cluster_nodes_healthy env) (λ b t. b ≡ true → ClusterReady t)
  unfolding is_cluster_nodes_healthy
  cluster-Hoare =
      Hoare-bind (λ ns t. check_nodes true ns ≡ true → ClusterReady t) _ _
        (Hoare-call _ _ (λ r t i p. tt) (λ ns t i p e. inl (ns, refl, e)))
        (λ ns. Hoare-pure _ (λ t p. p))

  pub Healthy-last : Lasts (Healthy plugins)
  Healthy-last e t q h = (inr (q, h.0), Agreed-last asked_healthy e t q h.1)

  -- If IsHealthy returns true, the nodes of the cluster were listed and none was found that is not
  -- ready, and every plugin that supports the cluster said that it is healthy, each since the last
  -- change of an object.
  pub is_healthy-Hoare :
      Hoare Anything Anything (is_healthy env plugins node) (λ b t. b ≡ true → Healthy plugins t)
  unfolding is_healthy
  is_healthy-Hoare = Hoare-bind _ _ _ (Hoare-attempt _ cluster-Hoare) (elim [
    | err e ↦ Hoare-bind Anything' _ _ (Hoare-entry _ (λ t i p. (tt, tt))) (λ _. Hoare-fail _)
    | ok false ↦
        Hoare-bind Anything' _ _ (Hoare-entry _ (λ t i p. (tt, tt)))
          (λ _. Hoare-pure _ (λ t p e. cc))
    | ok true ↦
        Hoare-bind _ _ _
          (Hoare-weaken (λ t p e. p refl)
            (ask_plugins-Hoare (λ e t q h. tt) env asked_healthy (λ id a. refl)
              (λ i t. env.is_healthy t i) plugins start_round {R = ClusterReady} (Lately-Lasts _)))
          (λ r.
            Hoare-bind (λ _ t. r.all_fine ≡ true → Healthy plugins t) _ _
              (Hoare-entry _ (λ t i p. (tt, λ e. Healthy-last (plugin_event _ _ _ _) t refl (p e))))
              (λ _. Hoare-lift _ (λ b t e p c. p (verdict_fine r (e ∙ ap ok c)))))
  ])
