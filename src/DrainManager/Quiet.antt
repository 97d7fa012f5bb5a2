-- ===== src/DrainManager/Quiet.antt =====
-- drain-manager.go: the kinds of calls that the manager makes.
use node_drain.Base.{String, Bool, true, false, refl, List, [], ◌∷◌, ok, err}
use node_drain.Base.Keeps.{Keeps, Keeps-bind, Keeps-pure, Keeps-attempt, Keeps-fail, Keeps-lift}
use node_drain.Cluster.{Trace, Io, Env}
use node_drain.Cluster.Quiet.{Grows, IsAside, Keeps-call, Keeps-record_entry}
use node_drain.DrainManager.{
  Round, is_cluster_nodes_healthy, is_supported, ask_plugin, ask_plugins, is_healthy, is_drain_ok,
  run_hooks, run_pre_drain, run_post_drain,
}

module _ (env : Env) {t : Trace} where
  pub is_cluster_nodes_healthy-IsQuiet : Keeps (Grows IsAside t) (is_cluster_nodes_healthy env)
  unfolding is_cluster_nodes_healthy
  is_cluster_nodes_healthy-IsQuiet = Keeps-bind _ _ (Keeps-call _ _ (λ r. refl)) (λ n. Keeps-pure _)

  is_supported-IsQuiet : (id : String) → Keeps (Grows IsAside t) (is_supported env id)
  unfolding is_supported
  is_supported-IsQuiet id = Keeps-call _ _ (λ r. refl)

  module _ (ask : String → Io Bool) (quiet : (id : String) → Keeps (Grows IsAside t) (ask id)) where
    ask_plugin-IsQuiet :
        (id : String) (r : Round) → Keeps (Grows IsAside t) (ask_plugin env ask id r)
    unfolding ask_plugin
    ask_plugin-IsQuiet id r = Keeps-bind _ _ (Keeps-attempt _ (is_supported-IsQuiet id)) (elim [
      | err e ↦ Keeps-pure _
      | ok false ↦ Keeps-pure _
      | ok true ↦ Keeps-bind _ _ (Keeps-attempt _ (quiet id)) (λ a. Keeps-pure _)
    ])

    ask_plugins-IsQuiet :
        (ids : List String) (r : Round) → Keeps (Grows IsAside t) (ask_plugins env ask ids r)
    unfolding ask_plugins
    ask_plugins-IsQuiet [] r = Keeps-pure _
    ask_plugins-IsQuiet (id ∷ ids) r =
        Keeps-bind _ _ (ask_plugin-IsQuiet id r) (λ r'. ask_plugins-IsQuiet ids r')

  module _ (hook : String → Io (Unit {0})) (failed reason node : String)
      (quiet : (id : String) → Keeps (Grows IsAside t) (hook id)) where
    run_hooks-IsQuiet :
        (ids : List String) → Keeps (Grows IsAside t) (run_hooks env hook failed reason node ids)
    unfolding run_hooks
    run_hooks-IsQuiet [] = Keeps-pure _
    run_hooks-IsQuiet (id ∷ ids) = Keeps-bind _ _ (is_supported-IsQuiet id) (elim [
      | false ↦ run_hooks-IsQuiet ids
      | true ↦ Keeps-bind _ _ (Keeps-attempt _ (quiet id)) (elim [
        | ok _ ↦ run_hooks-IsQuiet ids
        | err e ↦ Keeps-bind _ _ (Keeps-record_entry _ refl) (λ _. Keeps-fail _)
      ])
    ])

module _ (env : Env) (plugins : List String) {t : Trace} (node : String) where
  pub is_healthy-IsQuiet : Keeps (Grows IsAside t) (is_healthy env plugins node)
  unfolding is_healthy
  is_healthy-IsQuiet =
      Keeps-bind _ _ (Keeps-attempt _ (is_cluster_nodes_healthy-IsQuiet env)) (elim [
        | err e ↦ Keeps-bind _ _ (Keeps-record_entry _ refl) (λ _. Keeps-fail _)
        | ok false ↦ Keeps-bind _ _ (Keeps-record_entry _ refl) (λ _. Keeps-pure _)
        | ok true ↦
            Keeps-bind _ _ (ask_plugins-IsQuiet env _ (λ id. Keeps-call _ _ (λ r. refl)) plugins _)
              (λ r. Keeps-bind _ _ (Keeps-record_entry _ refl) (λ _. Keeps-lift _))
      ])

  pub is_drain_ok-IsQuiet : Keeps (Grows IsAside t) (is_drain_ok env plugins node)
  unfolding is_drain_ok
  is_drain_ok-IsQuiet =
      Keeps-bind _ _ (ask_plugins-IsQuiet env _ (λ id. Keeps-call _ _ (λ r. refl)) plugins _)
        (λ r. Keeps-bind _ _ (Keeps-record_entry _ refl) (λ _. Keeps-lift _))

  pub run_pre_drain-IsQuiet : Keeps (Grows IsAside t) (run_pre_drain env plugins node)
  unfolding run_pre_drain
  run_pre_drain-IsQuiet =
      Keeps-bind _ _ (run_hooks-IsQuiet env _ _ _ _ (λ id. Keeps-call _ _ (λ r. refl)) plugins)
        (λ _. Keeps-record_entry _ refl)

  pub run_post_drain-IsQuiet : Keeps (Grows IsAside t) (run_post_drain env plugins node)
  unfolding run_post_drain
  run_post_drain-IsQuiet =
      Keeps-bind _ _ (run_hooks-IsQuiet env _ _ _ _ (λ id. Keeps-call _ _ (λ r. refl)) plugins)
        (λ _. Keeps-record_entry _ refl)
