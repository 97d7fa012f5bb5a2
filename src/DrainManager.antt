-- ===== src/DrainManager.antt =====
-- internal/utils/drain-manager.go: the health of the cluster and of the plugins, and the plugins'
-- hooks around a drain. A `range` over the map `drainClients` is a loop over the list of its keys,
-- in an order that the theorems leave open.
pub mod Quiet
pub mod Evidence
pub mod Agreement
pub mod Nodes
pub mod Loading
pub mod Willing
pub mod Order
use node_drain.Base.{String, Bool, true, false, ◌&&◌, not, List, [], ◌∷◌, ◌++◌, ◌==◌}
use node_drain.Base.{Option, none, some, if◌then◌else◌}
use node_drain.Base.{Error, join, wrap, Result, ok, err, pure, fail, lift, attempt}
use node_drain.Base.{◌>>=◌, ◌>>◌, ◌<>◌}
use node_drain.Cluster.{KubeNode, KubeCondition, EventType, normal, warning, PluginStatus}
use node_drain.Cluster.{failed_with, not_supported, refused, fine}
use node_drain.Cluster.{listed_kube_nodes, asked_supported, asked_healthy, asked_drain_ok}
use node_drain.Cluster.{ran_pre_drain, ran_post_drain, event, plugin_event}
use node_drain.Cluster.{Io, Env, call, record_entry}

-- `condition.Type == corev1.NodeReady`, and its status is not True
unfoldable pub not_ready : KubeCondition → Bool
not_ready c = c.condition_type == "Ready" && not (c.condition_status == "True")

-- the inner loop of IsClusterNodesHealthy
unfoldable pub check_conditions : Bool → List KubeCondition → Bool
unfolding not_ready
check_conditions ready [] = ready
check_conditions ready (c ∷ cs) = check_conditions (if not_ready c then false else ready) cs

-- the outer loop
unfoldable pub check_nodes : Bool → List KubeNode → Bool
unfolding check_conditions
check_nodes ready [] = ready
check_nodes ready (n ∷ ns) = check_nodes (check_conditions ready n.conditions) ns

-- `len(errs) != 0 → errors.Join(errs...)`, over the errors in the order of the appends
unfoldable pub join_errors : List Error → Option Error
join_errors [] = none
join_errors (e ∷ es) = elim (join_errors es) [ none ↦ some e | some f ↦ some (join e f) ]

-- What a round over the plugins leaves: `allModulesHealthy`, `errs` and `pluginStatus`.
pub record Round : Type 0 where
  pub all_fine : Bool
  pub errs : List Error
  pub statuses : List PluginStatus

unfoldable pub start_round : Round
start_round = record { all_fine = true; errs = []; statuses = [] }

unfoldable pub add_error : String → Error → Round → Round
add_error id e r = record r {
  all_fine = false;
  errs = r.errs ++ (e ∷ []);
  statuses = r.statuses ++ (failed_with id ∷ []);
}

unfoldable pub add_status : PluginStatus → Round → Round
add_status s r = record r { statuses = r.statuses ++ (s ∷ []) }

-- The end of both checks: the errors win over the flag.
unfoldable pub verdict : Round → Result Bool
unfolding join_errors
verdict r = elim (join_errors r.errs) [ none ↦ ok r.all_fine | some e ↦ err e ]

unfoldable pub event_type : Round → EventType
event_type r = if not r.all_fine then warning else elim r.errs [ [] ↦ normal | _ ∷ _ ↦ warning ]

module _ (env : Env) where
  unfoldable pub is_cluster_nodes_healthy : Io Bool
  is_cluster_nodes_healthy = do
    nodes ← call env.list_kube_nodes listed_kube_nodes
    pure (check_nodes true nodes)

  unfoldable pub is_supported : String → Io Bool
  is_supported id = call (λ t. env.is_supported t id) (asked_supported id)

  -- What the loop bodies of IsHealthy and IsDrainOk do with the plugin's two replies.
  unfoldable pub judge : String → Result Bool → Round → Round
  judge id (ok true) r = add_status (fine id) r
  judge id (ok false) r = record (add_status (refused id) r) { all_fine = false }
  judge id (err e) r = add_error id e r

  -- One round of the loop: `IsSupported` first, then the plugin's own answer.
  unfoldable pub ask_plugin : (String → Io Bool) → String → Round → Io Round
  ask_plugin ask id r = do
    supported ← attempt (is_supported id)
    elim supported [
      | err e ↦ pure (add_error id e r)
      | ok false ↦ pure (add_status (not_supported id) r)
      | ok true ↦ do answer ← attempt (ask id); pure (judge id answer r)
    ]

  unfoldable pub ask_plugins : (String → Io Bool) → List String → Round → Io Round
  ask_plugins ask [] r = pure r
  ask_plugins ask (id ∷ ids) r = do r' ← ask_plugin ask id r; ask_plugins ask ids r'

  -- The loops of RunPreDrain and RunPostDrain: the first error ends them.
  unfoldable pub run_hooks :
      (String → Io (Unit {0})) → String → String → String → List String → Io (Unit {0})
  run_hooks hook failed reason node [] = pure tt
  run_hooks hook failed reason node (id ∷ ids) = do
    supported ← is_supported id
    elim supported [
      | false ↦ run_hooks hook failed reason node ids
      | true ↦ do
        result ← attempt (hook id)
        elim result [
          | ok _ ↦ run_hooks hook failed reason node ids
          | err e ↦ do record_entry (event warning reason node); fail (wrap (failed <> id) e)
        ]
    ]

module _ (env : Env) (plugins : List String) where
  -- IsHealthy
  unfoldable pub is_healthy : String → Io Bool
  is_healthy node = do
    healthy ← attempt (is_cluster_nodes_healthy env)
    elim healthy [
      | err e ↦ do record_entry (event warning "Healthy" node); fail e
      | ok false ↦ do record_entry (event warning "Healthy" node); pure false
      | ok true ↦ do
        r ←
            ask_plugins env (λ id. call (λ t. env.is_healthy t id) (asked_healthy id)) plugins
              start_round
        record_entry (plugin_event (event_type r) "Healthy" node r.statuses)
        lift (verdict r)
    ]

  -- IsDrainOk
  unfoldable pub is_drain_ok : String → Io Bool
  is_drain_ok node = do
    r ←
        ask_plugins env (λ id. call (λ t. env.is_drain_ok t id node) (asked_drain_ok id node))
          plugins start_round
    record_entry (plugin_event (event_type r) "DrainOK" node r.statuses)
    lift (verdict r)

  -- RunPreDrain
  unfoldable pub run_pre_drain : String → Io (Unit {0})
  run_pre_drain node = do
    run_hooks env (λ id. call (λ t. env.pre_drain t id node) (ran_pre_drain id node))
        "failed PreDrain on plugin: " "PreDrain" node plugins
    record_entry (event normal "PreDrain" node)

  -- RunPostDrain
  unfoldable pub run_post_drain : String → Io (Unit {0})
  run_post_drain node = do
    run_hooks env (λ id. call (λ t. env.post_drain t id node) (ran_post_drain id node))
        "failed PostDrain on plugin: " "PostDrain" node plugins
    record_entry (event normal "PostDrain" node)
