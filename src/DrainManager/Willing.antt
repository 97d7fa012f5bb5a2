-- ===== src/DrainManager/Willing.antt =====
-- drain-manager.go where every call succeeds and every plugin agrees: the checks say yes, and the
-- hooks run to their end.
use node_drain.Base.{
  String, Bool, true, ◌≡◌, refl, List, [], ◌∷◌, Result, ok, err, attempt, lift, ◌>>=◌,
}
use node_drain.Base.Outcomes.{Outcome, Outcome-bind, Outcome-pure}
use node_drain.Cluster.{Entry, Trace, Env, KubeNode, Io, call, record_entry}
use node_drain.DrainManager.{
  Round, start_round, add_status, verdict, judge, check_nodes, is_cluster_nodes_healthy,
  is_supported, ask_plugin, ask_plugins, run_hooks, is_healthy, is_drain_ok, run_pre_drain,
  run_post_drain,
}

-- No error.
abbrev pub Never : {St : Type 0} → St → Type 0
Never s = ⊥

-- The value, and no error.
abbrev pub Gives : {St A : Type 0} → A → Result A × St → Type 0
Gives v x = Outcome Never (λ a s. a ≡ v) x

-- Everything that the checks and the hooks call succeeds, and says yes.
pub record IsWilling (env : Env) : Type 0 where
  pub nodes_ready :
      (t : Trace)
      → (ns : List KubeNode) × (env.list_kube_nodes t ≡ ok ns) × (check_nodes true ns ≡ true)
  pub supported : (t : Trace) (id : String) → env.is_supported t id ≡ ok true
  pub healthy : (t : Trace) (id : String) → env.is_healthy t id ≡ ok true
  pub drain_ok : (t : Trace) (id node : String) → env.is_drain_ok t id node ≡ ok true
  pub hooks : (t : Trace) (id node : String) → env.pre_drain t id node ≡ ok tt

pub call-Gives :
    {A : Type 0} (reply : Trace → Result A) (entry : Result A → Entry) (t : Trace) (v : A)
    → reply t ≡ ok v
    → Gives v (call reply entry t)
unfolding call
call-Gives reply entry t v e = rw e refl

pub lift-Gives : {St A : Type 0} (v : A) (r : Result A) (s : St) → r ≡ ok v → Gives v (lift r s)
unfolding ◌>>=◌
lift-Gives v r s e = rw e refl

attempted-Gives : {St A : Type 0} (v : A) (r : Result A) (s : St) → Gives v (r, s) → r ≡ ok v
attempted-Gives v (ok a) s h = rw h refl
attempted-Gives v (err e) s h = elim h [ ]

pub attempt-Gives :
    {St A : Type 0} (v : A) (m : St → Result A × St) (s : St)
    → Gives v (m s)
    → Gives (ok v) (attempt m s)
unfolding attempt
attempt-Gives v m s h = attempted-Gives v (m s).0 (m s).1 h

-- A step that gives a value, and the rest with this value.
pub bind-Gives :
    {St A B : Type 0} (v : A) (Q : B → St → Type 0) (m : St → Result A × St)
    (f : A → St → Result B × St) (s : St)
    → Gives v (m s)
    → ((s' : St) → Outcome Never Q (f v s'))
    → Outcome Never Q ((m >>= f) s)
bind-Gives v Q m f s h k = Outcome-bind Never _ Q m f s h (λ a s' e. rw e (k s'))

pub entry-Gives : (e : Entry) (t : Trace) → Gives tt (record_entry e t)
unfolding record_entry
entry-Gives e t = refl

module _ (env : Env) (w : IsWilling env) where
  abbrev IsFine : Round → Type 0
  IsFine r = (r.all_fine ≡ true) × (r.errs ≡ [])

  module _ (ask : String → Io Bool)
      (agrees : (id : String) (t : Trace) → Gives true (ask id t)) where
    ask_plugin-IsFine :
        (id : String) (r : Round) (t : Trace)
        → IsFine r
        → Outcome Never (λ r' _. IsFine r') (ask_plugin env ask id r t)
    unfolding ask_plugin is_supported judge add_status
    ask_plugin-IsFine id r t h =
        bind-Gives (ok true) _ _ _ t
          (attempt-Gives true _ t (call-Gives _ _ t true (w.supported t id)))
          (λ t1.
            bind-Gives (ok true) _ _ _ t1 (attempt-Gives true (ask id) t1 (agrees id t1))
              (λ t2. Outcome-pure Never _ _ t2 h))

    ask_plugins-IsFine :
        (ids : List String) (r : Round) (t : Trace)
        → IsFine r
        → Outcome Never (λ r' _. IsFine r') (ask_plugins env ask ids r t)
    unfolding ask_plugins
    ask_plugins-IsFine [] r t h = Outcome-pure Never _ r t h
    ask_plugins-IsFine (id ∷ ids) r t h =
        Outcome-bind Never (λ r' _. IsFine r') _ _ _ t (ask_plugin-IsFine id r t h)
          (λ r' t' h'. ask_plugins-IsFine ids r' t' h')

  verdict-Gives : (r : Round) → IsFine r → (t : Trace) → Gives true (lift (verdict r) t)
  unfolding verdict ◌>>=◌
  verdict-Gives r h t = rw h.1 h.0

  pub is_drain_ok-Gives :
      (plugins : List String) (node : String) (t : Trace)
      → Gives true (is_drain_ok env plugins node t)
  unfolding is_drain_ok start_round
  is_drain_ok-Gives plugins node t =
      Outcome-bind Never (λ r _. IsFine r) _ _ _ t
        (ask_plugins-IsFine _ (λ id t'. call-Gives _ _ t' true (w.drain_ok t' id node)) plugins
          start_round t (refl, refl))
        (λ r t1 h. bind-Gives tt _ _ _ t1 (entry-Gives _ t1) (λ t2. verdict-Gives r h t2))

  pub nodes_healthy-Gives : (t : Trace) → Gives true (is_cluster_nodes_healthy env t)
  unfolding is_cluster_nodes_healthy
  nodes_healthy-Gives t =
      let (ns, e, r) = w.nodes_ready t in
      bind-Gives ns _ _ _ t (call-Gives _ _ t ns e) (λ t1. Outcome-pure Never _ _ t1 r)

  -- Where the nodes are listed and ready, and each plugin supports the cluster and says that it is
  -- healthy, IsHealthy returns true and no error.
  pub is_healthy-Gives :
      (plugins : List String) (node : String) (t : Trace)
      → Gives true (is_healthy env plugins node t)
  unfolding is_healthy start_round
  is_healthy-Gives plugins node t =
      bind-Gives (ok true) _ _ _ t (attempt-Gives true _ t (nodes_healthy-Gives t)) (λ t1.
        Outcome-bind Never (λ r _. IsFine r) _ _ _ t1
          (ask_plugins-IsFine _ (λ id t'. call-Gives _ _ t' true (w.healthy t' id)) plugins
            start_round t1 (refl, refl))
          (λ r t2 h. bind-Gives tt _ _ _ t2 (entry-Gives _ t2) (λ t3. verdict-Gives r h t3)))

  hooks-Gives :
      (hook : String → Io (Unit {0}))
      → ((id : String) (t : Trace) → Gives tt (hook id t))
      → (failed reason node : String) (ids : List String) (t : Trace)
      → Gives tt (run_hooks env hook failed reason node ids t)
  unfolding run_hooks is_supported
  hooks-Gives hook agrees failed reason node [] t = Outcome-pure Never _ tt t refl
  hooks-Gives hook agrees failed reason node (id ∷ ids) t =
      bind-Gives true _ _ _ t (call-Gives _ _ t true (w.supported t id)) (λ t1.
        bind-Gives (ok tt) _ _ _ t1 (attempt-Gives tt (hook id) t1 (agrees id t1))
          (λ t2. hooks-Gives hook agrees failed reason node ids t2))

  pub run_pre_drain-Gives :
      (plugins : List String) (node : String) (t : Trace)
      → Gives tt (run_pre_drain env plugins node t)
  unfolding run_pre_drain
  run_pre_drain-Gives plugins node t =
      bind-Gives tt _ _ _ t
        (hooks-Gives _ (λ id t'. call-Gives _ _ t' tt (w.hooks t' id node)) _ _ node plugins t)
        (λ t1. entry-Gives _ t1)

  -- The hooks after a drain, where they succeed too.
  pub run_post_drain-Gives :
      ((t : Trace) (id node : String) → env.post_drain t id node ≡ ok tt)
      → (plugins : List String) (node : String) (t : Trace)
      → Gives tt (run_post_drain env plugins node t)
  unfolding run_post_drain
  run_post_drain-Gives h plugins node t =
      bind-Gives tt _ _ _ t
        (hooks-Gives _ (λ id t'. call-Gives _ _ t' tt (h t' id node)) _ _ node plugins t)
        (λ t1. entry-Gives _ t1)
