-- ===== src/DrainManager/Order/Answers.antt =====
-- IsHealthy and IsDrainOk, for every order of the plugins.
use mathlib.Core.List.{Perm}
use node_drain.Base.{
  String, Bool, true, false, ◌&&◌, ◌≡◌, inl, inr, refl, ap, ◌∙◌, List, [], ◌∷◌, Result, ok, err,
  arith, attempt, lift, ◌>>=◌, ◌>>◌,
}
use node_drain.Base.Outcomes.{Outcome, Outcome-bind, Outcome-map, Outcome-pure}
use node_drain.Cluster.{Entry, Trace, Env, call, record_entry, asked_drain_ok, asked_healthy}
use node_drain.DrainManager.{
  Round, start_round, add_status, add_error, verdict, is_supported, ask_plugin, ask_plugins,
  is_cluster_nodes_healthy, is_healthy, is_drain_ok,
}
use node_drain.DrainManager.Order.{
  is_yes, agrees, all_agree, nodes_ready, Replies, IsSteady, all_agree-perm, and_assoc, and_true,
}
use node_drain.DrainManager.Order.Rounds.{
  Says, Says-judge, told, Answers, Answers-yes, ended-Answers, counted, failed-Answers,
  refused-Answers,
}

module _ (env : Env) (r : Replies) (steady : IsSteady env r) where
  module _ (asked : String → Result Bool → Entry) (reply : Trace → String → Result Bool)
      (answer : String → Result Bool) (e : (t : Trace) (id : String) → reply t id ≡ answer id) where
    ask_plugin-Says :
        (id : String) (b : Bool) (q : Round) (t : Trace)
        → Says b q
        → Outcome
            (λ _. ⊥)
            (λ q' _. Says (b && agrees (r.supported id) (answer id)) q')
            (ask_plugin env (λ i. call (λ t'. reply t' i) (asked i)) id q t)
    unfolding ask_plugin is_supported add_error add_status
    ask_plugin-Says id b q t h =
        let Q : Round → Trace → Type 0 =
          λ q' _. Says (b && agrees (r.supported id) (answer id)) q' in
        Outcome-bind (λ _. ⊥) (λ a _. a ≡ r.supported id) Q _ _ t
          (told _ _ t (steady.supported t id))
          (elim [
            | err x ↦ λ t' k. Outcome-pure (λ _. ⊥) Q _ t' (rw (← k) (inr refl, ground arith))
            | ok false ↦ λ t' k. Outcome-pure (λ _. ⊥) Q _ t' (rw (← k) (h.0, ground arith))
            | ok true ↦ λ t' k.
                Outcome-bind (λ _. ⊥) (λ a _. a ≡ answer id) Q _ _ t' (told _ _ t' (e t' id))
                  (λ a t'' j.
                    Outcome-pure (λ _. ⊥) Q _ t'' (rw (← k, ← j) (Says-judge env id a b q h)))
          ])

    ask_plugins-Says :
        (ids : List String) (b : Bool) (q : Round) (t : Trace)
        → Says b q
        → Outcome
            (λ _. ⊥)
            (λ q' _. Says (b && all_agree r.supported answer ids) q')
            (ask_plugins env (λ i. call (λ t'. reply t' i) (asked i)) ids q t)
    unfolding ask_plugins
    ask_plugins-Says [] b q t h = Outcome-pure (λ _. ⊥) _ q t (rw (and_true b) h)
    ask_plugins-Says (id ∷ ids) b q t h =
        Outcome-bind (λ _. ⊥) (λ q' _. Says (b && agrees (r.supported id) (answer id)) q') _ _ _ t
          (ask_plugin-Says id b q t h)
          (λ q' t' h'.
            rw (← and_assoc b (agrees (r.supported id) (answer id)) _)
              (ask_plugins-Says ids _ q' t' h'))

    -- The loop from its start, and what follows it.
    asked-Answers :
        (b : Bool) (entry : Round → Entry) (ids : List String) (t : Trace)
        → b ≡ all_agree r.supported answer ids
        → Answers b (
            (do
              q ← ask_plugins env (λ i. call (λ t'. reply t' i) (asked i)) ids start_round
              record_entry (entry q)
              lift (verdict q))
              t)
    unfolding start_round
    asked-Answers b entry ids t e =
        let E : Trace → Type 0 = λ _. b ≡ false in
        Outcome-bind E (λ q _. Says b q) (λ a _. a ≡ b) _ _ t
          (Outcome-map (λ _. ⊥) E (λ q _. Says (all_agree r.supported answer ids) q)
            (λ q _. Says b q) (λ s h. elim h [ ]) (λ q s h. rw e h) _ _
            (ask_plugins-Says ids true start_round t (inl refl, refl)))
          (λ q t' h. ended-Answers b q (entry q) t' h)

  drain_ok-Answers :
      (ids : List String) (node : String) (t : Trace)
      → Answers (all_agree r.supported (λ id. r.drain_ok id node) ids) (is_drain_ok env ids node t)
  unfolding is_drain_ok
  drain_ok-Answers ids node t =
      asked-Answers (λ id. asked_drain_ok id node) (λ t' id. env.is_drain_ok t' id node)
        (λ id. r.drain_ok id node) (λ t' id. steady.drain_ok t' id node) _ _ ids t refl

  nodes-told :
      (t : Trace)
      → Outcome
          (λ _. ⊥)
          (λ a _. is_yes a ≡ nodes_ready r.nodes)
          (attempt (is_cluster_nodes_healthy env) t)
  unfolding attempt is_cluster_nodes_healthy call ◌>>=◌
  nodes-told t = rw (steady.nodes t) (counted r.nodes _)

  healthy-Answers :
      (ids : List String) (node : String) (t : Trace)
      → Answers
          (nodes_ready r.nodes && all_agree r.supported r.healthy ids)
          (is_healthy env ids node t)
  unfolding is_healthy
  healthy-Answers ids node t =
      let n = nodes_ready r.nodes in
      let c = all_agree r.supported r.healthy ids in
      let E : Trace → Type 0 = λ _. (n && c) ≡ false in
      Outcome-bind E (λ a _. is_yes a ≡ n) (λ a _. a ≡ n && c) _ _ t
        (Outcome-map (λ _. ⊥) E (λ a _. is_yes a ≡ n) (λ a _. is_yes a ≡ n) (λ s h. elim h [ ])
          (λ a s h. h) _ _ (nodes-told t))
        (elim [
          | err x ↦ λ t' k. failed-Answers n c _ x t' k
          | ok false ↦ λ t' k. refused-Answers n c _ t' k
          | ok true ↦ λ t' k. rw (← k) (
              asked-Answers asked_healthy (λ t'' id. env.is_healthy t'' id) r.healthy
                (λ t'' id. steady.healthy t'' id) _ _ ids t' refl)
        ])

  -- Where the replies of one moment do not depend on the calls before them, and for every order of
  -- the plugins: IsHealthy says yes exactly if the nodes are listed and ready and each plugin does
  -- not support the cluster or says that it is healthy, and IsDrainOk says yes exactly if each
  -- plugin does not support the cluster or agrees to the drain of this node.
  pub is_healthy-perm :
      {ps qs : List String} (node : String) (t : Trace)
      → Perm qs ps
      → (is_yes (is_healthy env qs node t).0
          ≡ nodes_ready r.nodes && all_agree r.supported r.healthy ps)
        × (is_yes (is_drain_ok env qs node t).0
            ≡ all_agree r.supported (λ id. r.drain_ok id node) ps)
  is_healthy-perm {ps} {qs} node t p = (
    Answers-yes _ _ _ (healthy-Answers qs node t)
        ∙ ap (λ b. nodes_ready r.nodes && b) (all_agree-perm r.supported r.healthy p),
    Answers-yes _ _ _ (drain_ok-Answers qs node t)
        ∙ all_agree-perm r.supported (λ id. r.drain_ok id node) p,
  )
