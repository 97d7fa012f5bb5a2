-- ===== src/Start/Plan.antt =====
-- The steps of the program's start against a plan of them.
use node_drain.Base.{
  String, Bool, true, false, not, refl, ◌≡◌, ◌==◌, ◌⊎◌, inl, inr, List, [], ◌∷◌, Any, if◌then◌else◌,
  if_intro, Error,
}
use node_drain.Base.{Result, ok, err, Exec, continue, ◌>>=◌, ◌>>◌}
use node_drain.Base.Outcomes.{Outcome, Outcome-bind, Outcome-map}
use node_drain.Config.{LogConfig}
use node_drain.Start.{
  Flags, Environ, TlsOption, disable_http2, Step, loaded_config, built_logger, set_loggers,
  watched_webhook_certificate, watched_metrics_certificate, created_manager, created_reconciler,
  set_up_reconciler, set_up_webhook, added_metrics_watcher, added_webhook_watcher,
  added_health_check, added_ready_check, started_manager, Launch, or_default, is_set, tls_options,
  with_certificate, manager_options, must, did, must_if, load, launch, main,
}

-- A step of the plan that has a condition.
abbrev pub planned : Bool → Step → List Step → List Step
planned b s rest = if b then s ∷ rest else rest

-- The steps of a start without an error, from the logger on.
abbrev pub plan : Flags → Environ → LogConfig → List Step
plan f environ conf =
    let with_webhook = is_set f.webhook_cert_path in
    let with_metrics = is_set f.metrics_cert_path in
    built_logger conf.level conf.format
    ∷ set_loggers
    ∷ planned with_webhook
        (watched_webhook_certificate f.webhook_cert_path f.webhook_cert_name f.webhook_cert_key)
        (planned with_metrics
          (watched_metrics_certificate f.metrics_cert_path f.metrics_cert_name f.metrics_cert_key)
          (created_manager (manager_options f)
            ∷ created_reconciler (or_default "default" f.manager_namespace)
                (or_default "no-node-name" environ.pod_nodename)
            ∷ set_up_reconciler
            ∷ planned (not (environ.enable_webhooks == "false")) set_up_webhook (
                planned with_metrics added_metrics_watcher (
                  planned with_webhook added_webhook_watcher
                    (added_health_check ∷ added_ready_check ∷ started_manager ∷ [])))))

-- The steps made, newest first, put back before the steps to come.
abbrev pub made_then : List Step → List Step → List Step
made_then [] todo = todo
made_then (s ∷ ss) todo = made_then ss (s ∷ todo)

-- None of these steps, newest first, failed; the two that are exempt are not asked.
abbrev pub NoneFailed : Launch → List Step → Type 0
NoneFailed l [] = Unit {0}
NoneFailed l (s ∷ st) =
    ((l.reply st s ≡ ok tt) ⊎ (s ≡ set_loggers) ⊎ (s ≡ loaded_config)) × NoneFailed l st

-- The newest step failed, and none before it.
abbrev pub HasFailed : Launch → List Step → Type 0
HasFailed l [] = ⊥
HasFailed l (s ∷ st) = ((x : Error) × (l.reply st s ≡ err x)) × NoneFailed l st

module _ (l : Launch) (whole : List Step) where
  -- The steps are the plan's first ones, up to the one that failed.
  abbrev pub IsBegun : List Step → Type 0
  IsBegun st = (todo : List Step) × (made_then st todo ≡ whole) × HasFailed l st

  abbrev At : List Step → {A : Type 0} → A → List Step → Type 0
  At todo a st = (made_then st todo ≡ whole) × NoneFailed l st

  made-At :
      (s : Step) (todo st : List Step) (r : Result (Unit {0}))
      → l.reply st s ≡ r
      → At (s ∷ todo) tt st
      → Outcome IsBegun (At todo) (r, s ∷ st)
  made-At s todo st (ok _) q h = (h.0, (inl q, h.1))
  made-At s todo st (err x) q h = (todo, h.0, ((x, q), h.1))

  must-At :
      (s : Step) (todo st : List Step)
      → At (s ∷ todo) tt st
      → Outcome IsBegun (At todo) (must l s st)
  unfolding must
  must-At s todo st h = made-At s todo st (l.reply st s) refl h

  must_if-At :
      (b : Bool) (s : Step) (todo st : List Step)
      → At (planned b s todo) tt st
      → Outcome IsBegun (At todo) (must_if l b s st)
  unfolding must_if ◌>>=◌
  must_if-At true s todo st h = must-At s todo st h
  must_if-At false s todo st h = h

  -- A step and what comes after it.
  next-At :
      (s : Step) (k : Exec (List Step) (Unit {0})) (todo st : List Step)
      → ((st' : List Step) → At todo tt st' → Outcome IsBegun (At []) (k st'))
      → At (s ∷ todo) tt st
      → Outcome IsBegun (At []) ((must l s >> k) st)
  next-At s k todo st f h =
      Outcome-bind IsBegun (At todo) _ _ _ st (must-At s todo st h) (λ _ st' q. f st' q)

  next_if-At :
      (b : Bool) (s : Step) (k : Exec (List Step) (Unit {0})) (todo st : List Step)
      → ((st' : List Step) → At todo tt st' → Outcome IsBegun (At []) (k st'))
      → At (planned b s todo) tt st
      → Outcome IsBegun (At []) ((must_if l b s >> k) st)
  next_if-At b s k todo st f h =
      Outcome-bind IsBegun (At todo) _ _ _ st (must_if-At b s todo st h) (λ _ st' q. f st' q)

  launch-At :
      (f : Flags) (environ : Environ) (conf : LogConfig) (st : List Step)
      → At (plan f environ conf) tt st
      → Outcome IsBegun (At []) (launch l f environ conf st)
  unfolding launch did
  launch-At f environ conf st h =
      next-At _ _ _ st
        (λ st1 h1.
          Outcome-bind IsBegun (At _) _ _ _ st1 (h1.0, (inr (inl refl), h1.1))
            (λ _ st2 h2.
              next_if-At _ _ _ _ st2
                (λ st3 h3.
                  next_if-At _ _ _ _ st3
                    (λ st4. next-At _ _ _ st4 (λ st5. next-At _ _ _ st5 (λ st6.
                      next-At _ _ _ st6 (λ st7. next_if-At _ _ _ _ st7 (λ st8.
                        next_if-At _ _ _ _ st8 (λ st9. next_if-At _ _ _ _ st9 (λ st10.
                          next-At _ _ _ st10
                            (λ st11. next-At _ _ _ st11 (λ st12 h12. must-At _ [] st12 h12)))))))))
                    h3)
                h2))
        h

module _ (l : Launch) (f : Flags) (environ : Environ) where
  abbrev whole_plan : LogConfig → List Step
  whole_plan conf = loaded_config ∷ plan f environ conf

  -- The configuration was not loaded, or the steps are the first ones of the plan.
  abbrev pub IsStopped : List Step → Type 0
  IsStopped st =
      ((x : Error) × (l.load_config ≡ err x) × (st ≡ loaded_config ∷ []))
      ⊎ ((conf : LogConfig) × (l.load_config ≡ ok conf) × IsBegun l (whole_plan conf) st)

  abbrev pub IsStarted : List Step → Type 0
  IsStarted st =
      (conf : LogConfig) × (l.load_config ≡ ok conf)
      × (made_then st [] ≡ whole_plan conf)
      × NoneFailed l st

  loaded-FollowsPlan :
      (r : Result LogConfig)
      → l.load_config ≡ r
      → Outcome IsStopped (λ _. IsStarted) (continue r (launch l f environ) (loaded_config ∷ []))
  loaded-FollowsPlan (err x) e = inl (x, e, refl)
  loaded-FollowsPlan (ok conf) e =
      let m = launch l f environ conf in
      Outcome-map _ _ _ _ (λ st h. inr (conf, e, h)) (λ a st h. (conf, e, h.0, h.1))
        (m (loaded_config ∷ [])).0 (m (loaded_config ∷ [])).1
        (launch-At l (whole_plan conf) f environ conf (loaded_config ∷ [])
          (refl, (inr (inr refl), tt)))

  -- For all flags, environments and replies: where main runs to its end, it made the steps of the
  -- plan, in its order, and none failed. Where a step fails, it made the first ones of the plan, up
  -- to this step, and none before it failed; where the configuration does not load, none of the
  -- plan's further steps.
  pub main-IsStarted : Outcome IsStopped (λ _. IsStarted) (main l f environ [])
  unfolding main load ◌>>=◌
  main-IsStarted = loaded-FollowsPlan l.load_config refl

with_certificate-keeps :
    (path name key : String) (options : List TlsOption)
    → Any (λ o. o ≡ disable_http2) (with_certificate path name key (disable_http2 ∷ options))
unfolding with_certificate
with_certificate-keeps path name key options =
    if_intro (Any (λ o. o ≡ disable_http2)) (is_set path) _ _ (λ _. inl refl) (λ _. inl refl)

-- Without --enable-http2, both servers get the option that leaves http/1.1 alone, also where their
-- certificates are watched.
pub manager_options-disable_http2 :
    (f : Flags)
    → f.enable_http2 ≡ false
    → Any (λ o. o ≡ disable_http2) (manager_options f).metrics_tls
      × Any (λ o. o ≡ disable_http2) (manager_options f).webhook_tls
unfolding manager_options tls_options
manager_options-disable_http2 f h =
    rw h (with_certificate-keeps _ _ _ [], with_certificate-keeps _ _ _ [])
