-- ===== src/Logging/Loggers.antt =====
-- internal/config/logger.go: the logger of the program and its named loggers. zap's parser of
-- levels and its `Build`, and strings.ToLower, are parameters.
use node_drain.Base.{
  String, Bool, true, false, not, ◌≡◌, refl, ◌==◌, ◌⊎◌, inl, inr, Option, some, if◌then◌else◌,
  Error, if_intro,
}
use node_drain.Base.{Result, ok, err, Exec, pure, lift, wrapping, look, ◌>>=◌, ◌>>◌}
use node_drain.Base.Outcomes.{Outcome, Outcome-bind, Outcome-wrapping, Outcome-lift, Outcome-pure}
use node_drain.Config
use node_drain.Config.{LogConfig, HasLevel, get_logger-HasLevel}
use node_drain.Logging.{ZapLevel}

-- What an encoder of levels writes.
pub data LevelText : Type 0 where
  cyan_trace plain_trace : LevelText
  capital_color lowercase : ZapLevel → LevelText

-- The function that GetLogger builds for a format, or zapcore.CapitalColorLevelEncoder.
pub data LevelEncoder : Type 0 where
  by_format : String → LevelEncoder
  capital_color_level_encoder : LevelEncoder

-- zap.Config, the fields that differ between the loggers
pub record ZapConfig : Type 0 where
  pub level : ZapLevel
  pub encoding : String
  pub encode_level : LevelEncoder
  pub disable_stacktrace : Bool

-- zap.Logger
pub record ZapLogger : Type 0 where
  pub config : ZapConfig
  pub name : String

-- The function of GetLogger at the level Trace, and at the others.
unfoldable pub encode_format : String → ZapLevel → LevelText
encode_format format ZapLevel.trace_level = if format == "console" then cyan_trace else plain_trace
encode_format format l = if format == "console" then capital_color l else lowercase l

unfoldable pub encode : LevelEncoder → ZapLevel → LevelText
unfolding encode_format
encode (by_format format) l = encode_format format l
encode capital_color_level_encoder l = capital_color l

-- The configuration that GetLogger builds.
unfoldable pub logger_config : ZapLevel → String → ZapConfig
logger_config level format = record {
  level = level;
  encoding = format;
  encode_level = if format == "console" then capital_color_level_encoder else by_format format;
  disable_stacktrace = not (format == "json");
}

-- setLoggerConfig
unfoldable pub set_logger_config : ZapConfig → Exec (Option ZapConfig) (Unit {0})
set_logger_config c st = (ok tt, some c)

-- `_loggerConfig.Level = level`
unfoldable pub set_level : ZapLevel → Exec ZapConfig (Unit {0})
set_level level c = (ok tt, record c { level = level })

module _ (parse_level : String → Result ZapLevel) (build : ZapConfig → Result (Unit {0}))
    (to_lower : String → String) where
  -- GetLogger; the state is `_loggerConfig`
  unfoldable pub get_logger : String → String → Exec (Option ZapConfig) ZapLogger
  get_logger log_level log_format = do
    level ← wrapping "failed to parse log level: " (lift (parse_level log_level))
    let config = logger_config level log_format
    wrapping "failed to build logger: " (lift (build config))
    set_logger_config config
    pure (record { config = config; name = "" })

  -- The level of a named logger: Info where its text has no level.
  unfoldable pub named_level : String → ZapLevel
  named_level text =
      if to_lower text == "trace"
      then ZapLevel.trace_level
      else elim (parse_level text) [ ok level ↦ level | err e ↦ ZapLevel.info_level ]

  -- GetNamedLogger, after GetLogger; the lock is held from the first line to the last
  unfoldable pub get_named_logger : LogConfig → String → Exec ZapConfig ZapLogger
  get_named_logger conf name = do
    set_level (named_level (Config.get_logger conf name).level)
    look λ config. (do
      wrapping "error building named zap logger: " (lift (build config))
      pure (record { config = config; name = name }))

  -- The level that a text stands for.
  abbrev pub StandsFor : String → ZapLevel → Type 0
  StandsFor text level =
      ((to_lower text == "trace" ≡ true) × (level ≡ ZapLevel.trace_level))
      ⊎ ((to_lower text == "trace" ≡ false)
          × ((parse_level text ≡ ok level)
              ⊎ (((x : Error) × (parse_level text ≡ err x)) × (level ≡ ZapLevel.info_level))))

  parsed-StandsFor :
      (text : String) (r : Result ZapLevel)
      → parse_level text ≡ r
      → (let level : ZapLevel = elim r [ ok l ↦ l | err e ↦ ZapLevel.info_level ] in
          (parse_level text ≡ ok level)
          ⊎ (((x : Error) × (parse_level text ≡ err x)) × (level ≡ ZapLevel.info_level)))
  parsed-StandsFor text (ok l) e = inl e
  parsed-StandsFor text (err x) e = inr ((x, e), refl)

  named_level-StandsFor : (text : String) → StandsFor text (named_level text)
  unfolding named_level
  named_level-StandsFor text =
      if_intro (StandsFor text) (to_lower text == "trace") _ _ (λ e. inl (e, refl))
        (λ e. inr (e, parsed-StandsFor text _ refl))

  -- The shared configuration is as before but for the level.
  abbrev pub OtherLevel : ZapConfig → ZapConfig → Type 0
  OtherLevel c c' = (level : ZapLevel) × (c' ≡ record c { level = level })

  -- The logger has the shared configuration, with the level of the text that the program's
  -- configuration has for its name.
  abbrev pub IsNamed : LogConfig → String → ZapConfig → ZapLogger → ZapConfig → Type 0
  IsNamed conf name c l c' =
      (l.name ≡ name)
      × (l.config ≡ c')
      × (c' ≡ record c { level = l.config.level })
      × ((text : String) × HasLevel conf name text × StandsFor text l.config.level)

  -- Whatever zap answers, GetNamedLogger changes no more of the shared configuration than its
  -- level. Where it returns a logger, this has the name asked for and the shared configuration, at
  -- the level of the logger of that name in the program's configuration if it has one and else at
  -- the general level: Trace for this word in any case, the level that the text parses to, and Info
  -- for a text that does not parse.
  pub get_named_logger-IsNamed :
      (conf : LogConfig) (name : String) (c : ZapConfig)
      → Outcome (OtherLevel c) (IsNamed conf name c) (get_named_logger conf name c)
  unfolding get_named_logger set_level look
  get_named_logger-IsNamed conf name c =
      let text = (Config.get_logger conf name).level in
      let c1 : ZapConfig = record c { level = named_level text } in
      Outcome-bind (OtherLevel c) (λ _ c'. c' ≡ c1) _ _ _ c refl
        (λ _ c' e. rw e (
          Outcome-bind (OtherLevel c) (λ _ c''. c'' ≡ c1) _ _ _ c1
            (Outcome-wrapping (OtherLevel c) _ _ _ c1
              (Outcome-lift (OtherLevel c) _ (build c1) c1 (named_level text, refl) (λ _ q. refl)))
            (λ _ c'' e'. rw e' (
              Outcome-pure (OtherLevel c) (IsNamed conf name c) _ c1 (
                refl,
                refl,
                refl,
                (text, get_logger-HasLevel conf name, named_level-StandsFor text),
              )))))
