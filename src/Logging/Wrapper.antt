-- ===== src/Logging/Wrapper.antt =====
-- internal/utils/hclog.go: the adapter that go-plugin logs through. The calls on zap's logger, and
-- hclog.LevelFromString, are parameters.
use node_drain.Base.{
  ℕ, String, Bool, true, false, ◌≡◌, refl, ap, ◌==◌, if◌then◌else◌, Option, none, some, List, [],
}
use node_drain.Logging.Arguments.{convert}
use node_drain.Logging.{
  Level, ZapLevel, at_most, is_trace, is_debug, is_info, is_warn, is_error, Arg, FieldName,
}

-- What the adapter calls on a zap.Logger `Z`, and `String` of a level.
pub record Zap (Z : Type 0) (V : Type 0) : Type 0 where
  pub level : Z → ZapLevel
  pub name : Z → String
  pub with_fields : List (FieldName × Arg V) → Z → Z
  pub named : String → Z → Z
  pub add_caller_skip : ℕ → Z → Z
  pub level_string : ZapLevel → String

-- A call of a logging method of zap: the logger writes the message if the level is enabled.
pub record ZapCall (Z : Type 0) (V : Type 0) : Type 0 where
  pub logger : Z
  pub level : ZapLevel
  pub message : String
  pub fields : List (FieldName × Arg V)

-- wrapper
pub record Wrapper (Z : Type 0) : Type 0 where
  pub zap : Z

module _ {Z V : Type 0} (z : Zap Z V) where
  -- Wrap
  unfoldable pub wrap_logger : Z → Wrapper Z
  wrap_logger l = record { zap = z.add_caller_skip 1 l }

  abbrev pub call_at : ZapLevel → Wrapper Z → String → List (Arg V) → ZapCall Z V
  call_at level w message args = record {
    logger = w.zap;
    level = level;
    message = message;
    fields = convert args;
  }

  unfoldable pub debug : Wrapper Z → String → List (Arg V) → ZapCall Z V
  debug = call_at ZapLevel.debug_level

  unfoldable pub info : Wrapper Z → String → List (Arg V) → ZapCall Z V
  info = call_at ZapLevel.info_level

  unfoldable pub warn : Wrapper Z → String → List (Arg V) → ZapCall Z V
  warn = call_at ZapLevel.warn_level

  unfoldable pub error : Wrapper Z → String → List (Arg V) → ZapCall Z V
  error = call_at ZapLevel.error_level

  unfoldable pub trace : Wrapper Z → String → List (Arg V) → ZapCall Z V
  trace = call_at ZapLevel.trace_level

  -- Log
  unfoldable pub log : Wrapper Z → Level → String → List (Arg V) → Option (ZapCall Z V)
  unfolding trace debug info warn error
  log w Level.trace message args = some (trace w message args)
  log w Level.debug message args = some (debug w message args)
  log w Level.info message args = some (info w message args)
  log w Level.warn message args = some (warn w message args)
  log w Level.error message args = some (error w message args)
  log w Level.off message args = none
  log w Level.no_level message args = some (info w message args)

  -- With
  unfoldable pub with_args : List (Arg V) → Wrapper Z → Wrapper Z
  with_args args w = record { zap = z.with_fields (convert args) w.zap }

  -- Named
  unfoldable pub named : String → Wrapper Z → Wrapper Z
  named name w = record { zap = z.named name w.zap }

  -- Name
  unfoldable pub logger_name : Wrapper Z → String
  logger_name w = z.name w.zap

  -- ResetNamed
  unfoldable pub reset_named : String → Wrapper Z → Wrapper Z
  reset_named name w = record { zap = z.named name w.zap }

  -- ImpliedArgs and SetLevel
  unfoldable pub implied_args : Wrapper Z → List (Arg V)
  implied_args w = []

  unfoldable pub ignore_level : Level → Wrapper Z → Wrapper Z
  ignore_level level w = w

  -- StandardWriter, and StandardLogger with log.LstdFlags; `default_output` is hclog.DefaultOutput.
  module _ {W L : Type 0} (default_output : W) (new_logger : W → String → ℕ → L) where
    unfoldable pub standard_writer : Wrapper Z → W
    standard_writer w = default_output

    unfoldable pub standard_logger : Wrapper Z → L
    unfolding standard_writer
    standard_logger w = new_logger (standard_writer w) "" 3

  module _ (level_from_string : String → Level) where
    -- The end of GetLevel.
    abbrev own_level : ZapLevel → Level
    own_level ZapLevel.trace_level = Level.trace
    own_level l = level_from_string (z.level_string l)

    -- GetLevel; the name of the calling function is missing where `runtime` does not know it.
    unfoldable pub get_level : Option String → Wrapper Z → Level
    get_level none w = own_level (z.level w.zap)
    get_level (some caller) w =
        if caller == "github.com/hashicorp/go-plugin.(*Client).logStderr"
        then Level.off
        else own_level (z.level w.zap)

  -- What zap's names of the levels mean to hclog.LevelFromString.
  pub record IsNaming (level_from_string : String → Level) : Type 0 where
    pub debug : level_from_string (z.level_string ZapLevel.debug_level) ≡ Level.debug
    pub info : level_from_string (z.level_string ZapLevel.info_level) ≡ Level.info
    pub warn : level_from_string (z.level_string ZapLevel.warn_level) ≡ Level.warn
    pub error : level_from_string (z.level_string ZapLevel.error_level) ≡ Level.error

  -- Whether the tests of the adapter let a message of this level through.
  abbrev pub allows : Level → Wrapper Z → Bool
  allows Level.trace w = is_trace (z.level w.zap)
  allows Level.debug w = is_debug (z.level w.zap)
  allows Level.info w = is_info (z.level w.zap)
  allows Level.no_level w = is_info (z.level w.zap)
  allows Level.warn w = is_warn (z.level w.zap)
  allows Level.error w = is_error (z.level w.zap)
  allows Level.off w = false

  -- The call is on this logger, with this message and these arguments, at a level that the logger
  -- writes exactly if `b`; or there is no call, and `b` is false.
  abbrev pub Passes : Bool → Wrapper Z → String → List (Arg V) → Option (ZapCall Z V) → Type 0
  Passes b w message args none = b ≡ false
  Passes b w message args (some c) =
      (c.logger ≡ w.zap)
      × (c.message ≡ message)
      × (c.fields ≡ convert args)
      × (at_most (z.level w.zap) c.level ≡ b)

  log-Passes :
      (w : Wrapper Z) (level : Level) (message : String) (args : List (Arg V))
      → Passes (allows level w) w message args (log w level message args)
  unfolding log is_trace is_debug is_info is_warn is_error
  log-Passes w Level.trace message args = search
  log-Passes w Level.debug message args = search
  log-Passes w Level.info message args = search
  log-Passes w Level.warn message args = search
  log-Passes w Level.error message args = search
  log-Passes w Level.off message args = refl
  log-Passes w Level.no_level message args = search

  module _ (level_from_string : String → Level) (naming : IsNaming level_from_string) where
    log-own :
        (l : ZapLevel) (w : Wrapper Z) (message : String) (args : List (Arg V))
        → at_most l ZapLevel.error_level ≡ true
        → log w (own_level level_from_string l) message args ≡ some (call_at l w message args)
    unfolding log trace debug info warn error
    log-own ZapLevel.trace_level w message args h = refl
    log-own ZapLevel.debug_level w message args h = ap (λ v. log w v message args) naming.debug
    log-own ZapLevel.info_level w message args h = ap (λ v. log w v message args) naming.info
    log-own ZapLevel.warn_level w message args h = ap (λ v. log w v message args) naming.warn
    log-own ZapLevel.error_level w message args h = ap (λ v. log w v message args) naming.error
    log-own _ w message args h = cc

    -- Let hclog.LevelFromString know zap's names of the levels from debug to error, let the wrapped
    -- logger's level be one from trace to error, and let the caller of GetLevel not be go-plugin's
    -- logStderr. For every level of hclog, Log makes one call on the wrapped logger, with the
    -- message and the converted arguments, at a level that the logger writes exactly if the
    -- adapter's test for that level says so; for Off it makes none. And GetLevel returns the level
    -- at which Log calls with the logger's own level.
    pub get_level-log :
        (w : Wrapper Z) (level : Level) (caller message : String) (args : List (Arg V))
        → at_most (z.level w.zap) ZapLevel.error_level ≡ true
        → caller == "github.com/hashicorp/go-plugin.(*Client).logStderr" ≡ false
        → Passes (allows level w) w message args (log w level message args)
          × (log w (get_level level_from_string (some caller) w) message args
              ≡ some (call_at (z.level w.zap) w message args))
    unfolding get_level
    get_level-log w level caller message args h c =
        (log-Passes w level message args, rw c (log-own (z.level w.zap) w message args h))
