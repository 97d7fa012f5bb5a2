-- ===== src/Logging.antt =====
-- internal/utils/hclog.go: the adapter that gives go-plugin a zap logger, and the lines of JSON
-- that the plugins log.
pub mod Arguments
pub mod Lines
pub mod Loggers
pub mod Monitor
pub mod Wrapper
use node_drain.Base.{
  ℕ, zero, suc, ◌+◌, ◌-◌, String, Bool, true, false, not, ◌&&◌, ◌||◌, ◌≡◌, refl, ap, ◌==◌,
}
use node_drain.Base.{
  ltb, if◌then◌else◌, Error, msg, Result, ok, err, Option, none, some, List, [], ◌∷◌, map,
}
use node_drain.Cluster.{Json, Fields}
use node_drain.Controller.Queue.{lookup}

-- hclog.Level
pub data Level : Type 0 where
  no_level trace debug info warn error off : Level

-- zapcore.Level from config.TraceLevel on, and the number of a level above TraceLevel
pub data ZapLevel : Type 0 where
  trace_level debug_level info_level warn_level error_level dpanic_level panic_level fatal_level :
      ZapLevel

abbrev pub rank : ZapLevel → ℕ
rank ZapLevel.trace_level = 0
rank ZapLevel.debug_level = 1
rank ZapLevel.info_level = 2
rank ZapLevel.warn_level = 3
rank ZapLevel.error_level = 4
rank ZapLevel.dpanic_level = 5
rank ZapLevel.panic_level = 6
rank ZapLevel.fatal_level = 7

abbrev pub at_most : ZapLevel → ZapLevel → Bool
at_most a b = not (ltb (rank b) (rank a))

-- Log: the level at which the message is written, if it is
unfoldable pub log_level : Level → Option ZapLevel
log_level Level.trace = some ZapLevel.trace_level
log_level Level.debug = some ZapLevel.debug_level
log_level Level.info = some ZapLevel.info_level
log_level Level.warn = some ZapLevel.warn_level
log_level Level.error = some ZapLevel.error_level
log_level Level.off = none
log_level Level.no_level = some ZapLevel.info_level

-- IsTrace, IsDebug, IsInfo, IsWarn and IsError, for the logger's level
unfoldable pub is_trace : ZapLevel → Bool
is_trace l = at_most l ZapLevel.trace_level

unfoldable pub is_debug : ZapLevel → Bool
is_debug l = at_most l ZapLevel.debug_level

unfoldable pub is_info : ZapLevel → Bool
is_info l = at_most l ZapLevel.info_level

unfoldable pub is_warn : ZapLevel → Bool
is_warn l = at_most l ZapLevel.warn_level

unfoldable pub is_error : ZapLevel → Bool
is_error l = at_most l ZapLevel.error_level

-- getLevel
unfoldable pub get_level : String → ZapLevel
get_level s =
    if s == "trace" || s == "off"
    then ZapLevel.trace_level
    else if s == "debug"
    then ZapLevel.debug_level
    else if s == "warn"
    then ZapLevel.warn_level
    else if s == "error"
    then ZapLevel.error_level
    else ZapLevel.info_level

-- An argument of a log call: a string or another value.
pub data Arg (V : Type 0) : Type 0 where
  text : String → Arg V
  value : V → Arg V

-- The name of a field: a key, or `arg%d`.
pub data FieldName : Type 0 where
  keyed : String → FieldName
  numbered : ℕ → FieldName

-- What a line of a plugin leaves in the log.
pub data Logged : Type 0 where
  written : ZapLevel → String → Option ℕ → Fields → Logged
  -- the level is not enabled
  dropped : Logged
  failed : Error → Logged
  -- a type assertion on a value that is no string
  panicked : Logged

-- `delete(raw, key)`
unfoldable pub delete : String → Fields → Fields
delete key Fields.end = Fields.end
delete key (Fields.field k v fields) =
    let rest = delete key fields in if k == key then rest else Fields.field k v rest

-- `if v, ok := raw[key]; ok { … v.(string) … }`
pub data Found : Type 0 where
  absent : Found
  string : String → Found
  other_type : Found

abbrev pub string_of : Option Json → Found
string_of none = absent
string_of (some (Json.text s)) = string s
string_of (some _) = other_type

module _ (unmarshal : String → Result Fields) (parse_time : String → Result ℕ)
    (logger : ZapLevel) where
  -- The end of logJsonLog, after `time.Parse`.
  unfoldable pub stamp : ZapLevel → String → Fields → Result ℕ → Logged
  stamp level message raw (err e) = failed e
  stamp level message raw (ok t) = written level message (some t) (delete "@timestamp" raw)

  -- `@timestamp`, and the write
  unfoldable pub write_entry : ZapLevel → String → Fields → Found → Logged
  write_entry level message raw absent = written level message none raw
  write_entry level message raw other_type = panicked
  write_entry level message raw (string s) = stamp level message raw (parse_time s)

  -- `l.Check(level, msg)`
  unfoldable pub check_entry : ZapLevel → String → Fields → Logged
  check_entry level message raw =
      if at_most logger level
      then write_entry level message raw (string_of (lookup "@timestamp" raw))
      else dropped

  -- `@level`
  unfoldable pub read_level : String → Fields → Found → Logged
  read_level message raw absent = check_entry ZapLevel.info_level message raw
  read_level message raw other_type = panicked
  read_level message raw (string s) = check_entry (get_level s) message (delete "@level" raw)

  -- `@message`
  unfoldable pub read_message : Fields → Found → Logged
  read_message raw absent = read_level "" raw (string_of (lookup "@level" raw))
  read_message raw other_type = panicked
  read_message raw (string s) =
      let rest = delete "@message" raw in read_level s rest (string_of (lookup "@level" rest))

  unfoldable pub read_line : Result Fields → Logged
  read_line (err e) = failed e
  read_line (ok raw) = read_message raw (string_of (lookup "@message" raw))

  -- logJsonLog
  unfoldable pub log_json_log : String → Logged
  log_json_log line = read_line (unmarshal line)

  module _ (has_prefix : String → String → Bool) where
    -- The level of a line that is no JSON object of a log.
    unfoldable pub prefix_level : String → ZapLevel
    prefix_level line =
        if has_prefix line "[TRACE]"
        then ZapLevel.trace_level
        else if has_prefix line "[DEBUG]"
        then ZapLevel.debug_level
        else if has_prefix line "[INFO]"
        then ZapLevel.info_level
        else if has_prefix line "[WARN]"
        then ZapLevel.warn_level
        else if has_prefix line "[ERROR]"
        then ZapLevel.error_level
        else if has_prefix line "panic: " || has_prefix line "fatal error: "
        then ZapLevel.error_level
        else ZapLevel.info_level

    unfoldable pub log_plain : String → Logged
    log_plain line =
        let level = prefix_level line in
        if at_most logger level then written level line none Fields.end else dropped

    unfoldable pub or_plain : String → Logged → Logged
    or_plain line (failed e) = log_plain line
    or_plain line r = r

    -- The body of pluginOutputMonitor's loop, for a trimmed line that is not empty.
    unfoldable pub log_line : String → Logged
    log_line line = or_plain line (log_json_log line)
