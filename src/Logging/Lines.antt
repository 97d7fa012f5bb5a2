-- ===== src/Logging/Lines.antt =====
-- hclog.go and drain-manager.go, `logJsonLog` and the body of the loop of pluginOutputMonitor: what
-- becomes of a line of a plugin, by what the line says.
use node_drain.Base.{
  ℕ, String, Bool, true, false, ◌≡◌, ◌⊎◌, [], ◌∷◌, Any, Option, none, some, Result, ok, err, Error,
}
use node_drain.Cluster.{Json, Fields}
use node_drain.Controller.Queue.{lookup}
use node_drain.Logging.{
  ZapLevel, at_most, get_level, Logged, written, dropped, failed, panicked, prefix_level,
}

abbrev IsText : Json → Type 0
IsText v = (s : String) × (v ≡ Json.text s)

-- The object has a value under one of the three keys that is no string.
abbrev HasOther : Fields → Type 0
HasOther raw =
    (key : String) × (v : Json) × Any (λ k. k ≡ key) ("@message" ∷ "@level" ∷ "@timestamp" ∷ [])
    × (lookup key raw ≡ some v)
    × (¬ IsText v)

-- The level that the object names, and info where it names none.
abbrev LevelOf : Fields → ZapLevel → Type 0
LevelOf raw level =
    (lookup "@level" raw ≡ none) × (level ≡ ZapLevel.info_level)
    ⊎ ((s : String) × (lookup "@level" raw ≡ some (Json.text s)) × (level ≡ get_level s))

abbrev MessageOf : Fields → String → Type 0
MessageOf raw m =
    (lookup "@message" raw ≡ none) × (m ≡ "") ⊎ (lookup "@message" raw ≡ some (Json.text m))

module _ (unmarshal : String → Result Fields) (parse_time : String → Result ℕ)
    (logger : ZapLevel) where
  abbrev TimeOf : Fields → Option ℕ → Type 0
  TimeOf raw t =
      (lookup "@timestamp" raw ≡ none) × (t ≡ none)
      ⊎ ((s : String) × (n : ℕ) × (lookup "@timestamp" raw ≡ some (Json.text s))
          × (parse_time s ≡ ok n)
          × (t ≡ some n))

  -- The object has a time that does not parse.
  abbrev HasBadTime : Fields → Type 0
  HasBadTime raw =
      (s : String) × (e : Error) × (lookup "@timestamp" raw ≡ some (Json.text s))
      × (parse_time s ≡ err e)

  -- What becomes of an object.
  abbrev JsonLogs : Fields → Logged → Type 0
  JsonLogs raw (written level m t f) =
      (at_most logger level ≡ true) × LevelOf raw level × MessageOf raw m × TimeOf raw t
  JsonLogs raw dropped = (level : ZapLevel) × (at_most logger level ≡ false) × LevelOf raw level
  JsonLogs raw panicked = HasOther raw
  JsonLogs raw (failed e) = HasBadTime raw

  module _ (has_prefix : String → String → Bool) where
    -- The line is no JSON object, or one with a time that does not parse.
    abbrev IsPlain : String → Type 0
    IsPlain line =
        ((e : Error) × (unmarshal line ≡ err e))
        ⊎ ((raw : Fields) × (unmarshal line ≡ ok raw) × HasBadTime raw)

    abbrev PlainLevel : String → ZapLevel → Type 0
    PlainLevel line level =
        IsPlain line × (level ≡ prefix_level unmarshal parse_time logger has_prefix line)

    -- What becomes of a line.
    abbrev pub Logs : String → Logged → Type 0
    Logs line (written level m t f) =
        (at_most logger level ≡ true)
        × (PlainLevel line level × (m ≡ line) × (t ≡ none) × (f ≡ Fields.end)
            ⊎ ((raw : Fields) × (unmarshal line ≡ ok raw)
                × LevelOf raw level
                × MessageOf raw m
                × TimeOf raw t))
    Logs line dropped =
        (level : ZapLevel) × (at_most logger level ≡ false)
        × (PlainLevel line level ⊎ ((raw : Fields) × (unmarshal line ≡ ok raw) × LevelOf raw level))
    Logs line panicked = (raw : Fields) × (unmarshal line ≡ ok raw) × HasOther raw
    Logs line (failed e) = ⊥
