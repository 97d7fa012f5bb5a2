-- ===== src/Logging/Monitor.antt =====
-- drain-manager.go: the loop of pluginOutputMonitor over the lines of a plugin's output. The
-- scanner's lines, with what the table of the plugins' files has at each, are its input;
-- strings.TrimSpace is a parameter.
use node_drain.Base.{
  ℕ, String, Bool, true, false, ◌==◌, Option, none, some, List, [], ◌∷◌, Result, if◌then◌else◌,
}
use node_drain.Cluster.{Fields}
use node_drain.Logging.{ZapLevel, Logged, panicked, log_line}

-- What is logged, with the identifier of the plugin where the logger has it.
pub record Tagged : Type 0 where
  pub plugin_id : Option String
  pub logged : Logged

-- `if !addedPluginId { … }`: the first identifier that is found stays.
abbrev pub add_plugin_id : Option String → Option String → Option String
add_plugin_id (some id) found = some id
add_plugin_id none found = found

abbrev pub is_panic : Logged → Bool
is_panic panicked = true
is_panic _ = false

module _ (unmarshal : String → Result Fields) (parse_time : String → Result ℕ) (logger : ZapLevel)
    (has_prefix : String → String → Bool) (trim : String → String) where
  -- The loop; a panic ends the program.
  unfoldable pub monitor : Option String → List (String × Option String) → List Tagged
  monitor id [] = []
  monitor id ((text, found) ∷ lines) =
      if trim text == ""
      then monitor id lines
      else (let id' = add_plugin_id id found in
          let logged = log_line unmarshal parse_time logger has_prefix (trim text) in
          record { plugin_id = id'; logged = logged }
          ∷ (if is_panic logged then [] else monitor id' lines))
