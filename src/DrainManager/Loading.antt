-- ===== src/DrainManager/Loading.antt =====
-- drain-manager.go: `NewDrainManager`, `loadPluginsFromDir` and `initPlugin`. go-plugin, the
-- plugins' processes, the directory and koanf are parameters.
pub mod Table
pub mod Directory
use node_drain.Base.{
  ℕ, zero, suc, String, Bool, true, false, ◌||◌, ◌≡◌, ◌==◌, Option, none, some, List, [], ◌∷◌,
  if◌then◌else◌,
}
use node_drain.Base.{
  msg, Result, ok, err, Exec, pure, fail, lift, wrapping, look, ◌>>=◌, ◌>>◌, ◌<>◌,
}
use node_drain.Rpc.{PluginInfo}
use node_drain.Config.{Stat, missing, broken, file, directory}

-- The calls to a plugin's process, by the name of its file.
pub data PluginCall : Type 0 where
  created_client : String → PluginCall
  connected : String → PluginCall
  pinged : String → PluginCall
  dispensed : String → PluginCall
  asked_info : String → PluginCall
  initialised : String → String → PluginCall

-- os.DirEntry
pub record DirEntry : Type 0 where
  pub name : String
  pub is_dir : Bool
  pub ext : String

-- drainClientInfo; the client is named by its file
pub record DrainClientInfo : Type 0 where
  pub client : String
  pub info : PluginInfo

-- The fields of DrainManager that the loading writes, and the calls that it makes, newest first.
pub record Tables : Type 0 where
  pub plugin_clients : List String
  pub drain_clients : List (String × DrainClientInfo)
  pub plugin_file_id : List (String × String)
  pub calls : List PluginCall

-- The replies. `dispense` says whether the plugin is a drain plugin; `init` gets the configuration.
pub record Processes : Type 0 where
  pub named_logger : Result (Unit {0})
  pub new_client_set : Result (Unit {0})
  pub stat : Stat
  pub read_dir : Result (List DirEntry)
  pub client : List PluginCall → String → Result (Unit {0})
  pub ping : List PluginCall → String → Result (Unit {0})
  pub dispense : List PluginCall → String → Result Bool
  pub plugin_info : List PluginCall → String → Result PluginInfo
  pub plugin_config : ℕ → String → Result String
  pub init : List PluginCall → String → String → Result (Unit {0})

abbrev pub empty : Tables
empty = record { plugin_clients = []; drain_clients = []; plugin_file_id = []; calls = [] }

-- Makes a call.
unfoldable pub plugin_call :
    {A : Type 0} → (List PluginCall → Result A) → PluginCall → Exec Tables A
plugin_call reply entry st = (reply st.calls, record st { calls = entry ∷ st.calls })

-- `_, ok := d.drainClients[id]`
unfoldable pub has_client : String → List (String × DrainClientInfo) → Bool
has_client id [] = false
has_client id ((i, c) ∷ cs) = i == id || has_client id cs

-- `format == ConfigFormat_CONFIG_FORMAT_UNSPECIFIED`
abbrev pub is_unspecified : ℕ → Bool
is_unspecified zero = true
is_unspecified (suc n) = false

-- The checks of what a plugin says of itself.
unfoldable pub check_info : String → PluginInfo → Exec Tables (Unit {0})
check_info base info =
    if info.id == ""
    then fail (msg ("drain plugin has no ID: " <> base))
    else if is_unspecified info.config_format
    then fail (msg ("drain plugin has no ConfigFormat: " <> base))
    else pure tt

-- The two assignments for a plugin that was initialised.
unfoldable pub add_client : String → PluginInfo → Exec Tables (Unit {0})
add_client base info st = (
  ok tt,
  record st {
    drain_clients = (info.id, record { client = base; info = info }) ∷ st.drain_clients;
    plugin_file_id = (base, info.id) ∷ st.plugin_file_id;
  },
)

unfoldable pub register : String → PluginInfo → Exec Tables (Unit {0})
register base info = look λ st.
    if has_client info.id st.drain_clients
    then fail (msg ("drain plugin already initialized: " <> base))
    else add_client base info

-- `d.pluginClients = foundClients`
unfoldable pub set_clients : List String → Exec Tables (Unit {0})
set_clients found st = (ok tt, record st { plugin_clients = found })

module _ (p : Processes) where
  -- initPlugin from the dispensed client on
  unfoldable pub init_client : String → Bool → Exec Tables PluginInfo
  init_client base false = fail (msg ("expected drain plugin: " <> base))
  init_client base true = do
    info ←
        wrapping "failed to get plugin info: "
          (plugin_call (λ c. p.plugin_info c base) (asked_info base))
    check_info base info
    config ←
        wrapping "failed to get plugin config bytes: "
          (lift (p.plugin_config info.config_format info.id))
    wrapping "failed to init plugin: "
        (plugin_call (λ c. p.init c base config) (initialised base config))
    pure info

  -- initPlugin
  unfoldable pub init_plugin : String → Exec Tables PluginInfo
  init_plugin base = do
    wrapping "failed to get client: " (plugin_call (λ c. p.client c base) (connected base))
    wrapping "failed to ping: " (plugin_call (λ c. p.ping c base) (pinged base))
    drain ← wrapping "failed to dispense: " (plugin_call (λ c. p.dispense c base) (dispensed base))
    init_client base drain

  -- The body of the loop for a file of a plugin.
  unfoldable pub load_plugin : String → Exec Tables (Unit {0})
  load_plugin base = do
    plugin_call (λ c. ok tt) (created_client base)
    info ← wrapping "failed to initialize plugin: " (init_plugin base)
    register base info

  -- The loop of loadPluginsFromDir, with `foundClients`, newest first.
  unfoldable pub load_entries : List DirEntry → List String → Exec Tables (Unit {0})
  load_entries [] found = set_clients found
  load_entries (e ∷ es) found =
      if e.is_dir
      then load_entries es found
      else if e.ext == ".so"
      then (do load_plugin e.name; load_entries es (e.name ∷ found))
      else load_entries es found

  unfoldable pub load_dir : Exec Tables (Unit {0})
  load_dir = do
    entries ← wrapping "failed to load plugins: " (lift p.read_dir)
    load_entries entries []

  -- What follows os.Stat.
  unfoldable pub load_found : Stat → Exec Tables (Unit {0})
  load_found missing = pure tt
  load_found (broken e) = fail e
  load_found (file name) = load_dir
  load_found directory = load_dir

  -- loadPluginsFromDir
  unfoldable pub load_plugins_from_dir : Exec Tables (Unit {0})
  load_plugins_from_dir = load_found p.stat

  -- NewDrainManager
  unfoldable pub new_drain_manager : Exec Tables (Unit {0})
  new_drain_manager = do
    lift p.named_logger
    lift p.new_client_set
    wrapping "failed to load plugins: " load_plugins_from_dir
