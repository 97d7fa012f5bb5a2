-- ===== src/Rpc.antt =====
-- api/plugins/drain-client.go and drain-server.go: the two ends of the calls to a plugin. The
-- optional fields of the messages are options; the stub and gRPC between the ends are a parameter.
pub mod Trip
use node_drain.Base.{ℕ, String, Bool, true, false, Option, none, some, Exec, pure, ◌>>=◌, ◌>>◌}

-- DrainPluginInfo; the number is the ConfigFormat
pub record PluginInfo : Type 0 where
  pub id : String
  pub config_format : ℕ

-- DrainPlugin, for a plugin with the state `S`
pub record DrainPlugin (S : Type 0) : Type 0 where
  pub plugin_info : Exec S PluginInfo
  pub init : String → Exec S (Unit {0})
  pub is_supported : Exec S Bool
  pub is_healthy : Exec S Bool
  pub is_drain_ok : String → Exec S Bool
  pub pre_drain : String → Exec S (Unit {0})
  pub post_drain : String → Exec S (Unit {0})

-- PluginInfoResponse
pub record InfoResponse : Type 0 where
  pub id : Option String
  pub config_format : Option ℕ

-- The generated getters: an absent field has its type's zero value.
abbrev pub get_string : Option String → String
get_string (some s) = s
get_string none = ""

abbrev pub get_bool : Option Bool → Bool
get_bool (some b) = b
get_bool none = false

abbrev pub get_format : Option ℕ → ℕ
get_format (some n) = n
get_format none = 0

-- DrainService: what the server registers, and what the client calls
pub record DrainService (S : Type 0) : Type 0 where
  pub plugin_info : Exec S InfoResponse
  pub init : Option String → Exec S (Unit {0})
  pub is_supported : Exec S (Option Bool)
  pub is_healthy : Exec S (Option Bool)
  pub is_drain_ok : Option String → Exec S (Option Bool)
  pub pre_drain : Option String → Exec S (Unit {0})
  pub post_drain : Option String → Exec S (Unit {0})

-- DrainServer
unfoldable pub serve : {S : Type 0} → DrainPlugin S → DrainService S
serve p = record {
  plugin_info = (do
    info ← p.plugin_info
    pure (record { id = some info.id; config_format = some info.config_format }));
  init = λ config. p.init (get_string config);
  is_supported = (do b ← p.is_supported; pure (some b));
  is_healthy = (do b ← p.is_healthy; pure (some b));
  is_drain_ok = λ name. (do b ← p.is_drain_ok (get_string name); pure (some b));
  pre_drain = λ name. p.pre_drain (get_string name);
  post_drain = λ name. p.post_drain (get_string name);
}

-- DrainClient; `deliver` makes one call
unfoldable pub connect :
    {S : Type 0} → ((A : Type 0) → Exec S A → Exec S A) → DrainService S → DrainPlugin S
connect deliver c = record {
  plugin_info = (do
    info ← deliver _ c.plugin_info
    pure (record { id = get_string info.id; config_format = get_format info.config_format }));
  init = λ config. (do deliver _ (c.init (some config)); pure tt);
  is_supported = (do resp ← deliver _ c.is_supported; pure (get_bool resp));
  is_healthy = (do resp ← deliver _ c.is_healthy; pure (get_bool resp));
  is_drain_ok = λ name. (do resp ← deliver _ (c.is_drain_ok (some name)); pure (get_bool resp));
  pre_drain = λ name. (do deliver _ (c.pre_drain (some name)); pure tt);
  post_drain = λ name. (do deliver _ (c.post_drain (some name)); pure tt);
}
