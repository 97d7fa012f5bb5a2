-- ===== src/Examples/Starts.antt =====
-- The start of the program, its loggers and the loading of the plugins: test data and runs.
use node_drain.Base.{
  String, true, false, refl, ◌≡◌, List, [], ◌∷◌, Result, ok, err, msg, Any, ◌==◌, if◌then◌else◌,
}
use node_drain.Base.Outcomes.{Outcome}
use node_drain.Config.{LogConfig, directory}
use node_drain.DrainManager.Loading.{Processes, DirEntry, empty, new_drain_manager}
use node_drain.DrainManager.Loading.Table.{IsTable}
use node_drain.DrainManager.Loading.Directory.{IsLoaded, new_drain_manager-IsLoaded}
use node_drain.Logging.{ZapLevel}
use node_drain.Logging.Loggers.{
  ZapConfig, capital_color_level_encoder, IsNamed, OtherLevel, get_named_logger,
  get_named_logger-IsNamed,
}
use node_drain.Start.{Flags, Environ, disable_http2, Launch, manager_options, main}
use node_drain.Start.Plan.{IsStopped, IsStarted, main-IsStarted, manager_options-disable_http2}

abbrev entries : List DirEntry
entries =
    record { name = "ceph.so"; is_dir = false; ext = ".so" }
    ∷ record { name = "README.md"; is_dir = false; ext = ".md" }
    ∷ []

abbrev processes : Processes
processes = record {
  named_logger = ok tt;
  new_client_set = ok tt;
  stat = directory;
  read_dir = ok entries;
  client = λ calls base. ok tt;
  ping = λ calls base. ok tt;
  dispense = λ calls base. ok true;
  plugin_info = λ calls base. ok (record { id = "ceph"; config_format = 1 });
  plugin_config = λ format id. ok "";
  init = λ calls base config. ok tt;
}

new_drain_manager-IsLoaded_example :
    Outcome (IsTable processes) (λ _. IsLoaded processes) (new_drain_manager processes empty)
new_drain_manager-IsLoaded_example = new_drain_manager-IsLoaded processes

abbrev parse_level : String → Result ZapLevel
parse_level text =
    if text == "debug" then ok ZapLevel.debug_level else err (msg "unrecognized level")

abbrev build : ZapConfig → Result (Unit {0})
build c = ok tt

abbrev to_lower : String → String
to_lower text = text

abbrev log_config : LogConfig
log_config = record {
  level = "info";
  format = "console";
  loggers = ("drain", record { level = "debug" }) ∷ [];
}

abbrev shared : ZapConfig
shared = record {
  level = ZapLevel.info_level;
  encoding = "console";
  encode_level = capital_color_level_encoder;
  disable_stacktrace = true;
}

get_named_logger-IsNamed_example :
    Outcome
      (OtherLevel parse_level build to_lower shared)
      (IsNamed parse_level build to_lower log_config "drain" shared)
      (get_named_logger parse_level build to_lower log_config "drain" shared)
get_named_logger-IsNamed_example =
    get_named_logger-IsNamed parse_level build to_lower log_config "drain" shared

abbrev flags : Flags
flags = record {
  metrics_addr = ":8443";
  probe_addr = ":8081";
  enable_leader_election = true;
  secure_metrics = true;
  webhook_cert_path = "/certs";
  webhook_cert_name = "tls.crt";
  webhook_cert_key = "tls.key";
  metrics_cert_path = "";
  metrics_cert_name = "tls.crt";
  metrics_cert_key = "tls.key";
  enable_http2 = false;
  manager_namespace = "";
  config_map_name = "nodedrain-config";
}

abbrev environ : Environ
environ = record { pod_namespace = ""; pod_nodename = "n2"; enable_webhooks = "" }

abbrev launches : Launch
launches = record { load_config = ok log_config; reply = λ steps s. ok tt }

main-IsStarted_example :
    Outcome
      (IsStopped launches flags environ)
      (λ _. IsStarted launches flags environ)
      (main launches flags environ [])
main-IsStarted_example = main-IsStarted launches flags environ

manager_options-disable_http2_example :
    Any (λ o. o ≡ disable_http2) (manager_options flags).metrics_tls
    × Any (λ o. o ≡ disable_http2) (manager_options flags).webhook_tls
manager_options-disable_http2_example = manager_options-disable_http2 flags refl
