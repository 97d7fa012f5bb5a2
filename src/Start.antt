-- ===== src/Start.antt =====
-- cmd/main.go: the program's start. The managers, the servers and the certificate watchers that it
-- builds are parameters: each step is recorded with what it is given, and may fail.
pub mod Plan
use node_drain.Base.{
  String, Bool, true, false, not, ◌≡◌, ◌==◌, Option, none, some, List, [], ◌∷◌, ◌++◌, if◌then◌else◌,
}
use node_drain.Base.{Result, ok, err, Exec, pure, ◌>>=◌, ◌>>◌}
use node_drain.Config.{LogConfig}
use node_drain.PodUtils.{get_field_owner}

-- The variables that the flags are read into.
pub record Flags : Type 0 where
  pub metrics_addr : String
  pub probe_addr : String
  pub enable_leader_election : Bool
  pub secure_metrics : Bool
  pub webhook_cert_path : String
  pub webhook_cert_name : String
  pub webhook_cert_key : String
  pub metrics_cert_path : String
  pub metrics_cert_name : String
  pub metrics_cert_key : String
  pub enable_http2 : Bool
  pub manager_namespace : String
  pub config_map_name : String

-- POD_NAMESPACE, POD_NODENAME and ENABLE_WEBHOOKS; a variable that is not set is empty
pub record Environ : Type 0 where
  pub pod_namespace : String
  pub pod_nodename : String
  pub enable_webhooks : String

-- The defaults of the flags.
unfoldable pub default_flags : Environ → Flags
default_flags environ = record {
  metrics_addr = "0";
  probe_addr = ":8081";
  enable_leader_election = false;
  secure_metrics = true;
  webhook_cert_path = "";
  webhook_cert_name = "tls.crt";
  webhook_cert_key = "tls.key";
  metrics_cert_path = "";
  metrics_cert_name = "tls.crt";
  metrics_cert_key = "tls.key";
  enable_http2 = false;
  manager_namespace = environ.pod_namespace;
  config_map_name = "nodedrain-config";
}

-- A function that changes a tls.Config: `NextProtos` is http/1.1 alone, or the certificates are
-- those that a watcher reads from two files of a directory.
pub data TlsOption : Type 0 where
  disable_http2 : TlsOption
  certificate_of : String → String → String → TlsOption

-- ctrl.Options, with the options of the two servers
pub record ManagerOptions : Type 0 where
  pub metrics_addr : String
  pub secure_metrics : Bool
  pub metrics_filter : Bool
  pub metrics_tls : List TlsOption
  pub webhook_tls : List TlsOption
  pub probe_addr : String
  pub leader_election : Bool
  pub leader_election_id : String
  pub config_map_namespace : String
  pub field_owner : String

pub data Step : Type 0 where
  loaded_config : Step
  built_logger : String → String → Step
  set_loggers : Step
  watched_webhook_certificate : String → String → String → Step
  watched_metrics_certificate : String → String → String → Step
  created_manager : ManagerOptions → Step
  created_reconciler : String → String → Step
  set_up_reconciler : Step
  set_up_webhook : Step
  added_metrics_watcher : Step
  added_webhook_watcher : Step
  added_health_check : Step
  added_ready_check : Step
  started_manager : Step

-- What a step returns may depend on the steps before it.
pub record Launch : Type 0 where
  pub load_config : Result LogConfig
  pub reply : List Step → Step → Result (Unit {0})

-- `if managerNamespace == "" { … }`, and the same for the name of the node
unfoldable pub or_default : String → String → String
or_default default value = if value == "" then default else value

-- `len(path) > 0`
abbrev pub is_set : String → Bool
is_set path = not (path == "")

-- tlsOpts
unfoldable pub tls_options : Flags → List TlsOption
tls_options f = if f.enable_http2 then [] else disable_http2 ∷ []

-- An append of the watcher's function, where there is a watcher.
unfoldable pub with_certificate : String → String → String → List TlsOption → List TlsOption
with_certificate path name key options =
    if is_set path then options ++ (certificate_of path name key ∷ []) else options

unfoldable pub manager_options : Flags → ManagerOptions
manager_options f =
    let namespace = or_default "default" f.manager_namespace in
    record {
      metrics_addr = f.metrics_addr;
      secure_metrics = f.secure_metrics;
      metrics_filter = f.secure_metrics;
      metrics_tls =
          with_certificate f.metrics_cert_path f.metrics_cert_name f.metrics_cert_key
            (tls_options f);
      webhook_tls =
          with_certificate f.webhook_cert_path f.webhook_cert_name f.webhook_cert_key
            (tls_options f);
      probe_addr = f.probe_addr;
      leader_election = f.enable_leader_election;
      leader_election_id = "223f13cc.k8s.slyng.dk";
      config_map_namespace = namespace;
      field_owner = get_field_owner namespace;
    }

module _ (l : Launch) where
  -- A step that ends the program where it fails.
  unfoldable pub must : Step → Exec (List Step) (Unit {0})
  must s st = (l.reply st s, s ∷ st)

  -- A step that cannot fail: setGlobalLoggers.
  unfoldable pub did : Step → Exec (List Step) (Unit {0})
  did s st = (ok tt, s ∷ st)

  unfoldable pub must_if : Bool → Step → Exec (List Step) (Unit {0})
  must_if b s = if b then must s else pure tt

  unfoldable pub load : Exec (List Step) LogConfig
  load st = (l.load_config, loaded_config ∷ st)

  -- The rest of `main`, from the logger on.
  unfoldable pub launch : Flags → Environ → LogConfig → Exec (List Step) (Unit {0})
  launch f environ conf = do
    must (built_logger conf.level conf.format)
    did set_loggers
    let node_name = or_default "no-node-name" environ.pod_nodename
    must_if (is_set f.webhook_cert_path)
        (watched_webhook_certificate f.webhook_cert_path f.webhook_cert_name f.webhook_cert_key)
    must_if (is_set f.metrics_cert_path)
        (watched_metrics_certificate f.metrics_cert_path f.metrics_cert_name f.metrics_cert_key)
    must (created_manager (manager_options f))
    must (created_reconciler (or_default "default" f.manager_namespace) node_name)
    must set_up_reconciler
    must_if (not (environ.enable_webhooks == "false")) set_up_webhook
    must_if (is_set f.metrics_cert_path) added_metrics_watcher
    must_if (is_set f.webhook_cert_path) added_webhook_watcher
    must added_health_check
    must added_ready_check
    must started_manager

  -- main
  unfoldable pub main : Flags → Environ → Exec (List Step) (Unit {0})
  main f environ = do conf ← load; launch f environ conf
