-- ===== src/Examples/Parts.antt =====
-- The parts of the program on the test data.
use node_drain.Base.{[], ◌∷◌, ok, true, ◌≡◌, ◌↔◌, List, String, All, Result, ◌==◌}
use node_drain.Base.{ℕ, Bool, false, some, err, msg}
use node_drain.Cluster.{Fields, Json}
use node_drain.Logging.{Arg, value}
use node_drain.Logging.Arguments.{convert, arguments, fields, convert-fields}
use node_drain.Base.{Exec}
use node_drain.Api.{Node, NodeState}
use node_drain.Cluster.{Trace, asked_drain_ok}
use node_drain.Cluster.Hoare.{Hoare}
use node_drain.Cluster.Pods.{selects}
use node_drain.DrainManager.{is_healthy, is_drain_ok, check_nodes}
use node_drain.DrainManager.Agreement.{is_healthy-Hoare, is_drain_ok-Hoare, Healthy, Agreed}
use node_drain.DrainManager.Nodes.{check_nodes-IsReady, IsReady}
use node_drain.RebootManager.{
  cleanup_selector, reboot_required_pod, reboot_node_pod, reboot_required_remove_pod,
}
use node_drain.RebootManager.Cleanup.{cleanup_selector-selects}
use node_drain.Controller.Queue.{manager_of_unschedulable}
use node_drain.Controller.Queue.Managers.{IsFirst, manager_of_unschedulable-IsFirst}
use node_drain.Webhook.{node_object, default, Admitted, default-Admitted}
use node_drain.Config.{LogConfig, File, get_logger, HasLevel, get_logger-HasLevel, load_files}
use node_drain.Config.{yaml_names, load_all, load_files-loads}
use node_drain.Examples.{waiting, host, cluster, settings}

abbrev Anything : Trace → Type 0
Anything t = Unit {0}

is_healthy-Hoare_example :
    Hoare Anything Anything
      (is_healthy (cluster waiting) ("ceph" ∷ []) "n1")
      (λ b t. b ≡ true → Healthy ("ceph" ∷ []) t)
is_healthy-Hoare_example = is_healthy-Hoare (cluster waiting) ("ceph" ∷ []) "n1"

is_drain_ok-Hoare_example :
    Hoare Anything Anything
      (is_drain_ok (cluster waiting) ("ceph" ∷ []) "n1")
      (λ b t. b ≡ true → All (λ id. Agreed (λ i. asked_drain_ok i "n1") id t) ("ceph" ∷ []))
is_drain_ok-Hoare_example = is_drain_ok-Hoare (cluster waiting) ("ceph" ∷ []) "n1"

check_nodes-IsReady_example : (check_nodes true (host ∷ []) ≡ true) ↔ All IsReady (host ∷ [])
check_nodes-IsReady_example = check_nodes-IsReady (host ∷ [])

cleanup_selector-selects_example :
    (selects (cleanup_selector settings "n1") (reboot_required_pod settings "n2") ≡ "n2" == "n1")
    × (selects (cleanup_selector settings "n1") (reboot_node_pod settings "n2") ≡ "n2" == "n1")
    × (selects (cleanup_selector settings "n1") (reboot_required_remove_pod settings "n2")
        ≡ "n2" == "n1")
cleanup_selector-selects_example = cleanup_selector-selects settings "n1" "n2"

manager_of_unschedulable-IsFirst_example :
    IsFirst (cluster waiting) host.managed_fields (manager_of_unschedulable (cluster waiting) host)
manager_of_unschedulable-IsFirst_example = manager_of_unschedulable-IsFirst (cluster waiting) host

abbrev stateless : Node
stateless = record waiting { state = NodeState.other "" }

abbrev found : String → Result Node
found name = ok waiting

default-Admitted_example :
    Admitted stateless (found stateless.name) (default found (node_object stateless))
default-Admitted_example = default-Admitted found stateless

abbrev log_config : LogConfig
log_config = record {
  level = "info";
  format = "json";
  loggers = ("drain", record { level = "debug" }) ∷ [];
}

get_logger-HasLevel_example : HasLevel log_config "drain" (get_logger log_config "drain").level
get_logger-HasLevel_example = get_logger-HasLevel log_config "drain"

abbrev load_name : String → Exec (List String) (Unit {0})
load_name name names = (ok tt, name ∷ names)

abbrev files : List File
files = record { name = "a.yaml"; ext = ".yaml" } ∷ record { name = "b.txt"; ext = ".txt" } ∷ []

load_files-loads_example :
    load_files load_name files [] ≡ (ok tt, load_all load_name (yaml_names files) [])
load_files-loads_example = load_files-loads load_name files []

-- A line of JSON.
abbrev decoded : String → Result Fields
decoded line = ok (
    Fields.field "@message" (Json.text "started")
      (Fields.field "@level" (Json.text "debug") Fields.end))

abbrev no_time : String → Result ℕ
no_time stamp = err (msg "cannot parse")

abbrev no_prefix : String → String → Bool
no_prefix line prefix = false

abbrev pairs : List (String × Arg ℕ)
pairs = ("b", value 2) ∷ ("a", value 1) ∷ []

convert-fields_example : convert (arguments (some (value 0)) pairs) ≡ fields (some (value 0)) pairs
convert-fields_example = convert-fields (some (value 0)) pairs
