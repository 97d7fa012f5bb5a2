-- ===== src/Examples.antt =====
-- A cluster with two nodes, of which one waits for its drain: test data.
pub mod Runs
pub mod Parts
pub mod Calls
pub mod Server
pub mod Starts
pub mod Goals
pub mod Returns
pub mod Settles
pub mod Reboots
use node_drain.Base.{
  ℕ, String, Bool, true, false, Option, none, some, List, [], ◌∷◌, ok, err, msg, ◌==◌,
}
use node_drain.Base.{not_found, Result}
use node_drain.Api.{Node, NodeState, NodeCurrentState}
use node_drain.Cluster.{Env, KubeNode, KubeCondition, ManagedField, PodPhase, Json, Fields, Io}
use node_drain.Settings.{Settings, pos}
use node_drain.Base.Keeps.{Keeps}
use node_drain.RebootManager.Quiet.{IsPolling}
use node_drain.Controller.Diagram.{IsUndisturbed}

abbrev pub waiting : Node
waiting = record {
  name = "n1";
  deletion_timestamp = none;
  finalizers = [];
  owner_references = [];
  state = NodeState.drained;
  status = record {
    conditions = [];
    reboot_required_last_checked = none;
    reboot_required = none;
    drained = false;
    current_state = NodeCurrentState.next;
    boot_id = "";
  };
}

abbrev pub queued : Node
queued = record waiting {
  status = record waiting.status { current_state = NodeCurrentState.queued };
}

-- A drained node that is to be rebooted.
abbrev pub drained : Node
drained = record waiting {
  state = NodeState.reboot_if_required;
  status = record waiting.status {
    drained = true;
    current_state = NodeCurrentState.drained;
    reboot_required = some true;
    reboot_required_last_checked = some 999_999_999_999;
  };
}

abbrev pub claim : ManagedField
claim = record { manager = "kubectl"; subresource = ""; fields_v1 = some "spec" }

abbrev pub ready : KubeCondition
ready = record { condition_type = "Ready"; condition_status = "True" }

abbrev pub host : KubeNode
host = record {
  name = "n1";
  unschedulable = true;
  boot_id = "b1";
  conditions = ready ∷ [];
  managed_fields = claim ∷ [];
}

abbrev pub unschedulable_claim : Json
unschedulable_claim = Json.object (
    Fields.field "f:spec"
      (Json.object (Fields.field "f:unschedulable" (Json.object Fields.end) Fields.end)) Fields.end)

abbrev pub once : Io Bool → Io (Unit {0})
once c t = (ok tt, (c t).1)

abbrev pub cluster : Node → Env
cluster node = record {
  get_kube_node = λ t name. ok host;
  get_node = λ t name. ok node;
  list_nodes = λ t. ok (queued ∷ []);
  create_node = λ t n. ok tt;
  update_node = λ t n. ok n;
  patch_node = λ t b m. ok m;
  patch_status = λ t b m. ok m;
  patch_kube_node = λ t b m. ok m;
  set_owner_reference = λ k n. ok n;
  contains_finalizer = λ n f. false;
  add_finalizer = λ n f. n;
  remove_finalizer = λ n f. n;
  new_client_set = ok tt;
  new_requirement = ok tt;
  find_kube_node = λ t name. ok host;
  list_kube_nodes = λ t. ok (host ∷ []);
  create_pod = λ t p. ok "pod";
  delete_pod = λ t n p. ok tt;
  delete_pods = λ t s. ok tt;
  get_pod = λ t n p. ok PodPhase.running;
  pod_value = λ t n p. record { namespace = n; name = p };
  new_executor = ok tt;
  stream = λ t n p c. ok tt;
  poll = once;
  run_node_drain = λ t name. ok tt;
  hostname = ok "controller";
  now = λ t. 1_000_000_000_000;
  unmarshal = λ raw. ok unschedulable_claim;
  is_supported = λ t id. ok true;
  is_healthy = λ t id. ok true;
  is_drain_ok = λ t id n. ok true;
  pre_drain = λ t id n. ok tt;
  post_drain = λ t id n. ok tt;
}

abbrev pub settings : Settings
settings = record {
  manager_namespace = "node-drain";
  own_node = "n2";
  container_node = false;
  reboot_check_interval = pos 3_600_000_000_000;
  container_resources = record { requests = none; limits = none };
  priority_class_name = "";
  plugins = "ceph" ∷ [];
}

pub cluster-IsPolling : (node : Node) → IsPolling (cluster node)
cluster-IsPolling node = record { keeps = λ P c k. record { at = λ t h. k.at t h } }

pub cluster-IsUndisturbed : (node : Node) → IsUndisturbed (cluster node)
cluster-IsUndisturbed node = record {
  status_answer = λ t b m r e. (cc, cc, cc, cc);
  spec_answer = λ t b m r e. (cc, cc, cc, cc);
}
