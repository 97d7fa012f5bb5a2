-- ===== src/Cluster.antt =====
-- What the program calls and does not implement: the Kubernetes API, `drain.RunNodeDrain`, the
-- plugins' processes and the clock. Every call is recorded with its reply in a trace, newest
-- first, and the replies are functions of the trace so far: any behaviour of the cluster, with
-- failures at any call and changes between the calls, is such an environment.
pub mod Pods
pub mod Quiet
pub mod Hoare
pub mod Evidence
use node_drain.Base.{ℕ, String, Bool, Option, List, ◌∷◌, Result, Exec, ok}
use node_drain.Api.{Node}
use node_drain.Cluster.Pods.{Pod, PodSelector, NamespacedName}

-- A decoded JSON value, as `json.Unmarshal` leaves it in an `interface{}`.
mutual
  pub data Json : Type 0 where
    text : String → Json
    number : ℕ → Json
    array : Items → Json
    object : Fields → Json
    literal : String → Json

  pub data Items : Type 0 where
    nil : Items
    cons : Json → Items → Items

  pub data Fields : Type 0 where
    end : Fields
    field : String → Json → Fields → Fields

-- metav1.ManagedFieldsEntry; `fields_v1` holds `FieldsV1.Raw`
pub record ManagedField : Type 0 where
  pub manager : String
  pub subresource : String
  pub fields_v1 : Option String

-- corev1.NodeCondition
pub record KubeCondition : Type 0 where
  pub condition_type : String
  pub condition_status : String

-- corev1.Node, the fields that the program reads or writes
pub record KubeNode : Type 0 where
  pub name : String
  pub unschedulable : Bool
  pub boot_id : String
  pub conditions : List KubeCondition
  pub managed_fields : List ManagedField

-- corev1.PodPhase
pub data PodPhase : Type 0 where
  pending running succeeded failed unknown : PodPhase

-- corev1.Event types
pub data EventType : Type 0 where
  normal warning : EventType

-- One line of the event that the health checks record for a plugin.
pub data PluginStatus : Type 0 where
  failed_with : String → PluginStatus
  not_supported : String → PluginStatus
  refused : String → PluginStatus
  fine : String → PluginStatus

-- The calls with their replies. Patches carry the object before and after the change.
pub data Entry : Type 0 where
  got_kube_node : String → Result KubeNode → Entry
  got_node : String → Result Node → Entry
  listed_nodes : Result (List Node) → Entry
  created_node : Node → Result (Unit {0}) → Entry
  updated_node : Node → Result Node → Entry
  patched_node : Node → Node → Result Node → Entry
  patched_status : Node → Node → Result Node → Entry
  patched_kube_node : KubeNode → KubeNode → Result KubeNode → Entry
  found_kube_node : String → Result KubeNode → Entry
  listed_kube_nodes : Result (List KubeNode) → Entry
  created_pod : Pod → Result String → Entry
  deleted_pod : String → String → Result (Unit {0}) → Entry
  deleted_pods : PodSelector → Result (Unit {0}) → Entry
  got_pod : String → String → Result PodPhase → Entry
  executed : String → String → List String → Result (Unit {0}) → Entry
  drained_node : String → Result (Unit {0}) → Entry
  asked_supported : String → Result Bool → Entry
  asked_healthy : String → Result Bool → Entry
  asked_drain_ok : String → String → Result Bool → Entry
  ran_pre_drain : String → String → Result (Unit {0}) → Entry
  ran_post_drain : String → String → Result (Unit {0}) → Entry
  event : EventType → String → String → Entry
  plugin_event : EventType → String → String → List PluginStatus → Entry

abbrev pub Trace : Type 0
Trace = List Entry

-- Code that only makes calls.
abbrev pub Io : Type 0 → Type 0
Io A = Exec Trace A

-- The replies. `poll` is wait.PollUntilContextTimeout at one second's interval, 30 seconds long.
pub record Env : Type 0 where
  pub get_kube_node : Trace → String → Result KubeNode
  pub get_node : Trace → String → Result Node
  pub list_nodes : Trace → Result (List Node)
  pub create_node : Trace → Node → Result (Unit {0})
  pub update_node : Trace → Node → Result Node
  pub patch_node : Trace → Node → Node → Result Node
  pub patch_status : Trace → Node → Node → Result Node
  pub patch_kube_node : Trace → KubeNode → KubeNode → Result KubeNode
  pub set_owner_reference : KubeNode → Node → Result Node
  pub contains_finalizer : Node → String → Bool
  pub add_finalizer : Node → String → Node
  pub remove_finalizer : Node → String → Node
  pub new_client_set : Result (Unit {0})
  pub new_requirement : Result (Unit {0})
  pub find_kube_node : Trace → String → Result KubeNode
  pub list_kube_nodes : Trace → Result (List KubeNode)
  pub create_pod : Trace → Pod → Result String
  pub delete_pod : Trace → String → String → Result (Unit {0})
  pub delete_pods : Trace → PodSelector → Result (Unit {0})
  pub get_pod : Trace → String → String → Result PodPhase
  -- the name in the Pod that Get returns, which it also does beside an error
  pub pod_value : Trace → String → String → NamespacedName
  pub new_executor : Result (Unit {0})
  pub stream : Trace → String → String → List String → Result (Unit {0})
  pub poll : Io Bool → Io (Unit {0})
  pub run_node_drain : Trace → String → Result (Unit {0})
  pub hostname : Result String
  pub now : Trace → ℕ
  pub unmarshal : String → Result Json
  pub is_supported : Trace → String → Result Bool
  pub is_healthy : Trace → String → Result Bool
  pub is_drain_ok : Trace → String → String → Result Bool
  pub pre_drain : Trace → String → String → Result (Unit {0})
  pub post_drain : Trace → String → String → Result (Unit {0})

-- Makes a call: the reply is looked up in the trace so far and recorded.
unfoldable pub call : {A : Type 0} → (Trace → Result A) → (Result A → Entry) → Io A
call reply entry t = let r = reply t in (r, entry r ∷ t)

-- Records an entry that has no reply.
unfoldable pub record_entry : Entry → Io (Unit {0})
record_entry e t = (ok tt, e ∷ t)
