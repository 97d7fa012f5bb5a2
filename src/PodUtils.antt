-- ===== src/PodUtils.antt =====
-- internal/utils/utils.go: names, the lookup of a node, the conditions for which the program
-- polls, and a command in a pod.
use node_drain.Base.{String, Bool, true, false, Option, none, some, [], ◌∷◌, ◌<>◌}
use node_drain.Base.{msg, Result, ok, err, pure, lift, attempt, ◌>>=◌, ◌>>◌}
use node_drain.Cluster.{KubeNode, PodPhase, pending, running, succeeded, failed, unknown}
use node_drain.Cluster.{found_kube_node, got_pod, executed, Io, Env, call}

-- LabelPrefix, LabelComponent
abbrev pub label_prefix : String
label_prefix = "nodedrain.k8s.slyng.dk"

abbrev pub label_component : String
label_component = "nodedrain.k8s.slyng.dk/component"

-- GetFieldOwner
unfoldable pub get_field_owner : String → String
get_field_owner manager_namespace = manager_namespace <> "-manager"

abbrev phase_string : PodPhase → String
phase_string pending = "Pending"
phase_string running = "Running"
phase_string succeeded = "Succeeded"
phase_string failed = "Failed"
phase_string unknown = "Unknown"

-- The `switch` of IsPodCompleted.
unfoldable pub phase_completed : PodPhase → Result Bool
phase_completed failed = ok true
phase_completed succeeded = ok true
phase_completed _ = ok false

-- The `switch` of IsPodRunning.
unfoldable pub phase_running : PodPhase → Result Bool
phase_running failed = err (msg ("pod is in unexpected phase: " <> phase_string failed))
phase_running succeeded = err (msg ("pod is in unexpected phase: " <> phase_string succeeded))
phase_running running = ok true
phase_running _ = ok false

module _ (env : Env) where
  unfoldable pub get_pod : String → String → Io PodPhase
  get_pod namespace pod = call (λ t. env.get_pod t namespace pod) (got_pod namespace pod)

  -- IsPodCompleted
  unfoldable pub is_pod_completed : String → String → Io Bool
  is_pod_completed pod namespace = do phase ← get_pod namespace pod; lift (phase_completed phase)

  -- IsPodRunning
  unfoldable pub is_pod_running : String → String → Io Bool
  is_pod_running pod namespace = do phase ← get_pod namespace pod; lift (phase_running phase)

  -- ExecCmd
  unfoldable pub exec_cmd : String → String → String → Io (Unit {0})
  exec_cmd namespace pod command = do
    let cmd = "sh" ∷ "-c" ∷ command ∷ []
    lift env.new_executor
    call (λ t. env.stream t namespace pod cmd) (executed namespace pod cmd)

  -- GetNode: nil where the call fails
  unfoldable pub get_node : String → Io (Option KubeNode)
  get_node name = do
    found ← attempt (call (λ t. env.find_kube_node t name) (found_kube_node name))
    elim found [ ok n ↦ pure (some n) | err e ↦ pure none ]
