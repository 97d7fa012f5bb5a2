-- ===== src/RebootManager.antt =====
-- internal/utils/reboot-manager.go: the pods that test for a required reboot and that reboot a
-- node, and the removal of what they leave.
pub mod Quiet
pub mod Reboot
pub mod Cleanup
pub mod Tidy
use node_drain.Base.{String, Bool, true, false, ◌&&◌, not, none, some, List, [], ◌∷◌}
use node_drain.Base.{◌==◌, ◌<>◌, if◌then◌else◌, msg, wrap, ok, err, pure, fail, lift}
use node_drain.Base.{Result, gets, attempt, wrapping, deferring, ◌>>=◌, ◌>>◌}
use node_drain.Cluster.{
  PodPhase, KubeNode, KubeCondition, normal, warning, created_pod, deleted_pod,
}
use node_drain.Cluster.{deleted_pods, event, Io, Env, call, record_entry}
use node_drain.Cluster.Pods.{Pod, PodSelector, Toleration, NamespacedName}
use node_drain.Settings.{Settings}
use node_drain.PodUtils.{label_component, is_pod_completed, is_pod_running, get_pod, exec_cmd}
use node_drain.PodUtils.{get_node}

-- The two tolerations of both pods.
abbrev tolerations : List Toleration
tolerations =
    record {
      key = "node-role.kubernetes.io/control-plane";
      operator = "Exists";
      effect = "NoSchedule";
    }
    ∷ record {
      key = "node.kubernetes.io/unschedulable";
      operator = "Exists";
      effect = "NoSchedule";
    }
    ∷ []

-- rebootRequiredPod
unfoldable pub reboot_required_pod : Settings → String → Pod
reboot_required_pod s node = record {
  generate_name = "reboot-required-";
  namespace = s.manager_namespace;
  labels = (label_component, "reboot-required") ∷ [];
  host_mount = some (record {
    volume = "host-var-run";
    path = "/var/run/";
    mount_path = "/host/var/run";
    read_only = true;
  });
  container_name = "shell";
  image = "alpine";
  command = "sleep" ∷ "300" ∷ [];
  container_security = none;
  resources = s.container_resources;
  restart_policy = "Never";
  termination_grace_period = some 1;
  host_pid = false;
  node_name = node;
  security = record {
    run_as_user = some 1000;
    run_as_group = some 1000;
    run_as_non_root = some true;
    app_armor_profile = none;
  };
  tolerations = tolerations;
  priority_class_name = s.priority_class_name;
}

-- rebootNodePod
unfoldable pub reboot_node_pod : Settings → String → Pod
reboot_node_pod s node = record {
  generate_name = "reboot-";
  namespace = s.manager_namespace;
  labels = (label_component, "reboot") ∷ [];
  host_mount = none;
  container_name = "shell";
  image = "alpine";
  command = "kill" ∷ "-39" ∷ "1" ∷ [];
  container_security = some (record {
    add_capabilities = "CAP_KILL" ∷ [];
    allow_privilege_escalation = false;
    privileged = false;
    read_only_root_filesystem = true;
  });
  resources = s.container_resources;
  restart_policy = "Never";
  termination_grace_period = none;
  host_pid = true;
  node_name = node;
  security = record {
    run_as_user = none;
    run_as_group = none;
    run_as_non_root = none;
    app_armor_profile = some "Unconfined";
  };
  tolerations = tolerations;
  priority_class_name = s.priority_class_name;
}

-- The pod of IsNodeRebooted: the first pod with six fields changed.
unfoldable pub reboot_required_remove_pod : Settings → String → Pod
unfolding reboot_required_pod
reboot_required_remove_pod s node =
    let pod = reboot_required_pod s node in
    record pod {
      generate_name = "reboot-required-remove-";
      command = "rm" ∷ "-f" ∷ "/host/var/run/reboot-required" ∷ [];
      host_mount = some (record {
        volume = "host-var-run";
        path = "/var/run/";
        mount_path = "/host/var/run";
        read_only = false;
      });
      security = record pod.security { run_as_user = some 0; run_as_non_root = some false };
    }

-- The loop over the conditions in IsNodeRebooted.
unfoldable pub ready_seen : Bool → List KubeCondition → Bool
ready_seen ready [] = ready
ready_seen ready (c ∷ cs) =
    ready_seen (if c.condition_type == "Ready" && c.condition_status == "True" then true else ready)
      cs

-- The options of CleanupNode.
unfoldable pub cleanup_selector : Settings → String → PodSelector
cleanup_selector s node = record {
  in_namespace = s.manager_namespace;
  key = label_component;
  values = "reboot-required" ∷ "reboot" ∷ [];
  on_node = node;
}

module _ (env : Env) (s : Settings) where
  unfoldable pub create_pod : String → Pod → Io String
  create_pod text pod = wrapping text (call (λ t. env.create_pod t pod) (created_pod pod))

  unfoldable pub delete_pod : String → Io (Unit {0})
  delete_pod pod =
      call (λ t. env.delete_pod t s.manager_namespace pod) (deleted_pod s.manager_namespace pod)

  -- CleanupNode
  unfoldable pub cleanup_node : String → Io (Unit {0})
  cleanup_node node = if node == "" then fail (msg "node name is required") else (do
    lift env.new_requirement
    let selector = cleanup_selector s node
    wrapping "failed to delete pods: "
        (call (λ t. env.delete_pods t selector) (deleted_pods selector)))

  -- IsRebootRequired from the answer of the read on, which has overwritten the variable `pod`.
  unfoldable pub probe_pod : NamespacedName → Result PodPhase → Io (NamespacedName × Result Bool)
  probe_pod pod (err e) = pure (pod, err e)
  probe_pod pod (ok _) = do
    ran ← attempt (exec_cmd env pod.namespace pod.name "test -f /host/var/run/reboot-required")
    elim ran [ ok _ ↦ pure (pod, ok true) | err e ↦ pure (pod, ok false) ]

  -- From the answer of the poll on.
  unfoldable pub probe_running :
      NamespacedName → Result (Unit {0}) → Io (NamespacedName × Result Bool)
  probe_running pod (err e) = pure (pod, err e)
  probe_running pod (ok _) = do
    read ← gets (λ t. env.pod_value t pod.namespace pod.name)
    phase ←
        attempt
          (wrapping "failed to get reboot-required pod: " (get_pod env pod.namespace pod.name))
    probe_pod read phase

  -- The body of IsRebootRequired below the `defer`: the value that the variable `pod` has at the
  -- end, which the deferred function reads, and what is returned.
  unfoldable pub probe_reboot_required : String → Io (NamespacedName × Result Bool)
  probe_reboot_required created = do
    let pod : NamespacedName = record { namespace = s.manager_namespace; name = created }
    polled ← attempt (
        wrapping "pod did not complete while waiting: "
          (env.poll (is_pod_running env pod.name pod.namespace)))
    probe_running pod polled

  -- IsRebootRequired
  unfoldable pub is_reboot_required : String → Io Bool
  is_reboot_required node = do
    found ← get_node env node
    elim found [
      | none ↦ fail (msg ("node don't exists in cluster: " <> node))
      | some n ↦ do
        created ← create_pod "failed to create reboot-required pod: " (reboot_required_pod s node)
        (pod, result) ← probe_reboot_required created
        attempt (delete_pod pod.name)
        lift result
    ]

  -- RebootNode
  unfoldable pub reboot_node : String → Io (Unit {0})
  reboot_node node = do
    found ← get_node env node
    elim found [
      | none ↦ fail (msg ("node don't exists in cluster: " <> node))
      | some n ↦
          if not n.unschedulable
          then fail (msg ("node needs to be cordoned before reboot: " <> node))
          else if s.container_node
          then record_entry (event normal "Reboot" node)
          else (do
            record_entry (event normal "Reboot" node)
            created ← attempt (
                call (λ t. env.create_pod t (reboot_node_pod s node))
                  (created_pod (reboot_node_pod s node)))
            elim created [
              | ok _ ↦ pure tt
              | err e ↦ do
                record_entry (event warning "Reboot" node)
                fail (wrap "failed to create reboot pod: " e)
            ])
    ]

  -- The branch of IsNodeRebooted for nodes that are containers.
  unfoldable pub remove_reboot_required : String → Io Bool
  remove_reboot_required node = do
    pod ←
        create_pod "failed to create reboot-required-remove pod: "
          (reboot_required_remove_pod s node)
    deferring (delete_pod pod) (do
      wrapping "pod did not complete while waiting: "
          (env.poll (is_pod_completed env pod s.manager_namespace))
      pure true)

  -- IsNodeRebooted
  unfoldable pub is_node_rebooted : KubeNode → String → Io Bool
  is_node_rebooted n old_boot_id =
      if s.container_node
      then remove_reboot_required n.name
      else if n.boot_id == old_boot_id
      then pure false
      else if ready_seen false n.conditions
      then (do wrapping "failed to cleanup node after reboot: " (cleanup_node n.name); pure true)
      else pure false
