-- ===== src/RebootManager/Quiet.antt =====
-- reboot-manager.go: the kinds of calls that the manager makes, with what is documented of polling.
use node_drain.Base.{Result, String, Bool, false, ◌==◌, ◌≡◌, refl, none, some, ok, err}
use node_drain.Base.Keeps.{
  Keeps, Keeps-bind, Keeps-pure, Keeps-attempt, Keeps-fail, Keeps-lift, Keeps-if, Keeps-wrapping,
  Keeps-gets, Keeps-deferring,
}
use node_drain.Cluster.{PodPhase, KubeNode, Trace, Io, Env}
use node_drain.Cluster.Pods.{Pod, NamespacedName}
use node_drain.Cluster.Quiet.{Grows, IsAside, is_reboot_pod, Keeps-call}
use node_drain.Settings.{Settings}
use node_drain.PodUtils.{get_pod, is_pod_completed, is_pod_running, exec_cmd, get_node}
use node_drain.RebootManager.{
  create_pod, delete_pod, cleanup_node, probe_pod, probe_running, probe_reboot_required,
  is_reboot_required, remove_reboot_required, is_node_rebooted, ready_seen, reboot_required_pod,
  reboot_required_remove_pod,
}

-- Documented of PollUntilContextTimeout: it calls the condition, any number of times.
pub record IsPolling (env : Env) : Type 1 where
  pub keeps : (P : Trace → Type 0) (c : Io Bool) → Keeps P c → Keeps P (env.poll c)

module _ (env : Env) {t : Trace} where
  get_pod-IsQuiet : (n p : String) → Keeps (Grows IsAside t) (get_pod env n p)
  unfolding get_pod
  get_pod-IsQuiet n p = Keeps-call _ _ (λ r. refl)

  is_pod_completed-IsQuiet : (p n : String) → Keeps (Grows IsAside t) (is_pod_completed env p n)
  unfolding is_pod_completed
  is_pod_completed-IsQuiet p n = Keeps-bind _ _ (get_pod-IsQuiet n p) (λ _. Keeps-lift _)

  is_pod_running-IsQuiet : (p n : String) → Keeps (Grows IsAside t) (is_pod_running env p n)
  unfolding is_pod_running
  is_pod_running-IsQuiet p n = Keeps-bind _ _ (get_pod-IsQuiet n p) (λ _. Keeps-lift _)

  exec_cmd-IsQuiet : (n p c : String) → Keeps (Grows IsAside t) (exec_cmd env n p c)
  unfolding exec_cmd
  exec_cmd-IsQuiet n p c = Keeps-bind _ _ (Keeps-lift _) (λ _. Keeps-call _ _ (λ r. refl))

  get_node-IsQuiet : (n : String) → Keeps (Grows IsAside t) (get_node env n)
  unfolding get_node
  get_node-IsQuiet n =
      Keeps-bind _ _ (Keeps-attempt _ (Keeps-call _ _ (λ r. refl)))
        (elim [ ok k ↦ Keeps-pure _ | err e ↦ Keeps-pure _ ])

module _ (env : Env) (s : Settings) {t : Trace} where
  create_pod-IsQuiet :
      (text : String) (p : Pod)
      → is_reboot_pod p ≡ false
      → Keeps (Grows IsAside t) (create_pod env s text p)
  unfolding create_pod
  create_pod-IsQuiet text p h = Keeps-wrapping _ _ (Keeps-call _ _ (λ r. rw h))

  delete_pod-IsQuiet : (p : String) → Keeps (Grows IsAside t) (delete_pod env s p)
  unfolding delete_pod
  delete_pod-IsQuiet p = Keeps-call _ _ (λ r. refl)

  pub cleanup_node-IsQuiet : (node : String) → Keeps (Grows IsAside t) (cleanup_node env s node)
  unfolding cleanup_node
  cleanup_node-IsQuiet node =
      Keeps-if (node == "") _ _ (λ _. Keeps-fail _)
        (λ _. Keeps-bind _ _ (Keeps-lift _) (λ _. Keeps-wrapping _ _ (Keeps-call _ _ (λ r. refl))))

  module _ (polling : IsPolling env) where
    probe_pod-IsQuiet :
        (pod : NamespacedName) (r : Result PodPhase)
        → Keeps (Grows IsAside t) (probe_pod env s pod r)
    unfolding probe_pod
    probe_pod-IsQuiet pod (err e) = Keeps-pure _
    probe_pod-IsQuiet pod (ok phase) =
        Keeps-bind _ _ (Keeps-attempt _ (exec_cmd-IsQuiet env _ _ _))
          (elim [ ok _ ↦ Keeps-pure _ | err e ↦ Keeps-pure _ ])

    probe_running-IsQuiet :
        (pod : NamespacedName) (r : Result (Unit {0}))
        → Keeps (Grows IsAside t) (probe_running env s pod r)
    unfolding probe_running
    probe_running-IsQuiet pod (err e) = Keeps-pure _
    probe_running-IsQuiet pod (ok _) = Keeps-bind _ _ (Keeps-gets _) (λ read.
        Keeps-bind _ _ (Keeps-attempt _ (Keeps-wrapping _ _ (get_pod-IsQuiet env _ _)))
          (λ phase. probe_pod-IsQuiet read phase))

    probe_reboot_required-IsQuiet :
        (created : String) → Keeps (Grows IsAside t) (probe_reboot_required env s created)
    unfolding probe_reboot_required
    probe_reboot_required-IsQuiet created =
        Keeps-bind _ _
          (Keeps-attempt _
            (Keeps-wrapping _ _ (polling.keeps _ _ (is_pod_running-IsQuiet env created _))))
          (λ polled. probe_running-IsQuiet _ polled)

    pub is_reboot_required-IsQuiet :
        (node : String) → Keeps (Grows IsAside t) (is_reboot_required env s node)
    unfolding is_reboot_required reboot_required_pod
    is_reboot_required-IsQuiet node = Keeps-bind _ _ (get_node-IsQuiet env node) (elim [
      | none ↦ Keeps-fail _
      | some k ↦ Keeps-bind _ _ (create_pod-IsQuiet _ _ refl) (λ created.
          Keeps-bind _ _ (probe_reboot_required-IsQuiet created)
            (λ probed. Keeps-bind _ _ (Keeps-attempt _ (delete_pod-IsQuiet _)) (λ _. Keeps-lift _)))
    ])

    remove_reboot_required-IsQuiet :
        (node : String) → Keeps (Grows IsAside t) (remove_reboot_required env s node)
    unfolding remove_reboot_required reboot_required_remove_pod
    remove_reboot_required-IsQuiet node = Keeps-bind _ _ (create_pod-IsQuiet _ _ refl) (λ pod.
        Keeps-deferring _ _ (delete_pod-IsQuiet pod) (
          Keeps-bind _ _
            (Keeps-wrapping _ _ (polling.keeps _ _ (is_pod_completed-IsQuiet env pod _)))
            (λ _. Keeps-pure _)))

    pub is_node_rebooted-IsQuiet :
        (k : KubeNode) (id : String) → Keeps (Grows IsAside t) (is_node_rebooted env s k id)
    unfolding is_node_rebooted
    is_node_rebooted-IsQuiet k id =
        Keeps-if s.container_node _ _ (λ _. remove_reboot_required-IsQuiet k.name)
          (λ _.
            Keeps-if (k.boot_id == id) _ _ (λ _. Keeps-pure _)
              (λ _.
                Keeps-if (ready_seen false k.conditions) _ _
                  (λ _.
                    Keeps-bind _ _ (Keeps-wrapping _ _ (cleanup_node-IsQuiet k.name))
                      (λ _. Keeps-pure _))
                  (λ _. Keeps-pure _)))
