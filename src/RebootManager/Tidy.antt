-- ===== src/RebootManager/Tidy.antt =====
-- reboot-manager.go, IsRebootRequired and IsNodeRebooted: the pods that a check creates, and
-- `defer`.
use node_drain.Base.{
  String, Bool, true, ◌>>◌, ◌≡◌, refl, ◌⊎◌, inl, inr, ◌∷◌, Result, ok, err, wrapped, continue, msg,
  ◌<>◌,
}
use node_drain.Base.{Error, lift, none, some, deferring, wrapping, attempt, pure, fail, ◌>>=◌}
use node_drain.Cluster.{
  Entry, Trace, Env, Io, KubeNode, PodPhase, got_pod, created_pod, deleted_pod, call,
}
use node_drain.Cluster.Pods.{Pod, NamespacedName}
use node_drain.Cluster.Quiet.{Grows, same, more}
use node_drain.Settings.{Settings}
use node_drain.PodUtils.{get_pod, is_pod_completed}
use node_drain.RebootManager.{
  create_pod, delete_pod, reboot_required_pod, probe_reboot_required, remove_reboot_required,
  reboot_required_remove_pod,
}

-- The entry is no creation of a pod that succeeded.
abbrev CreatesNone : Entry → Type 0
CreatesNone (created_pod p (ok name)) = ⊥
CreatesNone _ = Unit {0}

-- From `t` on no pod was created, or one was, `m` ran for it, and its deletion is the newest call.
abbrev pub IsTidied : Settings → Pod → (String → Trace → Trace) → Trace → Trace → Type 0
IsTidied s pod m t u =
    Grows CreatesNone t u
    ⊎ ((name : String) × (before : Trace) × (r : Result (Unit {0})) × Grows CreatesNone t before
        × (u
            ≡ deleted_pod s.manager_namespace name r ∷ m name (created_pod pod (ok name) ∷ before)))

module _ (env : Env) (s : Settings) {A : Type 0} (pod : Pod) (text : String)
    (m : String → Io A) where
  created-IsTidied :
      (t w : Trace) (r : Result String)
      → Grows CreatesNone t w
      → IsTidied s pod
          (λ name v. (m name v).1)
          t
          (continue
            (wrapped text r)
            (λ name. deferring (delete_pod env s name) (m name))
            (created_pod pod r ∷ w)).1
  unfolding deferring delete_pod call
  created-IsTidied t w (ok name) g = inr (name, w, _, g, refl)
  created-IsTidied t w (err e) g = inl (more (created_pod pod (err e)) tt g)

  create_pod-IsTidied :
      (t w : Trace)
      → Grows CreatesNone t w
      → IsTidied s pod
          (λ name v. (m name v).1)
          t
          ((do name ← create_pod env s text pod; deferring (delete_pod env s name) (m name)) w).1
  unfolding create_pod wrapping call ◌>>=◌
  create_pod-IsTidied t w g = created-IsTidied t w (env.create_pod w pod) g

-- Documented of the client's Get: it returns the pod asked for, or an error and an empty Pod.
pub record IsGet (env : Env) : Type 0 where
  pub answers :
      (t : Trace) (n p : String) (phase : PodPhase)
      → env.get_pod t n p ≡ ok phase
      → (env.pod_value t n p).name ≡ p
  pub failures :
      (t : Trace) (n p : String) (e : Error)
      → env.get_pod t n p ≡ err e
      → (env.pod_value t n p).name ≡ ""

-- The name that the deferred function deletes is the name of the created pod, but where the newest
-- call was a read of this pod that failed: then it is empty.
abbrev pub Overwritten : Settings → String → String → Trace → Type 0
Overwritten s created name v =
    (name ≡ created)
    ⊎ ((w : Trace) × (e : Error) × (v ≡ got_pod s.manager_namespace created (err e) ∷ w)
        × (name ≡ ""))

-- From `t` on no pod was created, or one was, it was probed, and the newest call is the deletion
-- that was deferred.
abbrev pub IsReleased : Env → Settings → String → Trace → Trace → Type 0
IsReleased env s node t u =
    Grows CreatesNone t u
    ⊎ ((created : String) × (name : String) × (before : Trace) × (r : Result (Unit {0})) × Grows
          CreatesNone t before
        × (let v =
              (probe_reboot_required env s created
                (created_pod (reboot_required_pod s node) (ok created) ∷ before)).1 in
            (u ≡ deleted_pod s.manager_namespace name r ∷ v) × Overwritten s created name v))

module _ (env : Env) (s : Settings) where
  -- What a probe of a pod leaves: the variable, and a result that is no failure of its own.
  abbrev Ends : String → Result (NamespacedName × Result Bool) × Trace → Type 0
  Ends created (ok (pod, result), v) = Overwritten s created pod.name v
  Ends created (err e, v) = ⊥

  abbrev asked : String → NamespacedName
  asked created = record { namespace = s.manager_namespace; name = created }

module _ (env : Env) (s : Settings) (node : String) (get : IsGet env) where
  -- What follows a probe: the deferred deletion.
  abbrev after : NamespacedName × Result Bool → Io Bool
  after (pod, result) = do attempt (delete_pod env s pod.name); lift result

  -- What follows the lookup of the node in IsRebootRequired.
  abbrev rest : Result KubeNode → Io Bool
  rest r = do
    found ← elim r [ ok n ↦ pure (some n) | err e ↦ pure none ]
    elim found [
      | none ↦ fail (msg ("node don't exists in cluster: " <> node))
      | some n ↦ do
        created ←
            create_pod env s "failed to create reboot-required pod: " (reboot_required_pod s node)
        (pod, result) ← probe_reboot_required env s created
        attempt (delete_pod env s pod.name)
        lift result
    ]

module _ (env : Env) (s : Settings) (node : String) where
  -- What IsNodeRebooted does on containers between the creation of its pod and the deletion.
  abbrev pub await_removal : String → Io Bool
  await_removal pod = do
    wrapping "pod did not complete while waiting: "
        (env.poll (is_pod_completed env pod s.manager_namespace))
    pure true

  -- On every way out of the branch of IsNodeRebooted for nodes that are containers, either no pod
  -- was created, or the newest call deletes the pod that was created first, after the wait for this
  -- pod.
  pub remove_reboot_required-IsTidied :
      (t : Trace)
      → IsTidied s
          (reboot_required_remove_pod s node)
          (λ name v. (await_removal name v).1)
          t
          (remove_reboot_required env s node t).1
  unfolding remove_reboot_required
  remove_reboot_required-IsTidied t =
      create_pod-IsTidied env s (reboot_required_remove_pod s node)
        "failed to create reboot-required-remove pod: " await_removal t t same
