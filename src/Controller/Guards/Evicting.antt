-- ===== src/Controller/Guards/Evicting.antt =====
-- node_controller.go and drain-manager.go: the guard of a drain along a run of `Reconcile`.
use node_drain.Base.{String, true, false, refl, ◌≡◌, ◌==◌, inl, All, ok, err}
use node_drain.Base.Keeps.{Keeps}
use node_drain.Cluster.{
  event, normal, Entry, Trace, Env, ran_pre_drain, drained_node, deleted_pods, call,
}
use node_drain.Cluster.Quiet.{IsAside}
use node_drain.Cluster.Hoare.{
  Hoare, Hoare-pure, Hoare-fail, Hoare-bind, Hoare-attempt, Hoare-call, Hoare-entry, Hoare-conclude,
  Hoare-lift, Hoare-if, Hoare-wrapping, Hoare→Keeps,
}
use node_drain.Cluster.Evidence.{Lately, Lasts, Lately-Lasts, All-Lasts, Throughout}
use node_drain.Settings.{Settings}
use node_drain.DrainManager.Evidence.{Cleared, run_hooks-Hoare}
use node_drain.DrainManager.{run_pre_drain}
use node_drain.RebootManager.{cleanup_node, cleanup_selector, reboot_node}
use node_drain.RebootManager.Quiet.{IsPolling}
use node_drain.RebootManager.Reboot.{reboot_node-Keeps}
use node_drain.Controller.{reconcile}
use node_drain.Controller.Drain.{evict}
use node_drain.Controller.Guards.{DrainGuard}
use node_drain.Controller.Walk.{is_write}
use node_drain.Controller.Walk.Plain.{IsKept, plain, plain-IsEntered}
use node_drain.Controller.Walk.Whole.{reconcile-I}

module _ (env : Env) (s : Settings) where
  abbrev pub Drains : Trace → Type 0
  Drains = Throughout (DrainGuard s)

  guard-aside : (e : Entry) (t : Trace) → IsAside e → DrainGuard s e t
  guard-aside (drained_node n r) t q = cc
  guard-aside _ t q = tt

  Drains-Lasts : Lasts Drains
  Drains-Lasts e t q h = (guard-aside e t q, h)

  guard-write : (e : Entry) (t : Trace) → is_write e ≡ true → DrainGuard s e t
  guard-write (drained_node n r) t q = cc
  guard-write _ t q = tt

  abbrev Hooked : String → Trace → Type 0
  Hooked n t = All (λ id. Cleared (λ i. ran_pre_drain i n) id t) s.plugins

  Hooked-Lasts : (n : String) → Lasts (Hooked n)
  Hooked-Lasts n = All-Lasts _ (λ id. Lately-Lasts _) s.plugins

  abbrev Cleaned : String → Trace → Type 0
  Cleaned n = Lately λ e. e ≡ deleted_pods (cleanup_selector s n) (ok tt)

  run_pre_drain-Hoare :
      (n : String) → Hoare Drains (λ _. Unit {0}) (run_pre_drain env s.plugins n) (λ _. Hooked n)
  unfolding run_pre_drain
  run_pre_drain-Hoare n =
      Hoare-bind (λ _. Hooked n) _ _
        (Hoare-conclude (λ a t q. q.1)
          (run_hooks-Hoare Drains-Lasts env (λ i. ran_pre_drain i n) (λ i r. refl)
            (λ i t. env.pre_drain t i n) _ _ n s.plugins (λ e t q h. h)))
        (λ _. Hoare-entry _ (λ t i p. (
          Drains-Lasts (event normal "PreDrain" n) t refl i,
          Hooked-Lasts n (event normal "PreDrain" n) t refl p,
        )))

  cleanup_node-Hoare :
      (n : String)
      → Hoare Drains (Hooked n) (cleanup_node env s n) (λ _ t. Hooked n t × Cleaned n t)
  unfolding cleanup_node
  cleanup_node-Hoare n =
      Hoare-if (n == "") _ _ (λ _. Hoare-fail _)
        (λ _.
          Hoare-bind (λ _. Hooked n) _ _ (Hoare-lift _ (λ a t e p. p))
            (λ _. Hoare-wrapping _ _ (
              Hoare-call _ _
                (λ r t i p. Drains-Lasts (deleted_pods (cleanup_selector s n) r) t refl i)
                (λ a t i p. (
                  Hooked-Lasts n (deleted_pods (cleanup_selector s n) (ok tt)) t refl p,
                  inl refl,
                )))))

  drain-Hoare :
      (n : String)
      → s.own_node == n ≡ false
      → Hoare Drains
          (λ t. Hooked n t × Cleaned n t)
          (call (λ t. env.run_node_drain t n) (drained_node n))
          (λ _ _. Unit {0})
  drain-Hoare n e = Hoare-call _ _ (λ r t i p. ((e, p.0, p.1), i)) (λ a t i p. tt)

  -- Where `evict` runs on another node than the controller's, it keeps the guards.
  evict-Keeps : (n : String) → s.own_node == n ≡ false → Keeps Drains (evict env s n)
  unfolding evict
  evict-Keeps n e = Hoare→Keeps {Q = λ _ _. Unit {0}} _ (
      Hoare-bind (λ _. Hooked n) _ _ (Hoare-wrapping _ _ (run_pre_drain-Hoare n))
        (λ _.
          Hoare-bind (λ _. Hooked n) _ _ (Hoare-lift _ (λ a t q p. p))
            (λ _.
              Hoare-bind (λ _ t. Hooked n t × Cleaned n t) _ _
                (Hoare-wrapping _ _ (cleanup_node-Hoare n))
                (λ _.
                  Hoare-bind _ _ _ (Hoare-attempt _ (drain-Hoare n e))
                    (elim [ ok _ ↦ Hoare-pure _ (λ t q. tt) | err x ↦ Hoare-fail _ ])))))

  reboot_node-Drains : (n : String) → Keeps Drains (reboot_node env s n)
  reboot_node-Drains n = reboot_node-Keeps env s n Drains Drains-Lasts (λ r t i. (tt, i))

  kept : IsKept env s Drains
  kept = record {
    asides = Drains-Lasts;
    status = λ b m r t h. (tt, h);
    kube = λ b m r t o h. (tt, h);
    writes = λ e t w h. (guard-write e t w, h);
    evicts = evict-Keeps;
    reboots = reboot_node-Drains;
  }

  -- In every environment in which polling only calls its condition, a run of `Reconcile` on any
  -- node leaves a trace in which each drain has its guard, if it started from one: the node is not
  -- the controller's own, and since the last change of an object, drain or reboot every plugin's
  -- PreDrain hook succeeded or the plugin said that it does not support the cluster, and a deletion
  -- of the manager's pods on the node succeeded.
  pub reconcile-Drains :
      IsPolling env → (name : String) (t : Trace) → Drains t → Drains (reconcile env s name t).1
  reconcile-Drains polling name t h =
      (reconcile-I env s (plain env s kept) (plain-IsEntered env s kept (λ b m r t h. (tt, h)))
          polling name).at
        t h
