-- ===== src/Controller/Guards/Rebooting.antt =====
-- node_controller.go and reboot-manager.go: the guard of a reboot along a run of `Reconcile`.
use node_drain.Base.{String, Bool, true, false, not, refl, ◌≡◌, inl, inr, ok, err, ◌∷◌}
use node_drain.Base.{some, none, Option}
use node_drain.Base.Keeps.{Keeps}
use node_drain.Cluster.{Entry, Trace, Env, created_pod, call, event, normal, warning}
use node_drain.Cluster.{found_kube_node, KubeNode}
use node_drain.Cluster.Quiet.{IsAside, is_reboot_pod}
use node_drain.Cluster.Hoare.{
  Hoare, Hoare-pure, Hoare-fail, Hoare-bind, Hoare-attempt, Hoare-call, Hoare-entry, Hoare-if,
  Hoare→Keeps,
}
use node_drain.Cluster.Evidence.{Lately, Lately-map, Lasts, Throughout}
use node_drain.Settings.{Settings}
use node_drain.PodUtils.{get_node}
use node_drain.RebootManager.{reboot_node, reboot_node_pod}
use node_drain.RebootManager.Quiet.{IsPolling}
use node_drain.Controller.{reconcile}
use node_drain.Controller.Guards.{RebootGuard, IsCordoned}
use node_drain.Controller.Walk.{is_write}
use node_drain.Controller.Walk.Evicts.{evict-Keeps}
use node_drain.Controller.Walk.Plain.{IsKept, plain, plain-IsEntered}
use node_drain.Controller.Walk.Whole.{reconcile-I}

clash : {A : Type 0} (b : Bool) → not b ≡ true → b ≡ true → A
clash true q r = cc
clash false q r = cc

unnegate : (b : Bool) → not b ≡ false → b ≡ true
unnegate true h = refl
unnegate false h = cc

module _ (env : Env) (s : Settings) where
  abbrev pub Reboots : Trace → Type 0
  Reboots = Throughout (RebootGuard s)

  guard-aside : (e : Entry) (t : Trace) → IsAside e → RebootGuard s e t
  guard-aside (created_pod p r) t q = λ b. clash (is_reboot_pod p) q b
  guard-aside _ t q = tt

  Reboots-Lasts : Lasts Reboots
  Reboots-Lasts e t q h = (guard-aside e t q, h)

  guard-write : (e : Entry) (t : Trace) → is_write e ≡ true → RebootGuard s e t
  guard-write (created_pod p r) t q = cc
  guard-write _ t q = tt

  -- What `get_node` found, as the trace has it.
  abbrev Found : String → Option KubeNode → Trace → Type 0
  Found n (some k) t = Lately (λ e. e ≡ found_kube_node n (ok k)) t
  Found n none t = Unit

  get_node-Hoare : (n : String) → Hoare Reboots (λ _. Unit {0}) (get_node env n) (Found n)
  unfolding get_node
  get_node-Hoare n =
      Hoare-bind _ _ _
        (Hoare-attempt {Q = λ k t. Found n (some k) t} _ (
          Hoare-call _ _ (λ r t i p. Reboots-Lasts (found_kube_node n r) t refl i)
            (λ k t i p. inl refl)))
        (elim [ ok k ↦ Hoare-pure _ (λ t p. p) | err e ↦ Hoare-pure _ (λ t p. tt) ])

  create-Hoare :
      (n : String)
      → s.container_node ≡ false
      → Hoare Reboots
          (Lately (IsCordoned n))
          (call (λ t. env.create_pod t (reboot_node_pod s n)) (created_pod (reboot_node_pod s n)))
          (λ _ _. Unit {0})
  unfolding reboot_node_pod
  create-Hoare n c = Hoare-call _ _ (λ r t i p. ((λ _. (c, p)), i)) (λ a t i p. tt)

  remember :
      (n : String) (k : KubeNode)
      → not k.unschedulable ≡ false
      → (t : Trace) → Found n (some k) t
      → Lately (IsCordoned n) t
  remember n k c t h = Lately-map (λ e q. (k, q, unnegate k.unschedulable c)) t h

  last :
      (n : String) (e : Entry)
      → IsAside e
      → (t : Trace) → Reboots t
      → Lately (IsCordoned n) t
      → Reboots (e ∷ t) × Lately (IsCordoned n) (e ∷ t)
  last n e q t i p = (Reboots-Lasts e t q i, inr (q, p))

  reboot_node-Reboots : (n : String) → Keeps Reboots (reboot_node env s n)
  unfolding reboot_node
  reboot_node-Reboots n = Hoare→Keeps {Q = λ _ _. Unit {0}} _ (
      Hoare-bind _ _ _ (get_node-Hoare n) (elim [
        | none ↦ Hoare-fail _
        | some k ↦
            Hoare-if (not k.unschedulable) _ _ (λ _. Hoare-fail _)
              (λ c.
                Hoare-if s.container_node _ _
                  (λ _.
                    Hoare-entry _ (λ t i p. (Reboots-Lasts (event normal "Reboot" n) t refl i, tt)))
                  (λ d.
                    Hoare-bind (λ _. Lately (IsCordoned n)) _ _
                      (Hoare-entry _
                        (λ t i p. last n (event normal "Reboot" n) refl t i (remember n k c t p)))
                      (λ _. Hoare-bind _ _ _ (Hoare-attempt _ (create-Hoare n d)) (elim [
                        | ok _ ↦ Hoare-pure _ (λ t p. tt)
                        | err e ↦
                            Hoare-bind (λ _ _. Unit {0}) _ _
                              (Hoare-entry _
                                (λ t i p. (Reboots-Lasts (event warning "Reboot" n) t refl i, tt)))
                              (λ _. Hoare-fail _)
                      ]))))
      ]))

  kept : IsKept env s Reboots
  kept = record {
    asides = Reboots-Lasts;
    status = λ b m r t h. (tt, h);
    kube = λ b m r t o h. (tt, h);
    writes = λ e t w h. (guard-write e t w, h);
    evicts = λ n _. evict-Keeps env s n Reboots Reboots-Lasts (λ r t h. (tt, h));
    reboots = reboot_node-Reboots;
  }

  -- In every environment in which polling only calls its condition, a run of `Reconcile` on any
  -- node leaves a trace in which each reboot pod has its guard, if it started from one: the nodes
  -- are not containers, and since the last change of an object, drain or reboot the pod's node was
  -- read and was cordoned.
  pub reconcile-Reboots :
      IsPolling env → (name : String) (t : Trace) → Reboots t → Reboots (reconcile env s name t).1
  reconcile-Reboots polling name t h =
      (reconcile-I env s (plain env s kept) (plain-IsEntered env s kept (λ b m r t h. (tt, h)))
          polling name).at
        t h
