-- ===== src/Controller/Guards/Undraining.antt =====
-- node_controller.go, `undrain` and the desired state Active: the guard of the uncordon along a run
-- of `Reconcile`.
use node_drain.Base.{String, true, false, ◌≡◌, ◌⊎◌, inl, inr, refl}
use node_drain.Cluster.{Entry, Trace, Env, patched_kube_node}
use node_drain.Cluster.Quiet.{IsAside, Keeps-Grows}
use node_drain.Cluster.Evidence.{Lasts, Throughout}
use node_drain.Settings.{Settings}
use node_drain.DrainManager.{is_cluster_nodes_healthy}
use node_drain.DrainManager.Agreement.{ClusterReady, cluster-Hoare}
use node_drain.DrainManager.Quiet.{is_cluster_nodes_healthy-IsQuiet}
use node_drain.RebootManager.Quiet.{IsPolling}
use node_drain.RebootManager.Reboot.{reboot_node-Keeps}
use node_drain.Controller.{reconcile}
use node_drain.Controller.Objects.{Session, io}
use node_drain.Controller.Triple.{Triple, Triple-io, Triple-conclude, Triple-weaken, Triple-both}
use node_drain.Controller.Guards.Starting.{Triple-hoare}
use node_drain.Controller.Walk.{is_write, is_foreign, IsEntered}
use node_drain.Controller.Walk.Draining.{after_uncordon-Early}
use node_drain.Controller.Walk.Evicts.{evict-Keeps}
use node_drain.Controller.Walk.Patches.{entry}
use node_drain.Controller.Walk.Plain.{IsKept, plain, set_current_state-Triple}
use node_drain.Controller.Walk.Rules.{Triple-uncordon}
use node_drain.Controller.Walk.Undraining.{IsUndrained, undrain-Triple}
use node_drain.Controller.Walk.Whole.{reconcile-I}

-- A patch that lets pods be scheduled on a node again comes after a list of nodes that are ready,
-- or no other manager made the node unschedulable.
abbrev pub UncordonGuard : Env → Settings → Entry → Trace → Type 0
UncordonGuard env s (patched_kube_node b m r) t =
    m.unschedulable ≡ false → ClusterReady t ⊎ (is_foreign env s b ≡ false)
UncordonGuard env s _ t = Unit

abbrev Any : Session → Type 0
Any st = Unit {0}

module _ (env : Env) (s : Settings) where
  abbrev pub Uncordons : Trace → Type 0
  Uncordons = Throughout (UncordonGuard env s)

  guard-aside : (e : Entry) (t : Trace) → IsAside e → UncordonGuard env s e t
  guard-aside (patched_kube_node b m r) t q = cc
  guard-aside _ t q = tt

  Uncordons-Lasts : Lasts Uncordons
  Uncordons-Lasts e t q h = (guard-aside e t q, h)

  guard-write : (e : Entry) (t : Trace) → is_write e ≡ true → UncordonGuard env s e t
  guard-write (patched_kube_node b m r) t q = cc
  guard-write _ t q = tt

  kept : IsKept env s Uncordons
  kept = record {
    asides = Uncordons-Lasts;
    status = λ b m r t i. (tt, i);
    kube = λ b m r t o i. ((λ f. elim o [ inl k ↦ cc | inr k ↦ inr k ]), i);
    writes = λ e t w i. (guard-write e t w, i);
    evicts = λ n e. evict-Keeps env s n Uncordons Uncordons-Lasts (λ r t i. (tt, i));
    reboots = λ n. reboot_node-Keeps env s n Uncordons Uncordons-Lasts (λ r t i. (tt, i));
  }

  found-Triple :
      Triple
        (λ _. Unit {0})
        Any
        (io (is_cluster_nodes_healthy env))
        (λ b st. b ≡ true → ClusterReady st.trace)
  found-Triple = record {
    at = λ st i p.
        (Triple-conclude _ (λ b st' q. q.1)
            (Triple-hoare st.node _ (cluster-Hoare env s.plugins st.node.name))).at
          st tt (refl, tt);
  }

  healthy-Triple :
      Triple Uncordons Any
        (io (is_cluster_nodes_healthy env))
        (λ b st. b ≡ true → ClusterReady st.trace)
  healthy-Triple =
      Triple-conclude _ (λ b st q. q.1)
        (Triple-weaken _ (λ st p. (tt, tt))
          (Triple-both _
            (Triple-io {P = Any} _
              (Keeps-Grows Uncordons-Lasts (λ t. is_cluster_nodes_healthy-IsQuiet env))
              (λ st t p. tt))
            found-Triple))

  undrained : IsUndrained env s Uncordons Any (λ st. ClusterReady st.trace) Any Any
  undrained = record {
    healthy = healthy-Triple;
    uncordons =
        Triple-uncordon env Uncordons _ _ (λ st r i c. ((λ f. inl c), i)) (λ st c. tt)
          (λ st k c. tt);
    hooks = after_uncordon-Early env s (plain env s kept);
    finishes = set_current_state-Triple env s kept _;
    reports = λ e q. entry env s (plain env s kept) e q;
    starts = set_current_state-Triple env s kept _;
    leaves = λ st p d. tt;
  }

  entered : IsEntered env s Uncordons (λ _ _. Unit {0}) (λ _ _. Unit {0})
  entered = record { enters = λ name n t i e. tt; undrains = undrain-Triple env s undrained }

  -- In every environment in which PollUntilContextTimeout only calls its condition, a run of
  -- Reconcile on any node leaves a trace in which each patch that lets pods be scheduled on a node
  -- again has its guard, if it started from one: since the last change of an object, drain or
  -- reboot the nodes of the cluster were listed and none was found that is not ready, or the
  -- manager that getManagerOfUnschedulable finds for the patched node, as it was read, is this
  -- program or none. That is the first entry of the managed fields that claims the field; later
  -- entries that claim it are not looked at.
  pub reconcile-Uncordons :
      IsPolling env
      → (name : String) (t : Trace) → Uncordons t
      → Uncordons (reconcile env s name t).1
  reconcile-Uncordons polling name t h =
      (reconcile-I env s (plain env s kept) entered polling name).at t h
