-- ===== src/Controller/Progress/Active.antt =====
-- A whole run on a node that is to be active again.
use node_drain.Base.{String, false, ◌≡◌, ℕ, Option, ok}
use node_drain.Api.{NodeCurrentState}
use node_drain.Cluster.{Trace, Env}
use node_drain.Settings.{Settings}
use node_drain.Controller.Objects.{Session}
use node_drain.Controller.Work.{is_stale, check_interval}
use node_drain.Controller.Progress.{IsServing}
use node_drain.Controller.Progress.Return.{IsBack}

module _ (env : Env) (s : Settings) (name : String) (w : IsServing env s name) (last : Option ℕ)
    (fresh : (t : Trace)
      → is_stale last (env.now t) (check_interval s.reboot_check_interval) ≡ false)
    (hooks : (t : Trace) (id node : String) → env.post_drain t id node ≡ ok tt) where
  abbrev Ready : Session → Type 0
  Ready st =
      IsBack env s last NodeCurrentState.ok st
      × (st.kube_node.unschedulable ≡ false)
      × (st.node.status.drained ≡ false)
