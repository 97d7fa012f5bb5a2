-- ===== src/Controller/Guards.antt =====
-- The guards that stand before a drain, a reboot, an uncordon and the end of an undrain, as
-- conditions on the calls made before.
pub mod Evicting
pub mod Rebooting
pub mod Starting
pub mod Checking
pub mod Undraining
pub mod Finishing
use node_drain.Base.{String, Bool, true, false, ◌≡◌, ◌==◌, All, ok, ◌∷◌}
use node_drain.Cluster.{Entry, Trace, ran_pre_drain, drained_node, deleted_pods, created_pod}
use node_drain.Cluster.{found_kube_node, KubeNode}
use node_drain.Cluster.Quiet.{IsAside, is_reboot_pod}
use node_drain.Cluster.Pods.{Pod}
use node_drain.Cluster.Evidence.{Lately, Throughout}
use node_drain.Settings.{Settings}
use node_drain.DrainManager.Evidence.{Cleared}
use node_drain.RebootManager.{cleanup_selector}

-- A node is drained by a controller that runs elsewhere, after every plugin's hook and after the
-- manager's own pods on it were removed.
abbrev pub DrainGuard : Settings → Entry → Trace → Type 0
DrainGuard s (drained_node n r) t =
    (s.own_node == n ≡ false)
    × All (λ id. Cleared (λ i. ran_pre_drain i n) id t) s.plugins
    × Lately (λ e. e ≡ deleted_pods (cleanup_selector s n) (ok tt)) t
DrainGuard s _ t = Unit

-- The node was just read, and no pod can be scheduled on it.
abbrev pub IsCordoned : String → Entry → Type 0
IsCordoned n e = (k : KubeNode) × (e ≡ found_kube_node n (ok k)) × (k.unschedulable ≡ true)

-- A reboot pod is created on hosts only, and for a cordoned node.
abbrev pub RebootGuard : Settings → Entry → Trace → Type 0
RebootGuard s (created_pod p r) t =
    is_reboot_pod p ≡ true → (s.container_node ≡ false) × Lately (IsCordoned p.node_name) t
RebootGuard s _ t = Unit
