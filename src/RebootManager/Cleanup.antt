-- ===== src/RebootManager/Cleanup.antt =====
-- CleanupNode: which pods its selector matches.
use node_drain.Base.{String, Bool, true, false, ◌≡◌, refl, ◌==◌, ◌&&◌, eq_iff}
use node_drain.Cluster.Pods.{selects}
use node_drain.Settings.{Settings}
use node_drain.RebootManager.{
  cleanup_selector, reboot_required_pod, reboot_node_pod, reboot_required_remove_pod,
}

same_name : (n : String) → n == n ≡ true
same_name n = (eq_iff n n).1 refl

narrow : (a b : Bool) → a ≡ true → a && b && true ≡ b
narrow true true h = refl
narrow true false h = refl
narrow false b h = cc

-- The selector of a node matches each of the three pods that the manager creates for a node, if it
-- is that node, and no pod that it creates for another one.
pub cleanup_selector-selects :
    (s : Settings) (node other : String)
    → (selects (cleanup_selector s node) (reboot_required_pod s other) ≡ other == node)
      × (selects (cleanup_selector s node) (reboot_node_pod s other) ≡ other == node)
      × (selects (cleanup_selector s node) (reboot_required_remove_pod s other) ≡ other == node)
unfolding selects cleanup_selector reboot_required_pod reboot_node_pod reboot_required_remove_pod
cleanup_selector-selects s node other =
    let ns = same_name s.manager_namespace in (narrow _ _ ns, narrow _ _ ns, narrow _ _ ns)
