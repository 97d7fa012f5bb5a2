-- ===== src/RebootManager/Reboot.antt =====
-- RebootNode: what a property of the trace needs for it to be kept.
use node_drain.Base.{String, not, refl, none, some, Result, ok, err, ◌∷◌}
use node_drain.Base.Keeps.{Keeps, Keeps-bind, Keeps-pure, Keeps-attempt, Keeps-fail, Keeps-if}
use node_drain.Cluster.{Entry, created_pod, Trace, Env, call}
use node_drain.Cluster.Quiet.{IsAside, Keeps-aside_call, Keeps-aside_entry}
use node_drain.Settings.{Settings}
use node_drain.PodUtils.{get_node}
use node_drain.RebootManager.{reboot_node, reboot_node_pod}

module _ (env : Env) (s : Settings) (node : String) (P : Trace → Type 0)
    (closed : (e : Entry) (t : Trace) → IsAside e → P t → P (e ∷ t))
    (reboots : (r : Result String) (t : Trace)
      → P t
      → P (created_pod (reboot_node_pod s node) r ∷ t)) where
  create_reboot_pod-Keeps :
      Keeps P (
        call
          (λ t. env.create_pod t (reboot_node_pod s node))
          (created_pod (reboot_node_pod s node)))
  unfolding call
  create_reboot_pod-Keeps = record { at = λ t h. reboots _ t h }

  pub reboot_node-Keeps : Keeps P (reboot_node env s node)
  unfolding reboot_node get_node
  reboot_node-Keeps =
      Keeps-bind _ _
        (Keeps-bind _ _ (Keeps-attempt _ (Keeps-aside_call P closed _ _ (λ r. refl)))
          (elim [ ok k ↦ Keeps-pure _ | err e ↦ Keeps-pure _ ]))
        (elim [
          | none ↦ Keeps-fail _
          | some k ↦
              Keeps-if (not k.unschedulable) _ _ (λ _. Keeps-fail _)
                (λ _.
                  Keeps-if s.container_node _ _ (λ _. Keeps-aside_entry P closed _ refl)
                    (λ _. Keeps-bind _ _ (Keeps-aside_entry P closed _ refl) (λ _.
                      Keeps-bind _ _ (Keeps-attempt _ create_reboot_pod-Keeps) (elim [
                        | ok _ ↦ Keeps-pure _
                        | err e ↦
                            Keeps-bind _ _ (Keeps-aside_entry P closed _ refl) (λ _. Keeps-fail _)
                      ]))))
        ])
