-- ===== src/Controller/Requeue/Parts.antt =====
-- The parts of a run, by how long they let the node wait.
use node_drain.Base.{String, Bool, true, false, none, some, ok, err, arith, Result}
use node_drain.Cluster.{Env}
use node_drain.Settings.{Settings}
use node_drain.Controller.Undrain.{
  uncordon_if_healthy, after_uncordon, finish_undrain, undrain_as_due, undrain,
}
use node_drain.Controller.Drain.{drain_there, drain_cordoned, drain_node}
use node_drain.Controller.Work.{
  recheck_reboot, drain_if_wanted, start_reboot, finish_reboot, await_reboot, reboot_if_drained,
  work,
}
use node_drain.Controller.Requeue.{
  IsSoon, IsSoonIfAny, Returns, Returns-pure, Returns-fail, Returns-look, Returns-if, Returns-bind,
  Returns-then, Returns-return_or,
}

module _ (env : Env) (s : Settings) where
  uncordon_if_healthy-IsSoon : Returns IsSoonIfAny (uncordon_if_healthy env s)
  unfolding uncordon_if_healthy
  uncordon_if_healthy-IsSoon = Returns-look _ λ st.
      Returns-if st.kube_node.unschedulable _ _
        (Returns-then IsSoonIfAny _ _ (elim [
          | err e ↦ Returns-pure _ (omega arith)
          | ok false ↦ Returns-pure _ (omega arith)
          | ok true ↦
              Returns-then IsSoonIfAny _ _
                (elim [ err e ↦ Returns-pure _ (omega arith) | ok _ ↦ Returns-pure _ tt ])
        ]))
        (Returns-pure _ tt)

  after_uncordon-IsSoon : Returns IsSoonIfAny (after_uncordon env s)
  unfolding after_uncordon
  after_uncordon-IsSoon = Returns-look _ λ st. Returns-then IsSoonIfAny _ _ (elim [
    | err e ↦ Returns-pure _ (omega arith)
    | ok _ ↦
        Returns-if st.node.status.drained _ _
          (Returns-then IsSoonIfAny _ _
            (elim [ err e ↦ Returns-pure _ (omega arith) | ok _ ↦ Returns-pure _ tt ]))
          (Returns-pure _ tt)
  ])

  finish_undrain-IsSoon : Returns IsSoonIfAny (finish_undrain env s)
  unfolding finish_undrain
  finish_undrain-IsSoon = Returns-look _ λ st.
      Returns-then IsSoonIfAny _ _ (λ _. Returns-then IsSoonIfAny _ _ (λ _. Returns-pure _ tt))

  undrain_as_due-IsSoon : (d : Result Bool) → Returns IsSoonIfAny (undrain_as_due env s d)
  unfolding undrain_as_due
  undrain_as_due-IsSoon (err e) = Returns-fail e
  undrain_as_due-IsSoon (ok false) = Returns-pure _ tt
  undrain_as_due-IsSoon (ok true) = Returns-then IsSoonIfAny _ _ (λ _. Returns-pure _ (omega arith))

  pub undrain-IsSoon : Returns IsSoonIfAny (undrain env s)
  unfolding undrain
  undrain-IsSoon = Returns-look _ λ st.
      Returns-if _ _ _
        (Returns-bind IsSoonIfAny IsSoonIfAny _
          (elim [
            | some r ↦ (λ q. Returns-pure _ q)
            | none ↦ (λ q.
                Returns-bind IsSoonIfAny IsSoonIfAny _
                  (elim [
                    | some r ↦ (λ q'. Returns-pure _ q')
                    | none ↦ (λ q'. finish_undrain-IsSoon)
                  ])
                  _ after_uncordon-IsSoon)
          ])
          _ uncordon_if_healthy-IsSoon)
        (undrain_as_due-IsSoon _)

  drain_there-IsSoon : (name : String) (b : Bool) → Returns IsSoonIfAny (drain_there env s name b)
  unfolding drain_there
  drain_there-IsSoon name true = Returns-then IsSoonIfAny _ _ (λ _. Returns-pure _ (omega arith))
  drain_there-IsSoon name false =
      Returns-then IsSoonIfAny _ _ (λ _. Returns-then IsSoonIfAny _ _ (λ _. Returns-pure _ tt))

  drain_cordoned-IsSoon : Returns IsSoonIfAny (drain_cordoned env s)
  unfolding drain_cordoned
  drain_cordoned-IsSoon =
      Returns-then IsSoonIfAny _ _
        (λ _. Returns-then IsSoonIfAny _ _ (λ name. drain_there-IsSoon name _))

  drain_node-IsSoon : Returns IsSoonIfAny (drain_node env s)
  unfolding drain_node
  drain_node-IsSoon = Returns-look _ λ st.
      Returns-if _ _ _ (Returns-pure _ tt)
        (Returns-then IsSoonIfAny _ _ (λ _. drain_cordoned-IsSoon))

  recheck_reboot-IsSoon : Returns IsSoonIfAny (recheck_reboot env s)
  unfolding recheck_reboot
  recheck_reboot-IsSoon = Returns-look _ λ st.
      Returns-if _ _ _
        (Returns-then IsSoonIfAny _ _ (elim [
          | true ↦ Returns-pure _ tt
          | false ↦ Returns-then IsSoonIfAny _ _ (λ _. Returns-pure _ (omega arith))
        ]))
        (Returns-pure _ tt)

  drain_if_wanted-IsSoon : Returns IsSoonIfAny (drain_if_wanted env s)
  unfolding drain_if_wanted
  drain_if_wanted-IsSoon =
      Returns-look _ λ st. Returns-if _ _ _ drain_node-IsSoon (Returns-pure _ tt)

  start_reboot-IsSoon : Returns IsSoon (start_reboot env s)
  unfolding start_reboot
  start_reboot-IsSoon = Returns-then IsSoon _ _ (λ _. Returns-then IsSoon _ _ (λ name.
      Returns-then IsSoon _ _ (λ _. Returns-then IsSoon _ _ (λ _. Returns-pure _ (omega arith)))))

  finish_reboot-IsSoon : Returns IsSoon (finish_reboot env s)
  unfolding finish_reboot
  finish_reboot-IsSoon = Returns-then IsSoon _ _ (λ now. Returns-then IsSoon _ _ (λ _.
      Returns-then IsSoon _ _ (λ _.
        Returns-then IsSoon _ _
          (λ name. Returns-then IsSoon _ _ (λ _. Returns-pure _ (omega arith))))))

  await_reboot-IsSoon : Returns IsSoon (await_reboot env s)
  unfolding await_reboot
  await_reboot-IsSoon = Returns-look _ λ st.
      Returns-then IsSoon _ _
        (elim [ true ↦ finish_reboot-IsSoon | false ↦ Returns-pure _ (omega arith) ])

  reboot_if_drained-IsSoon : Returns IsSoon (reboot_if_drained env s)
  unfolding reboot_if_drained
  reboot_if_drained-IsSoon = Returns-look _ λ st. Returns-if _ _ _ (Returns-pure _ (omega arith)) (
      Returns-if _ _ _ start_reboot-IsSoon
        (Returns-if _ _ _ await_reboot-IsSoon (Returns-pure _ (omega arith))))

  pub work-IsSoon : Returns IsSoon (work env s)
  unfolding work
  work-IsSoon =
      Returns-return_or _ _ recheck_reboot-IsSoon
        (Returns-return_or _ _ drain_if_wanted-IsSoon reboot_if_drained-IsSoon)
