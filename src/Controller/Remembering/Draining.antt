-- ===== src/Controller/Remembering/Draining.antt =====
-- `undrain` and `drain`.
use node_drain.Base.{Bool, true, false, not, ◌||◌, String, refl, some, none, ok, err, Result, ◌∙◌}
use node_drain.Base.Keeps.{
  Keeps, Keeps-bind, Keeps-pure, Keeps-fail, Keeps-gets, Keeps-attempt, Keeps-wrapping, Keeps-if,
  Keeps-look,
}
use node_drain.Api.{Node, NodeCurrentState, same_current_state, drain}
use node_drain.Cluster.{Trace, Env, Io, drained_node}
use node_drain.Cluster.Quiet.{Grows, IsAside}
use node_drain.Settings.{Settings}
use node_drain.DrainManager.Quiet.{
  is_cluster_nodes_healthy-IsQuiet, is_healthy-IsQuiet, is_drain_ok-IsQuiet, run_post_drain-IsQuiet,
}
use node_drain.RebootManager.Quiet.{IsPolling}
use node_drain.Controller.Objects.{M, io, set_current_state}
use node_drain.Controller.Drain.{
  start_draining, mark_drained, drain_there, drain_cordoned, drain_node,
}
use node_drain.Controller.Undrain.{
  uncordon_if_healthy, after_uncordon, finish_undrain, undrain_as_due, undrain,
}
use node_drain.Controller.Walk.Evicts.{evict-Keeps, reschedule_controller-IsQuiet}
use node_drain.Controller.Remembering.{IsRemembering, IsCurrent}
use node_drain.Controller.Remembering.Parts.{
  Has, Has-aside, io-Current, quiet-Current, event-Current, patch_status-Current,
  set_drained-Current, set_current_state-Current, set_unschedulable-Current,
}

module _ (env : Env) (s : Settings) (name : String) (current : Trace → Node)
    (r : IsRemembering env name current) (polling : IsPolling env) where
  abbrev Ours : {A : Type 0} → M A → Type 0
  Ours m = Keeps (IsCurrent name current) m

  quiet : {A : Type 0} (m : Io A) → ((t : Trace) → Keeps (Grows IsAside t) m) → Ours (io m)
  quiet m q = quiet-Current env name current r m q

  to_state : (c : NodeCurrentState) → Ours (set_current_state env c)
  to_state c = set_current_state-Current env name current r c

  -- `undrain`
  uncordon-Current : Ours (uncordon_if_healthy env s)
  unfolding uncordon_if_healthy
  uncordon-Current = Keeps-look _ (λ st.
      Keeps-if st.kube_node.unschedulable _ _
        (λ _.
          Keeps-bind _ _ (Keeps-attempt _ (quiet _ (λ t. is_cluster_nodes_healthy-IsQuiet env)))
            (elim [
              | err e ↦ Keeps-pure _
              | ok false ↦ Keeps-pure _
              | ok true ↦
                  Keeps-bind _ _
                    (Keeps-attempt _ (set_unschedulable-Current env name current r false))
                    (elim [ err e ↦ Keeps-pure _ | ok _ ↦ Keeps-pure _ ])
            ]))
        (λ _. Keeps-pure _))

  after_uncordon-Current : Ours (after_uncordon env s)
  unfolding after_uncordon
  after_uncordon-Current = Keeps-look _ (λ st.
      Keeps-bind _ _ (Keeps-attempt _ (quiet _ (λ t. run_post_drain-IsQuiet env s.plugins _)))
        (elim [
          | err e ↦ Keeps-pure _
          | ok _ ↦
              Keeps-if st.node.status.drained _ _
                (λ _.
                  Keeps-bind _ _ (Keeps-attempt _ (set_drained-Current env name current r false))
                    (elim [ err e ↦ Keeps-pure _ | ok _ ↦ Keeps-pure _ ]))
                (λ _. Keeps-pure _)
        ]))

  finish_undrain-Current : Ours (finish_undrain env s)
  unfolding finish_undrain
  finish_undrain-Current = Keeps-look _ (λ st.
      Keeps-bind _ _ (to_state _)
        (λ _. Keeps-bind _ _ (event-Current env name current r _ refl) (λ _. Keeps-pure _)))

  as_due-Current : (d : Result Bool) → Ours (undrain_as_due env s d)
  unfolding undrain_as_due
  as_due-Current (err e) = Keeps-fail e
  as_due-Current (ok false) = Keeps-pure _
  as_due-Current (ok true) = Keeps-bind _ _ (to_state _) (λ _. Keeps-pure _)

  pub undrain-Current : Ours (undrain env s)
  unfolding undrain
  undrain-Current = Keeps-look _ (λ st.
      Keeps-if (same_current_state st.node.status.current_state NodeCurrentState.undraining) _ _
        (λ _. Keeps-bind _ _ uncordon-Current (elim [
          | some a ↦ Keeps-pure _
          | none ↦
              Keeps-bind _ _ after_uncordon-Current
                (elim [ some a ↦ Keeps-pure _ | none ↦ finish_undrain-Current ])
        ]))
        (λ _. as_due-Current _))

  -- `drain`
  start_draining-Current : Ours (start_draining env s)
  unfolding start_draining
  start_draining-Current = Keeps-look _ (λ st.
      Keeps-bind _ _ (quiet _ (λ t. Keeps-wrapping _ _ (is_healthy-IsQuiet env s.plugins _)))
        (elim [
          | false ↦ Keeps-fail _
          | true ↦
              Keeps-bind _ _
                (quiet _ (λ t. Keeps-wrapping _ _ (is_drain_ok-IsQuiet env s.plugins _)))
                (elim [ false ↦ Keeps-fail _ | true ↦ to_state _ ])
        ]))

  mark_drained-Current : Ours (mark_drained env s)
  unfolding mark_drained
  mark_drained-Current = Keeps-look _ (λ st.
      Keeps-bind _ _ (patch_status-Current env name current r _ _)
        (λ _. event-Current env name current r _ refl))

  drain_there-Current : (n : String) (b : Bool) → Ours (drain_there env s n b)
  unfolding drain_there
  drain_there-Current n true =
      Keeps-bind _ _ (quiet _ (λ t. Keeps-wrapping _ _ (reschedule_controller-IsQuiet env s)))
        (λ _. Keeps-pure _)
  drain_there-Current n false =
      Keeps-bind _ _
        (io-Current env name current r _ (λ m.
          evict-Keeps env s n (Has env name current r m) (Has-aside env name current r m)
            (λ a t h. r.kept (drained_node n a) t refl ∙ h)))
        (λ _. Keeps-bind _ _ mark_drained-Current (λ _. Keeps-pure _))

  pub drain_node-Current : Ours (drain_node env s)
  unfolding drain_node drain_cordoned
  drain_node-Current = Keeps-look _ (λ st.
      Keeps-if (not (drain st.node.state) || st.node.status.drained) _ _ (λ _. Keeps-pure _)
        (λ _.
          Keeps-bind _ _
            (Keeps-if (same_current_state st.node.status.current_state NodeCurrentState.next) _ _
              (λ _. start_draining-Current) (λ _. Keeps-pure _))
            (λ _.
              Keeps-bind _ _ (set_unschedulable-Current env name current r true)
                (λ _. Keeps-bind _ _ (Keeps-gets _) (λ n. drain_there-Current n _)))))
