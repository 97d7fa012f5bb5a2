-- ===== src/Controller/Walk/Draining.antt =====
-- node_controller.go, `drain` and `undrain`: the rules for what the walk asks for.
use node_drain.Base.{Bool, true, false, not, ◌||◌, ◌≡◌, refl, String, arith}
use node_drain.Base.{ok, err, ◌==◌}
use node_drain.Base.Keeps.{Keeps-wrapping}
use node_drain.Api.{NodeCurrentState, same_current_state, Node}
use node_drain.Api.{drain}
use node_drain.Cluster.{Trace, Env}
use node_drain.Settings.{Settings}
use node_drain.DrainManager.Quiet.{is_cluster_nodes_healthy-IsQuiet, run_post_drain-IsQuiet}
use node_drain.Controller.Objects.{Session, set_unschedulable, set_current_state}
use node_drain.Controller.Walk.Undraining.{undrain-Triple}
use node_drain.Controller.Undrain.{after_uncordon, undrain}
use node_drain.Controller.Drain.{mark_drained, drain_there, drain_cordoned, drain_node}
use node_drain.Controller.Triple.{
  Triple, Triple-pure, Triple-gets, Triple-bind, Triple-if, Triple-conclude,
}
use node_drain.Controller.Walk.Evicts.{reschedule_controller-IsQuiet}
use node_drain.Controller.Walk.{IsPreserved, OnSession, is_ordinary}
use node_drain.Controller.Walk.Rules.{Sound, Early, Triple-peek, Triple-retry, Triple-calls}
use node_drain.Controller.Walk.Patches.{
  quiet, attempt_quiet, entry, patch_status-Triple, set_drained-Triple, set_current_state-Triple,
  cordon-Triple,
}

pub to_ok : (from : NodeCurrentState) → is_ordinary from NodeCurrentState.ok ≡ true
to_ok from = ground arith

to_drained : (from : NodeCurrentState) → is_ordinary from NodeCurrentState.drained ≡ true
to_drained from = ground arith

module _ (env : Env) (s : Settings) {I : Trace → Type 0} {J : Node → Trace → Type 0}
    (h : IsPreserved env s I J) where
  abbrev Here : {A : Type 0} → A → Session → Type 0
  Here a st = J st.node st.trace

  pub after_uncordon-Early : Early I J (after_uncordon env s)
  unfolding after_uncordon
  after_uncordon-Early = Triple-peek _ λ st.
      Triple-bind Here _ _ (attempt_quiet env s h _ (λ t. run_post_drain-IsQuiet env s.plugins _))
        (elim [
          | err e ↦ Triple-pure _ (λ st' j. tt)
          | ok _ ↦
              Triple-if st.node.status.drained _ _
                (λ _. Triple-retry _ _ (set_drained-Triple env s h false))
                (λ _. Triple-pure _ (λ st' j. j))
        ])

  -- undrain keeps both, if the calls do that the rules say nothing of.
  pub undrain-Early :
      Sound I J (set_unschedulable env false)
      → Triple I (OnSession J) (set_current_state env NodeCurrentState.undraining) (λ _ _. Unit {0})
      → Early I J (undrain env s)
  undrain-Early uncordons starts = undrain-Triple env s record {
    healthy =
        Triple-conclude _ (λ b st j e. j)
          (quiet env s h _ (λ t. is_cluster_nodes_healthy-IsQuiet env));
    uncordons = uncordons;
    hooks = after_uncordon-Early;
    finishes = set_current_state-Triple env s h _ to_ok;
    reports = λ e q. entry env s h e q;
    starts = starts;
    leaves = λ st j d. j;
  }

  mark_drained-Sound : Sound I J (mark_drained env s)
  unfolding mark_drained
  mark_drained-Sound = Triple-peek _ λ st.
      Triple-bind Here _ _
        (patch_status-Triple env s h _ _ (λ n. to_drained n.status.current_state))
        (λ _. entry env s h _ refl)

  drain_there-Early :
      (name : String) (b : Bool) → s.own_node == name ≡ b → Early I J (drain_there env s name b)
  unfolding drain_there
  drain_there-Early name true e =
      Triple-bind Here _ _
        (quiet env s h _ (λ t. Keeps-wrapping _ _ (reschedule_controller-IsQuiet env s)))
        (λ _. Triple-pure _ (λ st j. tt))
  drain_there-Early name false e =
      Triple-bind Here _ _ (Triple-calls _ (h.evicts name e) (λ n. h.node_evicts n name e))
        (λ _. Triple-bind Here _ _ mark_drained-Sound (λ _. Triple-pure _ (λ st j. j)))

  drain_cordoned-Early : Early I J (drain_cordoned env s)
  unfolding drain_cordoned
  drain_cordoned-Early = Triple-bind Here _ _ (cordon-Triple env s h) (λ _.
      Triple-bind Here _ _ (Triple-gets _ (λ st j. j)) (λ name. drain_there-Early name _ refl))

  pub drain_node-Early : Early I J (drain_node env s)
  unfolding drain_node
  drain_node-Early = Triple-peek _ λ st.
      Triple-if (not (drain st.node.state) || st.node.status.drained) _ _
        (λ _. Triple-pure _ (λ st' j. j))
        (λ _.
          Triple-bind Here _ _
            (Triple-if (same_current_state st.node.status.current_state NodeCurrentState.next) _ _
              (λ _. h.starts) (λ _. Triple-pure _ (λ st' j. j)))
            (λ _. drain_cordoned-Early))
