-- ===== src/Examples/Runs.antt =====
-- Runs of the reconciler on the test data.
use node_drain.Base.{[], refl, true, ok, err, msg}
use node_drain.Cluster.{Trace, Env}
use node_drain.Controller.{reconcile}
use node_drain.Controller.Objects.{Session}
use node_drain.Controller.Drain.{start_draining}
use node_drain.Controller.Queue.{is_next_node}
use node_drain.Controller.Triple.{Post}
use node_drain.Controller.Diagram.{AllFollow}
use node_drain.Controller.Diagram.Whole.{reconcile-AllFollow}
use node_drain.Controller.Guards.Evicting.{Drains, reconcile-Drains}
use node_drain.Controller.Guards.Rebooting.{Reboots, reconcile-Reboots}
use node_drain.Controller.Guards.Checking.{Starts, reconcile-Starts}
use node_drain.Api.{Node, NodeState, NodeCurrentState}
use node_drain.Controller.Guards.Finishing.{reconcile-Finishes}
use node_drain.Controller.Guards.Finishing.Hooks.{Finishes}
use node_drain.Controller.Guards.Undraining.{Uncordons, reconcile-Uncordons}
use node_drain.Controller.Guards.Starting.{JustStarted, start_draining-JustStarted}
use node_drain.Controller.Requeue.{IsSoon, Returned}
use node_drain.Controller.Requeue.Bound.{reconcile-IsSoon}
use node_drain.Controller.Queue.Turns.{HasTurn, is_next_node-HasTurn}
use node_drain.RebootManager
use node_drain.RebootManager.{
  reboot_required_pod, reboot_required_remove_pod, probe_reboot_required,
}
use node_drain.RebootManager.Tidy.{IsTidied, await_removal}
use node_drain.RebootManager.Tidy.{remove_reboot_required-IsTidied}
use node_drain.Examples.{
  waiting, queued, drained, host, cluster, settings, cluster-IsPolling, cluster-IsUndisturbed,
}

abbrev Anything : Trace → Type 0
Anything t = Unit {0}

abbrev start : Session
start = record { node = waiting; kube_node = host; trace = [] }

abbrev in_queue : Session
in_queue = record { node = queued; kube_node = host; trace = [] }

reconcile-AllFollow_example : AllFollow (reconcile (cluster waiting) settings "n1" []).1
reconcile-AllFollow_example =
    reconcile-AllFollow (cluster waiting) settings (cluster-IsUndisturbed waiting)
      (cluster-IsPolling waiting) "n1" [] tt

reconcile-Drains_example :
    Drains (cluster waiting) settings (reconcile (cluster waiting) settings "n1" []).1
reconcile-Drains_example =
    reconcile-Drains (cluster waiting) settings (cluster-IsPolling waiting) "n1" [] tt

reconcile-Reboots_example :
    Reboots (cluster drained) settings (reconcile (cluster drained) settings "n1" []).1
reconcile-Reboots_example =
    reconcile-Reboots (cluster drained) settings (cluster-IsPolling drained) "n1" [] tt

reconcile-Starts_example :
    Starts (cluster waiting) settings (reconcile (cluster waiting) settings "n1" []).1
reconcile-Starts_example =
    reconcile-Starts (cluster waiting) settings (cluster-IsPolling waiting) "n1" [] tt

start_draining-JustStarted_example :
    Post Anything
      (λ _ st. JustStarted settings.plugins start.node st.trace)
      (start_draining (cluster waiting) settings start)
start_draining-JustStarted_example =
    start_draining-JustStarted (cluster waiting) settings start refl

is_next_node-HasTurn_example :
    Post Anything
      (λ b _. HasTurn (cluster queued) in_queue b)
      (is_next_node (cluster queued) in_queue)
is_next_node-HasTurn_example = is_next_node-HasTurn (cluster queued) in_queue

-- The pod is gone when it is read.
abbrev vanished : Env
vanished = record (cluster waiting) {
  get_pod = λ t n p. err (msg "not found");
  pod_value = λ t n p. record { namespace = ""; name = "" };
  poll = λ c t. (ok tt, t);
}

remove_reboot_required-IsTidied_example :
    IsTidied settings
      (reboot_required_remove_pod settings "n1")
      (λ name v. (await_removal (cluster waiting) settings "n1" name v).1)
      []
      (RebootManager.remove_reboot_required (cluster waiting) settings "n1" []).1
remove_reboot_required-IsTidied_example =
    remove_reboot_required-IsTidied (cluster waiting) settings "n1" []

reconcile-IsSoon_example : Returned IsSoon (reconcile (cluster drained) settings "n1" []).0
reconcile-IsSoon_example = reconcile-IsSoon (cluster drained) settings "n1" []

-- A drained node that is to be active again.
abbrev undraining : Node
undraining = record waiting {
  state = NodeState.active;
  status = record waiting.status { current_state = NodeCurrentState.undraining; drained = true };
}

reconcile-Uncordons_example :
    Uncordons (cluster undraining) settings (reconcile (cluster undraining) settings "n1" []).1
reconcile-Uncordons_example =
    reconcile-Uncordons (cluster undraining) settings (cluster-IsPolling undraining) "n1" [] tt

reconcile-Finishes_example :
    Finishes settings.plugins (reconcile (cluster undraining) settings "n1" []).1
reconcile-Finishes_example =
    reconcile-Finishes (cluster undraining) settings (cluster-IsUndisturbed undraining)
      (cluster-IsPolling undraining) "n1" [] tt
