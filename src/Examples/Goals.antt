-- ===== src/Examples/Goals.antt =====
-- A cluster in which all agree: test data, and a node on its way to its drain.
use node_drain.Base.{ok, arith, refl, [], ◌∷◌, ◌≡◌, some}
use node_drain.Api.{NodeCurrentState, work_state}
use node_drain.DrainManager.{check_nodes, check_conditions, not_ready}
use node_drain.DrainManager.Willing.{IsWilling}
use node_drain.Controller.Objects.{Session}
use node_drain.Controller.Queue.{any_working}
use node_drain.Controller.Work.{is_stale, check_interval, check_reboot_required}
use node_drain.Controller.Interval.{check_reboot_required-fresh}
use node_drain.Controller.Progress.{IsServing, IsAt, IsFresh}
use node_drain.Examples.{waiting, queued, host, cluster, settings}

pub cluster-IsWilling : IsWilling (cluster queued)
unfolding check_nodes check_conditions not_ready
cluster-IsWilling = record {
  nodes_ready = λ t. (host ∷ [], refl, refl);
  supported = λ t id. refl;
  healthy = λ t id. refl;
  drain_ok = λ t id node. refl;
  hooks = λ t id node. refl;
}

pub cluster-IsServing : IsServing (cluster queued) settings "n1"
unfolding any_working work_state
cluster-IsServing = record {
  willing = cluster-IsWilling;
  status_patches = λ t b m. refl;
  kube_patches = λ t b m. refl;
  client_set = refl;
  requirement = refl;
  deletions = λ t p. refl;
  drains = λ t. refl;
  elsewhere = refl;
  named = refl;
}

-- The last check for a reboot is a nanosecond old.
abbrev in_line : Session
in_line = record {
  node = record queued {
    status = record queued.status { reboot_required_last_checked = some 999_999_999_999 };
  };
  kube_node = host;
  trace = [];
}

in_line-IsAt : IsAt "n1" (some 999_999_999_999) NodeCurrentState.queued in_line
in_line-IsAt = record {
  called = refl;
  alive = refl;
  wanted = refl;
  undrained = refl;
  checked = refl;
  observed = refl;
}

in_line-IsFresh : IsFresh (cluster queued) settings in_line
unfolding is_stale check_interval
in_line-IsFresh = refl

abbrev in_turn : Session
in_turn = record { node = waiting; kube_node = host; trace = [] }

in_turn-IsAt : IsAt "n1" waiting.status.reboot_required_last_checked NodeCurrentState.next in_turn
in_turn-IsAt = record {
  called = refl;
  alive = refl;
  wanted = refl;
  undrained = refl;
  checked = refl;
  observed = refl;
}

check_reboot_required-fresh_example :
    check_reboot_required (cluster queued) settings in_line ≡ (ok tt, in_line)
check_reboot_required-fresh_example =
    check_reboot_required-fresh (cluster queued) settings in_line 999_999_999_998 refl (omega arith)
