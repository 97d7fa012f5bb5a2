-- ===== src/Examples/Settles.antt =====
-- A server that remembers one node, which is to be drained: test data, and the runs until it is.
use node_drain.Base.{true, ok, some, [], ◌∷◌}
use node_drain.Api.{Node, NodeState, NodeCurrentState}
use node_drain.Cluster.{Trace, Env, KubeNode, patched_status, patched_node}
use node_drain.Examples.{queued, host, claim, cluster}

abbrev resting : Node
resting = record queued {
  status = record queued.status {
    current_state = NodeCurrentState.ok;
    reboot_required_last_checked = some 999_999_999_999;
  };
}

abbrev latest : Node → Trace → Node
latest n [] = n
latest n (patched_status b m (ok a) ∷ t) = a
latest n (patched_node b m (ok a) ∷ t) = a
latest n (_ ∷ t) = latest n t

-- The manager's own claim on the node.
abbrev own_host : KubeNode
own_host = record host { managed_fields = record claim { manager = "node-drain-manager" } ∷ [] }

abbrev memory : Node → Env
memory n = record (cluster queued) {
  get_kube_node = λ t name. ok own_host;
  get_node = λ t name. ok (latest n t);
  list_nodes = λ t. ok (latest n t ∷ []);
}

-- The node after its drain, when it is to be active again.
abbrev released : Node
released = record resting {
  state = NodeState.active;
  status = record resting.status { current_state = NodeCurrentState.drained; drained = true };
}
