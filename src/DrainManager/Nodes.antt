-- ===== src/DrainManager/Nodes.antt =====
-- IsClusterNodesHealthy: what its two loops compute.
use node_drain.Base.{Bool, true, false, ◌≡◌, refl, ◌↔◌, List, [], ◌∷◌, All}
use node_drain.Base.{if◌then◌else◌}
use node_drain.Cluster.{KubeNode, KubeCondition}
use node_drain.DrainManager.{not_ready, check_conditions, check_nodes}

-- The node reports no Ready condition with another status than True.
abbrev pub IsReady : KubeNode → Type 0
IsReady n = All (λ c. not_ready c ≡ false) n.conditions

clash : {b : Bool} → b ≡ false → b ≡ true → ⊥
clash h k = cc

dropped : (b : Bool) → (if b then false else false) ≡ false
dropped true = refl
dropped false = refl

conditions_false : (cs : List KubeCondition) → check_conditions false cs ≡ false
unfolding check_conditions
conditions_false [] = refl
conditions_false (c ∷ cs) = rw (dropped (not_ready c)) (conditions_false cs)

-- One step of the loop, by the test of its condition.
condition_step :
    (b : Bool) (cs : List KubeCondition)
    → (check_conditions (if b then false else true) cs ≡ true)
      ↔ ((b ≡ false) × (check_conditions true cs ≡ true))
condition_step true cs =
    (λ h. elim (clash (conditions_false cs) h) [ ], λ h. elim (clash h.0 refl) [ ])
condition_step false cs = (λ h. (refl, h), λ h. h.1)

conditions_iff :
    (cs : List KubeCondition)
    → (check_conditions true cs ≡ true) ↔ All (λ c. not_ready c ≡ false) cs
unfolding check_conditions
conditions_iff [] = (λ h. tt, λ h. refl)
conditions_iff (c ∷ cs) = (
  λ h.
      let split = (condition_step (not_ready c) cs).0 h in (split.0, (conditions_iff cs).0 split.1),
  λ h. (condition_step (not_ready c) cs).1 (h.0, (conditions_iff cs).1 h.1),
)

nodes_false : (ns : List KubeNode) → check_nodes false ns ≡ false
unfolding check_nodes
nodes_false [] = refl
nodes_false (n ∷ ns) = rw (conditions_false n.conditions) (nodes_false ns)

node_step :
    (b : Bool) (ns : List KubeNode)
    → (check_nodes b ns ≡ true) ↔ ((b ≡ true) × (check_nodes true ns ≡ true))
node_step true ns = (λ h. (refl, h), λ h. h.1)
node_step false ns = (λ h. elim (clash (nodes_false ns) h) [ ], λ h. elim (clash refl h.0) [ ])

-- IsClusterNodesHealthy's loops return true exactly for a list in which every node is ready; a node
-- without a Ready condition counts as ready.
pub check_nodes-IsReady : (ns : List KubeNode) → (check_nodes true ns ≡ true) ↔ All IsReady ns
unfolding check_nodes
check_nodes-IsReady [] = (λ h. tt, λ h. refl)
check_nodes-IsReady (n ∷ ns) = (
  λ h.
      let split = (node_step (check_conditions true n.conditions) ns).0 h in
      ((conditions_iff n.conditions).0 split.0, (check_nodes-IsReady ns).0 split.1),
  λ h.
      (node_step (check_conditions true n.conditions) ns).1
        ((conditions_iff n.conditions).1 h.0, (check_nodes-IsReady ns).1 h.1),
)
