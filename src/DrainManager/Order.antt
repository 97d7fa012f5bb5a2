-- ===== src/DrainManager/Order.antt =====
-- drain-manager.go: the loops of IsHealthy and IsDrainOk go over a Go map, in any order. Where the
-- replies do not depend on the calls before them, the answer does not depend on the order.
pub mod Rounds
pub mod Answers
use mathlib.Core.List.{Perm, foldr}
use mathlib.Core.List.Perm
use node_drain.Base.{
  String, Bool, true, false, ◌&&◌, ◌≡◌, ◌⊎◌, inl, inr, refl, sym, ap, ◌∙◌, List, [], ◌∷◌, Error,
  Result, ok, err, Option, none, some, arith, attempt, lift, fail, pure, continue, ◌>>=◌, ◌>>◌,
}
use node_drain.Base.Outcomes.{Outcome, Outcome-bind, Outcome-map, Outcome-pure}
use node_drain.Cluster.{
  Entry, Trace, Env, KubeNode, call, record_entry, asked_drain_ok, asked_healthy,
}
use node_drain.DrainManager.{
  Round, start_round, add_status, add_error, join_errors, verdict, judge, check_nodes, is_supported,
  ask_plugin, ask_plugins, is_cluster_nodes_healthy, is_healthy, is_drain_ok,
}

-- An answer that lets the caller go on.
abbrev pub is_yes : Result Bool → Bool
is_yes (ok b) = b
is_yes (err e) = false

-- A plugin that does not support the cluster has no say.
abbrev pub agrees : Result Bool → Result Bool → Bool
agrees (ok true) answer = is_yes answer
agrees (ok false) answer = true
agrees (err e) answer = false

-- All plugins agree, asked in the order of the list.
abbrev pub all_agree : (String → Result Bool) → (String → Result Bool) → List String → Bool
all_agree supported answer ids = foldr (λ id b. agrees (supported id) (answer id) && b) true ids

abbrev pub nodes_ready : Result (List KubeNode) → Bool
nodes_ready (ok ns) = check_nodes true ns
nodes_ready (err e) = false

-- The replies of one moment.
pub record Replies : Type 0 where
  pub nodes : Result (List KubeNode)
  pub supported : String → Result Bool
  pub healthy : String → Result Bool
  pub drain_ok : String → String → Result Bool

-- The environment gives these replies, whatever was called before.
pub record IsSteady (env : Env) (r : Replies) : Type 0 where
  pub nodes : (t : Trace) → env.list_kube_nodes t ≡ r.nodes
  pub supported : (t : Trace) (id : String) → env.is_supported t id ≡ r.supported id
  pub healthy : (t : Trace) (id : String) → env.is_healthy t id ≡ r.healthy id
  pub drain_ok : (t : Trace) (id node : String) → env.is_drain_ok t id node ≡ r.drain_ok id node

and_swap : (a b c : Bool) → a && (b && c) ≡ b && (a && c)
and_swap a b c = ground arith

pub and_assoc : (a b c : Bool) → (a && b) && c ≡ a && (b && c)
and_assoc a b c = ground arith

pub and_true : (b : Bool) → b && true ≡ b
and_true b = ground arith

pub all_agree-perm :
    (supported answer : String → Result Bool) {ps qs : List String}
    → Perm ps qs
    → all_agree supported answer ps ≡ all_agree supported answer qs
all_agree-perm supported answer p =
    let also : String → Bool → Bool = λ id b. agrees (supported id) (answer id) && b in
    let swapped : (i j : String) (b : Bool) → also i (also j b) ≡ also j (also i b) =
      λ i j b. and_swap (agrees (supported i) (answer i)) (agrees (supported j) (answer j)) b in
    let set : IsSet Bool = hlevel in Perm.foldr-eq set also swapped p true
