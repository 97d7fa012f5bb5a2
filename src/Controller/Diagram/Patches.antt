-- ===== src/Controller/Diagram/Patches.antt =====
-- node_controller.go, the functions that patch one field: the diagram along it.
use node_drain.Base.{Bool, true, false, ◌≡◌, refl, String, inl, inr, Bool-cases, ok, err, Result}
use node_drain.Base.{◌==◌, ◌∷◌, if_intro}
use node_drain.Api.{NodeState, NodeCurrentState, NodeStatus, Node, same_state, same_current_state}
use node_drain.Api.States.{same_current_state→eq, same_current_state_self}
use node_drain.Cluster.{KubeNode, Entry, patched_status, patched_node, Trace, Env}
use node_drain.Controller.Objects.{Session, patch_reply, patch_status, set_drained}
use node_drain.Controller.Objects.{set_current_state, set_state, set_unschedulable, set_boot_id}
use node_drain.Controller.Objects.{patch_kube_node, kube_reply}
use node_drain.Controller.Triple.{Triple, Post}
use node_drain.Controller.Diagram.{may_follow, AllFollow, IsUndisturbed}

pub stays : (a : NodeCurrentState) → may_follow a a ≡ true
stays a = rw (same_current_state_self a)

module _ (env : Env) (u : IsUndisturbed env) where
  module _ (P Q : Session → Type 0) (text : String) (change : NodeStatus → NodeStatus)
      (follows : (st : Session)
        → P st
        → may_follow st.node.status.current_state (change st.node.status).current_state ≡ true)
      (after : (st : Session) (n : Node) (t : Trace)
        → P st
        → n.status.current_state ≡ (change st.node.status).current_state
        → n.state ≡ st.node.state
        → n.status.drained ≡ (change st.node.status).drained
        → Q (record st { node = n; trace = t })) where
    abbrev changed : Session → Node
    changed st = record st.node { status = change st.node.status }

    answer-Post :
        (st : Session)
        → AllFollow st.trace
        → P st
        → (r : Result Node) → env.patch_status st.trace st.node (changed st) ≡ r
        → Post AllFollow
            (λ _. Q)
            (patch_reply text (changed st) (patched_status st.node (changed st) r) r st)
    unfolding patch_reply
    answer-Post st i p (ok n) e =
        let (c, s, d, _) = u.status_answer st.trace st.node (changed st) n e in
        ((follows st p, i), after st n _ p c s d)
    answer-Post st i p (err e') e = (follows st p, i)

    -- A patch that follows the diagram: the answer has the fields of the request.
    pub patch_status-Triple : Triple AllFollow P (patch_status env text change) (λ _. Q)
    unfolding patch_status
    patch_status-Triple = record { at = λ st i p. answer-Post st i p _ refl }

  module _ (P Q : Session → Type 0) where
    pub set_drained-Triple :
        (b : Bool)
        → ((st : Session) (n : Node) (t : Trace)
            → P st
            → n.status.current_state ≡ st.node.status.current_state
            → n.state ≡ st.node.state
            → n.status.drained ≡ b
            → Q (record st { node = n; trace = t }))
        → Triple AllFollow P (set_drained env b) (λ _. Q)
    unfolding set_drained
    set_drained-Triple b after =
        patch_status-Triple P Q _ _ (λ st p. stays st.node.status.current_state) after

    pub set_current_state-Triple :
        (c : NodeCurrentState)
        → ((st : Session) → P st → may_follow st.node.status.current_state c ≡ true)
        → ((st : Session) → P st → st.node.status.current_state ≡ c → Q st)
        → ((st : Session) (n : Node) (t : Trace)
            → P st
            → n.status.current_state ≡ c
            → n.state ≡ st.node.state
            → n.status.drained ≡ st.node.status.drained
            → Q (record st { node = n; trace = t }))
        → Triple AllFollow P (set_current_state env c) (λ _. Q)
    unfolding set_current_state
    set_current_state-Triple c follows there after = record {
      at = λ st i p. elim (Bool-cases (same_current_state st.node.status.current_state c)) [
        | inl e ↦ rw e (i, there st p (same_current_state→eq _ _ e))
        | inr e ↦ rw e ((patch_status-Triple P Q _ _ follows after).at st i p)
      ];
    }

    pub set_boot_id-Triple :
        ((st : Session) → P st → Q st)
        → ((st : Session) (n : Node) (t : Trace)
            → P st
            → n.status.current_state ≡ st.node.status.current_state
            → n.state ≡ st.node.state
            → n.status.drained ≡ st.node.status.drained
            → Q (record st { node = n; trace = t }))
        → Triple AllFollow P (set_boot_id env) (λ _. Q)
    unfolding set_boot_id
    set_boot_id-Triple there after = record {
      at = λ st i p. elim (Bool-cases (st.kube_node.boot_id == st.node.status.boot_id)) [
        | inl e ↦ rw e (i, there st p)
        | inr e ↦ rw e (
            (patch_status-Triple P Q _ (λ v. record v { boot_id = st.kube_node.boot_id })
                (λ st' _. stays st'.node.status.current_state) after).at
              st i p)
      ];
    }

    spec-Post :
        ((st : Session) (n : Node) (t : Trace)
          → P st
          → n.status.current_state ≡ st.node.status.current_state
          → Q (record st { node = n; trace = t }))
        → (c : NodeState) (st : Session) → AllFollow st.trace
        → P st
        → (r : Result Node) → env.patch_node st.trace st.node (record st.node { state = c }) ≡ r
        → Post AllFollow
            (λ _. Q)
            (patch_reply "failed to update state on node: "
              (record st.node { state = c })
              (patched_node st.node (record st.node { state = c }) r)
              r
              st)
    unfolding patch_reply
    spec-Post after c st i p (ok n) e =
        let (same, _, _, _) = u.spec_answer st.trace st.node (record st.node { state = c }) n e in
        ((tt, i), after st n _ p same)
    spec-Post after c st i p (err e') e = (tt, i)

    pub set_state-Triple :
        (c : NodeState)
        → ((st : Session) → P st → Q st)
        → ((st : Session) (n : Node) (t : Trace)
            → P st
            → n.status.current_state ≡ st.node.status.current_state
            → Q (record st { node = n; trace = t }))
        → Triple AllFollow P (set_state env c) (λ _. Q)
    unfolding set_state
    set_state-Triple c there after = record {
      at = λ st i p. elim (Bool-cases (same_state st.node.state c)) [
        | inl e ↦ rw e (i, there st p)
        | inr e ↦ rw e (
            spec-Post after c st i p
              (env.patch_node st.trace st.node (record st.node { state = c })) refl)
      ];
    }

    kube_reply-Post :
        (m : KubeNode) (e : Entry) (r : Result KubeNode) (st : Session)
        → AllFollow (e ∷ st.trace)
        → ((k : KubeNode) (t : Trace) → Q (record st { kube_node = k; trace = t }))
        → Post AllFollow (λ _. Q) (kube_reply m e r st)
    unfolding kube_reply
    kube_reply-Post m e (ok k) st i after = (i, after k _)
    kube_reply-Post m e (err _) st i after = i

    kube-Post :
        ((st : Session) (k : KubeNode) (t : Trace)
          → P st
          → Q (record st { kube_node = k; trace = t }))
        → (b : Bool) (st : Session) → AllFollow st.trace
        → P st
        → Post AllFollow (λ _. Q) (patch_kube_node env b st)
    unfolding patch_kube_node
    kube-Post after b st i p =
        kube_reply-Post _ _
          (env.patch_kube_node st.trace st.kube_node (record st.kube_node { unschedulable = b })) st
          (tt, i) (λ k t. after st k t p)

    unschedulable-Post :
        ((st : Session) (k : KubeNode) (t : Trace)
          → P st
          → Q (record st { kube_node = k; trace = t }))
        → (b : Bool) (st : Session) → AllFollow st.trace
        → P st
        → Post AllFollow (λ _. Q) (set_unschedulable env b st)
    unfolding set_unschedulable
    unschedulable-Post after true st i p =
        if_intro (Post AllFollow (λ _. Q)) st.kube_node.unschedulable _ _
          (λ _. (i, after st st.kube_node st.trace p)) (λ _. kube-Post after true st i p)
    unschedulable-Post after false st i p =
        if_intro (Post AllFollow (λ _. Q)) st.kube_node.unschedulable _ _
          (λ _. kube-Post after false st i p) (λ _. (i, after st st.kube_node st.trace p))

    pub set_unschedulable-Triple :
        (b : Bool)
        → ((st : Session) (k : KubeNode) (t : Trace)
            → P st
            → Q (record st { kube_node = k; trace = t }))
        → Triple AllFollow P (set_unschedulable env b) (λ _. Q)
    unfolding set_unschedulable patch_kube_node
    set_unschedulable-Triple b after = record { at = λ st i p. unschedulable-Post after b st i p }
