-- ===== src/Controller/Walk/Patches.antt =====
-- node_controller.go, the functions that patch an object: the rules for what the walk asks for.
use node_drain.Base.{Bool, true, false, ◌≡◌, refl, String, ok, err, ◌==◌, Result, if_intro}
use node_drain.Base.{attempt, ◌⊎◌, inl, inr}
use node_drain.Base.Keeps.{Keeps}
use node_drain.Api.{NodeState, NodeCurrentState, NodeStatus, Node, same_state, same_current_state}
use node_drain.Api.States.{same_current_state_self}
use node_drain.Cluster.{Entry, Trace, Env, Io, KubeNode, record_entry, patched_node}
use node_drain.Cluster.{patched_kube_node}
use node_drain.Cluster.Quiet.{IsAside, Grows, Keeps-Grows, Keeps-record_entry}
use node_drain.Settings.{Settings}
use node_drain.Controller.Objects.{
  Session, io, patch_reply, kube_reply, patch_status, set_drained, set_current_state, set_state,
  patch_kube_node, set_unschedulable, set_boot_id,
}
use node_drain.Controller.Triple.{Triple, Post}
use node_drain.Controller.Walk.{is_ordinary, is_foreign, IsPreserved, OnSession}
use node_drain.Controller.Walk.Rules.{
  Sound, Triple-calls, Triple-attempt_calls, Triple-patch_status,
}

-- A patch that leaves the current state is ordinary.
pub stays : (c : NodeCurrentState) → is_ordinary c c ≡ true
stays c = rw (same_current_state_self c)

module _ (env : Env) (s : Settings) {I : Trace → Type 0} {J : Node → Trace → Type 0}
    (h : IsPreserved env s I J) where
  -- Calls without consequences, and their errors where the code looks at them.
  pub quiet :
      {A : Type 0} (m : Io A)
      → ((t : Trace) → Keeps (Grows IsAside t) m)
      → Triple I (OnSession J) (io m) (λ _. OnSession J)
  quiet m q = Triple-calls m (Keeps-Grows h.asides q) (λ n. Keeps-Grows (h.node_asides n) q)

  pub attempt_quiet :
      {A : Type 0} (m : Io A)
      → ((t : Trace) → Keeps (Grows IsAside t) m)
      → Triple I (OnSession J) (attempt (io m)) (λ _. OnSession J)
  attempt_quiet m q =
      Triple-attempt_calls m (Keeps-Grows h.asides q) (λ n. Keeps-Grows (h.node_asides n) q)

  pub entry :
      (e : Entry) → IsAside e → Triple I (OnSession J) (io (record_entry e)) (λ _. OnSession J)
  entry e q = quiet _ (λ t. Keeps-record_entry e q)

  pub patch_status-Triple :
      (text : String) (change : NodeStatus → NodeStatus)
      → ((n : Node) → is_ordinary n.status.current_state (change n.status).current_state ≡ true)
      → Triple I (OnSession J) (patch_status env text change) (λ _. OnSession J)
  patch_status-Triple text change o =
      Triple-patch_status env I J (OnSession J) text change
        (λ st r i j. h.status _ _ r st.trace refl (o st.node) i j)
        (λ st a j e. h.node_status _ _ a st.trace (o st.node) j e)

  pub set_current_state-Triple :
      (c : NodeCurrentState)
      → ((from : NodeCurrentState) → is_ordinary from c ≡ true)
      → Triple I (OnSession J) (set_current_state env c) (λ _. OnSession J)
  unfolding set_current_state
  set_current_state-Triple c o = record {
    at = λ st i j.
        if_intro (Post I (λ _. OnSession J)) (same_current_state st.node.status.current_state c) _ _
          (λ _. (i, j)) (λ _. (patch_status-Triple _ _ (λ n. o n.status.current_state)).at st i j);
  }

  pub set_drained-Triple :
      (b : Bool) → Triple I (OnSession J) (set_drained env b) (λ _. OnSession J)
  unfolding set_drained
  set_drained-Triple b = patch_status-Triple _ _ (λ n. stays n.status.current_state)

  pub set_boot_id-Triple : Triple I (OnSession J) (set_boot_id env) (λ _. OnSession J)
  unfolding set_boot_id
  set_boot_id-Triple = record {
    at = λ st i j.
        if_intro (Post I (λ _. OnSession J)) (st.kube_node.boot_id == st.node.status.boot_id) _ _
          (λ _. (i, j))
          (λ _. (patch_status-Triple _ _ (λ n. stays n.status.current_state)).at st i j);
  }

  spec-Post :
      (c : NodeState) (st : Session) (r : Result Node)
      → I st.trace
      → J st.node st.trace
      → env.patch_node st.trace st.node (record st.node { state = c }) ≡ r
      → Post I
          (λ _. OnSession J)
          (patch_reply "failed to update state on node: "
            (record st.node { state = c })
            (patched_node st.node (record st.node { state = c }) r)
            r
            st)
  unfolding patch_reply
  spec-Post c st (ok a) i j e = (h.writes _ st.trace refl i, h.node_spec st.node a c st.trace j e)
  spec-Post c st (err x) i j e = h.writes _ st.trace refl i

  pub set_state-Triple :
      (c : NodeState) → Triple I (OnSession J) (set_state env c) (λ _. OnSession J)
  unfolding set_state
  set_state-Triple c = record {
    at = λ st i j.
        if_intro (Post I (λ _. OnSession J)) (same_state st.node.state c) _ _ (λ _. (i, j))
          (λ _. spec-Post c st _ i j refl);
  }

  kube-Post :
      (m : KubeNode) (st : Session) (r : Result KubeNode)
      → (m.unschedulable ≡ true) ⊎ (is_foreign env s st.kube_node ≡ false)
      → I st.trace
      → J st.node st.trace
      → Post I (λ _. OnSession J) (kube_reply m (patched_kube_node st.kube_node m r) r st)
  unfolding kube_reply
  kube-Post m st (ok k) o i j =
      (h.kube _ m (ok k) st.trace o i, h.node_kube st.node st.kube_node m (ok k) st.trace j)
  kube-Post m st (err x) o i j = h.kube _ m (err x) st.trace o i

  pub cordon-Triple : Sound I J (set_unschedulable env true)
  unfolding set_unschedulable patch_kube_node
  cordon-Triple = record {
    at = λ st i j.
        if_intro (Post I (λ _. OnSession J)) st.kube_node.unschedulable _ _ (λ _. (i, j))
          (λ _. kube-Post _ st _ (inl refl) i j);
  }

  -- The node is uncordoned where no other manager cordoned it.
  pub uncordon-Triple :
      Triple I
        (λ st. OnSession J st × (is_foreign env s st.kube_node ≡ false))
        (set_unschedulable env false)
        (λ _. OnSession J)
  unfolding set_unschedulable patch_kube_node
  uncordon-Triple = record {
    at = λ st i p.
        if_intro (Post I (λ _. OnSession J)) st.kube_node.unschedulable _ _
          (λ _. kube-Post _ st _ (inr p.1) i p.0) (λ _. (i, p.0));
  }
