-- ===== src/Controller/Remembering/Parts.antt =====
-- The parts of a run.
use node_drain.Base.{
  Bool, true, false, String, ◌≡◌, ◌==◌, refl, ◌∙◌, some, none, ok, err, ◌∷◌, Result, if_intro,
}
use node_drain.Base.Keeps.{Keeps, Keeps-bind, Keeps-pure}
use node_drain.Api.{Node, NodeState, NodeCurrentState, NodeStatus, same_state, same_current_state}
use node_drain.Cluster.{
  Entry, Trace, Env, Io, KubeNode, record_entry, patched_node, patched_status, created_node,
  updated_node,
}
use node_drain.Cluster.Quiet.{Grows, IsAside, Keeps-Grows, Keeps-record_entry}
use node_drain.Controller.Objects.{
  Session, M, io, return_or, patch_reply, patch_status, set_drained, set_current_state, set_state,
  patch_kube_node, kube_reply, set_unschedulable, set_boot_id,
}
use node_drain.Controller.Remembering.{is_node_write, IsRemembering, IsCurrent}

module _ (env : Env) (name : String) (current : Trace → Node)
    (r : IsRemembering env name current) where
  abbrev pub Current : Session → Type 0
  Current = IsCurrent name current

  -- The server has this object.
  abbrev pub Has : Node → Trace → Type 0
  Has n t = current t ≡ n

  aside-keeps : (e : Entry) → IsAside e → is_node_write e ≡ false
  aside-keeps (patched_status b m a) q = cc
  aside-keeps (patched_node b m a) q = cc
  aside-keeps (created_node m a) q = cc
  aside-keeps (updated_node m a) q = cc
  aside-keeps _ q = refl

  pub Has-aside : (n : Node) (e : Entry) (t : Trace) → IsAside e → Has n t → Has n (e ∷ t)
  Has-aside n e t q h = r.kept e t (aside-keeps e q) ∙ h

  pub quiet-Has :
      {A : Type 0} (n : Node) {m : Io A}
      → ((t : Trace) → Keeps (Grows IsAside t) m)
      → Keeps (Has n) m
  quiet-Has n q = Keeps-Grows (Has-aside n) q

  pub io-Current : {A : Type 0} (m : Io A) → ((n : Node) → Keeps (Has n) m) → Keeps Current (io m)
  unfolding io
  io-Current m k = record {
    at = λ st h. record {
      same = (k st.node).at st.trace h.same;
      called = h.called;
      alive = h.alive;
    };
  }

  pub quiet-Current :
      {A : Type 0} (m : Io A) → ((t : Trace) → Keeps (Grows IsAside t) m) → Keeps Current (io m)
  quiet-Current m q = io-Current m (λ n. quiet-Has n q)

  pub event-Current : (e : Entry) → IsAside e → Keeps Current (io (record_entry e))
  event-Current e q = quiet-Current _ (λ t. Keeps-record_entry e q)

  pub patch_status-Current :
      (text : String) (change : NodeStatus → NodeStatus)
      → Keeps Current (patch_status env text change)
  unfolding patch_status patch_reply
  patch_status-Current text change = record {
    at = λ st h.
        let m : Node = record st.node { status = change st.node.status } in
        rw (r.status_patches st.trace st.node m) (record {
          same = r.status st.node m st.trace h.called;
          called = h.called;
          alive = h.alive;
        });
  }

  abbrev Left : Result (Unit {0}) × Session → Type 0
  Left x = Current x.1

  pub set_drained-Current : (d : Bool) → Keeps Current (set_drained env d)
  unfolding set_drained
  set_drained-Current d = patch_status-Current _ _

  pub set_current_state-Current : (c : NodeCurrentState) → Keeps Current (set_current_state env c)
  unfolding set_current_state
  set_current_state-Current c = record {
    at = λ st h.
        if_intro Left (same_current_state st.node.status.current_state c) _ _ (λ _. h)
          (λ _. (patch_status-Current _ _).at st h);
  }

  pub set_boot_id-Current : Keeps Current (set_boot_id env)
  unfolding set_boot_id
  set_boot_id-Current = record {
    at = λ st h.
        if_intro Left (st.kube_node.boot_id == st.node.status.boot_id) _ _ (λ _. h)
          (λ _. (patch_status-Current _ _).at st h);
  }

  pub set_state-Current : (c : NodeState) → Keeps Current (set_state env c)
  unfolding set_state patch_reply
  set_state-Current c = record {
    at = λ st h.
        let m : Node = record st.node { state = c } in
        if_intro Left (same_state st.node.state c) _ _ (λ _. h)
          (λ _. rw (r.spec_patches st.trace st.node m) (record {
            same = r.spec st.node m st.trace h.called;
            called = h.called;
            alive = h.alive;
          }));
  }

  replied :
      (m : KubeNode) (e : Entry) (a : Result KubeNode) (st : Session)
      → is_node_write e ≡ false
      → Current st
      → Current (kube_reply m e a st).1
  unfolding kube_reply
  replied m e (ok k) st q h = record {
    same = r.kept e st.trace q ∙ h.same;
    called = h.called;
    alive = h.alive;
  }
  replied m e (err x) st q h = record {
    same = r.kept e st.trace q ∙ h.same;
    called = h.called;
    alive = h.alive;
  }

  patch_kube_node-Current : (u : Bool) → Keeps Current (patch_kube_node env u)
  unfolding patch_kube_node
  patch_kube_node-Current u = record { at = λ st h. replied _ _ _ st refl h }

  pub set_unschedulable-Current : (u : Bool) → Keeps Current (set_unschedulable env u)
  unfolding set_unschedulable
  set_unschedulable-Current true = record {
    at = λ st h.
        if_intro Left st.kube_node.unschedulable _ _ (λ _. h)
          (λ _. (patch_kube_node-Current true).at st h);
  }
  set_unschedulable-Current false = record {
    at = λ st h.
        if_intro Left st.kube_node.unschedulable _ _ (λ _. (patch_kube_node-Current false).at st h)
          (λ _. h);
  }

  pub return_or-Current :
      {A : Type 0} (m : M _) (k : M A)
      → Keeps Current m
      → Keeps Current k
      → Keeps Current (return_or m k)
  unfolding return_or
  return_or-Current m k hm hk = Keeps-bind _ _ hm (elim [ some a ↦ Keeps-pure a | none ↦ hk ])
