-- ===== src/Controller/Walk/Rules.antt =====
-- Rules for code that keeps `I`, and `J` as long as no call has failed.
use node_drain.Base.{
  true, false, String, if_intro, ◌∷◌, ◌≡◌, refl, Option, some, none, Result, ok, err, pure, attempt,
  ◌>>=◌, look,
}
use node_drain.Base.Keeps.{Keeps}
use node_drain.Api.{Node, NodeStatus, NodeCurrentState, same_current_state}
use node_drain.Cluster.{Trace, Io, Env, KubeNode, patched_status, patched_kube_node}
use node_drain.Controller.Objects.{
  Session, M, CtrlResult, io, patch_status, patch_reply, set_current_state, set_unschedulable,
  patch_kube_node, kube_reply,
}
use node_drain.Controller.Triple.{
  Triple, Going, Post, Attempted, Triple-pure, Triple-bind, Triple-attempt,
}
use node_drain.Controller.Walk.{OnSession}

call-Post :
    {A : Type 0} (I : Trace → Type 0) (J : Node → Trace → Type 0) (r : Result A) (st : Session)
    (t : Trace)
    → I t
    → J st.node t
    → Post I (λ _. OnSession J) (r, record st { trace = t })
call-Post I J (ok a) st t i j = (i, j)
call-Post I J (err e) st t i j = i

pub Triple-peek :
    {I : Trace → Type 0} {A : Type 0} {P : Session → Type 0} {Q : A → Session → Type 0}
    (m : Session → M A)
    → ((st : Session) → Triple I P (m st) Q)
    → Triple I P (look m) Q
unfolding look
Triple-peek m h = record { at = λ st. (h st).at st }

module _ {I : Trace → Type 0} {J : Node → Trace → Type 0} where
  pub Triple-calls :
      {A : Type 0} (m : Io A)
      → Keeps I m
      → ((n : Node) → Keeps (J n) m)
      → Triple I (OnSession J) (io m) (λ _. OnSession J)
  unfolding io
  Triple-calls m ki kj = record {
    at = λ st i j.
        call-Post I J (m st.trace).0 st (m st.trace).1 (ki.at st.trace i)
          ((kj st.node).at st.trace j);
  }

  -- An error of the calls leaves the node as it is.
  pub Triple-attempt_calls :
      {A : Type 0} (m : Io A)
      → Keeps I m
      → ((n : Node) → Keeps (J n) m)
      → Triple I (OnSession J) (attempt (io m)) (λ _. OnSession J)
  unfolding attempt io
  Triple-attempt_calls m ki kj = record {
    at = λ st i j. (ki.at st.trace i, (kj st.node).at st.trace j);
  }

-- The code goes on, or returns at once, after a patch that may fail.
pub Triple-retry :
    {I : Trace → Type 0} {P R : Session → Type 0} (m : M (Unit {0})) (r : CtrlResult)
    → Triple I P m (λ _. R)
    → Triple I P
        (do x ← attempt m; elim x [ err e ↦ pure (some r) | ok _ ↦ pure none ])
        (Going {A = CtrlResult} R)
Triple-retry {R} m r h =
    Triple-bind (Attempted (λ _. R)) _ _ (Triple-attempt m h)
      (elim [ err e ↦ Triple-pure _ (λ st q. tt) | ok _ ↦ Triple-pure _ (λ st q. q) ])

-- `m` keeps both; as a part that may return early, `J` holds where it goes on; and as a last part.
abbrev pub Sound : {A : Type 0} → (Trace → Type 0) → (Node → Trace → Type 0) → M A → Type 0
Sound I J m = Triple I (OnSession J) m (λ _. OnSession J)

abbrev pub Early : {A : Type 0} → (Trace → Type 0) → (Node → Trace → Type 0) → M (Option A) → Type 0
Early {A} I J m = Triple I (OnSession J) m (Going {A = A} (OnSession J))

abbrev pub Last : {A : Type 0} → (Trace → Type 0) → (Node → Trace → Type 0) → M A → Type 0
Last I J m = Triple I (OnSession J) m (λ _ _. Unit {0})

module _ (env : Env) (I : Trace → Type 0) (J : Node → Trace → Type 0) where
  module _ (P : Session → Type 0) (text : String) (change : NodeStatus → NodeStatus)
      (records : (st : Session) (r : Result Node)
        → I st.trace
        → P st
        → I (
            patched_status st.node (record st.node { status = change st.node.status }) r
            ∷ st.trace))
      (answers : (st : Session) (a : Node)
        → P st
        → env.patch_status st.trace st.node (record st.node { status = change st.node.status })
          ≡ ok a
        → J a (
            patched_status st.node (record st.node { status = change st.node.status }) (ok a)
            ∷ st.trace)) where
    reply-Post :
        (st : Session) (r : Result Node)
        → I st.trace
        → P st
        → env.patch_status st.trace st.node (record st.node { status = change st.node.status }) ≡ r
        → Post I
            (λ _. OnSession J)
            (patch_reply text
              (record st.node { status = change st.node.status })
              (patched_status st.node (record st.node { status = change st.node.status }) r)
              r
              st)
    unfolding patch_reply
    reply-Post st (ok a) i p e = (records st (ok a) i p, answers st a p e)
    reply-Post st (err x) i p e = records st (err x) i p

    -- A patch of the status under a condition.
    pub Triple-patch_status : Triple I P (patch_status env text change) (λ _. OnSession J)
    unfolding patch_status
    Triple-patch_status = record { at = λ st i p. reply-Post st _ i p refl }

  -- `setCurrentState` under a condition: where it sends no patch, the node is as it was.
  module _ (P : Session → Type 0) (c : NodeCurrentState)
      (stays : (st : Session)
        → same_current_state st.node.status.current_state c ≡ true
        → P st
        → OnSession J st)
      (records : (st : Session) (r : Result Node)
        → same_current_state st.node.status.current_state c ≡ false
        → I st.trace
        → P st
        → I (
            patched_status st.node
              (record st.node { status = record st.node.status { current_state = c } })
              r
            ∷ st.trace))
      (answers : (st : Session) (a : Node)
        → P st
        → env.patch_status st.trace st.node
            (record st.node { status = record st.node.status { current_state = c } })
          ≡ ok a
        → J a (
            patched_status st.node
              (record st.node { status = record st.node.status { current_state = c } })
              (ok a)
            ∷ st.trace)) where
    pub Triple-set_current_state : Triple I P (set_current_state env c) (λ _. OnSession J)
    unfolding set_current_state
    Triple-set_current_state = record {
      at = λ st i p.
          if_intro (Post I (λ _. OnSession J)) (same_current_state st.node.status.current_state c) _
            _ (λ q. (i, stays st q p))
            (λ d.
              (Triple-patch_status
                  (λ st'. P st' × (same_current_state st'.node.status.current_state c ≡ false)) _ _
                  (λ st' r i' p'. records st' r p'.1 i' p'.0) (λ st' a p'. answers st' a p'.0)).at
                st i (p, d));
    }

uncordoned-Post :
    (I : Trace → Type 0) (R : Session → Type 0) (st : Session) (m : KubeNode) (r : Result KubeNode)
    → I (patched_kube_node st.kube_node m r ∷ st.trace)
    → ((k : KubeNode)
        → R (record st {
          kube_node = k;
          trace = patched_kube_node st.kube_node m (ok k) ∷ st.trace;
        }))
    → Post I (λ _. R) (kube_reply m (patched_kube_node st.kube_node m r) r st)
unfolding kube_reply
uncordoned-Post I R st m (ok k) i j = (i, j k)
uncordoned-Post I R st m (err e) i j = i

-- The node is uncordoned under a condition.
pub Triple-uncordon :
    (env : Env) (I : Trace → Type 0) (P R : Session → Type 0)
    → ((st : Session) (r : Result KubeNode)
        → I st.trace
        → P st
        → I (
            patched_kube_node st.kube_node (record st.kube_node { unschedulable = false }) r
            ∷ st.trace))
    → ((st : Session) → P st → R st)
    → ((st : Session) (k : KubeNode)
        → P st
        → R (record st {
          kube_node = k;
          trace =
              patched_kube_node st.kube_node (record st.kube_node { unschedulable = false }) (ok k)
              ∷ st.trace;
        }))
    → Triple I P (set_unschedulable env false) (λ _. R)
unfolding set_unschedulable patch_kube_node
Triple-uncordon env I P R records stays answers = record {
  at = λ st i p.
      if_intro (Post I (λ _. R)) st.kube_node.unschedulable _ _
        (λ _. uncordoned-Post I R st _ _ (records st _ i p) (λ k. answers st k p))
        (λ _. (i, stays st p));
}
