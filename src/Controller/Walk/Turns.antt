-- ===== src/Controller/Walk/Turns.antt =====
-- `isNextNode`, where the run's node keeps what is said of it: the patch of the status is made
-- under what the list of the nodes showed.
use node_drain.Base.{Bool, ◌≡◌, refl, sym, true, false, ◌∷◌, List, All, Result, ok, err}
use node_drain.Api.{Node, NodeCurrentState, same_current_state}
use node_drain.Cluster.{Trace, Env, listed_nodes, call}
use node_drain.Cluster.Evidence.{Lasts}
use node_drain.Controller.Objects.{Session, io, set_current_state}
use node_drain.Controller.Queue.{is_next_node, leave_queue, any_working}
use node_drain.Controller.Queue.Turns.{IsIdle, All-IsIdle}
use node_drain.Controller.Triple.{
  Triple, Post, Triple-pure, Triple-gets, Triple-bind, Triple-if, Triple-weaken,
}
use node_drain.Controller.Walk.{OnSession}

-- The newest call listed the nodes.
abbrev pub JustListed : Env → List Node → Trace → Type 0
JustListed env ns t = (u : Trace) × (t ≡ listed_nodes (ok ns) ∷ u) × (env.list_nodes u ≡ ok ns)

-- The newest call listed the nodes, and none of them was at work.
abbrev pub SawIdle : Env → Trace → Type 0
SawIdle env t = (ns : List Node) × JustListed env ns t × All IsIdle ns

module _ (env : Env) (I : Trace → Type 0) (J : Node → Trace → Type 0) (asides : Lasts I)
    (node_asides : (n : Node) → Lasts (J n)) where
  list-Post :
      (st : Session) (r : Result (List Node))
      → I st.trace
      → J st.node st.trace
      → env.list_nodes st.trace ≡ r
      → Post I
          (λ ns st'. OnSession J st' × JustListed env ns st'.trace)
          (r, record st { trace = listed_nodes r ∷ st.trace })
  list-Post st (ok ns) i j e = (
    asides (listed_nodes (ok ns)) st.trace refl i,
    (node_asides st.node (listed_nodes (ok ns)) st.trace refl j, (st.trace, refl, e)),
  )
  list-Post st (err x) i j e = asides (listed_nodes (err x)) st.trace refl i

  list-Triple :
      Triple I
        (OnSession J)
        (io (call env.list_nodes listed_nodes))
        (λ ns st. OnSession J st × JustListed env ns st.trace)
  unfolding io call
  list-Triple = record { at = λ st i j. list-Post st _ i j refl }

  abbrev Turn : Session → Type 0
  Turn st =
      OnSession J st
      × (same_current_state st.node.status.current_state NodeCurrentState.queued ≡ true)
      × SawIdle env st.trace

  module _
      (h : Triple I Turn (set_current_state env NodeCurrentState.next) (λ _. OnSession J)) where
    leave_queue-Triple :
        (ns : List Node) (c : NodeCurrentState) (working : Bool)
        → any_working ns ≡ working
        → Triple I
            (λ st.
              (c ≡ st.node.status.current_state) × (OnSession J st × JustListed env ns st.trace))
            (leave_queue env working c)
            (λ _. OnSession J)
    unfolding leave_queue
    leave_queue-Triple ns c true w = Triple-pure _ (λ st q. q.1.0)
    leave_queue-Triple ns c false w =
        Triple-if (same_current_state c NodeCurrentState.queued) _ _
          (λ e.
            Triple-bind (λ _. OnSession J) _ _
              (Triple-weaken _ (λ st q. (q.1.0, rw (sym q.0) e, (ns, q.1.1, All-IsIdle ns w))) h)
              (λ _. Triple-pure _ (λ st q. q)))
          (λ _. Triple-pure _ (λ st q. q.1.0))

    pub is_next_node-Triple : Triple I (OnSession J) (is_next_node env) (λ _. OnSession J)
    unfolding is_next_node
    is_next_node-Triple = Triple-bind _ _ _ list-Triple (λ ns.
        Triple-bind
          (λ c st.
            (c ≡ st.node.status.current_state) × (OnSession J st × JustListed env ns st.trace))
          _ _ (Triple-gets _ (λ st q. (refl, q))) (λ c. leave_queue-Triple ns c _ refl))
