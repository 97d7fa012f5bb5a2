-- ===== src/Controller/Queue/Turns.antt =====
-- The queue: who gets the next turn.
use node_drain.Base.{Bool, true, false, ◌≡◌, refl, List, [], ◌∷◌, All, ok, err, ◌||◌}
use node_drain.Base.{Result, ap}
use node_drain.Api.{Node, NodeCurrentState, same_current_state, work_state}
use node_drain.Cluster.{Trace, Env, call, listed_nodes}
use node_drain.Controller.Objects.{Session, M, io}
use node_drain.Controller.Queue.{any_working, leave_queue, is_next_node}
use node_drain.Controller.Triple.{Triple, Post, Triple-bind, Triple-pure, Triple-if, Triple-gets}

abbrev pub IsIdle : Node → Type 0
IsIdle n = work_state n.status.current_state ≡ false

or_false : (a b : Bool) → a || b ≡ false → (a ≡ false) × (b ≡ false)
or_false true b h = cc
or_false false b h = (refl, h)

pub All-IsIdle : (ns : List Node) → any_working ns ≡ false → All IsIdle ns
unfolding any_working
All-IsIdle [] h = tt
All-IsIdle (n ∷ ns) h =
    let split = or_false (work_state n.status.current_state) (any_working ns) h in
    (split.0, All-IsIdle ns split.1)

module _ (env : Env) where
  abbrev Anything : Trace → Type 0
  Anything t = Unit {0}

  -- The node has its turn: it waits, and no node that was listed works.
  abbrev pub HasTurn : Session → Bool → Type 0
  HasTurn st b =
      b ≡ true
      → (same_current_state st.node.status.current_state NodeCurrentState.queued ≡ true)
        × ((ns : List Node) × (env.list_nodes st.trace ≡ ok ns) × All IsIdle ns)

  listed :
      (st : Session) (r : Result (List Node))
      → env.list_nodes st.trace ≡ r
      → Post Anything
          (λ ns st'. (st'.node ≡ st.node) × (env.list_nodes st.trace ≡ ok ns))
          (r, record st { trace = listed_nodes r ∷ st.trace })
  listed st (ok ns) e = (tt, (refl, e))
  listed st (err x) e = tt

  any-Post : {A : Type 0} (r : Result A) (st : Session) → Post Anything (λ _ _. Unit {0}) (r, st)
  any-Post (ok a) st = (tt, tt)
  any-Post (err e) st = tt

  Triple-any : {A : Type 0} {P : Session → Type 0} (m : M A) → Triple Anything P m (λ _ _. Unit {0})
  Triple-any m = record { at = λ st i p. any-Post (m st).0 (m st).1 }

  leave_queue-Triple :
      (st : Session) (ns : List Node) (b : Bool)
      → any_working ns ≡ b
      → env.list_nodes st.trace ≡ ok ns
      → Triple Anything
          (λ _. Unit {0})
          (leave_queue env b st.node.status.current_state)
          (λ x _. HasTurn st x)
  unfolding leave_queue
  leave_queue-Triple st ns true e l = Triple-pure _ (λ st' q c. cc)
  leave_queue-Triple st ns false e l =
      Triple-if (same_current_state st.node.status.current_state NodeCurrentState.queued) _ _
        (λ q.
          Triple-bind (λ _ _. Unit {0}) _ _ (Triple-any _)
            (λ _. Triple-pure _ (λ st' p c. (q, (ns, l, All-IsIdle ns e)))))
        (λ _. Triple-pure _ (λ st' q c. cc))

  listed-Triple :
      (st : Session)
      → Triple Anything
          (λ st'. st' ≡ st)
          (io (call env.list_nodes listed_nodes))
          (λ ns st'. (st'.node ≡ st.node) × (env.list_nodes st.trace ≡ ok ns))
  unfolding io call
  listed-Triple st = record { at = λ st' i p. rw p (listed st (env.list_nodes st.trace) refl) }

  -- If isNextNode returns true for a node, the node was Queued and no node in the list that it got
  -- is in a state of work.
  pub is_next_node-HasTurn :
      (st : Session) → Post Anything (λ b _. HasTurn st b) (is_next_node env st)
  unfolding is_next_node
  is_next_node-HasTurn st =
      (Triple-bind _ _ _ (listed-Triple st) (λ ns.
          Triple-bind
            (λ c _. (c ≡ st.node.status.current_state) × (env.list_nodes st.trace ≡ ok ns)) _ _
            (Triple-gets _ (λ st' q. (ap (λ n. n.status.current_state) q.0, q.1)))
            (λ c. record {
              at = λ st' i q. rw q.0 ((leave_queue-Triple st ns _ refl q.1).at st' tt tt);
            }))).at
        st tt refl
