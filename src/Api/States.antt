-- ===== src/Api/States.antt =====
-- node_types.go: laws of the tests on the two states.
use node_drain.Base.{true, ◌≡◌, refl, ap, arith, eq_iff}
use node_drain.Api.{NodeState, NodeCurrentState, same_state, same_current_state}

pub same_state→eq : (a b : NodeState) → same_state a b ≡ true → a ≡ b
same_state→eq NodeState.active NodeState.active h = refl
same_state→eq (NodeState.other s) (NodeState.other t) h = ap NodeState.other ((eq_iff s t).0 h)
same_state→eq a b h = ground arith

pub same_current_state→eq : (a b : NodeCurrentState) → same_current_state a b ≡ true → a ≡ b
same_current_state→eq NodeCurrentState.ok NodeCurrentState.ok h = refl
same_current_state→eq (NodeCurrentState.other s) (NodeCurrentState.other t) h =
    ap NodeCurrentState.other ((eq_iff s t).0 h)
same_current_state→eq a b h = ground arith

pub same_current_state_self : (a : NodeCurrentState) → same_current_state a a ≡ true
same_current_state_self (NodeCurrentState.other s) = (eq_iff s s).1 refl
same_current_state_self NodeCurrentState.ok = refl
same_current_state_self _ = refl
