-- ===== src/Controller/Early.antt =====
-- The rule for a part of a function that surely returns early.
use node_drain.Base.{◌≡◌, Option, some, none, pure, ◌>>=◌}
use node_drain.Base.Outcomes.{Outcome, Outcome-bind}
use node_drain.Controller.Objects.{Session, M, return_or}

module _ (E : Session → Type 0) {A : Type 0} (P : Session → Type 0) (a : A) where
  ended :
      (k : M A) (r : Option A) (st : Session)
      → (r ≡ some a) × P st
      → (let rest : M A = elim r [ some b ↦ pure b | none ↦ k ] in
          Outcome E (λ b st'. (b ≡ a) × P st') (rest st))
  unfolding ◌>>=◌
  ended k none st h = let e = h.0 in cc
  ended k (some b) st h = (cc, h.1)

  pub return_or-Early :
      (m : M (Option A)) (k : M A) (st : Session)
      → Outcome E (λ r st'. (r ≡ some a) × P st') (m st)
      → Outcome E (λ b st'. (b ≡ a) × P st') (return_or m k st)
  unfolding return_or
  return_or-Early m k st h =
      Outcome-bind E (λ r st'. (r ≡ some a) × P st') (λ b st'. (b ≡ a) × P st') m _ st h
        (λ r st1 h1. ended k r st1 h1)
