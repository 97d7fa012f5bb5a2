-- ===== src/Controller/Requeue.antt =====
-- node_controller.go: how long a run lets a node wait for the next.
pub mod Parts
pub mod Bound
use node_drain.Base.{
  ℕ, ◌≤◌, ◌*◌, Bool, true, false, ◌≡◌, Option, none, some, Result, ok, err, Error, Exec, pure, fail,
  look, ◌>>=◌, continue, if◌then◌else◌,
}
use node_drain.Controller.Objects.{CtrlResult, minute, return_or, Session, M}

-- The next run is due in five minutes or earlier.
abbrev pub IsSoon : CtrlResult → Type 0
IsSoon r = r.requeue_after ≤ 5 * minute

-- A part that goes on, or returns such a result.
abbrev pub IsSoonIfAny : Option CtrlResult → Type 0
IsSoonIfAny none = Unit
IsSoonIfAny (some r) = IsSoon r

abbrev pub Returned : {A : Type 0} → (A → Type 0) → Result A → Type 0
Returned P (ok a) = P a
Returned P (err e) = Unit

-- What the code returns has the property, if it returns no error.
pub record Returns {St A : Type 0} (P : A → Type 0) (m : Exec St A) : Type 0 where
  pub at : (s : St) → Returned P (m s).0

module _ {St A : Type 0} {P : A → Type 0} where
  pub Returns-pure : (a : A) → P a → Returns {St = St} P (pure a)
  unfolding ◌>>=◌
  Returns-pure a h = record { at = λ s. h }

  pub Returns-fail : (e : Error) → Returns {St = St} P (fail e)
  unfolding ◌>>=◌
  Returns-fail e = record { at = λ s. tt }

  pub Returns-look : (m : St → Exec St A) → ((s : St) → Returns P (m s)) → Returns P (look m)
  unfolding look
  Returns-look m h = record { at = λ s. (h s).at s }

  pub Returns-if :
      (b : Bool) (m n : Exec St A) → Returns P m → Returns P n → Returns P (if b then m else n)
  Returns-if true m n h k = h
  Returns-if false m n h k = k

module _ {St A B : Type 0} (Q : A → Type 0) (P : B → Type 0) (f : A → Exec St B)
    (h : (a : A) → Q a → Returns P (f a)) where
  continue-Returned : (r : Result A) (s : St) → Returned Q r → Returned P (continue r f s).0
  continue-Returned (ok a) s q = (h a q).at s
  continue-Returned (err e) s q = tt

  pub Returns-bind : (m : Exec St A) → Returns Q m → Returns P (m >>= f)
  unfolding ◌>>=◌
  Returns-bind m q = record { at = λ s. continue-Returned (m s).0 (m s).1 (q.at s) }

Returned-any : {A : Type 0} (r : Result A) → Returned (λ _. Unit {0}) r
Returned-any (ok a) = tt
Returned-any (err e) = tt

-- A step of which no more is asked.
pub Returns-then :
    {St A B : Type 0} (P : B → Type 0) (m : Exec St A) (f : A → Exec St B)
    → ((a : A) → Returns P (f a))
    → Returns P (m >>= f)
Returns-then P m f h =
    Returns-bind (λ _. Unit {0}) P f (λ a q. h a) m (record { at = λ s. Returned-any (m s).0 })

pub Returns-return_or :
    (m : M (Option CtrlResult)) (k : M CtrlResult)
    → Returns IsSoonIfAny m
    → Returns IsSoon k
    → Returns IsSoon (return_or m k)
unfolding return_or
Returns-return_or m k hm hk =
    Returns-bind IsSoonIfAny IsSoon _ (elim [ some r ↦ (λ q. Returns-pure r q) | none ↦ (λ q. hk) ])
      m hm
