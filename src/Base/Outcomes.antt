-- ===== src/Base/Outcomes.antt =====
-- What a run of code with state leaves: one condition where it returns a value, another where it
-- returns an error.
use node_drain.Base.{◌≡◌, refl, Bool, true, false, String, if◌then◌else◌}
use node_drain.Base.{
  Error, Result, ok, err, Exec, pure, fail, gets, lift, wrapping, wrapped, continue, ◌>>=◌,
}

abbrev pub Outcome : {St A : Type 0} → (St → Type 0) → (A → St → Type 0) → Result A × St → Type 0
Outcome E Q (ok a, s) = Q a s
Outcome E Q (err e, s) = E s

-- Both conditions may be replaced by weaker ones.
pub Outcome-map :
    {St A : Type 0} (E E' : St → Type 0) (Q Q' : A → St → Type 0)
    → ((s : St) → E s → E' s)
    → ((a : A) (s : St) → Q a s → Q' a s)
    → (r : Result A) (s : St) → Outcome E Q (r, s)
    → Outcome E' Q' (r, s)
Outcome-map E E' Q Q' f g (ok a) s h = g a s h
Outcome-map E E' Q Q' f g (err e) s h = f s h

module _ {St : Type 0} (E : St → Type 0) where
  continue-Outcome :
      {A B : Type 0} (R : A → St → Type 0) (Q : B → St → Type 0) (f : A → Exec St B)
      → ((a : A) (s : St) → R a s → Outcome E Q (f a s))
      → (r : Result A) (s : St) → Outcome E R (r, s)
      → Outcome E Q (continue r f s)
  continue-Outcome R Q f k (ok a) s h = k a s h
  continue-Outcome R Q f k (err e) s h = h

  pub Outcome-bind :
      {A B : Type 0} (R : A → St → Type 0) (Q : B → St → Type 0) (m : Exec St A) (f : A → Exec St B)
      (s : St)
      → Outcome E R (m s)
      → ((a : A) (s' : St) → R a s' → Outcome E Q (f a s'))
      → Outcome E Q ((m >>= f) s)
  unfolding ◌>>=◌
  Outcome-bind R Q m f s h k = continue-Outcome R Q f k (m s).0 (m s).1 h

  wrapped-Outcome :
      {A : Type 0} (Q : A → St → Type 0) (text : String) (r : Result A) (s : St)
      → Outcome E Q (r, s)
      → Outcome E Q (wrapped text r, s)
  wrapped-Outcome Q text (ok a) s h = h
  wrapped-Outcome Q text (err e) s h = h

  pub Outcome-wrapping :
      {A : Type 0} (Q : A → St → Type 0) (text : String) (m : Exec St A) (s : St)
      → Outcome E Q (m s)
      → Outcome E Q (wrapping text m s)
  unfolding wrapping
  Outcome-wrapping Q text m s h = wrapped-Outcome Q text (m s).0 (m s).1 h

  pub Outcome-weaken :
      {A : Type 0} (Q Q' : A → St → Type 0) (m : Exec St A) (s : St)
      → ((a : A) (s' : St) → Q a s' → Q' a s')
      → Outcome E Q (m s)
      → Outcome E Q' (m s)
  Outcome-weaken Q Q' m s f h = Outcome-map E E Q Q' (λ s' q. q) f (m s).0 (m s).1 h

  pub Outcome-pure :
      {A : Type 0} (Q : A → St → Type 0) (a : A) (s : St) → Q a s → Outcome E Q (pure a s)
  unfolding ◌>>=◌
  Outcome-pure Q a s h = h

  pub Outcome-gets :
      {A : Type 0} (Q : A → St → Type 0) (f : St → A) (s : St) → Q (f s) s → Outcome E Q (gets f s)
  unfolding ◌>>=◌
  Outcome-gets Q f s h = h

  pub Outcome-fail :
      {A : Type 0} (Q : A → St → Type 0) (e : Error) (s : St) → E s → Outcome E Q (fail e s)
  unfolding ◌>>=◌
  Outcome-fail Q e s h = h

  -- A reply, with what follows from it.
  pub Outcome-reply :
      {A : Type 0} (Q : A → St → Type 0) (r : Result A) (s : St)
      → E s
      → ((a : A) → r ≡ ok a → Q a s)
      → Outcome E Q (r, s)
  Outcome-reply Q (ok a) s h k = k a refl
  Outcome-reply Q (err e) s h k = h

  pub Outcome-lift :
      {A : Type 0} (Q : A → St → Type 0) (r : Result A) (s : St)
      → E s
      → ((a : A) → r ≡ ok a → Q a s)
      → Outcome E Q (lift r s)
  unfolding ◌>>=◌
  Outcome-lift Q r s h k = Outcome-reply Q r s h k

  pub Outcome-if :
      {A : Type 0} (Q : A → St → Type 0) (b : Bool) (m n : Exec St A) (s : St)
      → (b ≡ true → Outcome E Q (m s))
      → (b ≡ false → Outcome E Q (n s))
      → Outcome E Q ((if b then m else n) s)
  Outcome-if Q true m n s hm hn = hm refl
  Outcome-if Q false m n s hm hn = hn refl
