-- ===== src/Cluster/Hoare.antt =====
-- Pre- and postconditions of code that makes calls, beside an invariant `I` of the trace that holds
-- whether the code returns a value or an error.
use node_drain.Base.{String, Error, Result, ok, err, pure, fail, lift, attempt, wrapping, wrapped}
use node_drain.Base.{◌≡◌, refl, Bool, true, false, if◌then◌else◌, ◌>>=◌, continue, ◌∷◌}
use node_drain.Base.Keeps.{Keeps}
use node_drain.Cluster.{Trace, Entry, Io, call, record_entry}

abbrev pub Leaves :
    {A : Type 0} → (Trace → Type 0) → (A → Trace → Type 0) → Result A × Trace → Type 0
Leaves I Q (ok a, t) = I t × Q a t
Leaves I Q (err e, t) = I t

abbrev pub Tried : {A : Type 0} → (A → Trace → Type 0) → Result A → Trace → Type 0
Tried Q (ok a) t = Q a t
Tried Q (err e) t = Unit

pub record Hoare {A : Type 0} (I P : Trace → Type 0) (m : Io A) (Q : A → Trace → Type 0)
    : Type 0 where
  pub at : (t : Trace) → I t → P t → Leaves I Q (m t)

pub Hoare-pure :
    {I : Trace → Type 0} {A : Type 0} {P : Trace → Type 0} {Q : A → Trace → Type 0} (a : A)
    → ((t : Trace) → P t → Q a t)
    → Hoare I P (pure a) Q
unfolding ◌>>=◌
Hoare-pure a h = record { at = λ t i p. (i, h t p) }

pub Hoare-fail :
    {I : Trace → Type 0} {A : Type 0} {P : Trace → Type 0} {Q : A → Trace → Type 0} (e : Error)
    → Hoare I P (fail e) Q
unfolding ◌>>=◌
Hoare-fail e = record { at = λ t i p. i }

lift-Leaves :
    {A : Type 0} (K : Trace → Type 0) (Q : A → Trace → Type 0) (r : Result A) (t : Trace)
    → K t
    → ((a : A) → r ≡ ok a → Q a t)
    → Leaves K Q (r, t)
lift-Leaves K Q (ok a) t i q = (i, q a refl)
lift-Leaves K Q (err e) t i q = i

pub Hoare-lift :
    {I : Trace → Type 0} {A : Type 0} {P : Trace → Type 0} {Q : A → Trace → Type 0} (r : Result A)
    → ((a : A) (t : Trace) → r ≡ ok a → P t → Q a t)
    → Hoare I P (lift r) Q
unfolding ◌>>=◌
Hoare-lift r q = record { at = λ t i p. lift-Leaves _ _ r t i (λ a e. q a t e p) }

continue-Leaves :
    {I : Trace → Type 0} {A B : Type 0} {R : A → Trace → Type 0} {Q : B → Trace → Type 0}
    (f : A → Io B)
    → ((a : A) → Hoare I (R a) (f a) Q)
    → (r : Result A) (t : Trace) → Leaves I R (r, t)
    → Leaves I Q (continue r f t)
continue-Leaves f k (ok a) t h = (k a).at t h.0 h.1
continue-Leaves f k (err e) t h = h

pub Hoare-bind :
    {I : Trace → Type 0} {A B : Type 0} {P : Trace → Type 0} {Q : B → Trace → Type 0}
    (R : A → Trace → Type 0) (m : Io A) (f : A → Io B)
    → Hoare I P m R
    → ((a : A) → Hoare I (R a) (f a) Q)
    → Hoare I P (m >>= f) Q
unfolding ◌>>=◌
Hoare-bind R m f h k = record { at = λ t i p. continue-Leaves f k (m t).0 (m t).1 (h.at t i p) }

tried :
    {A : Type 0} (K : Trace → Type 0) (Q : A → Trace → Type 0) (r : Result A) (t : Trace)
    → Leaves K Q (r, t)
    → K t × Tried Q r t
tried K Q (ok a) t h = h
tried K Q (err e) t h = (h, tt)

pub Hoare-attempt :
    {I : Trace → Type 0} {A : Type 0} {P : Trace → Type 0} {Q : A → Trace → Type 0} (m : Io A)
    → Hoare I P m Q
    → Hoare I P (attempt m) (Tried Q)
unfolding attempt
Hoare-attempt m h = record { at = λ t i p. tried _ _ (m t).0 (m t).1 (h.at t i p) }

still_wrapped :
    {A : Type 0} (K : Trace → Type 0) (text : String) (Q : A → Trace → Type 0) (r : Result A)
    (t : Trace)
    → Leaves K Q (r, t)
    → Leaves K Q (wrapped text r, t)
still_wrapped K text Q (ok a) t h = h
still_wrapped K text Q (err e) t h = h

pub Hoare-wrapping :
    {I : Trace → Type 0} {A : Type 0} {P : Trace → Type 0} {Q : A → Trace → Type 0} (text : String)
    (m : Io A)
    → Hoare I P m Q
    → Hoare I P (wrapping text m) Q
unfolding wrapping
Hoare-wrapping text m h = record {
  at = λ t i p. still_wrapped _ text _ (m t).0 (m t).1 (h.at t i p);
}

reply-Leaves :
    {A : Type 0} (K : Trace → Type 0) (Q : A → Trace → Type 0) (entry : Result A → Entry)
    (r : Result A) (t : Trace)
    → ((s : Result A) → K (entry s ∷ t))
    → ((a : A) → Q a (entry (ok a) ∷ t))
    → Leaves K Q (r, entry r ∷ t)
reply-Leaves K Q entry (ok a) t i q = (i (ok a), q a)
reply-Leaves K Q entry (err e) t i q = i (err e)

pub Hoare-call :
    {I : Trace → Type 0} {A : Type 0} {P : Trace → Type 0} {Q : A → Trace → Type 0}
    (reply : Trace → Result A) (entry : Result A → Entry)
    → ((s : Result A) (t : Trace) → I t → P t → I (entry s ∷ t))
    → ((a : A) (t : Trace) → I t → P t → Q a (entry (ok a) ∷ t))
    → Hoare I P (call reply entry) Q
unfolding call
Hoare-call reply entry i q = record {
  at = λ t j p. reply-Leaves _ _ entry (reply t) t (λ s. i s t j p) (λ a. q a t j p);
}

pub Hoare-entry :
    {I : Trace → Type 0} {P : Trace → Type 0} {Q : Trace → Type 0} (e : Entry)
    → ((t : Trace) → I t → P t → I (e ∷ t) × Q (e ∷ t))
    → Hoare I P (record_entry e) (λ _. Q)
unfolding record_entry
Hoare-entry e q = record { at = λ t i p. q t i p }

Leaves-weaken :
    {A : Type 0} (K : Trace → Type 0) {Q Q' : A → Trace → Type 0}
    → ((a : A) (t : Trace) → Q a t → Q' a t)
    → (r : Result A) (t : Trace) → Leaves K Q (r, t)
    → Leaves K Q' (r, t)
Leaves-weaken K w (ok a) t h = (h.0, w a t h.1)
Leaves-weaken K w (err e) t h = h

pub Hoare-conclude :
    {I : Trace → Type 0} {A : Type 0} {P : Trace → Type 0} {Q Q' : A → Trace → Type 0} {m : Io A}
    → ((a : A) (t : Trace) → Q a t → Q' a t)
    → Hoare I P m Q
    → Hoare I P m Q'
Hoare-conclude {m} w h = record { at = λ t i p. Leaves-weaken _ w (m t).0 (m t).1 (h.at t i p) }

pub Hoare-weaken :
    {I : Trace → Type 0} {A : Type 0} {P P' : Trace → Type 0} {Q : A → Trace → Type 0} {m : Io A}
    → ((t : Trace) → P' t → P t)
    → Hoare I P m Q
    → Hoare I P' m Q
Hoare-weaken w h = record { at = λ t i p. h.at t i (w t p) }

Leaves-trace :
    {A : Type 0} (K : Trace → Type 0) (Q : A → Trace → Type 0) (r : Result A) (t : Trace)
    → Leaves K Q (r, t)
    → K t
Leaves-trace K Q (ok a) t h = h.0
Leaves-trace K Q (err e) t h = h

pub Hoare→Keeps :
    {I : Trace → Type 0} {A : Type 0} {Q : A → Trace → Type 0} (m : Io A)
    → Hoare I (λ _. Unit {0}) m Q
    → Keeps I m
Hoare→Keeps {Q} m h = record { at = λ t i. Leaves-trace _ Q (m t).0 (m t).1 (h.at t i tt) }

pub Hoare-if :
    {I : Trace → Type 0} {A : Type 0} {P : Trace → Type 0} {Q : A → Trace → Type 0} (b : Bool)
    (m n : Io A)
    → (b ≡ true → Hoare I P m Q)
    → (b ≡ false → Hoare I P n Q)
    → Hoare I P (if b then m else n) Q
Hoare-if true m n km kn = km refl
Hoare-if false m n km kn = kn refl

framed :
    {A : Type 0} (Q : A → Trace → Type 0) (I R : Trace → Type 0) (r : Result A) (t : Trace)
    → Leaves I Q (r, t)
    → R t
    → Leaves I (λ a u. Q a u × R u) (r, t)
framed Q I R (ok a) t h k = (h.0, (h.1, k))
framed Q I R (err e) t h k = h

-- What the code keeps still holds after it.
pub Hoare-frame :
    {I : Trace → Type 0} {A : Type 0} {P R : Trace → Type 0} {Q : A → Trace → Type 0} (m : Io A)
    → Keeps R m
    → Hoare I P m Q
    → Hoare I (λ t. P t × R t) m (λ a t. Q a t × R t)
Hoare-frame m k h = record {
  at = λ t i p. framed _ _ _ (m t).0 (m t).1 (h.at t i p.0) (k.at t p.1);
}
