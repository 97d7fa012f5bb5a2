-- ===== src/Cluster/Evidence.antt =====
-- What the trace says happened lately: since the last change of an object, drain or reboot.
use node_drain.Base.{◌⊎◌, inl, inr, ◌∷◌, [], List, All}
use node_drain.Cluster.{Entry, Trace}
use node_drain.Cluster.Quiet.{IsAside}

-- An entry with the property lies in the trace, and every newer entry is an aside.
abbrev pub Lately : (Entry → Type 0) → Trace → Type 0
Lately Q [] = ⊥
Lately Q (e ∷ t) = Q e ⊎ (IsAside e × Lately Q t)

-- A property of the trace that entries without consequences keep.
abbrev pub Lasts : (Trace → Type 0) → Type 0
Lasts P = (e : Entry) (t : Trace) → IsAside e → P t → P (e ∷ t)

pub Lately-Lasts : (Q : Entry → Type 0) → Lasts (Lately Q)
Lately-Lasts Q e t q h = inr (q, h)

pub Lately-map :
    {Q R : Entry → Type 0} → ((e : Entry) → Q e → R e) → (t : Trace) → Lately Q t → Lately R t
Lately-map f [] h = elim h [ ]
Lately-map f (e ∷ t) (inl q) = inl (f e q)
Lately-map f (e ∷ t) (inr h) = inr (h.0, Lately-map f t h.1)

pub All-Lasts :
    {A : Type 0} (P : A → Trace → Type 0)
    → ((a : A) → Lasts (P a))
    → (xs : List A) → Lasts (λ t. All (λ a. P a t) xs)
All-Lasts P k [] e t q h = tt
All-Lasts P k (x ∷ xs) e t q h = (k x e t q h.0, All-Lasts P k xs e t q h.1)

-- Every entry fulfils its condition on the entries before it.
abbrev pub Throughout : (Entry → Trace → Type 0) → Trace → Type 0
Throughout G [] = Unit
Throughout G (e ∷ t) = G e t × Throughout G t
