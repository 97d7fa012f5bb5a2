-- ===== src/DrainManager/Order/Rounds.antt =====
-- The rounds over the plugins, and what follows them.
use node_drain.Base.{
  String, Bool, true, false, ◌&&◌, ◌≡◌, ◌⊎◌, inl, inr, refl, sym, ◌∙◌, List, [], Error, Result, ok,
  err, Option, none, some, arith, attempt, lift, fail, pure, continue, ◌>>=◌, ◌>>◌,
}
use node_drain.Base.Outcomes.{Outcome}
use node_drain.Cluster.{Entry, Trace, Env, KubeNode, call, record_entry}
use node_drain.DrainManager.{Round, add_status, add_error, join_errors, verdict, judge, check_nodes}
use node_drain.DrainManager.Order.{is_yes, nodes_ready, and_true}

-- A round with an error is not fine.
abbrev pub IsSound : Round → Type 0
IsSound r = (r.errs ≡ []) ⊎ (r.all_fine ≡ false)

-- A round that says `b`.
abbrev pub Says : Bool → Round → Type 0
Says b r = IsSound r × (r.all_fine ≡ b)

pub Says-judge :
    (env : Env) (id : String) (a : Result Bool) (b : Bool) (r : Round)
    → Says b r
    → Says (b && is_yes a) (judge env id a r)
unfolding judge add_error add_status
Says-judge env id (ok true) b r h = (h.0, h.1 ∙ sym (and_true b))
Says-judge env id (ok false) b r h = (inr refl, ground arith)
Says-judge env id (err e) b r h = (inr refl, ground arith)

pub joined :
    (o : Option Error) (b : Bool) → b ≡ false → is_yes (elim o [ none ↦ ok b | some e ↦ err e ]) ≡ b
joined none b h = refl
joined (some e) b h = sym h

pub verdict_lem : (r : Round) (b : Bool) → Says b r → is_yes (verdict r) ≡ b
unfolding verdict join_errors
verdict_lem r b (inl e, h) = rw e h
verdict_lem r b (inr e, h) = joined (join_errors r.errs) r.all_fine e ∙ h

pub told :
    {A : Type 0} (reply : Trace → Result A) (entry : Result A → Entry) (t : Trace) {v : Result A}
    → reply t ≡ v
    → Outcome (λ _. ⊥) (λ a _. a ≡ v) (attempt (call reply entry) t)
unfolding attempt call
told reply entry t e = e

-- The answer is yes exactly if `b`.
abbrev pub Answers : Bool → Result Bool × Trace → Type 0
Answers b = Outcome (λ _. b ≡ false) (λ a _. a ≡ b)

pub Answers-yes : (b : Bool) (a : Result Bool) (t : Trace) → Answers b (a, t) → is_yes a ≡ b
Answers-yes b (ok a) t h = h
Answers-yes b (err e) t h = sym h

pub yes-Answers : (b : Bool) (a : Result Bool) (t : Trace) → is_yes a ≡ b → Answers b (a, t)
yes-Answers b (ok a) t h = h
yes-Answers b (err e) t h = sym h

-- The event, and the verdict.
pub ended-Answers :
    (b : Bool) (q : Round) (e : Entry) (t : Trace)
    → Says b q
    → Answers b ((do record_entry e; lift (verdict q)) t)
unfolding record_entry ◌>>=◌
ended-Answers b q e t h = yes-Answers b (verdict q) _ (verdict_lem q b h)

pub counted :
    (a : Result (List KubeNode)) (t : Trace)
    → is_yes (continue a (λ ns. pure (check_nodes true ns)) t).0 ≡ nodes_ready a
unfolding ◌>>=◌
counted (ok ns) t = refl
counted (err e) t = refl

-- What follows the check of the nodes.
pub failed-Answers :
    (b c : Bool) (e : Entry) (x : Error) (t : Trace)
    → false ≡ b
    → Answers (b && c) ((do record_entry e; fail {A = Bool} x) t)
unfolding record_entry ◌>>=◌
failed-Answers b c e x t k = rw (← k) refl

pub refused-Answers :
    (b c : Bool) (e : Entry) (t : Trace)
    → false ≡ b
    → Answers (b && c) ((do record_entry e; pure false) t)
unfolding record_entry ◌>>=◌
refused-Answers b c e t k = rw (← k) refl
