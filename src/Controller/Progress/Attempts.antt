-- ===== src/Controller/Progress/Attempts.antt =====
-- Steps whose error the caller looks at itself, where no call fails.
use node_drain.Base.{Result, ok, err, attempt}
use node_drain.Base.Outcomes.{Outcome}
use node_drain.DrainManager.Willing.{Never}
use node_drain.Controller.Objects.{Session, M}

-- A caller that looks at the error itself finds none.
abbrev pub Succeeds : {A : Type 0} → (A → Session → Type 0) → Result A → Session → Type 0
Succeeds P (ok a) st = P a st
Succeeds P (err e) st = ⊥

attempted :
    {A : Type 0} (P : A → Session → Type 0) (r : Result A) (st : Session)
    → Outcome Never P (r, st)
    → Succeeds P r st
attempted P (ok a) st h = h
attempted P (err e) st h = h

pub attempt-Succeeds :
    {A : Type 0} (P : A → Session → Type 0) (m : M A) (st : Session)
    → Outcome Never P (m st)
    → Outcome Never (Succeeds P) (attempt m st)
unfolding attempt
attempt-Succeeds P m st h = attempted P (m st).0 (m st).1 h
