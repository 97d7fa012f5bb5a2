-- ===== src/Base/Errors.antt =====
-- Go's `(value, error)` pairs as values. An error is what the source builds it from: a message,
-- a message that wraps an error (`fmt.Errorf` with `%w`), or several errors (`errors.Join`).
use Prim.Native.String.{String}
use mathlib.Core.Bool.{Bool, true, false, ◌||◌}

-- `not_found` and `api` are the errors that calls of other programs return.
pub data Error : Type 0 where
  not_found : Error
  api : String → Error
  msg : String → Error
  wrap : String → Error → Error
  join : Error → Error → Error

-- apierrors.IsNotFound looks through wrapped and joined errors.
abbrev pub is_not_found : Error → Bool
is_not_found not_found = true
is_not_found (api _) = false
is_not_found (msg _) = false
is_not_found (wrap _ e) = is_not_found e
is_not_found (join e f) = is_not_found e || is_not_found f

pub data Result {ℓ} (A : Type ℓ) : Type ℓ where
  ok : A → Result A
  err : Error → Result A

-- `if err != nil { return fmt.Errorf("text: %w", err) }`
abbrev pub wrapped {ℓ} : {A : Type ℓ} → String → Result A → Result A
wrapped text (ok a) = ok a
wrapped text (err e) = err (wrap text e)
