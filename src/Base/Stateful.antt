-- ===== src/Base/Stateful.antt =====
-- Code that changes a state and may return an error. What was changed before the error stays
-- changed, so the state comes back beside the error too.
use Prim.Native.String.{String}
use node_drain.Base.Errors.{Error, Result, ok, err, wrapped}

abbrev pub Exec {ℓ} : Type ℓ → Type ℓ → Type ℓ
Exec St A = St → Result A × St

module _ {ℓ} {St A : Type ℓ} where
  pub pure : A → Exec St A
  pure a s = (ok a, s)

  pub fail : Error → Exec St A
  fail e s = (err e, s)

  pub gets : (St → A) → Exec St A
  gets f s = (ok (f s), s)

  pub lift : Result A → Exec St A
  lift r s = (r, s)

  -- Code that depends on the state that it starts from.
  unfoldable pub look : (St → Exec St A) → Exec St A
  look m s = m s s

  -- The caller looks at the error itself: `if err := m(); err != nil { … }`.
  unfoldable pub attempt : Exec St A → Exec St (Result A)
  attempt m s = let (r, s') = m s in (ok r, s')

  -- `return fmt.Errorf("text: %w", err)` where `m` fails
  unfoldable pub wrapping : String → Exec St A → Exec St A
  wrapping text m s = let (r, s') = m s in (wrapped text r, s')

  -- `defer cleanup()`: it runs on every way out, and its result is dropped.
  unfoldable pub deferring : Exec St (Unit {ℓ}) → Exec St A → Exec St A
  deferring cleanup m s = let (r, s') = m s in (r, (cleanup s').1)

module _ {ℓ} {St A B : Type ℓ} where
  abbrev pub continue : Result A → (A → Exec St B) → Exec St B
  continue (ok a) f s = f a s
  continue (err e) f s = (err e, s)

  infixl 10 ◌>>=◌ ◌>>◌
  -- opening this opens `pure`, `fail`, `gets` and `lift` too
  unfoldable pub ◌>>=◌ : Exec St A → (A → Exec St B) → Exec St B
  unfolding pure fail gets lift
  ◌>>=◌ m f s = let (r, s') = m s in continue r f s'

  abbrev pub ◌>>◌ : Exec St A → Exec St B → Exec St B
  m >> n = m >>= λ _. n
