-- ===== src/Base/Keeps.antt =====
-- Invariants of code with state: one rule for each way to build it. `m` keeps `P` whether it
-- returns a value or an error.
use node_drain.Base.{◌≡◌, refl, Bool, true, false, String, if◌then◌else◌}
use node_drain.Base.{
  Error, Result, ok, err, Exec, pure, fail, gets, lift, attempt, wrapping, look, deferring,
  continue,
}
use node_drain.Base.{◌>>=◌}

pub record Keeps {ℓ} {St A : Type ℓ} (P : St → Type ℓ) (m : Exec St A) : Type ℓ where
  pub at : (s : St) → P s → P (m s).1

module _ {ℓ} {St A : Type ℓ} {P : St → Type ℓ} where
  pub Keeps-pure : (a : A) → Keeps P (pure a)
  unfolding ◌>>=◌
  Keeps-pure a = record { at = λ s h. h }

  pub Keeps-fail : (e : Error) → Keeps P (fail {A = A} e)
  unfolding ◌>>=◌
  Keeps-fail e = record { at = λ s h. h }

  pub Keeps-gets : (f : St → A) → Keeps P (gets f)
  unfolding ◌>>=◌
  Keeps-gets f = record { at = λ s h. h }

  pub Keeps-lift : (r : Result A) → Keeps P (lift r)
  unfolding ◌>>=◌
  Keeps-lift r = record { at = λ s h. h }

  pub Keeps-attempt : (m : Exec St A) → Keeps P m → Keeps P (attempt m)
  unfolding attempt
  Keeps-attempt m k = record { at = k.at }

  pub Keeps-wrapping : (text : String) (m : Exec St A) → Keeps P m → Keeps P (wrapping text m)
  unfolding wrapping
  Keeps-wrapping text m k = record { at = k.at }

  pub Keeps-look : (m : St → Exec St A) → ((s : St) → Keeps P (m s)) → Keeps P (look m)
  unfolding look
  Keeps-look m k = record { at = λ s. (k s).at s }

  pub Keeps-deferring :
      (c : Exec St (Unit {ℓ})) (m : Exec St A) → Keeps P c → Keeps P m → Keeps P (deferring c m)
  unfolding deferring
  Keeps-deferring c m kc k = record { at = λ s h. kc.at (m s).1 (k.at s h) }

  pub Keeps-if :
      (b : Bool) (first second : Exec St A)
      → (b ≡ true → Keeps P first)
      → (b ≡ false → Keeps P second)
      → Keeps P (if b then first else second)
  Keeps-if true first second ky kn = ky refl
  Keeps-if false first second ky kn = kn refl

module _ {ℓ} {St A B : Type ℓ} {P : St → Type ℓ} where
  continue_keeps :
      (f : A → Exec St B)
      → ((a : A) → Keeps P (f a))
      → (r : Result A) (s : St) → P s
      → P (continue r f s).1
  continue_keeps f kf (ok a) s h = (kf a).at s h
  continue_keeps f kf (err e) s h = h

  pub Keeps-bind :
      (m : Exec St A) (f : A → Exec St B)
      → Keeps P m
      → ((a : A) → Keeps P (f a))
      → Keeps P (m >>= f)
  unfolding ◌>>=◌
  Keeps-bind m f km kf = record { at = λ s h. continue_keeps f kf (m s).0 (m s).1 (km.at s h) }

pub ruleset keeps_rules = (
  Keeps-pure, Keeps-fail, Keeps-gets, Keeps-lift, Keeps-attempt, Keeps-wrapping, Keeps-deferring,
  Keeps-if, Keeps-bind,
)
