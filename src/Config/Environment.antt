-- ===== src/Config/Environment.antt =====
-- internal/config/config.go: what LoadConfig makes of a variable of the environment, the
-- TransformFunc of koanf's provider. `unicode.ToLower` is the parameter `lower`.
use Prim.Native.Char.{Char, code}
use mathlib.Core.Path.{subst}
use text.Mathlib.TextEquality.{Char-path}
use text.Mathlib.TextLemmas.{nil-append, cons-append}
use node_drain.Base.{
  ℕ, String, Bool, true, false, ◌&&◌, ◌≡◌, ◌≢◌, refl, sym, ap, ◌∙◌, ◌<>◌, List, [], ◌∷◌, All,
  Option, none, some, if◌then◌else◌, leb, arith, if_intro, map, Exec,
}

abbrev is_char : ℕ → Char → Bool
is_char n c = leb n (code c) && leb (code c) n

abbrev pub is_upper_code : ℕ → Bool
is_upper_code n = leb b'A' n && leb n b'Z'

abbrev pub is_upper : Char → Bool
is_upper c = is_upper_code (code c)

-- The rest of a text after a prefix, if it has it.
unfoldable pub after_prefix : String → String → Option String
after_prefix String.[] s = some s
after_prefix (String.◌∷◌ p ps) String.[] = none
after_prefix (String.◌∷◌ p ps) (String.◌∷◌ c s) =
    let rest = after_prefix ps s in if is_char (code p) c then rest else none

-- strings.TrimPrefix
unfoldable pub trim_prefix : String → String → String
unfolding after_prefix
trim_prefix p s = elim (after_prefix p s) [ some rest ↦ rest | none ↦ s ]

-- strings.ToLower
unfoldable pub to_lower : (Char → Char) → String → String
to_lower lower String.[] = ""
to_lower lower (String.◌∷◌ c s) = String.◌∷◌ (lower c) (to_lower lower s)

-- strings.ReplaceAll of "_" by "."
unfoldable pub dots : String → String
dots String.[] = ""
dots (String.◌∷◌ c s) =
    let rest = dots s in if is_char b'_' c then String.◌∷◌ "." rest else String.◌∷◌ c rest

-- strings.Contains(v, " ")
unfoldable pub has_space : String → Bool
has_space String.[] = false
has_space (String.◌∷◌ c s) = let rest = has_space s in if is_char b' ' c then true else rest

abbrev add_char : Char → List String → List String
add_char c [] = String.◌∷◌ c "" ∷ []
add_char c (p ∷ ps) = String.◌∷◌ c p ∷ ps

-- strings.Split(v, " ")
unfoldable pub split : String → List String
split String.[] = "" ∷ []
split (String.◌∷◌ c s) = let rest = split s in if is_char b' ' c then "" ∷ rest else add_char c rest

-- A value of koanf's map: a text, or a list of texts.
pub data Value : Type 0 where
  single : String → Value
  several : List String → Value

module _ (lower : Char → Char) where
  unfoldable pub env_key : String → String
  unfolding trim_prefix to_lower dots
  env_key name = dots (to_lower lower (trim_prefix "NODEDRAIN_" name))

  -- The TransformFunc.
  unfoldable pub transform : String → String → String × Value
  unfolding env_key has_space split
  transform k v = (env_key k, if has_space v then several (split v) else single v)

  -- The first step of LoadConfig: koanf loads the variables with the prefix, transformed.
  unfoldable pub load_env :
      {K : Type 0}
      → (List (String × Value) → Exec K (Unit {0}))
      → List (String × String)
      → Exec K (Unit {0})
  unfolding transform
  load_env load_map variables = load_map (map (λ x. transform x.0 x.1) variables)

-- A property of each character.
abbrev pub AllChars : (Char → Type 0) → String → Type 0
AllChars P String.[] = Unit
AllChars P (String.◌∷◌ c s) = P c × AllChars P s

-- Neither an ASCII capital nor an underscore.
abbrev pub IsPlain : Char → Type 0
IsPlain c = (is_upper c ≡ false) × (is_char b'_' c ≡ false)

-- strings.Join(parts, " ")
abbrev pub join_parts : List String → String
join_parts [] = ""
join_parts (p ∷ []) = p
join_parts (p ∷ q ∷ ps) = p <> String.◌∷◌ " " (join_parts (q ∷ ps))

-- The texts of a value.
abbrev pub texts : Value → List String
texts (single v) = v ∷ []
texts (several vs) = vs

to_lower-AllChars :
    (lower : Char → Char)
    → ((c : Char) → is_upper (lower c) ≡ false)
    → (s : String) → AllChars (λ c. is_upper c ≡ false) (to_lower lower s)
unfolding to_lower
to_lower-AllChars lower h String.[] = tt
to_lower-AllChars lower h (String.◌∷◌ c s) = (h c, to_lower-AllChars lower h s)

dots-AllChars : (s : String) → AllChars (λ c. is_upper c ≡ false) s → AllChars IsPlain (dots s)
unfolding dots
dots-AllChars String.[] h = tt
dots-AllChars (String.◌∷◌ c s) h =
    if_intro (AllChars IsPlain) (is_char b'_' c) _ _ (λ _. ((refl, refl), dots-AllChars s h.1))
      (λ e. ((h.0, e), dots-AllChars s h.1))

-- A split text has a first part.
split-cons : (s : String) → (p : String) × (ps : List String) × (split s ≡ p ∷ ps)
unfolding split
split-cons String.[] = ("", [], refl)
split-cons (String.◌∷◌ c s) =
    let (p, ps, e) = split-cons s in
    if_intro (λ (x : List String). (p : String) × (ps : List String) × (x ≡ p ∷ ps))
      (is_char b' ' c) _ _ (λ _. ("", split s, refl)) (λ _. (String.◌∷◌ c p, ps, rw e refl))

join-add : (c : Char) (ps : List String) → join_parts (add_char c ps) ≡ String.◌∷◌ c (join_parts ps)
join-add c [] = refl
join-add c (p ∷ []) = refl
join-add c (p ∷ q ∷ ps) = cons-append c p (String.◌∷◌ " " (join_parts (q ∷ ps)))

is_char-eq : (n : ℕ) (c : Char) → is_char n c ≡ true → code c ≡ n
is_char-eq n c e = ground arith

join-empty :
    (p : String) (ps : List String)
    → join_parts ("" ∷ p ∷ ps) ≡ String.◌∷◌ " " (join_parts (p ∷ ps))
join-empty p ps = nil-append _

join-split : (s : String) → join_parts (split s) ≡ s
unfolding split
join-split String.[] = refl
join-split (String.◌∷◌ c s) =
    let (p, ps, k) = split-cons s in
    if_intro (λ (x : List String). join_parts x ≡ String.◌∷◌ c s) (is_char b' ' c) _ _
      (λ e.
        let start : join_parts ("" ∷ split s) ≡ String.◌∷◌ " " (join_parts (split s)) =
          rw k (join-empty p ps) in
        start
        ∙ (ap (String.◌∷◌ " ") (join-split s)
            ∙ ap (λ d. String.◌∷◌ d s) (Char-path " " c (sym (is_char-eq b' ' c e)))))
      (λ e. join-add c (split s) ∙ ap (String.◌∷◌ c) (join-split s))

add_char-All :
    (c : Char) (ps : List String)
    → is_char b' ' c ≡ false
    → All (λ p. has_space p ≡ false) ps
    → All (λ p. has_space p ≡ false) (add_char c ps)
unfolding has_space
add_char-All c [] e h = (rw e refl, tt)
add_char-All c (p ∷ ps) e h = (rw e h.0, h.1)

split-All : (s : String) → All (λ p. has_space p ≡ false) (split s)
unfolding split has_space
split-All String.[] = (refl, tt)
split-All (String.◌∷◌ c s) =
    if_intro (All (λ p. has_space p ≡ false)) (is_char b' ' c) _ _ (λ _. (refl, split-All s))
      (λ e. add_char-All c (split s) e (split-All s))

-- The text of the value is kept, and no part has a space.
abbrev pub KeepsText : String → Value → Type 0
KeepsText v x = (join_parts (texts x) ≡ v) × All (λ p. has_space p ≡ false) (texts x)

not-IsPlain : ¬ AllChars IsPlain "reboot.checkInterval"
not-IsPlain h = cc

-- Let `unicode.ToLower` give no ASCII capital. For every variable of the environment, the key that
-- is set has no ASCII capital and no underscore, so it is never `reboot.checkInterval`, the key
-- that the controller reads the interval from; and the value is the text of the variable, or the
-- parts between its spaces.
pub transform-IsPlain :
    (lower : Char → Char)
    → ((c : Char) → is_upper (lower c) ≡ false)
    → (name v : String)
    → AllChars IsPlain (transform lower name v).0
      × ((transform lower name v).0 ≢ "reboot.checkInterval")
      × KeepsText v (transform lower name v).1
unfolding transform
transform-IsPlain lower h name v =
    let plain : AllChars IsPlain (env_key lower name) =
      dots-AllChars _ (to_lower-AllChars lower h (trim_prefix "NODEDRAIN_" name)) in
    (
      plain,
      λ e. not-IsPlain (subst (AllChars IsPlain) e plain),
      if_intro (KeepsText v) (has_space v) _ _ (λ _. (join-split v, split-All v))
          (λ e. (refl, (e, tt))),
    )
