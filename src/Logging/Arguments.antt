-- ===== src/Logging/Arguments.antt =====
-- hclog.go, convertToZapAny: the arguments of a log call as fields.
use node_drain.Base.{
  ℕ, zero, suc, ◌-◌, String, ◌≡◌, refl, ap, sym, ◌∙◌, List, [], ◌∷◌, ◌++◌, Option, none, some,
}
use node_drain.Logging.{Arg, text, value, FieldName, keyed, numbered}

abbrev pub length : {A : Type 0} → List A → ℕ
length [] = 0
length (x ∷ xs) = suc (length xs)

-- `args[left:right]`, for bounds that are not out of range
unfoldable pub slice : {A : Type 0} → ℕ → ℕ → List A → List A
slice left zero xs = []
slice left (suc right) [] = []
slice zero (suc right) (x ∷ xs) = x ∷ slice zero right xs
slice (suc left) (suc right) (x ∷ xs) = slice left right xs

-- The `switch` on the items between `left` and `i`.
unfoldable pub item_fields : {V : Type 0} → ℕ → ℕ → List (Arg V) → List (FieldName × Arg V)
item_fields i left (text k ∷ v ∷ []) = (keyed k, v) ∷ []
item_fields i left (value x ∷ v ∷ []) = (numbered (i - 1), v) ∷ (numbered left, value x) ∷ []
item_fields i left (x ∷ []) = (numbered left, x) ∷ []
item_fields i left _ = []

-- The loop from `i` on, by two: `left` is `i - 2`, or 0 below that.
unfoldable pub convert_from : {V : Type 0} → List (Arg V) → ℕ → List (FieldName × Arg V)
convert_from args zero = []
convert_from args (suc zero) = item_fields 1 0 (slice 0 1 args)
convert_from args (suc (suc left)) =
    item_fields (suc (suc left)) left (slice left (suc (suc left)) args) ++ convert_from args left

-- convertToZapAny
unfoldable pub convert : {V : Type 0} → List (Arg V) → List (FieldName × Arg V)
convert args = convert_from args (length args)

-- Arguments that alternate between keys and values, the last pair first here; before them there may
-- be one argument more.
abbrev pub lead : {V : Type 0} → Option (Arg V) → List (Arg V)
lead none = []
lead (some x) = x ∷ []

abbrev pub arguments : {V : Type 0} → Option (Arg V) → List (String × Arg V) → List (Arg V)
arguments first [] = lead first
arguments first ((k, v) ∷ ps) = arguments first ps ++ (text k ∷ v ∷ [])

-- The fields with these keys and values, and the number 0 for the argument more.
abbrev pub lead_field : {V : Type 0} → Option (Arg V) → List (FieldName × Arg V)
lead_field none = []
lead_field (some x) = (numbered 0, x) ∷ []

abbrev pub fields : {V : Type 0} → Option (Arg V) → List (String × Arg V) → List (FieldName × Arg V)
fields first [] = lead_field first
fields first ((k, v) ∷ ps) = (keyed k, v) ∷ fields first ps

append_assoc : {A : Type 0} (xs ys zs : List A) → (xs ++ ys) ++ zs ≡ xs ++ (ys ++ zs)
append_assoc [] ys zs = refl
append_assoc (x ∷ xs) ys zs = ap (λ w. x ∷ w) (append_assoc xs ys zs)

length-pair :
    {A : Type 0} (xs : List A) (a b : A) → length (xs ++ (a ∷ b ∷ [])) ≡ suc (suc (length xs))
length-pair [] a b = refl
length-pair (x ∷ xs) a b = ap suc (length-pair xs a b)

slice-pair :
    {A : Type 0} (xs : List A) (a b : A) (rest : List A)
    → slice (length xs) (suc (suc (length xs))) (xs ++ (a ∷ b ∷ rest)) ≡ a ∷ b ∷ []
unfolding slice
slice-pair [] a b rest = refl
slice-pair (x ∷ xs) a b rest = slice-pair xs a b rest

convert_from-pair :
    {V : Type 0} (xs : List (Arg V)) (k : String) (v : Arg V) (rest : List (Arg V))
    → convert_from (xs ++ (text k ∷ v ∷ rest)) (suc (suc (length xs)))
      ≡ (keyed k, v) ∷ convert_from (xs ++ (text k ∷ v ∷ rest)) (length xs)
unfolding convert_from item_fields
convert_from-pair xs k v rest =
    ap
      (λ w.
        item_fields (suc (suc (length xs))) (length xs) w
        ++ convert_from (xs ++ (text k ∷ v ∷ rest)) (length xs))
      (slice-pair xs (text k) v rest)

-- The loop reads the arguments before `i` and no others.
convert_from-fields :
    {V : Type 0} (first : Option (Arg V)) (ps : List (String × Arg V)) (rest : List (Arg V))
    → convert_from (arguments first ps ++ rest) (length (arguments first ps)) ≡ fields first ps
unfolding convert_from item_fields slice
convert_from-fields none [] rest = refl
convert_from-fields (some (text t)) [] rest = refl
convert_from-fields (some (value x)) [] rest = refl
convert_from-fields first ((k, v) ∷ ps) rest =
    let xs = arguments first ps in
    let i = suc (suc (length xs)) in
    ap (λ n. convert_from ((xs ++ (text k ∷ v ∷ [])) ++ rest) n) (length-pair xs (text k) v)
    ∙ (ap (λ w. convert_from w i) (append_assoc xs (text k ∷ v ∷ []) rest)
        ∙ (convert_from-pair xs k v rest
            ∙ ap (λ w. (keyed k, v) ∷ w) (convert_from-fields first ps (text k ∷ v ∷ rest))))

append_nil : {A : Type 0} (xs : List A) → xs ++ [] ≡ xs
append_nil [] = refl
append_nil (x ∷ xs) = ap (λ w. x ∷ w) (append_nil xs)

-- Arguments of a log call that alternate between keys and values, with at most one argument more
-- before them, become the fields with these keys and values, the last pair first, and then arg0 for
-- the argument more: the loop by the index takes each argument once.
pub convert-fields :
    {V : Type 0} (first : Option (Arg V)) (ps : List (String × Arg V))
    → convert (arguments first ps) ≡ fields first ps
unfolding convert
convert-fields first ps =
    ap (λ w. convert_from w (length (arguments first ps))) (sym (append_nil (arguments first ps)))
    ∙ convert_from-fields first ps []
