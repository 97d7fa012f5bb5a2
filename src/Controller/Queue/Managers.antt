-- ===== src/Controller/Queue/Managers.antt =====
-- node_controller.go, `getManagerOfUnschedulable`: who manages `spec.unschedulable`.
use node_drain.Base.{
  String, Bool, true, false, ◌≡◌, refl, sym, ◌∙◌, ◌⊎◌, inl, inr, List, [], ◌∷◌, ◌++◌, All, ok, err,
  Option, some, none, Result, if◌then◌else◌, ap, ◌==◌, eq_iff,
}
use node_drain.Cluster.{Env, Json, Fields, ManagedField, KubeNode}
use node_drain.Controller.Queue.{
  lookup, member, owns_unschedulable, first_manager, claims_unschedulable, manager_of_unschedulable,
}

-- The value that a decoded object has under a key.
pub data Holds (key : String) (v : Json) : Fields → Type 0 where
  here :
      (k : String) (w : Json) (rest : Fields)
      → k ≡ key
      → w ≡ v
      → Holds key v (Fields.field k w rest)
  there :
      (k : String) (w : Json) (rest : Fields)
      → (k == key) ≡ false
      → Holds key v rest
      → Holds key v (Fields.field k w rest)

-- An object in which `f:spec` is an object with the key `f:unschedulable`.
abbrev pub HasPath : Json → Type 0
HasPath json =
    (fields : Fields) × (spec : Fields) × (v : Json) × (json ≡ Json.object fields)
    × Holds "f:spec" (Json.object spec) fields
    × Holds "f:unschedulable" v spec

Holds-lookup : (key : String) (v : Json) (fs : Fields) → Holds key v fs → lookup key fs ≡ some v
unfolding lookup
Holds-lookup key v _ (here k w rest e q) = rw ((eq_iff k key).1 e, q) refl
Holds-lookup key v _ (there k w rest n h) = rw n (Holds-lookup key v rest h)

found-Holds :
    (key : String) (v : Json) (k : String) (w : Json) (rest : Fields) (b : Bool)
    → (k == key) ≡ b
    → (lookup key rest ≡ some v → Holds key v rest)
    → (if b then some w else lookup key rest) ≡ some v
    → Holds key v (Fields.field k w rest)
found-Holds key v k w rest true e f q = here k w rest ((eq_iff k key).0 e) cc
found-Holds key v k w rest false e f q = there k w rest e (f q)

lookup-Holds : (key : String) (fs : Fields) (v : Json) → lookup key fs ≡ some v → Holds key v fs
unfolding lookup
lookup-Holds key Fields.end v q = cc
lookup-Holds key (Fields.field k w rest) v q =
    found-Holds key v k w rest _ refl (lookup-Holds key rest v) q

-- The tests of the code on what its lookups give.
abbrev is_found : Option Json → Bool
is_found o = elim o [ none ↦ false | some _ ↦ true ]

abbrev is_inside : Option Json → Bool
is_inside o = elim o [ none ↦ false | some v ↦ is_found (member "f:unschedulable" v) ]

HasPath-owns : (json : Json) → HasPath json → owns_unschedulable json ≡ true
unfolding owns_unschedulable member
HasPath-owns json (fields, spec, v, e, h, k) =
    ap owns_unschedulable e
    ∙ (ap is_inside (Holds-lookup _ _ fields h) ∙ ap is_found (Holds-lookup _ _ spec k))

found-value :
    (spec : Fields) (o : Option Json)
    → lookup "f:unschedulable" spec ≡ o
    → is_found o ≡ true
    → (v : Json) × Holds "f:unschedulable" v spec
found-value spec none q h = cc
found-value spec (some v) q h = (v, lookup-Holds _ spec v q)

inside-HasPath :
    (fields : Fields) (o : Option Json)
    → lookup "f:spec" fields ≡ o
    → is_inside o ≡ true
    → HasPath (Json.object fields)
unfolding member
inside-HasPath fields none q h = cc
inside-HasPath fields (some (Json.object spec)) q h =
    let (v, k) = found-value spec _ refl h in (fields, spec, v, refl, lookup-Holds _ fields _ q, k)
inside-HasPath fields (some _) q h = cc

owns-HasPath : (json : Json) → owns_unschedulable json ≡ true → HasPath json
unfolding owns_unschedulable member
owns-HasPath (Json.object fields) h = inside-HasPath fields _ refl h
owns-HasPath _ h = cc

module _ (env : Env) where
  -- An entry claims the field: it is of no subresource, and its text is the JSON of an object in
  -- which `f:spec` is an object that has the key `f:unschedulable`.
  abbrev pub IsClaim : ManagedField → Type 0
  IsClaim f =
      (f.subresource ≡ "")
      × ((raw : String) × (json : Json) × (f.fields_v1 ≡ some raw)
          × (env.unmarshal raw ≡ ok json)
          × HasPath json)

  abbrev Unclaimed : ManagedField → Type 0
  Unclaimed f = ¬ IsClaim f

  abbrev decoded : Result Json → Bool
  decoded r = elim r [ err e ↦ false | ok m ↦ owns_unschedulable m ]

  abbrev written : Option String → Bool
  written o = elim o [ none ↦ false | some raw ↦ decoded (env.unmarshal raw) ]

  decoded-HasPath :
      (raw : String) (r : Result Json)
      → env.unmarshal raw ≡ r
      → decoded r ≡ true
      → (json : Json) × (env.unmarshal raw ≡ ok json) × HasPath json
  decoded-HasPath raw (err e) q h = cc
  decoded-HasPath raw (ok json) q h = (json, q, owns-HasPath json h)

  tested-IsClaim :
      (f : ManagedField) (b : Bool) (o : Option String)
      → (f.subresource == "") ≡ b
      → f.fields_v1 ≡ o
      → (if b then written o else false) ≡ true
      → IsClaim f
  tested-IsClaim f true (some raw) e q h =
      let (json, u, p) = decoded-HasPath raw _ refl h in ((eq_iff _ _).0 e, (raw, json, q, u, p))
  tested-IsClaim f true none e q h = cc
  tested-IsClaim f false o e q h = cc

  -- The test of the code finds these entries and no others.
  claims_unschedulable-IsClaim : (f : ManagedField) → claims_unschedulable env f ≡ true → IsClaim f
  unfolding claims_unschedulable
  claims_unschedulable-IsClaim f h = tested-IsClaim f _ _ refl refl h

  IsClaim-claims_unschedulable : (f : ManagedField) → IsClaim f → claims_unschedulable env f ≡ true
  unfolding claims_unschedulable
  IsClaim-claims_unschedulable f (e, (raw, json, g, u, p)) =
      ap (λ b. if b then written f.fields_v1 else false) ((eq_iff _ _).1 e)
      ∙ (ap written g ∙ (ap decoded u ∙ HasPath-owns json p))

  abbrev pub IsFirst : List ManagedField → String → Type 0
  IsFirst fs name =
      (name ≡ "") × All Unclaimed fs
      ⊎ ((f : ManagedField) × (before : List ManagedField) × (rest : List ManagedField) × (fs
            ≡ before ++ (f ∷ rest))
          × All Unclaimed before
          × IsClaim f
          × (name ≡ f.manager))

  later :
      (f : ManagedField) (fs : List ManagedField) (name : String)
      → Unclaimed f
      → IsFirst fs name
      → IsFirst (f ∷ fs) name
  later f fs name u (inl h) = inl (h.0, (u, h.1))
  later f fs name u (inr (g, before, rest, e, us, c, m)) =
      inr (g, f ∷ before, rest, ap (λ x. f ∷ x) e, (u, us), c, m)

  IsFirst-step :
      (b : Bool) (f : ManagedField) (fs : List ManagedField) (name : String)
      → claims_unschedulable env f ≡ b
      → IsFirst fs name
      → IsFirst (f ∷ fs) (if b then f.manager else name)
  IsFirst-step true f fs name c h =
      inr (f, [], fs, refl, tt, claims_unschedulable-IsClaim f c, refl)
  IsFirst-step false f fs name c h =
      later f fs name (λ k. let q = sym c ∙ IsClaim-claims_unschedulable f k in cc) h

  first_manager-IsFirst : (fs : List ManagedField) → IsFirst fs (first_manager env fs)
  unfolding first_manager
  first_manager-IsFirst [] = inl (refl, tt)
  first_manager-IsFirst (f ∷ fs) = IsFirst-step _ f fs _ refl (first_manager-IsFirst fs)

  -- The name that getManagerOfUnschedulable returns is empty and no entry of the managed fields
  -- claims spec.unschedulable, or it is the manager of the first entry that does. An entry claims
  -- it if it is of no subresource and its text decodes to an object whose f:spec is an object with
  -- the key f:unschedulable.
  pub manager_of_unschedulable-IsFirst :
      (k : KubeNode) → IsFirst k.managed_fields (manager_of_unschedulable env k)
  unfolding manager_of_unschedulable
  manager_of_unschedulable-IsFirst k = first_manager-IsFirst k.managed_fields
