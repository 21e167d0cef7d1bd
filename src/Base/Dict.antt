-- ===== src/Base/Dict.antt =====
-- Go's maps with string keys, as association lists. A Go loop over a map runs in an arbitrary order:
-- here it is the order of the list.
use Prim.Native.String.{String}
use mathlib.Core.Path.{◌≡◌, refl}
use mathlib.Core.Bool.{true, false}
use mathlib.Core.List.{List, [], ◌∷◌}
use mathlib.Core.Option.{Option, none, some}
use native.Mathlib.Omega.{arith}
use text.Mathlib.Text.{◌==◌}
use text.Mathlib.TextEquality.{eq_iff}
use spec_torture.Base.Tests.{if◌then◌else◌}
use spec_torture.Base.Lists.{contains}

abbrev pub Dict {ℓ} : Type ℓ → Type ℓ
Dict V = List (String × V)

module _ {ℓ} {V : Type ℓ} where
  -- m[name]; a missing key has no value
  unfoldable pub lookup : String → Dict V → Option V
  lookup name [] = none
  lookup name ((key, value) ∷ entries) =
      let later = lookup name entries in if key == name then some value else later

  -- m[name] = value, in the place of an old value, or else last
  unfoldable pub insert : String → V → Dict V → Dict V
  insert name value [] = (name, value) ∷ []
  insert name value ((key, old) ∷ entries) =
      let later = (key, old) ∷ insert name value entries in
      if key == name then (key, value) ∷ entries else later

  -- delete(m, k)
  unfoldable pub delete : String → Dict V → Dict V
  delete k [] = []
  delete k ((j, v) ∷ m) = let rest = delete k m in if j == k then rest else (j, v) ∷ rest

  unfoldable pub keys : Dict V → List String
  keys [] = []
  keys ((j, v) ∷ m) = j ∷ keys m

  pub lookup-insert :
      (name other : String) (value : V) (entries : Dict V)
      → lookup other (insert name value entries)
        ≡ (if name == other then some value else lookup other entries)
  unfolding lookup insert
  lookup-insert name other value [] = refl
  lookup-insert name other value ((key, old) ∷ entries) = ground (
    arith,
    lookup-insert name other value entries,
    eq_iff name other,
    eq_iff key name,
    eq_iff key other,
  )

  pub lookup-delete :
      (name other : String) (entries : Dict V)
      → lookup other (delete name entries) ≡ (if name == other then none else lookup other entries)
  unfolding lookup delete
  lookup-delete name other [] = ground arith
  lookup-delete name other ((key, old) ∷ entries) = ground (
    arith,
    lookup-delete name other entries,
    eq_iff name other,
    eq_iff key name,
    eq_iff key other,
  )

  -- the keys are those with a value
  pub contains-keys :
      (k : String) (m : Dict V)
      → contains (keys m) k ≡ elim (lookup k m) [ none ↦ false | some _ ↦ true ]
  unfolding lookup keys
  contains-keys k [] = refl
  contains-keys k ((j, v) ∷ m) = ground (arith, contains-keys k m)

module _ {ℓ} {V : Type ℓ} where
  pub lookup-empty : (k : String) → lookup {V = V} k [] ≡ none
  unfolding lookup
  lookup-empty k = refl

pub ruleset dict_laws = (lookup-insert, lookup-delete, lookup-empty)
