-- ===== src/Base/Lists.antt =====
-- Lists measured and indexed by native numbers, Boolean membership, and predicates by recursion.
use Prim.Native.Nat.{ℕ, zero, suc, ◌+◌, ◌<◌}
use Prim.Native.String.{String}
use mathlib.Core.Path.{◌≡◌, refl, ap}
use mathlib.Core.Logic.{◌⊎◌}
use mathlib.Core.Bool.{Bool, true, false, ◌||◌, ◌&&◌}
use mathlib.Core.List.{List, [], ◌∷◌, ◌++◌}
use mathlib.Core.Option.{Option, none, some}
use native.Mathlib.Omega.{arith}
use text.Mathlib.Text.{◌==◌}
use spec_torture.Base.Tests.{if◌then◌else◌, eqb}

module _ {ℓ} {A : Type ℓ} where
  abbrev pub length : List A → ℕ
  length [] = 0
  length (x ∷ xs) = suc (length xs)

  abbrev pub get_elem? : List A → ℕ → Option A
  get_elem? [] i = none
  get_elem? (x ∷ xs) zero = some x
  get_elem? (x ∷ xs) (suc i) = get_elem? xs i

  -- A write out of bounds changes nothing.
  abbrev pub set : List A → ℕ → A → List A
  set [] i v = []
  set (x ∷ xs) zero v = v ∷ xs
  set (x ∷ xs) (suc i) v = x ∷ set xs i v

  abbrev pub filter : (A → Bool) → List A → List A
  filter p [] = []
  filter p (x ∷ xs) = let rest = filter p xs in if p x then x ∷ rest else rest

  abbrev pub any : (A → Bool) → List A → Bool
  any p [] = false
  any p (x ∷ xs) = p x || any p xs

  abbrev pub all : (A → Bool) → List A → Bool
  all p [] = true
  all p (x ∷ xs) = p x && all p xs

module _ {ℓ κ} {A : Type ℓ} (P : A → Type κ) where
  abbrev pub All : List A → Type κ
  All [] = Unit
  All (x ∷ xs) = P x × All xs

  abbrev pub Any : List A → Type κ
  Any [] = Unit → ⊥
  Any (x ∷ xs) = P x ⊎ Any xs

-- `names` holds `name`: what a Go loop with `==` finds.
abbrev pub contains : List String → String → Bool
contains [] name = false
contains (x ∷ xs) name = x == name || contains xs name

-- a Go `map[int]bool` that only ever holds `true`
abbrev pub has : List ℕ → ℕ → Bool
has [] n = false
has (x ∷ xs) n = eqb x n || has xs n

abbrev pub without : List ℕ → ℕ → List ℕ
without [] n = []
without (x ∷ xs) n = let rest = without xs n in if eqb x n then rest else x ∷ rest

pub has-without :
    (xs : List ℕ) (n m : ℕ) → has (without xs n) m ≡ (if eqb n m then false else has xs m)
has-without [] n m = ground arith
has-without (x ∷ xs) n m = ground (arith, has-without xs n m)

module _ {ℓ} {A : Type ℓ} where
  pub length-append : (xs ys : List A) → length (xs ++ ys) ≡ length xs + length ys
  length-append [] ys = omega arith
  length-append (x ∷ xs) ys = omega (arith, length-append xs ys)

  pub get_elem?-set :
      (xs : List A) (i j : ℕ) (v : A)
      → get_elem? (set xs i v) j ≡ (
          if eqb i j
          then elim (get_elem? xs j) [ none ↦ none | some _ ↦ some v ]
          else get_elem? xs j)
  get_elem?-set [] i j v = ground arith
  get_elem?-set (x ∷ xs) zero zero v = refl
  get_elem?-set (x ∷ xs) zero (suc j) v = ground arith
  get_elem?-set (x ∷ xs) (suc i) zero v = ground arith
  get_elem?-set (x ∷ xs) (suc i) (suc j) v = ground (arith, get_elem?-set xs i j v)

  pub length-set : (xs : List A) (i : ℕ) (v : A) → length (set xs i v) ≡ length xs
  length-set [] i v = refl
  length-set (x ∷ xs) zero v = refl
  length-set (x ∷ xs) (suc i) v = ap suc (length-set xs i v)

  -- an append keeps what is there, and puts the new element at the old length
  pub get_elem?-append :
      (xs : List A) (i : ℕ) (a b : A)
      → get_elem? xs i ≡ some a
      → get_elem? (xs ++ b ∷ []) i ≡ some a
  get_elem?-append [] i a b h = ground arith
  get_elem?-append (x ∷ xs) zero a b h = h
  get_elem?-append (x ∷ xs) (suc i) a b h = get_elem?-append xs i a b h

  pub get_elem?-append_length :
      (xs : List A) (b : A) → get_elem? (xs ++ b ∷ []) (length xs) ≡ some b
  get_elem?-append_length [] b = refl
  get_elem?-append_length (x ∷ xs) b = get_elem?-append_length xs b

  pub get_elem?_bound : (xs : List A) (i : ℕ) {a : A} → get_elem? xs i ≡ some a → i < length xs
  get_elem?_bound [] i h = ground arith
  get_elem?_bound (x ∷ xs) zero h = omega arith
  get_elem?_bound (x ∷ xs) (suc i) h = omega (arith, get_elem?_bound xs i h)
