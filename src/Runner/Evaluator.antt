-- ===== src/Runner/Evaluator.antt =====
-- internal/runner/evaluator.go: whether an actual value matches an expected pattern. An error is
-- kept with the path at which it was found; its text is left out.
pub mod Matches
pub mod Decides
pub mod Laws
mod Tests
use spec_torture.Base.{
  ℕ, zero, suc, String, Bool, true, false, ◌&&◌, ◌||◌, Option, none, some, List, [], ◌∷◌, ◌++◌,
  ◌==◌, length, eqb, ltb, if◌then◌else◌,
}
use spec_torture.Base.Int.{ℤ, pos, negsuc}
use spec_torture.Base.Dict.{Dict, lookup}
use spec_torture.Value.{
  Value, null, boolean, text, int, float, number, arr, obj, Items, no_items, item, Fields,
  no_fields, field, items, fields,
}

-- What the evaluator asks of Go's float64 and of `fmt`. A float64 is its bit pattern.
pub record Formats : Type 0 where
  -- float64(n)
  pub of_int : ℤ → ℕ
  -- json.Number.Float64
  pub parse : String → Option ℕ
  -- math.Abs(a - b) < 1e-9
  pub near : ℕ → ℕ → Bool
  -- a == b
  pub same : ℕ → ℕ → Bool
  -- fmt.Sprintf("%v", v)
  pub shown : Value → String

pub data PathStep : Type 0 where
  key : String → PathStep
  index : ℕ → PathStep

abbrev pub KeyPath : Type 0
KeyPath = List PathStep

pub data MatchError : Type 0 where
  missing_key not_an_object not_an_array too_few_items mismatch : KeyPath → MatchError

-- the first error, as an early return gives it
abbrev pub or_else : Option MatchError → Option MatchError → Option MatchError
or_else none rest = rest
or_else (some e) rest = some e

abbrev pub unless : Bool → MatchError → Option MatchError
unless true e = none
unless false e = some e

abbrev pub same_bool : Bool → Bool → Bool
same_bool true b = b
same_bool false true = false
same_bool false false = true

abbrev pub same_int : ℤ → ℤ → Bool
same_int (pos a) (pos b) = eqb a b
same_int (negsuc a) (negsuc b) = eqb a b
same_int _ _ = false

module _ (f : Formats) where
  -- `toFloat64`; the sized integers and floats of Go are one case each
  unfoldable pub to_float64 : Value → Option ℕ
  to_float64 (float b) = some b
  to_float64 (int n) = some (f.of_int n)
  to_float64 (number s) = f.parse s
  to_float64 _ = none

  abbrev pub both_near : Option ℕ → Option ℕ → Bool
  both_near (some a) (some b) = f.near a b
  both_near (some a) none = false
  both_near none b = false

  unfoldable pub numeric_equal : Value → Value → Bool
  unfolding to_float64
  numeric_equal a b = both_near (to_float64 a) (to_float64 b)

  -- reflect.DeepEqual on the values that reach it: null, booleans, integers and floats
  unfoldable pub deep_equal : Value → Value → Bool
  deep_equal null null = true
  deep_equal (boolean a) (boolean b) = same_bool a b
  deep_equal (int a) (int b) = same_int a b
  deep_equal (float a) (float b) = f.same a b
  deep_equal _ _ = false

  unfoldable pub match_text : KeyPath → String → Value → Option MatchError
  match_text path s act = unless (s == "*" || s == f.shown act) (mismatch path)

  unfoldable pub match_scalar : KeyPath → Value → Value → Option MatchError
  match_scalar path exp act = unless (deep_equal exp act || numeric_equal exp act) (mismatch path)

  abbrev pub count : Items → ℕ
  count no_items = 0
  count (item v vs) = suc (count vs)

  unfoldable mutual
    -- `matchValues`; `none` is a match
    pub match_values : KeyPath → Value → Value → Option MatchError
    match_values path (obj exp) (obj act) = match_maps path exp (fields act)
    match_values path (obj exp) act = some (not_an_object path)
    match_values path (arr exp) (arr act) =
        let each = match_items path 0 exp (items act) in
        if ltb (length (items act)) (count exp) then some (too_few_items path) else each
    match_values path (arr exp) act = some (not_an_array path)
    match_values path (text s) act = match_text path s act
    match_values path (number n) act = unless (numeric_equal (number n) act) (mismatch path)
    match_values path null act = match_scalar path null act
    match_values path (boolean b) act = match_scalar path (boolean b) act
    match_values path (int n) act = match_scalar path (int n) act
    match_values path (float b) act = match_scalar path (float b) act

    -- `matchMaps`: the loop over the expected keys
    pub match_maps : KeyPath → Fields → Dict Value → Option MatchError
    match_maps path no_fields act = none
    match_maps path (field k v fs) act =
        let p = path ++ key k ∷ [] in
        let rest = match_maps path fs act in
        elim (lookup k act) [
          | none ↦ some (missing_key p)
          | some a ↦ or_else (match_values p v a) rest
        ]

    -- the loop over the expected items, which are no more than the actual ones
    pub match_items : KeyPath → ℕ → Items → List Value → Option MatchError
    match_items path i no_items act = none
    match_items path i (item v vs) [] = none
    match_items path i (item v vs) (a ∷ rest) =
        or_else (match_values (path ++ index i ∷ []) v a) (match_items path (suc i) vs rest)

  -- `Match`
  unfoldable pub match : Fields → Fields → Option MatchError
  unfolding match_values
  match expected actual = match_maps [] expected (fields actual)
