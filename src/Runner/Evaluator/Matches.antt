-- ===== src/Runner/Evaluator/Matches.antt =====
-- What it means that a value matches a pattern, with no order of tests and no paths.
use spec_torture.Base.{◌≡◌, String, true, some, List, ◌∷◌}
use spec_torture.Base.Dict.{Dict, lookup}
use spec_torture.Value.{
  Value, null, boolean, text, int, float, number, arr, obj, Items, no_items, item, Fields,
  no_fields, field, items, fields,
}
use spec_torture.Runner.Evaluator.{Formats, numeric_equal, deep_equal}

-- the values that are compared whole
pub data IsScalar : Value → Type 0 where
  a_null : IsScalar null
  a_boolean : {b : _} → IsScalar (boolean b)
  an_int : {n : _} → IsScalar (int n)
  a_float : {b : _} → IsScalar (float b)

mutual
  pub data Matches (f : Formats) : Value → Value → Type 0 where
    wildcard : {s : String} {a : Value} → s ≡ "*" → Matches f (text s) a
    same_text : {s : String} {a : Value} → s ≡ f.shown a → Matches f (text s) a
    a_number :
        {n : String} {a : Value} → numeric_equal f (number n) a ≡ true → Matches f (number n) a
    equal : {e a : Value} → IsScalar e → deep_equal f e a ≡ true → Matches f e a
    close : {e a : Value} → IsScalar e → numeric_equal f e a ≡ true → Matches f e a
    an_object : {es fs : Fields} → Covers f es (fields fs) → Matches f (obj es) (obj fs)
    an_array : {es vs : Items} → Starts f es (items vs) → Matches f (arr es) (arr vs)

  -- each expected key is there, with a value that matches
  pub data Covers (f : Formats) : Fields → Dict Value → Type 0 where
    no_key : {d : Dict Value} → Covers f no_fields d
    at_key :
        {k : String} {e a : Value} {es : Fields} {d : Dict Value}
        → lookup k d ≡ some a
        → Matches f e a
        → Covers f es d
        → Covers f (field k e es) d

  -- the expected items match the first items, one by one
  pub data Starts (f : Formats) : Items → List Value → Type 0 where
    no_item : {vs : List Value} → Starts f no_items vs
    at_item :
        {e a : Value} {es : Items} {vs : List Value}
        → Matches f e a
        → Starts f es vs
        → Starts f (item e es) (a ∷ vs)
