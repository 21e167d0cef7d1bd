-- ===== src/Runner/Evaluator/Tests.antt =====
-- The evaluator on small values, and its theorems at inputs that meet their hypotheses.
use spec_torture.Base.{ℕ, ◌≡◌, refl, inl, inr, ◌↔◌, String, none, some, eqb, arith, [], ◌∷◌, eq_iff}
use spec_torture.Base.Int.{ℤ, pos, negsuc}
use spec_torture.Base.Dict.{lookup}
use spec_torture.Value.{Value, text, int, arr, item, no_items, Fields, no_fields, field, fields}
use spec_torture.Runner.Evaluator.{
  Formats, match, match_values, match_text, match_scalar, numeric_equal, deep_equal, to_float64,
  key, missing_key, mismatch, index,
}
use spec_torture.Runner.Evaluator.Matches.{Covers}
use spec_torture.Runner.Evaluator.Laws.{HasField, match_iff, match_order, match_extended}

abbrev shown : Value → String
shown (text s) = s
shown _ = "?"

abbrev bits : ℤ → ℕ
bits (pos n) = n
bits (negsuc n) = 0

abbrev formats : Formats
formats = record { of_int = bits; parse = λ s. none; near = eqb; same = eqb; shown = shown }

-- {"status": "*", "code": 7} against {"code": 7, "status": "ok"}, and in the other order
abbrev pattern_one : Fields
pattern_one = field "status" (text "*") (field "code" (int (pos 7)) no_fields)

abbrev pattern_two : Fields
pattern_two = field "code" (int (pos 7)) (field "status" (text "*") no_fields)

abbrev reply : Fields
reply = field "code" (int (pos 7)) (field "status" (text "ok") no_fields)

abbrev long_reply : Fields
long_reply =
    field "code" (int (pos 7)) (field "status" (text "ok") (field "more" (int (pos 1)) no_fields))

runs : Unit {0}
unfolding match match_values match_text match_scalar numeric_equal deep_equal to_float64 lookup
runs = tt

accepted : match formats pattern_one reply ≡ none
unfolding runs
accepted = refl

rejected :
    (match formats pattern_one (field "code" (int (pos 7)) no_fields)
      ≡ some (missing_key (key "status" ∷ [])))
    × (match formats
          (field "a" (arr (item (text "x") no_items)) no_fields)
          (field "a" (arr (item (text "y") no_items)) no_fields)
        ≡ some (mismatch (key "a" ∷ index 0 ∷ [])))
unfolding runs
rejected = (refl, refl)

match_iff_example :
    (match formats pattern_one reply ≡ none) ↔ Covers formats pattern_one (fields reply)
match_iff_example = match_iff formats pattern_one reply

swapped : (k : String) (v : Value) → HasField k v pattern_two → HasField k v pattern_one
swapped k v (inl h) = inr (inl h)
swapped k v (inr (inl h)) = inl h
swapped k v (inr (inr h)) = absurd (h tt)

match_order_example : match formats pattern_two reply ≡ none
match_order_example = match_order formats pattern_one pattern_two reply swapped accepted

longer :
    (k : String) (a : Value)
    → lookup k (fields reply) ≡ some a
    → lookup k (fields long_reply) ≡ some a
unfolding lookup
longer k a h = ground (arith, eq_iff "code" k, eq_iff "status" k, eq_iff "more" k)

match_extended_example : match formats pattern_one long_reply ≡ none
match_extended_example = match_extended formats pattern_one reply long_reply longer accepted
