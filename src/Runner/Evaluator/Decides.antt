-- ===== src/Runner/Evaluator/Decides.antt =====
-- The evaluator decides `Matches`: soundness and completeness over the three loops at once.
use spec_torture.Base.{
  ℕ, suc, ◌≡◌, ◌≤◌, refl, ◌⊎◌, inl, inr, ◌||◌, String, Bool, true, false, Option, none, some, List,
  [], ◌∷◌, ◌++◌, arith, ◌==◌, eq_iff, Option-cases, length,
}
use spec_torture.Base.Dict.{Dict, lookup}
use spec_torture.Value.{
  Value, null, boolean, text, int, float, number, arr, obj, Items, no_items, item, Fields,
  no_fields, field, items, fields,
}
use spec_torture.Runner.Evaluator.{
  Formats, KeyPath, key, index, MatchError, or_else, unless, numeric_equal, deep_equal, match_text,
  match_scalar, count, match_values, match_maps, match_items,
}
use spec_torture.Runner.Evaluator.Matches.{
  IsScalar, a_null, a_boolean, an_int, a_float, Matches, wildcard, same_text, a_number, equal,
  close, an_object, an_array, Covers, no_key, at_key, Starts, no_item, at_item,
}

or_else-eq-none : (a b : Option MatchError) → or_else a b ≡ none → (a ≡ none) × (b ≡ none)
or_else-eq-none none b h = (refl, h)
or_else-eq-none (some e) b h = cc

unless-eq-none : (b : Bool) (e : MatchError) → unless b e ≡ none → b ≡ true
unless-eq-none true e h = refl
unless-eq-none false e h = cc

or_cases : (a b : Bool) → (a || b) ≡ true → (a ≡ true) ⊎ (b ≡ true)
or_cases true b h = inl refl
or_cases false b h = inr h

module _ (f : Formats) where
  text_sound :
      (p : KeyPath) (s : String) (a : Value) → match_text f p s a ≡ none → Matches f (text s) a
  unfolding match_text
  text_sound p s a h = elim (or_cases (s == "*") (s == f.shown a) (unless-eq-none _ _ h)) [
    | inl star ↦ wildcard ((eq_iff _ _).0 star)
    | inr same ↦ same_text ((eq_iff _ _).0 same)
  ]

  scalar_sound :
      (p : KeyPath) (e a : Value) → IsScalar e → match_scalar f p e a ≡ none → Matches f e a
  unfolding match_scalar
  scalar_sound p e a sc h =
      elim (or_cases (deep_equal f e a) (numeric_equal f e a) (unless-eq-none _ _ h)) [
        | inl same ↦ equal sc same
        | inr near ↦ close sc near
      ]

  mutual
    unfolding match_values

    pub values_sound : (p : KeyPath) (e a : Value) → match_values f p e a ≡ none → Matches f e a
    values_sound p (obj es) (obj fs) h = an_object (maps_sound p es (fields fs) h)
    values_sound p (obj es) a h = cc
    values_sound p (arr es) (arr vs) h =
        an_array (items_sound p 0 es (items vs) (ground arith) (ground arith))
    values_sound p (arr es) a h = cc
    values_sound p (text s) a h = text_sound p s a h
    values_sound p (number n) a h = a_number (unless-eq-none _ _ h)
    values_sound p null a h = scalar_sound p null a a_null h
    values_sound p (boolean b) a h = scalar_sound p (boolean b) a a_boolean h
    values_sound p (int n) a h = scalar_sound p (int n) a an_int h
    values_sound p (float b) a h = scalar_sound p (float b) a a_float h

    pub maps_sound :
        (p : KeyPath) (es : Fields) (d : Dict Value) → match_maps f p es d ≡ none → Covers f es d
    maps_sound p no_fields d h = no_key
    maps_sound p (field k v fs) d h = elim (Option-cases (lookup k d)) [
      | inl missing ↦ absurd (ground arith)
      | inr (a, found) ↦
          let both =
            or_else-eq-none (match_values f (p ++ key k ∷ []) v a) (match_maps f p fs d)
              (ground arith) in
          at_key found (values_sound (p ++ key k ∷ []) v a both.0) (maps_sound p fs d both.1)
    ]

    items_sound :
        (p : KeyPath) (i : ℕ) (es : Items) (vs : List Value)
        → count f es ≤ length vs
        → match_items f p i es vs ≡ none
        → Starts f es vs
    items_sound p i no_items vs le h = no_item
    items_sound p i (item e es) [] le h = absurd (omega arith)
    items_sound p i (item e es) (a ∷ vs) le h =
        let both =
          or_else-eq-none (match_values f (p ++ index i ∷ []) e a) (match_items f p (suc i) es vs)
            h in
        at_item (values_sound (p ++ index i ∷ []) e a both.0)
          (items_sound p (suc i) es vs (omega arith) both.1)

  text_complete :
      (p : KeyPath) (s : String) (a : Value)
      → (s ≡ "*") ⊎ (s ≡ f.shown a)
      → match_text f p s a ≡ none
  unfolding match_text
  text_complete p s a h = ground (arith, eq_iff s "*", eq_iff s (f.shown a))

  equal_complete :
      (p : KeyPath) {e : Value} (a : Value)
      → IsScalar e
      → (deep_equal f e a || numeric_equal f e a) ≡ true
      → match_values f p e a ≡ none
  unfolding match_values match_scalar
  equal_complete p a a_null h = rw h
  equal_complete p a a_boolean h = rw h
  equal_complete p a an_int h = rw h
  equal_complete p a a_float h = rw h

  or_right : (a b : Bool) → b ≡ true → (a || b) ≡ true
  or_right a b h = ground arith

  mutual
    unfolding match_values

    pub values_complete : (p : KeyPath) {e a : Value} → Matches f e a → match_values f p e a ≡ none
    values_complete p (wildcard {s} {a} h) = text_complete p s a (inl h)
    values_complete p (same_text {s} {a} h) = text_complete p s a (inr h)
    values_complete p (a_number h) = rw h
    values_complete p (equal {a} sc h) = equal_complete p a sc (rw h)
    values_complete p (close {a} sc h) = equal_complete p a sc (or_right _ _ h)
    values_complete p (an_object c) = maps_complete p c
    values_complete p (an_array {es} {vs} s) = ground (arith, items_complete p 0 s, items_long s)

    pub maps_complete :
        (p : KeyPath) {es : Fields} {d : Dict Value} → Covers f es d → match_maps f p es d ≡ none
    maps_complete p no_key = refl
    maps_complete p (at_key {k} found m c) =
        ground (arith, found, values_complete (p ++ key k ∷ []) m, maps_complete p c)

    items_complete :
        (p : KeyPath) (i : ℕ) {es : Items} {vs : List Value}
        → Starts f es vs
        → match_items f p i es vs ≡ none
    items_complete p i no_item = refl
    items_complete p i (at_item m s) =
        rw (values_complete (p ++ index i ∷ []) m) (items_complete p (suc i) s)

    items_long : {es : Items} {vs : List Value} → Starts f es vs → count f es ≤ length vs
    items_long no_item = omega arith
    items_long (at_item m s) = omega (arith, items_long s)
