-- ===== src/Runner/Transport/Refs.antt =====
-- What interpolation replaces, and what it leaves alone.
use Prim.Native.Char.{Char, code}
use spec_torture.Base.{◌≡◌, refl, String, Bool, true, false, ◌||◌, ap, ◌∙◌, sym, arith}
use spec_torture.Base.Dict.{Dict}
use spec_torture.Base.Text.{concat, concat-nil, concat_assoc}
use spec_torture.Value.{
  Value, null, boolean, text, int, float, number, arr, obj, Items, no_items, item, Fields,
  no_fields, field,
}
use spec_torture.Runner.Transport.{
  outside, inside, is_ref_letter, starts_ref, next_scan, replace_refs, interpolate_text,
  interpolate_value, interpolate_fields, interpolate_items, resolve_json_path,
}

-- A reference starts somewhere in the text.
abbrev pub mentions : String → Bool
mentions String.[] = false
mentions (String.◌∷◌ c s) = starts_ref (String.◌∷◌ c s) || mentions s

replace_refs-none :
    (put : String → String) (s : String) → mentions s ≡ false → replace_refs put outside s ≡ s
unfolding replace_refs next_scan concat
replace_refs-none put String.[] h = refl
replace_refs-none put (String.◌∷◌ c s) h =
    let no_start : starts_ref (String.◌∷◌ c s) ≡ false = ground arith in
    rw no_start (ap (λ t. String.◌∷◌ c t) (replace_refs-none put s (ground arith)))

-- every letter may stand in a path
abbrev pub IsPath : String → Type 0
IsPath String.[] = Unit
IsPath (String.◌∷◌ c s) = (is_ref_letter (code c) ≡ true) × IsPath s

replace_refs-inside :
    (put : String → String) (s path : String)
    → IsPath s
    → replace_refs put (inside path) s ≡ put (concat path s)
unfolding replace_refs next_scan concat
replace_refs-inside put String.[] path h = ap put (sym (concat-nil path))
replace_refs-inside put (String.◌∷◌ c s) path (letter, h) = rw letter (
    replace_refs-inside put s (concat path (String.◌∷◌ c "")) h
    ∙ ap put (concat_assoc path (String.◌∷◌ c "") s))

-- `fmt.Sprintf("%v", …)` stands where the reference stood.
replace_refs-ref :
    (put : String → String) (c : Char) (s : String)
    → is_ref_letter (code c) ≡ true
    → IsPath s
    → replace_refs put outside (concat "$prev." (String.◌∷◌ c s)) ≡ put (String.◌∷◌ c s)
unfolding replace_refs next_scan concat starts_ref
replace_refs-ref put c s letter h = rw letter (replace_refs-inside put s (String.◌∷◌ c "") h)

unfoldable mutual
  -- Some text of the value holds a reference.
  pub refers : Value → Bool
  refers (text s) = mentions s
  refers (obj fs) = fields_refer fs
  refers (arr vs) = items_refer vs
  refers null = false
  refers (boolean b) = false
  refers (int n) = false
  refers (float b) = false
  refers (number s) = false

  pub fields_refer : Fields → Bool
  fields_refer no_fields = false
  fields_refer (field k v fs) = refers v || fields_refer fs

  pub items_refer : Items → Bool
  items_refer no_items = false
  items_refer (item v vs) = refers v || items_refer vs

module _ (shown : Value → String) (d : Dict Value) where
  mutual
    unfolding interpolate_value interpolate_text refers

    value_kept : (v : Value) → refers v ≡ false → interpolate_value shown d v ≡ v
    value_kept (text s) h = ap text (replace_refs-none _ s h)
    value_kept (obj fs) h = ap obj (fields_kept fs h)
    value_kept (arr vs) h = ap arr (items_kept vs h)
    value_kept null h = refl
    value_kept (boolean b) h = refl
    value_kept (int n) h = refl
    value_kept (float b) h = refl
    value_kept (number s) h = refl

    fields_kept : (fs : Fields) → fields_refer fs ≡ false → interpolate_fields shown d fs ≡ fs
    fields_kept no_fields h = refl
    fields_kept (field k v fs) h =
        rw (value_kept v (ground arith), fields_kept fs (ground arith)) refl

    items_kept : (vs : Items) → items_refer vs ≡ false → interpolate_items shown d vs ≡ vs
    items_kept no_items h = refl
    items_kept (item v vs) h = rw (value_kept v (ground arith), items_kept vs (ground arith)) refl

  -- A value in which no text holds a reference to the last response is sent as it stands.
  pub interpolate_value-unrefering :
      (v : Value) → refers v ≡ false → interpolate_value shown d v ≡ v
  interpolate_value-unrefering v h = value_kept v h

  -- A text that is one reference, whatever its path, is replaced by the text of what the path leads to
  -- in the last response.
  pub interpolate_value-ref :
      (c : Char) (s : String)
      → is_ref_letter (code c) ≡ true
      → IsPath s
      → interpolate_value shown d (text (concat "$prev." (String.◌∷◌ c s)))
        ≡ text (shown (resolve_json_path d (String.◌∷◌ c s)))
  unfolding interpolate_value interpolate_text
  interpolate_value-ref c s letter h = ap text (replace_refs-ref _ c s letter h)
