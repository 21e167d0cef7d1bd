-- ===== src/Runner/Transport.antt =====
-- internal/runner/transport.go: responses, references to the last one, and expectations.
pub mod Refs
pub mod Expect
use Prim.Native.Char.{Char, code}
use spec_torture.Base.{
  ℕ, zero, suc, ◌-◌, String, Bool, true, false, not, ◌&&◌, ◌||◌, Option, none, some, List, [], ◌∷◌,
  ◌==◌, get_elem?, eqb, leb, if◌then◌else◌,
}
use spec_torture.Base.Int.{ℤ, pos, negsuc}
use spec_torture.Base.Dict.{Dict, lookup}
use spec_torture.Base.Text.{concat}
use spec_torture.Base.Strings.{has_prefix, split, atoi}
use spec_torture.Value.{
  Value, null, boolean, text, int, float, number, arr, obj, Items, no_items, item, Fields,
  no_fields, field, items, fields, of_items, of_fields,
}

-- A nil map or slice is `none`.
pub record Response : Type 0 where
  pub http_status : ℤ
  pub headers : Dict String
  pub body : Option (Dict Value)
  pub body_array : Option (List Value)
  pub raw_body : String
  pub sse_events : List (Option (Dict Value))
  pub jsonrpc_resp : Option (Dict Value)
  pub parsed : Option (Dict Value)

abbrev pub last_of {ℓ} : {A : Type ℓ} → List A → Option A
last_of [] = none
last_of (x ∷ []) = some x
last_of (x ∷ y ∷ ys) = last_of (y ∷ ys)

abbrev flat : Option (Option (Dict Value)) → Option (Dict Value)
flat none = none
flat (some m) = m

-- the first that is there
abbrev pub or_else : Option (Dict Value) → Option (Dict Value) → Option (Dict Value)
or_else none later = later
or_else (some m) later = some m

abbrev pub as_body : Option (List Value) → Option (Dict Value)
as_body none = none
as_body (some vs) = some (("body", arr (of_items vs)) ∷ [])

-- `mergeResponseData` of a response that is not nil
unfoldable pub merge_response_data : Response → Option (Dict Value)
merge_response_data r =
    or_else r.jsonrpc_resp
      (or_else r.body (or_else (as_body r.body_array) (flat (last_of r.sse_events))))

-- a nil map is read like an empty one
abbrev pub or_empty : Option (Dict Value) → Dict Value
or_empty none = []
or_empty (some m) = m

abbrev or_null : Option Value → Value
or_null none = null
or_null (some v) = v

abbrev at_index : List Value → Option ℤ → Value
at_index vs none = null
at_index vs (some (pos i)) = or_null (get_elem? vs i)
at_index vs (some (negsuc i)) = null

-- the body of the loop of `resolveJSONPath`; a nil that is met ends the loop, and stays nil here
unfoldable pub step_into : Value → String → Value
step_into (obj fs) part = or_null (lookup part (fields fs))
step_into (arr vs) part = at_index (items vs) (atoi part)
step_into v part = null

unfoldable pub follow : Value → List String → Value
follow v [] = v
follow v (p ∷ ps) = follow (step_into v p) ps

unfoldable pub resolve_json_path : Dict Value → String → Value
unfolding follow step_into
resolve_json_path d path = follow (obj (of_fields d)) (split b'.' path)

-- [a-zA-Z0-9_.]
abbrev pub is_ref_letter : ℕ → Bool
is_ref_letter c =
    (leb b'a' c && leb c b'z')
    || ((leb b'A' c && leb c b'Z') || ((leb b'0' c && leb c b'9') || (eqb c b'_' || eqb c b'.')))

abbrev starts_with_letter : String → Bool
starts_with_letter String.[] = false
starts_with_letter (String.◌∷◌ c s) = is_ref_letter (code c)

-- `$prev.` and at least one letter of a path
unfoldable pub starts_ref : String → Bool
unfolding has_prefix
starts_ref
      (String.◌∷◌ a (String.◌∷◌ b (String.◌∷◌ c (String.◌∷◌ d (String.◌∷◌ e (String.◌∷◌ f s)))))) =
    has_prefix
      (String.◌∷◌ a (String.◌∷◌ b (String.◌∷◌ c (String.◌∷◌ d (String.◌∷◌ e (String.◌∷◌ f s))))))
      "$prev."
    && starts_with_letter s
starts_ref _ = false

-- Where the scan of a text stands: outside a reference, before the path with `n` letters of `prev.` to come, or in a
-- path, with what was read of it.
pub data Scan : Type 0 where
  outside : Scan
  skipping : ℕ → Scan
  inside : String → Scan

-- the state after a letter, of which `rest` is the text that it starts
unfoldable pub next_scan : Scan → Char → String → Scan
unfolding starts_ref concat
next_scan (skipping zero) c rest = inside (String.◌∷◌ c "")
next_scan (skipping (suc n)) c rest = skipping n
next_scan (inside path) c rest =
    if is_ref_letter (code c)
    then inside (concat path (String.◌∷◌ c ""))
    else if starts_ref rest
    then skipping 5
    else outside
next_scan outside c rest = if starts_ref rest then skipping 5 else outside

abbrev keeps_letter : Scan → Scan → Bool
keeps_letter old outside = true
keeps_letter old _ = false

module _ (put : String → String) where
  -- what is written when a path ends
  abbrev ended : Scan → Scan → String
  ended (inside path) (inside _) = ""
  ended (inside path) _ = put path
  ended _ _ = ""

  abbrev at_end : Scan → String
  at_end (inside path) = put path
  at_end _ = ""

  -- ReplaceAllStringFunc of the regular expression: the longest path from each match on
  unfoldable pub replace_refs : Scan → String → String
  unfolding next_scan concat
  replace_refs st String.[] = at_end st
  replace_refs st (String.◌∷◌ c s) =
      let next = next_scan st c (String.◌∷◌ c s) in
      let rest = replace_refs next s in
      concat (ended st next) (if keeps_letter st next then String.◌∷◌ c rest else rest)

-- `interpolateValue` and `interpolateMap`: `fmt.Sprintf("%v", resolved)` for each reference
module _ (shown : Value → String) (d : Dict Value) where
  unfoldable pub interpolate_text : String → String
  unfolding replace_refs
  interpolate_text s = replace_refs (λ path. shown (resolve_json_path d path)) outside s

  unfoldable mutual
    pub interpolate_value : Value → Value
    interpolate_value (text s) = text (interpolate_text s)
    interpolate_value (obj fs) = obj (interpolate_fields fs)
    interpolate_value (arr vs) = arr (interpolate_items vs)
    interpolate_value null = null
    interpolate_value (boolean b) = boolean b
    interpolate_value (int n) = int n
    interpolate_value (float b) = float b
    interpolate_value (number s) = number s

    pub interpolate_fields : Fields → Fields
    interpolate_fields no_fields = no_fields
    interpolate_fields (field k v fs) = field k (interpolate_value v) (interpolate_fields fs)

    pub interpolate_items : Items → Items
    interpolate_items no_items = no_items
    interpolate_items (item v vs) = item (interpolate_value v) (interpolate_items vs)

-- `interpolateVars`
unfoldable pub interpolate_vars : (Value → String) → Dict Value → Option Response → Dict Value
unfolding merge_response_data
interpolate_vars shown payload none = payload
interpolate_vars shown payload (some r) =
    fields (interpolate_fields shown (or_empty (merge_response_data r)) (of_fields payload))
