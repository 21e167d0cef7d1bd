-- ===== src/Client/Driver.antt =====
-- internal/clientrunner/crush_driver.go: the JSON object in the output of the client program.
use Prim.Native.Char.{code}
use spec_torture.Base.{
  zero, suc, ◌+◌, String, Bool, true, false, Option, none, some, eqb, if◌then◌else◌,
}
use spec_torture.Base.Int.{ℤ, pos, negsuc}
use spec_torture.Base.Dict.{Dict}
use spec_torture.Base.Text.{concat}
use spec_torture.Value.{Value}
-- What is found of an object in an output.
pub mod Nested

abbrev deeper : ℤ → ℤ
deeper (pos n) = pos (n + 1)
deeper (negsuc zero) = pos 0
deeper (negsuc (suc n)) = negsuc n

abbrev shallower : ℤ → ℤ
shallower (pos zero) = negsuc 0
shallower (pos (suc n)) = pos n
shallower (negsuc n) = negsuc (n + 1)

abbrev is_level : ℤ → Bool
is_level (pos zero) = true
is_level _ = false

abbrev or_go_on : Option (Option (Dict Value)) → Option (Dict Value) → Option (Dict Value)
or_go_on none rest = rest
or_go_on (some m) rest = m

-- `parse` is json.Unmarshal into a map.
module _ (parse : String → Option (Option (Dict Value))) where
  -- the loop from the first brace on, with the text read and the depth; nil is `none`
  unfoldable pub scan_braces : String → ℤ → String → Option (Dict Value)
  unfolding concat
  scan_braces seen depth String.[] = none
  scan_braces seen depth (String.◌∷◌ c s) =
      let seen' : String = concat seen (String.◌∷◌ c "") in
      let opened = scan_braces seen' (deeper depth) s in
      let closed = scan_braces seen' (shallower depth) s in
      let same = scan_braces seen' depth s in
      if eqb (code c) b'{'
      then opened
      else if eqb (code c) b'}'
      then (if is_level (shallower depth) then or_go_on (parse seen') closed else closed)
      else same

  -- `extractJSON`
  unfoldable pub extract_json : String → Option (Dict Value)
  unfolding scan_braces
  extract_json String.[] = none
  extract_json (String.◌∷◌ c s) =
      let later = extract_json s in
      if eqb (code c) b'{' then scan_braces "" (pos 0) (String.◌∷◌ c s) else later
