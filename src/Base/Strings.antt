-- ===== src/Base/Strings.antt =====
-- The functions of Go's package strings that internal/ calls, and strconv.Atoi.
use Prim.Native.Char.{Char, code}
use Prim.Native.String.{String}
use Prim.Native.Nat.{ℕ, zero, suc, ◌+◌, ◌-◌, ◌*◌}
use mathlib.Core.Bool.{Bool, true, false, ◌&&◌, ◌||◌}
use mathlib.Core.Option.{Option, none, some}
use mathlib.Core.List.{List, [], ◌∷◌}
use text.Mathlib.Text.{◌==◌}
use spec_torture.Base.Tests.{if◌then◌else◌, eqb, leb}
use spec_torture.Base.Text.{concat}
use spec_torture.Base.Int.{ℤ, pos, negsuc}

-- strings.HasPrefix
unfoldable pub has_prefix : String → String → Bool
has_prefix s String.[] = true
has_prefix String.[] (String.◌∷◌ k p) = false
has_prefix (String.◌∷◌ c s) (String.◌∷◌ k p) = eqb (code c) (code k) && has_prefix s p

-- what is left of a text whose prefix is taken off, one letter for each of the prefix
unfoldable pub drop_as : String → String → String
drop_as s String.[] = s
drop_as String.[] (String.◌∷◌ k p) = ""
drop_as (String.◌∷◌ c s) (String.◌∷◌ k p) = drop_as s p

-- strings.TrimPrefix
unfoldable pub trim_prefix : String → String → String
unfolding has_prefix drop_as
trim_prefix s p = if has_prefix s p then drop_as s p else s

-- strings.HasSuffix
unfoldable pub has_suffix : String → String → Bool
has_suffix String.[] p = p == ""
has_suffix (String.◌∷◌ c s) p = String.◌∷◌ c s == p || has_suffix s p

-- strings.TrimSuffix
unfoldable pub trim_suffix : String → String → String
trim_suffix String.[] p = ""
trim_suffix (String.◌∷◌ c s) p =
    let rest = trim_suffix s p in if String.◌∷◌ c s == p then "" else String.◌∷◌ c rest

-- strings.Contains
unfoldable pub has_infix : String → String → Bool
unfolding has_prefix
has_infix String.[] p = p == ""
has_infix (String.◌∷◌ c s) p = has_prefix (String.◌∷◌ c s) p || has_infix s p

abbrev pub with_letter : Char → Option (String × String) → Option (String × String)
with_letter c none = none
with_letter c (some (a, b)) = some (String.◌∷◌ c a, b)

-- strings.SplitN(s, sep, 2), as the two parts if there is a separator
unfoldable pub cut : String → String → Option (String × String)
unfolding has_prefix drop_as
cut String.[] sep = none
cut (String.◌∷◌ c s) sep =
    let rest = cut s sep in
    if has_prefix (String.◌∷◌ c s) sep
    then some ("", drop_as (String.◌∷◌ c s) sep)
    else with_letter c rest

-- a letter before the first part
abbrev pub prepend : Char → List String → List String
prepend c [] = String.◌∷◌ c "" ∷ []
prepend c (p ∷ ps) = String.◌∷◌ c p ∷ ps

-- strings.Split at a separator of one letter
unfoldable pub split : ℕ → String → List String
split sep String.[] = "" ∷ []
split sep (String.◌∷◌ c s) =
    let rest = split sep s in if eqb (code c) sep then "" ∷ rest else prepend c rest

-- strings.Join
unfoldable pub join : String → List String → String
unfolding concat
join sep [] = ""
join sep (p ∷ []) = p
join sep (p ∷ q ∷ ps) = concat p (concat sep (join sep (q ∷ ps)))

-- strings.TrimLeft, the letters given as a test
unfoldable pub trim_left_of : (ℕ → Bool) → String → String
trim_left_of f String.[] = ""
trim_left_of f (String.◌∷◌ c s) =
    let rest = trim_left_of f s in if f (code c) then rest else String.◌∷◌ c s

trim_right_of : (ℕ → Bool) → String → String
trim_right_of f String.[] = ""
trim_right_of f (String.◌∷◌ c s) =
    let rest = trim_right_of f s in if rest == "" && f (code c) then "" else String.◌∷◌ c rest

-- strings.Trim, the letters given as a test
unfoldable pub trim_of : (ℕ → Bool) → String → String
unfolding trim_left_of trim_right_of
trim_of f s = trim_right_of f (trim_left_of f s)

abbrev is_digit : ℕ → Bool
is_digit c = leb b'0' c && leb c b'9'

-- the digits, read from the left onto `n`
digits_from : ℕ → String → Option ℕ
digits_from n String.[] = some n
digits_from n (String.◌∷◌ c s) =
    let rest = digits_from (n * 10 + (code c - b'0')) s in if is_digit (code c) then rest else none

natural : String → Option ℕ
unfolding digits_from
natural s = if s == "" then none else digits_from 0 s

abbrev fits_below : ℕ → Option ℕ → Option ℕ
fits_below limit none = none
fits_below limit (some n) = if leb n limit then some n else none

abbrev positive : Option ℕ → Option ℤ
positive none = none
positive (some n) = some (pos n)

abbrev negative : Option ℕ → Option ℤ
negative none = none
negative (some zero) = some (pos 0)
negative (some (suc n)) = some (negsuc n)

-- strconv.Atoi on 64 bits; `none` is its error
unfoldable pub atoi : String → Option ℤ
unfolding natural
atoi String.[] = none
atoi (String.◌∷◌ c s) =
    if eqb (code c) b'-'
    then negative (fits_below 9223372036854775808 (natural s))
    else if eqb (code c) b'+'
    then positive (fits_below 9223372036854775807 (natural s))
    else positive (fits_below 9223372036854775807 (natural (String.◌∷◌ c s)))
