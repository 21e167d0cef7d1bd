-- ===== src/Base/Text.antt =====
-- The text functions of Go's standard library that the program calls.
use Prim.Native.Char.{code}
use Prim.Native.String.{String, ◌++◌}
use Prim.Native.Nat.{ℕ, zero, suc, ◌/◌, ◌%◌}
use mathlib.Core.Path.{◌≡◌, refl, ap}
use mathlib.Core.Bool.{Bool, ◌&&◌, ◌||◌}
use text.Mathlib.Text.{◌==◌}
use spec_torture.Base.Tests.{if◌then◌else◌, eqb, leb, ltb}

-- `+` on strings
unfoldable pub concat : String → String → String
concat String.[] t = t
concat (String.◌∷◌ c s) t = String.◌∷◌ c (concat s t)

pub concat-nil : (s : String) → concat s "" ≡ s
unfolding concat
concat-nil String.[] = refl
concat-nil (String.◌∷◌ c s) = ap (λ t. String.◌∷◌ c t) (concat-nil s)

pub concat_assoc : (s t u : String) → concat (concat s t) u ≡ concat s (concat t u)
unfolding concat
concat_assoc String.[] t u = refl
concat_assoc (String.◌∷◌ c s) t u = ap (λ x. String.◌∷◌ c x) (concat_assoc s t u)

-- unicode.IsSpace
is_space : ℕ → Bool
is_space c =
    (leb 9 c && leb c 13)
    || eqb c 32
    || eqb c 0x85
    || eqb c 0xa0
    || eqb c 0x1680
    || (leb 0x2000 c && leb c 0x200a)
    || eqb c 0x2028
    || eqb c 0x2029
    || eqb c 0x202f
    || eqb c 0x205f
    || eqb c 0x3000

trim_left : String → String
trim_left String.[] = ""
trim_left (String.◌∷◌ c s) =
    let rest = trim_left s in if is_space (code c) then rest else String.◌∷◌ c s

-- a space is kept only before something that is kept
trim_right : String → String
trim_right String.[] = ""
trim_right (String.◌∷◌ c s) =
    let rest = trim_right s in if rest == "" && is_space (code c) then "" else String.◌∷◌ c rest

-- strings.TrimSpace
unfoldable pub trim_space : String → String
unfolding is_space trim_left trim_right
trim_space s = trim_right (trim_left s)

-- strings.TrimRight(s, "/")
unfoldable pub trim_slashes : String → String
trim_slashes String.[] = ""
trim_slashes (String.◌∷◌ c s) =
    let rest = trim_slashes s in if rest == "" && eqb (code c) b'/' then "" else String.◌∷◌ c rest

digit : ℕ → String
digit zero = "0"
digit (suc zero) = "1"
digit (suc (suc zero)) = "2"
digit (suc (suc (suc zero))) = "3"
digit (suc (suc (suc (suc zero)))) = "4"
digit (suc (suc (suc (suc (suc zero))))) = "5"
digit (suc (suc (suc (suc (suc (suc zero)))))) = "6"
digit (suc (suc (suc (suc (suc (suc (suc zero))))))) = "7"
digit (suc (suc (suc (suc (suc (suc (suc (suc zero)))))))) = "8"
digit _ = "9"

decimal_on : ℕ → ℕ → String
decimal_on zero n = ""
decimal_on (suc fuel) n =
    let front = decimal_on fuel (n / 10) in if ltb n 10 then digit n else front ++ digit (n % 10)

-- `%d`; a number has no more digits than its successor counts
unfoldable pub decimal : ℕ → String
unfolding digit decimal_on
decimal n = decimal_on (suc n) n
