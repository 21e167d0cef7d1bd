-- ===== src/Client/Driver/Nested.antt =====
-- What internal/clientrunner/crush_driver.go finds in an output with an object in it.
use Prim.Native.Char.{Char, code}
use spec_torture.Base.{ℕ, suc, ◌+◌, ◌≡◌, refl, String, true, false, Option, some, ap, ◌∙◌, eqb}
use spec_torture.Base.Int.{pos}
use spec_torture.Base.Dict.{Dict}
use spec_torture.Base.Text.{concat, concat_assoc}
use spec_torture.Value.{Value}
use spec_torture.Client.Driver.{extract_json, scan_braces}

-- a text without an opening brace
abbrev pub HasNoBrace : String → Type 0
HasNoBrace String.[] = Unit
HasNoBrace (String.◌∷◌ c s) = (eqb (code c) b'{' ≡ false) × HasNoBrace s

-- The text closes `n` open braces, and the last of them with its last letter. Each brace counts, also
-- one inside a JSON string, as in the source.
pub data Closes : ℕ → String → Type 0 where
  closing_last :
      {c : Char} → eqb (code c) b'{' ≡ false → eqb (code c) b'}' ≡ true → Closes 1 (String.◌∷◌ c "")
  closing :
      {c : Char} {n : ℕ} {s : String}
      → eqb (code c) b'{' ≡ false
      → eqb (code c) b'}' ≡ true
      → Closes (suc n) s
      → Closes (suc (suc n)) (String.◌∷◌ c s)
  opening :
      {c : Char} {n : ℕ} {s : String}
      → eqb (code c) b'{' ≡ true
      → Closes (n + 1) s
      → Closes n (String.◌∷◌ c s)
  letter :
      {c : Char} {n : ℕ} {s : String}
      → eqb (code c) b'{' ≡ false
      → eqb (code c) b'}' ≡ false
      → Closes n s
      → Closes n (String.◌∷◌ c s)

module _ (parse : String → Option (Option (Dict Value))) where
  scan_braces-Closes :
      {n : ℕ} {s : String} (seen rest : String) (o : Option (Dict Value))
      → Closes n s
      → parse (concat seen s) ≡ some o
      → scan_braces parse seen (pos n) (concat s rest) ≡ o
  unfolding scan_braces concat
  scan_braces-Closes seen rest o (closing_last a b) p = rw (a, b, p) refl
  scan_braces-Closes seen rest o (closing {c} {n} {s} a b k) p =
      rw (a, b)
        (scan_braces-Closes (concat seen (String.◌∷◌ c "")) rest o k
          (ap parse (concat_assoc seen (String.◌∷◌ c "") s) ∙ p))
  scan_braces-Closes seen rest o (opening {c} {n} {s} a k) p = rw a (
      scan_braces-Closes (concat seen (String.◌∷◌ c "")) rest o k
        (ap parse (concat_assoc seen (String.◌∷◌ c "") s) ∙ p))
  scan_braces-Closes seen rest o (letter {c} {n} {s} a b k) p =
      rw (a, b)
        (scan_braces-Closes (concat seen (String.◌∷◌ c "")) rest o k
          (ap parse (concat_assoc seen (String.◌∷◌ c "") s) ∙ p))

  -- In an output that is some text without an opening brace, then a text from an opening brace to the
  -- brace that closes it, then anything, what the middle text decodes to is found, if it decodes. All
  -- braces are counted here, those inside JSON strings too: of an object whose strings hold braces that do
  -- not match, nothing is said.
  pub extract_json-Closes :
      (noise : String) (c : Char) (body rest : String) (o : Option (Dict Value))
      → HasNoBrace noise
      → eqb (code c) b'{' ≡ true
      → Closes 1 body
      → parse (String.◌∷◌ c body) ≡ some o
      → extract_json parse (concat noise (concat (String.◌∷◌ c body) rest)) ≡ o
  unfolding extract_json scan_braces concat
  extract_json-Closes String.[] c body rest o h e k p =
      rw e (scan_braces-Closes (String.◌∷◌ c "") rest o k p)
  extract_json-Closes (String.◌∷◌ d noise) c body rest o (g, h) e k p =
      rw g (extract_json-Closes noise c body rest o h e k p)
