-- ===== src/Client/Paths.antt =====
-- Paths of internal/clientrunner/runner.go.
use Prim.Native.Char.{code}
use spec_torture.Base.{◌≡◌, refl, String, false, List, [], ◌∷◌, All, ap, sym, ◌∙◌, eqb}
use spec_torture.Base.Text.{concat, concat-nil, concat_assoc}
use spec_torture.Base.Strings.{join}
use spec_torture.Client.{split_from, split_path}

abbrev HasNoDot : String → Type 0
HasNoDot String.[] = Unit
HasNoDot (String.◌∷◌ c s) = (eqb (code c) b'.' ≡ false) × HasNoDot s

-- a part of a path: not empty, and without a dot
abbrev pub IsPart : String → Type 0
IsPart String.[] = Unit → ⊥
IsPart (String.◌∷◌ c s) = HasNoDot (String.◌∷◌ c s)

split_from-part :
    (current p rest : String)
    → HasNoDot p
    → split_from current (concat p rest) ≡ split_from (concat current p) rest
unfolding split_from concat
split_from-part current String.[] rest h = ap (λ x. split_from x rest) (sym (concat-nil current))
split_from-part current (String.◌∷◌ c p) rest (e, h) = rw e (
    split_from-part (concat current (String.◌∷◌ c "")) p rest h
    ∙ ap (λ x. split_from x rest) (concat_assoc current (String.◌∷◌ c "") p))

-- Parts that are joined by dots are what the path is split into, in order: none is lost, merged or
-- split further, as long as each has a letter and no dot.
pub split_path-join : (ps : List String) → All IsPart ps → split_path (join "." ps) ≡ ps
unfolding split_path split_from join concat
split_path-join [] h = refl
split_path-join (String.[] ∷ ps) (h, hs) = absurd (h tt)
split_path-join (String.◌∷◌ c p ∷ []) (h, hs) =
    ap (split_from "") (sym (concat-nil (String.◌∷◌ c p)))
    ∙ split_from-part "" (String.◌∷◌ c p) "" h
split_path-join (String.◌∷◌ c p ∷ q ∷ ps) (h, hs) =
    split_from-part "" (String.◌∷◌ c p) (concat "." (join "." (q ∷ ps))) h
    ∙ ap (λ x. String.◌∷◌ c p ∷ x) (split_path-join (q ∷ ps) hs)
