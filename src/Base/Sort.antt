-- ===== src/Base/Sort.antt =====
-- `sort.Strings`: the standard library's sort, as an insertion sort in byte order.
use Prim.Native.String.{String, compare}
use mathlib.Core.Path.{◌≡◌, refl}
use mathlib.Core.List.{List, [], ◌∷◌}
use native.Mathlib.Omega.{arith}
use text.Mathlib.Text.{is_le}
use spec_torture.Base.Tests.{if◌then◌else◌}
use spec_torture.Base.Lists.{contains}

place : String → List String → List String
place x [] = x ∷ []
place x (y ∷ ys) = if is_le (compare x y) then x ∷ y ∷ ys else y ∷ place x ys

unfoldable pub sort_strings : List String → List String
unfolding place
sort_strings [] = []
sort_strings (x ∷ xs) = place x (sort_strings xs)

contains-place :
    (x : String) (ys : List String) (k : String) → contains (place x ys) k ≡ contains (x ∷ ys) k
unfolding place
contains-place x [] k = refl
contains-place x (y ∷ ys) k = ground (arith, contains-place x ys k)

-- Sorting neither drops nor adds a name.
pub contains-sort_strings :
    (xs : List String) (k : String) → contains (sort_strings xs) k ≡ contains xs k
unfolding sort_strings
contains-sort_strings [] k = refl
contains-sort_strings (x ∷ xs) k =
    ground (arith, contains-place x (sort_strings xs) k, contains-sort_strings xs k)
