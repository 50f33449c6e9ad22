-- ===== src/Base/Sets.antt =====
-- Sets of texts as lists without repetition, and the counts of their members.
use grepglint.Base.Tests.{if◌then◌else◌}
use grepglint.Base.Lists.{length}
use grepglint.Base.Dict.{contains, distinct}
use Prim.Native.Nat.{suc, ◌≤◌}
use Prim.Native.String.{String}
use mathlib.Core.Path.{◌≡◌, refl}
use mathlib.Core.Bool.{true, false}
use mathlib.Core.List.{List, [], ◌∷◌}
use native.Mathlib.Omega.{arith}
use text.Mathlib.Text.{◌==◌}
use text.Mathlib.TextEquality.{eq_iff}

unfoldable pub text_set : List String → List String
text_set [] = []
text_set (x ∷ xs) = let rest = text_set xs in if contains x rest then rest else x ∷ rest

abbrev pub IsSubset : List String → List String → Type 0
IsSubset xs ys = (k : String) → contains k xs ≡ true → contains k ys ≡ true

pub contains-text_set : (k : String) (xs : List String) → contains k (text_set xs) ≡ contains k xs
unfolding text_set
contains-text_set k [] = refl
contains-text_set k (x ∷ xs) =
    ground (arith, contains-text_set k xs, contains-text_set x xs, eq_iff x k)

pub distinct-text_set : (xs : List String) → distinct (text_set xs) ≡ true
unfolding text_set
distinct-text_set [] = refl
distinct-text_set (x ∷ xs) = ground (arith, distinct-text_set xs)

-- `xs` without its first `k`.
drop_first : String → List String → List String
drop_first k [] = []
drop_first k (x ∷ xs) = let rest = drop_first k xs in if x == k then xs else x ∷ rest

length-drop_first :
    (k : String) (xs : List String)
    → contains k xs ≡ true
    → length xs ≡ suc (length (drop_first k xs))
unfolding drop_first
length-drop_first k [] h = cc
length-drop_first k (x ∷ xs) h = ground (arith, length-drop_first k xs)

contains-drop_first :
    (k j : String) (xs : List String)
    → (k == j) ≡ false
    → contains j (drop_first k xs) ≡ contains j xs
unfolding drop_first
contains-drop_first k j [] h = refl
contains-drop_first k j (x ∷ xs) h =
    ground (arith, contains-drop_first k j xs, eq_iff x k, eq_iff x j, eq_iff k j)

-- A set within a list is no longer than the list.
pub length-le-subset :
    (xs ys : List String) → distinct xs ≡ true → IsSubset xs ys → length xs ≤ length ys
length-le-subset [] ys d s = omega arith
length-le-subset (x ∷ xs) ys d s = omega (
  arith,
  length-drop_first x ys (s x (ground (arith, eq_iff x x))),
  length-le-subset xs (drop_first x ys) (ground arith)
      λ k m. ground (arith, contains-drop_first x k ys, s k, eq_iff x k),
)
