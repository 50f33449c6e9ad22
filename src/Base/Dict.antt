-- ===== src/Base/Dict.antt =====
-- A Python dict with texts for keys, in the order of insertion: an assignment to a key that is
-- there keeps its place.
use Prim.Native.Nat.{suc}
use Prim.Native.String.{String}
use mathlib.Core.Path.{◌≡◌, refl}
use mathlib.Core.Bool.{Bool, true, false, ◌||◌}
use mathlib.Core.Option.{Option, none, some}
use mathlib.Core.List.{List, [], ◌∷◌, map}
use native.Mathlib.Omega.{arith}
use text.Mathlib.Text.{◌==◌}
use text.Mathlib.TextEquality.{eq_iff}
use grepglint.Base.Tests.{if◌then◌else◌}
use grepglint.Base.Lists.{length}

abbrev pub Dict {κ} : Type κ → Type κ
Dict W = List (String × W)

-- `name in names`
abbrev pub contains : String → List String → Bool
contains name [] = false
contains name (x ∷ xs) = (x == name) || contains name xs

-- `len(set(names)) == len(names)`
abbrev pub distinct : List String → Bool
distinct [] = true
distinct (x ∷ xs) = if contains x xs then false else distinct xs

module _ {κ} {W : Type κ} where
  -- `k in d`
  unfoldable pub has : String → Dict W → Bool
  has k [] = false
  has k ((key, w) ∷ d) = (key == k) || has k d

  -- `d.get(k)`
  unfoldable pub lookup : String → Dict W → Option W
  lookup k [] = none
  lookup k ((key, w) ∷ d) = if key == k then some w else lookup k d

  abbrev pub keys : Dict W → List String
  keys d = map (λ entry. entry.0) d

  -- `d[k] = w`
  unfoldable pub insert : String → W → Dict W → Dict W
  insert k w [] = (k, w) ∷ []
  insert k w ((key, old) ∷ d) = if key == k then (key, w) ∷ d else (key, old) ∷ insert k w d

  pub lookup-insert :
      (k other : String) (w : W) (d : Dict W)
      → lookup other (insert k w d) ≡ (if k == other then some w else lookup other d)
  unfolding lookup insert
  lookup-insert k other w [] = refl
  lookup-insert k other w ((key, old) ∷ d) =
      ground (arith, eq_iff k other, eq_iff key k, eq_iff key other, lookup-insert k other w d)

  pub has-eq-lookup : (k : String) (d : Dict W) → lookup k d ≡ none → has k d ≡ false
  unfolding lookup has
  has-eq-lookup k [] h = refl
  has-eq-lookup k ((key, w) ∷ d) h = ground (arith, has-eq-lookup k d)

  pub has_of_lookup : (k : String) (d : Dict W) (w : W) → lookup k d ≡ some w → has k d ≡ true
  unfolding lookup has
  has_of_lookup k [] w h = cc
  has_of_lookup k ((key, old) ∷ d) w h = ground (arith, has_of_lookup k d w)

  -- An assignment to a new key adds one entry; to an old key, none.
  pub length-insert :
      (k : String) (w : W) (d : Dict W)
      → length (insert k w d) ≡ (if has k d then length d else suc (length d))
  unfolding insert has
  length-insert k w [] = refl
  length-insert k w ((key, old) ∷ d) = ground (arith, length-insert k w d)
