-- ===== src/Base/Texts.antt =====
-- Texts as the code points that Python counts, and Python's operations on them.
use Prim.Native.Nat.{ℕ}
use Prim.Native.Char.{code}
use Prim.Native.String.{String}
use mathlib.Core.Path.{◌≡◌, refl}
use mathlib.Core.Bool.{Bool, true, false, ◌&&◌, ◌||◌}
use mathlib.Core.List.{List, [], ◌∷◌, ◌++◌}
use native.Mathlib.Omega.{arith}
use grepglint.Base.Tests.{eqb, leb, if◌then◌else◌}
use grepglint.Base.Lists.{any, all}

abbrev pub Text : Type 0
Text = List ℕ

abbrev pub points : String → Text
points String.[] = []
points (String.◌∷◌ c s) = code c ∷ points s

-- `s == t`
unfoldable pub same_text : Text → Text → Bool
same_text [] [] = true
same_text (x ∷ xs) (y ∷ ys) = eqb x y && same_text xs ys
same_text _ _ = false

-- `s.startswith(prefix)`
unfoldable pub starts_with : Text → Text → Bool
starts_with [] s = true
starts_with (x ∷ xs) [] = false
starts_with (x ∷ xs) (y ∷ ys) = eqb x y && starts_with xs ys

-- `s.endswith(suffix)`
unfoldable pub ends_with : Text → Text → Bool
unfolding same_text
ends_with suffix [] = same_text suffix []
ends_with suffix (x ∷ xs) = same_text suffix (x ∷ xs) || ends_with suffix xs

-- `s in texts`
abbrev pub one_of : Text → List Text → Bool
one_of s texts = any (λ t. same_text s t) texts

-- Python's white space.
abbrev pub is_space : ℕ → Bool
is_space c =
    (leb 9 c && leb c 13)
    || (leb 28 c && leb c 32)
    || eqb c 133
    || eqb c 160
    || eqb c 5760
    || (leb 8192 c && leb c 8202)
    || eqb c 8232
    || eqb c 8233
    || eqb c 8239
    || eqb c 8287
    || eqb c 12288

strip_left : Text → Text
strip_left [] = []
strip_left (c ∷ s) = let rest = strip_left s in if is_space c then rest else c ∷ s

strip_right : Text → Text
strip_right [] = []
strip_right (c ∷ s) = go c (strip_right s)
  where
    go : ℕ → Text → Text
    go c [] = if is_space c then [] else c ∷ []
    go c (d ∷ t) = c ∷ d ∷ t

-- `s.strip()`
unfoldable pub strip : Text → Text
unfolding strip_left strip_right
strip s = strip_right (strip_left s)

cons_first : ℕ → List Text → List Text
cons_first c [] = (c ∷ []) ∷ []
cons_first c (part ∷ parts) = (c ∷ part) ∷ parts

-- `s.split(separator)`
unfoldable pub split_on : ℕ → Text → List Text
unfolding cons_first
split_on separator [] = [] ∷ []
split_on separator (c ∷ s) =
    let rest = split_on separator s in if eqb c separator then [] ∷ rest else cons_first c rest

-- `[0-9]` and `[0-9a-f]`
abbrev pub is_digit : ℕ → Bool
is_digit c = leb 48 c && leb c 57

abbrev pub is_hex : ℕ → Bool
is_hex c = is_digit c || (leb 97 c && leb c 102)

pub same_text_refl : (s : Text) → same_text s s ≡ true
unfolding same_text
same_text_refl [] = refl
same_text_refl (x ∷ xs) = ground (arith, same_text_refl xs)

pub eq_of_same_text : (s t : Text) → same_text s t ≡ true → s ≡ t
unfolding same_text
eq_of_same_text [] [] h = refl
eq_of_same_text [] (y ∷ ys) h = cc
eq_of_same_text (x ∷ xs) [] h = cc
eq_of_same_text (x ∷ xs) (y ∷ ys) h =
    let tail : xs ≡ ys = eq_of_same_text xs ys (ground arith) in ground arith

-- A common beginning makes no difference.
pub same_text-append : (s t u : Text) → same_text (s ++ t) (s ++ u) ≡ same_text t u
unfolding same_text
same_text-append [] t u = refl
same_text-append (x ∷ s) t u = ground (arith, same_text-append s t u)

module _ (p : ℕ → Bool) where
  cons_first-all :
      (c : ℕ) (parts : List Text)
      → all (all p) (cons_first c parts) ≡ true
      → (p c ≡ true) × (all (all p) parts ≡ true)
  unfolding cons_first
  cons_first-all c [] h = ground arith
  cons_first-all c (part ∷ parts) h = ground arith

  -- What holds of each character of the parts holds of the whole, separators apart.
  pub all-split_on :
      (separator : ℕ) (s : Text)
      → all (all p) (split_on separator s) ≡ true
      → all (λ c. p c || eqb c separator) s ≡ true
  unfolding split_on
  all-split_on separator [] h = refl
  all-split_on separator (c ∷ s) h =
      go (eqb c separator) (split_on separator s) (all-split_on separator s) h
    where
      go :
          (b : Bool) (parts : List Text)
          → (all (all p) parts ≡ true → all (λ d. p d || eqb d separator) s ≡ true)
          → all (all p) (if b then [] ∷ parts else cons_first c parts) ≡ true
          → ((p c || b) && all (λ d. p d || eqb d separator) s) ≡ true
      go true parts later h = let rest = later h in ground arith
      go false parts later h =
          let (first, rest) = cons_first-all c parts h in let last = later rest in ground arith
