-- ===== src/Score/Ranges.antt =====
-- `merge` of benchmarks/_score_metrics.py, on the inclusive line ranges of one file.
pub mod Merged
pub mod Counting
use grepglint.Base.{
  ℕ, zero, suc, ◌+◌, ◌-◌, ◌≤◌, min, max, Bool, false, true, ◌&&◌, ◌||◌, List, [], ◌∷◌, compare,
  Ordering, ltb, leb, eqb, if◌then◌else◌, any, sum_by,
}

-- A pair of a first line and a last line.
abbrev pub Range : Type 0
Range = ℕ × ℕ

-- The order of pairs of integers in Python.
abbrev pub before : Range → Range → Bool
before (s, e) (s', e') = ltb s s' || (eqb s s' && ltb e e')

abbrev pub same : Range → Range → Bool
same (s, e) (s', e') = eqb s s' && eqb e e'

insert : Range → List Range → List Range
insert x [] = x ∷ []
insert x (y ∷ ys) = if before x y then x ∷ y ∷ ys else if same x y then y ∷ ys else y ∷ insert x ys

-- `sorted(set(ranges))`
pub sorted_set : List Range → List Range
unfolding insert
sorted_set [] = []
sorted_set (x ∷ xs) = insert x (sorted_set xs)

-- The `for` loop, with `result[-1]` as its first argument.
pub absorb : Range → List Range → List Range
absorb last [] = last ∷ []
absorb (first, last) ((start, end) ∷ rest) = elim (leb start (last + 1)) [
  | true ↦ absorb (first, max last end) rest
  | false ↦ (first, last) ∷ absorb (start, end) rest
]

pub merge_sorted : List Range → List Range
unfolding absorb
merge_sorted [] = []
merge_sorted (x ∷ xs) = absorb x xs

unfoldable pub merge : List Range → List Range
unfolding sorted_set merge_sorted
merge ranges = merge_sorted (sorted_set ranges)

-- Whether a range of the list holds the line.
abbrev pub covers : ℕ → List Range → Bool
covers n rs = any (λ r. leb r.0 n && leb n r.1) rs

-- `sum(end - start + 1 for start, end in rs)`; a range with its end before its start does not
-- come out of `merge` where none went in.
abbrev pub lines : List Range → ℕ
lines rs = sum_by (λ r. r.1 + 1 - r.0) rs

-- `max(0, min(end, a['end']) - max(start, a['start']) + 1)` summed over the ranges.
abbrev pub overlap : Range → List Range → ℕ
overlap (first, last) rs = sum_by (λ r. min r.1 last + 1 - max r.0 first) rs
