-- ===== src/Score/Ranges/Merged.antt =====
-- Lemmas about `merge` of benchmarks/_score_metrics.py, and the theorems on its result.
use grepglint.Base.{
  ℕ, ◌+◌, ◌≤◌, ◌<◌, max, ◌≡◌, refl, ◌∙◌, inl, inr, List, [], ◌∷◌, arith, leb, Bool-cases, All,
}
use grepglint.Score.Ranges.{Range, sorted_set, absorb, merge_sorted, merge, covers, insert}

abbrev IsSorted : ℕ → List Range → Type 0
IsSorted lo [] = Unit
IsSorted lo ((s, e) ∷ rs) = (lo ≤ s) × IsSorted s rs

insert-IsSorted :
    (lo : ℕ) (x : Range) (rs : List Range) → lo ≤ x.0 → IsSorted lo rs → IsSorted lo (insert x rs)
unfolding insert
insert-IsSorted lo x [] h s = (h, tt)
insert-IsSorted lo (a, b) ((c, d) ∷ rs) h s = ground (arith, insert-IsSorted c (a, b) rs)

sorted_set-IsSorted : (rs : List Range) → IsSorted 0 (sorted_set rs)
unfolding sorted_set
sorted_set-IsSorted [] = tt
sorted_set-IsSorted (x ∷ rs) =
    insert-IsSorted 0 x (sorted_set rs) (omega arith) (sorted_set-IsSorted rs)

covers-insert : (n : ℕ) (x : Range) (rs : List Range) → covers n (insert x rs) ≡ covers n (x ∷ rs)
unfolding insert
covers-insert n x [] = refl
covers-insert n (a, b) ((c, d) ∷ rs) = ground (arith, covers-insert n (a, b) rs)

covers-sorted_set : (n : ℕ) (rs : List Range) → covers n (sorted_set rs) ≡ covers n rs
unfolding sorted_set
covers-sorted_set n [] = refl
covers-sorted_set n (x ∷ rs) =
    ground (arith, covers-insert n x (sorted_set rs), covers-sorted_set n rs)

covers-absorb :
    (n : ℕ) (x : Range) (rs : List Range)
    → IsSorted x.0 rs
    → covers n (absorb x rs) ≡ covers n (x ∷ rs)
unfolding absorb
covers-absorb n x [] s = refl
covers-absorb n (a, b) ((c, d) ∷ rs) s =
    ground (arith, covers-absorb n (a, max b d) rs, covers-absorb n (c, d) rs)

-- The ranges follow one another from the line `lo` on, each with a line that is free before it.
abbrev pub IsApart : ℕ → List Range → Type 0
IsApart lo [] = Unit
IsApart lo ((s, e) ∷ rs) = (lo ≤ s) × (s ≤ e) × IsApart (e + 2) rs

abbrev pub IsForward : Range → Type 0
IsForward (s, e) = s ≤ e

insert-All :
    (P : Range → Type 0) (x : Range) (rs : List Range) → P x → All P rs → All P (insert x rs)
unfolding insert
insert-All P x [] h s = (h, tt)
insert-All P (a, b) ((c, d) ∷ rs) h s = ground (arith, insert-All P (a, b) rs)

sorted_set-All : (P : Range → Type 0) (rs : List Range) → All P rs → All P (sorted_set rs)
unfolding sorted_set
sorted_set-All P [] h = tt
sorted_set-All P (x ∷ rs) h = insert-All P x (sorted_set rs) h.0 (sorted_set-All P rs h.1)

IsSorted-weaken : (lo hi : ℕ) (rs : List Range) → lo ≤ hi → IsSorted hi rs → IsSorted lo rs
IsSorted-weaken lo hi [] h s = tt
IsSorted-weaken lo hi (x ∷ rs) h s = (omega arith, s.1)

absorb-IsApart :
    (lo : ℕ) (x : Range) (rs : List Range)
    → lo ≤ x.0
    → IsForward x
    → IsSorted x.0 rs
    → All IsForward rs
    → IsApart lo (absorb x rs)
unfolding absorb
absorb-IsApart lo x [] h v s a = (h, v, tt)
absorb-IsApart lo (f, l) ((c, d) ∷ rs) h v s a = elim (Bool-cases (leb c (l + 1))) [
  | inl e ↦
      rw (IsApart, absorb, e)
        (absorb-IsApart lo (f, max l d) rs h (omega arith) (IsSorted-weaken f c rs s.0 s.1) a.1)
  | inr e ↦
      rw (IsApart, absorb, e) (h, v, absorb-IsApart (l + 2) (c, d) rs (ground arith) a.0 s.1 a.1)
]

-- For ranges with their ends in order, `merge` returns ranges that ascend, of which no two overlap
-- or touch.
pub merge-IsApart : (rs : List Range) → All IsForward rs → IsApart 0 (merge rs)
unfolding merge merge_sorted
merge-IsApart rs v = go (sorted_set rs) (sorted_set-IsSorted rs) (sorted_set-All IsForward rs v)
  where
    go : (l : List Range) → IsSorted 0 l → All IsForward l → IsApart 0 (merge_sorted l)
    go [] s a = tt
    go (x ∷ l) s a = absorb-IsApart 0 x l s.0 a.0 s.1 a.1

absorb-below :
    (bound : ℕ) (x : Range) (rs : List Range)
    → x.1 < bound
    → All (λ r. r.1 < bound) rs
    → All (λ r. r.1 < bound) (absorb x rs)
unfolding absorb
absorb-below bound x [] h a = (h, tt)
absorb-below bound (f, l) ((c, d) ∷ rs) h a = ground (
  arith,
  absorb-below bound (f, max l d) rs (omega arith) a.1,
  absorb-below bound (c, d) rs a.0 a.1,
)

pub merge-below :
    (bound : ℕ) (rs : List Range) → All (λ r. r.1 < bound) rs → All (λ r. r.1 < bound) (merge rs)
unfolding merge merge_sorted
merge-below bound rs h = go (sorted_set rs) (sorted_set-All (λ r. r.1 < bound) rs h)
  where
    go : (l : List Range) → All (λ r. r.1 < bound) l → All (λ r. r.1 < bound) (merge_sorted l)
    go [] a = tt
    go (x ∷ l) a = absorb-below bound x l a.0 a.1

-- A line is in the merged ranges exactly when it is in one of the given ranges.
pub covers-merge : (n : ℕ) (rs : List Range) → covers n (merge rs) ≡ covers n rs
unfolding merge merge_sorted
covers-merge n rs = go (sorted_set rs) (sorted_set-IsSorted rs) ∙ covers-sorted_set n rs
  where
    go : (l : List Range) → IsSorted 0 l → covers n (merge_sorted l) ≡ covers n l
    go [] s = refl
    go (x ∷ l) s = covers-absorb n x l s.1
