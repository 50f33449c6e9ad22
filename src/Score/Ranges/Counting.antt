-- ===== src/Score/Ranges/Counting.antt =====
-- Lemmas about the two sums over merged ranges in benchmarks/_score_metrics.py, and the theorems.
use grepglint.Base.{
  ℕ, zero, suc, ◌+◌, ◌-◌, ◌≤◌, ◌<◌, min, max, ◌≡◌, refl, sym, ◌∙◌, Bool, false, ◌&&◌, ◌||◌, List,
  [], ◌∷◌, arith, leb, if◌then◌else◌, All,
}
use grepglint.Score.Ranges.{Range, merge, covers, lines, overlap}
use grepglint.Score.Ranges.Merged.{IsApart, IsForward, merge-IsApart, merge-below, covers-merge}

abbrev pub count_lines : ℕ → (ℕ → Bool) → ℕ
count_lines zero p = 0
count_lines (suc n) p = (if p n then 1 else 0) + count_lines n p

abbrev pub within : Range → ℕ → Bool
within (s, e) n = leb s n && leb n e

count_lines-eq :
    (bound : ℕ) (p q : ℕ → Bool) → ((n : ℕ) → p n ≡ q n) → count_lines bound p ≡ count_lines bound q
count_lines-eq zero p q h = refl
count_lines-eq (suc n) p q h = ground (arith, h n, count_lines-eq n p q h)

count_lines-or :
    (bound : ℕ) (p q : ℕ → Bool)
    → ((n : ℕ) → (p n && q n) ≡ false)
    → count_lines bound (λ n. p n || q n) ≡ count_lines bound p + count_lines bound q
count_lines-or zero p q h = refl
count_lines-or (suc n) p q h = ground (arith, h n, count_lines-or n p q h)

count_lines-none : (bound : ℕ) (p : ℕ → Bool) → ((n : ℕ) → p n ≡ false) → count_lines bound p ≡ 0
count_lines-none zero p h = refl
count_lines-none (suc n) p h = ground (arith, h n, count_lines-none n p h)

count_lines-within :
    (bound : ℕ) (r : Range) → count_lines bound (within r) ≡ min (r.1 + 1) bound - r.0
count_lines-within zero r = omega arith
count_lines-within (suc n) r = ground (arith, count_lines-within n r)

count_lines-le :
    (bound : ℕ) (p q : ℕ → Bool) → count_lines bound (λ n. p n && q n) ≤ count_lines bound p
count_lines-le zero p q = omega arith
count_lines-le (suc n) p q = ground (arith, count_lines-le n p q)

not-covers-below : (lo n : ℕ) (rs : List Range) → IsApart lo rs → n < lo → covers n rs ≡ false
not-covers-below lo n [] a h = refl
not-covers-below lo n ((s, e) ∷ rs) a h = ground (arith, not-covers-below (e + 2) n rs)

-- One range of the sum: the lines of `a` in `(s, e)`.
count_lines-both :
    (bound : ℕ) (a r : Range)
    → a.1 < bound
    → count_lines bound (λ n. within a n && within r n) ≡ min r.1 a.1 + 1 - max r.0 a.0
count_lines-both bound a r h =
    count_lines-eq bound (λ n. within a n && within r n) (within (max r.0 a.0, min r.1 a.1))
      (λ n. ground arith)
    ∙ count_lines-within bound (max r.0 a.0, min r.1 a.1)
    ∙ omega arith

overlap_apart :
    (bound lo : ℕ) (a : Range) (rs : List Range)
    → a.1 < bound
    → IsApart lo rs
    → overlap a rs ≡ count_lines bound (λ n. within a n && covers n rs)
overlap_apart bound lo a [] h p = sym (count_lines-none bound _ (λ n. ground arith))
overlap_apart bound lo a ((s, e) ∷ rs) h p = omega (
  arith,
  count_lines-both bound a (s, e) h,
  overlap_apart bound (e + 2) a rs h p.2,
  count_lines-eq bound (λ n. within a n && covers n ((s, e) ∷ rs))
      (λ n. (within a n && within (s, e) n) || (within a n && covers n rs)) (λ n. ground arith),
  count_lines-or bound (λ n. within a n && within (s, e) n) (λ n. within a n && covers n rs)
      (λ n. ground (arith, not-covers-below (e + 2) n rs p.2)),
)

-- For ranges with their ends in order, the overlap of the merged ranges with a region is the
-- number of the region's lines that are in one of the given ranges.
pub overlap-merge :
    (bound : ℕ) (a : Range) (rs : List Range)
    → a.1 < bound
    → All IsForward rs
    → overlap a (merge rs) ≡ count_lines bound (λ n. within a n && covers n rs)
overlap-merge bound a rs h v =
    overlap_apart bound 0 a (merge rs) h (merge-IsApart rs v)
    ∙ count_lines-eq bound (λ n. within a n && covers n (merge rs)) (λ n. within a n && covers n rs)
        (λ n. ground (arith, covers-merge n rs))

-- So the overlap is at most the length of the region.
pub overlap-merge-le :
    (a : Range) (rs : List Range) → All IsForward rs → overlap a (merge rs) ≤ a.1 + 1 - a.0
overlap-merge-le a rs v = omega (
  arith,
  overlap-merge (a.1 + 1) a rs (omega arith) v,
  count_lines-le (a.1 + 1) (within a) (λ n. covers n rs),
  count_lines-within (a.1 + 1) a,
)

lines_apart :
    (bound lo : ℕ) (rs : List Range)
    → All (λ r. r.1 < bound) rs
    → IsApart lo rs
    → lines rs ≡ count_lines bound (λ n. covers n rs)
lines_apart bound lo [] h p = sym (count_lines-none bound _ (λ n. refl))
lines_apart bound lo ((s, e) ∷ rs) h p = omega (
  arith,
  count_lines-within bound (s, e),
  lines_apart bound (e + 2) rs h.1 p.2,
  count_lines-or bound (within (s, e)) (λ n. covers n rs)
      (λ n. ground (arith, not-covers-below (e + 2) n rs p.2)),
)

-- For ranges with their ends in order and below a bound, the lines that are counted in the merged
-- ranges are the lines of the given ranges, each once.
pub lines-merge :
    (bound : ℕ) (rs : List Range)
    → All IsForward rs
    → All (λ r. r.1 < bound) rs
    → lines (merge rs) ≡ count_lines bound (λ n. covers n rs)
lines-merge bound rs v h =
    lines_apart bound 0 (merge rs) (merge-below bound rs h) (merge-IsApart rs v)
    ∙ count_lines-eq bound (λ n. covers n (merge rs)) (λ n. covers n rs) (λ n. covers-merge n rs)
