-- ===== src/Corpus/Partition/Choice.antt =====
-- Lemmas about the loop of `partition` in benchmarks/validate.py that chooses clusters.
use grepglint.Base.{
  ℕ, ◌+◌, ◌≤◌, String, ◌≡◌, refl, subst, inl, inr, true, not, ◌&&◌, ◌||◌, some, List, [], ◌∷◌, ◌++◌,
  append_assoc, append-nil, arith, leb, eqb, Bool-cases, sum_by, All, All-append,
}
use grepglint.Corpus.Partition.{
  Possibilities, reaches, chosen_for, extend_one, extend, possibilities, choose,
}

pub data Sub : List String → List String → Type 0 where
  empty : Sub [] []
  skip : {c : String} {xs ys : List String} → Sub xs ys → Sub xs (c ∷ ys)
  pick : {c : String} {xs ys : List String} → Sub xs ys → Sub (c ∷ xs) (c ∷ ys)

Sub-append : {xs ys : List String} (c : String) → Sub xs ys → Sub xs (ys ++ c ∷ [])
Sub-append c empty = skip empty
Sub-append c (skip s) = skip (Sub-append c s)
Sub-append c (pick s) = pick (Sub-append c s)

Sub-append_both : {xs ys : List String} (c : String) → Sub xs ys → Sub (xs ++ c ∷ []) (ys ++ c ∷ [])
Sub-append_both c empty = pick empty
Sub-append_both c (skip s) = skip (Sub-append_both c s)
Sub-append_both c (pick s) = pick (Sub-append_both c s)

sum_by-append :
    (size : String → ℕ) (xs ys : List String)
    → sum_by size (xs ++ ys) ≡ sum_by size xs + sum_by size ys
sum_by-append size [] ys = omega arith
sum_by-append size (x ∷ xs) ys = omega (arith, sum_by-append size xs ys)

module _ (count : ℕ) (size : String → ℕ) where
  -- A total within the count, of clusters that have been looked at.
  record IsFound (looked : List String) (p : ℕ × List String) : Type 0 where
    total : p.0 ≡ sum_by size p.1
    within : p.0 ≤ count
    some_of : Sub p.1 looked

  IsFound-append :
      (c : String) (looked : List String) (p : ℕ × List String)
      → IsFound looked p
      → IsFound (looked ++ c ∷ []) p
  IsFound-append c looked p f = record {
    total = f.total;
    within = f.within;
    some_of = Sub-append c f.some_of;
  }

  All-IsFound-append :
      (c : String) (looked : List String) (found : Possibilities)
      → All (IsFound looked) found
      → All (IsFound (looked ++ c ∷ [])) found
  All-IsFound-append c looked [] h = tt
  All-IsFound-append c looked (p ∷ found) h =
      (IsFound-append c looked p h.0, All-IsFound-append c looked found h.1)

  extend_one-IsFound :
      (c : String) (looked : List String) (found : Possibilities) (p : ℕ × List String)
      → IsFound looked p
      → All (IsFound (looked ++ c ∷ [])) found
      → All (IsFound (looked ++ c ∷ [])) (extend_one count (size c) c found p)
  unfolding extend_one
  extend_one-IsFound c looked found (n, chosen) f h =
      elim (Bool-cases (leb (n + size c) count && not (reaches (n + size c) found))) [
        | inr e ↦ rw e h
        | inl e ↦ rw e (
            All-append (IsFound (looked ++ c ∷ [])) found ((n + size c, chosen ++ c ∷ []) ∷ []) h (
              record {
                total = omega (arith, f.total, sum_by-append size chosen (c ∷ []));
                within = ground arith;
                some_of = Sub-append_both c f.some_of;
              },
              tt,
            ))
      ]

  extend-IsFound :
      (c : String) (looked : List String) (found ps : Possibilities)
      → All (IsFound looked) ps
      → All (IsFound (looked ++ c ∷ [])) found
      → All (IsFound (looked ++ c ∷ [])) (extend count (size c) c found ps)
  unfolding extend
  extend-IsFound c looked found [] g h = h
  extend-IsFound c looked found (p ∷ ps) g h =
      extend-IsFound c looked (extend_one count (size c) c found p) ps g.1
        (extend_one-IsFound c looked found p g.0 h)

  possibilities-IsFound :
      (looked cs : List String) (found : Possibilities)
      → All (IsFound looked) found
      → All (IsFound (looked ++ cs)) (possibilities count size found cs)
  unfolding possibilities
  possibilities-IsFound looked [] found h = rw (append-nil looked) h
  possibilities-IsFound looked (c ∷ cs) found h =
      subst
        (λ l. All (IsFound l) (possibilities count size (extend count (size c) c found found) cs))
        (append_assoc looked (c ∷ []) cs)
        (possibilities-IsFound (looked ++ c ∷ []) cs (extend count (size c) c found found)
          (extend-IsFound c looked found found h (All-IsFound-append c looked found h)))

  chosen_for-IsFound :
      (looked : List String) (total : ℕ) (found : Possibilities) (chosen : List String)
      → All (IsFound looked) found
      → chosen_for total found ≡ some chosen
      → (sum_by size chosen ≡ total) × Sub chosen looked
  unfolding chosen_for
  chosen_for-IsFound looked total [] chosen h e = cc
  chosen_for-IsFound looked total ((n, c) ∷ found) chosen h e = elim (Bool-cases (eqb n total)) [
    | inl t ↦
        (let same : c ≡ chosen = ground arith in
          (ground (arith, h.0.total), subst (λ x. Sub x looked) same h.0.some_of))
    | inr t ↦ chosen_for-IsFound looked total found chosen h.1 (ground arith)
  ]

  -- The clusters that are chosen are some of the clusters, and their sizes add up to the count.
  pub choose-Sub :
      (ordered chosen : List String)
      → choose count size ordered ≡ some chosen
      → (sum_by size chosen ≡ count) × Sub chosen ordered
  unfolding choose
  choose-Sub ordered chosen e =
      chosen_for-IsFound ordered count (possibilities count size ((0, []) ∷ []) ordered) chosen
        (possibilities-IsFound [] ordered ((0, []) ∷ [])
          (record { total = refl; within = omega arith; some_of = empty }, tt))
        e

  reaches-append :
      (n : ℕ) (xs ys : Possibilities) → reaches n (xs ++ ys) ≡ reaches n xs || reaches n ys
  reaches-append n [] ys = refl
  reaches-append n (x ∷ xs) ys = ground (arith, reaches-append n xs ys)

  extend_one-keeps :
      (n : ℕ) (c : String) (found : Possibilities) (p : ℕ × List String)
      → reaches n found ≡ true
      → reaches n (extend_one count (size c) c found p) ≡ true
  unfolding extend_one
  extend_one-keeps n c found (m, chosen) h =
      ground (arith, reaches-append n found ((m + size c, chosen ++ c ∷ []) ∷ []))

  extend_one-adds :
      (c : String) (found : Possibilities) (p : ℕ × List String)
      → p.0 + size c ≤ count
      → reaches (p.0 + size c) (extend_one count (size c) c found p) ≡ true
  unfolding extend_one
  extend_one-adds c found (m, chosen) h =
      ground (arith, reaches-append (m + size c) found ((m + size c, chosen ++ c ∷ []) ∷ []))

  extend-keeps :
      (n : ℕ) (c : String) (found ps : Possibilities)
      → reaches n found ≡ true
      → reaches n (extend count (size c) c found ps) ≡ true
  unfolding extend
  extend-keeps n c found [] h = h
  extend-keeps n c found (p ∷ ps) h =
      extend-keeps n c (extend_one count (size c) c found p) ps (extend_one-keeps n c found p h)

  extend-adds :
      (n : ℕ) (c : String) (found ps : Possibilities)
      → reaches n ps ≡ true
      → n + size c ≤ count
      → reaches (n + size c) (extend count (size c) c found ps) ≡ true
  unfolding extend
  extend-adds n c found [] h fits = cc
  extend-adds n c found (p ∷ ps) h fits = elim (Bool-cases (eqb p.0 n)) [
    | inl e ↦
        (let same : p.0 ≡ n = ground arith in
          extend-keeps (n + size c) c (extend_one count (size c) c found p) ps (
            subst (λ m. reaches (m + size c) (extend_one count (size c) c found p) ≡ true) same
              (extend_one-adds c found p (ground arith))))
    | inr e ↦ extend-adds n c (extend_one count (size c) c found p) ps (ground arith) fits
  ]

  possibilities-reaches :
      (n : ℕ) {chosen ordered : List String} (found : Possibilities)
      → Sub chosen ordered
      → reaches n found ≡ true
      → n + sum_by size chosen ≤ count
      → reaches (n + sum_by size chosen) (possibilities count size found ordered) ≡ true
  unfolding possibilities
  possibilities-reaches n found empty h fits = ground arith
  possibilities-reaches n found (skip {c = c} s) h fits =
      possibilities-reaches n (extend count (size c) c found found) s
        (extend-keeps n c found found h) fits
  possibilities-reaches n found (pick {c = c} {xs = xs} {ys = ys} s) h fits =
      let next = extend count (size c) c found found in
      let moved : n + size c + sum_by size xs ≡ n + (size c + sum_by size xs) = omega arith in
      subst (λ m. reaches m (possibilities count size next ys) ≡ true) moved
        (possibilities-reaches (n + size c) next s (extend-adds n c found found h (omega arith))
          (omega arith))

  chosen_for-reaches :
      (n : ℕ) (found : Possibilities)
      → reaches n found ≡ true
      → (chosen : List String) × (chosen_for n found ≡ some chosen)
  unfolding chosen_for
  chosen_for-reaches n [] h = cc
  chosen_for-reaches n ((m, c) ∷ found) h = elim (Bool-cases (eqb m n)) [
    | inl e ↦ (c, rw e refl)
    | inr e ↦ rw e (chosen_for-reaches n found (ground arith))
  ]

  -- If some of the clusters have sizes that add up to the count, such clusters are found, so the
  -- code does not raise.
  pub choose_complete :
      (ordered some_clusters : List String)
      → Sub some_clusters ordered
      → sum_by size some_clusters ≡ count
      → (chosen : List String) × (choose count size ordered ≡ some chosen)
  unfolding choose
  choose_complete ordered wanted s e =
      let total : 0 + sum_by size wanted ≡ count = omega (arith, e) in
      chosen_for-reaches count (possibilities count size ((0, []) ∷ []) ordered) (
        subst (λ m. reaches m (possibilities count size ((0, []) ∷ []) ordered) ≡ true) total
          (possibilities-reaches 0 ((0, []) ∷ []) s refl (omega (arith, e))))
