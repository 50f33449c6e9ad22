-- ===== src/Score/Coverage/Bounds.antt =====
-- Lemmas about the counts of `coverage` in benchmarks/_score_metrics.py, and the theorem on them.
use grepglint.Base.{
  ℕ, ◌+◌, ◌-◌, ◌≤◌, ◌<◌, String, ◌≡◌, refl, subst, ◌⊎◌, inl, inr, Bool, true, Option, none, some,
  List, [], ◌∷◌, map, arith, ltb, leb, if◌then◌else◌, Bool-cases, length, any, count_by,
  count_by-le-length, All, length-map,
}
use grepglint.Score.Coverage.{
  File, Alternative, Group, valid_range, Fraction, ratio, Graded, Coverage, coverage, valid_items,
  path_texts, ranges_of, merged_ranges, alternative_paths, ranges_at, fraction, larger, largest,
  group_fraction, grade_one, grade, measured,
}
use grepglint.Score.Ranges.{Range, merge, overlap}
use grepglint.Score.Ranges.Counting.{overlap-merge-le}
use grepglint.Score.Ranges.Merged.{IsForward}
use grepglint.Base.Json.{Value, Items, values, get_in, as_text, list}
use grepglint.Base.Dict.{Dict, contains, lookup, insert, has, keys}
use grepglint.Base.Sets.{text_set, IsSubset, contains-text_set, distinct-text_set, length-le-subset}
use grepglint.Base.Result.{require, >>=-eq-ok, ok-injective, ok}

valid_range-IsForward :
    (item : Value) (files : Dict File) (good : String × Range)
    → valid_range item files ≡ some good
    → IsForward good.1
unfolding valid_range
valid_range-IsForward item files good h = ground arith

path_of_valid_range :
    (item : Value) (files : Dict File) (good : String × Range)
    → valid_range item files ≡ some good
    → as_text (get_in "path" item) ≡ some good.0
unfolding valid_range
path_of_valid_range item files good h = ground arith

valid_items-IsForward :
    (files : Dict File) (items : List Value) → All (λ i. IsForward i.1) (valid_items files items)
unfolding valid_items
valid_items-IsForward files [] = tt
valid_items-IsForward files (item ∷ items) =
    step (valid_range item files) (valid_range-IsForward item files)
      (valid_items-IsForward files items)
  where
    step :
        (o : Option (String × Range))
        → ((good : String × Range) → o ≡ some good → IsForward good.1)
        → All (λ i. IsForward i.1) (valid_items files items)
        → All
            (λ i. IsForward i.1)
            (elim o [ none ↦ valid_items files items | some g ↦ g ∷ valid_items files items ])
    step none h rest = rest
    step (some g) h rest = (h g refl, rest)

length-valid_items-le :
    (files : Dict File) (items : List Value) → length (valid_items files items) ≤ length items
unfolding valid_items
length-valid_items-le files [] = omega arith
length-valid_items-le files (item ∷ items) = ground (arith, length-valid_items-le files items)

-- The paths of the valid items are paths of the items.
valid_paths-IsSubset :
    (files : Dict File) (items : List Value)
    → IsSubset (map (λ i. i.0) (valid_items files items)) (path_texts items)
unfolding valid_items path_texts
valid_paths-IsSubset files [] k h = h
valid_paths-IsSubset files (item ∷ items) k h =
    step (valid_range item files) (path_of_valid_range item files)
      (valid_paths-IsSubset files items k) h
  where
    step :
        (o : Option (String × Range))
        → ((good : String × Range) → o ≡ some good → as_text (get_in "path" item) ≡ some good.0)
        → (contains k (map (λ i. i.0) (valid_items files items)) ≡ true
            → contains k (path_texts items) ≡ true)
        → contains k (
            map
              (λ i. i.0)
              (elim o [ none ↦ valid_items files items | some g ↦ g ∷ valid_items files items ]))
          ≡ true
        → contains k (path_texts (item ∷ items)) ≡ true
    step none p ih m = ground (arith, ih m)
    step (some g) p ih m = ground (arith, p g refl, ih)

ranges_of-IsForward :
    (path : String) (good : List (String × Range))
    → All (λ i. IsForward i.1) good
    → All IsForward (ranges_of path good)
unfolding ranges_of
ranges_of-IsForward path [] h = tt
ranges_of-IsForward path ((p, r) ∷ good) h = ground (arith, ranges_of-IsForward path good)

-- No region overlaps the ranges of a file in more lines than it has.
abbrev IsFitting : Dict (List Range) → Type 0
IsFitting = All (λ e. (a : Range) → overlap a e.1 ≤ a.1 + 1 - a.0)

merged_ranges-IsFitting :
    (good : List (String × Range)) → All (λ i. IsForward i.1) good → IsFitting (merged_ranges good)
unfolding merged_ranges
merged_ranges-IsFitting good v = go (text_set (map (λ i. i.0) good))
  where
    go : (paths : List String) → IsFitting (map (λ path. (path, merge (ranges_of path good))) paths)
    go [] = tt
    go (p ∷ ps) = (λ a. overlap-merge-le a (ranges_of p good) (ranges_of-IsForward p good v), go ps)

ranges_at-fits :
    (path : String) (ranges : Dict (List Range)) (a : Range)
    → IsFitting ranges
    → overlap a (ranges_at path ranges) ≤ a.1 + 1 - a.0
unfolding ranges_at lookup
ranges_at-fits path [] a f = omega arith
ranges_at-fits path ((p, r) ∷ ranges) a f = ground (arith, f.0 a, ranges_at-fits path ranges a f.1)

abbrev pub IsProper : Fraction → Type 0
IsProper f = f.part ≤ f.whole

ratio-IsProper : (part whole : ℕ) → part ≤ whole → IsProper (ratio part whole)
ratio-IsProper part whole h = ground arith

largest-IsProper :
    (ranges : Dict (List Range)) (best : Fraction) (as' : List Alternative)
    → IsFitting ranges
    → IsProper best
    → IsProper (largest ranges best as')
unfolding largest larger fraction
largest-IsProper ranges best [] f h = h
largest-IsProper ranges best (a ∷ as') f h =
    largest-IsProper ranges (larger best (fraction ranges a)) as' f
      (ground (arith, ranges_at-fits a.path ranges (a.start, a.end) f))

-- Something overlaps only where a file is cited.
any_cited : (Dict (List Range)) → List Alternative → Bool
any_cited ranges = any (λ a. has a.path ranges)

ranges_at-cited :
    (path : String) (ranges : Dict (List Range)) (a : Range)
    → 0 < overlap a (ranges_at path ranges)
    → has path ranges ≡ true
unfolding ranges_at lookup has
ranges_at-cited path [] a h = absurd (omega arith)
ranges_at-cited path ((p, r) ∷ ranges) a h = ground (arith, ranges_at-cited path ranges a)

largest-cited :
    (ranges : Dict (List Range)) (best : Fraction) (others : List Alternative)
    → 0 < (largest ranges best others).part
    → (0 < best.part) ⊎ (any_cited ranges others ≡ true)
unfolding largest larger fraction any_cited
largest-cited ranges best [] h = inl h
largest-cited ranges best (a ∷ others) h =
    elim (largest-cited ranges (larger best (fraction ranges a)) others h) [
      | inl p ↦ ground (arith, ranges_at-cited a.path ranges (a.start, a.end))
      | inr p ↦ inr (ground arith)
    ]

group_fraction-cited :
    (ranges : Dict (List Range)) (alternatives : List Alternative) (f : Fraction)
    → group_fraction ranges alternatives ≡ ok f
    → 0 < f.part
    → any_cited ranges alternatives ≡ true
unfolding group_fraction fraction any_cited
group_fraction-cited ranges [] f e h = cc
group_fraction-cited ranges (a ∷ others) f e h = ground (
  arith,
  largest-cited ranges (fraction ranges a) others,
  ranges_at-cited a.path ranges (a.start, a.end),
)

group_fraction-IsProper :
    (ranges : Dict (List Range)) (alternatives : List Alternative) (f : Fraction)
    → group_fraction ranges alternatives ≡ ok f
    → IsFitting ranges
    → IsProper f
unfolding group_fraction fraction
group_fraction-IsProper ranges [] f e h = cc
group_fraction-IsProper ranges (a ∷ others) f e h = ground (
  arith,
  largest-IsProper ranges (fraction ranges a) others h,
  ranges_at-fits a.path ranges (a.start, a.end) h,
)

-- The fractions that are above zero.
abbrev hit_regions : Dict Fraction → ℕ
hit_regions = count_by (λ e. ltb 0 e.1.part)

hit_regions-insert :
    (id : String) (f : Fraction) (m : Dict Fraction)
    → hit_regions (insert id f m) ≤ hit_regions m + (if ltb 0 f.part then 1 else 0)
unfolding insert
hit_regions-insert id f [] = ground arith
hit_regions-insert id f ((j, g) ∷ m) = ground (arith, hit_regions-insert id f m)

All-insert :
    (id : String) (f : Fraction) (m : Dict Fraction)
    → IsProper f
    → All (λ e. IsProper e.1) m
    → All (λ e. IsProper e.1) (insert id f m)
unfolding insert
All-insert id f [] p h = (p, tt)
All-insert id f ((j, g) ∷ m) p h = ground (arith, All-insert id f m)

-- What the loop over the groups keeps.
record IsGraded (g : Graded) : Type 0 where
  proper : All (λ e. IsProper e.1) g.0
  hits : hit_regions g.0 ≤ g.1

grade_one-IsGraded :
    (ranges : Dict (List Range)) (start : Graded) (g : Group) (next : Graded)
    → IsFitting ranges
    → IsGraded start
    → grade_one ranges start g ≡ ok next
    → IsGraded next
unfolding grade_one any_cited
grade_one-IsGraded ranges (fractions, n) g next f s e = elim (Bool-cases g.required) [
  | inl needed ↦
      let (x, graded, stored) =
        >>=-eq-ok (group_fraction ranges g.alternatives) _ (rw needed at e) in
      let proper = group_fraction-IsProper ranges g.alternatives x graded f in
      subst IsGraded (ok-injective stored) (record {
        proper = All-insert g.id x fractions proper s.proper;
        hits = ground (
          arith,
          hit_regions-insert g.id x fractions,
          group_fraction-cited ranges g.alternatives x graded,
          s.hits,
        );
      })
  | inr skipped ↦ subst IsGraded (ok-injective (rw skipped at e)) s
]

grade-IsGraded :
    (ranges : Dict (List Range)) (start : Graded) (groups : List Group) (final : Graded)
    → IsFitting ranges
    → IsGraded start
    → grade ranges start groups ≡ ok final
    → IsGraded final
unfolding grade
grade-IsGraded ranges start [] final f s e = subst IsGraded (ok-injective e) s
grade-IsGraded ranges start (g ∷ gs) final f s e =
    let (next, one, rest) = >>=-eq-ok (grade_one ranges start g) _ e in
    grade-IsGraded ranges next gs final f (grade_one-IsGraded ranges start g next f s one) rest

matched-le :
    (files : Dict File) (cited : List Value)
    → length (merged_ranges (valid_items files cited)) ≤ length (text_set (path_texts cited))
unfolding merged_ranges
matched-le files cited =
    let good = map (λ i. i.0) (valid_items files cited) in
    omega (
      arith,
      length-map {B = String × List Range}
          (λ path. (path, merge (ranges_of path (valid_items files cited)))) (text_set good),
      length-le-subset (text_set good) (text_set (path_texts cited)) (distinct-text_set good) λ k h.
          ground (
            arith,
            contains-text_set k good,
            contains-text_set k (path_texts cited),
            valid_paths-IsSubset files cited k,
          ),
    )

-- What `coverage` reports of its counts.
pub record IsBounded (items : ℕ) (c : Coverage) : Type 0 where
  pub precision : IsProper c.file_precision
  pub overlaps : All (λ e. IsProper e.1) c.group_overlap
  pub recall : IsProper c.region_recall
  pub hits : c.region_recall.part ≤ c.file_recall.part
  pub matched : c.matched_files ≤ c.valid_files
  pub files : c.valid_files ≤ c.distinct_paths
  pub invalid : c.invalid_ranges ≤ items

measured-IsBounded :
    (ranges : Dict (List Range)) (paths items good : ℕ) (g : Graded) (groups : List Group)
    → IsGraded g
    → length ranges ≤ paths
    → IsBounded items (measured ranges paths items good g groups)
unfolding measured
measured-IsBounded ranges paths items good (fractions, n) groups s h =
    let matched = count_by-le-length (λ p. contains p (alternative_paths groups)) (keys ranges) in
    record {
      precision =
          ratio-IsProper _ paths
            (omega (arith, matched, length-map {A = String × List Range} (λ e. e.0) ranges));
      overlaps = s.proper;
      recall = ratio-IsProper _ _ (count_by-le-length (λ e. ltb 0 e.1.part) fractions);
      hits = ground (arith, s.hits);
      matched = omega (arith, matched, length-map {A = String × List Range} (λ e. e.0) ranges);
      files = h;
      invalid = omega arith;
    }

-- Whatever is cited, a coverage that is computed has proper fractions: the precision, the recall of
-- regions and the overlap of each required group are at most one, no more regions than groups are
-- hit, the matched files are among the valid ones, these among the cited paths, and the invalid
-- ranges among the items.
pub coverage-IsBounded :
    (items : Items) (groups : List Group) (files : Dict File) (c : Coverage)
    → coverage (list items) groups files ≡ ok c
    → IsBounded (length (values items)) c
unfolding coverage
coverage-IsBounded items groups files c e =
    let cited = values items in
    let good = valid_items files cited in
    let (_, _, more) =
      >>=-eq-ok (require (leb (length cited) 10000) "too_many_evidence_ranges") _ e in
    let (graded, found, done) = >>=-eq-ok (grade (merged_ranges good) ([], 0) groups) _ more in
    let fits = merged_ranges-IsFitting good (valid_items-IsForward files cited) in
    subst (IsBounded (length cited)) (ok-injective done) (
      measured-IsBounded (merged_ranges good) _ (length cited) (length good) graded groups
        (grade-IsGraded (merged_ranges good) ([], 0) groups graded fits
          (record { proper = tt; hits = omega arith }) found)
        (matched-le files cited))
