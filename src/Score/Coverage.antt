-- ===== src/Score/Coverage.antt =====
-- `valid_range` and `coverage` of benchmarks/_score_metrics.py. A quotient of two counts is the
-- pair of them: the double that Python makes of it is left out.
pub mod Bounds
use grepglint.Score.Ranges.{Range, merge, lines as line_count, overlap}
use grepglint.Base.{
  ℕ, suc, ◌+◌, ◌-◌, ◌*◌, String, Bool, ◌&&◌, ◌||◌, Option, none, some, List, [], ◌∷◌, ◌++◌, map,
  ◌==◌, ltb, leb, eqb, if◌then◌else◌, length, any, sum_by, count_by,
}
use grepglint.Base.Json.{ℤ, Value, values, get_in, as_text, as_int, pos, list}
use grepglint.Base.Dict.{Dict, contains, has, lookup, keys, insert}
use grepglint.Base.Sets.{text_set}
use grepglint.Base.Result.{Result, ◌>>=◌, require, ◌>>◌, probe, value_error, err, ok}

pub record File : Type 0 where
  pub mode : String
  pub lines : ℕ

pub record Alternative : Type 0 where
  pub path : String
  pub start : ℕ
  pub end : ℕ

pub record Group : Type 0 where
  pub id : String
  pub required : Bool
  pub alternatives : List Alternative

bounded : String → File → Option ℤ → Option ℤ → Option (String × Range)
bounded path file (some (pos start)) (some (pos end)) =
    if (file.mode == "100644" || file.mode == "100755")
      && leb 1 start
      && leb start end
      && leb end file.lines
    then some (path, (start, end))
    else none
bounded path file _ _ = none

in_file : Dict File → Option ℤ → Option ℤ → Option String → Option (String × Range)
unfolding lookup bounded
in_file files start end none = none
in_file files start end (some path) = elim (lookup path files) [
  | none ↦ none
  | some file ↦ bounded path file start end
]

-- `valid_range(item, files)`, with the path and the range of an item that is valid.
unfoldable pub valid_range : Value → Dict File → Option (String × Range)
unfolding in_file
valid_range item files =
    in_file files (as_int (get_in "start" item)) (as_int (get_in "end" item))
      (as_text (get_in "path" item))

-- `[i for i in items if valid_range(i, files)]`
valid_items : Dict File → List Value → List (String × Range)
unfolding valid_range
valid_items files [] = []
valid_items files (item ∷ items) =
    let rest = valid_items files items in
    elim (valid_range item files) [ none ↦ rest | some good ↦ good ∷ rest ]

path_texts : List Value → List String
path_texts [] = []
path_texts (item ∷ items) =
    let rest = path_texts items in
    elim (as_text (get_in "path" item)) [ none ↦ rest | some path ↦ path ∷ rest ]

ranges_of : String → List (String × Range) → List Range
ranges_of path [] = []
ranges_of path ((p, r) ∷ good) =
    let rest = ranges_of path good in if p == path then r ∷ rest else rest

merged_ranges : List (String × Range) → Dict (List Range)
unfolding text_set ranges_of merge
merged_ranges good =
    map (λ path. (path, merge (ranges_of path good))) (text_set (map (λ i. i.0) good))

alternative_paths : List Group → List String
alternative_paths [] = []
alternative_paths (g ∷ gs) = map (λ a. a.path) g.alternatives ++ alternative_paths gs

pub record Fraction : Type 0 where
  pub part : ℕ
  pub whole : ℕ

-- `part / whole if whole else 0`
abbrev pub ratio : ℕ → ℕ → Fraction
ratio part whole =
    if eqb whole 0 then record { part = 0; whole = 1 } else record { part = part; whole = whole }

-- `ranges.get(path, [])`
ranges_at : String → Dict (List Range) → List Range
unfolding lookup
ranges_at path ranges = elim (lookup path ranges) [ none ↦ [] | some rs ↦ rs ]

-- A region has lines: `validate` of benchmarks/validate.py raises for one whose start is after its
-- end, so the division by zero is left out.
fraction : Dict (List Range) → Alternative → Fraction
unfolding ranges_at
fraction ranges a = record {
  part = overlap (a.start, a.end) (ranges_at a.path ranges);
  whole = a.end + 1 - a.start;
}

-- `max` keeps the first of two that are equal.
larger : Fraction → Fraction → Fraction
larger f g = if ltb (f.part * g.whole) (g.part * f.whole) then g else f

largest : Dict (List Range) → Fraction → List Alternative → Fraction
unfolding fraction larger
largest ranges best [] = best
largest ranges best (a ∷ others) = largest ranges (larger best (fraction ranges a)) others

-- `max` of no alternative raises.
group_fraction : Dict (List Range) → List Alternative → Result Fraction
unfolding largest
group_fraction ranges [] = err value_error
group_fraction ranges (a ∷ others) = ok (largest ranges (fraction ranges a) others)

-- The loop over the groups: `fractions` and `file_hits`.
abbrev pub Graded : Type 0
Graded = Dict Fraction × ℕ

-- One pass of it; an optional group is skipped.
grade_one : Dict (List Range) → Graded → Group → Result Graded
unfolding group_fraction insert has
grade_one ranges (fractions, hits) g =
    if g.required
    then (do
      f ← group_fraction ranges g.alternatives
      ok (
        insert g.id f fractions,
        (if any (λ a. has a.path ranges) g.alternatives then suc hits else hits),
      ))
    else ok (fractions, hits)

grade : Dict (List Range) → Graded → List Group → Result Graded
unfolding grade_one
grade ranges graded [] = ok graded
grade ranges graded (g ∷ gs) = do next ← grade_one ranges graded g; grade ranges next gs

pub record Coverage : Type 0 where
  pub file_precision : Fraction
  pub file_recall : Fraction
  pub matched_files : ℕ
  pub distinct_paths : ℕ
  pub valid_files : ℕ
  pub invalid_ranges : ℕ
  pub lines : ℕ
  pub region_recall : Fraction
  pub group_overlap : Dict Fraction
  pub ranges : Dict (List Range)

measured : Dict (List Range) → ℕ → ℕ → ℕ → Graded → List Group → Coverage
unfolding alternative_paths
measured ranges paths items good (fractions, hits) groups =
    let accepted = alternative_paths groups in
    let matched = count_by (λ p. contains p accepted) (keys ranges) in
    let count = length fractions in
    record {
      file_precision = ratio matched paths;
      file_recall = ratio hits count;
      matched_files = matched;
      distinct_paths = paths;
      valid_files = length ranges;
      invalid_ranges = items - good;
      lines = sum_by (λ e. line_count e.1) ranges;
      region_recall = ratio (count_by (λ e. ltb 0 e.1.part) fractions) count;
      group_overlap = fractions;
      ranges = ranges;
    }

unfoldable pub coverage : Value → List Group → Dict File → Result Coverage
unfolding valid_items path_texts text_set merged_ranges grade measured
coverage (list items) groups files = do
  let cited = values items
  require (leb (length cited) 10000) "too_many_evidence_ranges"
  let good = valid_items files cited
  let ranges = merged_ranges good
  graded ← grade ranges ([], 0) groups
  ok (
      measured ranges (length (text_set (path_texts cited))) (length cited) (length good) graded
        groups)
coverage _ groups files = err (probe "too_many_evidence_ranges")
