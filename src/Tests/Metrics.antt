-- ===== src/Tests/Metrics.antt =====
-- Runs of benchmarks/_score_metrics.py, and instances of the theorems about it.
use grepglint.Base.{ℕ, String, ◌≡◌, refl, true, ◌&&◌, List, [], ◌∷◌, arith}
use grepglint.Score.Coverage.{File, Group, Fraction, Coverage, coverage}
use grepglint.Score.Ranges.{Range, merge, covers, lines, overlap}
use grepglint.Score.Coverage.Bounds.{IsBounded, coverage-IsBounded}
use grepglint.Score.Ranges.Counting.{count_lines, within, overlap-merge, lines-merge}
use grepglint.Score.Ranges.Merged.{IsApart, merge-IsApart, covers-merge}
use grepglint.Base.Json.{Value, Items, pos, null, int, str, list, dict, nil, cons, no_fields, field}
use grepglint.Base.Dict.{Dict}
use grepglint.Base.Result.{ok}

abbrev cited_ranges : List Range
cited_ranges = (8, 9) ∷ (1, 3) ∷ (4, 5) ∷ (2, 2) ∷ (8, 9) ∷ []

merge_run : merge cited_ranges ≡ (1, 5) ∷ (8, 9) ∷ []
unfolding merge
merge_run = refl

merge-IsApart_example : IsApart 0 (merge cited_ranges)
merge-IsApart_example = merge-IsApart cited_ranges (omega arith)

covers-merge_example : covers 4 (merge cited_ranges) ≡ covers 4 cited_ranges
covers-merge_example = covers-merge 4 cited_ranges

overlap-merge_example :
    overlap (3, 8) (merge cited_ranges)
    ≡ count_lines 10 (λ n. within (3, 8) n && covers n cited_ranges)
overlap-merge_example = overlap-merge 10 (3, 8) cited_ranges (omega arith) (omega arith)

lines-merge_example : lines (merge cited_ranges) ≡ count_lines 10 (λ n. covers n cited_ranges)
lines-merge_example = lines-merge 10 cited_ranges (omega arith) (omega arith)

abbrev item : String → ℕ → ℕ → Value
item path first last = dict (
    field "path" (str path)
      (field "start" (int (pos first)) (field "end" (int (pos last)) no_fields)))

abbrev citations : Items
citations = cons (item "a.py" 2 3) (cons (item "b.py" 5 9) (cons null nil))

abbrev inventory : Dict File
inventory =
    ("a.py", record { mode = "100644"; lines = 10 })
    ∷ ("b.py", record { mode = "100644"; lines = 7 })
    ∷ []

abbrev groups : List Group
groups =
    record {
      id = "g1";
      required = true;
      alternatives = record { path = "a.py"; start = 3; end = 6 } ∷ [];
    }
    ∷ record {
      id = "g2";
      required = true;
      alternatives = record { path = "b.py"; start = 1; end = 1 } ∷ [];
    }
    ∷ []

abbrev fraction_of : ℕ → ℕ → Fraction
fraction_of part whole = record { part = part; whole = whole }

abbrev measured_citations : Coverage
measured_citations = record {
  file_precision = fraction_of 1 2;
  file_recall = fraction_of 1 2;
  matched_files = 1;
  distinct_paths = 2;
  valid_files = 1;
  invalid_ranges = 2;
  lines = 2;
  region_recall = fraction_of 1 2;
  group_overlap = ("g1", fraction_of 1 4) ∷ ("g2", fraction_of 0 1) ∷ [];
  ranges = ("a.py", (2, 3) ∷ []) ∷ [];
}

coverage_run : coverage (list citations) groups inventory ≡ ok measured_citations
unfolding coverage
coverage_run = refl

coverage-IsBounded_example : IsBounded 3 measured_citations
unfolding coverage
coverage-IsBounded_example = coverage-IsBounded citations groups inventory measured_citations refl
