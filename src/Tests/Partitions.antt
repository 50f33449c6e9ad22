-- ===== src/Tests/Partitions.antt =====
-- Runs of `partition` of benchmarks/validate.py, and instances of the theorems about it.
use grepglint.Base.{ℕ, String, ◌≡◌, refl, some, List, [], ◌∷◌, ◌==◌, if◌then◌else◌, sum_by}
use grepglint.Base.Result.{value_error, err, ok}
use grepglint.Corpus.Partition.{Task, choose, partition, development, held_out}
use grepglint.Corpus.Partition.Choice.{Sub, choose-Sub, choose_complete, empty, skip, pick}

abbrev size : String → ℕ
size c = if c == "a" then 4 else if c == "b" then 3 else 2

abbrev ordered : List String
ordered = "b" ∷ "a" ∷ "c" ∷ []

choose_run : choose 6 size ordered ≡ some ("a" ∷ "c" ∷ [])
unfolding choose
choose_run = refl

choose-Sub_example : (sum_by size ("a" ∷ "c" ∷ []) ≡ 6) × Sub ("a" ∷ "c" ∷ []) ordered
choose-Sub_example = choose-Sub 6 size ordered ("a" ∷ "c" ∷ []) choose_run

choose_complete_example : (chosen : List String) × (choose 6 size ordered ≡ some chosen)
choose_complete_example =
    choose_complete 6 size ordered ("a" ∷ "c" ∷ []) (skip (pick (pick empty))) refl

abbrev task : String → String → String → Task
task id origin cluster = record { id = id; origin = origin; duplicate_cluster = cluster }

abbrev tasks : List Task
tasks =
    task "p1" "published" "x"
    ∷ task "p2" "published" "y"
    ∷ task "p3" "published" "x"
    ∷ task "p4" "published" "x"
    ∷ task "p5" "published" "x"
    ∷ task "a1" "authored" "w"
    ∷ task "p6" "published" "z"
    ∷ task "p7" "published" "z"
    ∷ task "a2" "authored" "w"
    ∷ []

partition_run :
    partition (λ c. 0) tasks
    ≡ ok (
        ("p1", development)
        ∷ ("p2", held_out)
        ∷ ("p3", development)
        ∷ ("p4", development)
        ∷ ("p5", development)
        ∷ ("p6", development)
        ∷ ("p7", development)
        ∷ ("a1", development)
        ∷ ("a2", development)
        ∷ [])
unfolding partition
partition_run = refl

too_few_run : partition (λ c. 0) [] ≡ err value_error
unfolding partition
too_few_run = refl
