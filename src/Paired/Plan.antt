-- ===== src/Paired/Plan.antt =====
-- `reservation` and the trials of `plan` in benchmarks/_paired_contract.py. Parameters are the
-- outcome of `validate`, the loaded corpus, and `odd`: the bit of the SHA-256 digest of seed, task
-- and repetition that reverses a pair. `encoded_size` is the length of `encoded(result)` for the
-- trials of a plan. The digests of a trial's prompt and task are left out.
pub mod Schedule
use Prim.Native.Char.{Char}
use grepglint.Base.{
  ℕ, zero, suc, ◌+◌, ◌*◌, ◌/◌, ◌%◌, ◌^◌, String, Bool, true, false, not, ◌&&◌, none, some, List, [],
  ◌∷◌, ◌++◌, ltb, leb, eqb, if◌then◌else◌, length, all, points,
}
use grepglint.Base.Json.{Value, pos, int}
use grepglint.Base.Dict.{Dict, contains, distinct, has, lookup, keys}
use grepglint.Base.Result.{Result, ◌>>=◌, require, ◌>>◌, probe, key_error, err, ok}

abbrev pub max_trials : ℕ
max_trials = 160

abbrev max_repetitions : ℕ
max_repetitions = 10

abbrev pub metadata_bytes : ℕ
metadata_bytes = 1024 * 1024

abbrev capture_bytes : ℕ
capture_bytes = 128 * 1024 ^ 2

unfoldable pub reservation : ℕ → ℕ
reservation count = 5 * metadata_bytes + count * (capture_bytes + metadata_bytes)

-- 'control' and 'grepglint'.
pub data Configuration : Type 0 where
  control with_grepglint : Configuration

pub record Source : Type 0 where
  pub id : String
  pub commit : String
  pub tree : String
  pub upstream_commit : String
  pub upstream_tree : String

pub record CorpusTask : Type 0 where
  pub source : String
  pub split : String
  pub question : String

pub record Trial : Type 0 where
  pub trial_id : String
  pub pair_id : String
  pub task_id : String
  pub partition : String
  pub repetition : ℕ
  pub order : ℕ
  pub configuration : Configuration
  pub guidance : String
  pub question : String
  pub source : Source

digit : ℕ → Char
digit n =
    if eqb n 0
    then "0"
    else if eqb n 1
    then "1"
    else if eqb n 2
    then "2"
    else if eqb n 3
    then "3"
    else if eqb n 4
    then "4"
    else if eqb n 5
    then "5"
    else if eqb n 6
    then "6"
    else if eqb n 7
    then "7"
    else if eqb n 8
    then "8"
    else "9"

-- `f'{letter}{n:04d}'`, for `n` below 10,000.
pub numbered : Char → ℕ → String
unfolding digit
numbered letter n = String.◌∷◌ letter (
    String.◌∷◌ (digit (n / 1000)) (
      String.◌∷◌ (digit (n / 100 % 10))
        (String.◌∷◌ (digit (n / 10 % 10)) (String.◌∷◌ (digit (n % 10)) String.[]))))

-- `order`, reversed or not.
abbrev pub order_of : Bool → Configuration × Configuration
order_of true = (with_grepglint, control)
order_of false = (control, with_grepglint)

module _ (sources : Dict Source) (guidance : String) (odd : String → ℕ → Bool) where
  -- `trials.append(…)`
  pub add_trial :
      String → CorpusTask → ℕ → String → List Trial → Configuration → Result (List Trial)
  unfolding lookup numbered
  add_trial name task repetition pair trials configuration = elim (lookup task.source sources) [
    | none ↦ err key_error
    | some source ↦ ok (
        trials
        ++ record {
          trial_id = numbered "t" (length trials + 1);
          pair_id = pair;
          task_id = name;
          partition = task.split;
          repetition = repetition;
          order = length trials;
          configuration = configuration;
          guidance = guidance;
          question = task.question;
          source = source;
        }
          ∷ [])
  ]

  -- The body of the loop over the repetitions.
  pub add_pair : String → CorpusTask → ℕ → List Trial → Result (List Trial)
  unfolding add_trial numbered
  add_pair name task repetition trials = do
    let pair = numbered "p" (length trials / 2 + 1)
    let order = order_of (odd name repetition)
    first ← add_trial name task repetition pair trials order.0
    add_trial name task repetition pair first order.1

  -- `for repetition in range(first, first + count)`
  pub add_pairs : String → CorpusTask → ℕ → ℕ → List Trial → Result (List Trial)
  unfolding add_pair
  add_pairs name task first zero trials = ok trials
  add_pairs name task first (suc count) trials = do
    next ← add_pair name task first trials
    add_pairs name task (first + 1) count next

  pub add_tasks : Dict CorpusTask → ℕ → List String → List Trial → Result (List Trial)
  unfolding add_pairs lookup
  add_tasks tasks repetitions [] trials = ok trials
  add_tasks tasks repetitions (name ∷ ids) trials = elim (lookup name tasks) [
    | none ↦ err key_error
    | some task ↦ (do
      next ← add_pairs name task 1 repetitions trials
      add_tasks tasks repetitions ids next)
  ]

-- The order of Python's texts.
comes_before : List ℕ → List ℕ → Bool
comes_before [] ys = true
comes_before (x ∷ xs) [] = false
comes_before (x ∷ xs) (y ∷ ys) =
    let rest = comes_before xs ys in if ltb x y then true else eqb x y && rest

insert_text : String → List String → List String
unfolding comes_before
insert_text x [] = x ∷ []
insert_text x (y ∷ ys) =
    let rest = insert_text x ys in
    if comes_before (points x) (points y) then x ∷ y ∷ ys else y ∷ rest

pub sorted : List String → List String
unfolding insert_text
sorted [] = []
sorted (x ∷ xs) = insert_text x (sorted xs)

abbrev pub guidance_modes : List String
guidance_modes = "description-only" ∷ "prefer-search-v1" ∷ "skill-v1" ∷ []

-- `type(repetitions) is int`, from 1 to 10; a seed from 0 on, below 2 ^ 64.
pub checked_repetitions : Value → Result ℕ
checked_repetitions (int (pos n)) = do
  require (leb 1 n && leb n max_repetitions) "repetitions_must_be_1_to_10"
  ok n
checked_repetitions _ = err (probe "repetitions_must_be_1_to_10")

pub checked_seed : Value → Result ℕ
checked_seed (int (pos n)) = do require (ltb n (2 ^ 64)) "seed_must_be_unsigned_64_bit"; ok n
checked_seed _ = err (probe "seed_must_be_unsigned_64_bit")

pub is_some_selected : List String → Bool
is_some_selected [] = false
is_some_selected (x ∷ xs) = true

pub record Corpus : Type 0 where
  pub valid : Result (Unit {0})
  pub tasks : Dict CorpusTask
  pub sources : Dict Source

unfoldable pub plan_trials :
    (ℕ → String → ℕ → Bool)
    → (List Trial → ℕ)
    → Corpus
    → List String
    → Bool
    → Value
    → Value
    → String
    → Result (List Trial)
unfolding sorted checked_repetitions checked_seed is_some_selected add_tasks has
plan_trials odd encoded_size corpus selected all_tasks repetitions seed guidance = do
  require (contains guidance guidance_modes) "unsupported_exploration_guidance"
  count ← checked_repetitions repetitions
  number ← checked_seed seed
  require (if all_tasks then not (is_some_selected selected) else is_some_selected selected)
      "select_task_ids_or_explicit_all"
  require (distinct selected) "duplicate_task_selection"
  corpus.valid
  let ids = if all_tasks then sorted (keys corpus.tasks) else selected
  require (all (λ name. has name corpus.tasks) ids) "unknown_task_selection"
  require (leb (length ids * count * 2) max_trials) "plan_exceeds_160_trials"
  trials ← add_tasks corpus.sources guidance (odd number) corpus.tasks count ids []
  require (leb (encoded_size trials) metadata_bytes) "plan_metadata_limit_exceeded"
  ok trials
