-- ===== src/Tests/Plans.antt =====
-- A run of `plan` of benchmarks/_paired_contract.py, and an instance of the theorem about it.
use grepglint.Base.{ℕ, ◌*◌, ◌≤◌, String, ◌≡◌, refl, Bool, true, false, List, [], ◌∷◌, eqb, length}
use grepglint.Base.Json.{pos, int}
use grepglint.Base.Result.{probe, err, ok}
use grepglint.Paired.Plan.{
  max_trials, Configuration, Source, Trial, Corpus, plan_trials, control, with_grepglint,
}
use grepglint.Paired.Plan.Schedule.{IsPaired, slots, plan_trials-IsPaired}

abbrev odd : ℕ → String → ℕ → Bool
odd seed name repetition = eqb repetition 2

abbrev source : Source
source = record { id = "s"; commit = "c"; tree = "t"; upstream_commit = "u"; upstream_tree = "v" }

abbrev corpus : Corpus
corpus = record {
  valid = ok tt;
  tasks =
      ("b", record { source = "s"; split = "held_out"; question = "where" })
      ∷ ("a", record { source = "s"; split = "development"; question = "how" })
      ∷ [];
  sources = ("s", source) ∷ [];
}

abbrev trial : String → String → ℕ → ℕ → Configuration → Trial
trial trial_id pair_id repetition order configuration = record {
  trial_id = trial_id;
  pair_id = pair_id;
  task_id = "a";
  partition = "development";
  repetition = repetition;
  order = order;
  configuration = configuration;
  guidance = "skill-v1";
  question = "how";
  source = source;
}

abbrev size_of_plan : List Trial → ℕ
size_of_plan trials = 1000 * length trials

abbrev trials : List Trial
trials =
    trial "t0001" "p0001" 1 0 control
    ∷ trial "t0002" "p0001" 1 1 with_grepglint
    ∷ trial "t0003" "p0002" 2 2 with_grepglint
    ∷ trial "t0004" "p0002" 2 3 control
    ∷ []

plan_run :
    plan_trials odd size_of_plan corpus ("a" ∷ []) false (int (pos 2)) (int (pos 0)) "skill-v1"
    ≡ ok trials
unfolding plan_trials
plan_run = refl

plan_trials-IsPaired_example :
    IsPaired 0 trials
    × (slots trials ≡ ("a", 1) ∷ ("a", 1) ∷ ("a", 2) ∷ ("a", 2) ∷ [])
    × (length trials ≡ 2 * (1 * 2))
    × (length trials ≤ max_trials)
plan_trials-IsPaired_example =
    plan_trials-IsPaired odd size_of_plan corpus ("a" ∷ []) false 2 0 "skill-v1" trials plan_run

both_run :
    plan_trials odd size_of_plan corpus ("a" ∷ []) true (int (pos 2)) (int (pos 0)) "skill-v1"
    ≡ err (probe "select_task_ids_or_explicit_all")
unfolding plan_trials
both_run = refl
