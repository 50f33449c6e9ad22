-- ===== src/Tests/Api.antt =====
-- A run of `prepare` and `start` of benchmarks/_paired_attempts.py, and instances of the theorems.
use grepglint.Base.{
  ℕ, String, ◌≡◌, refl, true, false, none, some, List, [], ◌∷◌, ◌==◌, if◌then◌else◌, length,
}
use grepglint.Base.Json.{
  Value, Fields, get_in, as_text, pos, null, int, str, list, dict, nil, cons, no_fields, field,
}
use grepglint.Base.Dict.{lookup}
use grepglint.Base.Result.{Result, probe, value_error, err, ok}
use grepglint.Base.Json.Equality.{equal}
use grepglint.Attempts.Ledger.{Ledger, after_apply, append, wrote}
use grepglint.Attempts.Transition.{RunState, TrialState, apply}
use grepglint.Attempts.Api.{history, appending, prepare, confirmed, start}
use grepglint.Attempts.Api.Start.{start_once}

abbrev encode : Value → List ℕ
encode v = elim (as_text (get_in "action" v)) [
  | some s ↦ (if s == "planned" then 2 ∷ [] else 4 ∷ [])
  | none ↦ 3 ∷ []
]

abbrev decode : List ℕ → Result Value
decode bs = err value_error

-- A digest that tells a history of no runs from the rest.
abbrev digest : Value → String
digest (list nil) = "none"
digest v = "token"

abbrev trial_of : String → Value
trial_of t = dict (
    field "trial_id" (str t)
      (field "pair_id" (str "p1") (field "configuration" (str "off") no_fields)))

abbrev bound : Value
bound = dict (field "plan_sha256" (str "abc") no_fields)

abbrev empty_ledger : Ledger
empty_ledger = record {
  attempts = record { header = true; runs = [] };
  poisoned = false;
  bytes = 2;
  file = 1 ∷ 10 ∷ [];
}

abbrev planned_fields : Fields
planned_fields = field "action" (str "planned") (
    field "run_id" (str "run-a") (
      field "binding" bound (
        field "confirmation" (str "token") (
          field "previous_history_sha256" (str "none")
            (field "trials" (list (cons (trial_of "t0001") nil)) no_fields)))))

abbrev ledger_in : RunState → List ℕ → Ledger
ledger_in state file = record {
  attempts = record {
    header = true;
    runs =
        (
          "run-a",
          record {
            event = field "version" (int (pos 1)) (field "at" null planned_fields);
            state = state;
            states = ("t0001", TrialState.not_started) ∷ [];
          },
        )
        ∷ [];
  };
  poisoned = false;
  bytes = length file;
  file = file;
}

abbrev planned_ledger : Ledger
planned_ledger = ledger_in RunState.planned (1 ∷ 10 ∷ 2 ∷ 10 ∷ [])

abbrev started_ledger : Ledger
started_ledger = ledger_in RunState.started (1 ∷ 10 ∷ 2 ∷ 10 ∷ 4 ∷ 10 ∷ [])

prepare_run :
    prepare encode decode digest empty_ledger null
      (wrote 2)
      "run-a"
      bound
      (cons (trial_of "t0001") nil)
      "random"
    ≡ (ok tt, planned_ledger)
unfolding prepare append after_apply apply history
prepare_run = refl

start_run :
    start encode decode digest planned_ledger null (wrote 2) "run-a" bound (str "token")
    ≡ (ok tt, started_ledger)
unfolding start confirmed appending append after_apply apply lookup history equal
start_run = refl

start_once_example :
    start encode decode digest started_ledger null (wrote 2) "run-a" bound (str "token")
    ≡ (err (probe "changed_plan_or_consumed_confirmation"), started_ledger)
start_once_example =
    start_once encode decode digest planned_ledger started_ledger null null (wrote 2) (wrote 2)
      "run-a" bound (str "token") bound (str "token") start_run
