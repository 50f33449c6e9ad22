-- ===== src/Tests/Ledger.antt =====
-- Runs of benchmarks/_paired_attempts.py, and instances of the theorems about it.
use grepglint.Base.{
  ℕ, ◌+◌, ◌*◌, ◌≤◌, String, ◌≡◌, refl, ◌⊎◌, true, false, none, some, List, [], ◌∷◌, arith, ◌==◌,
  eqb, if◌then◌else◌, length,
}
use grepglint.Base.Json.{
  Value, Fields, get_in, as_text, pos, null, int, str, list, dict, nil, cons, no_fields, field,
}
use grepglint.Base.Result.{Result, probe, value_error, err, ok}
use grepglint.Attempts.Ledger.{
  max_bytes, Ledger, readline, after_line, replay, after_apply, append, load, raised, wrote,
}
use grepglint.Attempts.Transition.{
  Action, RunState, TrialState, Run, Attempts, advance, apply, stamped,
}
use grepglint.Attempts.Ledger.Session.{
  new_file, Session, load_session, Session-IsValid, load_torn, Poisons, append_raises, creates,
  appends,
}
use grepglint.Attempts.Ledger.Replay.{IsLine}
use grepglint.Attempts.Ledger.Reload.{existing}
use grepglint.Attempts.Transition.Progress.{Reserves, advance-Reserves, none_yet, one_more}
use grepglint.Attempts.Transition.Steps.{Steps, Accepted-le}
use grepglint.Attempts.Transition.Order.{IsValid, apply-IsValid}

abbrev one : Value
one = int (pos 1)

abbrev trial_of : String → Value
trial_of t = dict (field "trial_id" (str t) no_fields)

abbrev created_value : Value
created_value =
    dict (field "version" one (field "at" null (field "action" (str "created") no_fields)))

abbrev planned_fields : Fields
planned_fields = field "action" (str "planned") (
    field "run_id" (str "run-a")
      (field "trials" (list (cons (trial_of "t0001") (cons (trial_of "t0002") nil))) no_fields))

abbrev planned_value : Value
planned_value = stamped null planned_fields

abbrev planned_attempts : Attempts
planned_attempts = record {
  header = true;
  runs =
      (
        "run-a",
        record {
          event = field "version" one (field "at" null planned_fields);
          state = RunState.planned;
          states = ("t0001", TrialState.not_started) ∷ ("t0002", TrialState.not_started) ∷ [];
        },
      )
      ∷ [];
}

abbrev empty_attempts : Attempts
empty_attempts = record { header = true; runs = [] }

apply_run : apply empty_attempts planned_value ≡ ok planned_attempts
unfolding apply
apply_run = refl

apply-IsValid_example : IsValid planned_attempts
unfolding apply
apply-IsValid_example =
    apply-IsValid empty_attempts planned_attempts planned_value
      (record { runs = tt; count = omega arith; headed = λ p. refl }) refl

abbrev running : TrialState → Run
running second = record {
  event = planned_fields;
  state = RunState.started;
  states = ("t0001", TrialState.completed) ∷ ("t0002", second) ∷ [];
}

advance-Reserves_example :
    Reserves (running TrialState.not_started).states (running TrialState.reserved).states
unfolding advance
advance-Reserves_example =
    advance-Reserves (running TrialState.not_started) (running TrialState.reserved)
      (some (str "t0002")) refl

Accepted-le_example :
    (1 ≤ 2 * 2 + 2) × Steps (running TrialState.not_started) 1 (running TrialState.reserved)
unfolding advance
Accepted-le_example =
    Accepted-le (running TrialState.not_started) (running TrialState.reserved) 1 (
      one_more Action.reserved (some (str "t0002")) (none_yet (running TrialState.not_started))
        refl)

-- A codec for two events.
abbrev encode : Value → List ℕ
encode v = elim (as_text (get_in "action" v)) [
  | some s ↦ (if s == "created" then 1 ∷ [] else 2 ∷ [])
  | none ↦ 3 ∷ []
]

abbrev decode : List ℕ → Result Value
decode [] = err value_error
decode (b ∷ bs) =
    if eqb b 1 then ok created_value else if eqb b 2 then ok planned_value else err value_error

abbrev ledger_of : Attempts → List ℕ → Ledger
ledger_of a file = record { attempts = a; poisoned = false; bytes = length file; file = file }

abbrev created_ledger : Ledger
created_ledger = ledger_of empty_attempts (1 ∷ 10 ∷ [])

abbrev planned_ledger : Ledger
planned_ledger = ledger_of planned_attempts (1 ∷ 10 ∷ 2 ∷ 10 ∷ [])

load_run : load encode decode (new_file encode decode) null (wrote 2) ≡ (ok tt, created_ledger)
unfolding load replay readline append after_apply apply after_line
load_run = refl

append_run :
    append encode decode created_ledger null (wrote 2) planned_fields ≡ (ok tt, planned_ledger)
unfolding load replay readline append after_apply apply after_line
append_run = refl

abbrev created_line : IsLine encode decode created_value
created_line = record { one_line = refl; short = omega arith; reads_back = refl }

abbrev planned_line : IsLine encode decode planned_value
planned_line = record { one_line = refl; short = omega arith; reads_back = refl }

abbrev session : Session encode decode planned_ledger
session =
    appends null (wrote 2) planned_fields (creates null (wrote 2) created_line load_run)
      planned_line append_run

load_session_example :
    load encode decode (existing encode decode (1 ∷ 10 ∷ 2 ∷ 10 ∷ [])) null (raised 0)
    ≡ (ok tt, planned_ledger)
load_session_example = load_session encode decode null (raised 0) session

Session-IsValid_example : IsValid planned_attempts × (4 ≤ max_bytes)
Session-IsValid_example = Session-IsValid encode decode session

load_torn_example :
    (load encode decode (existing encode decode (1 ∷ 10 ∷ 2 ∷ 10 ∷ 2 ∷ [])) null (raised 0)).0
    ≡ err (probe "partial_attempt_ledger_preserved")
load_torn_example =
    load_torn encode decode (2 ∷ []) null (raised 0) session (omega arith) (omega arith) refl
      (omega arith)

abbrev torn_ledger : Ledger
torn_ledger = record {
  attempts = planned_attempts;
  poisoned = true;
  bytes = 3;
  file = 1 ∷ 10 ∷ 2 ∷ [];
}

append_torn_run :
    append encode decode created_ledger null (wrote 1) planned_fields
    ≡ (err (probe "partial_attempt_ledger_preserved"), torn_ledger)
unfolding append after_apply apply
append_torn_run = refl

append_raises_example :
    (torn_ledger ≡ created_ledger)
    ⊎ Poisons encode decode created_ledger (2 ∷ 10 ∷ []) (wrote 1) torn_ledger
append_raises_example =
    append_raises encode decode created_ledger torn_ledger null (wrote 1) planned_fields
      (probe "partial_attempt_ledger_preserved") append_torn_run
