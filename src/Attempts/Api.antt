-- ===== src/Attempts/Api.antt =====
-- The methods of `Attempts` in benchmarks/_paired_attempts.py that its callers use: `history`,
-- `prepare`, `start`, `trial` and `stop`. `digest` is `digest(encoded(value))`, a parameter.
pub mod Start
use grepglint.Base.{
  ℕ, ◌+◌, ◌*◌, String, Bool, true, false, not, ◌||◌, Option, none, some, List, [], ◌∷◌, ◌==◌, ltb,
  leb, if◌then◌else◌, length, count_by,
}
use grepglint.Attempts.Ledger.{max_bytes, Ledger, Outcome, append}
use grepglint.Base.Json.{
  Value, Items, Fields, get, get_in, str, list, dict, nil, cons, no_fields, field,
}
use grepglint.Base.Dict.{Dict, lookup}
use grepglint.Base.Result.{
  Exception, Result, ◌>>=◌, require, ◌>>◌, probe, key_error, type_error, err, ok,
}
use grepglint.Base.Json.Equality.{equal}
use grepglint.Attempts.Transition.{
  RunState, TrialState, Run, max_runs, planned, started, stopped, reserved, completed, failed,
  not_started,
}

abbrev pub run_reserve : ℕ
run_reserve = 256 * 1024

state_text : RunState → String
state_text RunState.planned = "planned"
state_text RunState.started = "started"
state_text RunState.stopped = "stopped"

trial_text : TrialState → String
trial_text TrialState.not_started = "not-started"
trial_text TrialState.reserved = "reserved"
trial_text TrialState.completed = "completed"
trial_text TrialState.failed = "failed"

-- `value[key]`
pub item : String → Value → Result Value
item key (dict m) = elim (get key m) [ none ↦ err key_error | some v ↦ ok v ]
item key _ = err type_error

states_value : Dict TrialState → Fields
unfolding trial_text
states_value [] = no_fields
states_value ((t, s) ∷ states) = field t (str (trial_text s)) (states_value states)

run_value : String → Run → Result Value
unfolding item state_text states_value
run_value run_id run = do
  binding ← item "binding" (dict run.event)
  plan ← item "plan_sha256" binding
  ok (
      dict (
        field "run_id" (str run_id) (
          field "state" (str (state_text run.state)) (
            field "plan_sha256" plan (field "states" (dict (states_value run.states)) no_fields)))))

unfoldable pub history : Dict Run → Result Items
unfolding run_value
history [] = ok nil
history ((run_id, run) ∷ runs) = do v ← run_value run_id run; vs ← history runs; ok (cons v vs)

is_text : String → Value → Bool
is_text s (str t) = s == t
is_text s _ = false

-- `[item for item in self.history() if item['run_id'] != run_id]`
without : String → Items → Items
unfolding is_text
without k nil = nil
without k (cons v vs) =
    let rest = without k vs in
    if elim (get_in "run_id" v) [ none ↦ false | some w ↦ is_text k w ] then rest else cons v rest

-- `state in ('planned', 'started')`
is_active : Run → Bool
is_active run = elim run.state [ RunState.stopped ↦ false | _ ↦ true ]

-- `{key: t[key] for key in ('trial_id', 'pair_id', 'configuration')}`
trial_value : Value → Result Value
unfolding item
trial_value t = do
  trial ← item "trial_id" t
  pair ← item "pair_id" t
  configuration ← item "configuration" t
  ok (
      dict (
        field "trial_id" trial
          (field "pair_id" pair (field "configuration" configuration no_fields))))

trial_values : Items → Result Items
unfolding trial_value
trial_values nil = ok nil
trial_values (cons t ts) = do v ← trial_value t; vs ← trial_values ts; ok (cons v vs)

module _ (encode : Value → List ℕ) (decode : List ℕ → Result Value) (digest : Value → String) where
  -- An exception before `append` leaves the object as it is.
  unfoldable pub appending : Ledger → Value → Outcome → Result Fields → Result (Unit {0}) × Ledger
  unfolding append
  appending l now outcome (err e) = (err e, l)
  appending l now outcome (ok event) = append encode decode l now outcome event

  prepared : Ledger → String → Value → Items → String → Result Fields
  unfolding is_active history trial_values
  prepared l run_id binding trials random = do
    require
        (not (
          leb max_runs (length l.attempts.runs)
          || ltb max_bytes
              (l.bytes + run_reserve * (1 + count_by (λ e. is_active e.1) l.attempts.runs))))
        "attempt_history_capacity_exhausted_preserve_ledger"
    past ← history l.attempts.runs
    let seen = digest (list past)
    let token =
        digest (list (cons binding (cons (str run_id) (cons (str seen) (cons (str random) nil)))))
    chosen ← trial_values trials
    ok (
        field "action" (str "planned") (
          field "run_id" (str run_id) (
            field "binding" binding (
              field "confirmation" (str token) (
                field "previous_history_sha256" (str seen)
                  (field "trials" (list chosen) no_fields))))))

  -- `secrets.token_hex(32)` is `random`. The token that the code returns is the event's
  -- confirmation.
  unfoldable pub prepare :
      Ledger → Value → Outcome → String → Value → Items → String → Result (Unit {0}) × Ledger
  unfolding prepared appending
  prepare l now outcome run_id binding trials random =
      appending l now outcome (prepared l run_id binding trials random)

  abbrev changed : Exception
  changed = probe "changed_plan_or_consumed_confirmation"

  is_ready : RunState → Bool
  is_ready RunState.planned = true
  is_ready _ = false

  unfoldable pub confirmed : Dict Run → String → Value → Value → Option Run → Result Fields
  unfolding is_ready item history without is_text
  confirmed runs run_id binding confirmation none = err changed
  confirmed runs run_id binding confirmation (some run) = do
    require (is_ready run.state) "changed_plan_or_consumed_confirmation"
    bound ← item "binding" (dict run.event)
    require (equal bound binding) "changed_plan_or_consumed_confirmation"
    given ← elim confirmation [ str s ↦ ok s | _ ↦ err changed ]
    token ← item "confirmation" (dict run.event)
    require (is_text given token) "changed_plan_or_consumed_confirmation"
    past ← history runs
    seen ← item "previous_history_sha256" (dict run.event)
    require (is_text (digest (list (without run_id past))) seen)
        "changed_plan_or_consumed_confirmation"
    ok (field "action" (str "started") (field "run_id" (str run_id) no_fields))

  unfoldable pub start :
      Ledger → Value → Outcome → String → Value → Value → Result (Unit {0}) × Ledger
  start l now outcome run_id binding confirmation =
      appending l now outcome
        (confirmed l.attempts.runs run_id binding confirmation (lookup run_id l.attempts.runs))

  unfoldable pub trial :
      Ledger → Value → Outcome → String → String → String → Result (Unit {0}) × Ledger
  unfolding append
  trial l now outcome run_id trial_id state = append encode decode l now outcome (
      field "action" (str state)
        (field "run_id" (str run_id) (field "trial_id" (str trial_id) no_fields)))

  unfoldable pub stop : Ledger → Value → Outcome → String → Result (Unit {0}) × Ledger
  unfolding append
  stop l now outcome run_id =
      append encode decode l now outcome
        (field "action" (str "stopped") (field "run_id" (str run_id) no_fields))
