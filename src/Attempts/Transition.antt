-- ===== src/Attempts/Transition.antt =====
-- `Attempts.apply` of benchmarks/_paired_attempts.py, as a function of the header and the runs. It
-- raises before it writes to either, so an error leaves both as they were. The literals that name
-- actions and states are constructors. Trial ids are texts, as `plan` makes them; an id that is
-- another JSON scalar is a type error here.
pub mod InOrder
pub mod Order
pub mod Progress
pub mod Steps
pub mod Started
use grepglint.Base.{
  ℕ, ◌+◌, ◌^◌, String, Bool, true, false, not, ◌&&◌, Option, none, some, List, [], ◌∷◌, map, ◌==◌,
  ltb, leb, eqb, if◌then◌else◌, length,
}
use grepglint.Base.Json.{
  Value, Items, Fields, get, values, as_text, pos, negsuc, finite, bool, int, float, str, list,
  dict, nil, cons, field,
}
use grepglint.Base.Dict.{Dict, distinct, has, lookup, insert}
use grepglint.Base.Result.{
  Exception, Result, ◌>>=◌, require, ◌>>◌, probe, key_error, type_error, err, ok,
}

pub data Action : Type 0 where
  created planned cancelled started stopped reserved completed failed other : Action

pub data RunState : Type 0 where
  planned started stopped : RunState

pub data TrialState : Type 0 where
  not_started reserved completed failed : TrialState

-- `event` is the event that planned the run, whose fields the code copies into the run.
pub record Run : Type 0 where
  pub event : Fields
  pub state : RunState
  pub states : Dict TrialState

pub record Attempts : Type 0 where
  pub header : Bool
  pub runs : Dict Run

abbrev pub max_runs : ℕ
max_runs = 64

-- `value == 1`, which holds of `True` and `1.0` too.
is_one : Option Value → Bool
is_one (some (bool b)) = b
is_one (some (int (pos n))) = eqb n 1
is_one (some (float (finite (pos m) (pos e)))) = eqb m 1 && eqb e 0
is_one (some (float (finite (pos m) (negsuc e)))) = eqb m (2 ^ (e + 1))
is_one _ = false

action_of_text : String → Action
action_of_text s =
    if s == "created"
    then Action.created
    else if s == "planned"
    then Action.planned
    else if s == "cancelled"
    then Action.cancelled
    else if s == "started"
    then Action.started
    else if s == "stopped"
    then Action.stopped
    else if s == "reserved"
    then Action.reserved
    else if s == "completed"
    then Action.completed
    else if s == "failed"
    then Action.failed
    else Action.other

pub action_of : Option Value → Action
unfolding action_of_text
action_of (some (str s)) = action_of_text s
action_of _ = Action.other

-- The key that `dict.get` looks up: a list or a dict has no hash, and no other scalar is a key.
hash_key : Option Value → Result (Option String)
hash_key (some (str s)) = ok (some s)
hash_key (some (list l)) = err type_error
hash_key (some (dict d)) = err type_error
hash_key _ = ok none

-- `t['trial_id']`
trial_id_of : Value → Result String
trial_id_of (dict t) = elim (get "trial_id" t) [
  | none ↦ err key_error
  | some v ↦ elim (as_text (some v)) [ none ↦ err type_error | some s ↦ ok s ]
]
trial_id_of _ = err type_error

trial_ids : Items → Result (List String)
unfolding trial_id_of
trial_ids nil = ok []
trial_ids (cons t ts) = do x ← trial_id_of t; xs ← trial_ids ts; ok (x ∷ xs)

abbrev pub all_waiting : List String → Dict TrialState
all_waiting = map (λ t. (t, TrialState.not_started))

checked_trials : Option Value → Result (List String)
unfolding trial_ids
checked_trials (some (list ts)) = do
  require (leb 1 (length (values ts)) && leb (length (values ts)) 160) "invalid_attempt_trials"
  ids ← trial_ids ts
  require (distinct ids) "invalid_attempt_trials"
  ok ids
checked_trials _ = err (probe "invalid_attempt_trials")

plan_run : Attempts → Fields → Option String → Result Attempts
unfolding checked_trials has insert
plan_run a event none = err (probe "invalid_paired_authorization")
plan_run a event (some run_id) = do
  require (not (has run_id a.runs) && ltb (length a.runs) max_runs) "invalid_paired_authorization"
  ids ← checked_trials (get "trials" event)
  let run : Run = record { event = event; state = RunState.planned; states = all_waiting ids }
  ok (record a { runs = insert run_id run a.runs })

-- `[t for t, state in states.items() if state != 'completed'][0]`
pub first_pending : Dict TrialState → Option String
first_pending [] = none
first_pending ((t, TrialState.completed) ∷ states) = first_pending states
first_pending ((t, state) ∷ states) = some t

abbrev out_of_order : Exception
out_of_order = probe "trial_already_consumed_or_out_of_order"

reserve_at : Dict TrialState → String → Option TrialState → Result (Dict TrialState)
unfolding insert
reserve_at states t (some TrialState.not_started) = ok (insert t TrialState.reserved states)
reserve_at states t _ = err out_of_order

pub reserve : Dict TrialState → Option String → Option String → Result (Dict TrialState)
unfolding reserve_at lookup
reserve states (some first) (some t) =
    if first == t then reserve_at states t (lookup t states) else err out_of_order
reserve states _ _ = err out_of_order

finish_at : Dict TrialState → TrialState → String → Option TrialState → Result (Dict TrialState)
unfolding insert
finish_at states next t (some TrialState.reserved) = ok (insert t next states)
finish_at states next t _ = err (probe "invalid_attempt_transition")

pub finish : Dict TrialState → TrialState → Option String → Result (Dict TrialState)
unfolding finish_at lookup
finish states next none = err (probe "invalid_attempt_transition")
finish states next (some t) = finish_at states next t (lookup t states)

-- The branches on the action and the state of the run.
advance_from : Run → Option Value → Action → RunState → Result Run
unfolding reserve finish first_pending hash_key
advance_from run trial Action.cancelled RunState.planned =
    ok (record run { state = RunState.stopped })
advance_from run trial Action.started RunState.planned =
    ok (record run { state = RunState.started })
advance_from run trial Action.stopped RunState.started =
    ok (record run { state = RunState.stopped })
advance_from run trial Action.reserved RunState.started = do
  states ← reserve run.states (first_pending run.states) (as_text trial)
  ok (record run { states = states })
advance_from run trial Action.completed RunState.started = do
  t ← hash_key trial
  states ← finish run.states TrialState.completed t
  ok (record run { states = states })
advance_from run trial Action.failed RunState.started = do
  t ← hash_key trial
  states ← finish run.states TrialState.failed t
  ok (record run { states = states })
advance_from run trial _ _ = err (probe "authorization_consumed_or_invalid_transition")

unfoldable pub advance : Run → Action → Option Value → Result Run
unfolding advance_from
advance run action trial = advance_from run trial action run.state

move_run : Attempts → Action → Fields → Option String → Result Attempts
unfolding advance lookup insert
move_run a action event none = err (probe "unknown_attempt_run")
move_run a action event (some run_id) = elim (lookup run_id a.runs) [
  | none ↦ err (probe "unknown_attempt_run")
  | some run ↦ (do
    next ← advance run action (get "trial_id" event)
    ok (record a { runs = insert run_id next a.runs }))
]

is_created : Action → Bool
is_created Action.created = true
is_created _ = false

is_planned : Action → Bool
is_planned Action.planned = true
is_planned _ = false

is_empty : Dict Run → Bool
is_empty [] = true
is_empty _ = false

-- The body of `apply` once the event is an object of version 1.
apply_action : Attempts → Fields → Action → Result Attempts
unfolding plan_run move_run hash_key is_created is_planned is_empty
apply_action a event action =
    if is_created action && (not a.header && is_empty a.runs)
    then ok (record a { header = true })
    else if not a.header
    then err (probe "attempt_ledger_header_required")
    else if is_planned action
    then plan_run a event (as_text (get "run_id" event))
    else (do run_id ← hash_key (get "run_id" event); move_run a action event run_id)

unfoldable pub apply : Attempts → Value → Result Attempts
unfolding apply_action is_one action_of
apply a (dict event) =
    if is_one (get "version" event)
    then apply_action a event (action_of (get "action" event))
    else err (probe "invalid_paired_attempt_event")
apply a _ = err (probe "invalid_paired_attempt_event")

-- A ledger before its first line.
abbrev pub fresh : Attempts
fresh = record { header = false; runs = [] }

-- `{'version': 1, 'at': time.time(), **event}`, for an event that has neither field.
abbrev pub stamped : Value → Fields → Value
stamped now event = dict (field "version" (int (pos 1)) (field "at" now event))
