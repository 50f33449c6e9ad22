-- ===== src/Attempts/Transition/Started.antt =====
-- The event `started` in `Attempts.apply` of benchmarks/_paired_attempts.py.
use grepglint.Base.{String, ◌≡◌, sym, inl, inr, Option, some, arith, eq_refl, Option-cases}
use grepglint.Base.Json.{Value, Fields, get, pos, int, str, no_fields, field}
use grepglint.Base.Dict.{lookup, insert, lookup-insert}
use grepglint.Base.Result.{>>=-eq-ok, ok-injective, ok}
use grepglint.Attempts.Transition.{
  Action, RunState, Run, Attempts, advance, apply, stamped, advance_from, move_run,
}

move_run-eq-ok :
    (a next : Attempts) (action : Action) (event : Fields) (run_id : String)
    → move_run a action event (some run_id) ≡ ok next
    → (old : Run) × (run : Run) × (lookup run_id a.runs ≡ some old)
      × (advance old action (get "trial_id" event) ≡ ok run)
      × (next ≡ record a { runs = insert run_id run a.runs })
unfolding move_run
move_run-eq-ok a next action event run_id e = elim (Option-cases (lookup run_id a.runs)) [
  | inl absent ↦ cc (rw (absent, move_run) at e)
  | inr (old, found) ↦
      let (run, moved, done) =
        >>=-eq-ok (advance old action (get "trial_id" event)) _ (rw (found, move_run) at e) in
      (old, run, found, moved, sym (ok-injective done))
]

advance-started :
    (old run : Run) (trial : Option Value)
    → advance old Action.started trial ≡ ok run
    → (old.state ≡ RunState.planned) × (run.state ≡ RunState.started)
unfolding advance advance_from
advance-started old run trial e = ground arith

abbrev pub started_event : Value → String → Value
started_event now run_id =
    stamped now (field "action" (str "started") (field "run_id" (str run_id) no_fields))

-- An event `started` that is applied finds its run planned, and leaves it started.
pub apply-started_event :
    (a next : Attempts) (now : Value) (run_id : String)
    → apply a (started_event now run_id) ≡ ok next
    → (old : Run) × (run : Run) × (lookup run_id a.runs ≡ some old)
      × (old.state ≡ RunState.planned)
      × (lookup run_id next.runs ≡ some run)
      × (run.state ≡ RunState.started)
unfolding apply
apply-started_event a next now run_id e =
    let event : Fields =
      field "version" (int (pos 1))
        (field "at" now (field "action" (str "started") (field "run_id" (str run_id) no_fields))) in
    let moved : move_run a Action.started event (some run_id) ≡ ok next = ground arith in
    let (old, run, found, step, done) = move_run-eq-ok a next Action.started event run_id moved in
    let (was, is) = advance-started old run (get "trial_id" event) step in
    (old, run, found, was, rw (done, lookup-insert, eq_refl), is)
