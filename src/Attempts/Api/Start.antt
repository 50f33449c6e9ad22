-- ===== src/Attempts/Api/Start.antt =====
-- Lemmas about `Attempts.start` of benchmarks/_paired_attempts.py, and the theorem on two calls.
use grepglint.Base.{ℕ, String, ◌≡◌, refl, Option, none, some, List, arith}
use grepglint.Base.Json.{Value, Fields, str, no_fields, field}
use grepglint.Base.Dict.{Dict, lookup}
use grepglint.Base.Result.{Result, probe, err, ok}
use grepglint.Attempts.Ledger.{Ledger, Outcome, append}
use grepglint.Attempts.Transition.{RunState, Run}
use grepglint.Attempts.Api.{appending, confirmed, start, changed, is_ready}
use grepglint.Attempts.Ledger.Reload.{append-eq-ok}
use grepglint.Attempts.Transition.Started.{apply-started_event}

module _ (encode : Value → List ℕ) (decode : List ℕ → Result Value) (digest : Value → String) where
  appending-eq-ok :
      (l next : Ledger) (now : Value) (outcome : Outcome) (r : Result Fields)
      → appending encode decode digest l now outcome r ≡ (ok tt, next)
      → (event : Fields) × (r ≡ ok event)
        × (append encode decode l now outcome event ≡ (ok tt, next))
  unfolding appending
  appending-eq-ok l next now outcome (err e) h = cc
  appending-eq-ok l next now outcome (ok event) h = (event, refl, h)

  confirmed-eq-ok :
      (runs : Dict Run) (run_id : String) (binding confirmation : Value) (o : Option Run)
      (event : Fields)
      → confirmed encode decode digest runs run_id binding confirmation o ≡ ok event
      → event ≡ field "action" (str "started") (field "run_id" (str run_id) no_fields)
  unfolding confirmed
  confirmed-eq-ok runs run_id binding confirmation none event h = cc
  confirmed-eq-ok runs run_id binding confirmation (some run) event h = ground arith

  confirmed_started :
      (runs : Dict Run) (run_id : String) (binding confirmation : Value) (run : Run)
      → run.state ≡ RunState.started
      → confirmed encode decode digest runs run_id binding confirmation (some run)
        ≡ err (changed encode decode digest)
  unfolding confirmed is_ready
  confirmed_started runs run_id binding confirmation run h = rw (confirmed, h)

  start_started :
      (l : Ledger) (now : Value) (outcome : Outcome) (run_id : String)
      (binding confirmation : Value) (run : Run)
      → lookup run_id l.attempts.runs ≡ some run
      → run.state ≡ RunState.started
      → start encode decode digest l now outcome run_id binding confirmation
        ≡ (err (probe "changed_plan_or_consumed_confirmation"), l)
  unfolding start appending
  start_started l now outcome run_id binding confirmation run found h =
      rw (found, confirmed_started l.attempts.runs run_id binding confirmation run h)

  -- After a call of `start` has returned, a call for the same run raises and changes nothing,
  -- whatever the binding and the confirmation.
  pub start_once :
      (l next : Ledger) (now later : Value) (outcome retried : Outcome) (run_id : String)
      (binding confirmation other_binding other_confirmation : Value)
      → start encode decode digest l now outcome run_id binding confirmation ≡ (ok tt, next)
      → start encode decode digest next later retried run_id other_binding other_confirmation
        ≡ (err (probe "changed_plan_or_consumed_confirmation"), next)
  start_once l next now later outcome retried run_id b c b' c' h =
      let runs = l.attempts.runs in
      let checked = confirmed encode decode digest runs run_id b c (lookup run_id runs) in
      let first : appending encode decode digest l now outcome checked ≡ (ok tt, next) =
        unfold start in h in
      let (event, made, sent) = appending-eq-ok l next now outcome checked first in
      let same = confirmed-eq-ok runs run_id b c (lookup run_id runs) event made in
      let (a, _, _, applied, done) = append-eq-ok encode decode l next now outcome event sent in
      let (_, run, _, _, found, state) =
        apply-started_event l.attempts a now run_id (rw same at applied) in
      start_started next later retried run_id b' c' run (rw done found) state
