-- ===== src/Attempts/Transition/Progress.antt =====
-- A measure of how far a run has come, for the proofs about `Attempts.apply` of
-- benchmarks/_paired_attempts.py.
use grepglint.Base.{
  ℕ, suc, ◌+◌, ◌*◌, ◌≤◌, ◌<◌, String, ◌≡◌, refl, sym, ap, ◌∙◌, subst, inl, inr, Option, some, [],
  ◌∷◌, ◌++◌, arith, eq_iff, text_cases, length, sum_by, All,
}
use grepglint.Attempts.Transition.{
  finish, Action, RunState, TrialState, Run, first_pending, reserve, advance, hash_key,
  advance_from,
}
use grepglint.Base.Json.{Value, as_text}
use grepglint.Base.Dict.{Dict, lookup, insert, has_of_lookup, length-insert}
use grepglint.Base.Result.{>>=-eq-ok, ok-injective, ok}
use grepglint.Attempts.Transition.InOrder.{reserve-eq-ok, finish-eq-ok}

pub record Reserves (before after : Dict TrialState) : Type 0 where
  pub done : Dict TrialState
  pub trial : String
  pub rest : Dict TrialState
  pub completed_before : All (λ e. e.1 ≡ TrialState.completed) done
  pub was : before ≡ done ++ (trial, TrialState.not_started) ∷ rest
  pub is : after ≡ done ++ (trial, TrialState.reserved) ∷ rest

Reserves-cons :
    (t : String) (before after : Dict TrialState)
    → Reserves before after
    → Reserves ((t, TrialState.completed) ∷ before) ((t, TrialState.completed) ∷ after)
Reserves-cons t before after r = record {
  done = (t, TrialState.completed) ∷ r.done;
  trial = r.trial;
  rest = r.rest;
  completed_before = (refl, r.completed_before);
  was = ap (λ l. (t, TrialState.completed) ∷ l) r.was;
  is = ap (λ l. (t, TrialState.completed) ∷ l) r.is;
}

insert-Reserves :
    (t : String) (states : Dict TrialState)
    → first_pending states ≡ some t
    → lookup t states ≡ some TrialState.not_started
    → Reserves states (insert t TrialState.reserved states)
unfolding first_pending lookup insert
insert-Reserves t [] p l = cc
insert-Reserves t ((j, TrialState.completed) ∷ states) p l = elim (text_cases j t) [
  | inl (e, _) ↦ cc (rw (lookup, e) at l)
  | inr (e, _) ↦
      rw (insert, e)
        (Reserves-cons j states (insert t TrialState.reserved states)
          (insert-Reserves t states p (rw (lookup, e) at l)))
]
insert-Reserves t ((j, TrialState.not_started) ∷ states) p l = elim (text_cases j t) [
  | inl (e, _) ↦
      rw (insert, e)
        (record {
          done = [];
          trial = j;
          rest = states;
          completed_before = tt;
          was = refl;
          is = refl;
        })
  | inr (_, n) ↦ absurd (n (ground arith))
]
insert-Reserves t ((j, _) ∷ states) p l = ground (arith, eq_iff j t)

-- A reservation that is accepted takes the first trial that is not completed, which has not been
-- started, and changes no other trial.
pub advance-Reserves :
    (run next : Run) (trial : Option Value)
    → advance run Action.reserved trial ≡ ok next
    → Reserves run.states next.states
unfolding advance advance_from
advance-Reserves run next trial e = go run.state e
  where
    go :
        (state : RunState)
        → advance_from run trial Action.reserved state ≡ ok next
        → Reserves run.states next.states
    go RunState.started e =
        let (states, held, done) =
          >>=-eq-ok (reserve run.states (first_pending run.states) (as_text trial)) _ e in
        let (t, first, _, waits, stored) =
          reserve-eq-ok run.states (first_pending run.states) (as_text trial) states held in
        subst (Reserves run.states) (sym stored ∙ ap (λ r. r.states) (ok-injective done))
          (insert-Reserves t run.states first waits)
    go _ e = cc

run_rank : RunState → ℕ
run_rank RunState.planned = 0
run_rank RunState.started = 1
run_rank RunState.stopped = 2

trial_rank : TrialState → ℕ
trial_rank TrialState.not_started = 0
trial_rank TrialState.reserved = 1
trial_rank _ = 2

-- How far a run has come: a measure for the proofs, which the program does not compute.
unfoldable pub progress : Run → ℕ
unfolding run_rank trial_rank
progress run = run_rank run.state + sum_by (λ e. trial_rank e.1) run.states

sum_rank-insert :
    (t : String) (new old : TrialState) (states : Dict TrialState)
    → lookup t states ≡ some old
    → sum_by (λ e. trial_rank e.1) (insert t new states) + trial_rank old
      ≡ sum_by (λ e. trial_rank e.1) states + trial_rank new
unfolding lookup insert
sum_rank-insert t new old [] h = cc
sum_rank-insert t new old ((j, s) ∷ states) h = ground (arith, sum_rank-insert t new old states)

length-insert_old :
    (t : String) (new old : TrialState) (states : Dict TrialState)
    → lookup t states ≡ some old
    → length (insert t new states) ≡ length states
length-insert_old t new old states h =
    ground (arith, length-insert t new states, has_of_lookup t states old h)

advance_from-progress :
    (run next : Run) (trial : Option Value) (action : Action) (state : RunState)
    → run.state ≡ state
    → advance_from run trial action state ≡ ok next
    → (progress run < progress next) × (length next.states ≡ length run.states)
unfolding advance_from progress
advance_from-progress run next trial Action.reserved RunState.started s e =
    let (states, held, done) =
      >>=-eq-ok (reserve run.states (first_pending run.states) (as_text trial)) _ e in
    let (t, _, _, was, stored) =
      reserve-eq-ok run.states (first_pending run.states) (as_text trial) states held in
    ground (
      arith,
      sum_rank-insert t TrialState.reserved TrialState.not_started run.states was,
      length-insert_old t TrialState.reserved TrialState.not_started run.states was,
      stored,
      ok-injective done,
    )
advance_from-progress run next trial Action.completed RunState.started s e =
    let (k, _, e') = >>=-eq-ok (hash_key trial) _ e in
    let (states, held, done) = >>=-eq-ok (finish run.states TrialState.completed k) _ e' in
    let (t, _, was, stored) = finish-eq-ok run.states TrialState.completed k states held in
    ground (
      arith,
      sum_rank-insert t TrialState.completed TrialState.reserved run.states was,
      length-insert_old t TrialState.completed TrialState.reserved run.states was,
      stored,
      ok-injective done,
    )
advance_from-progress run next trial Action.failed RunState.started s e =
    let (k, _, e') = >>=-eq-ok (hash_key trial) _ e in
    let (states, held, done) = >>=-eq-ok (finish run.states TrialState.failed k) _ e' in
    let (t, _, was, stored) = finish-eq-ok run.states TrialState.failed k states held in
    ground (
      arith,
      sum_rank-insert t TrialState.failed TrialState.reserved run.states was,
      length-insert_old t TrialState.failed TrialState.reserved run.states was,
      stored,
      ok-injective done,
    )
advance_from-progress run next trial _ _ s e = ground arith

-- The actions that are accepted one after another.
pub data Accepted : Run → ℕ → Run → Type 0 where
  none_yet : (run : Run) → Accepted run 0 run
  one_more :
      {run mid next : Run} {n : ℕ} (action : Action) (trial : Option Value)
      → Accepted run n mid
      → advance mid action trial ≡ ok next
      → Accepted run (suc n) next

sum_rank-le : (states : Dict TrialState) → sum_by (λ e. trial_rank e.1) states ≤ 2 * length states
unfolding trial_rank
sum_rank-le [] = omega arith
sum_rank-le ((t, s) ∷ states) = ground (arith, sum_rank-le states)

pub progress-le : (run : Run) → progress run ≤ 2 + 2 * length run.states
unfolding progress run_rank
progress-le run = ground (arith, sum_rank-le run.states)

pub Accepted-progress :
    {run last : Run} {n : ℕ}
    → Accepted run n last
    → (n + progress run ≤ progress last) × (length last.states ≡ length run.states)
unfolding advance
Accepted-progress (none_yet run) = (omega arith, refl)
Accepted-progress (one_more {mid = mid} {next = next} action trial before e) =
    omega (
      arith,
      Accepted-progress before,
      advance_from-progress mid next trial action mid.state refl e,
    )
