-- ===== src/Attempts/Transition/Order.antt =====
-- Lemmas about `Attempts.apply` of benchmarks/_paired_attempts.py and the validity of a ledger.
use grepglint.Base.{
  ◌≤◌, ◌<◌, String, ◌≡◌, refl, sym, ◌∙◌, subst, inl, inr, true, false, not, ◌&&◌, Option, none,
  some, List, [], ◌∷◌, arith, ◌==◌, ltb, Bool-cases, Option-cases, length, All,
}
use grepglint.Attempts.Transition.{
  finish, Action, RunState, TrialState, Run, Attempts, max_runs, action_of, all_waiting,
  first_pending, reserve, advance, apply, fresh, hash_key, checked_trials, plan_run, advance_from,
  move_run, is_created, is_planned, is_empty, apply_action,
}
use grepglint.Base.Json.{Value, Fields, get, as_text, dict}
use grepglint.Base.Dict.{Dict, has, lookup, insert, has_of_lookup, length-insert}
use grepglint.Base.Result.{Result, ◌>>=◌, require, >>=-eq-ok, require-eq-ok, ok-injective, ok}
use grepglint.Attempts.Transition.InOrder.{
  AllWaiting, IsInOrder, AllWaiting-IsInOrder, reserve-IsInOrder, finish-IsInOrder, completes,
  fails,
}

pub record IsRunValid (run : Run) : Type 0 where
  pub in_order : IsInOrder run.states
  pub waiting : run.state ≡ RunState.planned → AllWaiting run.states

with_states-IsRunValid :
    (run next : Run) (states : Dict TrialState)
    → run.state ≡ RunState.started
    → IsInOrder states
    → ◌≡◌ {A = Result Run} (ok (record run { states = states })) (ok next)
    → IsRunValid next
with_states-IsRunValid run next states s o e =
    subst IsRunValid (ok-injective e) (record { in_order = o; waiting = λ p. cc })

advance_from-IsRunValid :
    (run next : Run) (trial : Option Value) (action : Action) (state : RunState)
    → IsRunValid run
    → run.state ≡ state
    → advance_from run trial action state ≡ ok next
    → IsRunValid next
unfolding advance_from
advance_from-IsRunValid run next trial Action.reserved RunState.started v s e =
    let (states, held, done) =
      >>=-eq-ok (reserve run.states (first_pending run.states) (as_text trial)) _ e in
    with_states-IsRunValid run next states s
      (reserve-IsInOrder run.states (as_text trial) states v.in_order held) done
advance_from-IsRunValid run next trial Action.completed RunState.started v s e =
    let (t, _, e') = >>=-eq-ok (hash_key trial) _ e in
    let (states, held, done) = >>=-eq-ok (finish run.states TrialState.completed t) _ e' in
    with_states-IsRunValid run next states s
      (finish-IsInOrder run.states TrialState.completed t states completes v.in_order held) done
advance_from-IsRunValid run next trial Action.failed RunState.started v s e =
    let (t, _, e') = >>=-eq-ok (hash_key trial) _ e in
    let (states, held, done) = >>=-eq-ok (finish run.states TrialState.failed t) _ e' in
    with_states-IsRunValid run next states s
      (finish-IsInOrder run.states TrialState.failed t states fails v.in_order held) done
advance_from-IsRunValid run next trial _ _ v s e =
    let w = v.waiting in let o = v.in_order in ground arith

all_waiting-AllWaiting : (ids : List String) → AllWaiting (all_waiting ids)
all_waiting-AllWaiting [] = tt
all_waiting-AllWaiting (t ∷ ids) = (refl, all_waiting-AllWaiting ids)

pub record IsValid (a : Attempts) : Type 0 where
  pub runs : All (λ e. IsRunValid e.1) a.runs
  pub count : length a.runs ≤ max_runs
  pub headed : a.header ≡ false → a.runs ≡ []

insert-All :
    (k : String) (run : Run) (runs : Dict Run)
    → IsRunValid run
    → All (λ e. IsRunValid e.1) runs
    → All (λ e. IsRunValid e.1) (insert k run runs)
unfolding insert
insert-All k run [] v h = (v, tt)
insert-All k run ((j, r) ∷ runs) v h = elim (Bool-cases (j == k)) [
  | inl e ↦ rw (All, insert, e) (v, h.1)
  | inr e ↦ rw (All, insert, e) (h.0, insert-All k run runs v h.1)
]

lookup-All :
    (k : String) (run : Run) (runs : Dict Run)
    → All (λ e. IsRunValid e.1) runs
    → lookup k runs ≡ some run
    → IsRunValid run
unfolding lookup
lookup-All k run [] h e = cc
lookup-All k run ((j, r) ∷ runs) h e = elim (Bool-cases (j == k)) [
  | inl q ↦ subst IsRunValid (ground arith) h.0
  | inr q ↦ lookup-All k run runs h.1 (rw q at e)
]

length-insert-le :
    (k : String) (run : Run) (runs : Dict Run)
    → length runs < max_runs
    → length (insert k run runs) ≤ max_runs
length-insert-le k run runs h = ground (arith, length-insert k run runs)

plan_run-IsValid :
    (a next : Attempts) (event : Fields) (run_id : Option String)
    → IsValid a
    → a.header ≡ true
    → plan_run a event run_id ≡ ok next
    → IsValid next
unfolding plan_run
plan_run-IsValid a next event none v h e = cc
plan_run-IsValid a next event (some run_id) v h e =
    let (_, room, more) =
      >>=-eq-ok
        (require (not (has run_id a.runs) && ltb (length a.runs) max_runs)
          "invalid_paired_authorization")
        _ e in
    let (ids, _, done) = >>=-eq-ok (checked_trials (get "trials" event)) _ more in
    let waiting = all_waiting-AllWaiting ids in
    subst IsValid (ok-injective done) (record {
      runs =
          insert-All run_id _ a.runs
            (record {
              in_order = AllWaiting-IsInOrder (all_waiting ids) waiting;
              waiting = λ _. waiting;
            })
            v.runs;
      count = length-insert-le run_id _ a.runs (ground (arith, require-eq-ok _ _ room));
      headed = λ p. cc;
    })

move_run-IsValid :
    (a next : Attempts) (action : Action) (event : Fields) (run_id : Option String)
    → IsValid a
    → a.header ≡ true
    → move_run a action event run_id ≡ ok next
    → IsValid next
unfolding move_run advance
move_run-IsValid a next action event none v h e = cc
move_run-IsValid a next action event (some run_id) v h e =
    elim (Option-cases (lookup run_id a.runs)) [
      | inl absent ↦ cc (rw (absent, move_run) at e)
      | inr (run, found) ↦
          let (run', moved, done) =
            >>=-eq-ok (advance run action (get "trial_id" event)) _ (rw (found, move_run) at e) in
          subst IsValid (ok-injective done) (record {
            runs =
                insert-All run_id run' a.runs
                  (advance_from-IsRunValid run run' (get "trial_id" event) action run.state
                    (lookup-All run_id run a.runs v.runs found) refl moved)
                  v.runs;
            count =
                rw (length-insert run_id run' a.runs, has_of_lookup run_id a.runs run found)
                  v.count;
            headed = λ p. cc;
          })
    ]

-- The three ways in which an event is applied.
data Applied (a next : Attempts) (event : Fields) (action : Action) : Type 0 where
  starts : next ≡ record a { header = true } → Applied a next event action
  plans :
      (run_id : Option String)
      → a.header ≡ true
      → plan_run a event run_id ≡ ok next
      → Applied a next event action
  moves :
      (run_id : Option String)
      → a.header ≡ true
      → move_run a action event run_id ≡ ok next
      → Applied a next event action

apply_action-Applied :
    (a next : Attempts) (event : Fields) (action : Action)
    → apply_action a event action ≡ ok next
    → Applied a next event action
unfolding apply_action
apply_action-Applied a next event action e =
    elim (Bool-cases (is_created action && (not a.header && is_empty a.runs))) [
      | inl new ↦ starts (sym (ok-injective (rw (new, apply_action) at e)))
      | inr old ↦ elim (Bool-cases a.header) [
        | inr bare ↦ cc (rw (old, bare, apply_action) at e)
        | inl headed ↦ elim (Bool-cases (is_planned action)) [
          | inl new_run ↦ plans (as_text (get "run_id" event)) headed (ground arith)
          | inr known ↦
              let e' : (hash_key (get "run_id" event) >>= move_run a action event) ≡ ok next =
                ground arith in
              let (run_id, _, moved) = >>=-eq-ok (hash_key (get "run_id" event)) _ e' in
              moves run_id headed moved
        ]
      ]
    ]

Applied-IsValid :
    (a next : Attempts) (event : Fields) (action : Action)
    → IsValid a
    → Applied a next event action
    → IsValid next
Applied-IsValid a next event action v (starts e) =
    rw e (record { runs = v.runs; count = v.count; headed = λ p. cc })
Applied-IsValid a next event action v (plans run_id h e) =
    plan_run-IsValid a next event run_id v h e
Applied-IsValid a next event action v (moves run_id h e) =
    move_run-IsValid a next action event run_id v h e

-- An event that is applied keeps the ledger valid: every run has its trials in order, a run that is
-- only planned has none consumed, there are at most 64 runs, and none before the header.
pub apply-IsValid :
    (a next : Attempts) (event : Value) → IsValid a → apply a event ≡ ok next → IsValid next
unfolding apply
apply-IsValid a next (dict event) v e =
    let action = action_of (get "action" event) in
    Applied-IsValid a next event action v (apply_action-Applied a next event action (ground arith))
apply-IsValid a next _ v e = cc

pub fresh-IsValid : IsValid fresh
fresh-IsValid = record { runs = tt; count = omega arith; headed = λ p. refl }

plan_run-header :
    (a next : Attempts) (event : Fields) (run_id : Option String)
    → plan_run a event run_id ≡ ok next
    → next.header ≡ a.header
unfolding plan_run
plan_run-header a next event none e = cc
plan_run-header a next event (some run_id) e = ground arith

move_run-header :
    (a next : Attempts) (action : Action) (event : Fields) (run_id : Option String)
    → move_run a action event run_id ≡ ok next
    → next.header ≡ a.header
unfolding move_run
move_run-header a next action event none e = cc
move_run-header a next action event (some run_id) e = ground arith

Applied-header :
    (a next : Attempts) (event : Fields) (action : Action)
    → Applied a next event action
    → next.header ≡ true
Applied-header a next event action (starts e) = rw e
Applied-header a next event action (plans run_id h e) = plan_run-header a next event run_id e ∙ h
Applied-header a next event action (moves run_id h e) =
    move_run-header a next action event run_id e ∙ h

-- No event is applied before the header, and none takes it away.
pub apply-header :
    (a next : Attempts) (event : Value) → apply a event ≡ ok next → next.header ≡ true
unfolding apply
apply-header a next (dict event) e =
    let action = action_of (get "action" event) in
    Applied-header a next event action (apply_action-Applied a next event action (ground arith))
apply-header a next _ e = cc
