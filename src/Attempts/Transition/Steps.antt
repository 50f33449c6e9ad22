-- ===== src/Attempts/Transition/Steps.antt =====
-- The steps of a run, and lemmas about the events that `Attempts.apply` of
-- benchmarks/_paired_attempts.py accepts.
use grepglint.Base.{
  ℕ, suc, ◌+◌, ◌*◌, ◌≤◌, String, ◌≡◌, refl, sym, ap, subst, inl, inr, Option, some, [], ◌∷◌, ◌++◌,
  arith, ◌==◌, Bool-cases, length,
}
use grepglint.Attempts.Transition.{
  finish, Action, RunState, TrialState, Run, first_pending, reserve, advance, hash_key,
  advance_from,
}
use grepglint.Base.Json.{Value, as_text}
use grepglint.Base.Dict.{Dict, lookup, insert}
use grepglint.Base.Result.{>>=-eq-ok, ok-injective, ok}
use grepglint.Attempts.Transition.InOrder.{reserve-eq-ok, finish-eq-ok}
use grepglint.Attempts.Transition.Progress.{
  Accepted, progress-le, Accepted-progress, none_yet, one_more,
}

pub data Moves : TrialState → TrialState → Type 0 where
  reserves : Moves TrialState.not_started TrialState.reserved
  completes_it : Moves TrialState.reserved TrialState.completed
  fails_it : Moves TrialState.reserved TrialState.failed

-- One trial moves, and the others stay as they are.
pub record OneMoves (before after : Dict TrialState) : Type 0 where
  pub first : Dict TrialState
  pub trial : String
  pub old : TrialState
  pub new : TrialState
  pub moves : Moves old new
  pub rest : Dict TrialState
  pub was : before ≡ first ++ (trial, old) ∷ rest
  pub is : after ≡ first ++ (trial, new) ∷ rest

-- A run that is planned is started or cancelled; one that is started is stopped, or one of its
-- trials moves. Nothing else changes.
pub data Step (run next : Run) : Type 0 where
  starts :
      run.state ≡ RunState.planned → next ≡ record run { state = RunState.started } → Step run next
  cancels :
      run.state ≡ RunState.planned → next ≡ record run { state = RunState.stopped } → Step run next
  stops :
      run.state ≡ RunState.started → next ≡ record run { state = RunState.stopped } → Step run next
  moves_on :
      (states : Dict TrialState)
      → run.state ≡ RunState.started
      → OneMoves run.states states
      → next ≡ record run { states = states }
      → Step run next

pub data Steps : Run → ℕ → Run → Type 0 where
  no_step : (run : Run) → Steps run 0 run
  one_step : {run mid next : Run} {n : ℕ} → Steps run n mid → Step mid next → Steps run (suc n) next

OneMoves-cons :
    (e : String × TrialState) (before after : Dict TrialState)
    → OneMoves before after
    → OneMoves (e ∷ before) (e ∷ after)
OneMoves-cons e before after m = record {
  first = e ∷ m.first;
  trial = m.trial;
  old = m.old;
  new = m.new;
  moves = m.moves;
  rest = m.rest;
  was = ap (λ l. e ∷ l) m.was;
  is = ap (λ l. e ∷ l) m.is;
}

insert-OneMoves :
    (t : String) (old new : TrialState) (states : Dict TrialState)
    → Moves old new
    → lookup t states ≡ some old
    → OneMoves states (insert t new states)
unfolding lookup insert
insert-OneMoves t old new [] m h = cc
insert-OneMoves t old new ((j, s) ∷ states) m h = elim (Bool-cases (j == t)) [
  | inl e ↦
      rw (insert, e)
        (record {
          first = [];
          trial = j;
          old = old;
          new = new;
          moves = m;
          rest = states;
          was = ap (λ x. (j, x) ∷ states) (some_state (rw (lookup, e) at h));
          is = refl;
        })
  | inr e ↦
      rw (insert, e)
        (OneMoves-cons (j, s) states (insert t new states)
          (insert-OneMoves t old new states m (rw (lookup, e) at h)))
]
  where
    some_state : {a b : TrialState} → some a ≡ some b → a ≡ b
    some_state h = cc

reserve-OneMoves :
    (states next : Dict TrialState) (trial : Option String)
    → reserve states (first_pending states) trial ≡ ok next
    → OneMoves states next
reserve-OneMoves states next trial e =
    let (t, _, _, was, stored) = reserve-eq-ok states (first_pending states) trial next e in
    subst (OneMoves states) (sym stored)
      (insert-OneMoves t TrialState.not_started TrialState.reserved states reserves was)

finish-OneMoves :
    (states next : Dict TrialState) (new : TrialState) (trial : Option String)
    → Moves TrialState.reserved new
    → finish states new trial ≡ ok next
    → OneMoves states next
finish-OneMoves states next new trial m e =
    let (t, _, was, stored) = finish-eq-ok states new trial next e in
    subst (OneMoves states) (sym stored) (insert-OneMoves t TrialState.reserved new states m was)

advance_from-Step :
    (run next : Run) (trial : Option Value) (action : Action) (state : RunState)
    → run.state ≡ state
    → advance_from run trial action state ≡ ok next
    → Step run next
unfolding advance_from
advance_from-Step run next trial Action.reserved RunState.started s e =
    let (states, held, done) =
      >>=-eq-ok (reserve run.states (first_pending run.states) (as_text trial)) _ e in
    moves_on states s (reserve-OneMoves run.states states (as_text trial) held)
      (sym (ok-injective done))
advance_from-Step run next trial Action.completed RunState.started s e =
    let (k, _, e') = >>=-eq-ok (hash_key trial) _ e in
    let (states, held, done) = >>=-eq-ok (finish run.states TrialState.completed k) _ e' in
    moves_on states s (finish-OneMoves run.states states TrialState.completed k completes_it held)
      (sym (ok-injective done))
advance_from-Step run next trial Action.failed RunState.started s e =
    let (k, _, e') = >>=-eq-ok (hash_key trial) _ e in
    let (states, held, done) = >>=-eq-ok (finish run.states TrialState.failed k) _ e' in
    moves_on states s (finish-OneMoves run.states states TrialState.failed k fails_it held)
      (sym (ok-injective done))
advance_from-Step run next trial Action.cancelled RunState.planned s e =
    cancels s (sym (ok-injective e))
advance_from-Step run next trial Action.started RunState.planned s e =
    starts s (sym (ok-injective e))
advance_from-Step run next trial Action.stopped RunState.started s e =
    stops s (sym (ok-injective e))
advance_from-Step run next trial _ _ s e = cc

Accepted-Steps : {run last : Run} {n : ℕ} → Accepted run n last → Steps run n last
unfolding advance
Accepted-Steps (none_yet run) = no_step run
Accepted-Steps (one_more {mid = mid} {next = next} action trial before e) =
    one_step (Accepted-Steps before) (advance_from-Step mid next trial action mid.state refl e)

-- The events that a run accepts are steps: each starts, cancels or stops the run and leaves its
-- trials as they are, or it moves one trial of a started run, from not started to reserved or from
-- there to completed or failed, and leaves all else as it is. A run of `k` trials accepts at most
-- `2 * k + 2` events after it is planned, whatever they are.
pub Accepted-le :
    (run last : Run) (n : ℕ)
    → Accepted run n last
    → (n ≤ 2 * length run.states + 2) × Steps run n last
Accepted-le run last n h = (omega (arith, Accepted-progress h, progress-le last), Accepted-Steps h)
