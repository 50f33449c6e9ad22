-- ===== src/Attempts/Transition/InOrder.antt =====
-- The order of the trials of a run, and lemmas about the branches of `Attempts.apply` in
-- benchmarks/_paired_attempts.py on a run that is started.
use grepglint.Base.{String, ◌≡◌, refl, Option, none, some, [], ◌∷◌, arith, eq_iff, All}
use grepglint.Attempts.Transition.{
  finish, TrialState, first_pending, reserve, reserve_at, finish_at,
}
use grepglint.Base.Dict.{Dict, lookup, insert}
use grepglint.Base.Result.{ok}

abbrev pub AllWaiting : Dict TrialState → Type 0
AllWaiting = All (λ e. e.1 ≡ TrialState.not_started)

-- Completed trials come first, then at most one that is reserved or failed, then trials that are
-- not started.
abbrev pub IsInOrder : Dict TrialState → Type 0
IsInOrder [] = Unit
IsInOrder ((t, TrialState.completed) ∷ states) = IsInOrder states
IsInOrder ((t, state) ∷ states) = AllWaiting states

pub AllWaiting-IsInOrder : (states : Dict TrialState) → AllWaiting states → IsInOrder states
AllWaiting-IsInOrder [] h = tt
AllWaiting-IsInOrder ((t, TrialState.not_started) ∷ states) h = h.1
AllWaiting-IsInOrder ((t, _) ∷ states) h = cc

pub lookup-AllWaiting :
    (k : String) (states : Dict TrialState) (state : TrialState)
    → AllWaiting states
    → lookup k states ≡ some state
    → state ≡ TrialState.not_started
unfolding lookup
lookup-AllWaiting k [] state w h = cc
lookup-AllWaiting k ((t, s) ∷ states) state w h = ground (arith, lookup-AllWaiting k states state)

pub insert-reserved-IsInOrder :
    (t : String) (states : Dict TrialState)
    → IsInOrder states
    → first_pending states ≡ some t
    → lookup t states ≡ some TrialState.not_started
    → IsInOrder (insert t TrialState.reserved states)
unfolding first_pending lookup insert
insert-reserved-IsInOrder t [] o p l = cc
insert-reserved-IsInOrder t ((j, TrialState.completed) ∷ states) o p l =
    ground (arith, insert-reserved-IsInOrder t states)
insert-reserved-IsInOrder t ((j, _) ∷ states) o p l = ground (arith, eq_iff j t)

-- The state in which a reserved trial ends.
pub data Ends : TrialState → Type 0 where
  completes : Ends TrialState.completed
  fails : Ends TrialState.failed

pub insert-end-IsInOrder :
    (t : String) (last : TrialState) (states : Dict TrialState)
    → Ends last
    → IsInOrder states
    → lookup t states ≡ some TrialState.reserved
    → IsInOrder (insert t last states)
unfolding lookup insert
insert-end-IsInOrder t last [] n o l = cc
insert-end-IsInOrder t last ((j, TrialState.completed) ∷ states) n o l =
    ground (arith, insert-end-IsInOrder t last states n)
insert-end-IsInOrder t TrialState.completed ((j, TrialState.reserved) ∷ states) n o l =
    ground (arith, AllWaiting-IsInOrder states o, lookup-AllWaiting t states TrialState.reserved o)
insert-end-IsInOrder t TrialState.failed ((j, TrialState.reserved) ∷ states) n o l =
    ground (arith, lookup-AllWaiting t states TrialState.reserved o)
insert-end-IsInOrder t last ((j, _) ∷ states) n o l =
    ground (arith, lookup-AllWaiting t states TrialState.reserved o)

-- What a reservation that succeeds has seen and done.
pub reserve-eq-ok :
    (states : Dict TrialState) (first trial : Option String) (next : Dict TrialState)
    → reserve states first trial ≡ ok next
    → (t : String) × (first ≡ some t)
      × (trial ≡ some t)
      × (lookup t states ≡ some TrialState.not_started)
      × (next ≡ insert t TrialState.reserved states)
unfolding reserve reserve_at
reserve-eq-ok states none trial next e = cc
reserve-eq-ok states (some f) none next e = cc
reserve-eq-ok states (some f) (some t) next e =
    (t, ground (arith, eq_iff f t), refl, ground arith, ground arith)

pub reserve-IsInOrder :
    (states : Dict TrialState) (trial : Option String) (next : Dict TrialState)
    → IsInOrder states
    → reserve states (first_pending states) trial ≡ ok next
    → IsInOrder next
reserve-IsInOrder states trial next o e =
    let (t, first, _, waits, done) = reserve-eq-ok states (first_pending states) trial next e in
    rw done (insert-reserved-IsInOrder t states o first waits)

pub finish-eq-ok :
    (states : Dict TrialState) (state : TrialState) (trial : Option String) (next : Dict TrialState)
    → finish states state trial ≡ ok next
    → (t : String) × (trial ≡ some t)
      × (lookup t states ≡ some TrialState.reserved)
      × (next ≡ insert t state states)
unfolding finish finish_at
finish-eq-ok states state none next e = cc
finish-eq-ok states state (some t) next e = (t, refl, ground arith, ground arith)

pub finish-IsInOrder :
    (states : Dict TrialState) (state : TrialState) (trial : Option String) (next : Dict TrialState)
    → Ends state
    → IsInOrder states
    → finish states state trial ≡ ok next
    → IsInOrder next
finish-IsInOrder states state trial next n o e =
    let (t, _, held, done) = finish-eq-ok states state trial next e in
    rw done (insert-end-IsInOrder t state states n o held)
