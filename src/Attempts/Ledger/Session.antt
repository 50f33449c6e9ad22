-- ===== src/Attempts/Ledger/Session.antt =====
-- The processes that share the ledger's file one after another, and files that a crash has left:
-- `Attempts` of benchmarks/_paired_attempts.py.
use grepglint.Base.{
  ℕ, suc, ◌+◌, ◌-◌, ◌≤◌, ◌<◌, ◌≡◌, refl, sym, ap, ◌∙◌, subst, ◌⊎◌, true, false, List, [], ◌∷◌, ◌++◌,
  arith, length, length-append, take,
}
use grepglint.Base.Json.{Value, Fields}
use grepglint.Base.Result.{Exception, Result, >>=-eq-ok, ok-injective, probe, err, ok}
use grepglint.Attempts.Ledger.{
  max_bytes, event_bytes, Ledger, Outcome, Found, created_event, line_of, replay_one, after_line,
  replay, after_apply, append, load, raised, wrote, after_write,
}
use grepglint.Attempts.Transition.{Attempts, apply, fresh, stamped}
use grepglint.Attempts.Ledger.Replay.{
  has_newline, readline_torn, not-ends_newline, IsLine, apply_all, replay-file,
}
use grepglint.Attempts.Ledger.Reload.{
  IsWritten, existing, length-events-le, replay_end, load-IsWritten, append-eq-ok, append-IsWritten,
}
use grepglint.Attempts.Transition.Order.{IsValid, apply-IsValid, fresh-IsValid, apply-header}

module _ (encode : Value → List ℕ) (decode : List ℕ → Result Value) where
  abbrev pub new_file : Found
  new_file = record { created = true; safe = true; unlocked = true; content = [] }

  -- The ledgers that calls which return lead to, where the codec serves the events.
  pub data Session : Ledger → Type 0 where
    creates :
        {l : Ledger} (now : Value) (outcome : Outcome)
        → IsLine encode decode (stamped now created_event)
        → load encode decode new_file now outcome ≡ (ok tt, l)
        → Session l
    appends :
        {l next : Ledger} (now : Value) (outcome : Outcome) (event : Fields)
        → Session l
        → IsLine encode decode (stamped now event)
        → append encode decode l now outcome event ≡ (ok tt, next)
        → Session next
    reopens :
        {l next : Ledger} (now : Value) (outcome : Outcome)
        → Session l
        → load encode decode (existing encode decode l.file) now outcome ≡ (ok tt, next)
        → Session next

  abbrev bare : Ledger
  bare = record { attempts = fresh; poisoned = false; bytes = 0; file = [] }

  bare-IsWritten : IsWritten encode decode bare
  bare-IsWritten = record {
    events = [];
    lines = tt;
    holds = refl;
    applied = refl;
    counted = refl;
    sound = refl;
    fits = omega arith;
  }

  load-new_file :
      (now : Value) (outcome : Outcome)
      → load encode decode new_file now outcome
        ≡ append encode decode bare now outcome created_event
  unfolding load
  load-new_file now outcome = rw (replay_end encode decode 0 fresh 0)

  append-header :
      (l next : Ledger) (now : Value) (outcome : Outcome) (event : Fields)
      → append encode decode l now outcome event ≡ (ok tt, next)
      → next.attempts.header ≡ true
  append-header l next now outcome event e =
      let (a, _, _, applied, done) = append-eq-ok encode decode l next now outcome event e in
      rw done (apply-header l.attempts a (stamped now event) applied)

  Session-IsWritten :
      {l : Ledger} → Session l → IsWritten encode decode l × (l.attempts.header ≡ true)
  Session-IsWritten (creates {l = next} now outcome h e) =
      let e' = rw load-new_file at e in
      (
        append-IsWritten encode decode bare next now outcome created_event bare-IsWritten h e',
        append-header bare next now outcome created_event e',
      )
  Session-IsWritten (appends {l = l} {next = next} now outcome event s h e) = (
    append-IsWritten encode decode l next now outcome event (Session-IsWritten s).0 h e,
    append-header l next now outcome event e,
  )
  Session-IsWritten (reopens {l = l} now outcome s e) =
      let (w, headed) = Session-IsWritten s in
      let same = load-IsWritten encode decode l now outcome w headed in
      subst (λ m. IsWritten encode decode m × (m.attempts.header ≡ true))
        (ap (λ p. p.1) (sym same ∙ e)) (w, headed)

  -- For a ledger that calls of `load` and `append` which return lead to, with events that the codec
  -- reads back, opening its file gives the very object that wrote it: the same header, runs and
  -- byte count, with no event lost or doubled.
  pub load_session :
      {l : Ledger} (now : Value) (outcome : Outcome)
      → Session l
      → load encode decode (existing encode decode l.file) now outcome ≡ (ok tt, l)
  load_session {l} now outcome s =
      let (w, headed) = Session-IsWritten s in load-IsWritten encode decode l now outcome w headed

  apply_all-IsValid :
      (events : List Value) (a final : Attempts)
      → IsValid a
      → apply_all encode decode a events ≡ ok final
      → IsValid final
  apply_all-IsValid [] a final v e = subst IsValid (ok-injective e) v
  apply_all-IsValid (x ∷ events) a final v e =
      let (next, one, more) = >>=-eq-ok (apply a x) _ e in
      apply_all-IsValid events next final (apply-IsValid a next x v one) more

  -- In every ledger that calls of `load` and `append` which return lead to, with events that the
  -- codec reads back, each run has its trials consumed in order, and the file stays within its limit.
  pub Session-IsValid : {l : Ledger} → Session l → IsValid l.attempts × (length l.file ≤ max_bytes)
  Session-IsValid s =
      let w = (Session-IsWritten s).0 in
      (apply_all-IsValid w.events fresh _ fresh-IsValid w.applied, omega (arith, w.counted, w.fits))

  replay_one_torn :
      (a : Attempts) (count : ℕ) (torn : List ℕ)
      → has_newline torn ≡ false
      → replay_one encode decode a count torn ≡ err (probe "partial_attempt_ledger_preserved")
  unfolding replay_one
  replay_one_torn a count torn h = ground (arith, not-ends_newline torn h)

  replay_torn :
      (fuel : ℕ) (a : Attempts) (count : ℕ) (torn : List ℕ)
      → 0 < length torn
      → length torn ≤ event_bytes
      → has_newline torn ≡ false
      → replay encode decode (suc fuel) a count torn
        ≡ err (probe "partial_attempt_ledger_preserved")
  unfolding replay after_line
  replay_torn fuel a count [] k m h = absurd (omega arith)
  replay_torn fuel a count (b ∷ torn) k m h = rw (
    readline_torn (event_bytes + 1) (b ∷ torn) h (omega arith),
    replay_one_torn a count (b ∷ torn) h,
  )

  -- For such a ledger of calls of `load` and `append` that returned, with events that the codec
  -- reads back: if its file ends in bytes without a newline, as a write that was cut off leaves them,
  -- at most as many as an event may have, and is within its limit, then opening the file raises.
  pub load_torn :
      {l : Ledger} (torn : List ℕ) (now : Value) (outcome : Outcome)
      → Session l
      → 0 < length torn
      → length torn ≤ event_bytes
      → has_newline torn ≡ false
      → length (l.file ++ torn) ≤ max_bytes
      → (load encode decode (existing encode decode (l.file ++ torn)) now outcome).0
        ≡ err (probe "partial_attempt_ledger_preserved")
  unfolding load
  load_torn {l} torn now outcome s k m h fits =
      let w = (Session-IsWritten s).0 in
      let content = l.file ++ torn in
      let spare = length content - length w.events in
      let read : replay encode decode (suc (length content)) fresh 0 content
          ≡ err (probe "partial_attempt_ledger_preserved") =
        ground (
          arith,
          w.holds,
          length-append l.file torn,
          length-events-le encode decode w.events,
          replay-file encode decode (suc spare) fresh l.attempts 0 w.events torn w.lines w.applied,
          replay_torn spare l.attempts (length l.file) torn k m h,
        ) in
      ground (arith, read, fits)

  -- The bytes that reach the file.
  abbrev pub reached : Outcome → ℕ
  reached (raised n) = n
  reached (wrote n) = n

  abbrev pub Poisons : Ledger → List ℕ → Outcome → Ledger → Type 0
  Poisons l line outcome next =
      (next.poisoned ≡ true) × (next.file ≡ l.file ++ take (reached outcome) line)

  after_apply_raises :
      (l next : Ledger) (line : List ℕ) (outcome : Outcome) (r : Result Attempts) (e : Exception)
      → after_apply encode decode l line outcome r ≡ (err e, next)
      → (next ≡ l) ⊎ Poisons l line outcome next
  unfolding after_apply after_write
  after_apply_raises l next line outcome (err x) e h = ground arith
  after_apply_raises l next line (raised n) (ok a) e h = ground arith
  after_apply_raises l next line (wrote n) (ok a) e h = ground arith

  -- A call of `append` that raises has left everything as it was, or it has poisoned the object and
  -- added to the file those bytes of the event's line that reached it.
  pub append_raises :
      (l next : Ledger) (now : Value) (outcome : Outcome) (event : Fields) (e : Exception)
      → append encode decode l now outcome event ≡ (err e, next)
      → (next ≡ l) ⊎ Poisons l (line_of encode decode (stamped now event)) outcome next
  unfolding append
  append_raises l next now outcome event e h =
      let line = line_of encode decode (stamped now event) in
      ground
        (arith, after_apply_raises l next line outcome (apply l.attempts (stamped now event)) e)
