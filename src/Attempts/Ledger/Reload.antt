-- ===== src/Attempts/Ledger/Reload.antt =====
-- Lemmas about `__init__` after calls of `append` in benchmarks/_paired_attempts.py.
use grepglint.Base.{
  ℕ, zero, suc, ◌+◌, ◌-◌, ◌≤◌, ◌≡◌, refl, ap, true, false, List, [], ◌∷◌, ◌++◌, append_assoc,
  append-nil, arith, length, length-append, take, All, All-append,
}
use grepglint.Base.Json.{Value, Fields}
use grepglint.Base.Result.{Result, >>=-eq-ok, err, ok}
use grepglint.Attempts.Ledger.{
  newline, max_bytes, Ledger, Outcome, readline, Found, line_of, replay, after_apply, append, load,
  raised, wrote, after_write,
}
use grepglint.Attempts.Transition.{Attempts, apply, fresh, stamped}
use grepglint.Attempts.Ledger.Replay.{IsLine, file_of, apply_all, replay-file}

module _ (encode : Value → List ℕ) (decode : List ℕ → Result Value) where
  -- The object and its file agree.
  pub record IsWritten (l : Ledger) : Type 0 where
    pub events : List Value
    pub lines : All (IsLine encode decode) events
    pub holds : l.file ≡ file_of encode decode events
    pub applied : apply_all encode decode fresh events ≡ ok l.attempts
    pub counted : l.bytes ≡ length l.file
    pub sound : l.poisoned ≡ false
    pub fits : l.bytes ≤ max_bytes

  -- A file that is there, safe to open and not locked.
  abbrev pub existing : List ℕ → Found
  existing content = record { created = false; safe = true; unlocked = true; content = content }

  pub length-events-le :
      (events : List Value) → length events ≤ length (file_of encode decode events)
  length-events-le [] = omega arith
  length-events-le (e ∷ es) = omega (
    arith,
    length-events-le es,
    length-append (line_of encode decode e) (file_of encode decode es),
    length-append (encode e) (newline ∷ []),
  )

  pub replay_end :
      (fuel : ℕ) (a : Attempts) (count : ℕ)
      → replay encode decode (suc fuel) a count [] ≡ ok (a, count)
  unfolding replay readline
  replay_end fuel a count = refl

  replay_all :
      (events : List Value) (a : Attempts)
      → All (IsLine encode decode) events
      → apply_all encode decode fresh events ≡ ok a
      → let content = file_of encode decode events in
        replay encode decode (suc (length content)) fresh 0 content ≡ ok (a, length content)
  replay_all events a h e =
      let content = file_of encode decode events in
      let spare = length content - length events in
      ground (
        arith,
        length-events-le events,
        append-nil content,
        replay-file encode decode (suc spare) fresh a 0 events [] h e,
        replay_end spare a (length content),
      )

  -- A ledger whose file agrees with it is opened as it is.
  pub load-IsWritten :
      (l : Ledger) (now : Value) (outcome : Outcome)
      → IsWritten l
      → l.attempts.header ≡ true
      → load encode decode (existing l.file) now outcome ≡ (ok tt, l)
  unfolding load
  load-IsWritten l now outcome w headed =
      let read : replay encode decode (suc (length l.file)) fresh 0 l.file
          ≡ ok (l.attempts, l.bytes) =
        rw (w.counted, w.holds) (replay_all w.events l.attempts w.lines w.applied) in
      ground (arith, read, headed, w.counted, w.fits, w.sound)

  take_all : (xs : List ℕ) (n : ℕ) → n ≡ length xs → take n xs ≡ xs
  take_all [] zero h = refl
  take_all [] (suc n) h = refl
  take_all (x ∷ xs) zero h = absurd (omega arith)
  take_all (x ∷ xs) (suc n) h = ap (λ l. x ∷ l) (take_all xs n (omega arith))

  after_apply-eq-ok :
      (l next : Ledger) (line : List ℕ) (outcome : Outcome) (r : Result Attempts)
      → after_apply encode decode l line outcome r ≡ (ok tt, next)
      → (a : Attempts) × (r ≡ ok a)
        × (next ≡ record l { attempts = a; bytes = l.bytes + length line; file = l.file ++ line })
  unfolding after_apply after_write
  after_apply-eq-ok l next line outcome (err e) h = cc
  after_apply-eq-ok l next line (raised n) (ok a) h = cc
  after_apply-eq-ok l next line (wrote n) (ok a) h = (a, refl, ground (arith, take_all line n))

  -- What a call of `append` that returns has done.
  pub append-eq-ok :
      (l next : Ledger) (now : Value) (outcome : Outcome) (event : Fields)
      → append encode decode l now outcome event ≡ (ok tt, next)
      → let line = line_of encode decode (stamped now event) in
        (a : Attempts) × (l.bytes + length line ≤ max_bytes)
        × (l.poisoned ≡ false)
        × (apply l.attempts (stamped now event) ≡ ok a)
        × (next ≡ record l { attempts = a; bytes = l.bytes + length line; file = l.file ++ line })
  unfolding append
  append-eq-ok l next now outcome event h =
      let line = line_of encode decode (stamped now event) in
      let passed : (l.poisoned ≡ false)
          × (l.bytes + length line ≤ max_bytes)
          × (after_apply encode decode l line outcome (apply l.attempts (stamped now event))
              ≡ (ok tt, next)) =
        ground arith in
      let (a, applied, done) =
        after_apply-eq-ok l next line outcome (apply l.attempts (stamped now event)) passed.2 in
      (a, passed.1, passed.0, applied, done)

  file_of-append :
      (es : List Value) (e : Value)
      → file_of encode decode (es ++ e ∷ []) ≡ file_of encode decode es ++ line_of encode decode e
  file_of-append [] e = append-nil (line_of encode decode e)
  file_of-append (x ∷ es) e = ground (
    arith,
    file_of-append es e,
    append_assoc (line_of encode decode x) (file_of encode decode es) (line_of encode decode e),
  )

  apply_all-append :
      (es : List Value) (e : Value) (a b c : Attempts)
      → apply_all encode decode a es ≡ ok b
      → apply b e ≡ ok c
      → apply_all encode decode a (es ++ e ∷ []) ≡ ok c
  apply_all-append [] e a b c h k = ground arith
  apply_all-append (x ∷ es) e a b c h k =
      let (next, one, more) = >>=-eq-ok (apply a x) _ h in
      rw one (apply_all-append es e next b c more k)

  pub append-IsWritten :
      (l next : Ledger) (now : Value) (outcome : Outcome) (event : Fields)
      → IsWritten l
      → IsLine encode decode (stamped now event)
      → append encode decode l now outcome event ≡ (ok tt, next)
      → IsWritten next
  append-IsWritten l next now outcome event w h e =
      let (a, fits, sound, applied, done) = append-eq-ok l next now outcome event e in
      let sent = stamped now event in
      rw done (record {
        events = w.events ++ sent ∷ [];
        lines = All-append (IsLine encode decode) w.events (sent ∷ []) w.lines (h, tt);
        holds = rw (file_of-append w.events sent, w.holds);
        applied = apply_all-append w.events sent fresh l.attempts a w.applied applied;
        counted = omega (arith, w.counted, length-append l.file (line_of encode decode sent));
        sound = sound;
        fits = fits;
      })
