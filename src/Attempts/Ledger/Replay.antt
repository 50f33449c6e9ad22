-- ===== src/Attempts/Ledger/Replay.antt =====
-- Lemmas about the loop of `__init__` in benchmarks/_paired_attempts.py on lines of events.
use grepglint.Base.{
  ℕ, zero, suc, ◌+◌, ◌≤◌, ◌<◌, ◌≡◌, refl, Bool, true, false, List, [], ◌∷◌, ◌++◌, append_assoc,
  arith, eqb, le→leb, length, length-append, any, All,
}
use grepglint.Base.Json.{Value}
use grepglint.Base.Result.{Result, ◌>>=◌, >>=-eq-ok, ok}
use grepglint.Attempts.Ledger.{
  newline, event_bytes, readline, ends_newline, line_of, replay_one, after_line, replay,
}
use grepglint.Attempts.Transition.{Attempts, apply}

abbrev pub has_newline : List ℕ → Bool
has_newline = any (λ b. eqb b newline)

readline-append :
    (limit : ℕ) (body rest : List ℕ)
    → has_newline body ≡ false
    → length body < limit
    → readline limit (body ++ newline ∷ rest) ≡ (body ++ newline ∷ [], rest)
unfolding readline
readline-append zero body rest h k = absurd (omega arith)
readline-append (suc n) [] rest h k = refl
readline-append (suc n) (b ∷ body) rest h k = ground (arith, readline-append n body rest)

-- A last line that is torn off is read up to the end of the file.
pub readline_torn :
    (limit : ℕ) (body : List ℕ)
    → has_newline body ≡ false
    → length body ≤ limit
    → readline limit body ≡ (body, [])
unfolding readline
readline_torn zero [] h k = refl
readline_torn zero (b ∷ body) h k = absurd (omega arith)
readline_torn (suc n) [] h k = refl
readline_torn (suc n) (b ∷ body) h k = ground (arith, readline_torn n body)

ends_newline-append : (body : List ℕ) → ends_newline (body ++ newline ∷ []) ≡ true
unfolding ends_newline
ends_newline-append [] = refl
ends_newline-append (b ∷ []) = refl
ends_newline-append (b ∷ c ∷ body) = ends_newline-append (c ∷ body)

pub not-ends_newline : (body : List ℕ) → has_newline body ≡ false → ends_newline body ≡ false
unfolding ends_newline
not-ends_newline [] h = refl
not-ends_newline (b ∷ []) h = ground arith
not-ends_newline (b ∷ c ∷ body) h = not-ends_newline (c ∷ body) (ground arith)

module _ (encode : Value → List ℕ) (decode : List ℕ → Result Value) where
  abbrev line : Value → List ℕ
  line = line_of encode decode

  -- The codec serves this event: its line is short, holds one newline, and reads back.
  pub record IsLine (event : Value) : Type 0 where
    pub one_line : has_newline (encode event) ≡ false
    pub short : length (encode event) < event_bytes
    pub reads_back : decode (line event) ≡ ok event

  abbrev pub file_of : List Value → List ℕ
  file_of [] = []
  file_of (e ∷ es) = line e ++ file_of es

  abbrev pub apply_all : Attempts → List Value → Result Attempts
  apply_all a [] = ok a
  apply_all a (e ∷ es) = do next ← apply a e; apply_all next es

  cons_line : (event : Value) → (b : ℕ) × (more : List ℕ) × (line event ≡ b ∷ more)
  cons_line event = go (encode event)
    where
      go : (body : List ℕ) → (b : ℕ) × (more : List ℕ) × (body ++ newline ∷ [] ≡ b ∷ more)
      go [] = (newline, [], refl)
      go (b ∷ body) = (b, body ++ newline ∷ [], refl)

  read_line :
      (event : Value) (rest : List ℕ)
      → IsLine event
      → readline (event_bytes + 1) (line event ++ rest) ≡ (line event, rest)
  read_line event rest h =
      rw append_assoc
        (readline-append (event_bytes + 1) (encode event) rest h.one_line (omega (arith, h.short)))

  length-line : (event : Value) → length (line event) ≡ length (encode event) + 1
  length-line event = length-append (encode event) (newline ∷ [])

  replay_one-line :
      (a next : Attempts) (count : ℕ) (event : Value)
      → IsLine event
      → apply a event ≡ ok next
      → replay_one encode decode a count (line event) ≡ ok (next, count + length (line event))
  unfolding replay_one
  replay_one-line a next count event h e = rw (
    le→leb (length (line event)) event_bytes (omega (arith, length-line event, h.short)),
    ends_newline-append (encode event),
    h.reads_back,
    e,
  )

  after_line_lem :
      (continue : Attempts → ℕ → List ℕ → Result (Attempts × ℕ)) (a next : Attempts)
      (count count' : ℕ) (line rest : List ℕ)
      → 0 < length line
      → replay_one encode decode a count line ≡ ok (next, count')
      → after_line encode decode continue a count (line, rest) ≡ continue next count' rest
  after_line_lem continue a next count count' [] rest k q = absurd (omega arith)
  after_line_lem continue a next count count' (b ∷ more) rest k q = unfold after_line in rw q

  -- One round of the loop on a file that begins with an event's line.
  replay-line :
      (fuel : ℕ) (a next : Attempts) (count : ℕ) (event : Value) (rest : List ℕ)
      → IsLine event
      → apply a event ≡ ok next
      → replay encode decode (suc fuel) a count (line event ++ rest)
        ≡ replay encode decode fuel next (count + length (line event)) rest
  replay-line fuel a next count event rest h e =
      unfold replay in
      rw (read_line event rest h) (
        after_line_lem (replay encode decode fuel) a next count (count + length (line event))
          (line event) rest (omega (arith, length-line event))
          (replay_one-line a next count event h e))

  pub replay-file :
      (fuel : ℕ) (a final : Attempts) (count : ℕ) (events : List Value) (rest : List ℕ)
      → All IsLine events
      → apply_all a events ≡ ok final
      → replay encode decode (length events + fuel) a count (file_of events ++ rest)
        ≡ replay encode decode fuel final (count + length (file_of events)) rest
  replay-file fuel a final count [] rest h e = ground arith
  replay-file fuel a final count (event ∷ events) rest h e =
      let (next, one, more) = >>=-eq-ok (apply a event) _ e in
      ground (
        arith,
        append_assoc (line event) (file_of events) rest,
        length-append (line event) (file_of events),
        replay-line (length events + fuel) a next count event (file_of events ++ rest) h.0 one,
        replay-file fuel next final (count + length (line event)) events rest h.1 more,
      )
