-- ===== src/Attempts/Ledger.antt =====
-- The file of `Attempts` in benchmarks/_paired_attempts.py: `__init__` reads it, `append` writes
-- to it. The JSON codec is a parameter: `encode` is `encoded` of benchmarks/_codex_audit.py and
-- `decode` is `json_value` of benchmarks/_codex_capture.py.
pub mod Replay
pub mod Reload
pub mod Session
use grepglint.Base.{
  ℕ, zero, suc, ◌+◌, ◌*◌, Bool, true, false, not, ◌&&◌, ◌||◌, List, [], ◌∷◌, ◌++◌, ltb, leb, eqb,
  if◌then◌else◌, length, take,
}
use grepglint.Base.Json.{Value, Fields, str, no_fields, field}
use grepglint.Base.Result.{Result, ◌>>=◌, require, ◌>>◌, probe, os_error, err, ok}
use grepglint.Attempts.Transition.{Attempts, apply, fresh, stamped}

abbrev pub newline : ℕ
newline = 10

abbrev pub max_bytes : ℕ
max_bytes = 16 * 1024 * 1024

abbrev pub event_bytes : ℕ
event_bytes = 64 * 1024

-- `file` holds the bytes of the ledger's file; the other fields are those of the object.
pub record Ledger : Type 0 where
  pub attempts : Attempts
  pub poisoned : Bool
  pub bytes : ℕ
  pub file : List ℕ

-- How `os.write` and `os.fsync` end: with an exception after so many bytes have reached the file,
-- or with the count that `write` returns.
pub data Outcome : Type 0 where
  raised wrote : ℕ → Outcome

-- `stream.readline(limit)`: up to a newline, or to the limit, or to the end of the file.
unfoldable pub readline : ℕ → List ℕ → List ℕ × List ℕ
readline zero bs = ([], bs)
readline (suc n) [] = ([], [])
readline (suc n) (b ∷ bs) = elim (eqb b newline) [
  | true ↦ (b ∷ [], bs)
  | false ↦ (let (line, rest) = readline n bs in (b ∷ line, rest))
]

pub ends_newline : List ℕ → Bool
ends_newline [] = false
ends_newline (b ∷ []) = eqb b newline
ends_newline (b ∷ c ∷ bs) = ends_newline (c ∷ bs)

-- What `__init__` finds: whether it created the file, whether the file is regular, owned and
-- private, whether the lock is free, and the file's bytes.
pub record Found : Type 0 where
  pub created : Bool
  pub safe : Bool
  pub unlocked : Bool
  pub content : List ℕ

abbrev pub created_event : Fields
created_event = field "action" (str "created") no_fields

module _ (encode : Value → List ℕ) (decode : List ℕ → Result Value) where
  abbrev pub line_of : Value → List ℕ
  line_of event = encode event ++ newline ∷ []

  -- The body of the `while` loop of `__init__`: `a` and `count` are the object's fields so far.
  pub replay_one : Attempts → ℕ → List ℕ → Result (Attempts × ℕ)
  replay_one a count line = do
    require (leb (length line) event_bytes && ends_newline line) "partial_attempt_ledger_preserved"
    event ← decode line
    next ← apply a event
    ok (next, count + length line)

  -- A line of no bytes is the end of the file.
  unfoldable pub after_line :
      (Attempts → ℕ → List ℕ → Result (Attempts × ℕ))
      → Attempts
      → ℕ
      → List ℕ × List ℕ
      → Result (Attempts × ℕ)
  unfolding replay_one
  after_line continue a count ([], rest) = ok (a, count)
  after_line continue a count (b ∷ more, rest) = do
    next ← replay_one a count (b ∷ more)
    continue next.0 next.1 rest

  -- The loop, on fuel.
  unfoldable pub replay : ℕ → Attempts → ℕ → List ℕ → Result (Attempts × ℕ)
  unfolding after_line
  replay zero a count bs = ok (a, count)
  replay (suc fuel) a count bs = after_line (replay fuel) a count (readline (event_bytes + 1) bs)

  after_write : Ledger → Attempts → List ℕ → Outcome → Result (Unit {0}) × Ledger
  after_write l next line (raised reached) = (
    err os_error,
    record l { attempts = next; poisoned = true; file = l.file ++ take reached line },
  )
  after_write l next line (wrote count) =
      let written : Ledger = record l {
        attempts = next;
        bytes = l.bytes + count;
        file = l.file ++ take count line;
      } in
      if eqb count (length line)
      then (ok tt, written)
      else (err (probe "partial_attempt_ledger_preserved"), record written { poisoned = true })

  -- What `apply` raises leaves all as it was.
  unfoldable pub after_apply :
      Ledger → List ℕ → Outcome → Result Attempts → Result (Unit {0}) × Ledger
  unfolding after_write
  after_apply l line outcome (ok next) = after_write l next line outcome
  after_apply l line outcome (err e) = (err e, l)

  unfoldable pub append : Ledger → Value → Outcome → Fields → Result (Unit {0}) × Ledger
  append l now outcome event =
      if l.poisoned
      then (err (probe "failed_attempt_write_preserved"), l)
      else let line = line_of (stamped now event) in
        if ltb event_bytes (length line) || ltb max_bytes (l.bytes + length line)
        then (err (probe "attempt_history_capacity_exhausted_preserve_ledger"), l)
        else after_apply l line outcome (apply l.attempts (stamped now event))

  after_replay : Found → Value → Outcome → Result (Attempts × ℕ) → Result (Unit {0}) × Ledger
  unfolding append
  after_replay found now outcome (err e) =
      (err e, record { attempts = fresh; poisoned = false; bytes = 0; file = found.content })
  after_replay found now outcome (ok (a, count)) =
      let l : Ledger = record {
        attempts = a;
        poisoned = false;
        bytes = count;
        file = found.content;
      } in
      if found.created
      then append l now outcome created_event
      else if a.header
      then (ok tt, l)
      else (err (probe "empty_attempt_ledger_preserved"), l)

  -- `__init__`, once `private_directory` has returned. A file that it created is empty, and gets the
  -- first event. The `fsync` of the directory at the end is left out.
  unfoldable pub load : Found → Value → Outcome → Result (Unit {0}) × Ledger
  unfolding after_replay
  load found now outcome =
      let bare : Ledger = record {
        attempts = fresh;
        poisoned = false;
        bytes = 0;
        file = found.content;
      } in
      if not found.safe || ltb max_bytes (length found.content)
      then (err (probe "invalid_paired_attempt_ledger"), bare)
      else if not found.unlocked
      then (err (probe "another_account_benchmark_is_active"), bare)
      else after_replay found now outcome
          (replay (suc (length found.content)) fresh 0 found.content)
