-- ===== src/Bootstrap/Process.antt =====
-- `run` of scripts/bootstrap.py: the loop that reads both streams of a process, within a deadline
-- and a limit on the bytes.
pub mod Bounded
pub mod Collected
pub mod Completed
use grepglint.Base.{
  ℕ, ◌+◌, Bool, true, false, not, ◌||◌, Option, none, some, List, [], ◌∷◌, ◌++◌, leb, if◌then◌else◌,
  length,
}
use grepglint.Base.Result.{
  Exception, Result, ◌>>=◌, ensure, ◌>>◌, invalid, subprocess_error, err, ok,
}

pub data Stream : Type 0 where
  output errors : Stream

-- One pass of the loop: whether the clock is past the deadline, and the streams that are ready with
-- the blocks that `os.read` returns. A block of no bytes is the end of its stream.
pub record Pass : Type 0 where
  pub late : Bool
  pub reads : List (Stream × List ℕ)

-- How the process ends: whether `wait` comes to its own limit, and the exit code is 0.
pub data Exit : Type 0 where
  exit_zero exit_other still_running : Exit

-- The clock passes the deadline after the listed passes.
pub record Behaviour : Type 0 where
  pub passes : List Pass
  pub exit : Exit

-- `output`, `errors`, and which streams the selector still holds.
pub record Reading : Type 0 where
  pub output : List ℕ
  pub errors : List ℕ
  pub output_open : Bool
  pub errors_open : Bool

abbrev pub unread : Reading
unread = record { output = []; errors = []; output_open = true; errors_open = true }

-- The end of a stream unregisters it.
unregister : Reading → Stream → Reading
unregister s Stream.output = record s { output_open = false }
unregister s Stream.errors = record s { errors_open = false }

extend : Reading → Stream → List ℕ → Reading
extend s Stream.output block = record s { output = s.output ++ block }
extend s Stream.errors block = record s { errors = s.errors ++ block }

pub within_cap : ℕ → Reading → Result Reading
within_cap cap s = do
  ensure (leb (length s.output + length s.errors) cap) "output exceeded limit"
  ok s

receive : ℕ → Reading → Stream → List ℕ → Result Reading
unfolding unregister extend within_cap
receive cap s stream [] = ok (unregister s stream)
receive cap s stream (b ∷ bs) = within_cap cap (extend s stream (b ∷ bs))

is_open : Reading → Stream → Bool
is_open s Stream.output = s.output_open
is_open s Stream.errors = s.errors_open

-- The loop body for one key; the selector gives none for a stream that is unregistered.
read_one : ℕ → Reading → Stream × List ℕ → Result Reading
unfolding receive is_open
read_one cap s (stream, block) = if is_open s stream then receive cap s stream block else ok s

unfoldable pub read_all : ℕ → Reading → List (Stream × List ℕ) → Result Reading
unfolding read_one
read_all cap s [] = ok s
read_all cap s (r ∷ reads) = do next ← read_one cap s r; read_all cap next reads

abbrev any_open : Reading → Bool
any_open s = s.output_open || s.errors_open

-- `while selector.get_map()`
unfoldable pub read_loop : ℕ → Reading → List Pass → Result Reading
unfolding read_all
read_loop cap s [] = if any_open s then err (invalid "timed out; no automatic retry") else ok s
read_loop cap s (pass ∷ passes) = elim (any_open s) [
  | false ↦ ok s
  | true ↦ (do
    ensure (not pass.late) "timed out; no automatic retry"
    next ← read_all cap s pass.reads
    read_loop cap next passes)
]

wait : Exit → Result (Unit {0})
wait exit_zero = ok tt
wait exit_other = err (invalid "failed")
wait still_running = err subprocess_error

unfoldable pub collect : ℕ → Behaviour → Result (List ℕ)
unfolding read_loop wait
collect cap b = do s ← read_loop cap unread b.passes; wait b.exit; ok s.output

-- The result, and whether the `finally` block kills the process group.
pub data Ended : Type 0 where
  completed : List ℕ → Ended
  killed : Exception → Ended
  not_started : Ended

unfoldable pub run_process : ℕ → Option Behaviour → Ended
unfolding collect
run_process cap none = not_started
run_process cap (some b) = elim (collect cap b) [ ok out ↦ completed out | err e ↦ killed e ]

abbrev pub result_of : Ended → Result (List ℕ)
result_of (completed out) = ok out
result_of (killed e) = err e
result_of not_started = err (invalid "Required tool is missing; install it and retry")
