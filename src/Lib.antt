-- ===== src/Lib.antt =====
-- The Python code of grepglint: scripts/release.py packages the search tool, scripts/bootstrap.py
-- installs it, and benchmarks/*.py compare a coding agent that has it with one that has not. A run
-- is a plan of paired trials, each of which costs an inference on an account; the results are
-- scored against reviewed evidence.
--
-- Attempts: benchmarks/_paired_attempts.py, the ledger of the trials that an account has spent.
--   Attempts/Transition is `Attempts.apply`, a function from the header and the runs to new ones;
--   Attempts/Ledger is the file, with `__init__` as `load` and `append`; Attempts/Api is `history`,
--   `prepare`, `start`, `trial` and `stop`. An `Outcome` says how far `os.write` and `os.fsync`
--   came. The replay loop runs on fuel of the file's length and one: each pass reads a byte or
--   more. InOrder, Order, Progress, Steps and Started are about events, Replay, Reload and Session
--   about a file and the processes that open it one after another, Start about confirmations.
-- Score: benchmarks/_score_metrics.py. Score/Ranges is `merge` and the two sums over its result;
--   Score/Coverage is `valid_range` and `coverage`, where a quotient is the pair of its counts;
--   Score/Judgment is `judgment_template` and `correctness`.
-- Paired: Paired/Plan is `reservation` and the trials of `plan` in benchmarks/_paired_contract.py;
--   Paired/Store is `owned` and `cleanup` of benchmarks/_paired_store.py on a run's directory.
-- Corpus: `partition` of benchmarks/validate.py.
-- Inventory: `inventory` of benchmarks/coverage.py, for one file, on the blocks that it reads.
-- Bootstrap: scripts/bootstrap.py, the installer. Bootstrap/Machine has what the code meets outside
--   itself: a machine answers each system call by the log of the calls before it, so other
--   processes may do anything in between; an `Exec` is an action that returns a result or an
--   exception and the longer log. Process is the loop of `run` and Download the one of
--   `download_worker`; Files, Actions, Checks, Checksums, Record, Fetch, Repair, Purge, Removal and
--   Main are the functions in the order of the file, where long ones are parted at their branches.
--   Logic has the rules for logs, and Trust follows each function by them; Process/Collected and
--   Completed, Download/Received, Checksums/Packaged, Record/Separate, Purge/Unlinking and
--   Main/Status are about one component each. Texts are read by structural recursion; a prior
--   record has no prior of its own, so `validate_record` calls itself at most once. `decimal` has
--   fuel for 20 digits, and the limits it prints have at most 9.
-- Release: scripts/release.py, which makes the SHA256SUMS that the installer reads.
-- Base: Python's exceptions and results, dicts in the order of insertion, sets of texts, JSON
--   values, and the tests and lists that all parts use. `ProbeError` is the exception `probe`.
-- Tests: runs on concrete inputs, and instances of the theorems.
--
-- What gh, the installed executable and the kernel do is the machine's to answer, and so are the
-- codecs and SHA-256 of Python's library. The messages of exceptions leave out the paths and
-- programs that the code puts into them.
--
-- Parameters stand for code that is elsewhere: the JSON codec (`encode`, `decode`; for
-- ownership.json a decoder to the fields that the code reads), the digests of values and of
-- files, Python's incremental UTF-8 decoder, the bits and keys that `plan` and `partition` take
-- from SHA-256 digests, the length of an encoded plan, and the outcome of `validate`. What the
-- ledger needs of the codec is a hypothesis on the events that are written: an encoding has no
-- newline, fits a line, and reads back as the event.
--
-- Not modelled: the Rust program in src/, whose language is another; the processes, mounts and
-- sockets of the benchmark (benchmarks/_codex_*.py, benchmarks/_paired_live.py and their like),
-- which are I/O; benchmarks/evidence, which is other projects' code; of scripts/bootstrap.py
-- the parser of arguments, the block that starts `main` or the worker, the umask, the limit on
-- core files, the fsync of directories, the removal of temporary ones and what is printed; of
-- scripts/release.py the parser; the drivers that measure and demonstrate (scripts/demo.py,
-- scripts/release_smoke.py, scripts/output-*.py).
pub mod Base
pub mod Score
pub mod Attempts
pub mod Paired
pub mod Corpus
pub mod Inventory
pub mod Bootstrap
pub mod Release
pub mod Tests
