-- ===== src/Bootstrap/Machine.antt =====
-- What scripts/bootstrap.py meets outside itself, and actions on it. A machine answers each call of
-- the system by what has been called before, so nothing is assumed of what other processes do
-- between two calls. The log keeps the calls, the newest first, with the answers that matter later.
use grepglint.Base.{ℕ, String, Bool, Option, List, ◌∷◌, Text}
use grepglint.Base.Json.{Value}
use grepglint.Base.Result.{Result, ensure, err, ok}
use grepglint.Bootstrap.Process.{Behaviour}
use grepglint.Bootstrap.Paths.{FilePath}

pub data Kind : Type 0 where
  regular_file directory symlink special : Kind

-- `os.stat_result`; `mine` and `root` compare the owner with the process and with 0.
pub record Info : Type 0 where
  pub kind : Kind
  pub mine : Bool
  pub root : Bool
  pub links : ℕ
  pub mode : ℕ
  pub size : ℕ
  pub device : ℕ
  pub inode : ℕ

-- A file that `os.open` opens, with the bytes that it then has.
pub record File : Type 0 where
  pub info : Info
  pub bytes : List ℕ

pub data Event : Type 0 where
  opened : FilePath → Option File → Event
  ran : List Text → Result (List ℕ) → Event
  called : List Text → Event
  looked : FilePath → Event
  listed : FilePath → Event
  locked : FilePath → Event
  released : FilePath → Event
  unlinked : FilePath → Event
  made : Result FilePath → Event
  changed_mode : FilePath → Event
  asked : Event
  checked_space : Event

abbrev pub Log : Type 0
Log = List Event

-- `gh` and `platform` stand for the programs and the host. `utf8` and `json` are Python's codecs,
-- `sha256` is `hashlib.sha256(…).hexdigest()`.
pub record Machine : Type 0 where
  pub open_file : Log → FilePath → Option File
  pub lstat : Log → FilePath → Option Info
  pub stat : Log → FilePath → Option Info
  pub start : Log → List Text → Option Behaviour
  pub exit_code : Log → List Text → Result ℕ
  pub resolve : Log → FilePath → Result FilePath
  pub has_entry : Log → Text → Bool
  pub temporary : Log → Result FilePath
  pub entries : Log → FilePath → Result (List Text)
  pub can_lock : Log → FilePath → Bool
  pub can_unlink : Log → FilePath → Bool
  pub can_change : Log → FilePath → Bool
  pub answer : Log → Text
  pub is_terminal : Bool
  pub is_root : Bool
  pub free_space : Log → ℕ
  pub platform : Text × Text
  pub interpreter : Text
  pub script : Text
  pub utf8 : List ℕ → Result Text
  pub json : List ℕ → Result Value
  pub sha256 : List ℕ → Text

-- What was done before an exception stays done, so the log comes back beside it.
abbrev pub Exec : Type 0 → Type 0
Exec A = Log → Result A × Log

module _ {A : Type 0} where
  unfoldable pub pure : A → Exec A
  pure a log = (ok a, log)

  unfoldable pub lift : Result A → Exec A
  lift r log = (r, log)

module _ {A B : Type 0} where
  abbrev pub continue : Result A → (A → Exec B) → Exec B
  continue (ok a) f log = f a log
  continue (err e) f log = (err e, log)

  infixl 10 ◌>>=◌ ◌>>◌
  unfoldable pub ◌>>=◌ : Exec A → (A → Exec B) → Exec B
  ◌>>=◌ action f log = let (r, next) = action log in continue r f next

  abbrev pub ◌>>◌ : Exec A → Exec B → Exec B
  first >> second = first >>= λ done. second

-- `require(condition, message)`
unfoldable pub require_that : Bool → String → Exec (Unit {0})
require_that condition message = lift (ensure condition message)

-- A call that asks the machine, and is noted.
module _ {A : Type 0} where
  unfoldable pub observe : (Log → A) → (A → Event) → Exec A
  observe answer note log = let a = answer log in (ok a, note a ∷ log)
