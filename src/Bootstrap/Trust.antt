-- ===== src/Bootstrap/Trust.antt =====
-- What the log has to hold for a program to be trusted, for the proofs about scripts/bootstrap.py.
pub mod Fetching
pub mod Purging
pub mod Repairing
pub mod Removing
pub mod Starting
pub mod Acting
use grepglint.Base.{
  ℕ, ◌≡◌, refl, subst, ◌⊎◌, inl, true, Option, some, List, ◌∷◌, arith, Text, points,
}
use grepglint.Base.Json.{Value, Fields, get}
use grepglint.Base.Result.{Result, ok}
use grepglint.Bootstrap.Repair.{given}
use grepglint.Bootstrap.Removal.{prior_digest}
use grepglint.Bootstrap.Actions.{run, call}
use grepglint.Bootstrap.Process.{run_process, result_of}
use grepglint.Bootstrap.Fetch.{sums_name, contains_text, attestation_args, help_args, supports}
use grepglint.Bootstrap.Checks.{is_tag, is_text}
use grepglint.Bootstrap.Logic.{
  Extends, In, In-Extends, Any, AllGood, After, After-pure, After-lift, After-observe, After-bind,
  Quiet,
}
use grepglint.Bootstrap.Checksums.{Entries, entry, checksums}
use grepglint.Bootstrap.Files.{cap_bytes}
use grepglint.Bootstrap.Machine.{Event, Log, Machine, lift, observe, ran, called}
use grepglint.Bootstrap.Paths.{FilePath, parse_path, path_text, child}
use grepglint.Bootstrap.Logic.Reading.{Calm, ReadFile, ReadFile-Extends}
use grepglint.Bootstrap.Record.Scalars.{fields_of}

pub record HasRecord (machine : Machine) (state : FilePath) (m : Fields) (log : Log) : Type 0 where
  pub raw : List ℕ
  pub read : ReadFile (child state (points "record.json")) 65536 raw log
  pub record_value : Value
  pub parsed : machine.json raw ≡ ok record_value
  pub has_fields : fields_of record_value ≡ ok m

-- A file with the digest of the record that was read, or of the prior record within it.
pub record ByRecord (machine : Machine) (state : FilePath) (p : FilePath) (log : Log) : Type 0 where
  pub m : Fields
  pub recorded : HasRecord machine state m log
  pub bytes : List ℕ
  pub read : ReadFile p cap_bytes bytes log
  pub digest :
      (is_text (machine.sha256 bytes) (get "digest" m) ≡ true)
      ⊎ ((prior : Option Value) × (prior_digest m ≡ ok prior)
          × (is_text (machine.sha256 bytes) prior ≡ true))

-- A file whose bytes have the digest that SHA256SUMS gives for its name.
pub record Summed (machine : Machine) (tag : Text) (folder : FilePath) (name : Text) (digest : Text)
    (log : Log) : Type 0 where
  pub sums : List ℕ
  pub sums_read : ReadFile (child folder sums_name) 4096 sums log
  pub entries : Entries
  pub listed_in : checksums tag sums ≡ ok entries
  pub bytes : List ℕ
  pub read : ReadFile (child folder name) cap_bytes bytes log
  pub same_digest : machine.sha256 bytes ≡ digest
  pub listed_as : entry name entries ≡ some digest

-- Such a file of a stable tag, whose attestation gh has verified for the tag and a commit.
pub record ByRelease (machine : Machine) (p : FilePath) (log : Log) : Type 0 where
  pub tag : Text
  pub stable : is_tag tag ≡ true
  pub folder : FilePath
  pub name : Text
  pub place : p ≡ child folder name
  pub digest : Text
  pub summed : Summed machine tag folder name digest log
  pub source : Text
  pub out : List ℕ
  pub attested : In (ran (attestation_args p tag source) (ok out)) log

-- The helper that the user names is trusted as it is.
pub data Trusted (machine : Machine) (state : FilePath) (helper : Option Text) (p : FilePath)
    (log : Log) : Type 0 where
  by_record : ByRecord machine state p log → Trusted machine state helper p log
  by_release : ByRelease machine p log → Trusted machine state helper p log
  by_user :
      (s : Text) → given helper ≡ some s → p ≡ parse_path s → Trusted machine state helper p log

pub record Starts (machine : Machine) (state : FilePath) (helper : Option Text) (args : List Text)
    (log : Log) : Type 0 where
  pub program : FilePath
  pub rest : List Text
  pub command : args ≡ path_text program ∷ rest
  pub trusted : Trusted machine state helper program log

-- `gh`, this script itself as a download worker, or a trusted executable.
pub data Runs (machine : Machine) (state : FilePath) (helper : Option Text) (args : List Text)
    (log : Log) : Type 0 where
  runs_gh : (rest : List Text) → args ≡ points "gh" ∷ rest → Runs machine state helper args log
  runs_worker :
      (rest : List Text)
      → args ≡ machine.interpreter ∷ machine.script ∷ points "__download" ∷ rest
      → Runs machine state helper args log
  runs_trusted : Starts machine state helper args log → Runs machine state helper args log

module _ (machine : Machine) (state : FilePath) (helper : Option Text) where
  -- Each program that is run or called is one of these, by the log before it.
  abbrev pub Allowed : Event → Log → Type 0
  Allowed (ran args out) log = Runs machine state helper args log
  Allowed (called args) log = Starts machine state helper args log
  Allowed e log = Unit

  pub Calm-Allowed : Calm Allowed
  Calm-Allowed = record {
    when_opened = λ p file log. tt;
    when_looked = λ p log. tt;
    when_listed = λ p log. tt;
    when_asked = λ log. tt;
    when_checked = λ log. tt;
  }

  pub HasRecord-Extends :
      {m : Fields} {new old : Log}
      → Extends new old
      → HasRecord machine state m old
      → HasRecord machine state m new
  HasRecord-Extends x r = record {
    raw = r.raw;
    read = ReadFile-Extends x r.read;
    record_value = r.record_value;
    parsed = r.parsed;
    has_fields = r.has_fields;
  }

  pub Summed-Extends :
      {tag : Text} {folder : FilePath} {name digest : Text} {new old : Log}
      → Extends new old
      → Summed machine tag folder name digest old
      → Summed machine tag folder name digest new
  Summed-Extends x s = record {
    sums = s.sums;
    sums_read = ReadFile-Extends x s.sums_read;
    entries = s.entries;
    listed_in = s.listed_in;
    bytes = s.bytes;
    read = ReadFile-Extends x s.read;
    same_digest = s.same_digest;
    listed_as = s.listed_as;
  }

  pub Trusted-Extends :
      {p : FilePath} {new old : Log}
      → Extends new old
      → Trusted machine state helper p old
      → Trusted machine state helper p new
  Trusted-Extends {p} x (by_record r) = by_record record {
    m = r.m;
    recorded = HasRecord-Extends x r.recorded;
    bytes = r.bytes;
    read = ReadFile-Extends x r.read;
    digest = r.digest;
  }
  Trusted-Extends {p} x (by_release r) = by_release record {
    tag = r.tag;
    stable = r.stable;
    folder = r.folder;
    name = r.name;
    place = r.place;
    digest = r.digest;
    summed = Summed-Extends x r.summed;
    source = r.source;
    out = r.out;
    attested = In-Extends (ran (attestation_args p r.tag r.source) (ok r.out)) x r.attested;
  }
  Trusted-Extends {p} x (by_user s e f) = by_user s e f

  pub After-call :
      (p : FilePath) (rest : List Text) (log : Log)
      → AllGood Allowed log
      → Trusted machine state helper p log
      → After Allowed Any log (call machine (path_text p ∷ rest) log)
  unfolding call
  After-call p rest log g t =
      After-bind Allowed Any Any _ _ log
        (After-observe Allowed Any (λ l. machine.exit_code l (path_text p ∷ rest))
          (λ code. called (path_text p ∷ rest)) log g
          (record { program = p; rest = rest; command = refl; trusted = t }) tt)
        λ code later x good u. After-lift Allowed Any code later good (λ a e. tt)

  pub After-run :
      (args : List Text) (cap : ℕ) (log : Log)
      → AllGood Allowed log
      → Runs machine state helper args log
      → After Allowed (λ out later. In (ran args (ok out)) later) log (run machine args cap log)
  unfolding run
  After-run args cap log g r =
      After-bind Allowed (λ out later. In (ran args out) later)
        (λ out later. In (ran args (ok out)) later)
        (observe (λ l. result_of (run_process cap (machine.start l args))) (λ out. ran args out))
        lift log
        (After-observe Allowed (λ out later. In (ran args out) later)
          (λ l. result_of (run_process cap (machine.start l args))) (λ out. ran args out) log g r
          (inl refl))
        (λ out later x good seen.
          After-lift Allowed (λ o l. In (ran args (ok o)) l) out later good
            (λ a e. subst (λ o. In (ran args o) later) e seen))

  pub Quiet-run_gh :
      (rest : List Text) (cap : ℕ) → Quiet Allowed (run machine (points "gh" ∷ rest) cap)
  Quiet-run_gh rest cap = record {
    at = λ log g. forget (After-run (points "gh" ∷ rest) cap log g (runs_gh rest refl));
  }
    where
      forget :
          {A : Type 0} {Q : A → Log → Type 0} {log : Log} {out : Result A × Log}
          → After Allowed Q log out
          → After Allowed Any log out
      forget h = record { extends = h.extends; good = h.good; returned = ground arith }

  pub After-supports :
      (option : Text) (p : FilePath) (log : Log)
      → AllGood Allowed log
      → Trusted machine state helper p log
      → After Allowed Any log (supports machine option p log)
  unfolding supports
  After-supports option p log g t =
      After-bind Allowed (λ out later. In (ran (help_args p) (ok out)) later) Any _ _ log
        (After-run (help_args p) 16384 log g (
          runs_trusted (record {
            program = p;
            rest = points "setup" ∷ points "--help" ∷ List.[];
            command = refl;
            trusted = t;
          })))
        (λ out later x good seen. After-pure Allowed Any (contains_text option out) later good tt)
