-- ===== src/Bootstrap/Logic/Reading.antt =====
-- The actions of scripts/bootstrap.py that only look at files, and what they leave in the log.
use grepglint.Base.{
  ℕ, String, ◌≡◌, refl, inl, Bool, true, false, Option, none, some, List, [], ◌∷◌, Text,
}
use grepglint.Bootstrap.Actions.{
  regular, open_path, look, lexists, has_entry, path_exists, is_symlink, is_there, check_lineage,
  path_check,
}
use grepglint.Bootstrap.Machine.{
  File, Event, Log, Machine, Exec, lift, observe, opened, looked, listed, asked, checked_space,
}
use grepglint.Base.Json.{Value, Fields, null, bool, int, float, str, list, dict}
use grepglint.Base.Result.{type_error, err, ok}
use grepglint.Bootstrap.Record.{
  recorded_path, check_paths, check_creation, check_optional, check_change, check_recovery,
  validate_with, validate_prior, validate_record,
}
use grepglint.Bootstrap.Logic.{
  Extends, In, In-Extends, AllGood, After, After-lift, After-observe, After-bind, Quiet, Quiet-pure,
  Quiet-lift, Quiet-observe, Quiet-if, Quiet-bind, quiet_rules,
}
use grepglint.Bootstrap.Files.{regular_bytes, check_ancestor}
use grepglint.Bootstrap.Paths.{FilePath, parse_path}

pub record Calm (Good : Event → Log → Type 0) : Type 0 where
  pub when_opened : (p : FilePath) (file : Option File) (log : Log) → Good (opened p file) log
  pub when_looked : (p : FilePath) (log : Log) → Good (looked p) log
  pub when_listed : (p : FilePath) (log : Log) → Good (listed p) log
  pub when_asked : (log : Log) → Good asked log
  pub when_checked : (log : Log) → Good checked_space log

-- The bytes that `regular` returned are those of a file opened earlier.
pub record ReadFile (p : FilePath) (cap : ℕ) (bytes : List ℕ) (log : Log) : Type 0 where
  pub file : Option File
  pub seen : In (opened p file) log
  pub checked : regular_bytes cap file ≡ ok bytes

pub ReadFile-Extends :
    {p : FilePath} {cap : ℕ} {bytes : List ℕ} {new old : Log}
    → Extends new old
    → ReadFile p cap bytes old
    → ReadFile p cap bytes new
ReadFile-Extends {p} {cap} {bytes} {new} {old} x r = record {
  file = r.file;
  seen = In-Extends (opened p r.file) x r.seen;
  checked = r.checked;
}

module _ (machine : Machine) (Good : Event → Log → Type 0) (calm : Calm Good) where
  pub Quiet-look : (p : FilePath) → Quiet Good (look machine p)
  unfolding look
  Quiet-look p =
      Quiet-observe Good (λ log. machine.lstat log p) (λ info. looked p)
        (λ info log. calm.when_looked p log)

  pub Quiet-open_path : (p : FilePath) → Quiet Good (open_path machine p)
  unfolding open_path
  Quiet-open_path p =
      Quiet-observe Good (λ log. machine.open_file log p) (λ file. opened p file)
        (λ file log. calm.when_opened p file log)

  pub After-regular :
      (p : FilePath) (cap : ℕ) (log : Log)
      → AllGood Good log
      → After Good (λ bytes later. ReadFile p cap bytes later) log (regular machine p cap log)
  unfolding regular open_path
  After-regular p cap log g =
      After-bind Good (λ file later. In (opened p file) later)
        (λ bytes later. ReadFile p cap bytes later)
        (observe (λ l. machine.open_file l p) (λ file. opened p file))
        (λ file. lift (regular_bytes cap file)) log
        (After-observe Good (λ file later. In (opened p file) later) (λ l. machine.open_file l p)
          (λ file. opened p file) log g (calm.when_opened p (machine.open_file log p) log)
          (inl refl))
        (λ file later x good seen.
          After-lift Good (λ bytes l. ReadFile p cap bytes l) (regular_bytes cap file) later good
            (λ bytes e. record { file = file; seen = seen; checked = e }))

  pub Quiet-regular : (p : FilePath) (cap : ℕ) → Quiet Good (regular machine p cap)
  unfolding regular
  Quiet-regular p cap = search (quiet_rules, Quiet-open_path)

  pub Quiet-lexists : (p : FilePath) → Quiet Good (lexists machine p)
  unfolding lexists
  Quiet-lexists p = search (quiet_rules, Quiet-look)

  pub Quiet-has_entry : (s : Text) → Quiet Good (has_entry machine s)
  unfolding has_entry
  Quiet-has_entry s =
      Quiet-observe Good (λ log. machine.has_entry log s) (λ found. looked (parse_path s))
        (λ found log. calm.when_looked (parse_path s) log)

  pub Quiet-path_exists : (p : FilePath) → Quiet Good (path_exists machine p)
  unfolding path_exists
  Quiet-path_exists p =
      Quiet-bind Good _ _
        (Quiet-observe Good (λ log. machine.stat log p) (λ info. looked p)
          (λ info log. calm.when_looked p log))
        (λ info. Quiet-pure Good _)

  Quiet-is_symlink : (p : FilePath) → Quiet Good (is_symlink machine p)
  unfolding is_symlink
  Quiet-is_symlink p = search (quiet_rules, Quiet-look)

  pub Quiet-is_there : (p : FilePath) → Quiet Good (is_there machine p)
  unfolding is_there
  Quiet-is_there p = search (quiet_rules, Quiet-path_exists, Quiet-is_symlink)

  Quiet-check_lineage : (ps : List FilePath) → Quiet Good (check_lineage machine ps)
  unfolding check_lineage
  Quiet-check_lineage [] = Quiet-pure Good tt
  Quiet-check_lineage (p ∷ ps) = Quiet-bind Good _ _ (Quiet-is_there p) λ there.
      Quiet-bind Good _ _
        (Quiet-if Good there _ _
          (Quiet-bind Good _ _ (Quiet-look p) λ info. Quiet-lift Good (check_ancestor info))
          (Quiet-pure Good tt))
        λ u. Quiet-check_lineage ps

  pub Quiet-path_check : (p : FilePath) → Quiet Good (path_check machine p)
  unfolding path_check
  Quiet-path_check p = search (quiet_rules, Quiet-check_lineage)

  pub Quiet-recorded_path : (k : String) (m : Fields) → Quiet Good (recorded_path machine k m)
  unfolding recorded_path
  Quiet-recorded_path k m = search (quiet_rules, Quiet-path_check) depth 12

  pub Quiet-check_paths : (state : FilePath) (m : Fields) → Quiet Good (check_paths machine state m)
  unfolding check_paths
  Quiet-check_paths state m = search (quiet_rules, Quiet-recorded_path)

  Quiet-check_creation : (m : Fields) (v : Value) → Quiet Good (check_creation machine m v)
  unfolding check_creation
  Quiet-check_creation m v = search (quiet_rules, Quiet-path_check) depth 12

  pub Quiet-check_optional :
      (m : Fields) (o : Option Value) → Quiet Good (check_optional machine m o)
  Quiet-check_optional m none = unfold check_optional in Quiet-pure Good tt
  Quiet-check_optional m (some null) = unfold check_optional in Quiet-pure Good tt
  Quiet-check_optional m (some (bool b)) = unfold check_optional in Quiet-check_creation m (bool b)
  Quiet-check_optional m (some (int i)) = unfold check_optional in Quiet-check_creation m (int i)
  Quiet-check_optional m (some (float x)) =
      unfold check_optional in Quiet-check_creation m (float x)
  Quiet-check_optional m (some (str s)) = unfold check_optional in Quiet-check_creation m (str s)
  Quiet-check_optional m (some (list l)) = unfold check_optional in Quiet-check_creation m (list l)
  Quiet-check_optional m (some (dict d)) = unfold check_optional in Quiet-check_creation m (dict d)

  -- The rest is about a recursive call that is quiet.
  module _ (recur : Value → Exec (Unit {0})) (calls : (v : Value) → Quiet Good (recur v)) where
    Quiet-check_change :
        (prior : Bool) (m : Fields) (v : Value) → Quiet Good (check_change machine recur prior m v)
    unfolding check_change
    Quiet-check_change prior m v = search (quiet_rules, calls) depth 12

    pub Quiet-check_recovery :
        (prior : Bool) (m : Fields) (o : Option Value)
        → Quiet Good (check_recovery machine recur prior m o)
    unfolding check_recovery
    Quiet-check_recovery prior m none = search (quiet_rules)
    Quiet-check_recovery prior m (some null) = search (quiet_rules)
    Quiet-check_recovery prior m (some (bool b)) = Quiet-check_change prior m (bool b)
    Quiet-check_recovery prior m (some (int i)) = Quiet-check_change prior m (int i)
    Quiet-check_recovery prior m (some (float x)) = Quiet-check_change prior m (float x)
    Quiet-check_recovery prior m (some (str s)) = Quiet-check_change prior m (str s)
    Quiet-check_recovery prior m (some (list l)) = Quiet-check_change prior m (list l)
    Quiet-check_recovery prior m (some (dict d)) = Quiet-check_change prior m (dict d)

    Quiet-validate_with :
        (prior : Bool) (v : Value) (state : FilePath)
        → Quiet Good (validate_with machine recur prior v state)
    unfolding validate_with
    Quiet-validate_with prior v state =
        search (quiet_rules, Quiet-check_paths, Quiet-check_optional, Quiet-check_recovery) depth 12

  pub Quiet-validate_prior :
      (state : FilePath) (v : Value) → Quiet Good (validate_prior machine state v)
  unfolding validate_prior
  Quiet-validate_prior state v =
      Quiet-validate_with (λ w. lift (err type_error)) (λ w. Quiet-lift Good (err type_error)) true
        v state

  pub Quiet-validate_record :
      (v : Value) (state : FilePath) → Quiet Good (validate_record machine v state)
  unfolding validate_record
  Quiet-validate_record v state =
      Quiet-validate_with (validate_prior machine state) (Quiet-validate_prior state) false v state
