-- ===== src/Bootstrap/Actions.antt =====
-- `regular`, `path_check`, `run` and `local_lock` of scripts/bootstrap.py, as actions on a machine.
use grepglint.Base.{ℕ, Bool, true, false, Option, none, some, List, [], ◌∷◌, if◌then◌else◌, Text}
use grepglint.Bootstrap.Machine.{
  File, ◌>>=◌, ◌>>◌, Kind, Info, Machine, Exec, pure, lift, require_that, observe, opened, ran,
  called, looked, locked, made,
}
use grepglint.Base.Result.{os_error, err, ok}
use grepglint.Bootstrap.Process.{run_process, result_of}
use grepglint.Bootstrap.Files.{is_kind, regular_bytes, check_ancestor, is_plain_path, lock_info}
use grepglint.Bootstrap.Paths.{FilePath, parse_path, lineage}

module _ (machine : Machine) where
  unfoldable pub open_path : FilePath → Exec (Option File)
  open_path p = observe (λ log. machine.open_file log p) (λ file. opened p file)

  unfoldable pub regular : FilePath → ℕ → Exec (List ℕ)
  regular p cap = open_path p >>= λ file. lift (regular_bytes cap file)

  -- `path.lstat()`, if it finds something.
  unfoldable pub look : FilePath → Exec (Option Info)
  look p = observe (λ log. machine.lstat log p) (λ info. looked p)

  -- `os.path.lexists(path)`
  unfoldable pub lexists : FilePath → Exec Bool
  lexists p = look p >>= λ info. pure (elim info [ none ↦ false | some found ↦ true ])

  -- `os.path.lexists(text)`, for a text that is not made a path before.
  unfoldable pub has_entry : Text → Exec Bool
  has_entry s = observe (λ log. machine.has_entry log s) (λ found. looked (parse_path s))

  -- `path.exists()`, which follows symlinks.
  unfoldable pub path_exists : FilePath → Exec Bool
  path_exists p = do
    info ← observe (λ log. machine.stat log p) (λ found. looked p)
    pure (elim info [ none ↦ false | some i ↦ true ])

  -- `path.is_symlink()`
  unfoldable pub is_symlink : FilePath → Exec Bool
  is_symlink p =
      look p >>= λ info. pure (elim info [ none ↦ false | some i ↦ is_kind i.kind Kind.symlink ])

  -- `path.exists() or path.is_symlink()`
  unfoldable pub is_there : FilePath → Exec Bool
  is_there p = path_exists p >>= λ here. if here then pure true else is_symlink p

  -- `path.stat()`
  unfoldable pub stat_path : FilePath → Exec Info
  stat_path p = observe (λ log. machine.stat log p) (λ info. looked p) >>= λ info.
      lift (elim info [ none ↦ err os_error | some found ↦ ok found ])

  unfoldable pub check_lineage : List FilePath → Exec (Unit {0})
  check_lineage [] = pure tt
  check_lineage (p ∷ ps) = do
    there ← is_there p
    (if there then (look p >>= λ info. lift (check_ancestor info)) else pure tt)
    check_lineage ps

  unfoldable pub path_check : FilePath → Exec (Unit {0})
  path_check p = do
    require_that (is_plain_path p) "Paths must be absolute without '..'"
    check_lineage (lineage p)

  -- `run(args, timeout, cap)`
  unfoldable pub run : List Text → ℕ → Exec (List ℕ)
  run args cap =
      observe (λ log. result_of (run_process cap (machine.start log args))) (λ out. ran args out)
      >>= lift

  -- `subprocess.call(args)`, which returns the exit code, or raises if the program does not start.
  unfoldable pub call : List Text → Exec ℕ
  call args = observe (λ log. machine.exit_code log args) (λ code. called args) >>= lift

  -- `tempfile.TemporaryDirectory(…)`; the removal of the directory at the end is left out.
  unfoldable pub temporary_folder : Exec FilePath
  temporary_folder = observe machine.temporary (λ p. made p) >>= lift

  unfoldable pub decode_utf8 : List ℕ → Exec Text
  decode_utf8 bytes = lift (machine.utf8 bytes)

  -- The lock that is held, by the path of its file.
  unfoldable pub local_lock : FilePath → Exec FilePath
  local_lock p = do
    regular p 65536
    file ← open_path p
    lift (lock_info file)
    free ← observe (λ log. machine.can_lock log p) (λ held. locked p)
    lift (if free then ok tt else err os_error)
    pure p
