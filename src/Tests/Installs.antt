-- ===== src/Tests/Installs.antt =====
-- Runs of scripts/bootstrap.py on a machine with an installation in /s, and instances of the
-- theorems.
use grepglint.Base.{
  ℕ, String, ◌≡◌, refl, Bool, true, false, not, ◌&&◌, ◌||◌, Option, none, some, List, [], ◌∷◌,
  if◌then◌else◌, Text, points, same_text,
}
use grepglint.Bootstrap.Actions.{
  regular, open_path, look, lexists, has_entry, path_exists, is_symlink, is_there, stat_path,
  check_lineage, path_check, call, local_lock,
}
use grepglint.Bootstrap.Machine.{
  File, ◌>>=◌, Kind, Info, Log, Machine, pure, lift, require_that, observe, called, unlinked,
}
use grepglint.Base.Json.{Fields, pos, null, bool, int, str, dict, no_fields, field}
use grepglint.Base.Result.{Result, ok}
use grepglint.Bootstrap.Removal.{Action, action_text, Args, is_recorded}
use grepglint.Bootstrap.Repair.{require_digest}
use grepglint.Bootstrap.Main.{
  is_any, native_args_of, is_state, read_record, load_record, choose_action, is_bound, local_copy,
  start_copy, may_use, maintain, act, main,
}
use grepglint.Bootstrap.Process.{Exit}
use grepglint.Bootstrap.Checks.{is_tag, is_text}
use grepglint.Bootstrap.Record.{
  are_separate, path_of, recorded_path, check_paths, check_optional, check_recovery, validate_with,
  validate_record,
}
use grepglint.Bootstrap.Logic.{AllGood}
use grepglint.Bootstrap.Purge.{
  finally, is_same_cache, text_of, with_lock, require_only, unchanged_record, remove_record,
  purge_locked, may_purge, finish_purge,
}
use grepglint.Bootstrap.Files.{
  is_safe_file, regular_bytes, check_ancestor, is_plain_path, is_lock, lock_info,
}
use grepglint.Bootstrap.Trust.{Allowed}
use grepglint.Bootstrap.Paths.{
  FilePath, parse_path, path_text, is_absolute, lineage, same_path, is_relative_to,
}
use grepglint.Bootstrap.Purge.Unlinking.{finish_purge-Careful}
use grepglint.Bootstrap.Purge.Guarded.{Careful}
use grepglint.Bootstrap.Record.Separate.{Separated, validate_record-Separated}
use grepglint.Bootstrap.Record.Scalars.{
  fields_of, is_digest_of, is_identity, check_scalars, is_phase_text, is_upgrade_phase,
}
use grepglint.Bootstrap.Trust.Acting.{main-Allowed}
use grepglint.Bootstrap.Main.Status.{Looks, main-Looks}

abbrev sample_commit : String
sample_commit = "0123456789abcdef0123456789abcdef01234567"

abbrev sample_digest : String
sample_digest = "0123456789abcdef0123456789abcdef0123456789abcdef0123456789abcdef"

abbrev sample_fields : String → Fields
sample_fields phase = field "schema_version" (int (pos 1)) (
    field "phase" (str phase) (
      field "release" (str "v0.1.0") (
        field "commit" (str sample_commit) (
          field "digest" (str sample_digest) (
            field "destination" (str "/b/grepglint") (
              field "cache" (str "/c") (
                field "cache_owned" (bool true) (
                  field "database_bytes" (int (pos 8388608)) (
                    field "idle_seconds" (int (pos 60)) (
                      field "previous_digest" null (
                        field "previous_mode" null (
                          field "cargo_digest" null (
                            field "cache_identity"
                              (dict (
                                field "device" (int (pos 1))
                                  (field "inode" (int (pos 2)) no_fields)))
                              no_fields)))))))))))))

abbrev file_info : Info
file_info = record {
  kind = Kind.regular_file;
  mine = true;
  root = false;
  links = 1;
  mode = 384;
  size = 1;
  device = 1;
  inode = 3;
}

abbrev folder_info : Info
folder_info = record {
  kind = Kind.directory;
  mine = true;
  root = false;
  links = 2;
  mode = 448;
  size = 0;
  device = 1;
  inode = 2;
}

abbrev is_at : String → FilePath → Bool
is_at s p = same_path p (parse_path (points s))

abbrev files_at : Bool → FilePath → Option File
files_at copy p =
    if is_at "/s/maintenance" p && not copy
    then none
    else some (record { info = file_info; bytes = 1 ∷ [] })

abbrev info_at : Bool → FilePath → Option Info
info_at copy p =
    if is_at "/s/record.json" p || (is_at "/s/maintenance" p && copy)
    then some file_info
    else if is_at "/s" p || is_at "/c" p
    then some folder_info
    else none

-- The maintenance copy is there or not; each lock is free; each program ends at once.
abbrev machine_of : Bool → String → Machine
machine_of copy phase = record {
  open_file = λ log p. files_at copy p;
  lstat = λ log p. info_at copy p;
  stat = λ log p. info_at copy p;
  start = λ log args. some (record { passes = []; exit = Exit.exit_zero });
  exit_code = λ log args. ok 0;
  resolve = λ log p. ok p;
  has_entry = λ log s. false;
  entries = λ log p. ok [];
  can_lock = λ log p. true;
  can_unlink = λ log p. true;
  can_change = λ log p. true;
  answer = λ log. [];
  is_terminal = false;
  is_root = false;
  free_space = λ log. 0;
  platform = (points "Linux", points "x86_64");
  interpreter = points "python3";
  script = points "/r/scripts/bootstrap.py";
  temporary = λ log. ok (parse_path (points "/t"));
  utf8 = λ bytes. ok bytes;
  json = λ bytes. ok (dict (sample_fields phase));
  sha256 = λ bytes. points sample_digest;
}

abbrev args_of : Action → Args
args_of action = record {
  action = some action;
  release = none;
  destination = none;
  cache_dir = none;
  state_dir = points "/s";
  migrate_cargo = false;
  yes_given = false;
  purge_cache = true;
  removal_helper = none;
}

main-Allowed_example :
    AllGood
      (Allowed (machine_of true "complete") (parse_path (points "/s")) none)
      (main (machine_of true "complete") (args_of Action.verify) []).1
main-Allowed_example = main-Allowed (machine_of true "complete") (args_of Action.verify)

abbrev last_call : Log → List Text
last_call [] = []
last_call (called args ∷ log) = args
last_call (e ∷ log) = last_call log

abbrev outcome : Result ℕ × Log → Result ℕ × List Text
outcome (result, log) = (result, last_call log)

-- `verify` starts the maintenance copy.
verified : outcome (main (machine_of true "complete") (args_of Action.verify) []) ≡ (
  ok 0,
  points "/s/maintenance"
      ∷ points "setup"
      ∷ points "verify"
      ∷ points "--state-dir"
      ∷ points "/s"
      ∷ points "--purge-cache"
      ∷ [],
)
unfolding is_there path_exists is_symlink main act maintain start_copy require_digest local_copy
    load_record read_record path_check lexists look regular ◌>>=◌ pure lift observe require_that
    open_path stat_path check_lineage check_ancestor is_plain_path regular_bytes is_safe_file
    validate_record validate_with choose_action call parse_path path_text is_any may_use is_bound
    native_args_of lineage is_state fields_of check_scalars check_paths recorded_path check_optional
    check_recovery is_recorded is_phase_text is_text same_path are_separate is_relative_to
    is_identity is_upgrade_phase same_text is_tag is_digest_of is_absolute action_text path_of
verified = refl

abbrev unlinks : Log → List FilePath
unlinks [] = []
unlinks (unlinked p ∷ log) = p ∷ unlinks log
unlinks (e ∷ log) = unlinks log

abbrev purge_outcome : Result ℕ × Log → Result ℕ × List FilePath
purge_outcome (result, log) = (result, unlinks log)

-- The purge of the sample ends with the removal of its record.
purged :
    purge_outcome (
      finish_purge
        (machine_of false "purge_finalizing")
        (parse_path (points "/s"))
        (dict (sample_fields "purge_finalizing"))
        true
        [])
    ≡ (ok 0, parse_path (points "/s/record.json") ∷ [])
unfolding mathlib.Core.Bool.xor is_there path_exists is_symlink has_entry text_of finish_purge
    may_purge with_lock purge_locked unchanged_record remove_record require_only finally local_lock
    lock_info is_lock is_same_cache path_check lexists look regular ◌>>=◌ pure lift observe
    require_that open_path check_lineage check_ancestor is_plain_path regular_bytes is_safe_file
    validate_record validate_with parse_path path_text lineage fields_of check_scalars check_paths
    recorded_path check_optional check_recovery is_phase_text is_text same_path are_separate
    is_relative_to is_identity is_upgrade_phase same_text is_tag is_digest_of is_absolute path_of
purged = refl

finish_purge-Careful_example :
    AllGood
      (Careful (machine_of false "purge_finalizing") (parse_path (points "/s")))
      (finish_purge
        (machine_of false "purge_finalizing")
        (parse_path (points "/s"))
        (dict (sample_fields "purge_finalizing"))
        true
        []).1
finish_purge-Careful_example =
    finish_purge-Careful (machine_of false "purge_finalizing") (parse_path (points "/s"))
      (dict (sample_fields "purge_finalizing")) true

accepted :
    (validate_record
      (machine_of true "complete")
      (dict (sample_fields "complete"))
      (parse_path (points "/s"))
      []).0
    ≡ ok tt
unfolding is_there path_exists is_symlink path_check look ◌>>=◌ pure lift observe require_that
    check_lineage check_ancestor is_plain_path validate_record validate_with parse_path path_text
    lineage fields_of check_scalars check_paths recorded_path check_optional check_recovery
    is_phase_text is_text same_path are_separate is_relative_to is_identity is_upgrade_phase
    same_text is_tag is_digest_of is_absolute path_of
accepted = refl

validate_record-Separated_example :
    (m : Fields) × (fields_of (dict (sample_fields "complete")) ≡ ok m)
    × Separated (parse_path (points "/s")) m
validate_record-Separated_example =
    validate_record-Separated (machine_of true "complete") (dict (sample_fields "complete"))
      (parse_path (points "/s")) [] accepted

main-Looks_example : AllGood Looks (main (machine_of true "complete") (args_of Action.status) []).1
main-Looks_example = main-Looks (machine_of true "complete") (args_of Action.status) refl
