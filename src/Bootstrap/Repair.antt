-- ===== src/Bootstrap/Repair.antt =====
-- `repair_with_helper` and `repair_local` of scripts/bootstrap.py. What the code prints is left out.
use grepglint.Base.{
  ℕ, ◌+◌, ◌*◌, String, Bool, false, not, ◌||◌, Option, none, some, List, [], ◌∷◌, ◌++◌, leb,
  if◌then◌else◌, Text, points, same_text, strip,
}
use grepglint.Bootstrap.Actions.{regular, path_exists, run, call, temporary_folder, decode_utf8}
use grepglint.Base.Json.{Fields, get}
use grepglint.Base.Result.{Result, key_error, value_error, err, ok}
use grepglint.Bootstrap.Machine.{
  ◌>>=◌, ◌>>◌, Machine, Exec, pure, lift, require_that, observe, checked_space,
}
use grepglint.Bootstrap.Fetch.{fetch, supports}
use grepglint.Bootstrap.Checks.{repo, is_tag, is_text}
use grepglint.Bootstrap.Record.{path_of}
use grepglint.Bootstrap.Files.{cap_bytes, meta_cap}
use grepglint.Bootstrap.Paths.{FilePath, parse_path, path_text, child}
use grepglint.Bootstrap.Record.Scalars.{is_phase_text}

abbrev pub with_action : Text → List Text → List Text
with_action action (setup ∷ old ∷ rest) = setup ∷ action ∷ rest
with_action action args = args

-- `native_args[native_args.index("--state-dir") + 1]`
unfoldable pub after_option : Text → List Text → Result Text
unfolding same_text
after_option option [] = err value_error
after_option option (a ∷ args) =
    if same_text a option
    then (elim args [ [] ↦ err key_error | value ∷ rest ↦ ok value ])
    else after_option option args

abbrev pub latest_args : List Text
latest_args =
    points "gh"
    ∷ points "api"
    ∷ (points "repos/" ++ repo ++ points "/releases/latest")
    ∷ points "--jq"
    ∷ points ".tag_name"
    ∷ []

-- `value or …`: a text of no characters counts as none.
abbrev pub given : Option Text → Option Text
given none = none
given (some []) = none
given (some (c ∷ s)) = some (c ∷ s)

-- `record["phase"] in ("prepared", "retained", "installed")`
unfoldable pub is_unfinished : Fields → Bool
unfolding is_phase_text
is_unfinished m =
    is_phase_text "prepared" (get "phase" m)
    || is_phase_text "retained" (get "phase" m)
    || is_phase_text "installed" (get "phase" m)

-- `requested and requested != record["release"]`
unfoldable pub is_other_release : Option Text → Fields → Bool
unfolding is_text
is_other_release requested m = elim (given requested) [
  | none ↦ false
  | some r ↦ not (is_text r (get "release" m))
]

module _ (machine : Machine) where
  unfoldable pub helper_release : Option Text → Exec Text
  helper_release requested = elim (given requested) [
    | some r ↦ pure r
    | none ↦ (do
      out ← run machine latest_args meta_cap
      content ← decode_utf8 machine out
      pure (strip content))
  ]

  -- `shutil.disk_usage(tempfile.gettempdir()).free >= size`
  unfoldable pub require_space : ℕ → String → Exec (Unit {0})
  require_space size message = do
    free ← observe (λ log. machine.free_space log) (λ n. checked_space)
    require_that (leb size free) message

  unfoldable pub repair_with_helper : List Text → FilePath → Option Text → Exec ℕ
  repair_with_helper native_args source requested = do
    release ← helper_release requested
    require_that (is_tag release)
        "Repair requires a stable helper release; use repair --release vMAJOR.MINOR.PATCH"
    require_space (7 * cap_bytes + 64 * 1024 * 1024) "Insufficient repair staging disk space"
    folder ← temporary_folder machine
    fetched ← fetch machine release folder
    able ← supports machine (points "--repair-source") fetched.binary
    require_that able "Verified helper release does not support repair"
    call machine
        (path_text fetched.binary ∷ native_args ++ points "--repair-source" ∷ path_text source ∷ [])

  -- `hashlib.sha256(regular(path, CAP)).hexdigest() == record["digest"]`
  unfoldable pub require_digest : Fields → FilePath → String → Exec (Unit {0})
  require_digest m p message = do
    bytes ← regular machine p cap_bytes
    require_that (is_text (machine.sha256 bytes) (get "digest" m)) message

  -- `destination.exists() and maintenance.exists()` in a complete installation.
  unfoldable pub are_both_there : Fields → FilePath → FilePath → Exec Bool
  are_both_there m destination maintenance =
      if is_phase_text "complete" (get "phase" m)
      then (path_exists machine destination >>= λ here.
          (if here then path_exists machine maintenance else pure false))
      else pure false

  -- The branch of an installation that is healthy or is repaired by another release.
  unfoldable pub repair_complete : Fields → List Text → FilePath → Option Text → Exec ℕ
  repair_complete m native_args source requested = do
    destination ← lift (path_of (get "destination" m))
    state ← lift (after_option (points "--state-dir") native_args)
    let maintenance = child (parse_path state) (points "maintenance")
    there ← are_both_there m destination maintenance
    (if there
        then (do
          require_digest m destination "Modified executable preserved"
          require_digest m maintenance "Modified executable preserved"
          call machine (path_text source ∷ with_action (points "verify") native_args))
        else repair_with_helper native_args source requested)

  unfoldable pub repair_local : Fields → List Text → FilePath → Option Text → Exec ℕ
  repair_local m native_args source requested = do
    able ← supports machine (points "--repair-source") source
    (if able
        then (if is_other_release requested m
            then repair_with_helper native_args source requested
            else call machine (path_text source ∷ native_args))
        else if is_unfinished m
        then call machine (path_text source ∷ with_action (points "install") native_args)
        else repair_complete m native_args source requested)
