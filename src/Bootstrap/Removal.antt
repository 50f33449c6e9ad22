-- ===== src/Bootstrap/Removal.antt =====
-- `removal` of scripts/bootstrap.py. What the code prints is left out.
use grepglint.Base.{
  ℕ, Bool, true, false, not, ◌&&◌, ◌||◌, Option, none, some, List, [], ◌∷◌, if◌then◌else◌, Text,
  points,
}
use grepglint.Bootstrap.Actions.{regular, lexists, path_exists, path_check, call}
use grepglint.Base.Json.{Value, Fields, get, get_in, dict}
use grepglint.Base.Result.{Result, key_error, err, ok}
use grepglint.Bootstrap.Machine.{◌>>=◌, ◌>>◌, Machine, Exec, pure, lift, require_that}
use grepglint.Bootstrap.Repair.{given}
use grepglint.Bootstrap.Fetch.{supports}
use grepglint.Bootstrap.Checks.{truthy, is_text}
use grepglint.Bootstrap.Purge.{require_only, finish_purge}
use grepglint.Bootstrap.Files.{cap_bytes}
use grepglint.Bootstrap.Paths.{FilePath, parse_path, path_text, child}
use grepglint.Bootstrap.Record.Scalars.{is_phase_text}

pub data Action : Type 0 where
  install verify status upgrade repair uninstall purge : Action

unfoldable pub action_text : Action → Text
action_text install = points "install"
action_text verify = points "verify"
action_text status = points "status"
action_text upgrade = points "upgrade"
action_text repair = points "repair"
action_text uninstall = points "uninstall"
action_text purge = points "purge"

-- The parsed arguments.
pub record Args : Type 0 where
  pub action : Option Action
  pub release : Option Text
  pub destination : Option Text
  pub cache_dir : Option Text
  pub state_dir : Text
  pub migrate_cargo : Bool
  pub yes_given : Bool
  pub purge_cache : Bool
  pub removal_helper : Option Text

abbrev pub is_given : Option Text → Bool
is_given o = elim (given o) [ none ↦ false | some s ↦ true ]

-- `not value or value == record[field]`
unfoldable pub is_recorded : Option Text → Option Value → Bool
unfolding is_text
is_recorded o field_value = elim (given o) [ none ↦ true | some s ↦ is_text s field_value ]

abbrev pub is_purge : Action → Bool
is_purge Action.purge = true
is_purge _ = false

-- `record["change"]["prior"]["digest"]`, if there is a change.
unfoldable pub prior_digest : Fields → Result (Option Value)
unfolding truthy
prior_digest m = elim (truthy (get "change" m)) [
  | false ↦ ok none
  | true ↦ elim (get "change" m) [
    | none ↦ ok none
    | some change ↦ elim (get_in "prior" change) [
      | none ↦ err key_error
      | some prior ↦ elim (get_in "digest" prior) [ none ↦ err key_error | some v ↦ ok (some v) ]
    ]
  ]
]

module _ (machine : Machine) where
  -- No record: the state's directory has at most the lock.
  unfoldable pub remove_nothing : FilePath → Exec ℕ
  remove_nothing state = do
    there ← path_exists machine state
    (if there
        then require_only machine (points "operation.lock" ∷ []) state
            "Unrecorded installer entry preserved"
        else pure tt)
    pure 0

  -- `record["phase"] == "purge_finalizing" and not os.path.lexists(local) and not …`
  unfoldable pub is_finalizing : Args → FilePath → Fields → Exec Bool
  is_finalizing args local m =
      if is_phase_text "purge_finalizing" (get "phase" m)
      then (lexists machine local >>= λ there.
          pure (not there && not (is_given args.removal_helper)))
      else pure false

  -- The maintenance copy against the digests of the record.
  unfoldable pub check_copy : Args → FilePath → Fields → Exec (Unit {0})
  check_copy args local m = do
    there ← lexists machine local
    (if there
        then (do
          prior ← lift (prior_digest m)
          bytes ← regular machine local cap_bytes
          require_that
              (is_text (machine.sha256 bytes) (get "digest" m)
                || is_text (machine.sha256 bytes) prior)
              "Maintenance copy changed; refusing to execute it")
        else require_that
            (is_given args.removal_helper && is_phase_text "purge_finalizing" (get "phase" m))
            "Maintenance copy missing; preserved")

  -- The helper that the user trusts, or the maintenance copy.
  unfoldable pub removal_program : Args → FilePath → Exec FilePath
  removal_program args local = elim (given args.removal_helper) [
    | none ↦ pure local
    | some helper ↦ (do
      path_check machine (parse_path helper)
      bytes ← regular machine (parse_path helper) cap_bytes
      pure (parse_path helper))
  ]

  unfoldable pub remove_recorded : Args → Action → FilePath → Fields → List Text → Exec ℕ
  remove_recorded args action state m native_args = do
    require_that
        (is_recorded args.destination (get "destination" m)
          && is_recorded args.cache_dir (get "cache" m))
        "Overrides differ from recorded paths; nothing changed"
    let local = child state (points "maintenance")
    finalizing ← is_finalizing args local m
    (if finalizing
        then (do
          require_that (is_purge action) "Purge finalization pending; rerun purge --purge-cache"
          finish_purge machine state (dict m) args.purge_cache)
        else (do
          check_copy args local m
          program ← removal_program args local
          able ← supports machine (points "--purge-cache") program
          require_that able "Retained release predates offline removal"
          call machine (path_text program ∷ native_args)))

  unfoldable pub removal : Args → Action → FilePath → Option Fields → List Text → Exec ℕ
  removal args action state none native_args = remove_nothing state
  removal args action state (some m) native_args = remove_recorded args action state m native_args
