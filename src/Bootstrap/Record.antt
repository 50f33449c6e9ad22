-- ===== src/Bootstrap/Record.antt =====
-- `validate_record` of scripts/bootstrap.py, which checks the record of an installation.
pub mod Scalars
pub mod Separate
use grepglint.Base.{
  ℕ, String, Bool, true, false, not, ◌&&◌, Option, none, some, [], ◌∷◌, ◌==◌, ltb, if◌then◌else◌,
  all, sum_by, Text, points, starts_with,
}
use grepglint.Base.Json.{Value, Fields, get, get_in, as_text, null, str, dict}
use grepglint.Base.Result.{Result, invalid, key_error, type_error, err, ok}
use grepglint.Bootstrap.Machine.{◌>>=◌, ◌>>◌, Machine, Exec, pure, lift, require_that}
use grepglint.Base.Json.Equality.{equal}
use grepglint.Bootstrap.Actions.{path_check}
use grepglint.Bootstrap.Paths.{
  FilePath, parse_path, path_text, child, parent, name_of, same_path, is_relative_to,
}
use grepglint.Bootstrap.Record.Scalars.{
  fields_of, is_identity, is_rollback_mode, check_scalars, is_creation, is_change, is_upgrade_phase,
}

abbrev pub is_null : Option Value → Bool
is_null none = true
is_null (some null) = true
is_null (some v) = false

-- The comparisons of `record[field]` with the same field of the prior record.
unfoldable pub same_field : String → Fields → Fields → Bool
unfolding equal
same_field k m prior = elim (get k m) [
  | none ↦ is_null (get k prior)
  | some v ↦ elim (get k prior) [ none ↦ is_null (some v) | some w ↦ equal v w ]
]

-- `len(os.fsencode(s))`: the bytes of UTF-8.
abbrev byte_count : Text → ℕ
byte_count =
    sum_by (λ c. if ltb c 128 then 1 else if ltb c 2048 then 2 else if ltb c 65536 then 3 else 4)

unfoldable pub are_apart : FilePath → FilePath → Bool
are_apart a b = not (is_relative_to a b) && not (is_relative_to b a)

-- The first, second and third of `paths`, pairwise.
unfoldable pub are_separate : FilePath → FilePath → FilePath → Bool
unfolding are_apart
are_separate state destination cache =
    are_apart state destination && are_apart state cache && are_apart destination cache

-- `Path(value)`
unfoldable pub path_of : Option Value → Result FilePath
unfolding parse_path
path_of (some (str s)) = ok (parse_path (points s))
path_of none = err key_error
path_of _ = err type_error

unfoldable pub is_staged : FilePath → FilePath → Bool
unfolding same_path name_of starts_with
is_staged staged cache =
    same_path (parent staged) (parent cache)
    && not (same_path staged cache)
    && starts_with (points ".grepglint-cache-") (name_of staged.parts)

unfoldable pub agrees : Fields → Value → Bool
unfolding same_field
agrees m (dict prior) =
    all (λ k. same_field k m prior)
      ("destination" ∷ "cache" ∷ "cache_owned" ∷ "database_bytes" ∷ "idle_seconds" ∷ [])
agrees m _ = false

unfoldable pub agrees_on_identity : Fields → Value → Bool
unfolding same_field
agrees_on_identity m (dict prior) = same_field "cache_identity" m prior
agrees_on_identity m _ = false

unfoldable pub is_complete : Value → Bool
is_complete v = elim (as_text (get_in "phase" v)) [ none ↦ false | some s ↦ s == "complete" ]

unfoldable pub prior_of : Value → Value
prior_of change = elim (get_in "prior" change) [ none ↦ null | some v ↦ v ]

module _ (machine : Machine) where
  -- The loop body over `destination` and `cache`.
  unfoldable pub recorded_path : String → Fields → Exec FilePath
  recorded_path key m = do
    s ← lift (elim (as_text (get key m)) [
      | none ↦ err (invalid "Invalid recorded path")
      | some s ↦ ok s
    ])
    let p = parse_path (points s)
    path_check machine p
    pure p

  unfoldable pub check_paths : FilePath → Fields → Exec (Unit {0})
  check_paths state m = do
    destination ← recorded_path "destination" m
    cache ← recorded_path "cache" m
    require_that (are_separate state destination cache) "Recorded paths must be separate"
    require_that (ltb (byte_count (path_text (child cache (points "daemon.sock")))) 100)
        "Cache path too long"

  -- `creation`, which is not None.
  unfoldable pub check_creation : Fields → Value → Exec (Unit {0})
  check_creation m creation = do
    require_that (is_creation m creation) "Invalid cache creation recovery record"
    staged ← lift (path_of (get_in "directory" creation))
    path_check machine staged
    cache ← lift (path_of (get "cache" m))
    require_that (is_staged staged cache) "Invalid staged cache path"
    require_that (is_identity (get_in "identity" creation)) "Invalid staged cache identity"

  unfoldable pub check_optional : Fields → Option Value → Exec (Unit {0})
  check_optional m none = pure tt
  check_optional m (some null) = pure tt
  check_optional m (some creation) = check_creation m creation

  -- `change`, which is not None; `validate_prior` is the recursive call.
  unfoldable pub check_change : (Value → Exec (Unit {0})) → Bool → Fields → Value → Exec (Unit {0})
  check_change validate_prior prior m change = do
    require_that (is_change prior m change) "Invalid upgrade recovery record"
    validate_prior (prior_of change)
    require_that (is_complete (prior_of change)) "Invalid prior phase"
    require_that (agrees m (prior_of change)) "Upgrade changed recorded paths or settings"
    require_that (agrees_on_identity m (prior_of change)) "Upgrade changed cache identity"
    require_that
        (is_rollback_mode (get_in "destination_mode" change)
          && is_rollback_mode (get_in "maintenance_mode" change))
        "Invalid rollback permissions"

  unfoldable pub check_recovery :
      (Value → Exec (Unit {0})) → Bool → Fields → Option Value → Exec (Unit {0})
  check_recovery validate_prior prior m none =
      require_that (not (is_upgrade_phase (get "phase" m))) "Missing upgrade recovery data"
  check_recovery validate_prior prior m (some null) =
      require_that (not (is_upgrade_phase (get "phase" m))) "Missing upgrade recovery data"
  check_recovery validate_prior prior m (some change) = check_change validate_prior prior m change

  unfoldable pub validate_with :
      (Value → Exec (Unit {0})) → Bool → Value → FilePath → Exec (Unit {0})
  validate_with validate_prior prior record_value state = do
    m ← lift (fields_of record_value)
    lift (check_scalars m)
    check_paths state m
    check_optional m (get "cache_creation" m)
    check_recovery validate_prior prior m (get "change" m)

  -- `validate_record(change["prior"], state, prior=True)`: a prior record has no change of its own,
  -- so there is no further call.
  unfoldable pub validate_prior : FilePath → Value → Exec (Unit {0})
  validate_prior state v = validate_with (λ w. lift (err type_error)) true v state

  unfoldable pub validate_record : Value → FilePath → Exec (Unit {0})
  validate_record v state = validate_with (validate_prior state) false v state
