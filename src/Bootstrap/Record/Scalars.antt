-- ===== src/Bootstrap/Record/Scalars.antt =====
-- The fields of a record that need no look at the file system: `validate_record` of
-- scripts/bootstrap.py.
use grepglint.Base.{
  ℕ, ◌-◌, ◌*◌, ◌^◌, String, Bool, true, false, not, ◌&&◌, ◌||◌, Option, none, some, List, [], ◌∷◌,
  ◌==◌, ltb, leb, if◌then◌else◌, all, points, starts_with,
}
use grepglint.Base.Json.{Value, Fields, get, names, pos, null, bool, int, str, list, dict}
use grepglint.Base.Dict.{contains, keys}
use grepglint.Base.Result.{Result, ◌>>=◌, ensure, ◌>>◌, invalid, type_error, err, ok}
use grepglint.Bootstrap.Checks.{is_tag, is_hex_of}
use grepglint.Bootstrap.Files.{bit, not_writable}

abbrev pub record_fields : List String
record_fields =
    "schema_version" ∷ "phase" ∷ "release" ∷ "commit" ∷ "digest" ∷ "destination" ∷ "cache"
    ∷ "cache_owned" ∷ "database_bytes" ∷ "idle_seconds" ∷ "previous_digest" ∷ "previous_mode"
    ∷ "cargo_digest" ∷ []

abbrev pub optional_fields : List String
optional_fields = "change" ∷ "cache_identity" ∷ "cache_creation" ∷ []

abbrev pub phases : List String
phases =
    "prepared" ∷ "retained" ∷ "installed" ∷ "complete" ∷ "upgrade_prepared" ∷ "upgrade_retained"
    ∷ "upgrade_installed" ∷ "upgrade_copied" ∷ "rollback" ∷ "rollback_complete" ∷ "repairing"
    ∷ "uninstalling" ∷ "uninstalled" ∷ "purging" ∷ "purge_finalizing" ∷ []

-- `isinstance(record, dict)` and its fields.
unfoldable pub fields_of : Value → Result Fields
fields_of (dict m) = do
  ensure
      (all (λ k. contains k (names m)) record_fields
        && all (λ k. contains k record_fields || contains k optional_fields) (names m))
      "Invalid installation record fields; state preserved"
  ok m
fields_of _ = err (invalid "Invalid installation record fields; state preserved")

-- `type(value) is int` within bounds.
unfoldable pub is_int_within : ℕ → ℕ → Option Value → Bool
is_int_within low high (some (int (pos n))) = leb low n && leb n high
is_int_within low high _ = false

-- `value in PHASES`; a list or a dict has no hash.
is_phase : Option Value → Result Bool
is_phase (some (str s)) = ok (contains s phases)
is_phase (some (list l)) = err type_error
is_phase (some (dict d)) = err type_error
is_phase _ = ok false

is_release : Option Value → Bool
unfolding is_tag
is_release (some (str s)) = is_tag (points s)
is_release _ = false

unfoldable pub is_digest_of : ℕ → Option Value → Bool
is_digest_of n (some (str s)) = is_hex_of n (points s)
is_digest_of n _ = false

is_null_value : Option Value → Bool
is_null_value (some null) = true
is_null_value _ = false

is_bool : Option Value → Bool
is_bool (some (bool b)) = true
is_bool _ = false

unfoldable pub is_true : Option Value → Bool
is_true (some (bool b)) = b
is_true _ = false

-- `set(value) == keys`
same_keys : List String → Fields → Bool
same_keys keys m = all (λ k. contains k (names m)) keys && all (λ k. contains k keys) (names m)

unfoldable pub is_identity : Option Value → Bool
unfolding same_keys is_int_within
is_identity (some (dict m)) =
    same_keys ("device" ∷ "inode" ∷ []) m
    && is_int_within 0 (2 ^ 64 - 1) (get "device" m)
    && is_int_within 0 (2 ^ 64 - 1) (get "inode" m)
is_identity _ = false

is_absent : Option Value → Bool
is_absent none = true
is_absent v = is_null_value v

-- `value >= 0 and value & ~0o777 == 0 and value & 0o022 == 0`
unfoldable pub is_mode : Option Value → Bool
is_mode (some (int (pos n))) = ltb n 512 && not_writable n
is_mode _ = false

unfoldable pub is_rollback_mode : Option Value → Bool
is_rollback_mode (some (int (pos n))) = ltb n 512 && not_writable n && bit 6 n
is_rollback_mode _ = false

same_truth : Bool → Bool → Bool
same_truth a b = if a then b else not b

unfoldable pub check_scalars : Fields → Result (Unit {0})
unfolding is_int_within is_phase is_release is_digest_of is_null_value is_bool is_true is_identity
    is_absent is_mode same_truth
check_scalars m = do
  ensure (is_int_within 1 3 (get "schema_version" m)) "Unsupported state version; state preserved"
  known ← is_phase (get "phase" m)
  ensure known "Unrecognized installation phase; state preserved"
  ensure (is_release (get "release" m)) "Invalid recorded release"
  ensure (is_digest_of 40 (get "commit" m)) "Invalid recorded identity"
  ensure (is_digest_of 64 (get "digest" m)) "Invalid recorded identity"
  ensure (is_null_value (get "previous_digest" m) || is_digest_of 64 (get "previous_digest" m))
      "Invalid recorded identity"
  ensure (is_null_value (get "cargo_digest" m) || is_digest_of 64 (get "cargo_digest" m))
      "Invalid recorded identity"
  ensure (is_bool (get "cache_owned" m)) "Invalid cache ownership"
  ensure
      (is_absent (get "cache_identity" m)
        || (is_true (get "cache_owned" m) && is_identity (get "cache_identity" m)))
      "Invalid cache identity"
  ensure (is_int_within (8 * 1024 * 1024) (1024 * 1024 * 1024) (get "database_bytes" m))
      "Invalid database limit"
  ensure (is_int_within 1 3600 (get "idle_seconds" m)) "Invalid idle limit"
  ensure
      (same_truth (is_null_value (get "previous_digest" m)) (is_null_value (get "previous_mode" m))
        && (is_null_value (get "previous_mode" m) || is_mode (get "previous_mode" m)))
      "Invalid prior permissions"

unfoldable pub is_phase_text : String → Option Value → Bool
is_phase_text s (some (str t)) = s == t
is_phase_text s _ = false

unfoldable pub is_creation : Fields → Value → Bool
unfolding is_phase_text is_true is_absent is_null_value same_keys
is_creation m (dict creation) =
    is_phase_text "prepared" (get "phase" m)
    && not (is_true (get "cache_owned" m))
    && is_absent (get "cache_identity" m)
    && same_keys ("directory" ∷ "identity" ∷ []) creation
is_creation m _ = false

unfoldable pub is_change : Bool → Fields → Value → Bool
unfolding is_int_within same_keys
is_change prior m (dict change) =
    not prior
    && is_int_within 2 3 (get "schema_version" m)
    && same_keys ("prior" ∷ "destination_mode" ∷ "maintenance_mode" ∷ []) change
is_change prior m _ = false

unfoldable pub is_upgrade_phase : Option Value → Bool
unfolding starts_with
is_upgrade_phase (some (str s)) =
    starts_with (points "upgrade_") (points s) || starts_with (points "rollback") (points s)
is_upgrade_phase _ = false
