-- ===== src/Bootstrap/Purge.antt =====
-- `finish_purge` and `removal` of scripts/bootstrap.py. What the code prints is left out.
pub mod Guarded
pub mod Unlinking
use grepglint.Base.{
  ℕ, String, Bool, true, false, not, ◌&&◌, Option, none, some, List, [], ◌∷◌, if◌then◌else◌, all,
  Text, points, same_text, one_of, strip,
}
use grepglint.Bootstrap.Actions.{regular, look, has_entry, local_lock}
use grepglint.Base.Json.{Value, Fields, get, names, pos, int, str, dict, no_fields, field}
use grepglint.Base.Result.{Result, key_error, type_error, os_error, err, ok}
use grepglint.Bootstrap.Machine.{
  ◌>>=◌, ◌>>◌, Kind, Info, Machine, Exec, pure, lift, require_that, observe, directory, listed,
  released, unlinked, asked,
}
use grepglint.Base.Json.Equality.{equal}
use grepglint.Bootstrap.Record.{path_of, validate_record}
use grepglint.Bootstrap.Files.{is_private, is_kind}
use grepglint.Bootstrap.Paths.{FilePath, child}
use grepglint.Bootstrap.Record.Scalars.{fields_of, is_phase_text}
use grepglint.Bootstrap.Process.Bounded.{held}

module _ {A : Type 0} where
  unfoldable pub finally : Exec A → Exec (Unit {0}) → Exec A
  finally body after log =
      let (result, done) = body log in let (ignored, last) = after done in (result, last)

-- `info.st_dev` and `info.st_ino` as the record keeps them.
identity_of : Info → Value
identity_of info =
    dict (field "device" (int (pos info.device)) (field "inode" (int (pos info.inode)) no_fields))

-- The cache's directory is the one that the record names.
unfoldable pub is_same_cache : Fields → Info → Bool
unfolding equal identity_of
is_same_cache m info =
    is_kind info.kind Kind.directory
    && info.mine
    && is_private info.mode
    && elim (get "cache_identity" m) [ none ↦ false | some v ↦ equal v (identity_of info) ]

-- `record["destination"]`, which `os.path.lexists` takes as it is.
unfoldable pub text_of : Option Value → Result Text
text_of (some (str s)) = ok (points s)
text_of none = err key_error
text_of _ = err type_error

module _ (machine : Machine) where
  -- `locks.append(local_lock(path))` with the `finally` that closes it. The locks are closed in the
  -- reverse of their order.
  unfoldable pub with_lock : FilePath → Exec ℕ → Exec ℕ
  with_lock p body =
      local_lock machine p >>= λ held. finally body (observe (λ log. tt) (λ done. released p))

  -- The loop over `os.scandir`.
  unfoldable pub require_only : List Text → FilePath → String → Exec (Unit {0})
  require_only names folder message = do
    entries ← observe (λ log. machine.entries log folder) (λ found. listed folder)
    found ← lift entries
    require_that (all (λ n. one_of n names) found) message

  -- `record`, once it is read again under the first lock.
  unfoldable pub unchanged_record : FilePath → Value → Exec (Fields × List ℕ)
  unchanged_record state expected = do
    raw ← regular machine (child state (points "record.json")) 65536
    record_value ← lift (machine.json raw)
    validate_record machine record_value state
    m ← lift (fields_of record_value)
    require_that (equal record_value expected && is_phase_text "purge_finalizing" (get "phase" m))
        "Installation changed; retry"
    pure (m, raw)

  -- What is done under all three locks.
  unfoldable pub remove_record : FilePath → FilePath → Fields → List ℕ → Exec ℕ
  remove_record state cache m raw = do
    destination ← lift (text_of (get "destination" m))
    there ← has_entry machine destination
    require_that (not there)
        "Installed executable appeared; preserve ownership state and inspect it"
    require_only (points "maintenance.lock" ∷ points "daemon.lock" ∷ []) cache "Cache entry remains"
    require_only (points "record.json" ∷ points "operation.lock" ∷ []) state
        "Installer entry remains"
    again ← regular machine (child state (points "record.json")) 65536
    require_that (same_text again raw) "Ownership record changed; preserved"
    gone ←
        observe (λ log. machine.can_unlink log (child state (points "record.json")))
          (λ done. unlinked (child state (points "record.json")))
    lift (if gone then ok tt else err os_error)
    pure 0

  unfoldable pub purge_locked : FilePath → Value → Exec ℕ
  purge_locked state expected = do
    found ← unchanged_record state expected
    cache ← lift (path_of (get "cache" found.0))
    seen ← look machine cache
    info ← lift (elim seen [ none ↦ err os_error | some i ↦ ok i ])
    require_that (is_same_cache found.0 info) "Cache identity changed; preserved"
    with_lock (child cache (points "maintenance.lock"))
        (with_lock (child cache (points "daemon.lock")) (remove_record state cache found.0 found.1))

  -- Whether to go on: `consent`, or an answer at the terminal.
  unfoldable pub may_purge : Bool → Exec Bool
  may_purge true = pure true
  may_purge false = do
    require_that machine.is_terminal "Purge finalization requires --purge-cache; nothing removed"
    s ← observe (λ log. machine.answer log) (λ a. asked)
    pure (one_of (strip s) (points "y" ∷ points "Y" ∷ points "yes" ∷ []))

  unfoldable pub finish_purge : FilePath → Value → Bool → Exec ℕ
  finish_purge state expected consent = do
    go ← may_purge consent
    (if go
        then with_lock (child state (points "operation.lock")) (purge_locked state expected)
        else pure 0)
