-- ===== src/Bootstrap/Main.antt =====
-- `main` of scripts/bootstrap.py, on parsed arguments. What the code prints is left out, and so are
-- the umask and the limit on core files.
pub mod Status
use grepglint.Base.{
  ℕ, ◌+◌, ◌*◌, ◌%◌, Bool, not, ◌&&◌, ◌||◌, Option, none, some, List, [], ◌∷◌, ◌++◌, eqb,
  if◌then◌else◌, any, Text, points, same_text, strip,
}
use grepglint.Bootstrap.Actions.{regular, is_there, stat_path, path_check, call, temporary_folder}
use grepglint.Base.Json.{Fields, get, as_text}
use grepglint.Bootstrap.Machine.{
  ◌>>=◌, ◌>>◌, Info, Machine, Exec, pure, lift, require_that, observe, asked,
}
use grepglint.Base.Result.{invalid, err}
use grepglint.Bootstrap.Removal.{
  Action, action_text, Args, is_given, is_recorded, removal, install, verify, status, upgrade,
  repair, uninstall, purge,
}
use grepglint.Bootstrap.Repair.{with_action, given, require_space, require_digest, repair_local}
use grepglint.Bootstrap.Fetch.{Fetched, commit, fetch}
use grepglint.Bootstrap.Checks.{is_text}
use grepglint.Bootstrap.Record.{is_null, path_of, validate_record}
use grepglint.Bootstrap.Files.{cap_bytes}
use grepglint.Bootstrap.Paths.{FilePath, parse_path, path_text, child}
use grepglint.Bootstrap.Record.Scalars.{fields_of, is_phase_text}

unfoldable pub is_any : List Action → Action → Bool
is_any actions a = any (λ b. same_text (action_text a) (action_text b)) actions

-- The menu.
unfoldable pub choice : Text → Option Action
unfolding same_text
choice s =
    if same_text s (points "1")
    then some Action.install
    else if same_text s (points "2")
    then some Action.verify
    else if same_text s (points "3")
    then some Action.status
    else if same_text s (points "4")
    then some Action.upgrade
    else if same_text s (points "5")
    then some Action.repair
    else if same_text s (points "6")
    then some Action.uninstall
    else if same_text s (points "7")
    then some Action.purge
    else none

option_args : Text → Option Text → List Text
option_args option value = elim (given value) [ none ↦ [] | some s ↦ option ∷ s ∷ [] ]

flag_args : Text → Bool → List Text
flag_args flag b = if b then flag ∷ [] else []

unfoldable pub native_args_of : Action → Args → FilePath → List Text
unfolding option_args flag_args action_text path_text
native_args_of action args state =
    points "setup"
      ∷ action_text action
      ∷ points "--state-dir"
      ∷ path_text state
      ∷ option_args (points "--destination") args.destination
    ++ option_args (points "--cache-dir") args.cache_dir
    ++ flag_args (points "--migrate-cargo") args.migrate_cargo
    ++ flag_args (points "--yes") args.yes_given
    ++ flag_args (points "--purge-cache") args.purge_cache

unfoldable pub is_state : Info → Bool
is_state info = eqb (info.mode % 4096) 448

-- `record.get("change") is not None`
abbrev pub is_recovery : Fields → Bool
is_recovery m = not (is_null (get "change" m))

unfoldable pub recorded_release : Fields → Option Text
recorded_release m = elim (as_text (get "release" m)) [ none ↦ none | some s ↦ some (points s) ]

module _ (machine : Machine) where
  unfoldable pub read_record : FilePath → Exec Fields
  read_record state = do
    first ← stat_path machine state
    require_that (is_state first) "State must be private and account-owned"
    second ← stat_path machine state
    require_that second.mine "State must be private and account-owned"
    raw ← regular machine (child state (points "record.json")) 65536
    record_value ← lift (machine.json raw)
    validate_record machine record_value state
    lift (fields_of record_value)

  unfoldable pub load_record : FilePath → Exec (Option Fields)
  load_record state = do
    there ← is_there machine (child state (points "record.json"))
    (if there then (read_record state >>= λ m. pure (some m)) else pure none)

  -- The action of the arguments, or of the menu; none cancels.
  unfoldable pub choose_action : Option Action → Exec (Option Action)
  choose_action (some action) = pure (some action)
  choose_action none = do
    require_that machine.is_terminal "Noninteractive use requires an explicit action; see --help"
    s ← observe (λ log. machine.answer log) (λ a. asked)
    pure (choice (strip s))

  -- `args.release`, asked for at a terminal; none cancels.
  unfoldable pub choose_release : Option Text → Exec (Option Text)
  choose_release release = elim (given release) [
    | some r ↦ pure (some r)
    | none ↦
        (if machine.is_terminal
          then (observe (λ log. machine.answer log) (λ a. asked) >>= λ s.
              pure (given (some (strip s))))
          else lift (err (invalid "Install or upgrade requires --release vMAJOR.MINOR.PATCH")))
  ]

  -- Whether the fetched release has to be the recorded one.
  unfoldable pub is_bound : Action → Fields → Bool
  is_bound action m = not (is_any (Action.upgrade ∷ []) action) || is_recovery m

  unfoldable pub check_identity : Action → Option Fields → Fetched → Exec (Unit {0})
  check_identity action none fetched = pure tt
  check_identity action (some m) fetched =
      require_that
        (not (is_bound action m)
          || (is_text fetched.commit (get "commit" m) && is_text fetched.digest (get "digest" m)))
        "Recovery release identity changed"

  -- The end of `main`, with the executable that has been fetched.
  unfoldable pub start_fetched :
      Action → Option Fields → List Text → Option Text → Text → Fetched → Exec ℕ
  start_fetched action (some m) native_args asked_release release fetched =
      if is_any (Action.repair ∷ []) action && not (is_recovery m)
      then repair_local machine m native_args fetched.binary asked_release
      else call machine (
          path_text fetched.binary ∷ native_args
          ++ points "--release"
            ∷ release
            ∷ points "--commit"
            ∷ fetched.commit
            ∷ points "--digest"
            ∷ fetched.digest
            ∷ [])
  start_fetched action none native_args asked_release release fetched = call machine (
      path_text fetched.binary ∷ native_args
      ++ points "--release"
        ∷ release
        ∷ points "--commit"
        ∷ fetched.commit
        ∷ points "--digest"
        ∷ fetched.digest
        ∷ [])

  unfoldable pub may_fetch : Action → Option Fields → Exec (Unit {0})
  may_fetch action none =
      require_that (is_any (Action.install ∷ []) action)
        "No installation record; run ./install install first"
  may_fetch action (some m) =
      require_that
        (is_any (Action.install ∷ Action.upgrade ∷ Action.repair ∷ []) action || is_recovery m)
        "No installation record; nothing verified"

  -- From line 430 on: fetch a release and start it.
  unfoldable pub install_release :
      Action → Option Fields → List Text → Option Text → Option Text → Exec ℕ
  install_release action found native_args asked_release release = do
    may_fetch action found
    chosen ← choose_release release
    elim chosen [
      | none ↦ pure 0
      | some r ↦ (do
        require_space machine (4 * cap_bytes + 64 * 1024 * 1024) "Insufficient staging disk space"
        folder ← temporary_folder machine
        fetched ← fetch machine r folder
        check_identity action found fetched
        start_fetched action found native_args asked_release r fetched)
    ]

  -- `local`, the copy to start.
  unfoldable pub local_copy : FilePath → Fields → Exec FilePath
  local_copy state m =
      if is_recovery m && is_phase_text "complete" (get "phase" m)
      then (is_there machine (child state (points "candidate")) >>= λ there.
          pure (child state (points (if there then "candidate" else "maintenance"))))
      else pure (child state (points (if is_recovery m then "candidate" else "maintenance")))

  -- `args.release`, once a record decides it.
  unfoldable pub release_for : Action → Fields → Option Text → Option Text
  release_for action m release = if is_bound action m then recorded_release m else release

  -- The branch in which the copy is there.
  unfoldable pub start_copy :
      Action → Fields → List Text → Option Text → Option Text → FilePath → Exec ℕ
  start_copy action m native_args asked_release release local = do
    require_digest machine m local "Maintenance copy changed; refusing to execute it"
    (if is_any (Action.repair ∷ []) action && not (is_recovery m)
        then repair_local machine m native_args local asked_release
        else if is_bound action m
        then call machine (path_text local ∷ native_args)
        else install_release action (some m) native_args asked_release
            (release_for action m release))

  -- The branch in which it is not, outside a recovery.
  unfoldable pub without_copy : Action → Fields → List Text → Option Text → Option Text → Exec ℕ
  without_copy action m native_args asked_release release = do
    require_that
        (is_any (Action.repair ∷ []) action
          || (is_phase_text "prepared" (get "phase" m) && is_any (Action.install ∷ []) action))
        "Maintenance copy missing; run ./install repair"
    installed ← lift (path_of (get "destination" m))
    there ← is_there machine installed
    (if there
        then (do
          require_digest machine m installed "Installed executable modified; preserved"
          (if is_any (Action.repair ∷ []) action
              then repair_local machine m native_args installed asked_release
              else install_release action (some m) native_args asked_release
                  (release_for action m release)))
        else install_release action (some m) native_args asked_release
            (release_for action m release))

  unfoldable pub may_use : Action → Fields → Option Text → Bool
  may_use action m release =
      is_any (Action.upgrade ∷ Action.repair ∷ []) action || is_recorded release (get "release" m)

  unfoldable pub maintain :
      Action → FilePath → Fields → List Text → Option Text → Option Text → Exec ℕ
  maintain action state m native_args asked_release release = do
    require_that (may_use action m release)
        "Upgrade or downgrade requires the upgrade action; recorded release preserved"
    let chosen_args =
        if is_recovery m then with_action (points "repair") native_args else native_args
    local ← local_copy state m
    there ← is_there machine local
    (if there
        then start_copy action m chosen_args asked_release release local
        else if is_recovery m
        then install_release action (some m) chosen_args asked_release
            (release_for action m release)
        else without_copy action m chosen_args asked_release release)

  -- From line 396 on, with the action chosen.
  unfoldable pub act : Args → Action → FilePath → Option Fields → Exec ℕ
  act args action state found =
      let native_args = native_args_of action args state in
      let asked_release = if is_any (Action.repair ∷ []) action then args.release else none in
      if is_any (Action.uninstall ∷ Action.purge ∷ []) action
      then removal machine args action state found native_args
      else (do
        require_that (not (is_given args.removal_helper))
            "--removal-helper applies only to uninstall/purge"
        (if is_any (Action.status ∷ []) action then pure 0 else elim found [
          | none ↦ install_release action none native_args asked_release args.release
          | some m ↦ maintain action state m native_args asked_release args.release
        ]))

  unfoldable pub main : Args → Exec ℕ
  main args = do
    require_that (not machine.is_root) "Run as your normal account, without sudo"
    let state = parse_path args.state_dir
    path_check machine state
    found ← load_record state
    chosen ← choose_action args.action
    elim chosen [ none ↦ pure 0 | some action ↦ act args action state found ]
