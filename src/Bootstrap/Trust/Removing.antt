-- ===== src/Bootstrap/Trust/Removing.antt =====
-- Lemmas about `removal` of scripts/bootstrap.py, by the rules for its log.
use grepglint.Base.{
  ℕ, ◌≡◌, refl, ◌⊎◌, inl, inr, Bool, true, false, ◌&&◌, ◌||◌, Option, none, some, List, ◌∷◌,
  if◌then◌else◌, Text, points,
}
use grepglint.Bootstrap.Actions.{regular, path_check, call}
use grepglint.Base.Json.{Value, Fields, get, dict}
use grepglint.Bootstrap.Machine.{◌>>=◌, ◌>>◌, Event, Log, Machine, Exec, pure, lift, require_that}
use grepglint.Base.Result.{ok}
use grepglint.Bootstrap.Removal.{
  Action, Args, is_given, is_purge, prior_digest, is_finalizing, check_copy, removal_program,
  remove_recorded, removal,
}
use grepglint.Bootstrap.Repair.{given}
use grepglint.Bootstrap.Fetch.{supports}
use grepglint.Bootstrap.Checks.{is_text}
use grepglint.Bootstrap.Logic.{
  Extends-trans, Any, AllGood, After, After-pure, After-bind, Quiet, Quiet-pure, Quiet-if,
  Quiet-require_that, Quiet-bind, After-Quiet, After-require_last, After-lifted,
}
use grepglint.Bootstrap.Purge.{finish_purge}
use grepglint.Bootstrap.Files.{cap_bytes}
use grepglint.Bootstrap.Trust.{
  HasRecord, Trusted, Allowed, Calm-Allowed, HasRecord-Extends, Trusted-Extends, After-call,
  After-supports, by_record, by_user,
}
use grepglint.Bootstrap.Paths.{FilePath, parse_path, path_text, child}
use grepglint.Bootstrap.Logic.Reading.{
  ReadFile, After-regular, Quiet-regular, Quiet-lexists, Quiet-path_check,
}
use grepglint.Bootstrap.Record.Scalars.{is_phase_text}
use grepglint.Bootstrap.Trust.Purging.{Quiet-finish_purge, Quiet-remove_nothing}

module _ (machine : Machine) (state : FilePath) (args : Args) where
  abbrev Fine : Event → Log → Type 0
  Fine = Allowed machine state args.removal_helper

  abbrev Checked : FilePath → Log → Type 0
  Checked local log =
      Trusted machine state args.removal_helper local log ⊎ (is_given args.removal_helper ≡ true)

  abbrev Safe : FilePath → Log → Type 0
  Safe p log = Trusted machine state args.removal_helper p log

  -- The copy has a recorded digest, or the user has named a helper.
  After-check_copy :
      (local : FilePath) (m : Fields) (log : Log)
      → AllGood Fine log
      → HasRecord machine state m log
      → After Fine
          (λ u later. Safe local later ⊎ (is_given args.removal_helper ≡ true))
          log
          (check_copy machine args local m log)
  unfolding check_copy
  After-check_copy local m log g r =
      After-Quiet Fine (λ u k. Checked local k) _ _ log
        (Quiet-lexists machine Fine (Calm-Allowed machine state args.removal_helper) local) g
        λ there l1 x1 g1.
          choose there l1 g1 (HasRecord-Extends machine state args.removal_helper x1 r)
    where
      compare :
          (prior : Option Value) (bytes : List ℕ) (l : Log)
          → prior_digest m ≡ ok prior
          → HasRecord machine state m l
          → ReadFile local cap_bytes bytes l
          → (is_text (machine.sha256 bytes) (get "digest" m)
              || is_text (machine.sha256 bytes) prior)
            ≡ true
          → Safe local l
      compare prior bytes l e r1 read same = by_record record {
        m = m;
        recorded = r1;
        bytes = bytes;
        read = read;
        digest = either (is_text (machine.sha256 bytes) (get "digest" m)) same;
      }
        where
          either :
              (b : Bool)
              → (b || is_text (machine.sha256 bytes) prior) ≡ true
              → (b ≡ true)
                ⊎ ((o : Option Value) × (prior_digest m ≡ ok o)
                    × (is_text (machine.sha256 bytes) o ≡ true))
          either true h = inl refl
          either false h = inr (prior, e, h)

      choose :
          (there : Bool) (l : Log)
          → AllGood Fine l
          → HasRecord machine state m l
          → After Fine
              (λ u later. Checked local later)
              l
              ((if there
                  then (do
                    prior ← lift (prior_digest m)
                    bytes ← regular machine local cap_bytes
                    require_that
                        (is_text (machine.sha256 bytes) (get "digest" m)
                          || is_text (machine.sha256 bytes) prior)
                        "Maintenance copy changed; refusing to execute it")
                  else require_that
                      (is_given args.removal_helper
                        && is_phase_text "purge_finalizing" (get "phase" m))
                      "Maintenance copy missing; preserved")
                l)
      choose false l g1 r1 =
          After-require_last Fine (λ u k. Checked local k) _ _ l g1
            λ h. inr (first (is_given args.removal_helper) _ h)
        where
          first : (a b : Bool) → (a && b) ≡ true → a ≡ true
          first true b h = refl
          first false b h = h
      choose true l g1 r1 =
          After-lifted Fine (λ u k. Checked local k) _ _ l g1
            λ prior e.
              After-bind Fine (λ bytes k. ReadFile local cap_bytes bytes k) (λ u k. Checked local k)
                _ _ l
                (After-regular machine Fine (Calm-Allowed machine state args.removal_helper) local
                  cap_bytes l g1)
                λ bytes k x g2 read.
                  After-require_last Fine (λ u k. Checked local k) _ _ k g2
                    λ same. inl (
                      compare prior bytes k e
                        (HasRecord-Extends machine state args.removal_helper x r1) read same)

  After-removal_program :
      (local : FilePath) (log : Log)
      → AllGood Fine log
      → Safe local log ⊎ (is_given args.removal_helper ≡ true)
      → After Fine (λ p later. Safe p later) log (removal_program machine args local log)
  unfolding removal_program
  After-removal_program local log g s = choose (given args.removal_helper) refl s
    where
      choose :
          (o : Option Text)
          → given args.removal_helper ≡ o
          → Safe local log ⊎ (elim o [ none ↦ false | some t ↦ true ] ≡ true)
          → After Fine
              (λ p later. Safe p later)
              log
              (elim o as (λ u. Exec FilePath) [
                | none ↦ pure local
                | some t ↦ (do
                  path_check machine (parse_path t)
                  bytes ← regular machine (parse_path t) cap_bytes
                  pure (parse_path t))
              ]
                log)
      choose none e (inl t) = After-pure Fine (λ p later. Safe p later) local log g t
      choose none e (inr h) = cc
      choose (some t) e u =
          let calm = Calm-Allowed machine state args.removal_helper in
          let Q = λ (p : FilePath) (later : Log). Safe p later in
          After-Quiet Fine Q _ _ log (Quiet-path_check machine Fine calm (parse_path t)) g
            λ v l1 x1 g1.
              After-Quiet Fine Q _ _ l1 (Quiet-regular machine Fine calm (parse_path t) cap_bytes)
                g1 λ bytes l2 x2 g2. After-pure Fine Q (parse_path t) l2 g2 (by_user t e refl)

  Quiet-is_finalizing :
      (local : FilePath) (m : Fields) → Quiet Fine (is_finalizing machine args local m)
  unfolding is_finalizing
  Quiet-is_finalizing local m =
      let calm = Calm-Allowed machine state args.removal_helper in
      Quiet-if Fine _ _ _
        (Quiet-bind Fine _ _ (Quiet-lexists machine Fine calm local) λ there. Quiet-pure Fine _)
        (Quiet-pure Fine false)

  After-remove_recorded :
      (action : Action) (m : Fields) (native_args : List Text) (log : Log)
      → AllGood Fine log
      → HasRecord machine state m log
      → After Fine Any log (remove_recorded machine args action state m native_args log)
  unfolding remove_recorded
  After-remove_recorded action m native_args log g r =
      After-Quiet Fine Any _ _ log (Quiet-require_that Fine _ _) g λ u l1 x1 g1.
        After-Quiet Fine Any _ _ l1 (Quiet-is_finalizing (child state (points "maintenance")) m) g1
          λ finalizing l2 x2 g2.
            choose finalizing l2 g2
              (HasRecord-Extends machine state args.removal_helper (Extends-trans x1 x2) r)
    where
      choose :
          (finalizing : Bool) (l : Log)
          → AllGood Fine l
          → HasRecord machine state m l
          → After Fine Any l (
              (if finalizing
                  then (do
                    require_that
                        (is_purge action)
                        "Purge finalization pending; rerun purge --purge-cache"
                    finish_purge machine state (dict m) args.purge_cache)
                  else (do
                    check_copy machine args (child state (points "maintenance")) m
                    program ← removal_program machine args (child state (points "maintenance"))
                    able ← supports machine (points "--purge-cache") program
                    require_that able "Retained release predates offline removal"
                    call machine (path_text program ∷ native_args)))
                l)
      choose true l g1 r1 = After-Quiet Fine Any _ _ l (Quiet-require_that Fine _ _) g1 λ u k x g2.
          (Quiet-finish_purge machine state args.removal_helper state (dict m) args.purge_cache).at
            k g2
      choose false l g1 r1 =
          let local = child state (points "maintenance") in
          After-bind Fine (λ u k. Checked local k) Any _ _ l (After-check_copy local m l g1 r1)
            λ u k x g2 s.
              After-bind Fine (λ p k1. Safe p k1) Any _ _ k (After-removal_program local k g2 s)
                λ program k1 x1 g3 t.
                  After-bind Fine Any Any _ _ k1
                    (After-supports machine state args.removal_helper _ program k1 g3 t)
                    λ able k2 x2 g4 n.
                      After-Quiet Fine Any _ _ k2 (Quiet-require_that Fine _ _) g4 λ v k3 x3 g5.
                        After-call machine state args.removal_helper program _ k3 g5 (
                          Trusted-Extends machine state args.removal_helper (Extends-trans x2 x3) t)

  pub After-removal-none :
      (action : Action) (native_args : List Text) (log : Log)
      → AllGood Fine log
      → After Fine Any log (removal machine args action state none native_args log)
  unfolding removal
  After-removal-none action native_args log g =
      (Quiet-remove_nothing machine state args.removal_helper state).at log g

  pub After-removal-some :
      (action : Action) (m : Fields) (native_args : List Text) (log : Log)
      → AllGood Fine log
      → HasRecord machine state m log
      → After Fine Any log (removal machine args action state (some m) native_args log)
  unfolding removal
  After-removal-some action m native_args log g r =
      After-remove_recorded action m native_args log g r
