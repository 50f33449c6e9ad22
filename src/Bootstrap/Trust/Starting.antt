-- ===== src/Bootstrap/Trust/Starting.antt =====
-- Lemmas about the steps of `main` in scripts/bootstrap.py, by the rules for its log.
use grepglint.Base.{
  ℕ, ◌+◌, ◌*◌, Bool, true, false, not, ◌&&◌, Option, none, some, List, ◌∷◌, if◌then◌else◌, Text,
  points,
}
use grepglint.Base.Json.{Fields}
use grepglint.Bootstrap.Machine.{◌>>=◌, ◌>>◌, Event, Log, Machine, Exec, pure}
use grepglint.Bootstrap.Removal.{Action}
use grepglint.Bootstrap.Repair.{given, require_space}
use grepglint.Bootstrap.Main.{
  is_any, is_recovery, read_record, load_record, choose_release, check_identity, start_fetched,
  may_fetch, install_release,
}
use grepglint.Bootstrap.Actions.{stat_path, temporary_folder}
use grepglint.Bootstrap.Fetch.{Fetched, fetch}
use grepglint.Bootstrap.Logic.{
  Extends, Extends-trans, Any, AllGood, After, After-pure, After-lift, After-if, After-bind, Quiet,
  Quiet-pure, Quiet-lift, Quiet-observe, Quiet-if, Quiet-require_that, Quiet-bind, After-Quiet,
  Quiet-option, After-lifted,
}
use grepglint.Bootstrap.Files.{cap_bytes}
use grepglint.Bootstrap.Trust.{
  HasRecord, Trusted, Allowed, Calm-Allowed, HasRecord-Extends, Trusted-Extends, After-call,
}
use grepglint.Bootstrap.Paths.{FilePath, child}
use grepglint.Bootstrap.Logic.Reading.{
  Calm, ReadFile, ReadFile-Extends, After-regular, Quiet-is_there, Quiet-validate_record,
}
use grepglint.Bootstrap.Trust.Repairing.{Quiet-require_space, After-repair_local}
use grepglint.Bootstrap.Trust.Fetching.{Quiet-temporary_folder, After-fetch}

abbrev pub OnRecord : Machine → FilePath → Option Fields → Log → Type 0
OnRecord machine state none log = Unit
OnRecord machine state (some m) log = HasRecord machine state m log

module _ (machine : Machine) (state : FilePath) (helper : Option Text) where
  abbrev Ok : Event → Log → Type 0
  Ok = Allowed machine state helper

  abbrev calm : Calm Ok
  calm = Calm-Allowed machine state helper

  pub OnRecord-Extends :
      (found : Option Fields) {new old : Log}
      → Extends new old
      → OnRecord machine state found old
      → OnRecord machine state found new
  OnRecord-Extends none x r = tt
  OnRecord-Extends (some m) x r = HasRecord-Extends machine state helper x r

  Quiet-stat_path : (p : FilePath) → Quiet Ok (stat_path machine p)
  unfolding stat_path
  Quiet-stat_path p =
      Quiet-bind Ok _ _ (Quiet-observe Ok _ _ (λ info log. tt)) λ info. Quiet-lift Ok _

  After-read_record :
      (log : Log)
      → AllGood Ok log
      → After Ok (λ m later. HasRecord machine state m later) log (read_record machine state log)
  unfolding read_record
  After-read_record log g =
      let Q = λ (m : Fields) (later : Log). HasRecord machine state m later in
      let place = child state (points "record.json") in
      After-Quiet Ok Q _ _ log (Quiet-stat_path state) g λ one l1 x1 g1.
        After-Quiet Ok Q _ _ l1 (Quiet-require_that Ok _ _) g1 λ u l2 x2 g2.
          After-Quiet Ok Q _ _ l2 (Quiet-stat_path state) g2 λ two l3 x3 g3.
            After-Quiet Ok Q _ _ l3 (Quiet-require_that Ok _ _) g3 λ v l4 x4 g4.
              After-bind Ok (λ raw l. ReadFile place 65536 raw l) Q _ _ l4
                (After-regular machine Ok calm place 65536 l4 g4)
                λ raw l5 x5 g5 read. After-lifted Ok Q _ _ l5 g5 λ record_value parsed.
                  After-Quiet Ok Q _ _ l5 (Quiet-validate_record machine Ok calm record_value state)
                    g5
                    λ w l6 x6 g6. After-lift Ok Q _ l6 g6 λ m e. record {
                      raw = raw;
                      read = ReadFile-Extends x6 read;
                      record_value = record_value;
                      parsed = parsed;
                      has_fields = e;
                    }

  pub After-load_record :
      (log : Log)
      → AllGood Ok log
      → After Ok (λ o later. OnRecord machine state o later) log (load_record machine state log)
  unfolding load_record
  After-load_record log g =
      After-Quiet Ok (λ o later. OnRecord machine state o later) _ _ log
        (Quiet-is_there machine Ok calm (child state (points "record.json"))) g
        λ there l x g1. choose there l g1
    where
      choose :
          (there : Bool) (l : Log)
          → AllGood Ok l
          → After Ok
              (λ o later. OnRecord machine state o later)
              l
              ((if there then (read_record machine state >>= λ m. pure (some m)) else pure none) l)
      choose true l g1 =
          After-bind Ok (λ m k. HasRecord machine state m k) (λ o k. OnRecord machine state o k) _ _
            l (After-read_record l g1)
            λ m k x g2 r. After-pure Ok (λ o k1. OnRecord machine state o k1) (some m) k g2 r
      choose false l g1 = After-pure Ok (λ o k. OnRecord machine state o k) none l g1 tt

  Quiet-choose_release : (release : Option Text) → Quiet Ok (choose_release machine release)
  unfolding choose_release
  Quiet-choose_release release =
      Quiet-option Ok (given release) _ _
        (Quiet-if Ok machine.is_terminal _ _
          (Quiet-bind Ok _ _ (Quiet-observe Ok _ _ (λ s log. tt)) λ s. Quiet-pure Ok _)
          (Quiet-lift Ok _))
        (λ r. Quiet-pure Ok (some r))

  Quiet-check_identity :
      (action : Action) (found : Option Fields) (fetched : Fetched)
      → Quiet Ok (check_identity machine action found fetched)
  Quiet-check_identity action none fetched = unfold check_identity in Quiet-pure Ok tt
  Quiet-check_identity action (some m) fetched = unfold check_identity in Quiet-require_that Ok _ _

  Quiet-may_fetch :
      (action : Action) (found : Option Fields) → Quiet Ok (may_fetch machine action found)
  Quiet-may_fetch action none = unfold may_fetch in Quiet-require_that Ok _ _
  Quiet-may_fetch action (some m) = unfold may_fetch in Quiet-require_that Ok _ _

  After-start_fetched :
      (action : Action) (found : Option Fields) (native_args : List Text)
      (asked_release : Option Text) (release : Text) (fetched : Fetched) (log : Log)
      → AllGood Ok log
      → OnRecord machine state found log
      → Trusted machine state helper fetched.binary log
      → After Ok Any log
          (start_fetched machine action found native_args asked_release release fetched log)
  unfolding start_fetched
  After-start_fetched action none native_args asked_release release fetched log g r t =
      After-call machine state helper fetched.binary _ log g t
  After-start_fetched action (some m) native_args asked_release release fetched log g r t =
      After-if Ok Any (is_any (Action.repair ∷ List.[]) action && not (is_recovery m)) _ _ log
        (After-repair_local machine state helper m native_args fetched.binary asked_release log g r
          t)
        (After-call machine state helper fetched.binary _ log g t)

  pub After-install_release :
      (action : Action) (found : Option Fields) (native_args : List Text)
      (asked_release release : Option Text) (log : Log)
      → AllGood Ok log
      → OnRecord machine state found log
      → After Ok Any log
          (install_release machine action found native_args asked_release release log)
  unfolding install_release
  After-install_release action found native_args asked_release release log g r =
      After-Quiet Ok Any _ _ log (Quiet-may_fetch action found) g λ u l1 x1 g1.
        After-Quiet Ok Any _ _ l1 (Quiet-choose_release release) g1
          λ chosen l2 x2 g2. choose chosen l2 g2 (OnRecord-Extends found (Extends-trans x1 x2) r)
    where
      choose :
          (chosen : Option Text) (l : Log)
          → AllGood Ok l
          → OnRecord machine state found l
          → After Ok Any l (
              elim chosen as (λ u. Exec ℕ) [
                | none ↦ pure 0
                | some r0 ↦ (do
                  require_space machine
                      (4 * cap_bytes + 64 * 1024 * 1024)
                      "Insufficient staging disk space"
                  folder ← temporary_folder machine
                  fetched ← fetch machine r0 folder
                  check_identity machine action found fetched
                  start_fetched machine action found native_args asked_release r0 fetched)
              ]
                l)
      choose none l g1 r1 = After-pure Ok Any 0 l g1 tt
      choose (some r0) l g1 r1 =
          After-Quiet Ok Any _ _ l (Quiet-require_space machine state helper _ _) g1 λ u l2 x2 g2.
            After-Quiet Ok Any _ _ l2 (Quiet-temporary_folder machine state helper) g2
              λ folder lf xf gf.
                After-bind Ok (λ found0 k. Trusted machine state helper found0.binary k) Any _ _ lf
                  (After-fetch machine state helper r0 folder lf gf)
                  λ fetched l3 x3 g3 t.
                    After-Quiet Ok Any _ _ l3 (Quiet-check_identity action found fetched) g3
                      λ v l4 x4 g4.
                        After-start_fetched action found native_args asked_release r0 fetched l4 g4
                          (OnRecord-Extends found
                            (Extends-trans x2 (Extends-trans xf (Extends-trans x3 x4))) r1)
                          (Trusted-Extends machine state helper x4 t)
