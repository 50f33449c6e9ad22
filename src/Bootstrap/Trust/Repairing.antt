-- ===== src/Bootstrap/Trust/Repairing.antt =====
-- Lemmas about `repair_local` of scripts/bootstrap.py, by the rules for its log.
use grepglint.Base.{
  ℕ, String, inl, Bool, true, false, Option, none, some, List, ◌∷◌, if◌then◌else◌, Text, points,
  strip,
}
use grepglint.Base.Json.{Fields}
use grepglint.Bootstrap.Machine.{◌>>=◌, ◌>>◌, Event, Log, Machine, pure}
use grepglint.Bootstrap.Repair.{
  with_action, latest_args, given, is_unfinished, is_other_release, helper_release, require_space,
  repair_with_helper, require_digest, are_both_there, repair_complete, repair_local,
}
use grepglint.Bootstrap.Actions.{run, call, decode_utf8}
use grepglint.Bootstrap.Logic.{
  Extends-trans, Any, AllGood, After, After-bind, Quiet, Quiet-pure, Quiet-observe,
  Quiet-require_that, Quiet-bind, After-Quiet, After-require_last, After-lifted, quiet_rules,
}
use grepglint.Bootstrap.Files.{cap_bytes, meta_cap}
use grepglint.Bootstrap.Trust.{
  HasRecord, Trusted, Allowed, Calm-Allowed, HasRecord-Extends, Trusted-Extends, After-call,
  Quiet-run_gh, After-supports, by_record,
}
use grepglint.Bootstrap.Paths.{FilePath, path_text}
use grepglint.Bootstrap.Logic.Reading.{ReadFile, After-regular, Quiet-path_exists}
use grepglint.Bootstrap.Trust.Fetching.{Quiet-decode_utf8, Quiet-temporary_folder, After-fetch}

module _ (machine : Machine) (state : FilePath) (helper : Option Text) where
  abbrev Ok : Event → Log → Type 0
  Ok = Allowed machine state helper

  Quiet-helper_release : (requested : Option Text) → Quiet Ok (helper_release machine requested)
  unfolding helper_release
  Quiet-helper_release requested = go (given requested)
    where
      go :
          (o : Option Text)
          → Quiet Ok (elim o [
            | some r ↦ pure r
            | none ↦ (do
              out ← run machine latest_args meta_cap
              content ← decode_utf8 machine out
              pure (strip content))
          ])
      go (some r) = Quiet-pure Ok r
      go none =
          search
            (quiet_rules, Quiet-run_gh machine state helper, Quiet-decode_utf8 machine state helper)
            depth 12

  pub Quiet-require_space :
      (size : ℕ) (message : String) → Quiet Ok (require_space machine size message)
  unfolding require_space
  Quiet-require_space size message =
      Quiet-bind Ok _ _ (Quiet-observe Ok _ _ (λ n log. tt)) (λ n. Quiet-require_that Ok _ _)

  After-repair_with_helper :
      (native_args : List Text) (source : FilePath) (requested : Option Text) (log : Log)
      → AllGood Ok log
      → After Ok Any log (repair_with_helper machine native_args source requested log)
  unfolding repair_with_helper
  After-repair_with_helper native_args source requested log g =
      After-Quiet Ok Any _ _ log (Quiet-helper_release requested) g λ release l1 x1 g1.
        After-Quiet Ok Any _ _ l1 (Quiet-require_that Ok _ _) g1 λ u l2 x2 g2.
          After-Quiet Ok Any _ _ l2 (Quiet-require_space _ _) g2 λ v l3 x3 g3.
            After-Quiet Ok Any _ _ l3 (Quiet-temporary_folder machine state helper) g3
              λ folder lf xf gf.
                After-bind Ok (λ found l. Trusted machine state helper found.binary l) Any _ _ lf
                  (After-fetch machine state helper release folder lf gf)
                  λ found l4 x4 g4 t.
                    After-bind Ok Any Any _ _ l4
                      (After-supports machine state helper _ found.binary l4 g4 t)
                      λ able l5 x5 g5 n.
                        After-Quiet Ok Any _ _ l5 (Quiet-require_that Ok _ _) g5 λ w l6 x6 g6.
                          After-call machine state helper found.binary _ l6 g6
                            (Trusted-Extends machine state helper (Extends-trans x5 x6) t)

  -- A file with the recorded digest is trusted.
  pub After-require_digest :
      (m : Fields) (p : FilePath) (message : String) (log : Log)
      → AllGood Ok log
      → HasRecord machine state m log
      → After Ok
          (λ u later. Trusted machine state helper p later)
          log
          (require_digest machine m p message log)
  unfolding require_digest
  After-require_digest m p message log g r =
      After-bind Ok (λ bytes l. ReadFile p cap_bytes bytes l)
        (λ u later. Trusted machine state helper p later) _ _ log
        (After-regular machine Ok (Calm-Allowed machine state helper) p cap_bytes log g)
        λ bytes l1 x1 g1 read.
          After-require_last Ok (λ u later. Trusted machine state helper p later) _ _ l1 g1
            λ same. by_record record {
              m = m;
              recorded = HasRecord-Extends machine state helper x1 r;
              bytes = bytes;
              read = read;
              digest = inl same;
            }

  Quiet-are_both_there : (m : Fields) (p q : FilePath) → Quiet Ok (are_both_there machine m p q)
  unfolding are_both_there
  Quiet-are_both_there m p q =
      let exists = Quiet-path_exists machine Ok (Calm-Allowed machine state helper) in
      search (quiet_rules, exists)

  After-repair_complete :
      (m : Fields) (native_args : List Text) (source : FilePath) (requested : Option Text)
      (log : Log)
      → AllGood Ok log
      → HasRecord machine state m log
      → Trusted machine state helper source log
      → After Ok Any log (repair_complete machine m native_args source requested log)
  unfolding repair_complete
  After-repair_complete m native_args source requested log g r t =
      After-lifted Ok Any _ _ log g λ destination e. After-lifted Ok Any _ _ log g λ place f.
        After-Quiet Ok Any _ _ log (Quiet-are_both_there m destination _) g λ there l1 x1 g1.
          choose there destination _ l1 g1 (HasRecord-Extends machine state helper x1 r)
            (Trusted-Extends machine state helper x1 t)
    where
      choose :
          (there : Bool) (destination maintenance : FilePath) (l : Log)
          → AllGood Ok l
          → HasRecord machine state m l
          → Trusted machine state helper source l
          → After Ok Any l (
              (if there
                  then (do
                    require_digest machine m destination "Modified executable preserved"
                    require_digest machine m maintenance "Modified executable preserved"
                    call machine (path_text source ∷ with_action (points "verify") native_args))
                  else repair_with_helper machine native_args source requested)
                l)
      choose false destination maintenance l g1 r1 t1 =
          After-repair_with_helper native_args source requested l g1
      choose true destination maintenance l g1 r1 t1 =
          After-bind Ok (λ u later. Trusted machine state helper destination later) Any _ _ l
            (After-require_digest m destination _ l g1 r1)
            λ u l2 x2 g2 n.
              After-bind Ok (λ v later. Trusted machine state helper maintenance later) Any _ _ l2
                (After-require_digest m maintenance _ l2 g2
                  (HasRecord-Extends machine state helper x2 r1))
                λ v l3 x3 g3 o.
                  After-call machine state helper source _ l3 g3
                    (Trusted-Extends machine state helper (Extends-trans x2 x3) t1)

  pub After-repair_local :
      (m : Fields) (native_args : List Text) (source : FilePath) (requested : Option Text)
      (log : Log)
      → AllGood Ok log
      → HasRecord machine state m log
      → Trusted machine state helper source log
      → After Ok Any log (repair_local machine m native_args source requested log)
  unfolding repair_local
  After-repair_local m native_args source requested log g r t =
      After-bind Ok Any Any _ _ log (After-supports machine state helper _ source log g t)
        λ able l1 x1 g1 n.
          choose able (is_other_release requested m) (is_unfinished m) l1 g1
            (HasRecord-Extends machine state helper x1 r)
            (Trusted-Extends machine state helper x1 t)
    where
      choose :
          (able other unfinished : Bool) (l : Log)
          → AllGood Ok l
          → HasRecord machine state m l
          → Trusted machine state helper source l
          → After Ok Any l (
              (if able
                  then (if other
                      then repair_with_helper machine native_args source requested
                      else call machine (path_text source ∷ native_args))
                  else if unfinished
                  then call machine (path_text source ∷ with_action (points "install") native_args)
                  else repair_complete machine m native_args source requested)
                l)
      choose true true unfinished l g1 r1 t1 =
          After-repair_with_helper native_args source requested l g1
      choose true false unfinished l g1 r1 t1 = After-call machine state helper source _ l g1 t1
      choose false other true l g1 r1 t1 = After-call machine state helper source _ l g1 t1
      choose false other false l g1 r1 t1 =
          After-repair_complete m native_args source requested l g1 r1 t1
