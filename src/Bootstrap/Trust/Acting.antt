-- ===== src/Bootstrap/Trust/Acting.antt =====
-- Lemmas about the actions of `main` in scripts/bootstrap.py, and the theorem on its log.
use grepglint.Base.{ℕ, not, ◌&&◌, Option, none, some, List, [], ◌∷◌, Text}
use grepglint.Base.Json.{Fields}
use grepglint.Bootstrap.Removal.{Action, Args}
use grepglint.Bootstrap.Main.{
  is_any, is_recovery, choose_action, is_bound, install_release, local_copy, start_copy,
  without_copy, maintain, act, main,
}
use grepglint.Bootstrap.Logic.{
  Extends-trans, Any, AllGood, After, After-pure, After-if, After-bind, Quiet, Quiet-pure,
  Quiet-observe, Quiet-if, Quiet-require_that, Quiet-bind, After-Quiet, After-lifted,
}
use grepglint.Bootstrap.Trust.{
  HasRecord, Trusted, Allowed, Calm-Allowed, HasRecord-Extends, After-call,
}
use grepglint.Bootstrap.Machine.{Event, Log, Machine, Exec, pure}
use grepglint.Bootstrap.Paths.{FilePath, parse_path}
use grepglint.Bootstrap.Logic.Reading.{Calm, Quiet-is_there, Quiet-path_check}
use grepglint.Bootstrap.Trust.Starting.{
  OnRecord, OnRecord-Extends, After-load_record, After-install_release,
}
use grepglint.Bootstrap.Trust.Repairing.{After-require_digest, After-repair_local}
use grepglint.Bootstrap.Trust.Removing.{After-removal-none, After-removal-some}

module _ (machine : Machine) (state : FilePath) (helper : Option Text) where
  abbrev Ok : Event → Log → Type 0
  Ok = Allowed machine state helper

  abbrev calm : Calm Ok
  calm = Calm-Allowed machine state helper

  Quiet-local_copy : (m : Fields) → Quiet Ok (local_copy machine state m)
  unfolding local_copy
  Quiet-local_copy m =
      Quiet-if Ok _ _ _
        (Quiet-bind Ok _ _ (Quiet-is_there machine Ok calm _) λ there. Quiet-pure Ok _)
        (Quiet-pure Ok _)

  After-start_copy :
      (action : Action) (m : Fields) (native_args : List Text) (asked_release release : Option Text)
      (local : FilePath) (log : Log)
      → AllGood Ok log
      → HasRecord machine state m log
      → After Ok Any log (start_copy machine action m native_args asked_release release local log)
  unfolding start_copy
  After-start_copy action m native_args asked_release release local log g r =
      After-bind Ok (λ u l. Trusted machine state helper local l) Any _ _ log
        (After-require_digest machine state helper m local _ log g r)
        λ u l1 x1 g1 t.
          let r1 = HasRecord-Extends machine state helper x1 r in
          After-if Ok Any (is_any (Action.repair ∷ List.[]) action && not (is_recovery m)) _ _ l1
            (After-repair_local machine state helper m native_args local asked_release l1 g1 r1 t)
            (After-if Ok Any (is_bound machine action m) _ _ l1
              (After-call machine state helper local native_args l1 g1 t)
              (After-install_release machine state helper action (some m) native_args asked_release
                _ l1 g1 r1))

  After-without_copy :
      (action : Action) (m : Fields) (native_args : List Text) (asked_release release : Option Text)
      (log : Log)
      → AllGood Ok log
      → HasRecord machine state m log
      → After Ok Any log (without_copy machine action m native_args asked_release release log)
  unfolding without_copy
  After-without_copy action m native_args asked_release release log g r =
      After-Quiet Ok Any _ _ log (Quiet-require_that Ok _ _) g λ u l1 x1 g1.
        After-lifted Ok Any _ _ l1 g1 λ installed e.
          After-Quiet Ok Any _ _ l1 (Quiet-is_there machine Ok calm installed) g1 λ there l2 x2 g2.
            let r2 = HasRecord-Extends machine state helper (Extends-trans x1 x2) r in
            After-if Ok Any there _ _ l2
              (After-bind Ok (λ v l. Trusted machine state helper installed l) Any _ _ l2
                (After-require_digest machine state helper m installed _ l2 g2 r2)
                λ v l3 x3 g3 t.
                  let r3 = HasRecord-Extends machine state helper x3 r2 in
                  After-if Ok Any (is_any (Action.repair ∷ List.[]) action) _ _ l3
                    (After-repair_local machine state helper m native_args installed asked_release
                      l3 g3 r3 t)
                    (After-install_release machine state helper action (some m) native_args
                      asked_release _ l3 g3 r3))
              (After-install_release machine state helper action (some m) native_args asked_release
                _ l2 g2 r2)

  After-maintain :
      (action : Action) (m : Fields) (native_args : List Text) (asked_release release : Option Text)
      (log : Log)
      → AllGood Ok log
      → HasRecord machine state m log
      → After Ok Any log (maintain machine action state m native_args asked_release release log)
  unfolding maintain
  After-maintain action m native_args asked_release release log g r =
      After-Quiet Ok Any _ _ log (Quiet-require_that Ok _ _) g λ u l1 x1 g1.
        After-Quiet Ok Any _ _ l1 (Quiet-local_copy m) g1 λ local l2 x2 g2.
          After-Quiet Ok Any _ _ l2 (Quiet-is_there machine Ok calm local) g2 λ there l3 x3 g3.
            let x = Extends-trans x1 (Extends-trans x2 x3) in
            let r3 = HasRecord-Extends machine state helper x r in
            After-if Ok Any there _ _ l3
              (After-start_copy action m _ asked_release release local l3 g3 r3)
              (After-if Ok Any (is_recovery m) _ _ l3
                (After-install_release machine state helper action (some m) _ asked_release _ l3 g3
                  r3)
                (After-without_copy action m _ asked_release release l3 g3 r3))

  pub Quiet-choose_action : (chosen : Option Action) → Quiet Ok (choose_action machine chosen)
  Quiet-choose_action (some action) = unfold choose_action in Quiet-pure Ok (some action)
  Quiet-choose_action none =
      unfold choose_action in
      Quiet-bind Ok _ _ (Quiet-require_that Ok _ _)
        λ u. Quiet-bind Ok _ _ (Quiet-observe Ok _ _ (λ s log. tt)) λ s. Quiet-pure Ok _

  pub After-install_release-none :
      (action : Action) (native_args : List Text) (asked_release release : Option Text) (log : Log)
      → AllGood Ok log
      → After Ok Any log (install_release machine action none native_args asked_release release log)
  After-install_release-none action native_args asked_release release log g =
      After-install_release machine state helper action none native_args asked_release release log g
        tt

module _ (machine : Machine) (args : Args) where
  abbrev state : FilePath
  state = parse_path args.state_dir

  abbrev Fine : Event → Log → Type 0
  Fine = Allowed machine state args.removal_helper

  After-act :
      (action : Action) (found : Option Fields) (log : Log)
      → AllGood Fine log
      → OnRecord machine state found log
      → After Fine Any log (act machine args action state found log)
  unfolding act
  After-act action none log g r =
      After-if Fine Any (is_any (Action.uninstall ∷ Action.purge ∷ List.[]) action) _ _ log
        (After-removal-none machine state args action _ log g)
        (After-Quiet Fine Any _ _ log (Quiet-require_that Fine _ _) g λ u l x g1.
          After-if Fine Any (is_any (Action.status ∷ List.[]) action) _ _ l
            (After-pure Fine Any 0 l g1 tt)
            (After-install_release-none machine state args.removal_helper action _ _ args.release l
              g1))
  After-act action (some m) log g r =
      After-if Fine Any (is_any (Action.uninstall ∷ Action.purge ∷ List.[]) action) _ _ log
        (After-removal-some machine state args action m _ log g r)
        (After-Quiet Fine Any _ _ log (Quiet-require_that Fine _ _) g λ u l x g1.
          After-if Fine Any (is_any (Action.status ∷ List.[]) action) _ _ l
            (After-pure Fine Any 0 l g1 tt)
            (After-maintain machine state args.removal_helper action m _ _ args.release l g1
              (HasRecord-Extends machine state args.removal_helper x r)))

  After-main : (log : Log) → AllGood Fine log → After Fine Any log (main machine args log)
  unfolding main
  After-main log g = After-Quiet Fine Any _ _ log (Quiet-require_that Fine _ _) g λ u l1 x1 g1.
      After-Quiet Fine Any _ _ l1
        (Quiet-path_check machine Fine (Calm-Allowed machine state args.removal_helper) state) g1
        λ v l2 x2 g2.
          After-bind Fine (λ o l. OnRecord machine state o l) Any _ _ l2
            (After-load_record machine state args.removal_helper l2 g2)
            λ found l3 x3 g3 r.
              After-Quiet Fine Any _ _ l3
                (Quiet-choose_action machine state args.removal_helper args.action) g3
                λ chosen l4 x4 g4.
                  choose chosen found l4 g4
                    (OnRecord-Extends machine state args.removal_helper found x4 r)
    where
      choose :
          (chosen : Option Action) (found : Option Fields) (l : Log)
          → AllGood Fine l
          → OnRecord machine state found l
          → After Fine Any l (
              elim chosen as (λ u. Exec ℕ) [
                | none ↦ pure 0
                | some action ↦ act machine args action state found
              ]
                l)
      choose none found l g1 r = After-pure Fine Any 0 l g1 tt
      choose (some action) found l g1 r = After-act action found l g1 r

-- Whatever the machine answers and whatever the arguments are, each program that `main` runs or
-- calls is `gh`, this script as a download worker, or an executable for which the log already holds
-- one of these: it was read with the digest of the record (or of the prior record in it) that was
-- read and parsed; or its digest is the one that the SHA256SUMS of a stable tag lists for it, and
-- gh has verified its attestation for that tag and a commit; or the user named it as the removal
-- helper.
pub main-Allowed :
    (machine : Machine) (args : Args)
    → AllGood
        (Allowed machine (parse_path args.state_dir) args.removal_helper)
        (main machine args []).1
main-Allowed machine args = (After-main machine args [] tt).good
