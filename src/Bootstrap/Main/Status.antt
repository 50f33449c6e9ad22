-- ===== src/Bootstrap/Main/Status.antt =====
-- Lemmas about the action `status` of scripts/bootstrap.py, and the theorem on its log.
use grepglint.Base.{ℕ, ◌≡◌, sym, subst, Option, none, some, [], same_text}
use grepglint.Base.Json.{Fields}
use grepglint.Bootstrap.Machine.{
  ◌>>=◌, Event, Log, Machine, Exec, pure, opened, looked, listed, asked, checked_space,
}
use grepglint.Bootstrap.Removal.{Action, action_text, Args}
use grepglint.Bootstrap.Main.{is_any, read_record, load_record, choose_action, act, main}
use grepglint.Bootstrap.Actions.{stat_path}
use grepglint.Bootstrap.Logic.{
  AllGood, Quiet, Quiet-pure, Quiet-lift, Quiet-observe, Quiet-if, Quiet-require_that, Quiet-bind,
}
use grepglint.Bootstrap.Paths.{FilePath, parse_path}
use grepglint.Bootstrap.Logic.Reading.{
  Calm, Quiet-regular, Quiet-is_there, Quiet-path_check, Quiet-validate_record,
}

abbrev pub Looks : Event → Log → Type 0
Looks (opened p file) log = Unit
Looks (looked p) log = Unit
Looks (listed p) log = Unit
Looks asked log = Unit
Looks checked_space log = Unit
Looks e log = ⊥

abbrev looking : Calm Looks
looking = record {
  when_opened = λ p file log. tt;
  when_looked = λ p log. tt;
  when_listed = λ p log. tt;
  when_asked = λ log. tt;
  when_checked = λ log. tt;
}

module _ (machine : Machine) where
  Quiet-stat_path : (p : FilePath) → Quiet Looks (stat_path machine p)
  unfolding stat_path
  Quiet-stat_path p =
      Quiet-bind Looks _ _ (Quiet-observe Looks _ _ (λ info log. tt)) λ info. Quiet-lift Looks _

  Quiet-read_record : (state : FilePath) → Quiet Looks (read_record machine state)
  unfolding read_record
  Quiet-read_record state = Quiet-bind Looks _ _ (Quiet-stat_path state) λ one.
      Quiet-bind Looks _ _ (Quiet-require_that Looks _ _) λ u.
        Quiet-bind Looks _ _ (Quiet-stat_path state) λ two.
          Quiet-bind Looks _ _ (Quiet-require_that Looks _ _) λ v.
            Quiet-bind Looks _ _ (Quiet-regular machine Looks looking _ 65536) λ raw.
              Quiet-bind Looks _ _ (Quiet-lift Looks _) λ record_value.
                Quiet-bind Looks _ _
                  (Quiet-validate_record machine Looks looking record_value state)
                  λ w. Quiet-lift Looks _

  Quiet-load_record : (state : FilePath) → Quiet Looks (load_record machine state)
  unfolding load_record
  Quiet-load_record state = Quiet-bind Looks _ _ (Quiet-is_there machine Looks looking _) λ there.
      Quiet-if Looks there _ _
        (Quiet-bind Looks _ _ (Quiet-read_record state) λ m. Quiet-pure Looks (some m))
        (Quiet-pure Looks none)

  Quiet-act :
      (args : Args) (state : FilePath) (found : Option Fields)
      → Quiet Looks (act machine args Action.status state found)
  unfolding act is_any action_text same_text
  Quiet-act args state found =
      Quiet-bind Looks _ _ (Quiet-require_that Looks _ _) λ u. Quiet-pure Looks 0

  Quiet-chosen :
      (f : Option Action → Exec ℕ)
      → Quiet Looks (f (some Action.status))
      → Quiet Looks (choose_action machine (some Action.status) >>= f)
  unfolding choose_action ◌>>=◌ pure
  Quiet-chosen f q = record { at = λ log g. q.at log g }

  Quiet-main : (args : Args) → args.action ≡ some Action.status → Quiet Looks (main machine args)
  unfolding main
  Quiet-main args h = Quiet-bind Looks _ _ (Quiet-require_that Looks _ _) λ u.
      Quiet-bind Looks _ _ (Quiet-path_check machine Looks looking (parse_path args.state_dir)) λ v.
        Quiet-bind Looks _ _ (Quiet-load_record (parse_path args.state_dir)) λ found.
          subst (λ o. Quiet Looks (after_choice found o)) (sym h)
            (Quiet-chosen _ (Quiet-act args (parse_path args.state_dir) found))
    where
      after_choice : Option Fields → Option Action → Exec ℕ
      after_choice found o = do
        chosen ← choose_action machine o
        elim chosen as (λ u. Exec ℕ) [
          | none ↦ pure 0
          | some action ↦ act machine args action (parse_path args.state_dir) found
        ]

-- Whatever the machine answers, `main` with the action `status` only looks: it opens files to read,
-- asks for their status and lists directories, and it starts no program, takes no lock, unlinks
-- nothing and changes no mode.
pub main-Looks :
    (machine : Machine) (args : Args)
    → args.action ≡ some Action.status
    → AllGood Looks (main machine args []).1
main-Looks machine args h = ((Quiet-main machine args h).at [] tt).good
