-- ===== src/Bootstrap/Trust/Purging.antt =====
-- Lemmas about `finish_purge` of scripts/bootstrap.py, by the rules for its log.
use grepglint.Base.{ℕ, String, Bool, true, false, Option, List, Text, points}
use grepglint.Base.Json.{Value, Fields, names}
use grepglint.Base.Result.{Result, err, ok}
use grepglint.Bootstrap.Removal.{remove_nothing}
use grepglint.Bootstrap.Actions.{local_lock}
use grepglint.Bootstrap.Logic.{
  Extends-trans, Returned, Any, Quiet, Quiet-pure, Quiet-lift, Quiet-observe, Quiet-if,
  Quiet-require_that, Quiet-bind, quiet_rules,
}
use grepglint.Bootstrap.Purge.{
  finally, with_lock, require_only, unchanged_record, remove_record, purge_locked, may_purge,
  finish_purge,
}
use grepglint.Bootstrap.Trust.{Allowed, Calm-Allowed}
use grepglint.Bootstrap.Machine.{Event, Log, Machine, Exec}
use grepglint.Bootstrap.Paths.{FilePath, child}
use grepglint.Bootstrap.Logic.Reading.{
  Calm, Quiet-look, Quiet-open_path, Quiet-regular, Quiet-has_entry, Quiet-path_exists,
  Quiet-validate_record,
}

Any-Returned : {A : Type 0} (r : Result A) (log : Log) → Returned Any r log
Any-Returned (ok a) log = tt
Any-Returned (err e) log = tt

module _ (machine : Machine) (state : FilePath) (helper : Option Text) where
  abbrev Ok : Event → Log → Type 0
  Ok = Allowed machine state helper

  abbrev calm : Calm Ok
  calm = Calm-Allowed machine state helper

  Quiet-finally :
      {A : Type 0} (body : Exec A) (last : Exec (Unit {0}))
      → Quiet Ok body
      → Quiet Ok last
      → Quiet Ok (finally body last)
  unfolding finally
  Quiet-finally body last p q = record {
    at = λ log g.
        let h = p.at log g in
        let k = q.at (body log).1 h.good in
        record {
          extends = Extends-trans h.extends k.extends;
          good = k.good;
          returned = Any-Returned (body log).0 (last (body log).1).1;
        };
  }

  Quiet-local_lock : (p : FilePath) → Quiet Ok (local_lock machine p)
  unfolding local_lock
  Quiet-local_lock p = Quiet-bind Ok _ _ (Quiet-regular machine Ok calm p 65536) λ bytes.
      Quiet-bind Ok _ _ (Quiet-open_path machine Ok calm p) λ file.
        Quiet-bind Ok _ _ (Quiet-lift Ok _) λ u.
          Quiet-bind Ok _ _ (Quiet-observe Ok _ _ (λ free log. tt))
            λ free. Quiet-bind Ok _ _ (Quiet-lift Ok _) λ v. Quiet-pure Ok p

  Quiet-with_lock :
      (p : FilePath) (body : Exec ℕ) → Quiet Ok body → Quiet Ok (with_lock machine p body)
  unfolding with_lock
  Quiet-with_lock p body q =
      Quiet-bind Ok _ _ (Quiet-local_lock p)
        λ held. Quiet-finally body _ q (Quiet-observe Ok _ _ (λ u log. tt))

  Quiet-require_only :
      (names : List Text) (folder : FilePath) (message : String)
      → Quiet Ok (require_only machine names folder message)
  unfolding require_only
  Quiet-require_only names folder message =
      Quiet-bind Ok _ _ (Quiet-observe Ok _ _ (λ found log. tt))
        λ entries. Quiet-bind Ok _ _ (Quiet-lift Ok entries) λ found. Quiet-require_that Ok _ _

  Quiet-unchanged_record :
      (place : FilePath) (v : Value) → Quiet Ok (unchanged_record machine place v)
  unfolding unchanged_record
  Quiet-unchanged_record place v =
      let read = Quiet-regular machine Ok calm in
      let checks = Quiet-validate_record machine Ok calm in
      search (quiet_rules, read, checks) depth 16

  Quiet-remove_record :
      (place cache : FilePath) (m : Fields) (raw : List ℕ)
      → Quiet Ok (remove_record machine place cache m raw)
  unfolding remove_record
  Quiet-remove_record place cache m raw =
      let read = Quiet-regular machine Ok calm in
      Quiet-bind Ok _ _ (Quiet-lift Ok _) λ destination.
        Quiet-bind Ok _ _ (Quiet-has_entry machine Ok calm destination) λ there.
          Quiet-bind Ok _ _ (Quiet-require_that Ok _ _) λ u.
            Quiet-bind Ok _ _ (Quiet-require_only _ cache _) λ v.
              Quiet-bind Ok _ _ (Quiet-require_only _ place _) λ w.
                Quiet-bind Ok _ _ (read (child place (points "record.json")) 65536) λ again.
                  Quiet-bind Ok _ _ (Quiet-require_that Ok _ _) λ x.
                    Quiet-bind Ok _ _ (Quiet-observe Ok _ _ (λ gone log. tt))
                      λ gone. Quiet-bind Ok _ _ (Quiet-lift Ok _) λ y. Quiet-pure Ok 0

  Quiet-purge_locked : (place : FilePath) (v : Value) → Quiet Ok (purge_locked machine place v)
  unfolding purge_locked
  Quiet-purge_locked place v = Quiet-bind Ok _ _ (Quiet-unchanged_record place v) λ found.
      Quiet-bind Ok _ _ (Quiet-lift Ok _) λ cache.
        Quiet-bind Ok _ _ (Quiet-look machine Ok calm cache) λ seen.
          Quiet-bind Ok _ _ (Quiet-lift Ok _) λ info.
            Quiet-bind Ok _ _ (Quiet-require_that Ok _ _) λ u.
              Quiet-with_lock _ _
                (Quiet-with_lock _ _ (Quiet-remove_record place cache found.0 found.1))

  Quiet-may_purge : (consent : Bool) → Quiet Ok (may_purge machine consent)
  Quiet-may_purge true = unfold may_purge in Quiet-pure Ok true
  Quiet-may_purge false =
      unfold may_purge in
      Quiet-bind Ok _ _ (Quiet-require_that Ok _ _)
        λ u. Quiet-bind Ok _ _ (Quiet-observe Ok _ _ (λ s log. tt)) λ s. Quiet-pure Ok _

  pub Quiet-finish_purge :
      (place : FilePath) (v : Value) (consent : Bool)
      → Quiet Ok (finish_purge machine place v consent)
  unfolding finish_purge
  Quiet-finish_purge place v consent =
      Quiet-bind Ok _ _ (Quiet-may_purge consent) λ go.
        Quiet-if Ok go _ _ (Quiet-with_lock _ _ (Quiet-purge_locked place v)) (Quiet-pure Ok 0)

  pub Quiet-remove_nothing : (place : FilePath) → Quiet Ok (remove_nothing machine place)
  unfolding remove_nothing
  Quiet-remove_nothing place = Quiet-bind Ok _ _ (Quiet-path_exists machine Ok calm place) λ there.
      Quiet-bind Ok _ _ (Quiet-if Ok there _ _ (Quiet-require_only _ place _) (Quiet-pure Ok tt))
        λ u. Quiet-pure Ok 0
