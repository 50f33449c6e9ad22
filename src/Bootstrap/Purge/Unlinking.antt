-- ===== src/Bootstrap/Purge/Unlinking.antt =====
-- Lemmas about the steps of `finish_purge` in scripts/bootstrap.py, and the theorem on its log.
use grepglint.Base.{
  ℕ, String, ◌≡◌, refl, Bool, true, false, none, List, [], if◌then◌else◌, Text, points,
}
use grepglint.Base.Json.{Value, Fields, get, names}
use grepglint.Base.Result.{ok}
use grepglint.Bootstrap.Record.{path_of}
use grepglint.Bootstrap.Logic.{
  Extends, Extends-refl, Extends-trans, Any, AllGood, After, After-pure, After-lift, After-observe,
  After-bind, Quiet, Quiet-pure, Quiet-lift, Quiet-observe, Quiet-require_that, Quiet-bind,
  After-Quiet, After-require, After-lifted,
}
use grepglint.Bootstrap.Purge.{
  with_lock, require_only, unchanged_record, remove_record, purge_locked, may_purge, finish_purge,
}
use grepglint.Bootstrap.Trust.{HasRecord, HasRecord-Extends}
use grepglint.Bootstrap.Machine.{Event, Log, Machine, pure}
use grepglint.Bootstrap.Paths.{FilePath, child}
use grepglint.Bootstrap.Logic.Reading.{
  ReadFile, ReadFile-Extends, Quiet-look, After-regular, Quiet-regular, Quiet-has_entry,
  Quiet-validate_record,
}
use grepglint.Bootstrap.Purge.Guarded.{
  Took, Guarded, Careful, Locking, steady, all-NotReleased, all-Careful, Took-Extends, bind-Careful,
  with_lock-Careful,
}

module _ (machine : Machine) (state : FilePath) where
  abbrev Held : Event → Log → Type 0
  Held = Locking machine state

  abbrev Kept : Fields → Log → Type 0
  Kept m log = HasRecord machine state m log

  HasRecord-grows : {m : Fields} {new old : Log} → Extends new old → Kept m old → Kept m new
  HasRecord-grows x r = HasRecord-Extends machine state none x r

  After-unchanged_record :
      (expected : Value) (log : Log)
      → AllGood Held log
      → After Held
          (λ found later. Kept found.0 later)
          log
          (unchanged_record machine state expected log)
  unfolding unchanged_record
  After-unchanged_record expected log g =
      let Q = λ (found : Fields × List ℕ) (later : Log). Kept found.0 later in
      let place = child state (points "record.json") in
      After-bind Held (λ raw l. ReadFile place 65536 raw l) Q _ _ log
        (After-regular machine Held (steady machine state) place 65536 log g)
        λ raw l1 x1 g1 read. After-lifted Held Q _ _ l1 g1 λ record_value parsed.
          After-Quiet Held Q _ _ l1
            (Quiet-validate_record machine Held (steady machine state) record_value state) g1
            λ u l2 x2 g2. After-lifted Held Q _ _ l2 g2 λ m e.
              After-require Held Q _ _ _ l2 g2 λ same.
                After-pure Held Q (m, raw) l2 g2
                  record {
                    raw = raw;
                    read = ReadFile-Extends x2 read;
                    record_value = record_value;
                    parsed = parsed;
                    has_fields = e;
                  }

  Quiet-entries :
      (names : List Text) (folder : FilePath) (message : String)
      → Quiet Held (require_only machine names folder message)
  unfolding require_only
  Quiet-entries names folder message =
      Quiet-bind Held _ _ (Quiet-observe Held _ _ (λ found log. (tt, tt))) λ entries.
        Quiet-bind Held _ _ (Quiet-lift Held entries) λ found. Quiet-require_that Held _ _

  module _ (m : Fields) (cache : FilePath) (found : path_of (get "cache" m) ≡ ok cache) where
    -- The three locks.
    abbrev Under : Log → Type 0
    Under log =
        Took machine state (child state (points "operation.lock")) log
        × Took machine state (child cache (points "maintenance.lock")) log
        × Took machine state (child cache (points "daemon.lock")) log

    After-remove_record :
        (raw : List ℕ) (log : Log)
        → AllGood Held log
        → Kept m log
        → Under log
        → After Held Any log (remove_record machine state cache m raw log)
    unfolding remove_record
    After-remove_record raw log g r t =
        let quiet = steady machine state in
        let place = child state (points "record.json") in
        After-lifted Held Any _ _ log g λ destination e.
          After-Quiet Held Any _ _ log (Quiet-has_entry machine Held quiet destination) g
            λ there l1 x1 g1.
              After-Quiet Held Any _ _ l1 (Quiet-require_that Held _ _) g1 λ u l2 x2 g2.
                After-Quiet Held Any _ _ l2 (Quiet-entries _ cache _) g2 λ v l3 x3 g3.
                  After-Quiet Held Any _ _ l3 (Quiet-entries _ state _) g3 λ w l4 x4 g4.
                    After-Quiet Held Any _ _ l4 (Quiet-regular machine Held quiet place 65536) g4
                      λ again l5 x5 g5.
                        After-Quiet Held Any _ _ l5 (Quiet-require_that Held _ _) g5 λ y l6 x6 g6.
                          let x = Extends-trans x1 (
                            Extends-trans x2
                              (Extends-trans x3 (Extends-trans x4 (Extends-trans x5 x6)))) in
                          After-bind Held Any Any _ _ l6
                            (After-observe Held Any _ _ l6 g6 (tt, guarded l6 x g6) tt)
                            λ gone l7 x7 g7 n.
                              After-lifted Held Any _ _ l7 g7 λ z f. After-pure Held Any 0 l7 g7 tt
      where
        guarded :
            (l : Log)
            → Extends l log
            → AllGood Held l
            → Guarded machine state (child state (points "record.json")) l
        guarded l x h = record {
          m = m;
          recorded = HasRecord-grows x r;
          place = refl;
          cache = cache;
          has_cache = found;
          operation = Took-Extends machine state x t.0;
          maintenance = Took-Extends machine state x t.1;
          daemon = Took-Extends machine state x t.2;
          kept = all-NotReleased machine state l h;
        }

  purge_locked-Careful :
      (expected : Value) (log : Log)
      → AllGood Held log
      → Took machine state (child state (points "operation.lock")) log
      → AllGood (Careful machine state) (purge_locked machine state expected log).1
  unfolding purge_locked
  purge_locked-Careful expected log g t =
      bind-Careful machine state (λ found l. Kept found.0 l) _ _ log
        (After-unchanged_record expected log g)
        λ found l1 x1 g1 r.
          bind-Careful machine state (λ cache l. Same l1 found.0 cache l) _ _ l1
            (After-lift Held (λ cache l. Same l1 found.0 cache l) (path_of (get "cache" found.0)) l1
              g1 (λ cache e. (Extends-refl l1, e)))
            λ cache l2 x2 g2 e.
              bind-Careful machine state Any _ _ l2
                ((Quiet-look machine Held (steady machine state) cache).at l2 g2)
                λ seen l3 x3 g3 n.
                  bind-Careful machine state Any _ _ l3 ((Quiet-lift Held _).at l3 g3)
                    λ info l4 x4 g4 o.
                      bind-Careful machine state Any _ _ l4 ((Quiet-require_that Held _ _).at l4 g4)
                        λ u l5 x5 g5 q.
                          let x = Extends-trans x2 (Extends-trans x3 (Extends-trans x4 x5)) in
                          locked_twice found.0 found.1 cache e.1 l5 g5 (HasRecord-grows x r)
                            (Took-Extends machine state (Extends-trans x1 x) t)
    where
      Same : Log → Fields → FilePath → Log → Type 0
      Same l1 m cache l = Extends l l1 × (path_of (get "cache" m) ≡ ok cache)

      locked_twice :
          (m : Fields) (raw : List ℕ) (cache : FilePath)
          → path_of (get "cache" m) ≡ ok cache
          → (l : Log) → AllGood Held l
          → Kept m l
          → Took machine state (child state (points "operation.lock")) l
          → AllGood
              (Careful machine state)
              (with_lock machine
                (child cache (points "maintenance.lock"))
                (with_lock machine
                  (child cache (points "daemon.lock"))
                  (remove_record machine state cache m raw))
                l).1
      locked_twice m raw cache e l g1 r t1 = with_lock-Careful machine state _ _ l g1 λ l2 x2 g2 t2.
          with_lock-Careful machine state _ _ l2 g2 λ l3 x3 g3 t3.
            all-Careful machine state _
              (After-remove_record m cache e raw l3 g3 (HasRecord-grows (Extends-trans x2 x3) r) (
                Took-Extends machine state (Extends-trans x2 x3) t1,
                Took-Extends machine state x3 t2,
                t3,
              )).good

  Quiet-consent : (consent : Bool) → Quiet Held (may_purge machine consent)
  Quiet-consent true = unfold may_purge in Quiet-pure Held true
  Quiet-consent false =
      unfold may_purge in
      Quiet-bind Held _ _ (Quiet-require_that Held _ _)
        λ u. Quiet-bind Held _ _ (Quiet-observe Held _ _ (λ s log. (tt, tt))) λ s. Quiet-pure Held _

  -- Whatever the machine answers, `finish_purge` starts no program, and the only file that it
  -- unlinks is record.json of the state's directory, and only after it read a record from it
  -- whose cache gives two of the locks, while it holds operation.lock of the state and
  -- maintenance.lock and daemon.lock of that cache: each was free when it was asked for, and no
  -- lock has been released.
  pub finish_purge-Careful :
      (expected : Value) (consent : Bool)
      → AllGood (Careful machine state) (finish_purge machine state expected consent []).1
  unfolding finish_purge pure
  finish_purge-Careful expected consent =
      bind-Careful machine state Any _ _ [] ((Quiet-consent consent).at [] tt)
        λ go l x g n. decide go l g
    where
      decide :
          (go : Bool) (l : Log)
          → AllGood Held l
          → AllGood
              (Careful machine state)
              ((if go
                  then with_lock machine
                      (child state (points "operation.lock"))
                      (purge_locked machine state expected)
                  else pure 0)
                l).1
      decide true l g =
          with_lock-Careful machine state _ _ l g
            λ l1 x1 g1 t. purge_locked-Careful expected l1 g1 t
      decide false l g = all-Careful machine state l g
