-- ===== src/Bootstrap/Purge/Guarded.antt =====
-- The locks of `finish_purge` in scripts/bootstrap.py, and lemmas about them.
use grepglint.Base.{ℕ, ◌≡◌, refl, sym, Bool, true, false, [], ◌∷◌, if◌then◌else◌, points}
use grepglint.Base.Json.{Fields, get}
use grepglint.Base.Result.{Result, os_error, err, ok}
use grepglint.Bootstrap.Machine.{
  ◌>>=◌, Event, Log, Machine, Exec, continue, observe, ran, called, locked, released, unlinked,
}
use grepglint.Bootstrap.Actions.{local_lock}
use grepglint.Bootstrap.Record.{path_of}
use grepglint.Bootstrap.Logic.{
  Extends, Extends-refl, Extends-trans, AllGood, After, After-pure, After-observe, After-bind,
  After-Quiet, After-lifted,
}
use grepglint.Bootstrap.Purge.{finally, with_lock}
use grepglint.Bootstrap.Trust.{HasRecord}
use grepglint.Bootstrap.Paths.{FilePath, child}
use grepglint.Bootstrap.Logic.Reading.{Calm, Quiet-open_path, Quiet-regular}

abbrev pub NotReleased : Event → Log → Type 0
NotReleased (released p) log = ⊥
NotReleased e log = Unit

module _ (machine : Machine) (state : FilePath) where
  -- The lock was free when it was asked for.
  pub record Took (p : FilePath) (log : Log) : Type 0 where
    pub before : Log
    pub since : Extends log (locked p ∷ before)
    pub free : machine.can_lock before p ≡ true

  -- The path is that of the record that was read, and the locks of the installation and of the
  -- recorded cache are taken and none is released.
  pub record Guarded (p : FilePath) (log : Log) : Type 0 where
    pub m : Fields
    pub recorded : HasRecord machine state m log
    pub place : p ≡ child state (points "record.json")
    pub cache : FilePath
    pub has_cache : path_of (get "cache" m) ≡ ok cache
    pub operation : Took (child state (points "operation.lock")) log
    pub maintenance : Took (child cache (points "maintenance.lock")) log
    pub daemon : Took (child cache (points "daemon.lock")) log
    pub kept : AllGood NotReleased log

  -- Each file that is unlinked is guarded, and no program is started.
  abbrev pub Careful : Event → Log → Type 0
  Careful (unlinked p) log = Guarded p log
  Careful (ran args out) log = ⊥
  Careful (called args) log = ⊥
  Careful e log = Unit

  abbrev pub Locking : Event → Log → Type 0
  Locking e log = NotReleased e log × Careful e log

  abbrev pub steady : Calm Locking
  steady = record {
    when_opened = λ p file log. (tt, tt);
    when_looked = λ p log. (tt, tt);
    when_listed = λ p log. (tt, tt);
    when_asked = λ log. (tt, tt);
    when_checked = λ log. (tt, tt);
  }

  pub all-NotReleased : (log : Log) → AllGood Locking log → AllGood NotReleased log
  all-NotReleased [] g = tt
  all-NotReleased (e ∷ log) g = (g.0.0, all-NotReleased log g.1)

  pub all-Careful : (log : Log) → AllGood Locking log → AllGood Careful log
  all-Careful [] g = tt
  all-Careful (e ∷ log) g = (g.0.1, all-Careful log g.1)

  pub Took-Extends : {p : FilePath} {new old : Log} → Extends new old → Took p old → Took p new
  Took-Extends {p} x t = record {
    before = t.before;
    since = Extends-trans t.since x;
    free = t.free;
  }

  After-local_lock :
      (p : FilePath) (log : Log)
      → AllGood Locking log
      → After Locking (λ held later. Took p later) log (local_lock machine p log)
  unfolding local_lock
  After-local_lock p log g =
      let Q = λ (held : FilePath) (later : Log). Took p later in
      After-Quiet Locking Q _ _ log (Quiet-regular machine Locking steady p 65536) g
        λ bytes l1 x1 g1.
          After-Quiet Locking Q _ _ l1 (Quiet-open_path machine Locking steady p) g1
            λ file l2 x2 g2. After-lifted Locking Q _ _ l2 g2 λ u e.
              After-bind Locking (λ free l. Asked free l) Q _ _ l2
                (After-observe Locking (λ free l. Asked free l) _ _ l2 g2 (tt, tt)
                  (l2, Extends-refl _, refl))
                λ free l3 x3 g3 asked_lock.
                  After-lifted Locking Q _ _ l3 g3
                    λ v f. After-pure Locking Q p l3 g3 (took free l3 asked_lock f)
    where
      Asked : Bool → Log → Type 0
      Asked free l =
          (before : Log) × Extends l (locked p ∷ before) × (free ≡ machine.can_lock before p)

      took :
          (free : Bool) (l : Log)
          → Asked free l
          → ◌≡◌ {A = Result (Unit {0})} (if free then ok tt else err os_error) (ok tt)
          → Took p l
      took true l a f = record { before = a.0; since = a.1; free = sym a.2 }
      took false l a f = cc

  module _ {A B : Type 0} where
    pub bind-Careful :
        (Q : A → Log → Type 0) (action : Exec A) (f : A → Exec B) (log : Log)
        → After Locking Q log (action log)
        → ((a : A) (later : Log)
            → Extends later log
            → AllGood Locking later
            → Q a later
            → AllGood Careful (f a later).1)
        → AllGood Careful ((action >>= f) log).1
    unfolding ◌>>=◌
    bind-Careful Q action f log h next = go (action log) h
      where
        go :
            (out : Result A × Log)
            → After Locking Q log out
            → AllGood Careful (continue out.0 f out.1).1
        go (ok a, later) h = next a later h.extends h.good h.returned
        go (err e, later) h = all-Careful later h.good

  -- What a body does under a lock is careful, and the lock's release unlinks nothing.
  pub with_lock-Careful :
      (p : FilePath) (body : Exec ℕ) (log : Log)
      → AllGood Locking log
      → ((later : Log)
          → Extends later log
          → AllGood Locking later
          → Took p later
          → AllGood Careful (body later).1)
      → AllGood Careful (with_lock machine p body log).1
  unfolding with_lock finally observe
  with_lock-Careful p body log g next =
      bind-Careful (λ held later. Took p later) _ _ log (After-local_lock p log g)
        λ held later x g1 t. (tt, next later x g1 t)
