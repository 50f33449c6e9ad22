-- ===== src/Bootstrap/Logic.antt =====
-- Facts about the log of an action of scripts/bootstrap.py: which calls it makes, and what was in
-- the log before each.
pub mod Reading
use grepglint.Base.{
  String, ◌≡◌, refl, sym, ap, ◌∙◌, subst, ◌⊎◌, inr, Bool, true, false, Option, none, some, List, [],
  ◌∷◌, ◌++◌, append_assoc, if◌then◌else◌,
}
use grepglint.Base.Result.{Result, ensure, err, ok}
use grepglint.Bootstrap.Machine.{
  ◌>>=◌, ◌>>◌, Event, Log, Exec, pure, lift, continue, require_that, observe,
}

pub record Extends (new old : Log) : Type 0 where
  pub added : List Event
  pub grown : new ≡ added ++ old

pub Extends-refl : (log : Log) → Extends log log
Extends-refl log = record { added = []; grown = refl }

pub Extends-trans : {a b c : Log} → Extends b a → Extends c b → Extends c a
Extends-trans {a} {b} {c} p q = record {
  added = q.added ++ p.added;
  grown = q.grown ∙ ap (λ l. q.added ++ l) p.grown ∙ sym (append_assoc q.added p.added a);
}

pub Extends-cons : (e : Event) (log : Log) → Extends (e ∷ log) log
Extends-cons e log = record { added = e ∷ []; grown = refl }

abbrev pub In : Event → Log → Type 0
In e [] = ⊥
In e (x ∷ log) = (e ≡ x) ⊎ In e log

In-append : (e : Event) (added log : Log) → In e log → In e (added ++ log)
In-append e [] log h = h
In-append e (x ∷ added) log h = inr (In-append e added log h)

pub In-Extends : (e : Event) {new old : Log} → Extends new old → In e old → In e new
In-Extends e {new} {old} p h = subst (In e) (sym p.grown) (In-append e p.added old h)

module _ {A : Type 0} where
  -- What holds if an action returns.
  abbrev pub Returned : (A → Log → Type 0) → Result A → Log → Type 0
  Returned Q (ok a) log = Q a log
  Returned Q (err e) log = Unit

  -- Nothing is said of the result.
  abbrev pub Any : A → Log → Type 0
  Any a log = Unit

-- Each event is good, given the log before it.
abbrev pub AllGood : (Event → Log → Type 0) → Log → Type 0
AllGood Good [] = Unit
AllGood Good (e ∷ log) = Good e log × AllGood Good log

module _ (Good : Event → Log → Type 0) where
  module _ {A : Type 0} where
    pub record After (Q : A → Log → Type 0) (log : Log) (out : Result A × Log) : Type 0 where
      pub extends : Extends out.1 log
      pub good : AllGood Good out.1
      pub returned : Returned Q out.0 out.1

    pub After-pure :
        (Q : A → Log → Type 0) (a : A) (log : Log)
        → AllGood Good log
        → Q a log
        → After Q log (pure a log)
    unfolding pure
    After-pure Q a log g q = record { extends = Extends-refl log; good = g; returned = q }

    pub After-lift :
        (Q : A → Log → Type 0) (r : Result A) (log : Log)
        → AllGood Good log
        → ((a : A) → r ≡ ok a → Q a log)
        → After Q log (lift r log)
    unfolding lift
    After-lift Q (ok a) log g q = record {
      extends = Extends-refl log;
      good = g;
      returned = q a refl;
    }
    After-lift Q (err e) log g q = record { extends = Extends-refl log; good = g; returned = tt }

    pub After-observe :
        (Q : A → Log → Type 0) (answer : Log → A) (note : A → Event) (log : Log)
        → AllGood Good log
        → Good (note (answer log)) log
        → Q (answer log) (note (answer log) ∷ log)
        → After Q log (observe answer note log)
    unfolding observe
    After-observe Q answer note log g e q = record {
      extends = Extends-cons (note (answer log)) log;
      good = (e, g);
      returned = q;
    }

    -- What holds anyway holds if the action returns.
    pub After-const :
        (P : Type 0) (log : Log) (out : Result A × Log)
        → P
        → After Any log out
        → After (λ a later. P) log out
    After-const P log (ok a, later) p h = record {
      extends = h.extends;
      good = h.good;
      returned = p;
    }
    After-const P log (err e, later) p h = record {
      extends = h.extends;
      good = h.good;
      returned = tt;
    }

    pub After-if :
        (Q : A → Log → Type 0) (b : Bool) (x y : Exec A) (log : Log)
        → After Q log (x log)
        → After Q log (y log)
        → After Q log ((if b then x else y) log)
    After-if Q true x y log p q = p
    After-if Q false x y log p q = q

  module _ {A B : Type 0} where
    After-continue :
        (Q : A → Log → Type 0) (R : B → Log → Type 0) (f : A → Exec B) (log : Log)
        (out : Result A × Log)
        → After Q log out
        → ((a : A) (later : Log)
            → Extends later log
            → AllGood Good later
            → Q a later
            → After R later (f a later))
        → After R log (continue out.0 f out.1)
    After-continue Q R f log (ok a, later) h next =
        let done = next a later h.extends h.good h.returned in
        record {
          extends = Extends-trans h.extends done.extends;
          good = done.good;
          returned = done.returned;
        }
    After-continue Q R f log (err e, later) h next = record {
      extends = h.extends;
      good = h.good;
      returned = tt;
    }

    pub After-bind :
        (Q : A → Log → Type 0) (R : B → Log → Type 0) (action : Exec A) (f : A → Exec B) (log : Log)
        → After Q log (action log)
        → ((a : A) (later : Log)
            → Extends later log
            → AllGood Good later
            → Q a later
            → After R later (f a later))
        → After R log ((action >>= f) log)
    unfolding ◌>>=◌
    After-bind Q R action f log h next = After-continue Q R f log (action log) h next

  -- An action of which only the events are of interest.
  module _ {A : Type 0} where
    pub record Quiet (action : Exec A) : Type 0 where
      pub at : (log : Log) → AllGood Good log → After Any log (action log)

    pub Quiet-pure : (a : A) → Quiet (pure a)
    Quiet-pure a = record { at = λ log g. After-pure Any a log g tt }

    pub Quiet-lift : (r : Result A) → Quiet (lift r)
    Quiet-lift r = record { at = λ log g. After-lift Any r log g (λ a e. tt) }

    pub Quiet-observe :
        (answer : Log → A) (note : A → Event)
        → ((a : A) (log : Log) → Good (note a) log)
        → Quiet (observe answer note)
    Quiet-observe answer note e = record {
      at = λ log g. After-observe Any answer note log g (e (answer log) log) tt;
    }

    pub Quiet-if : (b : Bool) (x y : Exec A) → Quiet x → Quiet y → Quiet (if b then x else y)
    Quiet-if true x y p q = p
    Quiet-if false x y p q = q

  pub Quiet-require_that : (b : Bool) (message : String) → Quiet (require_that b message)
  unfolding require_that
  Quiet-require_that b message = Quiet-lift (ensure b message)

  module _ {A B : Type 0} where
    pub Quiet-bind :
        (action : Exec A) (f : A → Exec B)
        → Quiet action
        → ((a : A) → Quiet (f a))
        → Quiet (action >>= f)
    Quiet-bind action f p q = record {
      at = λ log g.
          After-bind Any Any action f log (p.at log g) (λ a later x good u. (q a).at later good);
    }

    pub Quiet-then :
        (first : Exec A) (second : Exec B) → Quiet first → Quiet second → Quiet (first >> second)
    Quiet-then first second p q = Quiet-bind first (λ a. second) p (λ a. q)

    pub After-Quiet :
        (R : B → Log → Type 0) (action : Exec A) (f : A → Exec B) (log : Log)
        → Quiet action
        → AllGood Good log
        → ((a : A) (later : Log)
            → Extends later log
            → AllGood Good later
            → After R later (f a later))
        → After R log ((action >>= f) log)
    After-Quiet R action f log p g next =
        After-bind Any R action f log (p.at log g) (λ a later x good u. next a later x good)

    pub Quiet-option :
        (o : Option A) (x : Exec B) (f : A → Exec B)
        → Quiet x
        → ((a : A) → Quiet (f a))
        → Quiet (elim o [ none ↦ x | some a ↦ f a ])
    Quiet-option none x f p q = p
    Quiet-option (some a) x f p q = q a

  pub After-require_last :
      (Q : Unit {0} → Log → Type 0) (b : Bool) (message : String) (log : Log)
      → AllGood Good log
      → (b ≡ true → Q tt log)
      → After Q log (require_that b message log)
  unfolding require_that lift
  After-require_last Q true message log g q = record {
    extends = Extends-refl log;
    good = g;
    returned = q refl;
  }
  After-require_last Q false message log g q = record {
    extends = Extends-refl log;
    good = g;
    returned = tt;
  }

  module _ {B : Type 0} where
    pub After-require :
        (R : B → Log → Type 0) (b : Bool) (message : String) (f : Unit {0} → Exec B) (log : Log)
        → AllGood Good log
        → (b ≡ true → After R log (f tt log))
        → After R log ((require_that b message >>= f) log)
    unfolding ◌>>=◌ require_that lift
    After-require R true message f log g next = next refl
    After-require R false message f log g next = record {
      extends = Extends-refl log;
      good = g;
      returned = tt;
    }

    pub After-lifted :
        {A : Type 0} (R : B → Log → Type 0) (r : Result A) (f : A → Exec B) (log : Log)
        → AllGood Good log
        → ((a : A) → r ≡ ok a → After R log (f a log))
        → After R log ((lift r >>= f) log)
    unfolding ◌>>=◌ lift
    After-lifted R (ok a) f log g next = next a refl
    After-lifted R (err e) f log g next = record {
      extends = Extends-refl log;
      good = g;
      returned = tt;
    }

pub ruleset quiet_rules =
    (Quiet-pure, Quiet-lift, Quiet-require_that, Quiet-if, Quiet-bind, Quiet-option)
