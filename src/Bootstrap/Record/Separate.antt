-- ===== src/Bootstrap/Record/Separate.antt =====
-- The paths of a record that `validate_record` of scripts/bootstrap.py accepts.
use grepglint.Base.{
  String, ◌≡◌, refl, sym, ap, ◌∙◌, subst, ◌⊎◌, inl, inr, true, false, ◌&&◌, Option, none, some,
  List, [], ◌∷◌, arith, and-eq-true, Text, points, same_text, same_text_refl, eq_of_same_text,
}
use grepglint.Base.Json.{Value, Fields, get, as_text, null, bool, int, float, str, list, dict}
use grepglint.Base.Result.{Result, ok-injective, invalid, err, ok}
use grepglint.Bootstrap.Record.{
  are_apart, are_separate, recorded_path, check_paths, validate_with, validate_prior,
  validate_record,
}
use grepglint.Bootstrap.Logic.{
  AllGood, After, After-pure, After-const, After-bind, Quiet-require_that, After-Quiet,
  After-require, After-lifted,
}
use grepglint.Bootstrap.Machine.{Event, Log, Machine}
use grepglint.Bootstrap.Paths.{FilePath, parse_path, begins, is_relative_to}
use grepglint.Bootstrap.Logic.Reading.{
  Calm, Quiet-path_check, Quiet-check_optional, Quiet-check_recovery, Quiet-validate_prior,
}
use grepglint.Bootstrap.Record.Scalars.{fields_of}

begins_comparable :
    (ps qs rs : List Text)
    → begins ps qs ≡ true
    → begins ps rs ≡ true
    → (begins qs rs ≡ true) ⊎ (begins rs qs ≡ true)
unfolding begins
begins_comparable ps [] rs h k = inr (begins_nil rs)
  where
    begins_nil : (ts : List Text) → begins ts [] ≡ true
    begins_nil [] = refl
    begins_nil (t ∷ ts) = refl
begins_comparable ps (q ∷ qs) [] h k = inl refl
begins_comparable [] (q ∷ qs) (r ∷ rs) h k = cc
begins_comparable (p ∷ ps) (q ∷ qs) (r ∷ rs) h k =
    let (h1, h2) = and-eq-true (same_text p q) _ h in
    let (k1, k2) = and-eq-true (same_text p r) _ k in
    let same : q ≡ r = sym (eq_of_same_text p q h1) ∙ eq_of_same_text p r k1 in
    elim (begins_comparable ps qs rs h2 k2) [
      | inl e ↦
          inl (subst (λ t. (same_text q t && begins qs rs) ≡ true) same (rw (same_text_refl q) e))
      | inr e ↦
          inr (subst (λ t. (same_text t q && begins rs qs) ≡ true) same (rw (same_text_refl q) e))
    ]

-- No path lies in both.
abbrev pub Apart : FilePath → FilePath → Type 0
Apart a b = (p : FilePath) → is_relative_to p a ≡ true → is_relative_to p b ≡ true → ⊥

are_apart-Apart : (a b : FilePath) → are_apart a b ≡ true → Apart a b
unfolding are_apart is_relative_to
are_apart-Apart a b h p x y =
    let (x1, x2) = and-eq-true (same_text p.root a.root) _ x in
    let (y1, y2) = and-eq-true (same_text p.root b.root) _ y in
    let same : a.root ≡ b.root = sym (eq_of_same_text _ _ x1) ∙ eq_of_same_text _ _ y1 in
    let one : same_text a.root b.root ≡ true =
      subst (λ t. same_text a.root t ≡ true) same (same_text_refl a.root) in
    let two : same_text b.root a.root ≡ true =
      subst (λ t. same_text t a.root ≡ true) same (same_text_refl a.root) in
    elim (begins_comparable p.parts a.parts b.parts x2 y2) [
      | inl e ↦ ground arith
      | inr e ↦ ground arith
    ]

-- A path that the record has under a key.
abbrev pub Recorded : String → Fields → FilePath → Type 0
Recorded key m p = (s : String) × (get key m ≡ some (str s)) × (p ≡ parse_path (points s))

-- The destination and the cache of a record.
pub record Separated (state : FilePath) (m : Fields) : Type 0 where
  pub destination : FilePath
  pub has_destination : Recorded "destination" m destination
  pub cache : FilePath
  pub has_cache : Recorded "cache" m cache
  pub state_destination : Apart state destination
  pub state_cache : Apart state cache
  pub destination_cache : Apart destination cache

-- Nothing is said of the calls.
abbrev Every : Event → Log → Type 0
Every e log = Unit

abbrev calm_every : Calm Every
calm_every = record {
  when_opened = λ p file log. tt;
  when_looked = λ p log. tt;
  when_listed = λ p log. tt;
  when_asked = λ log. tt;
  when_checked = λ log. tt;
}

module _ (machine : Machine) where
  After-recorded_path :
      (key : String) (m : Fields) (log : Log)
      → AllGood Every log
      → After Every (λ p later. Recorded key m p) log (recorded_path machine key m log)
  unfolding recorded_path
  After-recorded_path key m log g = After-lifted Every Q _ _ log g λ s e.
      After-Quiet Every Q _ _ log (Quiet-path_check machine Every calm_every _) g λ u l x g1.
        After-pure Every Q (parse_path (points s)) l g1 (s, text_of (get key m) s e, refl)
    where
      Q : FilePath → Log → Type 0
      Q p later = Recorded key m p

      text_of :
          (o : Option Value) (s : String)
          → ◌≡◌ {A = Result String}
              (elim (as_text o) [ none ↦ err (invalid "Invalid recorded path") | some t ↦ ok t ])
              (ok s)
          → o ≡ some (str s)
      text_of none s e = cc
      text_of (some null) s e = cc
      text_of (some (bool b)) s e = cc
      text_of (some (int i)) s e = cc
      text_of (some (float f)) s e = cc
      text_of (some (str t)) s e = ap (λ u. some (str u)) (ok-injective e)
      text_of (some (list l)) s e = cc
      text_of (some (dict d)) s e = cc

  After-check_paths :
      (state : FilePath) (m : Fields) (log : Log)
      → AllGood Every log
      → After Every (λ u later. Separated state m) log (check_paths machine state m log)
  unfolding check_paths are_separate
  After-check_paths state m log g =
      let Q = λ (u : Unit {0}) (later : Log). Separated state m in
      After-bind Every (λ p later. Recorded "destination" m p) Q _ _ log
        (After-recorded_path "destination" m log g)
        λ destination l1 x1 g1 first.
          After-bind Every (λ p later. Recorded "cache" m p) Q _ _ l1
            (After-recorded_path "cache" m l1 g1)
            λ cache l2 x2 g2 second. After-require Every Q _ _ _ l2 g2 λ apart.
              let (both, third) = and-eq-true _ (are_apart destination cache) apart in
              let (one, two) = and-eq-true (are_apart state destination) _ both in
              After-const Every (Separated state m) l2 _
                (record {
                  destination = destination;
                  has_destination = first;
                  cache = cache;
                  has_cache = second;
                  state_destination = are_apart-Apart state destination one;
                  state_cache = are_apart-Apart state cache two;
                  destination_cache = are_apart-Apart destination cache third;
                })
                ((Quiet-require_that Every _ _).at l2 g2)

  abbrev Accepted : Value → FilePath → Type 0
  Accepted v state = (m : Fields) × (fields_of v ≡ ok m) × Separated state m

  After-validate_record :
      (v : Value) (state : FilePath) (log : Log)
      → AllGood Every log
      → After Every (λ u later. Accepted v state) log (validate_record machine v state log)
  unfolding validate_record validate_with
  After-validate_record v state log g =
      let Q = λ (u : Unit {0}) (later : Log). Accepted v state in
      After-lifted Every Q _ _ log g λ m e. After-lifted Every Q _ _ log g λ u f.
        After-bind Every (λ w later. Separated state m) Q _ _ log (After-check_paths state m log g)
          λ w l1 x1 g1 separated.
            After-Quiet Every Q _ _ l1
              (Quiet-check_optional machine Every calm_every m (get "cache_creation" m)) g1
              λ y l2 x2 g2.
                After-const Every (Accepted v state) l2 _ (m, e, separated)
                  ((Quiet-check_recovery machine Every calm_every (validate_prior machine state)
                      (Quiet-validate_prior machine Every calm_every state) false m
                      (get "change" m)).at
                    l2 g2)

  -- A record that `validate_record` accepts has a destination and a cache, and no path lies in two
  -- of the state's directory, the destination and the cache. It holds whatever was done before.
  pub validate_record-Separated :
      (v : Value) (state : FilePath) (log : Log)
      → (validate_record machine v state log).0 ≡ ok tt
      → (m : Fields) × (fields_of v ≡ ok m) × Separated state m
  validate_record-Separated v state log h =
      go (validate_record machine v state log) (After-validate_record v state log (every log)) h
    where
      every : (l : Log) → AllGood Every l
      every [] = tt
      every (e ∷ l) = (tt, every l)

      go :
          (out : Result (Unit {0}) × Log)
          → After Every (λ u later. Accepted v state) log out
          → out.0 ≡ ok tt
          → Accepted v state
      go (ok u, later) a e = a.returned
      go (err x, later) a e = cc
