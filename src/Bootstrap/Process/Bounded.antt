-- ===== src/Bootstrap/Process/Bounded.antt =====
-- The bytes that `run` of scripts/bootstrap.py keeps of both streams.
use grepglint.Base.{
  ℕ, ◌+◌, ◌≤◌, ◌≡◌, subst, Bool, true, false, not, List, [], ◌∷◌, leb, if◌then◌else◌, leb→le,
  length,
}
use grepglint.Base.Result.{
  Result, ◌>>=◌, ensure, ◌>>◌, >>=-eq-ok, ok-injective, ensure-eq-ok, invalid, err, ok,
}
use grepglint.Bootstrap.Process.{
  extend, Stream, Pass, Reading, within_cap, read_all, read_loop, unregister, receive, is_open,
  read_one, any_open,
}

abbrev pub reading : List ℕ → List ℕ → Bool → Bool → Reading
reading out e o f = record { output = out; errors = e; output_open = o; errors_open = f }

pub within_cap-eq-ok :
    (cap : ℕ) (s next : Reading)
    → within_cap cap s ≡ ok next
    → (s ≡ next) × (length s.output + length s.errors ≤ cap)
unfolding within_cap
within_cap-eq-ok cap s next h =
    let (u, e, f) =
      >>=-eq-ok (ensure (leb (length s.output + length s.errors) cap) "output exceeded limit")
        (λ v. ok s) h in
    (ok-injective f, leb→le _ cap (ensure-eq-ok _ _ e))

-- The bytes of both streams that are kept.
abbrev pub held : Reading → ℕ
held s = length s.output + length s.errors

read_one-held :
    (cap : ℕ) (s next : Reading) (r : Stream × List ℕ)
    → read_one cap s r ≡ ok next
    → held s ≤ cap
    → held next ≤ cap
unfolding read_one receive unregister extend is_open
read_one-held cap s next r h fits = go s.output s.errors s.output_open s.errors_open r h fits
  where
    kept : (t : Reading) → t ≡ next → held t ≤ cap → held next ≤ cap
    kept t e fits = subst (λ u. held u ≤ cap) e fits

    grown : (t : Reading) → within_cap cap t ≡ ok next → held next ≤ cap
    grown t h = let (e, fits) = within_cap-eq-ok cap t next h in kept t e fits

    go :
        (out e : List ℕ) (o f : Bool) (q : Stream × List ℕ)
        → read_one cap (reading out e o f) q ≡ ok next
        → length out + length e ≤ cap
        → held next ≤ cap
    go out e false f (Stream.output, block) h fits = kept _ (ok-injective h) fits
    go out e true f (Stream.output, []) h fits = kept _ (ok-injective h) fits
    go out e true f (Stream.output, b ∷ bs) h fits = grown _ h
    go out e o false (Stream.errors, block) h fits = kept _ (ok-injective h) fits
    go out e o true (Stream.errors, []) h fits = kept _ (ok-injective h) fits
    go out e o true (Stream.errors, b ∷ bs) h fits = grown _ h

read_all-held :
    (cap : ℕ) (s next : Reading) (reads : List (Stream × List ℕ))
    → read_all cap s reads ≡ ok next
    → held s ≤ cap
    → held next ≤ cap
unfolding read_all
read_all-held cap s next [] h fits = subst (λ u. held u ≤ cap) (ok-injective h) fits
read_all-held cap s next (r ∷ reads) h fits =
    let (mid, e, f) = >>=-eq-ok (read_one cap s r) (λ t. read_all cap t reads) h in
    read_all-held cap mid next reads f (read_one-held cap s mid r e fits)

pub read_loop-held :
    (cap : ℕ) (s last : Reading) (passes : List Pass)
    → read_loop cap s passes ≡ ok last
    → held s ≤ cap
    → held last ≤ cap
unfolding read_loop
read_loop-held cap s last [] h fits = go (any_open s) h
  where
    go :
        (o : Bool)
        → (if o then err (invalid "timed out; no automatic retry") else ok s) ≡ ok last
        → held last ≤ cap
    go false h = subst (λ u. held u ≤ cap) (ok-injective h) fits
    go true h = cc
read_loop-held cap s last (pass ∷ passes) h fits =
    go (any_open s) (λ next. read_loop-held cap next last passes) h
  where
    go :
        (o : Bool)
        → ((next : Reading)
            → read_loop cap next passes ≡ ok last
            → held next ≤ cap
            → held last ≤ cap)
        → ◌≡◌ {A = Result Reading}
            (elim o [
              | false ↦ ok s
              | true ↦ (do
                ensure (not pass.late) "timed out; no automatic retry"
                next ← read_all cap s pass.reads
                read_loop cap next passes)
            ])
            (ok last)
        → held last ≤ cap
    go false later h = subst (λ u. held u ≤ cap) (ok-injective h) fits
    go true later h =
        let (u, e1, h1) =
          >>=-eq-ok (ensure (not pass.late) "timed out; no automatic retry")
            (λ v. read_all cap s pass.reads >>= λ next. read_loop cap next passes) h in
        let (next, e2, h2) =
          >>=-eq-ok (read_all cap s pass.reads) (λ t. read_loop cap t passes) h1 in
        later next h2 (read_all-held cap s next pass.reads e2 fits)
