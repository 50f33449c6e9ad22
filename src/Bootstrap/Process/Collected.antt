-- ===== src/Bootstrap/Process/Collected.antt =====
-- What `run` of scripts/bootstrap.py returns of the blocks that a process writes.
use grepglint.Base.{
  ℕ, ◌+◌, ◌≤◌, ◌≡◌, refl, sym, ap, ◌∙◌, subst, Bool, true, false, not, ◌||◌, List, [], ◌∷◌, ◌++◌,
  append_assoc, append-nil, arith, if◌then◌else◌, length,
}
use grepglint.Bootstrap.Process.{
  unread, extend, Stream, Pass, Exit, Behaviour, Reading, read_all, read_loop, collect, unregister,
  receive, is_open, read_one, any_open, wait,
}
use grepglint.Base.Result.{Result, ◌>>=◌, ensure, ◌>>◌, >>=-eq-ok, ok-injective, invalid, err, ok}
use grepglint.Bootstrap.Process.Bounded.{reading, within_cap-eq-ok, read_loop-held}

abbrev pub blocks_of_output : List (Stream × List ℕ) → List (List ℕ)
blocks_of_output [] = []
blocks_of_output ((Stream.output, block) ∷ reads) = block ∷ blocks_of_output reads
blocks_of_output ((Stream.errors, block) ∷ reads) = blocks_of_output reads

-- The bytes up to the end of a stream, which a block of no bytes marks.
abbrev pub until_end : List (List ℕ) → List ℕ
until_end [] = []
until_end ([] ∷ blocks) = []
until_end ((b ∷ bs) ∷ blocks) = (b ∷ bs) ++ until_end blocks

abbrev pub reads_of : List Pass → List (Stream × List ℕ)
reads_of [] = []
reads_of (pass ∷ passes) = pass.reads ++ reads_of passes

abbrev pub written_by : Behaviour → List ℕ
written_by b = until_end (blocks_of_output (reads_of b.passes))

-- The output when the given reads are still to come.
abbrev whole : Reading → List (Stream × List ℕ) → List ℕ
whole s reads = if s.output_open then s.output ++ until_end (blocks_of_output reads) else s.output

read_one-whole :
    (cap : ℕ) (s next : Reading) (r : Stream × List ℕ) (more : List (Stream × List ℕ))
    → read_one cap s r ≡ ok next
    → whole s (r ∷ more) ≡ whole next more
unfolding read_one receive unregister extend is_open
read_one-whole cap s next r more h = go s.output s.errors s.output_open s.errors_open r h
  where
    go :
        (out e : List ℕ) (o f : Bool) (q : Stream × List ℕ)
        → read_one cap (reading out e o f) q ≡ ok next
        → whole (reading out e o f) (q ∷ more) ≡ whole next more
    go out e false f (Stream.output, block) h = ap (λ t. whole t more) (ok-injective h)
    go out e true f (Stream.output, []) h = append-nil out ∙ ap (λ t. whole t more) (ok-injective h)
    go out e true f (Stream.output, b ∷ bs) h =
        sym (append_assoc out (b ∷ bs) (until_end (blocks_of_output more)))
        ∙ ap (λ t. whole t more) (within_cap-eq-ok cap _ next h).0
    go out e o false (Stream.errors, block) h = ap (λ t. whole t more) (ok-injective h)
    go out e o true (Stream.errors, []) h = ap (λ t. whole t more) (ok-injective h)
    go out e o true (Stream.errors, b ∷ bs) h =
        ap (λ t. whole t more) (within_cap-eq-ok cap _ next h).0

read_all-whole :
    (cap : ℕ) (s next : Reading) (reads more : List (Stream × List ℕ))
    → read_all cap s reads ≡ ok next
    → whole s (reads ++ more) ≡ whole next more
unfolding read_all
read_all-whole cap s next [] more h = ap (λ t. whole t more) (ok-injective h)
read_all-whole cap s next (r ∷ reads) more h =
    let (mid, e, f) = >>=-eq-ok (read_one cap s r) (λ t. read_all cap t reads) h in
    read_one-whole cap s mid r (reads ++ more) e ∙ read_all-whole cap mid next reads more f

closed-whole :
    (s : Reading) (reads : List (Stream × List ℕ)) → any_open s ≡ false → whole s reads ≡ s.output
closed-whole s reads h = go s.output_open s.errors_open h
  where
    go :
        (o f : Bool)
        → (o || f) ≡ false
        → (if o then s.output ++ until_end (blocks_of_output reads) else s.output) ≡ s.output
    go false f h = refl
    go true f h = cc

read_loop-whole :
    (cap : ℕ) (s last : Reading) (passes : List Pass)
    → read_loop cap s passes ≡ ok last
    → whole s (reads_of passes) ≡ last.output
unfolding read_loop
read_loop-whole cap s last [] h = go (any_open s) refl h
  where
    go :
        (o : Bool)
        → any_open s ≡ o
        → (if o then err (invalid "timed out; no automatic retry") else ok s) ≡ ok last
        → whole s [] ≡ last.output
    go false e h = closed-whole s [] e ∙ ap (λ t. t.output) (ok-injective h)
    go true e h = cc
read_loop-whole cap s last (pass ∷ passes) h =
    go (any_open s) refl (λ next. read_loop-whole cap next last passes) h
  where
    go :
        (o : Bool)
        → any_open s ≡ o
        → ((next : Reading)
            → read_loop cap next passes ≡ ok last
            → whole next (reads_of passes) ≡ last.output)
        → ◌≡◌ {A = Result Reading}
            (elim o [
              | false ↦ ok s
              | true ↦ (do
                ensure (not pass.late) "timed out; no automatic retry"
                next ← read_all cap s pass.reads
                read_loop cap next passes)
            ])
            (ok last)
        → whole s (pass.reads ++ reads_of passes) ≡ last.output
    go false e later h =
        closed-whole s (pass.reads ++ reads_of passes) e ∙ ap (λ t. t.output) (ok-injective h)
    go true e later h =
        let (u, e1, h1) =
          >>=-eq-ok (ensure (not pass.late) "timed out; no automatic retry")
            (λ v. read_all cap s pass.reads >>= λ next. read_loop cap next passes) h in
        let (next, e2, h2) =
          >>=-eq-ok (read_all cap s pass.reads) (λ t. read_loop cap t passes) h1 in
        read_all-whole cap s next pass.reads (reads_of passes) e2 ∙ later next h2

wait-eq-ok : (e : Exit) {u : Unit {0}} → wait e ≡ ok u → e ≡ Exit.exit_zero
unfolding wait
wait-eq-ok Exit.exit_zero h = refl
wait-eq-ok Exit.exit_other h = cc
wait-eq-ok Exit.still_running h = cc

-- If `run` collects an output, it is exactly what the process wrote to its standard output up to
-- the end of that stream, has at most `cap` bytes, and the process exited with 0.
pub collect-written_by :
    (cap : ℕ) (b : Behaviour) (out : List ℕ)
    → collect cap b ≡ ok out
    → (out ≡ written_by b) × (length out ≤ cap) × (b.exit ≡ Exit.exit_zero)
unfolding collect
collect-written_by cap b out h =
    let (s, e1, h1) =
      >>=-eq-ok (read_loop cap unread b.passes) (λ t. wait b.exit >> ok t.output) h in
    let (u, e2, h2) = >>=-eq-ok (wait b.exit) (λ v. ok s.output) h1 in
    let fits : length s.output + length s.errors ≤ cap =
      read_loop-held cap unread s b.passes e1 (omega arith) in
    let same : s.output ≡ out = ok-injective h2 in
    (
      sym same ∙ sym (read_loop-whole cap unread s b.passes e1),
      subst (λ o. length o ≤ cap) same (omega arith),
      wait-eq-ok b.exit e2,
    )
