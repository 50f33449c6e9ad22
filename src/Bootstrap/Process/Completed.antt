-- ===== src/Bootstrap/Process/Completed.antt =====
-- When `run` of scripts/bootstrap.py returns an output.
use grepglint.Base.{
  ℕ, ◌+◌, ◌≤◌, ◌≡◌, refl, ap, ◌∙◌, Bool, true, false, not, ◌&&◌, ◌||◌, List, [], ◌∷◌, ◌++◌, arith,
  if◌then◌else◌, le→leb, and-eq-true, length, length-append, all,
}
use grepglint.Bootstrap.Process.{
  unread, extend, Stream, Pass, Exit, Behaviour, Reading, within_cap, read_all, read_loop, collect,
  unregister, receive, is_open, read_one, any_open, wait,
}
use grepglint.Base.Result.{Result, ◌>>=◌, ensure, ◌>>◌, invalid, err, ok}
use grepglint.Bootstrap.Process.Collected.{
  blocks_of_output, until_end, reads_of, written_by, collect-written_by,
}
use grepglint.Bootstrap.Process.Bounded.{reading}

abbrev blocks_of_errors : List (Stream × List ℕ) → List (List ℕ)
blocks_of_errors [] = []
blocks_of_errors ((Stream.output, block) ∷ reads) = blocks_of_errors reads
blocks_of_errors ((Stream.errors, block) ∷ reads) = block ∷ blocks_of_errors reads

-- A block of no bytes is among them.
abbrev ends : List (List ℕ) → Bool
ends [] = false
ends ([] ∷ blocks) = true
ends ((b ∷ bs) ∷ blocks) = ends blocks

-- What a stream gives in all, and whether it comes to its end.
abbrev in_all : Bool → List ℕ → List (List ℕ) → List ℕ
in_all open_still old blocks = if open_still then old ++ until_end blocks else old

abbrev total : Reading → List (Stream × List ℕ) → ℕ
total s reads =
    length (in_all s.output_open s.output (blocks_of_output reads))
    + length (in_all s.errors_open s.errors (blocks_of_errors reads))

abbrev will_end : Reading → List (Stream × List ℕ) → Bool
will_end s reads =
    (not s.output_open || ends (blocks_of_output reads))
    && (not s.errors_open || ends (blocks_of_errors reads))

length-in_all :
    (o : Bool) (old : List ℕ) (blocks : List (List ℕ)) → length old ≤ length (in_all o old blocks)
length-in_all true old blocks = omega (arith, length-append old (until_end blocks))
length-in_all false old blocks = omega arith

within_cap_fits :
    (cap : ℕ) (s : Reading) → length s.output + length s.errors ≤ cap → within_cap cap s ≡ ok s
unfolding within_cap
within_cap_fits cap s h = rw (le→leb _ cap h)

-- A reading that is on its way.
abbrev OnWay : ℕ → Reading → List (Stream × List ℕ) → Type 0
OnWay cap s reads = (total s reads ≤ cap) × (will_end s reads ≡ true)

abbrev Continues : ℕ → Result Reading → List (Stream × List ℕ) → Type 0
Continues cap out more = (next : Reading) × (out ≡ ok next) × OnWay cap next more

read_one-Continues :
    (cap : ℕ) (s : Reading) (r : Stream × List ℕ) (more : List (Stream × List ℕ))
    → OnWay cap s (r ∷ more)
    → Continues cap (read_one cap s r) more
unfolding read_one receive unregister extend is_open
read_one-Continues cap s r more w = go s.output s.errors s.output_open s.errors_open r w.0 w.1
  where
    go :
        (out e : List ℕ) (o f : Bool) (q : Stream × List ℕ)
        → total (reading out e o f) (q ∷ more) ≤ cap
        → will_end (reading out e o f) (q ∷ more) ≡ true
        → Continues cap (read_one cap (reading out e o f) q) more
    go out e false f (Stream.output, block) h k = (reading out e false f, refl, (h, k))
    go out e true f (Stream.output, []) h k =
        (reading out e false f, refl, (omega (arith, length-append out []), k))
    go out e true f (Stream.output, b ∷ bs) h k =
        let X = until_end (blocks_of_output more) in
        let one = length-append out ((b ∷ bs) ++ X) in
        let two = length-append (b ∷ bs) X in
        let three = length-append out (b ∷ bs) in
        let four = length-append (out ++ b ∷ bs) X in
        let old = length-in_all f e (blocks_of_errors more) in
        (
          reading (out ++ b ∷ bs) e true f,
          within_cap_fits cap (reading (out ++ b ∷ bs) e true f) (omega arith),
          (omega arith, k),
        )
    go out e o false (Stream.errors, block) h k = (reading out e o false, refl, (h, k))
    go out e o true (Stream.errors, []) h k =
        (reading out e o false, refl, (omega (arith, length-append e []), k))
    go out e o true (Stream.errors, b ∷ bs) h k =
        let X = until_end (blocks_of_errors more) in
        let one = length-append e ((b ∷ bs) ++ X) in
        let two = length-append (b ∷ bs) X in
        let three = length-append e (b ∷ bs) in
        let four = length-append (e ++ b ∷ bs) X in
        let old = length-in_all o out (blocks_of_output more) in
        (
          reading out (e ++ b ∷ bs) o true,
          within_cap_fits cap (reading out (e ++ b ∷ bs) o true) (omega arith),
          (omega arith, k),
        )

read_all-Continues :
    (cap : ℕ) (s : Reading) (reads more : List (Stream × List ℕ))
    → OnWay cap s (reads ++ more)
    → Continues cap (read_all cap s reads) more
unfolding read_all
read_all-Continues cap s [] more w = (s, refl, w)
read_all-Continues cap s (r ∷ reads) more w =
    let (mid, e, w1) = read_one-Continues cap s r (reads ++ more) w in
    let (next, f, w2) = read_all-Continues cap mid reads more w1 in
    (next, ap (λ t. t >>= λ u. read_all cap u reads) e ∙ f, w2)

read_loop_continues :
    (cap : ℕ) (s : Reading) (passes : List Pass)
    → OnWay cap s (reads_of passes)
    → all (λ p. not p.late) passes ≡ true
    → (last : Reading) × (read_loop cap s passes ≡ ok last)
unfolding read_loop
read_loop_continues cap s [] w h = (s, closed s.output_open s.errors_open w.1)
  where
    closed :
        (o f : Bool)
        → ((not o || false) && (not f || false)) ≡ true
        → (if o || f then err (invalid "timed out; no automatic retry") else ok s) ≡ ok s
    closed false false k = refl
    closed false true k = cc
    closed true f k = cc
read_loop_continues cap s (pass ∷ passes) w h =
    let (punctual, rest) = and-eq-true (not pass.late) _ h in
    let (next, e, w1) = read_all-Continues cap s pass.reads (reads_of passes) w in
    choose (any_open s) punctual next e (read_loop_continues cap next passes w1 rest)
  where
    step : Bool → Result Reading
    step late = do
      ensure late "timed out; no automatic retry"
      next ← read_all cap s pass.reads
      read_loop cap next passes

    choose :
        (o : Bool)
        → not pass.late ≡ true
        → (next : Reading) → read_all cap s pass.reads ≡ ok next
        → (last : Reading) × (read_loop cap next passes ≡ ok last)
        → (last : Reading) × (◌≡◌ {A = Result Reading}
            (elim o [
              | false ↦ ok s
              | true ↦ (do
                ensure (not pass.late) "timed out; no automatic retry"
                next ← read_all cap s pass.reads
                read_loop cap next passes)
            ])
            (ok last))
    choose false p next e later = (s, refl)
    choose true p next e later =
        (later.0, ap step p ∙ ap (λ t. t >>= λ u. read_loop cap u passes) e ∙ later.1)

-- If the process writes at most `cap` bytes to both streams in all, ends both before the deadline,
-- and exits with 0, then `run` returns what it wrote to its standard output.
pub collect_completes :
    (cap : ℕ) (b : Behaviour)
    → total unread (reads_of b.passes) ≤ cap
    → will_end unread (reads_of b.passes) ≡ true
    → all (λ p. not p.late) b.passes ≡ true
    → b.exit ≡ Exit.exit_zero
    → collect cap b ≡ ok (written_by b)
unfolding collect wait
collect_completes cap b h k l e =
    let (last, f) = read_loop_continues cap unread b.passes (h, k) l in
    let done : collect cap b ≡ ok last.output =
      ap (λ t. t >>= λ s. wait b.exit >> ok s.output) f ∙ ap (λ x. wait x >> ok last.output) e in
    done ∙ ap (λ o. ok o) (collect-written_by cap b last.output done).0
