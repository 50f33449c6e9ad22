-- ===== src/Bootstrap/Download/Received.antt =====
-- What `download_worker` of scripts/bootstrap.py leaves in the file.
use grepglint.Base.{
  ℕ, zero, suc, ◌+◌, ◌≤◌, ◌≡◌, refl, sym, ap, ◌∙◌, subst, Bool, true, false, some, List, [], ◌∷◌,
  ◌++◌, append_assoc, append-nil, arith, leb, if◌then◌else◌, leb→le, length, length-append, take,
}
use grepglint.Base.Result.{Exception, Result, invalid, err, ok}
use grepglint.Bootstrap.Download.{
  Read, Transfer, receive_blocks, close_file, download_worker, arrives, read_fails, write_fails,
}
use grepglint.Bootstrap.Process.Collected.{until_end}

abbrev pub blocks_of : List Read → List (List ℕ)
blocks_of [] = []
blocks_of (arrives block ∷ reads) = block ∷ blocks_of reads
blocks_of (e ∷ reads) = []

-- The bytes that arrive up to the end of the response or the first exception of `response.read`.
abbrev pub sent : List Read → List ℕ
sent [] = []
sent (arrives [] ∷ reads) = []
sent (arrives (b ∷ bs) ∷ reads) = (b ∷ bs) ++ sent reads
sent (read_fails e ∷ reads) = []
sent (write_fails block e ∷ reads) = block

abbrev pub arrived : List (List ℕ) → List Read
arrived [] = []
arrived (block ∷ blocks) = arrives block ∷ arrived blocks

-- A text begins with another.
abbrev pub IsPrefix : List ℕ → List ℕ → Type 0
IsPrefix s t = (rest : List ℕ) × (t ≡ s ++ rest)

IsPrefix-append : (xs s t : List ℕ) → IsPrefix s t → IsPrefix (xs ++ s) (xs ++ t)
IsPrefix-append xs s t (rest, e) = (rest, ap (λ l. xs ++ l) e ∙ sym (append_assoc xs s rest))

IsPrefix-trans : (s t u : List ℕ) → IsPrefix s t → IsPrefix t u → IsPrefix s u
IsPrefix-trans s t u (r, e) (q, f) = (r ++ q, f ∙ ap (λ l. l ++ q) e ∙ append_assoc s r q)

take-IsPrefix : (n : ℕ) (xs : List ℕ) → IsPrefix (take n xs) xs
take-IsPrefix zero xs = (xs, refl)
take-IsPrefix (suc n) [] = ([], refl)
take-IsPrefix (suc n) (x ∷ xs) = let (rest, e) = take-IsPrefix n xs in (rest, ap (λ l. x ∷ l) e)

IsPrefix-le : (s t : List ℕ) → IsPrefix s t → length s ≤ length t
IsPrefix-le s t (rest, e) = omega (arith, ap length e, length-append s rest)

-- What a loop has written of some bytes after `written`.
record Received (cap : ℕ) (written all_sent : List ℕ) (reads : List Read)
    (out : Result (Unit {0}) × List ℕ) : Type 0 where
  within : length out.1 ≤ cap
  prefix : IsPrefix out.1 (written ++ all_sent)
  complete : out.0 ≡ ok tt → out.1 ≡ written ++ until_end (blocks_of reads)

some_injective : {s t : List ℕ} → some s ≡ some t → s ≡ t
some_injective h = cc

module _ (cap : ℕ) where
  stopped_at :
      (written : List ℕ) (e : Exception) (all_sent : List ℕ) (reads : List Read)
      → length written ≤ cap
      → Received cap written all_sent reads (err e, written)
  stopped_at written e all_sent reads k = record {
    within = k;
    prefix = (all_sent, refl);
    complete = λ h. cc;
  }

  ended_at :
      (written : List ℕ) (reads : List Read)
      → length written ≤ cap
      → until_end (blocks_of reads) ≡ []
      → (all_sent : List ℕ) → Received cap written all_sent reads (ok tt, written)
  ended_at written reads k none_left all_sent = record {
    within = k;
    prefix = (all_sent, refl);
    complete = λ h. sym (append-nil written) ∙ ap (λ l. written ++ l) (sym none_left);
  }

  receive_blocks-Received :
      (size : ℕ) (written : List ℕ) (reads : List Read)
      → length written ≡ size
      → size ≤ cap
      → Received cap written (sent reads) reads (receive_blocks cap size written reads)
  unfolding receive_blocks
  receive_blocks-Received size written [] h k = ended_at written [] (omega arith) refl []
  receive_blocks-Received size written (read_fails e ∷ reads) h k =
      stopped_at written e [] (read_fails e ∷ reads) (omega arith)
  receive_blocks-Received size written (write_fails [] e ∷ reads) h k =
      ended_at written (write_fails [] e ∷ reads) (omega arith) refl []
  receive_blocks-Received size written (write_fails (b ∷ bs) e ∷ reads) h k =
      go (leb (size + length (b ∷ bs)) cap) refl
    where
      go :
          (c : Bool)
          → leb (size + length (b ∷ bs)) cap ≡ c
          → Received cap written (b ∷ bs) (write_fails (b ∷ bs) e ∷ reads) (
              if c
              then (err e, written ++ b ∷ bs)
              else (err (invalid "Download exceeded byte limit"), written))
      go true f = record {
        within =
            let fits = leb→le (size + length (b ∷ bs)) cap f in
            omega (arith, length-append written (b ∷ bs));
        prefix = ([], sym (append-nil (written ++ b ∷ bs)));
        complete = λ p. cc;
      }
      go false f = stopped_at written _ (b ∷ bs) _ (omega arith)
  receive_blocks-Received size written (arrives [] ∷ reads) h k =
      ended_at written (arrives [] ∷ reads) (omega arith) refl []
  receive_blocks-Received size written (arrives (b ∷ bs) ∷ reads) h k =
      go (leb (size + length (b ∷ bs)) cap) refl
        (receive_blocks-Received (size + length (b ∷ bs)) (written ++ b ∷ bs) reads)
    where
      later_out : Result (Unit {0}) × List ℕ
      later_out = receive_blocks cap (size + length (b ∷ bs)) (written ++ b ∷ bs) reads

      go :
          (c : Bool)
          → leb (size + length (b ∷ bs)) cap ≡ c
          → (length (written ++ b ∷ bs) ≡ size + length (b ∷ bs)
              → size + length (b ∷ bs) ≤ cap
              → Received cap (written ++ b ∷ bs) (sent reads) reads later_out)
          → Received cap written
              ((b ∷ bs) ++ sent reads)
              (arrives (b ∷ bs) ∷ reads)
              (elim c as (λ u. Result (Unit {0}) × List ℕ) [
                | true ↦ receive_blocks cap (size + length (b ∷ bs)) (written ++ b ∷ bs) reads
                | false ↦ (err (invalid "Download exceeded byte limit"), written)
              ])
      go true e later =
          let r = later (omega (arith, length-append written (b ∷ bs))) (leb→le _ cap e) in
          record {
            within = r.within;
            prefix = (r.prefix.0, sym (append_assoc written (b ∷ bs) (sent reads)) ∙ r.prefix.1);
            complete =
                λ p. r.complete p ∙ append_assoc written (b ∷ bs) (until_end (blocks_of reads));
          }
      go false e later = stopped_at written _ ((b ∷ bs) ++ sent reads) _ (omega arith)

-- Whatever arrives, and whether reading, writing or the end raises, a file that the worker leaves is
-- new, has at most `cap` bytes and begins what was sent. If the worker succeeds, it holds exactly
-- the blocks that were sent up to the end of the response.
pub download_worker-until_end :
    (cap : ℕ) (present : Bool) (response : Result Transfer) (file : List ℕ)
    → (download_worker cap present response).1 ≡ some file
    → (length file ≤ cap)
      × (present ≡ false)
      × ((t : Transfer) × (response ≡ ok t)
          × IsPrefix file (sent t.reads)
          × ((download_worker cap present response).0 ≡ ok tt
              → file ≡ until_end (blocks_of t.reads)))
unfolding download_worker
download_worker-until_end cap present (err e) file h = cc
download_worker-until_end cap true (ok t) file h = cc
download_worker-until_end cap false (ok t) file h =
    let (within, prefix, done) =
      go t.synced (receive_blocks cap 0 [] t.reads)
        (receive_blocks-Received cap 0 [] t.reads refl (omega arith)) h in
    (within, refl, (t, refl, prefix, done))
  where
    cut :
        (out : Result (Unit {0}) × List ℕ)
        → Received cap [] (sent t.reads) t.reads out
        → take t.kept out.1 ≡ file
        → (length file ≤ cap) × IsPrefix file (sent t.reads)
    cut out r e =
        let short = take-IsPrefix t.kept out.1 in
        subst (λ l. (length l ≤ cap) × IsPrefix l (sent t.reads)) e
          (
            let less = IsPrefix-le _ _ short in let most = r.within in omega arith,
            IsPrefix-trans _ _ _ short r.prefix,
          )

    go :
        (synced : Result (Unit {0})) (out : Result (Unit {0}) × List ℕ)
        → Received cap [] (sent t.reads) t.reads out
        → (close_file t.kept synced out).1 ≡ some file
        → (length file ≤ cap)
          × IsPrefix file (sent t.reads)
          × ((close_file t.kept synced out).0 ≡ ok tt → file ≡ until_end (blocks_of t.reads))
    go synced (err x, written) r e =
        let (a, b) = cut (err x, written) r (some_injective e) in (a, b, λ p. cc)
    go (err x) (ok u, written) r e =
        let (a, b) = cut (ok u, written) r (some_injective e) in (a, b, λ p. cc)
    go (ok v) (ok u, written) r e =
        let same : written ≡ file = some_injective e in
        (
          subst (λ l. length l ≤ cap) same r.within,
          subst (λ l. IsPrefix l (sent t.reads)) same r.prefix,
          λ p. sym same ∙ r.complete refl,
        )
