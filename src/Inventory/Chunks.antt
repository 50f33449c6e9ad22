-- ===== src/Inventory/Chunks.antt =====
-- Lemmas about the blocks of `inventory` in benchmarks/coverage.py, and the theorems.
use grepglint.Base.{
  ℕ, suc, ◌+◌, ◌-◌, max, ◌≡◌, refl, ap, ◌∙◌, ◌≢◌, ◌⊎◌, inl, inr, Bool, true, false, not, none, some,
  List, [], ◌∷◌, ◌++◌, arith, ltb, eqb, if◌then◌else◌, Bool-cases, All,
}
use grepglint.Inventory.{
  Scan, unread, line_feed, is_return, split, scan_parts, scan_blocks, finish, cons_first,
  close_line,
}

step : Scan → ℕ → Scan
step s b =
    if eqb b line_feed
    then record {
      lines = s.lines + 1;
      max_line = max s.max_line (s.pending_length - is_return s.last_byte);
      pending_length = 0;
      last_byte = none;
    }
    else record s { pending_length = s.pending_length + 1; last_byte = some b }

pub scan_bytes : Scan → List ℕ → Scan
unfolding step
scan_bytes s [] = s
scan_bytes s (b ∷ bs) = scan_bytes (step s b) bs

-- Scans with one outcome: the last byte counts only in a line that has begun.
pub record Same (s t : Scan) : Type 0 where
  pub lines : s.lines ≡ t.lines
  pub max_line : s.max_line ≡ t.max_line
  pub pending : s.pending_length ≡ t.pending_length
  pub last : (s.pending_length ≡ 0) ⊎ (s.last_byte ≡ t.last_byte)

Same-trans : {s t u : Scan} → Same s t → Same t u → Same s u
Same-trans p q = ground arith

step-Same : {s t : Scan} (b : ℕ) → Same s t → Same (step s b) (step t b)
unfolding step
step-Same b h = ground arith

scan_bytes-Same : {s t : Scan} (bs : List ℕ) → Same s t → Same (scan_bytes s bs) (scan_bytes t bs)
unfolding scan_bytes
scan_bytes-Same [] h = h
scan_bytes-Same {s} {t} (b ∷ bs) h =
    scan_bytes-Same {s = step s b} {t = step t b} bs (step-Same b h)

finish-Same : {s t : Scan} → Same s t → (finish s).lines ≡ (finish t).lines
unfolding finish
finish-Same h = ground arith

close_line-Same :
    {s t : Scan} (part : List ℕ) → Same s t → Same (close_line s part) (close_line t part)
unfolding close_line
close_line-Same [] h = ground arith
close_line-Same (b ∷ bs) h = ground arith

scan_parts-Same :
    {s t : Scan} (parts : List (List ℕ)) → Same s t → Same (scan_parts s parts) (scan_parts t parts)
unfolding scan_parts
scan_parts-Same [] h = h
scan_parts-Same (part ∷ []) h = ground arith
scan_parts-Same {s} {t} (part ∷ next ∷ parts) h =
    scan_parts-Same {s = close_line s part} {t = close_line t part} (next ∷ parts)
      (close_line-Same part h)

-- The parts of a text: there is one, and the text is empty only if it is the only one and empty.
split_shape :
    (b : ℕ) (bs : List ℕ)
    → (p : List ℕ) × (ps : List (List ℕ)) × (split (b ∷ bs) ≡ p ∷ ps) × ((p ≢ []) ⊎ (ps ≢ []))
unfolding split cons_first
split_shape b bs = go (split bs) (split_some bs)
  where
    split_some : (l : List ℕ) → split l ≢ []
    split_some [] h = cc
    split_some (x ∷ l) h = ground arith

    go :
        (parts : List (List ℕ))
        → parts ≢ []
        → (p : List ℕ) × (ps : List (List ℕ)) × ((if eqb b line_feed
              then [] ∷ parts
              else cons_first b parts)
            ≡ p ∷ ps)
          × ((p ≢ []) ⊎ (ps ≢ []))
    go [] h = absurd (h refl)
    go (part ∷ parts) h = elim (Bool-cases (eqb b line_feed)) [
      | inl e ↦ ([], part ∷ parts, rw e, inr (λ q. cc))
      | inr e ↦ (b ∷ part, parts, rw e, inl (λ q. cc))
    ]

-- The first byte of a part, read on its own.
scan_parts-push :
    (s : Scan) (b : ℕ) (p : List ℕ) (ps : List (List ℕ))
    → eqb b line_feed ≡ false
    → (p ≢ []) ⊎ (ps ≢ [])
    → Same (scan_parts s ((b ∷ p) ∷ ps)) (scan_parts (step s b) (p ∷ ps))
unfolding scan_parts step
scan_parts-push s b [] [] e h = absurd (ground arith)
scan_parts-push s b (c ∷ p) [] e h = ground arith
scan_parts-push s b p (q ∷ ps) e h =
    scan_parts-Same {s = close_line s (b ∷ p)} {t = close_line (step s b) p} (q ∷ ps) (close p)
  where
    close : (l : List ℕ) → Same (close_line s (b ∷ l)) (close_line (step s b) l)
    close [] = ground arith
    close (c ∷ l) = ground arith

split_feed :
    (b : ℕ) (bs : List ℕ) (ps : List (List ℕ))
    → eqb b line_feed ≡ true
    → split bs ≡ ps
    → split (b ∷ bs) ≡ [] ∷ ps
unfolding split
split_feed b bs ps e h = ground arith

split_byte :
    (b : ℕ) (bs p : List ℕ) (ps : List (List ℕ))
    → eqb b line_feed ≡ false
    → split bs ≡ p ∷ ps
    → split (b ∷ bs) ≡ (b ∷ p) ∷ ps
unfolding split cons_first
split_byte b bs p ps e h = rw (split, e, h)

-- A line feed that closes an empty part.
scan_parts_feed :
    (s : Scan) (b : ℕ) (p : List ℕ) (ps : List (List ℕ))
    → eqb b line_feed ≡ true
    → Same (scan_parts s ([] ∷ p ∷ ps)) (scan_parts (step s b) (p ∷ ps))
unfolding scan_parts
scan_parts_feed s b p ps e =
    scan_parts-Same {s = close_line s []} {t = step s b} (p ∷ ps)
      (unfold close_line step in ground arith)

scan_bytes-cons :
    (s : Scan) (b : ℕ) (bs : List ℕ) → scan_bytes s (b ∷ bs) ≡ scan_bytes (step s b) bs
unfolding scan_bytes
scan_bytes-cons s b bs = refl

-- One more byte before a text that is split.
split_more :
    (s : Scan) (b c : ℕ) (bs : List ℕ)
    → Same (scan_parts (step s b) (split (c ∷ bs))) (scan_bytes (step s b) (c ∷ bs))
    → Same (scan_parts s (split (b ∷ c ∷ bs))) (scan_bytes s (b ∷ c ∷ bs))
split_more s b c bs h =
    let (p, ps, shape, more) = split_shape c bs in
    let ih : Same (scan_parts (step s b) (p ∷ ps)) (scan_bytes (step s b) (c ∷ bs)) =
      rw shape at h in
    let rest : Same (scan_parts (step s b) (p ∷ ps)) (scan_bytes s (b ∷ c ∷ bs)) =
      rw (scan_bytes-cons s b (c ∷ bs)) ih in
    elim (Bool-cases (eqb b line_feed)) [
      | inl e ↦
          rw (split_feed b (c ∷ bs) (p ∷ ps) e shape) (Same-trans (scan_parts_feed s b p ps e) rest)
      | inr e ↦
          rw (split_byte b (c ∷ bs) p ps e shape)
            (Same-trans (scan_parts-push s b p ps e more) rest)
    ]

scan_parts-split :
    (s : Scan) (b : ℕ) (bs : List ℕ) → Same (scan_parts s (split (b ∷ bs))) (scan_bytes s (b ∷ bs))
scan_parts-split s b [] =
    unfold split cons_first scan_parts step close_line scan_bytes in ground arith
scan_parts-split s b (c ∷ bs) = split_more s b c bs (scan_parts-split (step s b) c bs)

abbrev pub concat : List (List ℕ) → List ℕ
concat [] = []
concat (block ∷ blocks) = block ++ concat blocks

scan_bytes-append :
    (s : Scan) (xs ys : List ℕ) → scan_bytes s (xs ++ ys) ≡ scan_bytes (scan_bytes s xs) ys
unfolding scan_bytes
scan_bytes-append s [] ys = refl
scan_bytes-append s (x ∷ xs) ys = scan_bytes-append (step s x) xs ys

scan_blocks-Same :
    {s t : Scan} (blocks : List (List ℕ))
    → All (λ block. block ≢ []) blocks
    → Same s t
    → Same (scan_blocks s blocks) (scan_bytes t (concat blocks))
unfolding scan_blocks
scan_blocks-Same [] full h = unfold scan_bytes in h
scan_blocks-Same ([] ∷ blocks) full h = absurd (full.0 refl)
scan_blocks-Same {s} {t} ((b ∷ bs) ∷ blocks) full h = rw scan_bytes-append (
    scan_blocks-Same {s = scan_parts s (split (b ∷ bs))} {t = scan_bytes t (b ∷ bs)} blocks full.1
      (Same-trans (scan_parts-split s b bs) (scan_bytes-Same (b ∷ bs) h)))

-- The counts of a file, as `record` stores them.
abbrev pub counts : Scan → ℕ × ℕ
counts s = ((finish s).lines, (finish s).max_line)

counts-Same : {s t : Scan} → Same s t → counts s ≡ counts t
unfolding finish
counts-Same h = ground arith

Same-refl : (s : Scan) → Same s s
Same-refl s = record { lines = refl; max_line = refl; pending = refl; last = inr refl }

-- Blocks that hold some bytes give the line count and the longest line of the bytes read one at a
-- time, so the blocks in which the file is read do not matter.
pub counts-scan_blocks :
    (blocks : List (List ℕ))
    → All (λ block. block ≢ []) blocks
    → counts (scan_blocks unread blocks) ≡ counts (scan_bytes unread (concat blocks))
counts-scan_blocks blocks full = counts-Same (scan_blocks-Same blocks full (Same-refl unread))

-- Line feeds, and one more for bytes after the last of them.
abbrev pub line_count : Bool → List ℕ → ℕ
line_count begun [] = if begun then 1 else 0
line_count begun (b ∷ bs) =
    let rest = line_count (not (eqb b line_feed)) bs in if eqb b line_feed then suc rest else rest

scan_bytes-line_count :
    (s : Scan) (bs : List ℕ)
    → (finish (scan_bytes s bs)).lines ≡ s.lines + line_count (ltb 0 s.pending_length) bs
unfolding scan_bytes step
scan_bytes-line_count s [] = unfold finish in ground arith
scan_bytes-line_count s (b ∷ bs) = ground (arith, scan_bytes-line_count (step s b) bs)

-- The stored line count is the number of line feeds, and one more if bytes follow the last of
-- them, whatever the blocks in which the file is read.
pub lines-scan_blocks :
    (blocks : List (List ℕ))
    → All (λ block. block ≢ []) blocks
    → (finish (scan_blocks unread blocks)).lines ≡ line_count false (concat blocks)
lines-scan_blocks blocks full =
    ap (λ c. c.0) (counts-scan_blocks blocks full)
    ∙ scan_bytes-line_count unread (concat blocks)
    ∙ omega arith
