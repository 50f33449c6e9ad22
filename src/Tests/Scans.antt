-- ===== src/Tests/Scans.antt =====
-- Runs of `inventory` of benchmarks/coverage.py on one file, and instances of the theorems about it.
use grepglint.Base.{ℕ, ◌≡◌, refl, ◌≢◌, Bool, false, Option, none, some, List, [], ◌∷◌, All}
use grepglint.Inventory.{unread, scan_blocks, finish, static_skip}
use grepglint.Inventory.Chunks.{
  scan_bytes, counts, counts-scan_blocks, line_count, lines-scan_blocks,
}

abbrev blocks : List (List ℕ)
blocks = (97 ∷ 98 ∷ 13 ∷ []) ∷ (10 ∷ 99 ∷ []) ∷ []

abbrev full : All (λ block. block ≢ []) blocks
full = ((λ p. cc), ((λ p. cc), tt))

counts-scan_blocks_example :
    counts (scan_blocks unread blocks) ≡ counts (scan_bytes unread (97 ∷ 98 ∷ 13 ∷ 10 ∷ 99 ∷ []))
counts-scan_blocks_example = counts-scan_blocks blocks full

lines-scan_blocks_example :
    (finish (scan_blocks unread blocks)).lines ≡ line_count false (97 ∷ 98 ∷ 13 ∷ 10 ∷ 99 ∷ [])
lines-scan_blocks_example = lines-scan_blocks blocks full

counts_run : counts (scan_blocks unread blocks) ≡ (2, 2)
unfolding scan_blocks finish
counts_run = refl

-- A decoder that takes every block.
abbrev accept : Unit {0} → List ℕ → Bool → Option (Unit {0})
accept d block final = some tt

skip_run : static_skip accept tt ("src" ∷ []) "a.py" "100644" 5 blocks ≡ none
unfolding static_skip
skip_run = refl

vendor_run :
    static_skip accept tt ("vendor" ∷ "x" ∷ []) "a.py" "100644" 5 blocks ≡ some "excluded_path"
unfolding static_skip
vendor_run = refl

binary_run : static_skip accept tt ("src" ∷ []) "a.bin" "100644" 1 ((0 ∷ []) ∷ []) ≡ some "binary"
unfolding static_skip
binary_run = refl
