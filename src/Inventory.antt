-- ===== src/Inventory.antt =====
-- `inventory` of benchmarks/coverage.py: one file of a source, read in blocks, and the reason for
-- which an index skips it. The incremental UTF-8 decoder of Python's codecs is a parameter.
pub mod Chunks
use grepglint.Base.{
  ℕ, ◌+◌, ◌-◌, ◌*◌, max, String, Bool, true, false, not, ◌||◌, Option, none, some, List, [], ◌∷◌,
  ◌==◌, ltb, eqb, if◌then◌else◌, length, any,
}
use grepglint.Base.Dict.{contains}

pub record Scan : Type 0 where
  pub lines : ℕ
  pub max_line : ℕ
  pub pending_length : ℕ
  pub last_byte : Option ℕ

abbrev pub unread : Scan
unread = record { lines = 0; max_line = 0; pending_length = 0; last_byte = none }

-- `part[-1:]`
pub last_of : List ℕ → Option ℕ
last_of [] = none
last_of (b ∷ []) = some b
last_of (b ∷ c ∷ bs) = last_of (c ∷ bs)

abbrev pub line_feed : ℕ
line_feed = 10

-- `int(tail == b'\r')`
abbrev pub is_return : Option ℕ → ℕ
is_return none = 0
is_return (some b) = if eqb b 13 then 1 else 0

cons_first : ℕ → List (List ℕ) → List (List ℕ)
cons_first b [] = (b ∷ []) ∷ []
cons_first b (part ∷ parts) = (b ∷ part) ∷ parts

-- `data.split(b'\n')`
pub split : List ℕ → List (List ℕ)
unfolding cons_first
split [] = [] ∷ []
split (b ∷ bs) = let rest = split bs in if eqb b line_feed then [] ∷ rest else cons_first b rest

-- `part[-1:] if part else last_byte`
abbrev tail_of : List ℕ → Option ℕ → Option ℕ
tail_of [] last_byte = last_byte
tail_of (b ∷ bs) last_byte = last_of (b ∷ bs)

-- A part that is followed by a line feed.
close_line : Scan → List ℕ → Scan
unfolding last_of
close_line s part = record {
  lines = s.lines + 1;
  max_line = max s.max_line (s.pending_length + length part - is_return (tail_of part s.last_byte));
  pending_length = 0;
  last_byte = last_of part;
}

-- The loop over the parts.
pub scan_parts : Scan → List (List ℕ) → Scan
unfolding close_line last_of
scan_parts s [] = s
scan_parts s (part ∷ []) = record s {
  pending_length = s.pending_length + length part;
  last_byte = last_of part;
}
scan_parts s (part ∷ next ∷ parts) = scan_parts (close_line s part) (next ∷ parts)

-- The loop over the blocks that `stream.read` returns.
unfoldable pub scan_blocks : Scan → List (List ℕ) → Scan
unfolding scan_parts split
scan_blocks s [] = s
scan_blocks s (block ∷ blocks) = scan_blocks (scan_parts s (split block)) blocks

-- `if pending_length:` after the loop.
unfoldable pub finish : Scan → Scan
finish s =
    if ltb 0 s.pending_length
    then record s {
      lines = s.lines + 1;
      max_line = max s.max_line (s.pending_length - is_return s.last_byte);
    }
    else s

module _ {D : Type 0} (decode : D → List ℕ → Bool → Option D) where
  -- `invalid` and the decoder over the blocks; after an error the decoder is not called again.
  pub is_invalid : D → List (List ℕ) → Bool
  is_invalid d [] = elim (decode d [] true) [ none ↦ true | some _ ↦ false ]
  is_invalid d (block ∷ blocks) = elim (decode d block false) [
    | none ↦ true
    | some next ↦ is_invalid next blocks
  ]

pub is_binary : List (List ℕ) → Bool
is_binary = any (λ block. any (λ b. eqb b 0) block)

abbrev pub excluded_dirs : List String
excluded_dirs =
    "node_modules" ∷ "vendor" ∷ "dist" ∷ "build" ∷ "coverage" ∷ "target" ∷ ".next" ∷ ".cache" ∷ []

abbrev pub excluded_files : List String
excluded_files =
    "pnpm-lock.yaml" ∷ "package-lock.json" ∷ "yarn.lock" ∷ "bun.lock" ∷ "Cargo.lock"
    ∷ ".grepglintignore" ∷ []

is_regular : String → Bool
is_regular mode = mode == "100644" || mode == "100755"

-- The reason that the path and the mode give; `dirs` are the path's parts before its name.
path_reason : List String → String → String → Option String
unfolding is_regular
path_reason dirs name mode =
    if contains name excluded_files || any (λ d. contains d excluded_dirs) dirs
    then some "excluded_path"
    else if not (is_regular mode)
    then some "not_regular_file"
    else none

content_reason : ℕ → Bool → Bool → Scan → Option String
content_reason bytes binary invalid s =
    if ltb (512 * 1024) bytes
    then some "file_too_large"
    else if binary
    then some "binary"
    else if invalid
    then some "invalid_utf8"
    else if ltb 12000 s.lines
    then some "too_many_lines"
    else if ltb 4000 s.max_line
    then some "line_too_long"
    else none

-- `record['static_skip']`, for a file whose blocks are read if it is regular.
unfoldable pub static_skip :
    {D : Type 0}
    → (D → List ℕ → Bool → Option D)
    → D
    → List String
    → String
    → String
    → ℕ
    → List (List ℕ)
    → Option String
unfolding path_reason content_reason is_regular is_invalid is_binary finish scan_blocks
static_skip decode d dirs name mode bytes blocks = elim (path_reason dirs name mode) [
  | some reason ↦ some reason
  | none ↦
      content_reason bytes (is_binary blocks) (is_invalid decode d blocks)
        (finish (scan_blocks unread blocks))
]
