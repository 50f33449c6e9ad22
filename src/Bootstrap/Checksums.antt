-- ===== src/Bootstrap/Checksums.antt =====
-- SHA256SUMS as `fetch` of scripts/bootstrap.py reads it.
pub mod Lines
pub mod Printed
pub mod Packaged
use grepglint.Base.{
  ℕ, Bool, true, false, ◌&&◌, ◌||◌, Option, none, some, List, [], ◌∷◌, ◌++◌, ltb, leb, eqb,
  if◌then◌else◌, all, take, drop, Text, points, same_text,
}
use grepglint.Base.Result.{Result, ◌>>=◌, ensure, ◌>>◌, invalid, value_error, err, ok}
use grepglint.Bootstrap.Checks.{linux, mac, is_hex_of}

unfoldable pub binary_name : Text → Text → Text
binary_name tag selected = points "grepglint-" ++ tag ++ 45 ∷ selected

-- The line breaks of `str.splitlines` among ASCII characters.
abbrev pub is_break : ℕ → Bool
is_break c = (leb 10 c && leb c 13) || (leb 28 c && leb c 30)

-- `splitlines`, from a line that has begun: a line feed straight after a carriage return belongs to
-- it, and what follows the last break is a line if it is not empty.
unfoldable pub lines_from : Bool → Text → Text → List Text
lines_from returned line [] = elim line [ [] ↦ [] | c ∷ s ↦ (c ∷ s) ∷ [] ]
lines_from returned line (c ∷ s) =
    let skipped = returned && eqb c 10 in
    let ends = skipped || is_break c in
    let rest = lines_from (eqb c 13) (if ends then [] else line ++ c ∷ []) s in
    if skipped then rest else if ends then line ∷ rest else rest

-- `data.decode("ascii")`
unfoldable pub decode_ascii : List ℕ → Result Text
decode_ascii bytes = if all (λ b. ltb b 128) bytes then ok bytes else err value_error

-- The two names of the pattern.
unfoldable pub is_asset : Text → Text → Bool
unfolding same_text binary_name linux mac
is_asset tag name = same_text name (binary_name tag linux) || same_text name (binary_name tag mac)

-- `re.fullmatch`: 64 hexadecimal digits, two spaces and a name, as the digest and the name.
unfoldable pub match_line : Text → Text → Option (Text × Text)
unfolding same_text is_asset
match_line tag line =
    let digest = take 64 line in
    let name = drop 66 line in
    if is_hex_of 64 digest && same_text (take 2 (drop 64 line)) (32 ∷ 32 ∷ []) && is_asset tag name
    then some (name, digest)
    else none

abbrev pub Entries : Type 0
Entries = List (Text × Text)

unfoldable pub entry : Text → Entries → Option Text
unfolding same_text
entry name [] = none
entry name ((n, digest) ∷ entries) = if same_text n name then some digest else entry name entries

-- One pass of the loop over the lines.
unfoldable pub add_line : Text → Entries → Text → Result Entries
unfolding match_line entry
add_line tag entries line = elim (match_line tag line) [
  | none ↦ err (invalid "Malformed or duplicate checksum entry")
  | some (name, digest) ↦ elim (entry name entries) [
    | some old ↦ err (invalid "Malformed or duplicate checksum entry")
    | none ↦ ok (entries ++ (name, digest) ∷ [])
  ]
]

unfoldable pub add_lines : Text → Entries → List Text → Result Entries
unfolding add_line
add_lines tag entries [] = ok entries
add_lines tag entries (line ∷ lines) = do next ← add_line tag entries line; add_lines tag next lines

is_some : Option Text → Bool
is_some none = false
is_some (some s) = true

-- The entries of the file; the names of a line are the only ones, so both are there.
unfoldable pub checksums : Text → List ℕ → Result Entries
unfolding decode_ascii lines_from add_lines entry is_some binary_name linux mac
checksums tag bytes = do
  content ← decode_ascii bytes
  entries ← add_lines tag [] (lines_from false [] content)
  ensure
      (is_some (entry (binary_name tag linux) entries)
        && is_some (entry (binary_name tag mac) entries))
      "Missing target checksum"
  ok entries
