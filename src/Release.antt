-- ===== src/Release.antt =====
-- scripts/release.py: the tag and the executables of a release, and the file SHA256SUMS. `sha256`
-- is `hashlib.sha256(…).hexdigest()`, a parameter; `cargo metadata` and the parser of arguments are
-- outside.
use grepglint.Base.{
  ℕ, ◌*◌, Bool, true, false, ◌&&◌, none, some, List, [], ◌∷◌, ◌++◌, ◌==◌, leb, eqb, if◌then◌else◌,
  length, all, take, drop, Text, points, same_text, one_of, split_on, is_digit,
}
use grepglint.Base.Json.{Value, Items, get, str, list, dict, nil, cons}
use grepglint.Base.Result.{
  Result, ◌>>=◌, ensure, ◌>>◌, invalid, key_error, type_error, stop_iteration, err, ok,
}

abbrev pub max_bytes : ℕ
max_bytes = 128 * 1024 * 1024

unfoldable pub linux_target : Text
linux_target = points "x86_64-unknown-linux-gnu"

unfoldable pub mac_target : Text
mac_target = points "aarch64-apple-darwin"

abbrev pub targets : List Text
targets = linux_target ∷ mac_target ∷ []

-- `next(p["version"] for p in metadata["packages"] if p["name"] == "grepglint")`
unfoldable pub version_in : Items → Result Value
version_in nil = err stop_iteration
version_in (cons (dict p) packages) = elim (get "name" p) [
  | none ↦ err key_error
  | some name ↦ elim (is_grepglint name) [
    | true ↦ elim (get "version" p) [ none ↦ err key_error | some v ↦ ok v ]
    | false ↦ version_in packages
  ]
]
  where
    is_grepglint : Value → Bool
    is_grepglint (str s) = s == "grepglint"
    is_grepglint _ = false
version_in (cons _ packages) = err type_error

-- `version()` on what `cargo metadata` prints.
unfoldable pub version : Value → Result Value
unfolding version_in
version (dict metadata) = elim (get "packages" metadata) [
  | none ↦ err key_error
  | some packages ↦ elim packages [ list ps ↦ version_in ps | _ ↦ err type_error ]
]
version _ = err type_error

-- `[0-9]+`
abbrev pub is_number : Text → Bool
is_number [] = false
is_number (c ∷ s) = all is_digit (c ∷ s)

abbrev pub three : (Text → Bool) → List Text → Bool
three ok_part (a ∷ b ∷ c ∷ []) = ok_part a && ok_part b && ok_part c
three ok_part _ = false

-- No digit is a dot, so the two dots of the pattern are all:
-- `re.fullmatch(r"v[0-9]+\.[0-9]+\.[0-9]+", tag)`
unfoldable pub is_version_tag : Text → Bool
unfolding split_on
is_version_tag [] = false
is_version_tag (c ∷ s) = eqb c 118 && three is_number (split_on 46 s)

unfoldable pub validate_tag : Text → Text → Result (Unit {0})
unfolding is_version_tag same_text
validate_tag tag expected_version =
    ensure (is_version_tag tag && same_text tag (118 ∷ expected_version))
      "selected tag must be v<Cargo package version>, without a prerelease suffix"

-- `f"grepglint-{tag}-{target}"`, of a target of the release.
unfoldable pub asset_text : Text → Text → Text
asset_text tag target = points "grepglint-" ++ tag ++ 45 ∷ target

unfoldable pub asset_name : Text → Text → Result Text
unfolding same_text asset_text linux_target mac_target
asset_name tag target = do
  ensure (one_of target targets) "unsupported release target"
  ok (asset_text tag target)

-- What stands at a path.
pub data Found : Type 0 where
  missing link other_kind : Found
  regular : List ℕ → Found

-- The magic bytes of the two targets.
unfoldable pub is_elf : List ℕ → Bool
unfolding same_text
is_elf header =
    same_text (take 6 header) (127 ∷ 69 ∷ 76 ∷ 70 ∷ 2 ∷ 1 ∷ [])
    && same_text (take 2 (drop 18 header)) (62 ∷ 0 ∷ [])

unfoldable pub is_mach_o : List ℕ → Bool
unfolding same_text
is_mach_o header = same_text (take 8 header) (207 ∷ 250 ∷ 237 ∷ 254 ∷ 12 ∷ 0 ∷ 0 ∷ 1 ∷ [])

unfoldable pub validate_binary : Found → Text → Result (Unit {0})
unfolding same_text linux_target mac_target is_elf is_mach_o
validate_binary found target = do
  ensure (one_of target targets) "unsupported release target"
  bytes ← elim found [
    | regular bytes ↦ ok bytes
    | _ ↦ err (invalid "missing, nonregular, empty, or oversized executable")
  ]
  ensure (leb 32 (length bytes) && leb (length bytes) max_bytes)
      "missing, nonregular, empty, or oversized executable"
  let header = take 32 bytes
  let valid = if same_text target linux_target then is_elf header else is_mach_o header
  ensure valid "executable target mismatch"

abbrev pub bytes_of : Found → List ℕ
bytes_of (regular bytes) = bytes
bytes_of _ = []

module _ (sha256 : List ℕ → Text) (directory : Text → Found) where
  -- One line of the file; the digest of the blocks is that of the whole.
  unfoldable pub line_for : Text → Text → Result Text
  unfolding asset_name validate_binary
  line_for tag target = do
    name ← asset_name tag target
    validate_binary (directory name) target
    ok (sha256 (bytes_of (directory name)) ++ 32 ∷ 32 ∷ name ++ 10 ∷ [])

  unfoldable pub lines_for : Text → List Text → Result Text
  unfolding line_for
  lines_for tag [] = ok []
  lines_for tag (target ∷ rest) = do
    line ← line_for tag target
    lines ← lines_for tag rest
    ok (line ++ lines)

  unfoldable pub manifest : Text → Result Text
  unfolding lines_for linux_target mac_target
  manifest tag = lines_for tag targets

  -- The subcommand `manifest`: the bytes of SHA256SUMS.
  unfoldable pub write_manifest : Text → Text → Result Text
  unfolding validate_tag manifest
  write_manifest tag version = do validate_tag tag version; manifest tag
