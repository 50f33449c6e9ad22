-- ===== src/Bootstrap/Checks.antt =====
-- The checks that `fetch` of scripts/bootstrap.py makes on what it has received: the tag, the
-- version of gh, the assets, SHA256SUMS and the header of the executable.
pub mod Tags
use grepglint.Base.{
  ℕ, ◌+◌, ◌-◌, ◌*◌, ◌^◌, Bool, true, false, not, ◌&&◌, ◌||◌, Option, none, some, List, [], ◌∷◌,
  ◌++◌, ◌==◌, ltb, leb, eqb, if◌then◌else◌, length, all, take, drop, Text, points, same_text,
  starts_with, split_on, is_digit, is_hex,
}
use grepglint.Base.Json.{
  Value, Items, Fields, get, pos, negsuc, finite, null, bool, int, float, str, list, dict, nil,
  cons, no_fields, field,
}
use grepglint.Base.Result.{Result, ◌>>=◌, ensure, ◌>>◌, invalid, key_error, type_error, err, ok}

abbrev pub repo : Text
repo = points "alundgren/grepglint"

unfoldable pub linux : Text
linux = points "x86_64-unknown-linux-gnu"

unfoldable pub mac : Text
mac = points "aarch64-apple-darwin"

-- `target()` on `(platform.system(), platform.machine())`
unfoldable pub target : Text × Text → Result Text
unfolding same_text linux mac
target (system, hardware) =
    if same_text system (points "Linux") && same_text hardware (points "x86_64")
    then ok linux
    else if same_text system (points "Darwin") && same_text hardware (points "arm64")
    then ok mac
    else err (invalid "Unsupported platform; use a supported release platform or build from source")

unfoldable pub check_header : List ℕ → Text → Result (Unit {0})
unfolding same_text linux
check_header header selected =
    if same_text selected linux
    then ensure
        (same_text (take 6 header) (127 ∷ 69 ∷ 76 ∷ 70 ∷ 2 ∷ 1 ∷ [])
          && same_text (take 2 (drop 18 header)) (62 ∷ 0 ∷ []))
        "Wrong Linux executable target"
    else ensure (same_text (take 8 header) (207 ∷ 250 ∷ 237 ∷ 254 ∷ 12 ∷ 0 ∷ 0 ∷ 1 ∷ []))
        "Wrong macOS executable target"

-- `0|[1-9][0-9]*`
abbrev pub is_plain_number : Text → Bool
is_plain_number [] = false
is_plain_number (c ∷ []) = is_digit c
is_plain_number (c ∷ d ∷ s) = leb 49 c && leb c 57 && all is_digit (d ∷ s)

abbrev pub are_three : List Text → Bool
are_three (a ∷ b ∷ c ∷ []) = is_plain_number a && is_plain_number b && is_plain_number c
are_three _ = false

-- `re.fullmatch(TAG, tag)`: no digit is a dot, so the two dots of the pattern are all.
unfoldable pub is_tag : Text → Bool
unfolding split_on
is_tag [] = false
is_tag (c ∷ s) = eqb c 118 && are_three (split_on 46 s)

-- `re.fullmatch("[0-9a-f]{n}", s)`
abbrev pub is_hex_of : ℕ → Text → Bool
is_hex_of n s = eqb (length s) n && all is_hex s

-- `(\d+)` at the start of a text, with its value and what follows.
digits : Bool → ℕ → Text → Option (ℕ × Text)
digits begun n [] = if begun then some (n, []) else none
digits begun n (c ∷ s) =
    let rest = digits true (n * 10 + (c - 48)) s in
    if is_digit c then rest else if begun then some (n, c ∷ s) else none

after_dot : Option (ℕ × Text) → Option (ℕ × Text)
after_dot none = none
after_dot (some (n, [])) = none
after_dot (some (n, c ∷ s)) = if eqb c 46 then some (n, s) else none

-- The pattern `(\d+)\.(\d+)\.(\d+)` at the start of a text; `\d` takes ASCII digits here.
three_numbers : Text → Option (ℕ × ℕ × ℕ)
unfolding digits after_dot
three_numbers s = elim (after_dot (digits false 0 s)) [
  | none ↦ none
  | some (a, t) ↦ elim (after_dot (digits false 0 t)) [
    | none ↦ none
    | some (b, u) ↦ elim (digits false 0 u) [ none ↦ none | some (c, v) ↦ some (a, b, c) ]
  ]
]

-- `re.search(r"gh version (\d+)\.(\d+)\.(\d+)", s)`
find_version : Text → Option (ℕ × ℕ × ℕ)
unfolding starts_with three_numbers
find_version [] = none
find_version (c ∷ s) =
    let later = find_version s in
    if starts_with (points "gh version ") (c ∷ s)
    then (elim (three_numbers (drop 11 (c ∷ s))) [ none ↦ later | some v ↦ some v ])
    else later

-- `tuple(…) >= (2, 80, 0)`
unfoldable pub is_current_gh : Text → Bool
unfolding find_version
is_current_gh s = elim (find_version s) [
  | none ↦ false
  | some (a, b, c) ↦ ltb 2 a || (eqb a 2 && leb 80 b)
]

-- `bool(value)`, of `none` for a missing field.
unfoldable pub truthy : Option Value → Bool
truthy none = false
truthy (some null) = false
truthy (some (bool b)) = b
truthy (some (int (pos n))) = ltb 0 n
truthy (some (int (negsuc n))) = true
truthy (some (float (finite (pos m) e))) = ltb 0 m
truthy (some (float f)) = true
truthy (some (str s)) = not (s == "")
truthy (some (list nil)) = false
truthy (some (list (cons v vs))) = true
truthy (some (dict no_fields)) = false
truthy (some (dict (field k v m))) = true

-- `value == text`
unfoldable pub is_text : Text → Option Value → Bool
unfolding same_text
is_text t (some (str s)) = same_text (points s) t
is_text t _ = false

-- `metadata.get("tag_name") == tag and not metadata.get("draft") and not …`
unfoldable pub is_release_of : Text → Value → Result Bool
unfolding is_text truthy
is_release_of tag (dict m) = ok (
    is_text tag (get "tag_name" m)
    && not (truthy (get "draft" m))
    && not (truthy (get "prerelease" m)))
is_release_of tag _ = err type_error

-- `[asset for asset in assets if asset.get("name") == wanted]`
pub named : Text → Items → Result (List Fields)
unfolding is_text
named wanted nil = ok []
named wanted (cons (dict a) assets) = do
  rest ← named wanted assets
  ok (if is_text wanted (get "name" a) then a ∷ rest else rest)
named wanted (cons _ assets) = err type_error

-- `0 < size <= limit`
size_within : ℕ → Option Value → Result Bool
size_within limit none = ok false
size_within limit (some (bool b)) = ok (b && leb 1 limit)
size_within limit (some (int (pos n))) = ok (ltb 0 n && leb n limit)
size_within limit (some (int (negsuc n))) = ok false
size_within limit (some (float (finite (pos m) (pos e)))) = ok (ltb 0 m && leb (m * 2 ^ e) limit)
size_within limit (some (float (finite (pos m) (negsuc e)))) =
    ok (ltb 0 m && leb m (limit * 2 ^ (e + 1)))
size_within limit (some (float f)) = ok false
size_within limit (some _) = err type_error

assets_of : Value → Result Items
assets_of (dict m) = elim (get "assets" m) [
  | none ↦ ok nil
  | some v ↦ elim v [ list assets ↦ ok assets | _ ↦ err type_error ]
]
assets_of _ = err type_error

unfoldable pub asset_url : Text → Text → Text
asset_url tag wanted =
    points "https://github.com/" ++ repo ++ points "/releases/download/" ++ tag ++ 47 ∷ wanted

one_asset : ℕ → List Fields → Result Fields
unfolding size_within
one_asset limit (a ∷ []) = do
  fits ← size_within limit (get "size" a)
  ensure fits "Missing, duplicate or oversized release asset"
  ok a
one_asset limit _ = err (invalid "Missing, duplicate or oversized release asset")

-- The checks of the loop body on an asset, which give its URL.
unfoldable pub checked_url : Text → Text → ℕ → Value → Result Text
unfolding one_asset assets_of named asset_url is_text
checked_url tag wanted limit metadata = do
  assets ← assets_of metadata
  matches ← named wanted assets
  asset ← one_asset limit matches
  url ← elim (get "browser_download_url" asset) [ none ↦ err key_error | some v ↦ ok v ]
  ensure (is_text (asset_url tag wanted) (some url)) "Unexpected asset URL"
  ok (asset_url tag wanted)
