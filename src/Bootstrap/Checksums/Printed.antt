-- ===== src/Bootstrap/Checksums/Printed.antt =====
-- SHA256SUMS as scripts/release.py writes it and scripts/bootstrap.py reads it.
use grepglint.Base.{
  ◌≡◌, refl, ap, ◌∙◌, true, false, Option, none, some, [], ◌∷◌, ◌++◌, arith, ltb, eqb, and-eq-true,
  length, all, all-append, Text, points, same_text, same_text_refl, same_text-append,
}
use grepglint.Base.Result.{Result, invalid, err, ok}
use grepglint.Bootstrap.Checks.{linux, mac, target, is_tag, is_hex_of}
use grepglint.Bootstrap.Checksums.{
  binary_name, lines_from, decode_ascii, is_asset, match_line, Entries, entry, add_line, add_lines,
  checksums, is_some,
}
use grepglint.Bootstrap.Checksums.Lines.{
  lines_from-append, all-is_ascii, all-is_hex, match_line_lem,
}
use grepglint.Bootstrap.Checks.Tags.{is_clean, is_tag-is_clean}

binary_name-is_clean :
    (tag target : Text)
    → all is_clean tag ≡ true
    → all is_clean target ≡ true
    → all is_clean (binary_name tag target) ≡ true
unfolding binary_name
binary_name-is_clean tag target h k =
    all-append is_clean (points "grepglint-") (tag ++ 45 ∷ target) refl
      (all-append is_clean tag (45 ∷ target) h (rw k))

binary_name_differs : (tag : Text) → same_text (binary_name tag linux) (binary_name tag mac) ≡ false
unfolding binary_name linux mac same_text
binary_name_differs tag =
    same_text-append (points "grepglint-") (tag ++ 45 ∷ linux) (tag ++ 45 ∷ mac)
    ∙ same_text-append tag (45 ∷ linux) (45 ∷ mac)

abbrev pub line_text : Text → Text → Text
line_text digest name = digest ++ 32 ∷ 32 ∷ name

line_text-is_clean :
    (digest name : Text)
    → is_hex_of 64 digest ≡ true
    → all is_clean name ≡ true
    → all is_clean (line_text digest name) ≡ true
line_text-is_clean digest name h k =
    let (size, hex) = and-eq-true (eqb (length digest) 64) _ h in
    all-append is_clean digest (32 ∷ 32 ∷ name) (all-is_hex digest hex) (rw k)

-- The file of two lines.
abbrev pub two_lines : Text → Text → Text
two_lines first second = first ++ 10 ∷ (second ++ 10 ∷ [])

two_lines-split :
    (first second : Text)
    → all is_clean first ≡ true
    → all is_clean second ≡ true
    → lines_from false [] (two_lines first second) ≡ first ∷ second ∷ []
unfolding lines_from
two_lines-split first second h k =
    rw (lines_from-append [] first (second ++ 10 ∷ []) h, lines_from-append [] second [] k)

two_lines-is_ascii :
    (first second : Text)
    → all is_clean first ≡ true
    → all is_clean second ≡ true
    → all (λ b. ltb b 128) (two_lines first second) ≡ true
two_lines-is_ascii first second h k =
    let last = all-append (λ b. ltb b 128) second (10 ∷ []) (all-is_ascii second k) refl in
    all-append (λ b. ltb b 128) first (10 ∷ (second ++ 10 ∷ [])) (all-is_ascii first h) (rw last)

add_line_new :
    (tag : Text) (entries : Entries) (line name digest : Text)
    → match_line tag line ≡ some (name, digest)
    → entry name entries ≡ none
    → add_line tag entries line ≡ ok (entries ++ (name, digest) ∷ [])
unfolding add_line
add_line_new tag entries line name digest e f = ap (λ o. found o) e ∙ ap (λ o. known o) f
  where
    known : Option Text → Result Entries
    known (some old) = err (invalid "Malformed or duplicate checksum entry")
    known none = ok (entries ++ (name, digest) ∷ [])

    found : Option (Text × Text) → Result Entries
    found none = err (invalid "Malformed or duplicate checksum entry")
    found (some (n, d)) = elim (entry n entries) [
      | some old ↦ err (invalid "Malformed or duplicate checksum entry")
      | none ↦ ok (entries ++ (n, d) ∷ [])
    ]

module _ (tag first second : Text) where
  abbrev entries_of : Entries
  entries_of = (binary_name tag linux, first) ∷ (binary_name tag mac, second) ∷ []

  is_asset-linux : is_asset tag (binary_name tag linux) ≡ true
  unfolding is_asset
  is_asset-linux = rw (same_text_refl (binary_name tag linux))

  is_asset-mac : is_asset tag (binary_name tag mac) ≡ true
  unfolding is_asset
  is_asset-mac = let same = same_text_refl (binary_name tag mac) in ground arith

  entry_nil : entry (binary_name tag linux) [] ≡ none
  unfolding entry
  entry_nil = refl

  entry_other : entry (binary_name tag mac) ((binary_name tag linux, first) ∷ []) ≡ none
  unfolding entry
  entry_other = rw (binary_name_differs tag)

  module _ (h : is_hex_of 64 first ≡ true) (k : is_hex_of 64 second ≡ true) where
    add_lines_two :
        add_lines tag []
          (line_text first (binary_name tag linux) ∷ line_text second (binary_name tag mac) ∷ [])
        ≡ ok entries_of
    unfolding add_lines
    add_lines_two =
        let one = match_line_lem tag first (binary_name tag linux) h is_asset-linux in
        let two = match_line_lem tag second (binary_name tag mac) k is_asset-mac in
        rw (add_line_new tag [] _ _ _ one entry_nil, add_line_new tag _ _ _ _ two entry_other)

    pub checksums_two :
        is_tag tag ≡ true
        → checksums tag (
            two_lines
              (line_text first (binary_name tag linux))
              (line_text second (binary_name tag mac)))
          ≡ ok entries_of
    unfolding checksums decode_ascii is_some entry
    checksums_two t =
        let clean = is_tag-is_clean tag t in
        let one =
          line_text-is_clean first _ h
            (binary_name-is_clean tag linux clean (unfold linux in refl)) in
        let two =
          line_text-is_clean second _ k (binary_name-is_clean tag mac clean (unfold mac in refl)) in
        rw (
          two_lines-is_ascii _ _ one two,
          two_lines-split _ _ one two,
          add_lines_two,
          same_text_refl (binary_name tag linux),
          binary_name_differs tag,
          same_text_refl (binary_name tag mac),
        )
