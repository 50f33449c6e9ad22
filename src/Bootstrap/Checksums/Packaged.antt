-- ===== src/Bootstrap/Checksums/Packaged.antt =====
-- Lemmas about the files that scripts/release.py and scripts/bootstrap.py share, and the theorems.
use grepglint.Base.{
  ℕ, ◌≤◌, ◌≡◌, sym, ap, ◌∙◌, Bool, true, false, ◌&&◌, List, [], ◌∷◌, ◌++◌, append_assoc, append-nil,
  leb, if◌then◌else◌, leb→le, and-eq-true, length, take, drop, Text, same_text, one_of,
}
use grepglint.Release.{
  max_bytes, linux_target, mac_target, targets, asset_text, asset_name, Found, is_elf, is_mach_o,
  validate_binary, bytes_of, line_for, lines_for, manifest,
}
use grepglint.Base.Result.{ensure, >>=-eq-ok, ok-injective, ensure-eq-ok, ok}
use grepglint.Bootstrap.Checks.{linux, mac, target, check_header, is_tag, is_hex_of}
use grepglint.Bootstrap.Checksums.{binary_name, checksums}
use grepglint.Bootstrap.Files.{cap_bytes}
use grepglint.Bootstrap.Checksums.Printed.{line_text, two_lines, checksums_two}

-- An executable that the release script accepts for a target has the header that the installer
-- checks for that target, and at most the bytes that the installer reads.
pub validate_binary-check_header :
    (bytes : List ℕ) (target : Text)
    → validate_binary (Found.regular bytes) target ≡ ok tt
    → (check_header (take 32 bytes) target ≡ ok tt) × (length bytes ≤ cap_bytes)
unfolding validate_binary check_header is_elf is_mach_o linux linux_target same_text
validate_binary-check_header bytes target h =
    let (u, e1, h1) = >>=-eq-ok (ensure (one_of target targets) "unsupported release target") _ h in
    let (v, e2, h2) =
      >>=-eq-ok
        (ensure (leb 32 (length bytes) && leb (length bytes) max_bytes)
          "missing, nonregular, empty, or oversized executable")
        _ h1 in
    let (low, high) = and-eq-true _ _ (ensure-eq-ok _ _ e2) in
    let valid = ensure-eq-ok _ _ h2 in
    (go (same_text target linux) valid, leb→le (length bytes) max_bytes high)
  where
    go :
        (b : Bool)
        → (if b then is_elf (take 32 bytes) else is_mach_o (take 32 bytes)) ≡ true
        → (if b
            then ensure
                (same_text (take 6 (take 32 bytes)) (127 ∷ 69 ∷ 76 ∷ 70 ∷ 2 ∷ 1 ∷ [])
                  && same_text (take 2 (drop 18 (take 32 bytes))) (62 ∷ 0 ∷ []))
                "Wrong Linux executable target"
            else ensure
                (same_text (take 8 (take 32 bytes)) (207 ∷ 250 ∷ 237 ∷ 254 ∷ 12 ∷ 0 ∷ 0 ∷ 1 ∷ []))
                "Wrong macOS executable target")
          ≡ ok tt
    go true h = ap (λ c. ensure c "Wrong Linux executable target") h
    go false h = ap (λ c. ensure c "Wrong macOS executable target") h

module _ (sha256 : List ℕ → Text) (folder : Text → Found) (tag : Text) where
  -- The digest of the packaged executable for a target.
  abbrev pub packaged : Text → Text
  packaged target = sha256 (bytes_of (folder (asset_text tag target)))

  line_for-eq-ok :
      (target line : Text)
      → line_for sha256 folder tag target ≡ ok line
      → line ≡ line_text (packaged target) (asset_text tag target) ++ 10 ∷ []
  unfolding line_for asset_name
  line_for-eq-ok target line h =
      let (name, e1, h1) = >>=-eq-ok (asset_name tag target) _ h in
      let (u, e2, h2) = >>=-eq-ok (validate_binary (folder name) target) _ h1 in
      let (v, e3, h3) =
        >>=-eq-ok (ensure (one_of target targets) "unsupported release target")
          (λ w. ok (asset_text tag target)) e1 in
      sym (ok-injective h2)
      ∙ ap (λ n. line_text (sha256 (bytes_of (folder n))) n ++ 10 ∷ []) (sym (ok-injective h3))

  manifest_lines :
      (s : Text)
      → manifest sha256 folder tag ≡ ok s
      → s
        ≡ two_lines
            (line_text (packaged linux) (binary_name tag linux))
            (line_text (packaged mac) (binary_name tag mac))
  unfolding manifest lines_for linux_target mac_target linux mac asset_text binary_name
  manifest_lines s h =
      let (line, e1, h1) = >>=-eq-ok (line_for sha256 folder tag linux_target) _ h in
      let (rest, e2, h2) =
        >>=-eq-ok (lines_for sha256 folder tag (mac_target ∷ [])) (λ l. ok (line ++ l)) h1 in
      let (other, e3, h3) = >>=-eq-ok (line_for sha256 folder tag mac_target) _ e2 in
      joined line rest other _ _ (line_for-eq-ok linux_target line e1)
        (line_for-eq-ok mac_target other e3) (ok-injective h3) (ok-injective h2)
    where
      joined :
          (line rest other first second : Text)
          → line ≡ first ++ 10 ∷ []
          → other ≡ second ++ 10 ∷ []
          → other ++ [] ≡ rest
          → line ++ rest ≡ s
          → s ≡ two_lines first second
      joined line rest other first second e f g h =
          sym h
          ∙ ap (λ l. l ++ rest) e
          ∙ append_assoc first (10 ∷ []) rest
          ∙ ap (λ l. first ++ 10 ∷ l) (sym g ∙ append-nil other ∙ f)

-- The SHA256SUMS that the release script prints for a tag that the installer accepts is one that
-- the installer reads, if the digests have 64 hexadecimal digits: it finds, for each of the two
-- targets, the digest of the executable that was packaged under that name, and nothing else.
pub manifest-checksums :
    (sha256 : List ℕ → Text) (folder : Text → Found) (tag s : Text)
    → is_tag tag ≡ true
    → ((bytes : List ℕ) → is_hex_of 64 (sha256 bytes) ≡ true)
    → manifest sha256 folder tag ≡ ok s
    → checksums tag s
      ≡ ok (
          (binary_name tag linux, packaged sha256 folder tag linux)
          ∷ (binary_name tag mac, packaged sha256 folder tag mac)
          ∷ [])
manifest-checksums sha256 folder tag s t hex h =
    ap (checksums tag) (manifest_lines sha256 folder tag s h)
    ∙ checksums_two tag (packaged sha256 folder tag linux) (packaged sha256 folder tag mac)
        (hex (bytes_of (folder (asset_text tag linux))))
        (hex (bytes_of (folder (asset_text tag mac)))) t
