-- ===== src/Bootstrap/Fetch.antt =====
-- `commit` and `fetch` of scripts/bootstrap.py, and the run that asks an executable for
-- `--repair-source`.
use grepglint.Base.{
  ℕ, Bool, ◌||◌, none, some, List, [], ◌∷◌, ◌++◌, if◌then◌else◌, take, drop, Text, points,
  same_text, starts_with, strip,
}
use grepglint.Release.{version}
use grepglint.Bootstrap.Actions.{regular, run, decode_utf8}
use grepglint.Base.Json.{Value}
use grepglint.Bootstrap.Machine.{
  ◌>>=◌, ◌>>◌, Machine, Exec, pure, lift, require_that, observe, changed_mode,
}
use grepglint.Base.Result.{key_error, os_error, err, ok}
use grepglint.Bootstrap.Checks.{
  repo, target, check_header, is_tag, is_hex_of, is_current_gh, is_release_of, checked_url,
}
use grepglint.Bootstrap.Checksums.{binary_name, entry, checksums}
use grepglint.Bootstrap.Download.{download}
use grepglint.Bootstrap.Files.{cap_bytes, meta_cap}
use grepglint.Bootstrap.Paths.{FilePath, path_text, child}

abbrev pub sums_name : Text
sums_name = points "SHA256SUMS"

-- `needle in text`
unfoldable pub contains_text : Text → Text → Bool
unfolding starts_with
contains_text needle [] = starts_with needle []
contains_text needle (c ∷ s) = starts_with needle (c ∷ s) || contains_text needle s

abbrev pub version_args : List Text
version_args = points "gh" ∷ points "--version" ∷ []

abbrev pub commit_args : Text → List Text
commit_args tag =
    points "gh"
    ∷ points "api"
    ∷ (points "repos/" ++ repo ++ points "/commits/" ++ tag)
    ∷ points "--jq"
    ∷ points ".sha"
    ∷ []

abbrev pub release_args : Text → List Text
release_args tag =
    points "gh" ∷ points "api" ∷ (points "repos/" ++ repo ++ points "/releases/tags/" ++ tag) ∷ []

-- The run that verifies the attestation of a file for a tag and a commit.
abbrev pub attestation_args : FilePath → Text → Text → List Text
attestation_args binary tag source =
    points "gh"
    ∷ points "attestation"
    ∷ points "verify"
    ∷ path_text binary
    ∷ points "--repo"
    ∷ repo
    ∷ points "--signer-workflow"
    ∷ (repo ++ points "/.github/workflows/release.yml")
    ∷ points "--source-ref"
    ∷ (points "refs/tags/" ++ tag)
    ∷ points "--source-digest"
    ∷ source
    ∷ points "--signer-digest"
    ∷ source
    ∷ points "--deny-self-hosted-runners"
    ∷ []

abbrev pub help_args : FilePath → List Text
help_args binary = path_text binary ∷ points "setup" ∷ points "--help" ∷ []

-- What `fetch` returns.
pub record Fetched : Type 0 where
  pub binary : FilePath
  pub commit : Text
  pub digest : Text

module _ (machine : Machine) where
  unfoldable pub commit : Text → Exec Text
  commit tag = do
    out ← run machine (commit_args tag) meta_cap
    content ← decode_utf8 machine out
    require_that (is_hex_of 40 (strip content)) "Invalid selected release commit"
    pure (strip content)

  -- The loop body for one asset.
  unfoldable pub fetch_asset : Text → FilePath → Value → Text → ℕ → Exec (Unit {0})
  fetch_asset tag folder metadata wanted limit = do
    url ← lift (checked_url tag wanted limit metadata)
    download machine url (child folder wanted) limit

  -- The metadata of the release, with the version of gh and the commit of the tag.
  unfoldable pub select : Text → Exec (Text × Value)
  select tag = do
    out ← run machine version_args meta_cap
    version ← decode_utf8 machine out
    require_that (is_current_gh version) "GitHub CLI 2.80.0 or newer is required"
    expected ← commit tag
    raw ← run machine (release_args tag) meta_cap
    metadata ← lift (machine.json raw)
    good ← lift (is_release_of tag metadata)
    require_that good "Unexpected release metadata"
    pure (expected, metadata)

  -- The bytes of the executable against SHA256SUMS and its header: their digest.
  unfoldable pub check_sums : Text → FilePath → Text → Text → Exec Text
  check_sums tag folder name selected = do
    sums ← regular machine (child folder sums_name) 4096
    entries ← lift (checksums tag sums)
    bytes ← regular machine (child folder name) cap_bytes
    expected ← lift (elim (entry name entries) [ none ↦ err key_error | some d ↦ ok d ])
    require_that (same_text (machine.sha256 bytes) expected) "Release checksum mismatch"
    lift (check_header (take 32 bytes) selected)
    pure (machine.sha256 bytes)

  -- The attestation, and that neither the tag nor the bytes changed meanwhile.
  unfoldable pub attest : Text → FilePath → Text → Text → Exec (Unit {0})
  attest tag binary expected digest = do
    out ← run machine (attestation_args binary tag expected) meta_cap
    again ← commit tag
    require_that (same_text again expected) "Release tag changed during verification"
    bytes ← regular machine binary cap_bytes
    require_that (same_text (machine.sha256 bytes) digest) "Verified bytes changed"

  unfoldable pub check_version : Text → FilePath → Exec (Unit {0})
  check_version tag binary = do
    changed ← observe (λ log. machine.can_change log binary) (λ done. changed_mode binary)
    lift (if changed then ok tt else err os_error)
    out ← run machine (path_text binary ∷ points "--version" ∷ []) 4096
    content ← decode_utf8 machine out
    require_that (same_text (strip content) (points "grepglint " ++ drop 1 tag))
        "Release version mismatch"

  unfoldable pub fetch : Text → FilePath → Exec Fetched
  fetch tag folder = do
    require_that (is_tag tag) "Select an exact stable release, e.g. --release v0.1.0"
    selected ← lift (target machine.platform)
    found ← select tag
    let name = binary_name tag selected
    fetch_asset tag folder found.1 name cap_bytes
    fetch_asset tag folder found.1 sums_name 4096
    digest ← check_sums tag folder name selected
    attest tag (child folder name) found.0 digest
    check_version tag (child folder name)
    pure (record { binary = child folder name; commit = found.0; digest = digest })

  unfoldable pub supports : Text → FilePath → Exec Bool
  supports option binary = do
    out ← run machine (help_args binary) 16384
    pure (contains_text option out)
