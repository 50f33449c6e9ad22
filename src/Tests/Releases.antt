-- ===== src/Tests/Releases.antt =====
-- Runs of scripts/release.py and of the reading parts of scripts/bootstrap.py, and instances of the
-- theorems.
use grepglint.Base.{
  ℕ, zero, suc, ◌≤◌, ◌≡◌, refl, ap, ◌↔◌, false, some, List, [], ◌∷◌, ◌++◌, arith, if◌then◌else◌,
  length, take, Text, points, same_text,
}
use grepglint.Release.{
  linux_target, mac_target, validate_tag, asset_text, asset_name, Found, is_elf, is_mach_o,
  validate_binary, line_for, lines_for, manifest,
}
use grepglint.Base.Result.{Result, os_error, err, ok}
use grepglint.Bootstrap.Process.{Stream, Exit, Behaviour, read_all, read_loop, collect}
use grepglint.Bootstrap.Checks.{linux, mac, check_header, is_tag}
use grepglint.Bootstrap.Checksums.{binary_name, checksums}
use grepglint.Bootstrap.Download.{Transfer, download_worker, arrives, read_fails}
use grepglint.Bootstrap.Files.{cap_bytes}
use grepglint.Bootstrap.Checksums.Packaged.{validate_binary-check_header, manifest-checksums}
use grepglint.Bootstrap.Download.Received.{blocks_of, sent, IsPrefix, download_worker-until_end}
use grepglint.Bootstrap.Checks.Tags.{is_tag-validate_tag}
use grepglint.Bootstrap.Process.Collected.{until_end, written_by, collect-written_by}
use grepglint.Bootstrap.Process.Completed.{collect_completes}

abbrev sample_tag : Text
sample_tag = points "v0.1.0"

abbrev some_digest : Text
some_digest = points "0123456789abcdef0123456789abcdef0123456789abcdef0123456789abcdef"

abbrev zeros : ℕ → List ℕ
zeros zero = []
zeros (suc n) = 0 ∷ zeros n

abbrev elf_bytes : List ℕ
elf_bytes = (127 ∷ 69 ∷ 76 ∷ 70 ∷ 2 ∷ 1 ∷ zeros 12) ++ (62 ∷ zeros 13)

abbrev mach_o_bytes : List ℕ
mach_o_bytes = 207 ∷ 250 ∷ 237 ∷ 254 ∷ 12 ∷ 0 ∷ 0 ∷ 1 ∷ zeros 24

abbrev sample_folder : Text → Found
sample_folder name =
    if same_text name (points "grepglint-v0.1.0-aarch64-apple-darwin")
    then Found.regular mach_o_bytes
    else Found.regular elf_bytes

abbrev sample_sums : Text
sample_sums =
    some_digest
    ++ points "  grepglint-v0.1.0-x86_64-unknown-linux-gnu"
    ++ (10 ∷ [])
    ++ some_digest
    ++ points "  grepglint-v0.1.0-aarch64-apple-darwin"
    ++ (10 ∷ [])

printed : manifest (λ bytes. some_digest) sample_folder sample_tag ≡ ok sample_sums
unfolding manifest lines_for line_for asset_name asset_text validate_binary is_elf is_mach_o
    linux_target mac_target same_text
printed = refl

manifest-checksums_example :
    checksums sample_tag sample_sums
    ≡ ok (
        (binary_name sample_tag linux, some_digest)
        ∷ (binary_name sample_tag mac, some_digest)
        ∷ [])
unfolding is_tag
manifest-checksums_example =
    manifest-checksums (λ bytes. some_digest) sample_folder sample_tag sample_sums refl (λ b. refl)
      printed

valid_elf : validate_binary (Found.regular elf_bytes) linux_target ≡ ok tt
unfolding validate_binary is_elf linux_target same_text
valid_elf = refl

validate_binary-check_header_example :
    (check_header (take 32 elf_bytes) linux_target ≡ ok tt) × (length elf_bytes ≤ cap_bytes)
validate_binary-check_header_example = validate_binary-check_header elf_bytes linux_target valid_elf

is_tag-validate_tag_example :
    (validate_tag sample_tag (points "0.1.0") ≡ ok tt) ↔ (sample_tag ≡ 118 ∷ points "0.1.0")
unfolding is_tag
is_tag-validate_tag_example = is_tag-validate_tag sample_tag (points "0.1.0") refl

abbrev one_two_three : List ℕ
one_two_three = 1 ∷ 2 ∷ 3 ∷ []

-- Two blocks of output with one of errors between them, and the ends of both streams.
abbrev sample_behaviour : Behaviour
sample_behaviour = record {
  passes =
      record { late = false; reads = (Stream.output, 1 ∷ 2 ∷ []) ∷ (Stream.errors, 9 ∷ []) ∷ [] }
      ∷ record { late = false; reads = [] }
      ∷ record {
        late = false;
        reads = (Stream.output, 3 ∷ []) ∷ (Stream.errors, []) ∷ (Stream.output, []) ∷ [];
      }
      ∷ [];
  exit = Exit.exit_zero;
}

collected : collect 4 sample_behaviour ≡ ok one_two_three
unfolding collect read_loop read_all
collected = refl

collect-written_by_example :
    (one_two_three ≡ written_by sample_behaviour)
    × (length one_two_three ≤ 4)
    × (sample_behaviour.exit ≡ Exit.exit_zero)
collect-written_by_example = collect-written_by 4 sample_behaviour one_two_three collected

abbrev two_blocks : List (List ℕ)
two_blocks = (1 ∷ 2 ∷ []) ∷ (3 ∷ []) ∷ [] ∷ []

-- The connection breaks after the first block, and one byte of it is in the file.
abbrev broken : Transfer
broken = record {
  reads = arrives (1 ∷ 2 ∷ []) ∷ read_fails os_error ∷ [];
  synced = ok tt;
  kept = 1;
}

left_in_file : download_worker 3 false (ok broken) ≡ (err os_error, some (1 ∷ []))
unfolding download_worker
left_in_file = refl

download_worker-until_end_example :
    (length {A = ℕ} (1 ∷ []) ≤ 3)
    × (false ≡ false)
    × ((t : Transfer) × (◌≡◌ {A = Result Transfer} (ok broken) (ok t))
        × IsPrefix (1 ∷ []) (sent t.reads)
        × ((download_worker 3 false (ok broken)).0 ≡ ok tt
            → 1 ∷ [] ≡ until_end (blocks_of t.reads)))
download_worker-until_end_example =
    download_worker-until_end 3 false (ok broken) (1 ∷ []) (ap (λ out. out.1) left_in_file)

collect_completes_example : collect 4 sample_behaviour ≡ ok (written_by sample_behaviour)
collect_completes_example = collect_completes 4 sample_behaviour (omega arith) refl refl refl
