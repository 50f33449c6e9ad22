-- ===== src/Bootstrap/Trust/Fetching.antt =====
-- Lemmas about `fetch` of scripts/bootstrap.py, by the rules for its log.
use grepglint.Base.{
  ℕ, ◌≡◌, refl, true, Option, none, some, List, ◌∷◌, arith, Text, points, same_text,
  eq_of_same_text,
}
use grepglint.Base.Json.{Value}
use grepglint.Base.Result.{Result, key_error, err, ok}
use grepglint.Bootstrap.Actions.{temporary_folder, decode_utf8}
use grepglint.Bootstrap.Fetch.{
  sums_name, attestation_args, Fetched, commit, fetch_asset, select, check_sums, attest,
  check_version, fetch,
}
use grepglint.Bootstrap.Logic.{
  Extends-trans, In, In-Extends, Any, AllGood, After, After-pure, After-bind, Quiet, Quiet-pure,
  Quiet-lift, Quiet-observe, Quiet-require_that, Quiet-bind, After-Quiet, After-require_last,
  After-require, After-lifted, quiet_rules,
}
use grepglint.Bootstrap.Checksums.{binary_name, entry, checksums}
use grepglint.Bootstrap.Download.{decimal, resolve_path, download}
use grepglint.Bootstrap.Files.{cap_bytes, meta_cap}
use grepglint.Bootstrap.Trust.{
  Summed, Trusted, Allowed, Calm-Allowed, Summed-Extends, Trusted-Extends, After-run, Quiet-run_gh,
  by_release, runs_gh, runs_worker, runs_trusted,
}
use grepglint.Bootstrap.Machine.{Event, Log, Machine, ran}
use grepglint.Bootstrap.Paths.{FilePath, path_text, child}
use grepglint.Bootstrap.Logic.Reading.{ReadFile, ReadFile-Extends, After-regular, Quiet-regular}

module _ (machine : Machine) (state : FilePath) (helper : Option Text) where
  abbrev Ok : Event → Log → Type 0
  Ok = Allowed machine state helper

  pub Quiet-decode_utf8 : (bytes : List ℕ) → Quiet Ok (decode_utf8 machine bytes)
  unfolding decode_utf8
  Quiet-decode_utf8 bytes = Quiet-lift Ok (machine.utf8 bytes)

  Quiet-commit : (tag : Text) → Quiet Ok (commit machine tag)
  unfolding commit
  Quiet-commit tag =
      search (quiet_rules, Quiet-run_gh machine state helper, Quiet-decode_utf8) depth 12

  Quiet-select : (tag : Text) → Quiet Ok (select machine tag)
  unfolding select
  Quiet-select tag =
      search (quiet_rules, Quiet-run_gh machine state helper, Quiet-decode_utf8, Quiet-commit) depth
        16

  Quiet-resolve_path : (p : FilePath) → Quiet Ok (resolve_path machine p)
  unfolding resolve_path
  Quiet-resolve_path p =
      Quiet-bind Ok _ _ (Quiet-observe Ok _ _ (λ q log. tt)) λ place. Quiet-lift Ok _

  -- The temporary directory that is made for what `fetch` downloads.
  pub Quiet-temporary_folder : Quiet Ok (temporary_folder machine)
  unfolding temporary_folder
  Quiet-temporary_folder =
      Quiet-bind Ok _ _ (Quiet-observe Ok _ _ (λ p log. tt)) λ place. Quiet-lift Ok _

  Quiet-download : (url : Text) (p : FilePath) (cap : ℕ) → Quiet Ok (download machine url p cap)
  unfolding download
  Quiet-download url p cap = Quiet-bind Ok _ _ (Quiet-require_that Ok _ _) λ u.
      Quiet-bind Ok _ _ (Quiet-resolve_path p) λ place.
        Quiet-bind Ok _ _
          (Quiet-observe Ok _ _
            (λ out log. runs_worker (url ∷ path_text place ∷ decimal cap ∷ List.[]) refl))
          λ out. Quiet-bind Ok _ _ (Quiet-lift Ok _) λ v. Quiet-pure Ok tt

  Quiet-fetch_asset :
      (tag : Text) (folder : FilePath) (metadata : Value) (wanted : Text) (limit : ℕ)
      → Quiet Ok (fetch_asset machine tag folder metadata wanted limit)
  unfolding fetch_asset
  Quiet-fetch_asset tag folder metadata wanted limit = search (quiet_rules, Quiet-download)

  After-check_sums :
      (tag : Text) (folder : FilePath) (name selected : Text) (log : Log)
      → AllGood Ok log
      → After Ok
          (λ digest later. Summed machine tag folder name digest later)
          log
          (check_sums machine tag folder name selected log)
  unfolding check_sums
  After-check_sums tag folder name selected log g =
      let calm = Calm-Allowed machine state helper in
      let Q = λ (digest : Text) (later : Log). Summed machine tag folder name digest later in
      After-bind Ok (λ sums l. ReadFile (child folder sums_name) 4096 sums l) Q _ _ log
        (After-regular machine Ok calm (child folder sums_name) 4096 log g)
        λ sums l1 x1 g1 first. After-lifted Ok Q (checksums tag sums) _ l1 g1 λ entries listed_in.
          After-bind Ok (λ bytes l. ReadFile (child folder name) cap_bytes bytes l) Q _ _ l1
            (After-regular machine Ok calm (child folder name) cap_bytes l1 g1)
            λ bytes l2 x2 g2 second. After-lifted Ok Q _ _ l2 g2 λ expected found.
              After-require Ok Q _ _ _ l2 g2 λ same. After-lifted Ok Q _ _ l2 g2 λ u headed.
                After-pure Ok Q (machine.sha256 bytes) l2 g2 record {
                  sums = sums;
                  sums_read = ReadFile-Extends x2 first;
                  entries = entries;
                  listed_in = listed_in;
                  bytes = bytes;
                  read = second;
                  same_digest = refl;
                  listed_as =
                      listed (entry name entries) expected (machine.sha256 bytes) found same;
                }
    where
      listed :
          (o : Option Text) (expected digest : Text)
          → ◌≡◌ {A = Result Text} (elim o [ none ↦ err key_error | some d ↦ ok d ]) (ok expected)
          → same_text digest expected ≡ true
          → o ≡ some digest
      listed none expected digest e same = cc
      listed (some d) expected digest e same =
          let equal_texts = eq_of_same_text digest expected same in ground arith

  -- The attestation that gh has verified.
  record Attested (binary : FilePath) (tag source : Text) (log : Log) : Type 0 where
    out : List ℕ
    seen : In (ran (attestation_args binary tag source) (ok out)) log

  After-attest :
      (tag : Text) (binary : FilePath) (source digest : Text) (log : Log)
      → AllGood Ok log
      → After Ok
          (λ u later. Attested binary tag source later)
          log
          (attest machine tag binary source digest log)
  unfolding attest
  After-attest tag binary source digest log g =
      let calm = Calm-Allowed machine state helper in
      let Q = λ (u : Unit {0}) (later : Log). Attested binary tag source later in
      let args = attestation_args binary tag source in
      After-bind Ok (λ out l. In (ran args (ok out)) l) Q _ _ log
        (After-run machine state helper args meta_cap log g (runs_gh _ refl))
        λ out l1 x1 g1 seen. After-Quiet Ok Q _ _ l1 (Quiet-commit tag) g1 λ again l2 x2 g2.
          After-bind Ok Any Q _ _ l2 ((Quiet-require_that Ok _ _).at l2 g2) λ u l3 x3 g3 v.
            After-Quiet Ok Q _ _ l3 (Quiet-regular machine Ok calm binary cap_bytes) g3
              λ bytes l4 x4 g4. After-require_last Ok Q _ _ l4 g4 λ same. record {
                out = out;
                seen = In-Extends (ran args (ok out)) (Extends-trans x2 (Extends-trans x3 x4)) seen;
              }

  After-check_version :
      (tag : Text) (binary : FilePath) (log : Log)
      → AllGood Ok log
      → Trusted machine state helper binary log
      → After Ok Any log (check_version machine tag binary log)
  unfolding check_version
  After-check_version tag binary log g t =
      After-Quiet Ok Any _ _ log (Quiet-observe Ok _ _ (λ done l. tt)) g λ changed l1 x1 g1.
        After-Quiet Ok Any _ _ l1 (Quiet-lift Ok _) g1 λ u l2 x2 g2.
          After-bind Ok (λ out l. In (ran _ (ok out)) l) Any _ _ l2
            (After-run machine state helper (path_text binary ∷ points "--version" ∷ List.[]) 4096
              l2 g2
              (runs_trusted record {
                program = binary;
                rest = points "--version" ∷ List.[];
                command = refl;
                trusted = Trusted-Extends machine state helper (Extends-trans x1 x2) t;
              }))
            λ out l3 x3 g3 seen.
              After-Quiet Ok Any _ _ l3 (Quiet-decode_utf8 out) g3
                λ content l4 x4 g4. (Quiet-require_that Ok _ _).at l4 g4

  -- The executable that `fetch` returns has the digest that SHA256SUMS lists and an attestation.
  pub After-fetch :
      (tag : Text) (folder : FilePath) (log : Log)
      → AllGood Ok log
      → After Ok
          (λ found later. Trusted machine state helper found.binary later)
          log
          (fetch machine tag folder log)
  unfolding fetch
  After-fetch tag folder log g =
      let Q = λ (found : Fetched) (later : Log). Trusted machine state helper found.binary later in
      After-require Ok Q _ _ _ log g λ stable. After-lifted Ok Q _ _ log g λ selected e.
        After-Quiet Ok Q _ _ log (Quiet-select tag) g λ found l1 x1 g1.
          After-Quiet Ok Q _ _ l1 (Quiet-fetch_asset tag folder _ _ _) g1 λ u l2 x2 g2.
            After-Quiet Ok Q _ _ l2 (Quiet-fetch_asset tag folder _ _ _) g2 λ v l3 x3 g3.
              After-bind Ok
                (λ digest l. Summed machine tag folder (binary_name tag selected) digest l) Q _ _ l3
                (After-check_sums tag folder (binary_name tag selected) selected l3 g3)
                λ digest l4 x4 g4 summed.
                  After-bind Ok
                    (λ w l. Attested (child folder (binary_name tag selected)) tag found.0 l) Q _ _
                    l4
                    (After-attest tag (child folder (binary_name tag selected)) found.0 digest l4
                      g4)
                    λ w l5 x5 g5 attested.
                      let trusted = by_release record {
                        tag = tag;
                        stable = stable;
                        folder = folder;
                        name = binary_name tag selected;
                        place = refl;
                        digest = digest;
                        summed = Summed-Extends machine state helper x5 summed;
                        source = found.0;
                        out = attested.out;
                        attested = attested.seen;
                      } in
                      After-bind Ok Any Q _ _ l5
                        (After-check_version tag (child folder (binary_name tag selected)) l5 g5
                          trusted)
                        λ z l6 x6 g6 n.
                          After-pure Ok Q _ l6 g6 (Trusted-Extends machine state helper x6 trusted)
