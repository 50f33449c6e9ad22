-- ===== src/Paired/Store/Cleanup.antt =====
-- Lemmas about `owned` and `cleanup` of benchmarks/_paired_store.py, and the theorem on both.
use grepglint.Base.{
  ℕ, ◌+◌, String, ◌≡◌, refl, subst, inl, inr, Bool, true, false, not, ◌&&◌, ◌||◌, List, [], ◌∷◌,
  ◌++◌, arith, ◌==◌, eq_iff, leb, and-eq-true, text_cases, length,
}
use grepglint.Paired.Store.{
  within, Identity, same_identity, Node, Directory, Owner, metadata_limit, max_files,
  changed_ownership, read, is_file_name, allowed, check_temporary, check_file, check_files, owned,
  unlink, unlink_all, cleanup,
}
use grepglint.Base.Json.{names}
use grepglint.Base.Dict.{Dict, contains, distinct, keys}
use grepglint.Base.Result.{Result, require, >>=-eq-ok, require-eq-ok, ok-injective, ok}

record IsWithout (gone : String → Bool) (before after : Dict Node) : Type 0 where
  apart : distinct (keys after) ≡ true
  left : (k : String) → contains k (keys after) ≡ contains k (keys before) && not (gone k)

module _ (decode : List ℕ → Result Owner) (hash : List ℕ → String) where
  unlink-IsWithout :
      (name : String) (entries : Dict Node)
      → distinct (keys entries) ≡ true
      → contains name (keys entries) ≡ true
      → (rest : Dict Node) × (unlink decode hash name entries ≡ ok rest)
        × IsWithout (λ k. name == k) entries rest
  unfolding unlink
  unlink-IsWithout name [] d h = cc
  unlink-IsWithout name ((n, node) ∷ entries) d h = elim (text_cases n name) [
    | inl (e, same) ↦ (
      entries,
      rw (unlink, e) refl,
      record { apart = ground arith; left = λ k. without k same (ground arith) },
    )
    | inr (e, differs) ↦
        (let (rest, done, w) = unlink-IsWithout name entries (ground arith) (ground arith) in
          (
            (n, node) ∷ rest,
            rw (unlink, e, done) refl,
            record {
              apart = ground (arith, w.left n, w.apart, eq_iff name n);
              left = λ k. ground (arith, w.left k, eq_iff name k, eq_iff n k, eq_iff n name);
            },
          ))
  ]
    where
      without :
          (k : String)
          → n ≡ name
          → contains n (keys entries) ≡ false
          → contains k (keys entries) ≡ ((n == k) || contains k (keys entries)) && not (name == k)
      without k e h = elim (text_cases name k) [
        | inl (t, same) ↦ ground arith
        | inr (t, differs) ↦ rw e (rw t (ground arith))
      ]

  unlink_all-IsWithout :
      (names : List String) (entries : Dict Node)
      → distinct (keys entries) ≡ true
      → distinct names ≡ true
      → ((k : String) → contains k names ≡ true → contains k (keys entries) ≡ true)
      → (rest : Dict Node) × (unlink_all decode hash names entries ≡ ok rest)
        × IsWithout (λ k. contains k names) entries rest
  unfolding unlink_all
  unlink_all-IsWithout [] entries d u h =
      (entries, refl, record { apart = d; left = λ k. ground arith })
  unlink_all-IsWithout (name ∷ names) entries d u h =
      let (one, gone, w) =
        unlink-IsWithout name entries d (h name (ground (arith, eq_iff name name))) in
      let (rest, done, v) =
        unlink_all-IsWithout names one w.apart (ground arith)
          (λ k c. ground (arith, w.left k, h k, eq_iff name k)) in
      (
        rest,
        rw gone done,
        record { apart = v.apart; left = λ k. ground (arith, v.left k, w.left k, eq_iff name k) },
      )

  keys-empty :
      (entries : Dict Node) → ((k : String) → contains k (keys entries) ≡ false) → entries ≡ []
  keys-empty [] h = refl
  keys-empty ((n, node) ∷ entries) h = let none_left = h n in absurd (ground (arith, eq_iff n n))

  check_file_name :
      (entries : Dict Node) (sealed : Bool) (owner : Owner) (name : String) (expected : Identity)
      {u : Unit {0}}
      → check_file decode hash entries sealed owner name expected ≡ ok u
      → (name == "ownership.json") ≡ false
  unfolding check_file
  check_file_name entries sealed owner name expected h =
      let named = is_file_name name && not (name == "ownership.json") in
      let (_, first, _) = >>=-eq-ok (require named "invalid_artifact_filename") _ h in
      let plain = require-eq-ok named "invalid_artifact_filename" first in ground arith

  check_files_names :
      (entries : Dict Node) (sealed : Bool) (owner : Owner) (files : Dict Identity) {u : Unit {0}}
      → check_files decode hash entries sealed owner files ≡ ok u
      → contains "ownership.json" (keys files) ≡ false
  unfolding check_files
  check_files_names entries sealed owner [] h = refl
  check_files_names entries sealed owner ((name, expected) ∷ files) h =
      let (_, first, later) =
        >>=-eq-ok (check_file decode hash entries sealed owner name expected) _ h in
      let rest = check_files_names entries sealed owner files later in
      let differs = check_file_name entries sealed owner name expected first in ground arith

  within-contains :
      (xs ys : List String) (k : String)
      → within xs ys ≡ true
      → contains k xs ≡ true
      → contains k ys ≡ true
  within-contains [] ys k h c = cc
  within-contains (x ∷ xs) ys k h c = ground (arith, within-contains xs ys k, eq_iff x k)

  contains-append :
      (k : String) (xs ys : List String) → contains k (xs ++ ys) ≡ contains k xs || contains k ys
  contains-append k [] ys = refl
  contains-append k (x ∷ xs) ys = ground (arith, contains-append k xs ys)

  -- What `owned` has seen of a sealed run.
  record IsSealed (d : Directory) (owner : Owner) : Type 0 where
    entries_within : within (keys d.entries) (keys owner.files ++ "ownership.json" ∷ []) ≡ true
    files_within : within (keys owner.files ++ "ownership.json" ∷ []) (keys d.entries) ≡ true
    named : contains "ownership.json" (keys owner.files) ≡ false

  owned-IsSealed :
      (d : Directory) (owner : Owner) → owned decode hash d true ≡ ok owner → IsSealed d owner
  unfolding owned
  owned-IsSealed d owner h =
      let (_, _, h1) = >>=-eq-ok (require d.safe changed_ownership) _ h in
      let (content, _, h2) = >>=-eq-ok (read d.entries "ownership.json" metadata_limit) _ h1 in
      let (o, _, h3) = >>=-eq-ok (decode content) _ h2 in
      let (_, _, h4) =
        >>=-eq-ok
          (require (same_identity o.directory d.identity && leb (length o.files) max_files)
            changed_ownership)
          _ h3 in
      let (_, _, h5) =
        >>=-eq-ok
          (require (leb (length (keys d.entries)) (max_files + 3)) "artifact_contents_changed") _
          h4 in
      let names_fit =
        within (keys d.entries) (allowed o)
        && within (keys o.files ++ "ownership.json" ∷ []) (keys d.entries) in
      let (_, fit, h6) = >>=-eq-ok (require names_fit "artifact_contents_changed") _ h5 in
      let (_, _, h7) = >>=-eq-ok (check_temporary d.entries ".ownership.next") _ h6 in
      let (_, _, h8) = >>=-eq-ok (check_temporary d.entries ".data.next") _ h7 in
      let (_, files, h9) = >>=-eq-ok (check_files decode hash d.entries true o o.files) _ h8 in
      let (_, sealed, h10) = >>=-eq-ok (require o.sealed "active_or_unsealed_run_preserved") _ h9 in
      let same : o ≡ owner = ok-injective h10 in
      let yes_sealed = require-eq-ok o.sealed "active_or_unsealed_run_preserved" sealed in
      let (left, right) =
        and-eq-true _ _ (require-eq-ok names_fit "artifact_contents_changed" fit) in
      subst (IsSealed d) same record {
        entries_within = in_sealed o yes_sealed left;
        files_within = right;
        named = check_files_names d.entries true o o.files files;
      }
    where
      in_sealed :
          (o : Owner)
          → o.sealed ≡ true
          → within (keys d.entries) (allowed o) ≡ true
          → within (keys d.entries) (keys o.files ++ "ownership.json" ∷ []) ≡ true
      in_sealed o e h = rw e at h

  -- A directory that `owned` accepts as sealed is removed as a whole: each of its files is there to
  -- unlink, and none is left when the directory itself is removed.
  pub cleanup-owned :
      (d : Directory) (owner : Owner)
      → distinct (keys d.entries) ≡ true
      → distinct (keys owner.files) ≡ true
      → owned decode hash d true ≡ ok owner
      → cleanup decode hash d ≡ ok tt
  unfolding cleanup
  cleanup-owned d owner apart once h =
      let s = owned-IsSealed d owner h in
      let files = keys owner.files in
      let all_files = files ++ "ownership.json" ∷ [] in
      let (left, gone, w) = unlink_all-IsWithout files d.entries apart once (λ k c.
        within-contains all_files (keys d.entries) k s.files_within
          (ground (arith, contains-append k files ("ownership.json" ∷ [])))) in
      let there : contains "ownership.json" (keys d.entries) ≡ true =
        within-contains all_files (keys d.entries) "ownership.json" s.files_within
          (ground (arith, contains-append "ownership.json" files ("ownership.json" ∷ []))) in
      let (last, done, v) =
        unlink-IsWithout "ownership.json" left w.apart
          (ground (arith, w.left "ownership.json", there, s.named)) in
      let empty : last ≡ [] = keys-empty last (λ k. ground (
        arith,
        v.left k,
        w.left k,
        within-contains (keys d.entries) all_files k s.entries_within,
        contains-append k files ("ownership.json" ∷ []),
      )) in
      rw (h, gone, done, empty) refl
