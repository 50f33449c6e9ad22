-- ===== src/Paired/Store.antt =====
-- The directory of a run: `read`, `owned` and `cleanup` of benchmarks/_paired_store.py. `decode` is
-- `json_value` on the bytes of ownership.json, with the fields that the code reads, and `hash` is
-- `hash_file`'s digest of a file's bytes.
pub mod Cleanup
use grepglint.Base.{
  ℕ, ◌+◌, ◌*◌, ◌^◌, String, Bool, true, false, not, ◌&&◌, ◌||◌, Option, none, some, List, [], ◌∷◌,
  ◌++◌, ◌==◌, leb, eqb, if◌then◌else◌, length, all, any, points, ends_with,
}
use grepglint.Base.Json.{names}
use grepglint.Base.Dict.{Dict, contains, lookup, keys}
use grepglint.Base.Result.{Result, ◌>>=◌, require, ◌>>◌, probe, os_error, err, ok}

abbrev pub Identity : Type 0
Identity = ℕ × ℕ

abbrev pub same_identity : Identity → Identity → Bool
same_identity (d, i) (d', i') = eqb d d' && eqb i i'

-- `safe`: a regular file of this user that no one else may open.
pub record Node : Type 0 where
  pub safe : Bool
  pub identity : Identity
  pub content : List ℕ

-- `safe`: a directory of this user that no one else may open.
pub record Directory : Type 0 where
  pub safe : Bool
  pub identity : Identity
  pub entries : Dict Node

pub record Pending : Type 0 where
  pub target : String
  pub old : Identity
  pub new : Option Identity

-- ownership.json; a field that is missing has its default.
pub record Owner : Type 0 where
  pub directory : Identity
  pub files : Dict Identity
  pub sealed : Bool
  pub pending : Option Pending
  pub sha256 : Dict String

abbrev pub metadata_limit : ℕ
metadata_limit = 1024 * 1024

abbrev total_limit : ℕ
total_limit = 128 * 1024 ^ 2

abbrev pub max_files : ℕ
max_files = 2 * 160 + 2

abbrev pub changed_ownership : String
changed_ownership = "artifact_ownership_changed"

-- `read`, as far as the bytes.
pub read : Dict Node → String → ℕ → Result (List ℕ)
unfolding lookup
read entries name limit = elim (lookup name entries) [
  | none ↦ err os_error
  | some node ↦ (do
    require (node.safe && leb (length node.content) limit) "unsafe_or_oversized_artifact"
    ok node.content)
]

-- `Path(name).name == name`
pub is_file_name : String → Bool
is_file_name name = not (any (λ c. eqb c b'/') (points name)) && not (name == ".")

-- `TOTAL_LIMIT if name.endswith('.jsonl') else METADATA_BYTES`
limit_of : String → ℕ
unfolding ends_with
limit_of name = if ends_with (points ".jsonl") (points name) then total_limit else metadata_limit

-- `allowed`
abbrev pub allowed : Owner → List String
allowed owner =
    let owned = keys owner.files ++ "ownership.json" ∷ [] in
    if owner.sealed then owned else owned ++ ".ownership.next" ∷ ".data.next" ∷ []

-- `not (xs - ys)`
abbrev pub within : List String → List String → Bool
within xs ys = all (λ x. contains x ys) xs

-- The loop over the temporaries.
pub check_temporary : Dict Node → String → Result (Unit {0})
unfolding lookup
check_temporary entries name = elim (lookup name entries) [
  | none ↦ ok tt
  | some node ↦
      require (node.safe && leb (length node.content) metadata_limit) "unsafe_publication_temporary"
]

-- `[st_dev, st_ino] in candidates`
is_candidate : Owner → String → Identity → Identity → Bool
is_candidate owner name expected found = same_identity found expected || elim owner.pending [
  | none ↦ false
  | some p ↦
      p.target == name
      && (same_identity found p.old
          || elim p.new [ none ↦ false | some new ↦ same_identity found new ])
]

module _ (decode : List ℕ → Result Owner) (hash : List ℕ → String) where
  check_hash : Owner → String → List ℕ → Result (Unit {0})
  unfolding lookup
  check_hash owner name content = elim (lookup name owner.sha256) [
    | none ↦ err (probe "edited_or_unsealed_artifact_preserved")
    | some digest ↦ require (hash content == digest) "edited_or_unsealed_artifact_preserved"
  ]

  -- The body of the loop over the files.
  pub check_file : Dict Node → Bool → Owner → String → Identity → Result (Unit {0})
  unfolding is_file_name lookup is_candidate limit_of check_hash
  check_file entries sealed owner name expected = do
    require (is_file_name name && not (name == "ownership.json")) "invalid_artifact_filename"
    node ← elim (lookup name entries) [ none ↦ err os_error | some node ↦ ok node ]
    require (node.safe && is_candidate owner name expected node.identity) changed_ownership
    require (leb (length node.content) (limit_of name)) "artifact_limit_exceeded"
    if sealed then check_hash owner name node.content else ok tt

  pub check_files : Dict Node → Bool → Owner → Dict Identity → Result (Unit {0})
  unfolding check_file
  check_files entries sealed owner [] = ok tt
  check_files entries sealed owner ((name, expected) ∷ files) = do
    check_file entries sealed owner name expected
    check_files entries sealed owner files

  unfoldable pub owned : Directory → Bool → Result Owner
  unfolding read check_temporary check_files
  owned d sealed = do
    require d.safe changed_ownership
    content ← read d.entries "ownership.json" metadata_limit
    owner ← decode content
    require (same_identity owner.directory d.identity && leb (length owner.files) max_files)
        changed_ownership
    let names = keys d.entries
    require (leb (length names) (max_files + 3)) "artifact_contents_changed"
    require
        (within names (allowed owner) && within (keys owner.files ++ "ownership.json" ∷ []) names)
        "artifact_contents_changed"
    check_temporary d.entries ".ownership.next"
    check_temporary d.entries ".data.next"
    check_files d.entries sealed owner owner.files
    require (not sealed || owner.sealed) "active_or_unsealed_run_preserved"
    ok owner

  -- `(run / name).unlink()`
  pub unlink : String → Dict Node → Result (Dict Node)
  unlink name [] = err os_error
  unlink name ((n, node) ∷ entries) = elim (n == name) [
    | true ↦ ok entries
    | false ↦ (do rest ← unlink name entries; ok ((n, node) ∷ rest))
  ]

  pub unlink_all : List String → Dict Node → Result (Dict Node)
  unfolding unlink
  unlink_all [] entries = ok entries
  unlink_all (name ∷ names) entries = do rest ← unlink name entries; unlink_all names rest

  -- `run.rmdir()`, which raises if something is left.
  pub remove_directory : Dict Node → Result (Unit {0})
  remove_directory [] = ok tt
  remove_directory (e ∷ entries) = err os_error

  unfoldable pub cleanup : Directory → Result (Unit {0})
  unfolding owned unlink_all unlink remove_directory
  cleanup d = do
    owner ← owned d true
    left ← unlink_all (keys owner.files) d.entries
    last ← unlink "ownership.json" left
    remove_directory last
