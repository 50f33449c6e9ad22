-- ===== src/Tests/Stores.antt =====
-- Runs of `owned` and `cleanup` of benchmarks/_paired_store.py, and an instance of the theorem.
use grepglint.Base.{ℕ, String, ◌≡◌, refl, true, none, List, [], ◌∷◌}
use grepglint.Base.Dict.{Dict}
use grepglint.Base.Result.{Result, probe, value_error, err, ok}
use grepglint.Paired.Store.{Node, Directory, Owner, owned, cleanup}
use grepglint.Paired.Store.Cleanup.{cleanup-owned}

abbrev sealed_owner : Owner
sealed_owner = record {
  directory = (1, 2);
  files = ("plan.json", (1, 3)) ∷ ("t0001.jsonl", (1, 4)) ∷ [];
  sealed = true;
  pending = none;
  sha256 = ("plan.json", "short") ∷ ("t0001.jsonl", "none") ∷ [];
}

abbrev decode : List ℕ → Result Owner
decode [] = err value_error
decode (b ∷ bs) = ok sealed_owner

abbrev hash : List ℕ → String
hash [] = "none"
hash (b ∷ bs) = "short"

abbrev node : ℕ → List ℕ → Node
node inode content = record { safe = true; identity = (1, inode); content = content }

abbrev run_of : Dict Node → Directory
run_of entries = record { safe = true; identity = (1, 2); entries = entries }

abbrev sealed_run : Directory
sealed_run = run_of (
    ("ownership.json", node 5 (123 ∷ []))
    ∷ ("t0001.jsonl", node 4 [])
    ∷ ("plan.json", node 3 (123 ∷ 125 ∷ []))
    ∷ [])

owned_run : owned decode hash sealed_run true ≡ ok sealed_owner
unfolding owned
owned_run = refl

edited_run :
    cleanup decode hash (
      run_of (
        ("ownership.json", node 5 (123 ∷ []))
        ∷ ("t0001.jsonl", node 4 (0 ∷ []))
        ∷ ("plan.json", node 3 (123 ∷ 125 ∷ []))
        ∷ []))
    ≡ err (probe "edited_or_unsealed_artifact_preserved")
unfolding cleanup
edited_run = refl

unrelated_run :
    cleanup decode hash (
      run_of (
        ("ownership.json", node 5 (123 ∷ []))
        ∷ ("t0001.jsonl", node 4 [])
        ∷ ("notes", node 6 [])
        ∷ ("plan.json", node 3 (123 ∷ 125 ∷ []))
        ∷ []))
    ≡ err (probe "artifact_contents_changed")
unfolding cleanup
unrelated_run = refl

cleanup-owned_example : cleanup decode hash sealed_run ≡ ok tt
cleanup-owned_example = cleanup-owned decode hash sealed_run sealed_owner refl refl owned_run
