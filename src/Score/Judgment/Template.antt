-- ===== src/Score/Judgment/Template.antt =====
-- Lemmas about `judgment_template` of benchmarks/_score_metrics.py, and the theorem.
use grepglint.Base.{
  String, ◌≡◌, refl, Bool, true, ◌||◌, none, List, [], ◌∷◌, arith, ◌==◌, eq_iff, all,
}
use grepglint.Score.Judgment.{
  same_set, object_of, decision, check_reason, is_none, Decisions, claim_keys, judge_claim,
  judge_claims, verdict, claims_of, judgment_keys, correctness, blank_claim, add_blank, add_blanks,
  judgment_template, unscored,
}
use grepglint.Base.Json.{Fields, names, no_fields, field}
use grepglint.Base.Dict.{contains}
use grepglint.Base.Result.{ok}

contains-add_blank :
    (k id : String) (m : Fields)
    → contains k (names (add_blank id m)) ≡ (id == k) || contains k (names m)
unfolding add_blank
contains-add_blank k id no_fields = refl
contains-add_blank k id (field j v m) = ground (arith, contains-add_blank k id m, eq_iff j id)

contains-add_blanks :
    (k : String) (ids : List String) (m : Fields)
    → contains k (names (add_blanks ids m)) ≡ contains k ids || contains k (names m)
unfolding add_blanks
contains-add_blanks k [] m = refl
contains-add_blanks k (id ∷ ids) m =
    ground (arith, contains-add_blanks k ids (add_blank id m), contains-add_blank k id m)

abbrev IsBlank : Fields → Type 0
IsBlank no_fields = Unit
IsBlank (field k v m) = (v ≡ blank_claim) × IsBlank m

add_blank-IsBlank : (id : String) (m : Fields) → IsBlank m → IsBlank (add_blank id m)
unfolding add_blank
add_blank-IsBlank id no_fields h = (refl, tt)
add_blank-IsBlank id (field k v m) h = ground (arith, add_blank-IsBlank id m)

add_blanks-IsBlank : (ids : List String) (m : Fields) → IsBlank m → IsBlank (add_blanks ids m)
unfolding add_blanks
add_blanks-IsBlank [] m h = h
add_blanks-IsBlank (id ∷ ids) m h =
    add_blanks-IsBlank ids (add_blank id m) (add_blank-IsBlank id m h)

judge_claims-IsBlank : (m : Fields) → IsBlank m → (ds : Decisions) × (judge_claims m ≡ ok ds)
unfolding judge_claims judge_claim object_of decision check_reason claim_keys is_none
judge_claims-IsBlank no_fields h = ([], refl)
judge_claims-IsBlank (field k v m) h =
    let (ds, e) = judge_claims-IsBlank m h.1 in (none ∷ none ∷ ds, rw h.0 (rw e refl))

all_of :
    (p : String → Bool) (xs : List String)
    → ((x : String) → contains x xs ≡ true → p x ≡ true)
    → all p xs ≡ true
all_of p [] h = refl
all_of p (x ∷ xs) h =
    let first = h x (ground (arith, eq_iff x x)) in
    let rest = all_of p xs (λ y k. h y (ground arith)) in ground arith

same_set-add_blanks : (ids : List String) → same_set (names (add_blanks ids no_fields)) ids ≡ true
same_set-add_blanks ids =
    let claims = names (add_blanks ids no_fields) in
    let left =
      all_of (λ x. contains x ids) claims
        (λ x k. ground (arith, contains-add_blanks x ids no_fields)) in
    let right =
      all_of (λ x. contains x claims) ids
        (λ x k. ground (arith, contains-add_blanks x ids no_fields)) in
    rw (left, right) refl

-- The template is a judgment that `correctness` accepts, and its verdict is `unscored`, whatever
-- the claims and whether or not the answer is eligible.
pub judgment_template-unscored :
    (ids : List String) (eligible : Bool)
    → correctness (judgment_template ids) ids eligible ≡ ok unscored
unfolding correctness judgment_template object_of claims_of decision check_reason verdict is_none
    judgment_keys
judgment_template-unscored ids eligible =
    let (ds, e) =
      judge_claims-IsBlank (add_blanks ids no_fields) (add_blanks-IsBlank ids no_fields tt) in
    rw (same_set-add_blanks ids) (rw e refl)
