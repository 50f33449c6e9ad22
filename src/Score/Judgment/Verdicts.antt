-- ===== src/Score/Judgment/Verdicts.antt =====
-- Lemmas about `correctness` of benchmarks/_score_metrics.py, and the theorem on its verdict.
use grepglint.Base.{
  String, ◌≡◌, refl, sym, ap, subst, ◌⊎◌, inl, inr, Bool, true, false, not, ◌&&◌, Option, none,
  some, List, [], ◌∷◌, arith, eq_iff, and-eq-true, text_cases, all,
}
use grepglint.Score.Judgment.{
  has_words, same_set, object_of, decision, check_reason, is_none, Decisions, claim_keys,
  judge_claim, judge_claims, is_yes, verdict, claims_of, judgment_keys, correctness, pass,
}
use grepglint.Base.Json.{Value, Fields, get, names, get_in, null, bool, str, dict, no_fields, field}
use grepglint.Base.Dict.{contains, keys}
use grepglint.Base.Result.{>>=-eq-ok, ok-injective, ok}

same_set-contains :
    (xs ys : List String)
    → same_set xs ys ≡ true
    → (k : String) → contains k ys ≡ true
    → contains k xs ≡ true
same_set-contains xs ys e k h = within ys (and-eq-true _ _ e).1 h
  where
    within :
        (zs : List String)
        → all (λ y. contains y xs) zs ≡ true
        → contains k zs ≡ true
        → contains k xs ≡ true
    within [] a c = cc
    within (z ∷ zs) a c = ground (arith, within zs, eq_iff z k)

object_of-eq-ok :
    (keys : List String) (message : String) (v : Value) (m : Fields)
    → object_of keys message v ≡ ok m
    → (v ≡ dict m) × (same_set (names m) keys ≡ true)
unfolding object_of
object_of-eq-ok keys message v m h = ground arith

decision-eq-ok :
    (message : String) (o : Option Value) (d : Option Bool)
    → decision message o ≡ ok d
    → ((o ≡ some null) × (d ≡ none)) ⊎ ((b : Bool) × (o ≡ some (bool b)) × (d ≡ some b))
unfolding decision
decision-eq-ok message o d h = ground arith

check_reason-eq-ok :
    (o : Option Value) {u : Unit {0}}
    → check_reason true o ≡ ok u
    → (s : String) × (o ≡ some (str s)) × (has_words s ≡ true)
unfolding check_reason
check_reason-eq-ok o h = ground arith

-- A claim that the reviewer has found supported, with its evidence, for a reason.
pub record IsSupported (claim : Value) : Type 0 where
  pub supported : get_in "supported" claim ≡ some (bool true)
  pub evidence : get_in "evidence_supported" claim ≡ some (bool true)
  pub reason : (s : String) × (get_in "reason" claim ≡ some (str s)) × (has_words s ≡ true)

yes_decision :
    (message : String) (o : Option Value)
    → decision message o ≡ ok (some true)
    → o ≡ some (bool true)
yes_decision message o h = ground (arith, decision-eq-ok message o (some true) h)

judge_claim-IsSupported :
    (claim : Value) → judge_claim claim ≡ ok (some true, some true) → IsSupported claim
unfolding judge_claim is_none
judge_claim-IsSupported claim h =
    let (m, opened, h1) = >>=-eq-ok (object_of claim_keys "invalid_claim_judgment" claim) _ h in
    let (s, first, h2) = >>=-eq-ok (decision "invalid_claim_decision" (get "supported" m)) _ h1 in
    let (e, second, h3) =
      >>=-eq-ok (decision "invalid_claim_decision" (get "evidence_supported" m)) _ h2 in
    let (_, third, h4) =
      >>=-eq-ok (check_reason (not (is_none s && is_none e)) (get "reason" m)) _ h3 in
    let two : (s, e) ≡ (some true, some true) = ok-injective h4 in
    let shape = (object_of-eq-ok claim_keys "invalid_claim_judgment" claim m opened).0 in
    let yes : s ≡ some true = ap (λ p. p.0) two in
    let also : e ≡ some true = ap (λ p. p.1) two in
    rw shape record {
      supported = yes_decision "invalid_claim_decision" (get "supported" m) (rw yes at first);
      evidence =
          yes_decision "invalid_claim_decision" (get "evidence_supported" m) (rw also at second);
      reason = check_reason-eq-ok (get "reason" m) (rw yes at third);
    }

judge_claims-IsSupported :
    (claims : Fields) (decisions : Decisions)
    → judge_claims claims ≡ ok decisions
    → all is_yes decisions ≡ true
    → (id : String) → contains id (names claims) ≡ true
    → (claim : Value) × (get id claims ≡ some claim) × IsSupported claim
unfolding judge_claims
judge_claims-IsSupported no_fields ds h y id k = cc
judge_claims-IsSupported (field name claim claims) ds h y id k =
    let (two, first, h1) = >>=-eq-ok (judge_claim claim) _ h in
    let (rest, others, h2) = >>=-eq-ok (judge_claims claims) _ h1 in
    let made : two.0 ∷ two.1 ∷ rest ≡ ds = ok-injective h2 in
    let yes : all is_yes (two.0 ∷ two.1 ∷ rest) ≡ true =
      subst (λ d. all is_yes d ≡ true) (sym made) y in
    let pair : two ≡ (some true, some true) = pair_of_yes two rest yes in
    let later : all is_yes rest ≡ true = ground arith in
    elim (text_cases name id) [
      | inl (e, _) ↦ rw e (claim, refl, judge_claim-IsSupported claim (rw pair at first))
      | inr (e, _) ↦ rw e (judge_claims-IsSupported claims rest others later id (ground arith))
    ]
  where
    pair_of_yes :
        (two : Option Bool × Option Bool) (rest : Decisions)
        → all is_yes (two.0 ∷ two.1 ∷ rest) ≡ true
        → two ≡ (some true, some true)
    pair_of_yes (some true, some true) rest e = refl
    pair_of_yes (some true, some false) rest e = cc
    pair_of_yes (some true, none) rest e = cc
    pair_of_yes (some false, b) rest e = cc
    pair_of_yes (none, b) rest e = cc

verdict-pass :
    (eligible : Bool) (contradiction : Option Bool) (decisions : Decisions)
    → verdict eligible contradiction decisions ≡ pass
    → (eligible ≡ true) × (contradiction ≡ some false) × (all is_yes decisions ≡ true)
unfolding verdict
verdict-pass eligible none ds h = cc
verdict-pass eligible (some c) ds h = ground arith

-- The judgment finds each claim of the task supported and nothing contradicted.
pub record IsPass (judgment : Value) (ids : List String) : Type 0 where
  pub claims : Fields
  pub found : get_in "claims" judgment ≡ some (dict claims)
  pub supported :
      (id : String)
      → contains id ids ≡ true
      → (claim : Value) × (get id claims ≡ some claim) × IsSupported claim
  pub agrees : get_in "material_contradiction" judgment ≡ some (bool false)

claims_of-eq-ok :
    (ids : List String) (o : Option Value) (claims : Fields)
    → claims_of ids o ≡ ok claims
    → (o ≡ some (dict claims)) × (same_set (names claims) ids ≡ true)
unfolding claims_of
claims_of-eq-ok ids none claims h = cc
claims_of-eq-ok ids (some v) claims h =
    let (shape, same) = object_of-eq-ok ids "judgment_claims_mismatch" v claims h in
    (rw shape refl, same)

-- The verdict is a pass only for an eligible answer, and only if the reviewer has found every claim
-- of the task supported, with its evidence and for a reason, and no contradiction.
pub correctness-IsPass :
    (judgment : Value) (ids : List String) (eligible : Bool)
    → correctness judgment ids eligible ≡ ok pass
    → (eligible ≡ true) × IsPass judgment ids
unfolding correctness
correctness-IsPass judgment ids eligible h =
    let (m, opened, h1) = >>=-eq-ok (object_of judgment_keys "invalid_judgment" judgment) _ h in
    let (claims, found, h2) = >>=-eq-ok (claims_of ids (get "claims" m)) _ h1 in
    let (ds, judged, h3) = >>=-eq-ok (judge_claims claims) _ h2 in
    let (c, contradicted, h4) =
      >>=-eq-ok (decision "invalid_contradiction_decision" (get "material_contradiction" m)) _ h3 in
    let (_, reasoned, h5) = >>=-eq-ok (check_reason (not (is_none c)) (get "reason" m)) _ h4 in
    let (allowed, agrees, supported) = verdict-pass eligible c ds (ok-injective h5) in
    let shape = (object_of-eq-ok judgment_keys "invalid_judgment" judgment m opened).0 in
    let (there, same) = claims_of-eq-ok ids (get "claims" m) claims found in
    (
      allowed,
      rw shape record {
        claims = claims;
        found = there;
        supported = λ id k.
            judge_claims-IsSupported claims ds judged supported id
              (same_set-contains (names claims) ids same id k);
        agrees = ground (
          arith,
          decision-eq-ok "invalid_contradiction_decision" (get "material_contradiction" m) c,
        );
      },
    )
