-- ===== src/Score/Judgment.antt =====
-- `judgment_template` and `correctness` of benchmarks/_score_metrics.py. Of a task they read the
-- ids of its claims.
pub mod Verdicts
pub mod Template
use grepglint.Base.{
  ℕ, String, Bool, true, false, not, ◌&&◌, ◌||◌, Option, none, some, List, [], ◌∷◌, ◌==◌, leb, eqb,
  if◌then◌else◌, length, all, any, points,
}
use grepglint.Base.Json.{Value, Fields, get, names, null, bool, str, dict, no_fields, field}
use grepglint.Base.Dict.{contains, keys}
use grepglint.Base.Result.{Result, ◌>>=◌, require, ◌>>◌, probe, key_error, err, ok}

abbrev is_space : ℕ → Bool
is_space c =
    (leb 9 c && leb c 13)
    || (leb 28 c && leb c 32)
    || eqb c 133
    || eqb c 160
    || eqb c 5760
    || (leb 8192 c && leb c 8202)
    || eqb c 8232
    || eqb c 8233
    || eqb c 8239
    || eqb c 8287
    || eqb c 12288

-- `bool(s.strip())`
pub has_words : String → Bool
has_words s = any (λ c. not (is_space c)) (points s)

-- `set(xs) == set(ys)`
abbrev pub same_set : List String → List String → Bool
same_set xs ys = all (λ x. contains x ys) xs && all (λ y. contains y xs) ys

-- `isinstance(value, dict) and set(value) == keys`
pub object_of : List String → String → Value → Result Fields
object_of keys message (dict m) = do require (same_set (names m) keys) message; ok m
object_of keys message _ = err (probe message)

-- `value is None or type(value) is bool`
pub decision : String → Option Value → Result (Option Bool)
decision message (some null) = ok none
decision message (some (bool b)) = ok (some b)
decision message _ = err (probe message)

-- `isinstance(reason, str) and len(reason) <= 4000`, and text in it if one is required.
pub check_reason : Bool → Option Value → Result (Unit {0})
unfolding has_words
check_reason required (some (str s)) = do
  require (leb (length (points s)) 4000) "invalid_judgment_reason"
  require (not required || has_words s) "judgment_requires_reason"
check_reason required _ = err (probe "invalid_judgment_reason")

pub is_none : Option Bool → Bool
is_none none = true
is_none (some b) = false

abbrev pub Decisions : Type 0
Decisions = List (Option Bool)

pub claim_keys : List String
claim_keys = "supported" ∷ "evidence_supported" ∷ "reason" ∷ []

-- The loop body: the two decisions of a claim.
pub judge_claim : Value → Result (Option Bool × Option Bool)
unfolding object_of decision check_reason is_none claim_keys
judge_claim claim = do
  m ← object_of claim_keys "invalid_claim_judgment" claim
  supported ← decision "invalid_claim_decision" (get "supported" m)
  evidence ← decision "invalid_claim_decision" (get "evidence_supported" m)
  check_reason (not (is_none supported && is_none evidence)) (get "reason" m)
  ok (supported, evidence)

-- `decisions` after the loop over the claims.
pub judge_claims : Fields → Result Decisions
unfolding judge_claim
judge_claims no_fields = ok []
judge_claims (field k claim claims) = do
  two ← judge_claim claim
  decisions ← judge_claims claims
  ok (two.0 ∷ two.1 ∷ decisions)

pub data Verdict : Type 0 where
  unscored pass fail : Verdict

abbrev pub is_yes : Option Bool → Bool
is_yes (some true) = true
is_yes _ = false

-- The last two lines.
unfoldable pub verdict : Bool → Option Bool → Decisions → Verdict
unfolding is_none
verdict eligible none decisions = unscored
verdict eligible (some contradiction) decisions =
    if not eligible || any is_none decisions
    then unscored
    else if all is_yes decisions && not contradiction
    then pass
    else fail

-- `judgment['claims']`, if it is a dict with the claims' ids.
pub claims_of : List String → Option Value → Result Fields
unfolding object_of
claims_of ids none = err key_error
claims_of ids (some claims) = object_of ids "judgment_claims_mismatch" claims

pub judgment_keys : List String
judgment_keys = "claims" ∷ "material_contradiction" ∷ "reason" ∷ []

unfoldable pub correctness : Value → List String → Bool → Result Verdict
unfolding object_of claims_of judge_claims decision check_reason verdict is_none judgment_keys
correctness judgment ids eligible = do
  m ← object_of judgment_keys "invalid_judgment" judgment
  claims ← claims_of ids (get "claims" m)
  decisions ← judge_claims claims
  contradiction ← decision "invalid_contradiction_decision" (get "material_contradiction" m)
  check_reason (not (is_none contradiction)) (get "reason" m)
  ok (verdict eligible contradiction decisions)

abbrev pub blank_claim : Value
blank_claim =
    dict
      (field "supported" null (field "evidence_supported" null (field "reason" (str "") no_fields)))

-- `claims[id] = blank`: a dict keeps the place of a key that it has.
pub add_blank : String → Fields → Fields
add_blank id no_fields = field id blank_claim no_fields
add_blank id (field k v m) =
    let rest = add_blank id m in if k == id then field k blank_claim m else field k v rest

pub add_blanks : List String → Fields → Fields
unfolding add_blank
add_blanks [] claims = claims
add_blanks (id ∷ ids) claims = add_blanks ids (add_blank id claims)

unfoldable pub judgment_template : List String → Value
unfolding add_blanks
judgment_template ids = dict (
    field "claims" (dict (add_blanks ids no_fields))
      (field "material_contradiction" null (field "reason" (str "") no_fields)))
