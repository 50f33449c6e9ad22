-- ===== src/Tests/Judgments.antt =====
-- Judgments of one claim, as a reviewer returns them, and instances of the theorems about them.
use grepglint.Base.{String, ◌≡◌, refl, true, false, [], ◌∷◌}
use grepglint.Score.Judgment.{correctness, judgment_template, unscored, pass, fail}
use grepglint.Score.Judgment.Template.{judgment_template-unscored}
use grepglint.Score.Judgment.Verdicts.{IsPass, correctness-IsPass}
use grepglint.Base.Json.{Value, null, bool, str, dict, no_fields, field}
use grepglint.Base.Result.{probe, err, ok}

abbrev claim_of : Value → Value → String → Value
claim_of supported evidence reason = dict (
    field "supported" supported
      (field "evidence_supported" evidence (field "reason" (str reason) no_fields)))

abbrev judgment_of : Value → Value → String → Value
judgment_of claim contradiction reason = dict (
    field "claims" (dict (field "c1" claim no_fields))
      (field "material_contradiction" contradiction (field "reason" (str reason) no_fields)))

abbrev supported : Value
supported = judgment_of (claim_of (bool true) (bool true) "seen") (bool false) "agrees"

pass_run : correctness supported ("c1" ∷ []) true ≡ ok pass
unfolding correctness
pass_run = refl

not_eligible_run : correctness supported ("c1" ∷ []) false ≡ ok unscored
unfolding correctness
not_eligible_run = refl

fail_run :
    correctness
      (judgment_of (claim_of (bool true) (bool false) "no source") (bool false) "agrees")
      ("c1" ∷ [])
      true
    ≡ ok fail
unfolding correctness
fail_run = refl

no_reason_run :
    correctness (judgment_of (claim_of (bool true) null " ") (bool false) "agrees") ("c1" ∷ []) true
    ≡ err (probe "judgment_requires_reason")
unfolding correctness
no_reason_run = refl

correctness-IsPass_example : (true ≡ true) × IsPass supported ("c1" ∷ [])
correctness-IsPass_example = correctness-IsPass supported ("c1" ∷ []) true pass_run

judgment_template-unscored_example :
    correctness (judgment_template ("c1" ∷ "c2" ∷ "c1" ∷ [])) ("c1" ∷ "c2" ∷ "c1" ∷ []) true
    ≡ ok unscored
judgment_template-unscored_example = judgment_template-unscored ("c1" ∷ "c2" ∷ "c1" ∷ []) true
