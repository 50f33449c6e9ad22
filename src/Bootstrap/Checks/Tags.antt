-- ===== src/Bootstrap/Checks/Tags.antt =====
-- Lemmas about the tags of scripts/bootstrap.py and scripts/release.py, and the theorem.
use grepglint.Base.{
  ℕ, ◌≡◌, refl, ◌↔◌, Bool, true, not, ◌&&◌, ◌||◌, List, [], ◌∷◌, arith, ltb, eqb, and-eq-true, all,
  Text, split_on, is_digit, same_text_refl, eq_of_same_text, all-split_on,
}
use grepglint.Release.{version, is_number, three, is_version_tag, validate_tag}
use grepglint.Base.Result.{ensure-eq-ok, ok}
use grepglint.Bootstrap.Checks.{is_plain_number, are_three, is_tag}
use grepglint.Bootstrap.Checksums.{is_break}

plain_number-all :
    (s : Text) → is_plain_number s ≡ true → (all is_digit s ≡ true) × (is_number s ≡ true)
plain_number-all [] h = ground arith
plain_number-all (c ∷ []) h = ground arith
plain_number-all (c ∷ d ∷ s) h = ground arith

three_of :
    (parts : List Text)
    → are_three parts ≡ true
    → (three is_number parts ≡ true) × (all (all is_digit) parts ≡ true)
three_of (a ∷ b ∷ c ∷ []) h =
    let (others, third) = and-eq-true _ (is_plain_number c) h in
    let (first, second) = and-eq-true _ (is_plain_number b) others in
    let (a1, a2) = plain_number-all a first in
    let (b1, b2) = plain_number-all b second in
    let (c1, c2) = plain_number-all c third in (rw (a2, b2, c2), rw (a1, b1, c1))
three_of [] h = cc
three_of (a ∷ []) h = cc
three_of (a ∷ b ∷ []) h = cc
three_of (a ∷ b ∷ c ∷ d ∷ parts) h = cc

is_tag-is_version_tag : (tag : Text) → is_tag tag ≡ true → is_version_tag tag ≡ true
unfolding is_tag is_version_tag
is_tag-is_version_tag [] h = h
is_tag-is_version_tag (c ∷ s) h =
    let (first, rest) = and-eq-true (eqb c 118) _ h in rw (first, (three_of (split_on 46 s) rest).0)

-- For a tag that the installer takes for a stable release, `validate_tag` of the release script
-- returns exactly if the tag is "v" and the version of the Cargo package.
pub is_tag-validate_tag :
    (tag version : Text)
    → is_tag tag ≡ true
    → (validate_tag tag version ≡ ok tt) ↔ (tag ≡ 118 ∷ version)
unfolding validate_tag
is_tag-validate_tag tag version h =
    let valid = is_tag-is_version_tag tag h in
    (
      λ e.
          let (_, same) = and-eq-true (is_version_tag tag) _ (ensure-eq-ok _ _ e) in
          eq_of_same_text tag (118 ∷ version) same,
      λ e. rw (valid, e, same_text_refl (118 ∷ version)),
    )

-- An ASCII character that is no line break.
abbrev pub is_clean : ℕ → Bool
is_clean c = ltb c 128 && not (is_break c)

all-is_clean : (s : Text) → all (λ c. is_digit c || eqb c 46) s ≡ true → all is_clean s ≡ true
all-is_clean [] h = refl
all-is_clean (c ∷ s) h =
    let (first, rest) = and-eq-true (is_digit c || eqb c 46) _ h in
    let later = all-is_clean s rest in ground arith

pub is_tag-is_clean : (tag : Text) → is_tag tag ≡ true → all is_clean tag ≡ true
unfolding is_tag
is_tag-is_clean [] h = refl
is_tag-is_clean (c ∷ s) h =
    let (first, rest) = and-eq-true (eqb c 118) _ h in
    let later = all-is_clean s (all-split_on is_digit 46 s (three_of (split_on 46 s) rest).1) in
    ground arith
