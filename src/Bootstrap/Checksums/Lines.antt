-- ===== src/Bootstrap/Checksums/Lines.antt =====
-- The lines of SHA256SUMS as scripts/bootstrap.py splits and matches them.
use grepglint.Base.{
  ◌≡◌, refl, subst, true, false, some, [], ◌∷◌, ◌++◌, append_assoc, append-nil, arith, ltb, eqb,
  and-eq-true, length, length-append, all, drop, take-append, drop-append, Text, same_text, is_hex,
}
use grepglint.Bootstrap.Checks.{is_hex_of}
use grepglint.Bootstrap.Checksums.{is_break, lines_from, is_asset, match_line}
use grepglint.Bootstrap.Checks.Tags.{is_clean}

pub lines_from-append :
    (begun line rest : Text)
    → all is_clean line ≡ true
    → lines_from false begun (line ++ 10 ∷ rest) ≡ (begun ++ line) ∷ lines_from false [] rest
unfolding lines_from
lines_from-append begun [] rest h = rw (append-nil begun)
lines_from-append begun (c ∷ s) rest h =
    let (first, later) = and-eq-true (is_clean c) _ h in
    let unbroken : is_break c ≡ false = ground arith in
    let other : eqb c 13 ≡ false = ground arith in
    rw (
      unbroken,
      other,
      lines_from-append (begun ++ c ∷ []) s rest later,
      append_assoc begun (c ∷ []) s,
    )

pub all-is_ascii : (s : Text) → all is_clean s ≡ true → all (λ b. ltb b 128) s ≡ true
all-is_ascii [] h = refl
all-is_ascii (c ∷ s) h =
    let (first, later) = and-eq-true (is_clean c) _ h in
    let rest = all-is_ascii s later in ground arith

pub all-is_hex : (s : Text) → all is_hex s ≡ true → all is_clean s ≡ true
all-is_hex [] h = refl
all-is_hex (c ∷ s) h =
    let (first, later) = and-eq-true (is_hex c) _ h in let rest = all-is_hex s later in ground arith

-- The line of `sha256sum` for an asset gives its name and its digest.
pub match_line_lem :
    (tag digest name : Text)
    → is_hex_of 64 digest ≡ true
    → is_asset tag name ≡ true
    → match_line tag (digest ++ 32 ∷ 32 ∷ name) ≡ some (name, digest)
unfolding match_line same_text
match_line_lem tag digest name h k =
    let size : length digest ≡ 64 = ground arith in
    let longer : length (digest ++ 32 ∷ 32 ∷ []) ≡ 66 =
      omega (arith, length-append digest (32 ∷ 32 ∷ [])) in
    let tail : drop 66 (digest ++ 32 ∷ 32 ∷ name) ≡ name =
      subst (λ t. drop 66 t ≡ name) (append_assoc digest (32 ∷ 32 ∷ []) name)
        (drop-append 66 (digest ++ 32 ∷ 32 ∷ []) name longer) in
    rw (
      take-append 64 digest (32 ∷ 32 ∷ name) size,
      drop-append 64 digest (32 ∷ 32 ∷ name) size,
      tail,
      h,
      k,
    )
