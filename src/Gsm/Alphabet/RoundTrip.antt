-- ===== src/Gsm/Alphabet/RoundTrip.antt =====
-- helper/gsm.c: an ASCII text of the basic alphabet, unpacked and read back.
use sxx_ril.Common.{
  ℕ, ◌<◌, false, Option, none, some, List, [], ◌∷◌, ◌++◌, get_or, leb, ◌==◌, if◌then◌else◌, Text,
  ◌≡◌, ◌≢◌, refl, sym, ap, ◌∙◌, arith,
}
use sxx_ril.Gsm.Utf8.Next.{over, followed-over, utf8_next_ascii, utf8_write_ascii}
use sxx_ril.Gsm.Alphabet.{
  gsm7bits_to_unicode, unichar_to_gsm7, gsm_codes, utf8_to_gsm8, from_gsm8, utf8_from_gsm8,
}
use sxx_ril.Gsm.Alphabet.Codes.{unichar_to_gsm7_iff}

-- A character of ASCII that has a code of its own, as NUL has that of the escape.
pub record IsBasic (c : ℕ) : Type 0 where
  pub code : ℕ
  pub ascii : c < 128
  pub not_nul : c ≢ 0
  pub found : unichar_to_gsm7 c ≡ some code

abbrev pub AllBasic : Text → Type 0
AllBasic [] = Unit
AllBasic (c ∷ s) = IsBasic c × AllBasic s

-- The table has 0 at the escape.
pub not_escape : (c : ℕ) (b : IsBasic c) → b.code ≢ 0x1b
not_escape c b e = b.not_nul (
    sym ((unichar_to_gsm7_iff c b.code).0 b.found).1
    ∙ ap (λ (i : ℕ). get_or gsm7bits_to_unicode i 0) e)

pub gsm_codes-basic : (c : ℕ) (b : IsBasic c) → gsm_codes c ≡ b.code ∷ []
unfolding gsm_codes
gsm_codes-basic c b = rw b.found refl

code_tests :
    (k : ℕ) → k < 128 → k ≢ 0x1b → (k == 0xff ≡ false) × (k == 0x1b ≡ false) × (leb 0x80 k ≡ false)
code_tests k h ne = (ground arith, ground arith, ground arith)

read_code :
    (c : ℕ) (b : IsBasic c) (src : List ℕ)
    → from_gsm8 false (b.code ∷ src) ≡ c ∷ from_gsm8 false src
unfolding from_gsm8
read_code c b src =
    let at = (unichar_to_gsm7_iff c b.code).0 b.found in
    let t = code_tests b.code at.0 (not_escape c b) in
    rw (t.0, t.1, t.2, if◌then◌else◌, at.1, utf8_write_ascii c b.ascii) refl

read_codes :
    (c : ℕ) (b : IsBasic c) (s : Text) (o : Option (List ℕ))
    → over utf8_from_gsm8 o ≡ some s
    → over utf8_from_gsm8 (over (λ t. gsm_codes c ++ t) o) ≡ some (c ∷ s)
unfolding utf8_from_gsm8
read_codes c b s none e = cc
read_codes c b s (some src) e = cc (
  ap (λ (codes : List ℕ). from_gsm8 false (codes ++ src)) (gsm_codes-basic c b),
  read_code c b src,
)

-- An ASCII text of the basic alphabet is unpacked with any fuel, and back it is the same text.
pub utf8_from_gsm8-utf8_to_gsm8 :
    (fuel : ℕ) (s : Text) → AllBasic s → over utf8_from_gsm8 (utf8_to_gsm8 fuel s) ≡ some s
unfolding utf8_to_gsm8
utf8_from_gsm8-utf8_to_gsm8 fuel [] h = unfold utf8_from_gsm8 in refl
utf8_from_gsm8-utf8_to_gsm8 fuel (c ∷ s) (b, h) =
    rw
      (
        utf8_next_ascii fuel c s b.ascii,
        followed-over (λ (s t : List ℕ). s ++ t) (gsm_codes c) (utf8_to_gsm8 fuel s),
      )
      (read_codes c b s (utf8_to_gsm8 fuel s) (utf8_from_gsm8-utf8_to_gsm8 fuel s h))
