-- ===== src/Gsm/Utf8/Skip.antt =====
-- helper/gsm.c: `utf8_skip` counts the characters that `utf8_write` gives.
use sxx_ril.Common.{
  ℕ, suc, ◌+◌, ◌-◌, ◌/◌, ◌<◌, ◌≤◌, Bool, true, false, not, some, List, [], ◌∷◌, ◌++◌, length,
  append_assoc, ltb, if◌then◌else◌, Text, ◌≡◌, refl, ap, ◌∙◌, arith,
}
use sxx_ril.Common.Bits.{passes, passes_lem}
use sxx_ril.Gsm.Utf8.{utf8_write, ucs2_to_utf8, is_tail, skip_tail, utf8_skip}
use sxx_ril.Gsm.Utf8.Valid.{AreTails, IsChar, ascii, long, utf8_write-IsChar}

not-false : (b : Bool) → not b ≡ true → b ≡ false
not-false true h = cc
not-false false h = refl

first_table : passes (λ n. not (is_tail (0xc0 + n))) 64 ≡ true
unfolding passes
first_table = refl

ascii_table : passes (λ n. not (is_tail n)) 128 ≡ true
unfolding passes
ascii_table = refl

First-byte : (c : ℕ) → 0xc0 ≤ c → c < 256 → is_tail c ≡ false
First-byte c lo hi =
    ap is_tail {y = 0xc0 + (c - 0xc0)} (omega (arith, lo))
    ∙ not-false _ (
        passes_lem (λ n. not (is_tail (0xc0 + n))) 64 (c - 0xc0) first_table
          (omega (arith, lo, hi)))

ascii_byte : (c : ℕ) → c < 128 → is_tail c ≡ false
ascii_byte c h = not-false _ (passes_lem (λ n. not (is_tail n)) 128 c ascii_table h)

-- A character begins with no tail byte, and its tail is skipped.
start : (v : ℕ) (s rest : Text) → IsChar v s → skip_tail (s ++ rest) ≡ s ++ rest
unfolding skip_tail
start v _ rest (ascii h) = rw (ascii_byte v h) refl
start v _ rest (long c tails lo hi l t) = rw (First-byte c lo hi) refl

skip_tails :
    (tails rest : Text) → AreTails tails → skip_tail rest ≡ rest → skip_tail (tails ++ rest) ≡ rest
unfolding skip_tail
skip_tails [] rest t h = h
skip_tails (c ∷ tails) rest t h = rw (t.0, if◌then◌else◌) (skip_tails tails rest t.1 h)

skip_char :
    (v : ℕ) (s rest : Text) (count : ℕ)
    → IsChar v s
    → skip_tail rest ≡ rest
    → utf8_skip (suc count) (s ++ rest) ≡ utf8_skip count rest
unfolding utf8_skip
skip_char v _ rest count (ascii h) e = ground arith
skip_char v _ rest count (long c tails lo hi l t) e =
    rw (high c lo, if◌then◌else◌, skip_tails tails rest t e) refl
  where
    high : (c : ℕ) → 0xc0 ≤ c → ltb 128 c ≡ true
    high c lo = ground arith

start_ucs2 :
    (ucs2 : List ℕ) (rest : Text)
    → skip_tail rest ≡ rest
    → skip_tail (ucs2_to_utf8 ucs2 ++ rest) ≡ ucs2_to_utf8 ucs2 ++ rest
unfolding ucs2_to_utf8
start_ucs2 [] rest h = h
start_ucs2 (hi ∷ []) rest h = h
start_ucs2 (hi ∷ lo ∷ ucs2) rest h =
    rw (append_assoc (utf8_write _) (ucs2_to_utf8 ucs2) rest) (start _ _ _ (utf8_write-IsChar _))

half : (n : ℕ) → suc (suc n) / 2 ≡ suc (n / 2)
half n = omega arith

-- On converted UCS-2 text with other text behind it, which begins with no tail byte, `utf8_skip`
-- by as many characters as there are pairs of bytes stops exactly before the other text.
pub utf8_skip-ucs2_to_utf8 :
    (ucs2 : List ℕ) (rest : Text)
    → skip_tail rest ≡ rest
    → utf8_skip (length ucs2 / 2) (ucs2_to_utf8 ucs2 ++ rest) ≡ some rest
unfolding ucs2_to_utf8
utf8_skip-ucs2_to_utf8 [] rest h = unfold utf8_skip in refl
utf8_skip-ucs2_to_utf8 (hi ∷ []) rest h = unfold utf8_skip in refl
utf8_skip-ucs2_to_utf8 (hi ∷ lo ∷ ucs2) rest h =
    rw (half (length ucs2), append_assoc (utf8_write _) (ucs2_to_utf8 ucs2) rest)
      (skip_char _ _ _ _ (utf8_write-IsChar _) (start_ucs2 ucs2 rest h)
        ∙ utf8_skip-ucs2_to_utf8 ucs2 rest h)
