-- ===== src/Gsm/Examples.antt =====
-- helper/gsm.c: the functions and the theorems at concrete texts.
use sxx_ril.Common.{
  ℕ, none, some, List, [], ◌∷◌, ◌++◌, length, Text, codes, true, false, ◌≡◌, refl, arith,
}
use sxx_ril.Gsm.Hex.{hex_to_bytes, hex_from_bytes, to_bytes-from_bytes}
use sxx_ril.Gsm.Utf8.{utf8_write, ucs2_to_utf8, utf8_check, utf8_skip, skip_tail}
use sxx_ril.Gsm.Utf8.Valid.{utf8_check-ucs2_to_utf8}
use sxx_ril.Gsm.Utf8.Skip.{utf8_skip-ucs2_to_utf8}
use sxx_ril.Gsm.Utf8.Next.{over, utf8_to_ucs2, utf8_to_ucs2_hangs}
use sxx_ril.Gsm.Alphabet.{unichar_to_gsm7, utf8_to_gsm8, utf8_from_gsm8}
use sxx_ril.Gsm.Alphabet.RoundTrip.{AllBasic, utf8_from_gsm8-utf8_to_gsm8}
use sxx_ril.Gsm.Septets.{
  utf8_to_gsm7, utf8_from_gsm7, from_gsm7_loop, ucs2_step, ucs2_to_gsm7, ucs2_to_gsm8,
}
use sxx_ril.Gsm.Septets.RoundTrip.{ucs2_to_gsm7-ucs2_to_gsm8, utf8_from_gsm7-utf8_to_gsm7}
use sxx_ril.Gsm.Septets.Pack.{decoded}
use sxx_ril.Gsm.Bcd.{bcdnum_to_ascii}
use sxx_ril.Gsm.Bcd.Numbers.{bcdnum_to_ascii_unending}

in_hex : hex_from_bytes (0x07 ∷ 0x91 ∷ 0xff ∷ []) ≡ codes "0791FF"
unfolding hex_from_bytes
in_hex = refl

to_bytes-from_bytes_example :
    hex_to_bytes (hex_from_bytes (0x07 ∷ 0x91 ∷ 0xff ∷ [])) ≡ 0x07 ∷ 0x91 ∷ 0xff ∷ []
to_bytes-from_bytes_example =
    to_bytes-from_bytes (0x07 ∷ 0x91 ∷ 0xff ∷ []) (omega arith, (omega arith, (omega arith, tt)))

-- The letter e with an acute accent, the sign of the euro, and the letter x.
abbrev three_chars : List ℕ
three_chars = 0x00 ∷ 0xe9 ∷ 0x20 ∷ 0xac ∷ 0x00 ∷ 0x78 ∷ []

in_utf8 : ucs2_to_utf8 three_chars ≡ 0xc3 ∷ 0xa9 ∷ 0xe2 ∷ 0x82 ∷ 0xac ∷ 0x78 ∷ []
unfolding ucs2_to_utf8 utf8_write
in_utf8 = refl

utf8_check-ucs2_to_utf8_example : utf8_check (ucs2_to_utf8 three_chars) ≡ true
utf8_check-ucs2_to_utf8_example = utf8_check-ucs2_to_utf8 three_chars

utf8_skip-ucs2_to_utf8_example :
    utf8_skip 3 (ucs2_to_utf8 three_chars ++ codes "yz") ≡ some (codes "yz")
unfolding skip_tail
utf8_skip-ucs2_to_utf8_example = utf8_skip-ucs2_to_utf8 three_chars (codes "yz") refl

utf8_to_ucs2_hangs_example : utf8_to_ucs2 1000 (codes "caf" ++ (utf8_write 0xe9 ++ [])) ≡ none
utf8_to_ucs2_hangs_example = utf8_to_ucs2_hangs 1000 0xe9 (codes "caf") [] (omega arith)

abbrev hello : Text
hello = codes "@ $A"

hello-AllBasic : AllBasic hello
unfolding unichar_to_gsm7
hello-AllBasic = (
  record { code = 0; ascii = omega arith; not_nul = omega arith; found = refl },
  (
    record { code = 32; ascii = omega arith; not_nul = omega arith; found = refl },
    (
      record { code = 2; ascii = omega arith; not_nul = omega arith; found = refl },
      (record { code = 65; ascii = omega arith; not_nul = omega arith; found = refl }, tt),
    ),
  ),
)

utf8_from_gsm8-utf8_to_gsm8_example : over utf8_from_gsm8 (utf8_to_gsm8 0 hello) ≡ some hello
utf8_from_gsm8-utf8_to_gsm8_example = utf8_from_gsm8-utf8_to_gsm8 0 hello hello-AllBasic

utf8_from_gsm7-utf8_to_gsm7_example :
    over (λ r. utf8_from_gsm7 ((0xaa ∷ []) ++ r.0) 11 4) (utf8_to_gsm7 0 hello 0x05 11)
    ≡ some (some hello)
utf8_from_gsm7-utf8_to_gsm7_example =
    utf8_from_gsm7-utf8_to_gsm7 0 0x05 11 hello (0xaa ∷ []) hello-AllBasic refl

bcdnum_to_ascii_unending_example : bcdnum_to_ascii (0x21 ∷ 0x43 ∷ []) 4 ≡ none
bcdnum_to_ascii_unending_example = bcdnum_to_ascii_unending (0x21 ∷ 0x43 ∷ []) 4 (omega arith)

ucs2_to_gsm7-ucs2_to_gsm8_example :
    from_gsm7_loop ucs2_step
      (length (ucs2_to_gsm8 (0 ∷ 0x41 ∷ [])))
      false
      3
      (ucs2_to_gsm7 (0 ∷ 0x41 ∷ []) 0 3).0
    ≡ some (decoded ucs2_step false (ucs2_to_gsm8 (0 ∷ 0x41 ∷ [])))
ucs2_to_gsm7-ucs2_to_gsm8_example = ucs2_to_gsm7-ucs2_to_gsm8 ucs2_step (0 ∷ 0x41 ∷ []) 0 3
