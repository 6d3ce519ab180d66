-- ===== src/Gsm/Utf8.antt =====
-- helper/gsm.c: UTF-8 and the UCS-2 of GSM, which has two bytes for a character, the high one first.
use Prim.Native.Nat.{bit_and, bit_or}
use sxx_ril.Common.{
  ℕ, zero, suc, ◌+◌, ◌-◌, ◌*◌, ◌/◌, ◌%◌, ◌^◌, ◌<◌, Bool, true, false, ◌&&◌, ◌||◌, Option, none,
  some, List, [], ◌∷◌, ◌++◌, length, ltb, leb, ◌==◌, if◌then◌else◌, Text, ◌≡◌, refl,
}
use sxx_ril.Common.Bits.{◌<<<◌, ◌>>>◌, u8}
pub mod Valid
pub mod Next
pub mod Skip

-- The bytes that `utf8_write` puts at `utf8 + offset`; it returns their number.
unfoldable pub utf8_write : ℕ → Text
utf8_write v =
    if ltb v 128
    then u8 v ∷ []
    else if ltb v 0x800
    then u8 (bit_or 0xc0 (v >>> 6)) ∷ u8 (bit_or 0x80 (bit_and v 0x3f)) ∷ []
    else if ltb v 0x10000
    then u8 (bit_or 0xe0 (v >>> 12))
      ∷ u8 (bit_or 0x80 (bit_and (v >>> 6) 0x3f))
      ∷ u8 (bit_or 0x80 (bit_and v 0x3f))
      ∷ []
    else u8 (bit_or 0xf0 (bit_and (v >>> 18) 0x7))
      ∷ u8 (bit_or 0x80 (bit_and (v >>> 12) 0x3f))
      ∷ u8 (bit_or 0x80 (bit_and (v >>> 6) 0x3f))
      ∷ u8 (bit_or 0x80 (bit_and v 0x3f))
      ∷ []

unfoldable pub ucs2_write : ℕ → Text
ucs2_write v = u8 (v >>> 8) ∷ u8 v ∷ []

-- `ucs2len` counts the pairs of bytes.
unfoldable pub ucs2_to_utf8 : List ℕ → Text
ucs2_to_utf8 (hi ∷ lo ∷ ucs2) = utf8_write (bit_or (hi <<< 8) lo) ++ ucs2_to_utf8 ucs2
ucs2_to_utf8 _ = []

-- `(c & 0xc0) == 0x80`.
abbrev pub is_tail : ℕ → Bool
is_tail c = bit_and c 0xc0 == 0x80

-- How many bytes follow a first byte of 128 or more; `none` is malformed.
abbrev pub tail_length : ℕ → Option ℕ
tail_length c =
    if bit_and c 0xe0 == 0xc0
    then some 1
    else if bit_and c 0xf0 == 0xe0
    then some 2
    else if bit_and c 0xf8 == 0xf0
    then some 3
    else none

-- Whether the string is not too short for what must follow, and then what the rest of it gives.
abbrev pub fits_tail : Option ℕ → ℕ → (ℕ → Bool) → Bool
fits_tail none left rest = false
fits_tail (some len) left rest = if ltb left len then false else rest len

-- The loop of `utf8_check` with `len` more bytes of a character to come.
unfoldable pub check_from : ℕ → Text → Bool
check_from zero [] = true
check_from zero (c ∷ p) =
    let rest = λ (len : ℕ). check_from len p in
    if leb 128 c then fits_tail (tail_length c) (length p) rest else rest 0
check_from (suc len) [] = false
check_from (suc len) (c ∷ p) = let rest = check_from len p in if is_tail c then rest else false

-- `utf8_check` on a pointer that is not NULL.
unfoldable pub utf8_check : Text → Bool
unfolding check_from
utf8_check p = check_from 0 p

-- `while (p < end && (p[0] & 0xc0) == 0x80) p++`.
unfoldable pub skip_tail : Text → Text
skip_tail [] = []
skip_tail (c ∷ p) = if is_tail c then skip_tail p else c ∷ p

-- What `utf8_skip` leaves. The test `p > end` lets it read the byte at `end`: that is `none`.
unfoldable pub utf8_skip : ℕ → Text → Option Text
unfolding skip_tail
utf8_skip zero p = some p
utf8_skip (suc count) [] = none
utf8_skip (suc count) (c ∷ p) = utf8_skip count (if ltb 128 c then skip_tail p else p)
