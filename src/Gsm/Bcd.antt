-- ===== src/Gsm/Bcd.antt =====
-- helper/gsm.c: numbers and telephone numbers in decimal nibbles.
use Prim.Native.Nat.{bit_and, bit_or}
use sxx_ril.Common.{
  ℕ, zero, suc, ◌+◌, ◌-◌, ◌*◌, ◌/◌, ◌%◌, ◌^◌, Bool, true, false, not, ◌&&◌, Option, none, some,
  List, [], ◌∷◌, ltb, leb, ◌==◌, if◌then◌else◌, Text, codes, get_or,
}
use sxx_ril.Common.Bits.{◌<<<◌, ◌>>>◌, u8}
pub mod Numbers

unfoldable pub int_to_bcdi : ℕ → ℕ
int_to_bcdi value = u8 (bit_or (value / 10) (value % 10 <<< 4))

unfoldable pub int_from_bcdi : ℕ → ℕ
int_from_bcdi val =
    let ret = if leb (bit_and val 0xf0) 0x90 then val >>> 4 else 0 in
    if leb (bit_and val 0x0f) 0x90 then bit_or ret (val % 0xf * 10) else ret

abbrev bcd_chars : Text
bcd_chars = codes "0123456789*#,N"

abbrev pub with_char : ℕ → Option Text → Option Text
with_char c none = none
with_char c (some t) = some (c ∷ t)

-- One round of the loop of `gsm_bcdnum_to_ascii` on the nibble `c`, which leaves `count` as it is.
abbrev pub to_ascii_nibble : ℕ → ℕ → Option Text → Option Text
to_ascii_nibble count c rest =
    if c == 15 && count == 1
    then some []
    else with_char (get_or bcd_chars (if leb 14 c then 0 else c) 0) rest

-- `gsm_bcdnum_to_ascii` on a buffer; `none` is a read behind its end.
unfoldable pub bcdnum_to_ascii : List ℕ → ℕ → Option Text
bcdnum_to_ascii [] count = if ltb 0 count then none else some []
bcdnum_to_ascii (b ∷ bcd) count =
    let rest = bcdnum_to_ascii bcd count in
    if ltb 0 count
    then to_ascii_nibble count (bit_and b 0xf) (to_ascii_nibble count (bit_and (b >>> 4) 0xf) rest)
    else some []

-- The code of a character; `none` is the return of -1.
unfoldable pub bcd_code : ℕ → Option ℕ
bcd_code c =
    if c == b'*'
    then some 10
    else if c == b'#'
    then some 11
    else if c == b','
    then some 12
    else if c == b'N'
    then some 13
    else if leb b'0' c && ltb (c - b'0') 10
    then some (c - b'0')
    else none

-- The bytes written, with their index in `dst`, and the result, `none` for -1.
pub record Digits : Type 0 where
  pub writes : List (ℕ × ℕ)
  pub count : Option ℕ

abbrev pub write_at : ℕ → ℕ → Digits → Digits
write_at index byte d = record d { writes = (index, byte) ∷ d.writes }

abbrev pub or_stop : Option ℕ → (ℕ → Digits) → Digits
or_stop none k = record { writes = []; count = none }
or_stop (some c) k = k c

-- The loop of `gsm_bcdnum_from_ascii`, and the last nibble of an odd number.
unfoldable pub from_ascii_loop : ℕ → ℕ → Text → Digits
from_ascii_loop phase result [] =
    if bit_and result 1 == 1
    then record { writes = (result / 2, u8 (bit_or phase 0xf0)) ∷ []; count = some result }
    else record { writes = []; count = some result }
from_ascii_loop phase result (c ∷ ascii) = or_stop (bcd_code c) (λ d.
    let phase' = bit_or (phase <<< 4) d in
    let full = from_ascii_loop 0x01 (result + 1) ascii in
    let half = from_ascii_loop phase' (result + 1) ascii in
    if bit_and phase' 0x100 == 0 then half else write_at ((result + 1) / 2) (u8 phase') full)

unfoldable pub bcdnum_from_ascii : Text → Digits
unfolding from_ascii_loop
bcdnum_from_ascii ascii = from_ascii_loop 0x01 0 ascii
