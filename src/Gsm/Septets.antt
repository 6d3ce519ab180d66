-- ===== src/Gsm/Septets.antt =====
-- helper/gsm.c: texts packed into septets, seven bits for each code, from any offset in bits.
use Prim.Native.Nat.{bit_and, bit_or}
use sxx_ril.Common.{
  ℕ, zero, suc, ◌+◌, ◌-◌, ◌*◌, ◌/◌, ◌%◌, ◌^◌, Bool, true, false, Option, none, some, List, [], ◌∷◌,
  ◌++◌, get_or, drop, ltb, leb, ◌==◌, if◌then◌else◌, Text,
}
use sxx_ril.Common.Bits.{◌<<<◌, ◌>>>◌, u8}
use sxx_ril.Gsm.Utf8.{utf8_write, ucs2_write}
use sxx_ril.Gsm.Utf8.Next.{utf8_next, followed, over}
use sxx_ril.Gsm.Alphabet.{
  gsm_7bits_escape, gsm7bits_to_unicode, gsm7bits_extend_to_unicode, gsm_codes, index_from,
}
pub mod Shifts
pub mod Pack
pub mod RoundTrip

-- `BWriterRec`; `out` are the bytes written so far, from `dst` on.
pub record BWriter : Type 0 where
  out : List ℕ
  pad : ℕ
  bits : ℕ
  offset : ℕ

-- `dst0` is the byte at `dst + (start >> 3)`, of which `~(0xFF << shift)` keeps the low bits.
abbrev pub bwriter_init : ℕ → ℕ → BWriter
bwriter_init dst0 start =
    let shift = bit_and start 7 in
    record {
      out = [];
      pad = if ltb 0 shift then bit_and dst0 (2 ^ shift - 1) else 0;
      bits = shift;
      offset = start;
    }

abbrev pub bwriter_add7 : BWriter → ℕ → BWriter
bwriter_add7 writer value =
    let pad = bit_or writer.pad (value <<< writer.bits) in
    let bits = writer.bits + 7 in
    if leb 8 bits
    then record {
      out = writer.out ++ (u8 pad ∷ []);
      pad = pad >>> 8;
      bits = bits - 8;
      offset = writer.offset + 7;
    }
    else record { out = writer.out; pad = pad; bits = bits; offset = writer.offset + 7 }

-- The bytes, and the offset that is returned.
abbrev pub bwriter_done : BWriter → List ℕ × ℕ
bwriter_done writer =
    (if ltb 0 writer.bits then writer.out ++ (u8 writer.pad ∷ []) else writer.out, writer.offset)

-- `bwriter_add7` for one or two codes of a character.
abbrev pub add_codes : BWriter → List ℕ → BWriter
add_codes writer [] = writer
add_codes writer (c ∷ codes) = add_codes (bwriter_add7 writer c) codes

abbrev pub on_char {ℓ} : {A : Type ℓ} → Option ℕ → (ℕ → Option A) → Option A
on_char none k = none
on_char (some v) k = k v

-- The loop of `utf8_to_gsm7`.
unfoldable pub to_gsm7_loop : ℕ → BWriter → Text → Option (List ℕ × ℕ)
to_gsm7_loop fuel writer [] = some (bwriter_done writer)
to_gsm7_loop fuel writer (c ∷ p) =
    on_char (utf8_next fuel c p) (λ v. to_gsm7_loop fuel (add_codes writer (gsm_codes v)) p)

-- `utf8_to_gsm7` on a `dst` that is not NULL, whose byte at `offset >> 3` is `dst0`.
unfoldable pub utf8_to_gsm7 : ℕ → Text → ℕ → ℕ → Option (List ℕ × ℕ)
unfolding to_gsm7_loop
utf8_to_gsm7 fuel utf8 dst0 offset = to_gsm7_loop fuel (bwriter_init dst0 offset) utf8

-- What `ucs2_to_gsm8` writes for a character, by the indices that its two loops find.
abbrev pub ucs2_bytes : Option ℕ → Option ℕ → List ℕ
ucs2_bytes (some nn) extend = u8 nn ∷ []
ucs2_bytes none (some nn) = u8 gsm_7bits_escape ∷ u8 nn ∷ []
ucs2_bytes none none = 0x20 ∷ []

-- `ucs2_to_gsm8`, which takes each byte for a character.
unfoldable pub ucs2_to_gsm8 : List ℕ → List ℕ
ucs2_to_gsm8 [] = []
ucs2_to_gsm8 (c ∷ ucs2) =
    ucs2_bytes (index_from 0 c gsm7bits_to_unicode) (index_from 0 c gsm7bits_extend_to_unicode)
    ++ ucs2_to_gsm8 ucs2

-- What `ucs2_to_gsm7` packs for a character, by the indices that its two loops find.
abbrev pub ucs2_pack : BWriter → Option ℕ → Option ℕ → BWriter
ucs2_pack writer (some nn) extend = bwriter_add7 writer nn
ucs2_pack writer none (some nn) = bwriter_add7 (bwriter_add7 writer gsm_7bits_escape) nn
ucs2_pack writer none none = bwriter_add7 writer 0x20

-- The loop of `ucs2_to_gsm7`, which takes each byte for a character too.
unfoldable pub ucs2_to_gsm7_loop : BWriter → List ℕ → BWriter
ucs2_to_gsm7_loop writer [] = writer
ucs2_to_gsm7_loop writer (c ∷ ucs2) =
    ucs2_to_gsm7_loop
      (ucs2_pack writer (index_from 0 c gsm7bits_to_unicode)
        (index_from 0 c gsm7bits_extend_to_unicode))
      ucs2

unfoldable pub ucs2_to_gsm7 : List ℕ → ℕ → ℕ → List ℕ × ℕ
unfolding ucs2_to_gsm7_loop
ucs2_to_gsm7 ucs2 dst0 offset = bwriter_done (ucs2_to_gsm7_loop (bwriter_init dst0 offset) ucs2)

-- The code at the bit `shift`; `none` is a read behind the end of the buffer.
abbrev pub septet_at : ℕ → List ℕ → Option ℕ
septet_at shift [] = none
septet_at shift (x ∷ []) = if ltb 1 shift then none else some (bit_and (x >>> shift) 0x7f)
septet_at shift (x ∷ y ∷ src) =
    let c = bit_and (x >>> shift) 0x7f in
    some (if ltb 1 shift then bit_and (bit_or (y <<< (8 - shift)) c) 0x7f else c)

-- What one code does: the bytes that are written, and `escaped` from then on.
pub record Step : Type 0 where
  text : Text
  escaped : Bool

abbrev pub utf8_step : Bool → ℕ → Step
utf8_step escaped c =
    if escaped
    then record { text = utf8_write (get_or gsm7bits_extend_to_unicode c 0); escaped = true }
    else if c == gsm_7bits_escape
    then record { text = []; escaped = true }
    else record { text = utf8_write (get_or gsm7bits_to_unicode c 0); escaped = false }

abbrev or_space : ℕ → ℕ
or_space val = if val == 0 then 0x20 else val

abbrev pub ucs2_step : Bool → ℕ → Step
ucs2_step escaped val =
    if escaped
    then record { text = ucs2_write (get_or gsm7bits_to_unicode val 0); escaped = false }
    else if val == gsm_7bits_escape
    then record { text = []; escaped = true }
    else record {
      text = ucs2_write (or_space (get_or gsm7bits_extend_to_unicode val 0));
      escaped = false;
    }

-- `shift += 7; if (shift >= 8) { shift -= 8; src += 1; }`.
abbrev pub next_shift : ℕ → ℕ
next_shift shift = if leb 8 (shift + 7) then shift + 7 - 8 else shift + 7

abbrev pub next_src : ℕ → List ℕ → List ℕ
next_src shift src = if leb 8 (shift + 7) then drop 1 src else src

-- The loop that `utf8_from_gsm7` and `ucs2_from_gsm7` share, with their steps.
unfoldable pub from_gsm7_loop : (Bool → ℕ → Step) → ℕ → Bool → ℕ → List ℕ → Option Text
from_gsm7_loop step zero escaped shift src = some []
from_gsm7_loop step (suc septet_count) escaped shift src = on_char (septet_at shift src) (λ c.
    over (λ rest. (step escaped c).text ++ rest)
      (from_gsm7_loop step septet_count (step escaped c).escaped (next_shift shift)
        (next_src shift src)))

unfoldable pub utf8_from_gsm7 : List ℕ → ℕ → ℕ → Option Text
unfolding from_gsm7_loop
utf8_from_gsm7 src septet_offset septet_count =
    from_gsm7_loop utf8_step septet_count false (bit_and septet_offset 7)
      (drop (septet_offset >>> 3) src)

unfoldable pub ucs2_from_gsm7 : List ℕ → ℕ → ℕ → Option Text
unfolding from_gsm7_loop
ucs2_from_gsm7 src septet_offset septet_count =
    from_gsm7_loop ucs2_step septet_count false (bit_and septet_offset 7)
      (drop (septet_offset >>> 3) src)
