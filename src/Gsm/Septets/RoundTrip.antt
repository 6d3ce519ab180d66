-- ===== src/Gsm/Septets/RoundTrip.antt =====
-- helper/gsm.c: an ASCII text of the basic alphabet, packed at any offset and read back; and what
-- the packing returns.
use Prim.Native.Nat.{bit_and, bit_or}
use sxx_ril.Common.{
  ℕ, zero, suc, ◌+◌, ◌-◌, ◌*◌, ◌^◌, ◌<◌, Bool, true, false, Option, none, some, List, [], ◌∷◌, ◌++◌,
  drop, get_or, ltb, leb, ◌==◌, if◌then◌else◌, Text, ◌≡◌, ◌≢◌, refl, sym, ap, ◌∙◌, arith, length,
}
use sxx_ril.Common.Bits.{
  u8, ◌<<<◌, ◌>>>◌, below_8, and_low_1, and_low_2, and_low_3, and_low_4, and_low_5, and_low_6,
  and_low_7,
}
use sxx_ril.Gsm.Utf8.{utf8_write}
use sxx_ril.Gsm.Utf8.Next.{utf8_next, followed, over, utf8_next_ascii, utf8_write_ascii}
use sxx_ril.Gsm.Alphabet.{
  gsm7bits_to_unicode, gsm7bits_extend_to_unicode, gsm_7bits_escape, index_from, gsm_codes,
  unichar_to_gsm7_count, utf8_to_gsm7_count, at_least_1,
}
use sxx_ril.Gsm.Alphabet.Codes.{index_from-below, unichar_to_gsm7_iff, length-gsm_codes}
use sxx_ril.Gsm.Alphabet.RoundTrip.{AllBasic, not_escape, gsm_codes-basic}
use sxx_ril.Gsm.Septets.{
  BWriter, bwriter_init, bwriter_add7, bwriter_done, add_codes, on_char, Step, utf8_step,
  to_gsm7_loop, utf8_to_gsm7, from_gsm7_loop, utf8_from_gsm7, ucs2_to_gsm8, ucs2_to_gsm7_loop,
  ucs2_to_gsm7, ucs2_bytes, ucs2_pack,
}
use sxx_ril.Gsm.Septets.Pack.{AllSeptets, packed, out_of, decoded, read_packed, added, added_as}

text_codes : (s : Text) → AllBasic s → List ℕ
text_codes [] h = []
text_codes (c ∷ s) (b, h) = b.code ∷ text_codes s h

length-text_codes : (s : Text) (h : AllBasic s) → length (text_codes s h) ≡ length s
unfolding text_codes
length-text_codes [] h = refl
length-text_codes (c ∷ s) (b, h) = ap suc (length-text_codes s h)

text_codes-AllSeptets : (s : Text) (h : AllBasic s) → AllSeptets (text_codes s h)
unfolding text_codes AllSeptets
text_codes-AllSeptets [] h = tt
text_codes-AllSeptets (c ∷ s) (b, h) =
    (((unichar_to_gsm7_iff c b.code).0 b.found).0, text_codes-AllSeptets s h)

loop_codes :
    (fuel : ℕ) (w : BWriter) (s : Text) (h : AllBasic s)
    → to_gsm7_loop fuel w s ≡ some (bwriter_done (add_codes w (text_codes s h)))
unfolding to_gsm7_loop text_codes
loop_codes fuel w [] h = refl
loop_codes fuel w (c ∷ s) (b, h) = rw (utf8_next_ascii fuel c s b.ascii) (
    ap (λ (codes : List ℕ). to_gsm7_loop fuel (add_codes w codes) s) (gsm_codes-basic c b)
    ∙ loop_codes fuel (bwriter_add7 w b.code) s h)

plain_step :
    (k : ℕ)
    → k ≢ 0x1b
    → utf8_step false k
      ≡ record { text = utf8_write (get_or gsm7bits_to_unicode k 0); escaped = false }
plain_step k ne = rw (other k ne) refl
  where
    other : (k : ℕ) → k ≢ 0x1b → k == 0x1b ≡ false
    other k ne = ground arith

decoded_text : (s : Text) (h : AllBasic s) → decoded utf8_step false (text_codes s h) ≡ s
unfolding decoded text_codes
decoded_text [] h = refl
decoded_text (c ∷ s) (b, h) =
    ap (λ (t : Step). t.text ++ decoded utf8_step t.escaped (text_codes s h))
      (plain_step b.code (not_escape c b))
    ∙ ap (λ (v : ℕ). utf8_write v ++ decoded utf8_step false (text_codes s h))
        ((unichar_to_gsm7_iff c b.code).0 b.found).1
    ∙ ap (λ (t : Text). t ++ decoded utf8_step false (text_codes s h)) (utf8_write_ascii c b.ascii)
    ∙ ap (λ (t : Text). c ∷ t) (decoded_text s h)

mask_fits : (k x : ℕ) → k < 8 → (if ltb 0 k then bit_and x (2 ^ k - 1) else 0) < 2 ^ k
mask_fits k x h =
    below_8 (λ k. (if ltb 0 k then bit_and x (2 ^ k - 1) else 0) < 2 ^ k) (omega arith)
      (omega (arith, and_low_1 x)) (omega (arith, and_low_2 x)) (omega (arith, and_low_3 x))
      (omega (arith, and_low_4 x)) (omega (arith, and_low_5 x)) (omega (arith, and_low_6 x))
      (omega (arith, and_low_7 x)) k h

drop-append_length : (n : ℕ) (s t : List ℕ) → length s ≡ n → drop n (s ++ t) ≡ t
drop-append_length zero [] t e = refl
drop-append_length zero (x ∷ s) t e = absurd (omega (arith, e))
drop-append_length (suc n) [] t e = absurd (omega (arith, e))
drop-append_length (suc n) (x ∷ s) t e = drop-append_length n s t (omega (arith, e))

shift_below : (offset : ℕ) → bit_and offset 7 < 8
shift_below offset = omega (arith, and_low_3 offset)

-- An ASCII text of the basic alphabet is packed with any fuel, at any offset in bits and whatever
-- stands in the byte there before; and in a buffer that goes on with the bytes written, as many
-- septets as the text has characters are read from that offset as the same text.
pub utf8_from_gsm7-utf8_to_gsm7 :
    (fuel dst0 offset : ℕ) (s : Text) (before : List ℕ)
    → AllBasic s
    → length before ≡ offset >>> 3
    → over (λ r. utf8_from_gsm7 (before ++ r.0) offset (length s)) (utf8_to_gsm7 fuel s dst0 offset)
      ≡ some (some s)
unfolding utf8_to_gsm7 utf8_from_gsm7
utf8_from_gsm7-utf8_to_gsm7 fuel dst0 offset s before h e =
    ap (over (λ r. utf8_from_gsm7 (before ++ r.0) offset (length s))) (loop_codes fuel w s h)
    ∙ ap some (
        ap (from_gsm7_loop utf8_step (length s) false (bit_and offset 7))
          (drop-append_length (offset >>> 3) before _ e ∙ out_of w (text_codes s h))
        ∙ ap
            (λ (n : ℕ).
              from_gsm7_loop utf8_step n false (bit_and offset 7)
                (packed w.pad w.bits (text_codes s h)))
            (sym (length-text_codes s h))
        ∙ read_packed utf8_step false (bit_and offset 7) w.pad (text_codes s h) (shift_below offset)
            (mask_fits (bit_and offset 7) dst0 (shift_below offset)) (text_codes-AllSeptets s h)
        ∙ ap some (decoded_text s h))
  where
    w : BWriter
    w = bwriter_init dst0 offset

offset_add7 : (w : BWriter) (value : ℕ) → (bwriter_add7 w value).offset ≡ w.offset + 7
offset_add7 w value =
    ap (λ (v : BWriter). v.offset)
      (added_as (leb 8 (w.bits + 7)) w.out (bit_or w.pad (value <<< w.bits)) (w.bits + 7)
        (w.offset + 7))
    ∙ branch (leb 8 (w.bits + 7))
  where
    branch :
        (b : Bool)
        → (added b w.out (bit_or w.pad (value <<< w.bits)) (w.bits + 7) (w.offset + 7)).offset
          ≡ w.offset + 7
    branch true = refl
    branch false = refl

offset_codes :
    (w : BWriter) (codes : List ℕ) → (add_codes w codes).offset ≡ w.offset + 7 * length codes
offset_codes w [] = omega arith
offset_codes w (c ∷ codes) = omega (arith, offset_codes (bwriter_add7 w c) codes, offset_add7 w c)

offset_loop :
    (fuel : ℕ) (w : BWriter) (s : Text)
    → over (λ r. r.1) (to_gsm7_loop fuel w s)
      ≡ over (λ n. w.offset + 7 * n) (utf8_to_gsm7_count fuel s)
unfolding to_gsm7_loop utf8_to_gsm7_count
offset_loop fuel w [] = ap some (omega arith)
offset_loop fuel w (c ∷ s) =
    char (utf8_next fuel c s) (λ v. offset_loop fuel (add_codes w (gsm_codes v)) s)
  where
    more :
        (v : ℕ) (o : Option ℕ)
        → over (λ n. (add_codes w (gsm_codes v)).offset + 7 * n) o
          ≡ over
              (λ n. w.offset + 7 * n)
              (followed (λ m n. m + n) (some (at_least_1 (unichar_to_gsm7_count v))) o)
    more v none = refl
    more v (some n) = ap some (omega (arith, offset_codes w (gsm_codes v), length-gsm_codes v))

    char :
        (o : Option ℕ)
        → ((v : ℕ)
            → over (λ r. r.1) (to_gsm7_loop fuel (add_codes w (gsm_codes v)) s)
              ≡ over (λ n. (add_codes w (gsm_codes v)).offset + 7 * n) (utf8_to_gsm7_count fuel s))
        → over (λ r. r.1) (on_char o (λ v. to_gsm7_loop fuel (add_codes w (gsm_codes v)) s))
          ≡ over
              (λ n. w.offset + 7 * n)
              (followed
                (λ m n. m + n)
                (over (λ v. at_least_1 (unichar_to_gsm7_count v)) o)
                (utf8_to_gsm7_count fuel s))
    char none rest = refl
    char (some v) rest = rest v ∙ more v (utf8_to_gsm7_count fuel s)

-- With a buffer, `utf8_to_gsm7` returns the offset in bits behind the septets, and not their number,
-- which it returns without a buffer: `offset` and seven times that number, on every text.
pub utf8_to_gsm7-utf8_to_gsm7_count :
    (fuel dst0 offset : ℕ) (s : Text)
    → over (λ r. r.1) (utf8_to_gsm7 fuel s dst0 offset)
      ≡ over (λ n. offset + 7 * n) (utf8_to_gsm7_count fuel s)
unfolding utf8_to_gsm7
utf8_to_gsm7-utf8_to_gsm7_count fuel dst0 offset s = offset_loop fuel (bwriter_init dst0 offset) s

add_codes-append : (w : BWriter) (s t : List ℕ) → add_codes w (s ++ t) ≡ add_codes (add_codes w s) t
add_codes-append w [] t = refl
add_codes-append w (c ∷ s) t = add_codes-append (bwriter_add7 w c) s t

abbrev Below : Option ℕ → Type 0
Below none = Unit
Below (some nn) = nn < 128

found-Below :
    (table : List ℕ) (c : ℕ)
    → length table ≡ 128
    → (o : Option ℕ) → index_from 0 c table ≡ o
    → Below o
found-Below table c size none e = tt
found-Below table c size (some nn) e = omega (arith, size, index_from-below table c nn e)

basic-Below : (c : ℕ) → Below (index_from 0 c gsm7bits_to_unicode)
basic-Below c = found-Below gsm7bits_to_unicode c refl _ refl

extend-Below : (c : ℕ) → Below (index_from 0 c gsm7bits_extend_to_unicode)
extend-Below c = found-Below gsm7bits_extend_to_unicode c refl _ refl

u8_same : (nn : ℕ) → nn < 128 → u8 nn ≡ nn
u8_same nn h = omega (arith, h)

-- What one function packs for a character is what the other writes.
ucs2_pack-add_codes :
    (w : BWriter) (o e : Option ℕ)
    → Below o
    → Below e
    → ucs2_pack w o e ≡ add_codes w (ucs2_bytes o e)
ucs2_pack-add_codes w (some nn) e h k = ap (bwriter_add7 w) (sym (u8_same nn h))
ucs2_pack-add_codes w none (some nn) h k =
    ap (bwriter_add7 (bwriter_add7 w gsm_7bits_escape)) (sym (u8_same nn k))
ucs2_pack-add_codes w none none h k = refl

ucs2_bytes-AllSeptets :
    (o e : Option ℕ) (rest : List ℕ)
    → Below o
    → Below e
    → AllSeptets rest
    → AllSeptets (ucs2_bytes o e ++ rest)
unfolding AllSeptets
ucs2_bytes-AllSeptets (some nn) e rest h k all = (omega (arith, h), all)
ucs2_bytes-AllSeptets none (some nn) rest h k all = (omega arith, (omega (arith, k), all))
ucs2_bytes-AllSeptets none none rest h k all = (omega arith, all)

ucs2_to_gsm8-AllSeptets : (ucs2 : List ℕ) → AllSeptets (ucs2_to_gsm8 ucs2)
unfolding ucs2_to_gsm8 AllSeptets
ucs2_to_gsm8-AllSeptets [] = tt
ucs2_to_gsm8-AllSeptets (c ∷ ucs2) =
    ucs2_bytes-AllSeptets (index_from 0 c gsm7bits_to_unicode)
      (index_from 0 c gsm7bits_extend_to_unicode) (ucs2_to_gsm8 ucs2) (basic-Below c)
      (extend-Below c) (ucs2_to_gsm8-AllSeptets ucs2)

ucs2_loop :
    (w : BWriter) (ucs2 : List ℕ) → ucs2_to_gsm7_loop w ucs2 ≡ add_codes w (ucs2_to_gsm8 ucs2)
unfolding ucs2_to_gsm7_loop ucs2_to_gsm8
ucs2_loop w [] = refl
ucs2_loop w (c ∷ ucs2) =
    let o = index_from 0 c gsm7bits_to_unicode in
    let e = index_from 0 c gsm7bits_extend_to_unicode in
    ap (λ v. ucs2_to_gsm7_loop v ucs2) (ucs2_pack-add_codes w o e (basic-Below c) (extend-Below c))
    ∙ (ucs2_loop (add_codes w (ucs2_bytes o e)) ucs2
        ∙ sym (add_codes-append w (ucs2_bytes o e) (ucs2_to_gsm8 ucs2)))

-- Of any bytes, `ucs2_to_gsm7` packs, at any offset, exactly the codes that `ucs2_to_gsm8` writes for
-- them: read as septets they give what the same steps give for the codes.
pub ucs2_to_gsm7-ucs2_to_gsm8 :
    (step : Bool → ℕ → Step) (ucs2 : List ℕ) (dst0 offset : ℕ)
    → from_gsm7_loop step
        (length (ucs2_to_gsm8 ucs2))
        false
        (bit_and offset 7)
        (ucs2_to_gsm7 ucs2 dst0 offset).0
      ≡ some (decoded step false (ucs2_to_gsm8 ucs2))
unfolding ucs2_to_gsm7
ucs2_to_gsm7-ucs2_to_gsm8 step ucs2 dst0 offset =
    ap
      (λ (v : BWriter).
        from_gsm7_loop step (length (ucs2_to_gsm8 ucs2)) false (bit_and offset 7)
          (bwriter_done v).0)
      (ucs2_loop w ucs2)
    ∙ ap (from_gsm7_loop step (length (ucs2_to_gsm8 ucs2)) false (bit_and offset 7))
        (out_of w (ucs2_to_gsm8 ucs2))
    ∙ read_packed step false (bit_and offset 7) w.pad (ucs2_to_gsm8 ucs2) (shift_below offset)
        (mask_fits (bit_and offset 7) dst0 (shift_below offset)) (ucs2_to_gsm8-AllSeptets ucs2)
  where
    w : BWriter
    w = bwriter_init dst0 offset
