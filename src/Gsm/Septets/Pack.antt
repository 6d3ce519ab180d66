-- ===== src/Gsm/Septets/Pack.antt =====
-- helper/gsm.c: what the bit writer writes, the septet reader reads.
use Prim.Native.Nat.{bit_and, bit_or}
use sxx_ril.Common.{
  ℕ, zero, suc, ◌+◌, ◌-◌, ◌*◌, ◌/◌, ◌%◌, ◌^◌, ◌<◌, Bool, true, false, some, List, [], ◌∷◌, ◌++◌,
  drop, ltb, leb, if◌then◌else◌, Text, ◌≡◌, refl, sym, ap, ◌∙◌, arith, append_assoc, append-nil,
  length,
}
use sxx_ril.Common.Bits.{◌<<<◌, ◌>>>◌, u8, or_right, and_low_7}
use sxx_ril.Gsm.Utf8.Next.{over}
use sxx_ril.Gsm.Septets.{
  BWriter, bwriter_add7, bwriter_done, add_codes, on_char, septet_at, Step, next_shift, next_src,
  from_gsm7_loop,
}
use sxx_ril.Gsm.Septets.Shifts.{low_part, pending, pending-lt, septet_value, carry}

-- The bytes that the writer has still to write for some codes.
pub packed : ℕ → ℕ → List ℕ → List ℕ
packed pad bits [] = if ltb 0 bits then u8 pad ∷ [] else []
packed pad bits (c ∷ codes) =
    let full = packed (bit_or pad (c <<< bits) >>> 8) (bits + 7 - 8) codes in
    let more = packed (bit_or pad (c <<< bits)) (bits + 7) codes in
    if leb 8 (bits + 7) then u8 (bit_or pad (c <<< bits)) ∷ full else more

unfoldable pub AllSeptets : List ℕ → Type 0
AllSeptets [] = Unit
AllSeptets (c ∷ codes) = (c < 128) × AllSeptets codes

abbrev pub added : Bool → List ℕ → ℕ → ℕ → ℕ → BWriter
added true out pad bits offset = record {
  out = out ++ (u8 pad ∷ []);
  pad = pad >>> 8;
  bits = bits - 8;
  offset = offset;
}
added false out pad bits offset = record { out = out; pad = pad; bits = bits; offset = offset }

pub added_as :
    (b : Bool) (out : List ℕ) (pad bits offset : ℕ)
    → (if b
        then record {
          out = out ++ (u8 pad ∷ []);
          pad = pad >>> 8;
          bits = bits - 8;
          offset = offset;
        }
        else record { out = out; pad = pad; bits = bits; offset = offset })
      ≡ added b out pad bits offset
added_as true out pad bits offset = refl
added_as false out pad bits offset = refl

packed-added :
    (b : Bool) (out : List ℕ) (pad bits offset : ℕ) (codes : List ℕ)
    → (added b out pad bits offset).out
        ++ packed (added b out pad bits offset).pad (added b out pad bits offset).bits codes
      ≡ out ++ (if b then u8 pad ∷ packed (pad >>> 8) (bits - 8) codes else packed pad bits codes)
packed-added true out pad bits offset codes = append_assoc out (u8 pad ∷ []) _
packed-added false out pad bits offset codes = refl

last_byte :
    (b : Bool) (out s : List ℕ) → (if b then out ++ s else out) ≡ out ++ (if b then s else [])
last_byte true out s = refl
last_byte false out s = sym (append-nil out)

-- What the writer has in the end is what it had, and the packed codes.
pub out_of :
    (w : BWriter) (codes : List ℕ)
    → (bwriter_done (add_codes w codes)).0 ≡ w.out ++ packed w.pad w.bits codes
unfolding packed
out_of w [] = last_byte (ltb 0 w.bits) w.out (u8 w.pad ∷ [])
out_of w (c ∷ codes) =
    out_of (bwriter_add7 w c) codes
    ∙ ap (λ (v : BWriter). v.out ++ packed v.pad v.bits codes)
        (added_as (leb 8 (w.bits + 7)) w.out (bit_or w.pad (c <<< w.bits)) (w.bits + 7)
          (w.offset + 7))
    ∙ packed-added (leb 8 (w.bits + 7)) w.out (bit_or w.pad (c <<< w.bits)) (w.bits + 7)
        (w.offset + 7) codes

-- The first byte, with the low bits that are pending.
First : ℕ → ℕ → List ℕ → Type 0
First pad bits s = (x : ℕ) × (rest : List ℕ) × (s ≡ x ∷ rest) × (x < 256) × (x % 2 ^ bits ≡ pad)

positive : (bits : ℕ) → 0 < bits → ltb 0 bits ≡ true
positive bits p = ground arith

full : (bits : ℕ) → 0 < bits → leb 8 (bits + 7) ≡ true
full bits p = ground arith

-- Pending bits stand in the first byte.
First-byte :
    (bits pad : ℕ) (codes : List ℕ)
    → bits < 8
    → 0 < bits
    → pad < 2 ^ bits
    → First pad bits (packed pad bits codes)
unfolding packed First
First-byte bits pad [] b p h = (
  u8 pad,
  [],
  rw (positive bits p) refl,
  omega arith,
  ap (λ (n : ℕ). n % 256 % 2 ^ bits) {x = pad} {y = pad + 0 * 2 ^ bits} (omega arith)
      ∙ low_part bits pad 0 b p h,
)
First-byte bits pad (c ∷ codes) b p h = (
  u8 (bit_or pad (c <<< bits)),
  packed (bit_or pad (c <<< bits) >>> 8) (bits + 7 - 8) codes,
  rw (full bits p) refl,
  omega arith,
  ap (λ (n : ℕ). n % 256 % 2 ^ bits) (or_right bits c pad h) ∙ low_part bits pad c b p h,
)

-- The reader at the bit where the writer stood goes on where the writer went on.
next_packed :
    (bits pad c : ℕ) (codes : List ℕ)
    → pad < 2 ^ bits
    → next_src bits (packed pad bits (c ∷ codes))
      ≡ packed (pending bits pad c) (next_shift bits) codes
unfolding packed pending
next_packed bits pad c codes h = rw (or_right bits c pad h) (branch (leb 8 (bits + 7)))
  where
    branch :
        (b : Bool)
        → (if b
            then drop 1 (
                if b
                then u8 (pad + c * 2 ^ bits)
                  ∷ packed ((pad + c * 2 ^ bits) >>> 8) (bits + 7 - 8) codes
                else packed (pad + c * 2 ^ bits) (bits + 7) codes)
            else (if b
                then u8 (pad + c * 2 ^ bits)
                  ∷ packed ((pad + c * 2 ^ bits) >>> 8) (bits + 7 - 8) codes
                else packed (pad + c * 2 ^ bits) (bits + 7) codes))
          ≡ packed
              (if b then (pad + c * 2 ^ bits) / 256 else pad + c * 2 ^ bits)
              (if b then bits + 7 - 8 else bits + 7)
              codes
    branch true = refl
    branch false = refl

one_byte :
    (bits x : ℕ) (src : List ℕ)
    → ltb 1 bits ≡ false
    → septet_at bits (x ∷ src) ≡ some (bit_and (x >>> bits) 0x7f)
one_byte bits x [] e = rw e refl
one_byte bits x (y ∷ src) e = rw e refl

-- With bits pending, a code fills the first byte.
packed_full :
    (bits pad c : ℕ) (codes : List ℕ)
    → 0 < bits
    → pad < 2 ^ bits
    → packed pad bits (c ∷ codes)
      ≡ u8 (pad + c * 2 ^ bits) ∷ packed ((pad + c * 2 ^ bits) / 256) (bits - 1) codes
unfolding packed
packed_full bits pad c codes p h =
    rw (or_right bits c pad h, full bits p, if◌then◌else◌)
      (ap (λ (k : ℕ). u8 (pad + c * 2 ^ bits) ∷ packed ((pad + c * 2 ^ bits) / 256) k codes)
        (omega arith))

septet_split :
    (bits pad c : ℕ) (s : List ℕ)
    → bits < 8
    → 1 < bits
    → pad < 2 ^ bits
    → c < 128
    → First ((pad + c * 2 ^ bits) / 256) (bits - 1) s
    → septet_at bits (u8 (pad + c * 2 ^ bits) ∷ s) ≡ some c
unfolding First
septet_split bits pad c s b p h l (y, src, e, _, m) =
    rw (e, several bits p, if◌then◌else◌) (ap some (septet_value bits pad c y b p h l m))
  where
    several : (bits : ℕ) → 1 < bits → ltb 1 bits ≡ true
    several bits p = ground arith

septet_packed :
    (bits pad c : ℕ) (codes : List ℕ)
    → bits < 8
    → pad < 2 ^ bits
    → c < 128
    → septet_at bits (packed pad bits (c ∷ codes)) ≡ some c
unfolding First pending
septet_packed zero pad c codes b h l =
    let first =
      First-byte 7 (pad + c * 1) codes (omega arith) (omega arith) (omega (arith, h, l)) in
    ap (septet_at 0) (next_packed 0 pad c codes h ∙ first.2)
    ∙ one_byte 0 first.0 first.1 refl
    ∙ ap some (and_low_7 _ ∙ (omega (arith, first.4, h)))
septet_packed (suc zero) pad c codes b h l =
    ap (septet_at 1) (packed_full 1 pad c codes (omega arith) h)
    ∙ one_byte 1 _ _ refl
    ∙ ap some (and_low_7 _ ∙ (omega (arith, h, l)))
septet_packed (suc (suc n)) pad c codes b h l =
    let bits = suc (suc n) in
    ap (septet_at bits) (packed_full bits pad c codes (omega arith) h)
    ∙ septet_split bits pad c _ b (omega arith) h l (
        First-byte (bits - 1) _ codes (omega (arith, b)) (omega arith)
          (carry bits pad c b (omega arith) h l))

-- What the steps of the reader write for the codes.
unfoldable pub decoded : (Bool → ℕ → Step) → Bool → List ℕ → Text
decoded step escaped [] = []
decoded step escaped (c ∷ codes) =
    (step escaped c).text ++ decoded step (step escaped c).escaped codes

pub read_packed :
    (step : Bool → ℕ → Step) (escaped : Bool) (bits pad : ℕ) (codes : List ℕ)
    → bits < 8
    → pad < 2 ^ bits
    → AllSeptets codes
    → from_gsm7_loop step (length codes) escaped bits (packed pad bits codes)
      ≡ some (decoded step escaped codes)
unfolding from_gsm7_loop decoded AllSeptets
read_packed step escaped bits pad [] b h a = refl
read_packed step escaped bits pad (c ∷ codes) b h (l, a) =
    let room = pending-lt bits pad c b h l in
    rw (septet_packed bits pad c codes b h l, on_char, next_packed bits pad c codes h)
      (ap (over (λ rest. (step escaped c).text ++ rest)) (
        read_packed step (step escaped c).escaped (next_shift bits) (pending bits pad c) codes
          room.1 room.0 a))
