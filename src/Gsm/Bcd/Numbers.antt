-- ===== src/Gsm/Bcd/Numbers.antt =====
-- helper/gsm.c: what the conversions of numbers keep, and where they do not end.
use Prim.Native.Nat.{bit_and, bit_or}
use sxx_ril.Common.{
  ℕ, suc, ◌+◌, ◌/◌, ◌<◌, ◌≤◌, Bool, true, false, not, ◌&&◌, ◌||◌, Option, none, some, List, [], ◌∷◌,
  ltb, ◌==◌, if◌then◌else◌, Text, ◌≡◌, refl, ap, ◌∙◌, ◌↔◌, arith, length,
}
use sxx_ril.Common.Bits.{◌<<<◌, ◌>>>◌, u8, passes, passes_lem}
use sxx_ril.Gsm.Bcd.{
  int_to_bcdi, int_from_bcdi, bcdnum_to_ascii, to_ascii_nibble, bcd_code, Digits, write_at, or_stop,
  from_ascii_loop, bcdnum_from_ascii,
}

lost_table : passes (λ v. not (int_from_bcdi (int_to_bcdi v) == v) || v == 0) 100 ≡ true
unfolding passes int_from_bcdi int_to_bcdi
lost_table = refl

lost : (v w : ℕ) → not (w == v) || v == 0 ≡ true → w ≡ v → v ≡ 0
lost v w h e = ground arith

-- Of the numbers below 100, `gsm_int_from_bcdi` gives only 0 back from what `gsm_int_to_bcdi` makes
-- of it.
pub int_from_bcdi-int_to_bcdi : (v : ℕ) → v < 100 → (int_from_bcdi (int_to_bcdi v) ≡ v) ↔ (v ≡ 0)
int_from_bcdi-int_to_bcdi v h = (
  λ e.
      lost v _
        (passes_lem (λ v. not (int_from_bcdi (int_to_bcdi v) == v) || v == 0) 100 v lost_table h) e,
  λ e. rw e (unfold int_from_bcdi in unfold int_to_bcdi in refl),
)

two_nibbles :
    (count c d : ℕ) → 2 ≤ count → to_ascii_nibble count c (to_ascii_nibble count d none) ≡ none
two_nibbles count c d h = ground arith

-- For two or more nibbles `gsm_bcdnum_to_ascii` never returns: it reads behind the end of every
-- buffer, since its loop does not count down.
pub bcdnum_to_ascii_unending :
    (bcd : List ℕ) (count : ℕ) → 2 ≤ count → bcdnum_to_ascii bcd count ≡ none
unfolding bcdnum_to_ascii
bcdnum_to_ascii_unending [] count h = ground arith
bcdnum_to_ascii_unending (b ∷ bcd) count h =
    rw
      (
        bcdnum_to_ascii_unending bcd count h,
        positive count h,
        if◌then◌else◌,
        two_nibbles count (bit_and b 0xf) (bit_and (b >>> 4) 0xf) h,
      )
      refl
  where
    positive : (count : ℕ) → 2 ≤ count → ltb 0 count ≡ true
    positive count h = ground arith

abbrev pub has_code : Option ℕ → Bool
has_code none = false
has_code (some d) = true

-- Whether a text has only the characters of a number.
abbrev pub is_number : Text → Bool
is_number [] = true
is_number (c ∷ s) = has_code (bcd_code c) && is_number s

abbrev result_of : Bool → ℕ → Option ℕ
result_of b n = if b then some n else none

abbrev count_of : Digits → Option ℕ
count_of d = d.count

loop_count :
    (phase result : ℕ) (s : Text)
    → (from_ascii_loop phase result s).count ≡ result_of (is_number s) (result + length s)
unfolding from_ascii_loop
loop_count phase result [] = last (bit_and result 1 == 1)
  where
    last :
        (b : Bool)
        → count_of (
            if b
            then record { writes = (result / 2, u8 (bit_or phase 0xf0)) ∷ []; count = some result }
            else record { writes = []; count = some result })
          ≡ some (result + 0)
    last true = ap some (omega arith)
    last false = ap some (omega arith)
loop_count phase result (c ∷ s) =
    char (bcd_code c)
      (λ phase'. loop_count phase' (result + 1) s ∙ ap (result_of (is_number s)) (omega arith))
  where
    two :
        (b : Bool) (index byte : ℕ) (half full : Digits) (o : Option ℕ)
        → half.count ≡ o
        → full.count ≡ o
        → (if b then half else write_at index byte full).count ≡ o
    two true index byte half full o e f = e
    two false index byte half full o e f = f

    char :
        (o : Option ℕ)
        → ((phase' : ℕ)
            → (from_ascii_loop phase' (result + 1) s).count
              ≡ result_of (is_number s) (result + suc (length s)))
        → (or_stop o (λ d.
            if bit_and (bit_or (phase <<< 4) d) 0x100 == 0
            then from_ascii_loop (bit_or (phase <<< 4) d) (result + 1) s
            else write_at
                ((result + 1) / 2)
                (u8 (bit_or (phase <<< 4) d))
                (from_ascii_loop 0x01 (result + 1) s))).count
          ≡ result_of (has_code o && is_number s) (result + suc (length s))
    char none rest = refl
    char (some d) rest = two _ _ _ _ _ _ (rest _) (rest _)

-- `gsm_bcdnum_from_ascii` returns the number of characters of a text of digits, '*', '#', ',' and
-- 'N', and -1 for every other text.
pub bcdnum_from_ascii_count :
    (s : Text) → (bcdnum_from_ascii s).count ≡ (if is_number s then some (length s) else none)
unfolding bcdnum_from_ascii
bcdnum_from_ascii_count s = loop_count 0x01 0 s ∙ ap (result_of (is_number s)) (omega arith)

abbrev pub AllBehind : List (ℕ × ℕ) → Type 0
AllBehind [] = Unit
AllBehind (w ∷ writes) = (1 ≤ w.0) × AllBehind writes

AllBehind-if :
    (b : Bool) (half full : Digits)
    → AllBehind half.writes
    → AllBehind full.writes
    → AllBehind (if b then half else full).writes
AllBehind-if true half full h f = h
AllBehind-if false half full h f = f

AllBehind-loop :
    (phase result : ℕ) (s : Text)
    → 1 ≤ result
    → 2 ≤ result + length s
    → AllBehind (from_ascii_loop phase result s).writes
unfolding from_ascii_loop
AllBehind-loop phase result [] p h =
    AllBehind-if (bit_and result 1 == 1) _ _ (omega (arith, h), tt) tt
AllBehind-loop phase result (c ∷ s) p h =
    char (bcd_code c)
      (λ phase'. AllBehind-loop phase' (result + 1) s (omega arith) (omega (arith, p)))
  where
    char :
        (o : Option ℕ)
        → ((phase' : ℕ) → AllBehind (from_ascii_loop phase' (result + 1) s).writes)
        → AllBehind
            (or_stop o (λ d.
              if bit_and (bit_or (phase <<< 4) d) 0x100 == 0
              then from_ascii_loop (bit_or (phase <<< 4) d) (result + 1) s
              else write_at
                  ((result + 1) / 2)
                  (u8 (bit_or (phase <<< 4) d))
                  (from_ascii_loop 0x01 (result + 1) s))).writes
    char none rest = tt
    char (some d) rest =
        AllBehind-if _ _
          (write_at ((result + 1) / 2) (u8 (bit_or (phase <<< 4) d))
            (from_ascii_loop 0x01 (result + 1) s))
          (rest _) (omega (arith, p), rest _)

bcd_code-lt : (c d : ℕ) → bcd_code c ≡ some d → d < 16
unfolding bcd_code
bcd_code-lt c d e = ground arith

half_table : passes (λ d. bit_and (bit_or (0x01 <<< 4) d) 0x100 == 0) 16 ≡ true
unfolding passes
half_table = refl

-- For two or more characters `gsm_bcdnum_from_ascii` never writes the first byte of its buffer.
pub bcdnum_from_ascii-AllBehind : (s : Text) → 2 ≤ length s → AllBehind (bcdnum_from_ascii s).writes
unfolding bcdnum_from_ascii from_ascii_loop
bcdnum_from_ascii-AllBehind [] h = absurd (omega arith)
bcdnum_from_ascii-AllBehind (c ∷ s) h =
    char (bcd_code c) (bcd_code-lt c)
      (λ phase'. AllBehind-loop phase' (0 + 1) s (omega arith) (omega (arith, h)))
  where
    char :
        (o : Option ℕ)
        → ((d : ℕ) → o ≡ some d → d < 16)
        → ((phase' : ℕ) → AllBehind (from_ascii_loop phase' (0 + 1) s).writes)
        → AllBehind
            (or_stop o (λ d.
              if bit_and (bit_or (0x01 <<< 4) d) 0x100 == 0
              then from_ascii_loop (bit_or (0x01 <<< 4) d) (0 + 1) s
              else write_at
                  ((0 + 1) / 2)
                  (u8 (bit_or (0x01 <<< 4) d))
                  (from_ascii_loop 0x01 (0 + 1) s))).writes
    char none small rest = tt
    char (some d) small rest =
        rw
          (
            passes_lem (λ d. bit_and (bit_or (0x01 <<< 4) d) 0x100 == 0) 16 d half_table
                (small d refl),
            if◌then◌else◌,
          )
          (rest _)
