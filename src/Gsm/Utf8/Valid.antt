-- ===== src/Gsm/Utf8/Valid.antt =====
-- helper/gsm.c: what `utf8_write` gives is well-formed UTF-8.
use Prim.Native.Nat.{bit_and, bit_or}
use sxx_ril.Common.{
  ℕ, ◌+◌, ◌%◌, ◌<◌, ◌≤◌, Bool, true, false, Option, none, some, List, [], ◌∷◌, ◌++◌, length,
  length-append, ltb, leb, ◌==◌, ==_iff, if◌then◌else◌, Text, ◌≡◌, refl, ap, ◌∙◌, arith, if_both,
  tests,
}
use sxx_ril.Common.Bits.{u8, passes, passes_lem, or_left, and_low_3, and_low_6}
use sxx_ril.Gsm.Utf8.{utf8_write, ucs2_to_utf8, is_tail, tail_length, check_from, utf8_check}

tail_table : passes (λ n. is_tail (128 + n)) 64 ≡ true
unfolding passes
tail_table = refl

abbrev is_length : ℕ → Option ℕ → Bool
is_length n none = false
is_length n (some m) = m == n

is_length_lem : (n : ℕ) (o : Option ℕ) → is_length n o ≡ true → o ≡ some n
is_length_lem n none h = cc
is_length_lem n (some m) h = ap some ((==_iff m n).0 h)

two_table : passes (λ n. is_length 1 (tail_length (0xc0 + n))) 32 ≡ true
unfolding passes
two_table = refl

three_table : passes (λ n. is_length 2 (tail_length (0xe0 + n))) 16 ≡ true
unfolding passes
three_table = refl

four_table : passes (λ n. is_length 3 (tail_length (0xf0 + n))) 8 ≡ true
unfolding passes
four_table = refl

abbrev pub AreTails : Text → Type 0
AreTails [] = Unit
AreTails (c ∷ p) = (is_tail c ≡ true) × AreTails p

-- The form of what `utf8_write` gives: one ASCII byte, or a first byte and its tail.
pub data IsChar (v : ℕ) : Text → Type 0 where
  ascii : v < 128 → IsChar v (v ∷ [])
  long :
      (c : ℕ) (tails : Text)
      → 0xc0 ≤ c
      → c < 256
      → tail_length c ≡ some (length tails)
      → AreTails tails
      → IsChar v (c ∷ tails)

tail_byte : (x : ℕ) → is_tail (u8 (bit_or 0x80 (bit_and x 0x3f))) ≡ true
tail_byte x =
    rw (and_low_6 x, or_left 6 2 (x % 64) (omega arith))
      (ap is_tail {x = _ % 256} (omega arith)
        ∙ passes_lem (λ n. is_tail (128 + n)) 64 (x % 64) tail_table (omega arith))

first_two : (x : ℕ) → x < 32 → u8 (bit_or 0xc0 x) ≡ 0xc0 + x
first_two x h = omega (arith, or_left 6 3 x)

first_three : (x : ℕ) → x < 16 → u8 (bit_or 0xe0 x) ≡ 0xe0 + x
first_three x h = omega (arith, or_left 5 7 x)

first_four : (x : ℕ) → u8 (bit_or 0xf0 (bit_and x 7)) ≡ 0xf0 + x % 8
first_four x = rw (and_low_3 x) (omega (arith, or_left 4 15 (x % 8)))

length_two : (n : ℕ) → n < 32 → tail_length (0xc0 + n) ≡ some 1
length_two n h =
    is_length_lem 1 _ (passes_lem (λ n. is_length 1 (tail_length (0xc0 + n))) 32 n two_table h)

length_three : (n : ℕ) → n < 16 → tail_length (0xe0 + n) ≡ some 2
length_three n h =
    is_length_lem 2 _ (passes_lem (λ n. is_length 2 (tail_length (0xe0 + n))) 16 n three_table h)

length_four : (n : ℕ) → n < 8 → tail_length (0xf0 + n) ≡ some 3
length_four n h =
    is_length_lem 3 _ (passes_lem (λ n. is_length 3 (tail_length (0xf0 + n))) 8 n four_table h)

IsChar-two :
    (v x y : ℕ) → x < 32 → IsChar v (u8 (bit_or 0xc0 x) ∷ u8 (bit_or 0x80 (bit_and y 0x3f)) ∷ [])
IsChar-two v x y h =
    rw (first_two x h)
      (long _ _ (omega arith) (omega (arith, h)) (length_two x h) (tail_byte y, tt))

IsChar-three :
    (v x y z : ℕ)
    → x < 16
    → IsChar v (
        u8 (bit_or 0xe0 x)
        ∷ u8 (bit_or 0x80 (bit_and y 0x3f))
        ∷ u8 (bit_or 0x80 (bit_and z 0x3f))
        ∷ [])
IsChar-three v x y z h =
    rw (first_three x h) (
      long _ _ (omega arith) (omega (arith, h)) (length_three x h) (tail_byte y, (tail_byte z, tt)))

IsChar-four :
    (v x y z w : ℕ)
    → IsChar v (
        u8 (bit_or 0xf0 (bit_and x 7))
        ∷ u8 (bit_or 0x80 (bit_and y 0x3f))
        ∷ u8 (bit_or 0x80 (bit_and z 0x3f))
        ∷ u8 (bit_or 0x80 (bit_and w 0x3f))
        ∷ [])
IsChar-four v x y z w = rw (first_four x) (
    long _ _ (omega arith) (omega arith) (length_four (x % 8) (omega arith))
      (tail_byte y, (tail_byte z, (tail_byte w, tt))))

-- `utf8_write` gives one ASCII byte, or a first byte and as many tail bytes as it announces.
pub utf8_write-IsChar : (v : ℕ) → IsChar v (utf8_write v)
unfolding utf8_write
utf8_write-IsChar v =
    if_both (IsChar v) (ltb v 128) (λ e. rw (small v e) (ascii (omega (tests, e))))
      (λ e.
        if_both (IsChar v) (ltb v 0x800) (λ e. IsChar-two v _ _ (omega (tests, e)))
          (λ e.
            if_both (IsChar v) (ltb v 0x10000) (λ e. IsChar-three v _ _ _ (omega (tests, e)))
              (λ e. IsChar-four v _ _ _ _)))
  where
    small : (v : ℕ) → ltb v 128 ≡ true → v % 256 ≡ v
    small v e = omega (tests, e)

-- The check passes over a character and stands before the next one.
check_tails :
    (tails rest : Text)
    → AreTails tails
    → check_from (length tails) (tails ++ rest) ≡ check_from 0 rest
unfolding check_from
check_tails [] rest h = refl
check_tails (c ∷ tails) rest h = rw (h.0, if◌then◌else◌) (check_tails tails rest h.1)

check_char : (v : ℕ) (s rest : Text) → IsChar v s → check_from 0 (s ++ rest) ≡ check_from 0 rest
unfolding check_from
check_char v _ rest (ascii h) = ground arith
check_char v _ rest (long c tails lo hi l t) =
    rw (high c lo, if◌then◌else◌, l, room tails rest) (check_tails tails rest t)
  where
    high : (c : ℕ) → 0xc0 ≤ c → leb 128 c ≡ true
    high c lo = ground arith

    room : (tails rest : Text) → ltb (length (tails ++ rest)) (length tails) ≡ false
    room tails rest = ground (arith, length-append tails rest)

-- Whatever UCS-2 text is converted, the result passes `utf8_check`.
pub utf8_check-ucs2_to_utf8 : (ucs2 : List ℕ) → utf8_check (ucs2_to_utf8 ucs2) ≡ true
unfolding utf8_check ucs2_to_utf8
utf8_check-ucs2_to_utf8 [] = unfold check_from in refl
utf8_check-ucs2_to_utf8 (hi ∷ []) = unfold check_from in refl
utf8_check-ucs2_to_utf8 (hi ∷ lo ∷ ucs2) =
    check_char _ _ (ucs2_to_utf8 ucs2) (utf8_write-IsChar _) ∙ utf8_check-ucs2_to_utf8 ucs2
