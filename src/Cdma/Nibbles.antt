-- ===== src/Cdma/Nibbles.antt =====
-- helper/sms.c: one bit of a hexadecimal digit.
use sxx_ril.Common.{
  Bool-cases, inl, inr, false, ◌≢◌, ◌∙◌, ap, sym, ℕ, ◌+◌, ◌-◌, ◌/◌, ◌%◌, ◌<◌, Bool, true, ◌==◌, ltb,
  if◌then◌else◌, ◌≡◌, refl, arith, ==_iff, ltb→lt, if_both,
}
use Prim.Native.Nat.{bit_and, bit_or}
use sxx_ril.Common.Bits.{◌<<<◌, passes, passes_lem}
use sxx_ril.Cdma.{setbit, Memory, hex2int, hextable, getbit}

abbrev bit_of : ℕ → ℕ → ℕ
bit_of n j = if bit_and n (1 <<< j) == 0 then 0 else 1

pub hex2int-hextable : (n : ℕ) → n < 16 → hex2int (hextable n) ≡ n
unfolding hex2int hextable passes
hex2int-hextable n h = (==_iff _ _).0 (passes_lem (λ n. hex2int (hextable n) == n) 16 n refl h)

-- A bit that is set in a digit.
set_test : ℕ → ℕ → ℕ → ℕ → Bool
set_test n j v i =
    bit_of (bit_or n (v <<< j)) i == (if i == j then bit_or (bit_of n j) v else bit_of n i)

below_test : ℕ → ℕ → ℕ → Bool
below_test n j v = ltb (bit_or n (v <<< j)) 16

set_tests : passes (λ n. passes (λ j. passes (λ v. passes (λ i. set_test n j v i) 4) 2) 4) 16 ≡ true
unfolding passes set_test
set_tests = refl

below_tests : passes (λ n. passes (λ j. passes (λ v. below_test n j v) 2) 4) 16 ≡ true
unfolding passes below_test
below_tests = refl

pub bit_of-or :
    (n j v i : ℕ)
    → n < 16
    → j < 4
    → v < 2
    → i < 4
    → bit_of (bit_or n (v <<< j)) i ≡ (if i == j then bit_or (bit_of n j) v else bit_of n i)
unfolding set_test
bit_of-or n j v i hn hj hv hi = (==_iff _ _).0 (
    passes_lem (λ i. set_test n j v i) 4 i
      (passes_lem (λ v. passes (λ i. set_test n j v i) 4) 2 v
        (passes_lem (λ j. passes (λ v. passes (λ i. set_test n j v i) 4) 2) 4 j
          (passes_lem (λ n. passes (λ j. passes (λ v. passes (λ i. set_test n j v i) 4) 2) 4) 16 n
            set_tests hn)
          hj)
        hv)
      hi)

pub or_below : (n j v : ℕ) → n < 16 → j < 4 → v < 2 → bit_or n (v <<< j) < 16
unfolding below_test
or_below n j v hn hj hv = ltb→lt _ _ (
    passes_lem (λ v. below_test n j v) 2 v
      (passes_lem (λ j. passes (λ v. below_test n j v) 2) 4 j
        (passes_lem (λ n. passes (λ j. passes (λ v. below_test n j v) 2) 4) 16 n below_tests hn) hj)
      hv)

-- A bit that is read is 0 or 1.
pub getbit-below : (m : Memory) (s b : ℕ) → getbit m s b < 2
unfolding getbit
getbit-below m s b =
    if_both (λ g. g < 2) (bit_and (hex2int (m (s + b / 4))) (1 <<< (3 - b % 4)) == 0)
      (λ e. omega arith) (λ e. omega arith)

ne_test : (x y : ℕ) → x ≢ y → (x == y) ≡ false
ne_test x y ne = elim (Bool-cases (x == y)) [ inl e ↦ absurd (ne ((==_iff x y).0 e)) | inr e ↦ e ]

module _ (m : Memory) (s b v : ℕ) (below : v < 2) (digit : hex2int (m (s + b / 4)) < 16) where
  digit_below : bit_or (hex2int (m (s + b / 4))) (v <<< (3 - b % 4)) < 16
  digit_below = or_below (hex2int (m (s + b / 4))) (3 - b % 4) v digit (omega arith) below

  pub getbit-setbit_same : getbit (setbit m s b v) s b ≡ bit_or (getbit m s b) v
  unfolding getbit setbit
  getbit-setbit_same =
      rw ((==_iff (s + b / 4) (s + b / 4)).1 refl, if◌then◌else◌, hex2int-hextable _ digit_below)
        (bit_of-or (hex2int (m (s + b / 4))) (3 - b % 4) v (3 - b % 4) digit (omega arith) below
            (omega arith)
          ∙ ap
              (λ (t : Bool).
                if t
                then bit_or (bit_of (hex2int (m (s + b / 4))) (3 - b % 4)) v
                else bit_of (hex2int (m (s + b / 4))) (3 - b % 4))
              ((==_iff (3 - b % 4) (3 - b % 4)).1 refl))

  pub getbit-setbit_other : (c : ℕ) → b ≢ c → getbit (setbit m s b v) s c ≡ getbit m s c
  unfolding getbit setbit
  getbit-setbit_other c ne = by_byte (s + c / 4 == s + b / 4) refl
    where
      n : ℕ
      n = hex2int (m (s + b / 4))

      other_bit : s + c / 4 ≡ s + b / 4 → 3 - c % 4 ≡ 3 - b % 4 → b ≡ c
      other_bit e h = omega (arith, e, h)

      by_byte :
          (t : Bool)
          → (s + c / 4 == s + b / 4) ≡ t
          → bit_of
              (hex2int (if t then hextable (bit_or n (v <<< (3 - b % 4))) else m (s + c / 4)))
              (3 - c % 4)
            ≡ bit_of (hex2int (m (s + c / 4))) (3 - c % 4)
      by_byte false e = refl
      by_byte true e =
          ap (λ d. bit_of d (3 - c % 4))
            (hex2int-hextable (bit_or n (v <<< (3 - b % 4))) digit_below)
          ∙ (bit_of-or n (3 - b % 4) v (3 - c % 4) digit (omega arith) below (omega arith)
              ∙ (ap
                    (λ (t : Bool).
                      if t then bit_or (bit_of n (3 - b % 4)) v else bit_of n (3 - c % 4))
                    (ne_test (3 - c % 4) (3 - b % 4)
                      (λ h. ne (other_bit ((==_iff (s + c / 4) (s + b / 4)).0 e) h)))
                  ∙ ap (λ a. bit_of (hex2int (m a)) (3 - c % 4))
                      (sym ((==_iff (s + c / 4) (s + b / 4)).0 e))))

  -- A digit stays a digit.
  pub hex2int-setbit_below : (a : ℕ) → hex2int (m a) < 16 → hex2int (setbit m s b v a) < 16
  unfolding setbit
  hex2int-setbit_below a h = by_address (a == s + b / 4)
    where
      by_address :
          (t : Bool)
          → hex2int
              (if t then hextable (bit_or (hex2int (m (s + b / 4))) (v <<< (3 - b % 4))) else m a)
            < 16
      by_address false = h
      by_address true = omega (arith, digit_below, hex2int-hextable _ digit_below)
