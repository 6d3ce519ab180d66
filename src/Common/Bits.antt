-- ===== src/Common/Bits.antt =====
-- Bytes and bit fields: the shifts, `|` and `&` of C on numbers that are not negative.
use Prim.Native.Nat.{
  ℕ, zero, suc, ◌+◌, ◌*◌, ◌/◌, ◌%◌, ◌^◌, ◌≤◌, ◌<◌, max, min, digits, bit_and, bit_or,
  bit_and-bitwise, bit_or-bitwise,
}
use mathlib.Core.Path.{◌≡◌, refl, ap}
use mathlib.Core.Bool.{Bool, true, ◌&&◌}
use mathlib.Core.List.{List, [], ◌∷◌}
use native.Mathlib.Nat.{pow-suc}
use native.Mathlib.Omega.{arith}

infixl 75 ◌<<<◌ ◌>>>◌
abbrev pub ◌<<<◌ : ℕ → ℕ → ℕ
x <<< k = x * 2 ^ k

abbrev pub ◌>>>◌ : ℕ → ℕ → ℕ
x >>> k = x / 2 ^ k

-- The cast to `byte_t`.
abbrev pub u8 : ℕ → ℕ
u8 n = n % 256

abbrev pub AllBytes : List ℕ → Type 0
AllBytes [] = Unit
AllBytes (b ∷ bs) = (b < 256) × AllBytes bs

-- A test that every number below a bound passes, by evaluation.
unfoldable pub passes : (ℕ → Bool) → ℕ → Bool
passes test zero = true
passes test (suc n) = test n && passes test n

pub passes_lem : (test : ℕ → Bool) (n x : ℕ) → passes test n ≡ true → x < n → test x ≡ true
unfolding passes
passes_lem test zero x h below = absurd (omega arith)
passes_lem test (suc n) x h below = ground (arith, passes_lem test n x)

-- Any fuel that is no less than the first number gives the same digits.
module _ (none_left : ℕ → ℕ) (digit : ℕ → ℕ → ℕ) where
  same_digits :
      (x y k l : ℕ) → x ≤ k → x ≤ l → digits none_left digit k x y ≡ digits none_left digit l x y
  same_digits zero y zero zero p q = refl
  same_digits zero y zero (suc l) p q = refl
  same_digits zero y (suc k) zero p q = refl
  same_digits zero y (suc k) (suc l) p q = refl
  same_digits (suc x) y zero l p q = absurd (omega arith)
  same_digits (suc x) y (suc k) zero p q = absurd (omega arith)
  same_digits (suc x) y (suc k) (suc l) p q =
      ap (λ (rest : ℕ). rest * 2 + digit (suc x % 2) (y % 2))
        (same_digits (suc x / 2) (y / 2) k l (omega arith) (omega arith))

or_last_bit : (x y : ℕ) → bit_or x y ≡ bit_or (x / 2) (y / 2) * 2 + max (x % 2) (y % 2)
or_last_bit zero y = simp bit_or-bitwise (omega arith)
or_last_bit (suc x) y = simp bit_or-bitwise (
    omega (
      arith,
      same_digits (λ b. b) max (suc x / 2) (y / 2) x (suc x / 2) (omega arith) (omega arith),
    ))

and_last_bit : (x y : ℕ) → bit_and x y ≡ bit_and (x / 2) (y / 2) * 2 + min (x % 2) (y % 2)
and_last_bit zero y = simp bit_and-bitwise (omega arith)
and_last_bit (suc x) y = simp bit_and-bitwise (
    omega (
      arith,
      same_digits (λ b. 0) min (suc x / 2) (y / 2) x (suc x / 2) (omega arith) (omega arith),
    ))

-- By strong induction, the bound standing for the numbers below.
or_zero : (bound x : ℕ) → x ≤ bound → (bit_or x 0 ≡ x) × (bit_or 0 x ≡ x)
or_zero bound zero h = (refl, refl)
or_zero zero (suc x) h = absurd (omega arith)
or_zero (suc bound) (suc x) h =
    let half = or_zero bound (suc x / 2) (omega arith) in
    (omega (arith, or_last_bit (suc x) 0, half.0), omega (arith, or_last_bit 0 (suc x), half.1))

and_zero : (bound x : ℕ) → x ≤ bound → bit_and x 0 ≡ 0
and_zero bound zero h = refl
and_zero zero (suc x) h = absurd (omega arith)
and_zero (suc bound) (suc x) h =
    omega (arith, and_last_bit (suc x) 0, and_zero bound (suc x / 2) (omega arith))

-- `q * 2 ^ suc k` as the double that `omega` reads.
twice : (q k : ℕ) → q * 2 ^ suc k ≡ q * 2 ^ k * 2
twice q k = grind (arith, pow-suc 2 k)

-- Fields that do not overlap, in either order.
or_fields :
    (k q r : ℕ)
    → r < 2 ^ k
    → (bit_or (q <<< k) r ≡ q * 2 ^ k + r) × (bit_or r (q <<< k) ≡ r + q * 2 ^ k)
or_fields zero q r fits = ground (arith, or_zero q q (omega arith))
or_fields (suc k) q r fits = ground (
  arith,
  or_last_bit (q * 2 ^ suc k) r,
  or_last_bit r (q * 2 ^ suc k),
  twice q k,
  pow-suc 2 k,
  or_fields k q (r / 2),
)

pub or_left : (k q r : ℕ) → r < 2 ^ k → bit_or (q <<< k) r ≡ q * 2 ^ k + r
or_left k q r fits = (or_fields k q r fits).0

pub or_right : (k q r : ℕ) → r < 2 ^ k → bit_or r (q <<< k) ≡ r + q * 2 ^ k
or_right k q r fits = (or_fields k q r fits).1

-- `&` with a mask of low ones.
pub and_low_1 : (x : ℕ) → bit_and x 1 ≡ x % 2
and_low_1 x = omega (arith, and_last_bit x 1, and_zero (x / 2) (x / 2) (omega arith))

pub and_low_2 : (x : ℕ) → bit_and x 3 ≡ x % 4
and_low_2 x = omega (arith, and_last_bit x 3, and_low_1 (x / 2))

pub and_low_3 : (x : ℕ) → bit_and x 7 ≡ x % 8
and_low_3 x = omega (arith, and_last_bit x 7, and_low_2 (x / 2))

pub and_low_4 : (x : ℕ) → bit_and x 15 ≡ x % 16
and_low_4 x = omega (arith, and_last_bit x 15, and_low_3 (x / 2))

pub and_low_5 : (x : ℕ) → bit_and x 31 ≡ x % 32
and_low_5 x = omega (arith, and_last_bit x 31, and_low_4 (x / 2))

pub and_low_6 : (x : ℕ) → bit_and x 63 ≡ x % 64
and_low_6 x = omega (arith, and_last_bit x 63, and_low_5 (x / 2))

pub and_low_7 : (x : ℕ) → bit_and x 127 ≡ x % 128
and_low_7 x = omega (arith, and_last_bit x 127, and_low_6 (x / 2))

-- To split on a shift.
pub below_8 {ℓ} :
    (P : ℕ → Type ℓ) → P 0 → P 1 → P 2 → P 3 → P 4 → P 5 → P 6 → P 7 → (k : ℕ) → k < 8 → P k
below_8 P p0 p1 p2 p3 p4 p5 p6 p7 k h = go k h
  where
    go : (k : ℕ) → k < 8 → P k
    go zero h = p0
    go (suc zero) h = p1
    go (suc (suc zero)) h = p2
    go (suc (suc (suc zero))) h = p3
    go (suc (suc (suc (suc zero)))) h = p4
    go (suc (suc (suc (suc (suc zero))))) h = p5
    go (suc (suc (suc (suc (suc (suc zero)))))) h = p6
    go (suc (suc (suc (suc (suc (suc (suc zero))))))) h = p7
    go (suc (suc (suc (suc (suc (suc (suc (suc n)))))))) h = absurd (omega arith)
