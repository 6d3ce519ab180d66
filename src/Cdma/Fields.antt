-- ===== src/Cdma/Fields.antt =====
-- helper/sms.c: a field that is set is read back, and no other bit changes.
use sxx_ril.Common.{
  ℕ, zero, suc, ◌+◌, ◌*◌, ◌/◌, ◌%◌, ◌^◌, ◌≤◌, ◌<◌, ◌≡◌, refl, sym, ap, ap₂, ◌∙◌, ◌⊎◌, inl, inr,
  arith,
}
use Prim.Native.Nat.{bit_and, bit_or}
use sxx_ril.Common.Bits.{◌>>>◌, and_low_1, or_left}
use native.Mathlib.Nat.{
  add-mul, mul_assoc, mul_comm, pow-suc, one-le-pow, zero-mul, zero-add, div-add-mod', native_laws,
}
use sxx_ril.Cdma.{Memory, hex2int, getbit, setbit, getbits_loop, getbits, setbits}
use sxx_ril.Cdma.Nibbles.{
  getbit-below, getbit-setbit_same, getbit-setbit_other, hex2int-setbit_below,
}

-- The number that `k` bits make, the first of the highest weight.
abbrev pub bits : Memory → ℕ → ℕ → ℕ → ℕ
bits m s b zero = 0
bits m s b (suc k) = getbit m s b * 2 ^ k + bits m s (suc b) k

-- An odd or even multiple.
product : (q h t p : ℕ) → q ≡ h * 2 + t → q * p ≡ h * (p * 2) + t * p
product q h t p e =
    ap (λ x. x * p) e
    ∙ (add-mul (h * 2) t p ∙ ap (λ x. x + t * p) (mul_assoc h 2 p ∙ ap (λ x. h * x) (mul_comm 2 p)))

times_power : (h t k : ℕ) → (h * 2 + t) * 2 ^ k ≡ h * 2 ^ suc k + t * 2 ^ k
times_power h t k =
    product (h * 2 + t) h t (2 ^ k) refl ∙ ap (λ x. h * x + t * 2 ^ k) (sym (pow-suc 2 k))

low_bits : (val k : ℕ) → val / 2 ^ k % 2 * 2 ^ k + val % 2 ^ k ≡ val % 2 ^ suc k
low_bits val k = omega (arith, div-add-mod' val (2 ^ suc k), div-add-mod' val (2 ^ k), split)
  where
    half : val / 2 ^ k / 2 ≡ val / 2 ^ suc k
    half = native_laws.div-div-eq-div-mul val (2 ^ k) 2 ∙ ap (λ x. val / x) (sym (pow-suc 2 k))

    split : val / 2 ^ k * 2 ^ k ≡ val / 2 ^ suc k * 2 ^ suc k + val / 2 ^ k % 2 * 2 ^ k
    split =
        product (val / 2 ^ k) (val / 2 ^ k / 2) (val / 2 ^ k % 2) (2 ^ k) (omega arith)
        ∙ ap₂ (λ x y. x * y + val / 2 ^ k % 2 * 2 ^ k) half (sym (pow-suc 2 k))

power_below : (g k : ℕ) → g < 2 → g * 2 ^ k < 2 ^ suc k
power_below zero k h = omega (arith, one-le-pow (suc k) 2 (omega arith))
power_below (suc zero) k h = omega (arith, pow-suc 2 k, one-le-pow k 2 (omega arith))
power_below (suc (suc g)) k h = absurd (omega (arith, h))

getbits_loop-bits :
    (m : Memory) (s b k q : ℕ) → getbits_loop m s b k (q * 2 ^ k) ≡ q * 2 ^ k + bits m s b k
unfolding getbits_loop
getbits_loop-bits m s b zero q = omega arith
getbits_loop-bits m s b (suc k) q =
    let g = getbit m s b in
    let joined =
      or_left (suc k) q (g * 2 ^ k) (power_below g k (getbit-below m s b))
      ∙ sym (times_power q g k) in
    ap (λ v. getbits_loop m s (suc b) k v) joined
    ∙ omega (arith, getbits_loop-bits m s (suc b) k (q * 2 + g), times_power q g k)

pub getbits-bits : (m : Memory) (s b k : ℕ) → getbits m s b k ≡ bits m s b k
unfolding getbits
getbits-bits m s b k =
    ap (λ v. getbits_loop m s b k v) (sym (zero-mul (2 ^ k)))
    ∙ (getbits_loop-bits m s b k 0
        ∙ ap (λ v. v + bits m s b k) (zero-mul (2 ^ k))
        ∙ zero-add (bits m s b k))

-- No bit of the field is set.
abbrev pub Clear : Memory → ℕ → ℕ → ℕ → Type 0
Clear m s b k = (c : ℕ) → b ≤ c → c < b + k → getbit m s c ≡ 0

-- The field stands in hexadecimal digits.
abbrev pub InDigits : Memory → ℕ → ℕ → ℕ → Type 0
InDigits m s b k = (c : ℕ) → b ≤ c → c < b + k → hex2int (m (s + c / 4)) < 16

-- The bit of `val` that is set first.
abbrev top : ℕ → ℕ → ℕ
top val k = bit_and (val >>> k) 1

top-below : (val k : ℕ) → top val k < 2
top-below val k = omega (arith, and_low_1 (val >>> k))

first_digit : (m : Memory) (s b k : ℕ) → InDigits m s b (suc k) → hex2int (m (s + b / 4)) < 16
first_digit m s b k digits = digits b (omega arith) (omega arith)

InDigits-setbit :
    (m : Memory) (s b k val : ℕ)
    → InDigits m s b (suc k)
    → InDigits (setbit m s b (top val k)) s (suc b) k
InDigits-setbit m s b k val digits c lo hi =
    hex2int-setbit_below m s b (top val k) (top-below val k) (first_digit m s b k digits)
      (s + c / 4) (digits c (omega (arith, lo)) (omega (arith, hi)))

-- The bits outside of a field keep their values.
pub getbit-setbits_other :
    (m : Memory) (s b k val c : ℕ)
    → InDigits m s b k
    → (c < b) ⊎ (b + k ≤ c)
    → getbit (setbits m s b k val) s c ≡ getbit m s c
unfolding setbits
getbit-setbits_other m s b zero val c digits h = refl
getbit-setbits_other m s b (suc k) val c digits h =
    getbit-setbits_other (setbit m s b (top val k)) s (suc b) k val c
      (InDigits-setbit m s b k val digits) (outside h)
    ∙ getbit-setbit_other m s b (top val k) (top-below val k) (first_digit m s b k digits) c
        (λ e. not_first h e)
  where
    outside : (c < b) ⊎ (b + suc k ≤ c) → (c < suc b) ⊎ (suc b + k ≤ c)
    outside (inl l) = inl (omega (arith, l))
    outside (inr g) = inr (omega (arith, g))

    not_first : (c < b) ⊎ (b + suc k ≤ c) → b ≡ c → ⊥
    not_first (inl l) e = omega (arith, l, e)
    not_first (inr g) e = omega (arith, g, e)

bit_or_0 : (v : ℕ) → v < 2 → bit_or 0 v ≡ v
bit_or_0 zero h = refl
bit_or_0 (suc zero) h = refl
bit_or_0 (suc (suc v)) h = absurd (omega (arith, h))

bits-setbits :
    (m : Memory) (s b k val : ℕ)
    → InDigits m s b k
    → Clear m s b k
    → bits (setbits m s b k val) s b k ≡ val % 2 ^ k
unfolding setbits
bits-setbits m s b zero val digits h = omega arith
bits-setbits m s b (suc k) val digits h =
    ap₂ (λ x y. x * 2 ^ k + y) first
      (bits-setbits n s (suc b) k val (InDigits-setbit m s b k val digits) clear)
    ∙ low_bits val k
  where
    n : Memory
    n = setbit m s b (top val k)

    first : getbit (setbits n s (suc b) k val) s b ≡ val / 2 ^ k % 2
    first =
        getbit-setbits_other n s (suc b) k val b (InDigits-setbit m s b k val digits)
          (inl (omega arith))
        ∙ (getbit-setbit_same m s b (top val k) (top-below val k) (first_digit m s b k digits)
            ∙ (ap (λ x. bit_or x (top val k)) (h b (omega arith) (omega arith))
                ∙ (bit_or_0 (top val k) (top-below val k) ∙ and_low_1 (val >>> k))))

    clear : Clear n s (suc b) k
    clear c lo hi =
        getbit-setbit_other m s b (top val k) (top-below val k) (first_digit m s b k digits) c
          (λ e. omega (arith, lo, e))
        ∙ h c (omega (arith, lo)) (omega (arith, hi))

-- A field in hexadecimal digits whose bits are clear holds the low bits of the value that is set.
pub getbits-setbits :
    (m : Memory) (s b k val : ℕ)
    → InDigits m s b k
    → Clear m s b k
    → getbits (setbits m s b k val) s b k ≡ val % 2 ^ k
getbits-setbits m s b k val digits h =
    getbits-bits (setbits m s b k val) s b k ∙ bits-setbits m s b k val digits h

-- A part of a field.
pub InDigits-within :
    (m : Memory) (s b k c l : ℕ) → InDigits m s b k → b ≤ c → c + l ≤ b + k → InDigits m s c l
InDigits-within m s b k c l digits from to d lo hi =
    digits d (omega (arith, from, lo)) (omega (arith, to, hi))

pub Clear-within :
    (m : Memory) (s b k c l : ℕ) → Clear m s b k → b ≤ c → c + l ≤ b + k → Clear m s c l
Clear-within m s b k c l clear from to d lo hi =
    clear d (omega (arith, from, lo)) (omega (arith, to, hi))

-- Digits stay digits when a field among them is set.
pub InDigits-setbits :
    (m : Memory) (s b k val c l : ℕ)
    → InDigits m s b k
    → InDigits m s c l
    → InDigits (setbits m s b k val) s c l
unfolding setbits
InDigits-setbits m s b zero val c l digits all = all
InDigits-setbits m s b (suc k) val c l digits all =
    InDigits-setbits (setbit m s b (top val k)) s (suc b) k val c l
      (InDigits-setbit m s b k val digits)
      (λ d lo hi.
        hex2int-setbit_below m s b (top val k) (top-below val k) (first_digit m s b k digits)
          (s + d / 4) (all d lo hi))

pub Clear-setbits :
    (m : Memory) (s b k val c l : ℕ)
    → InDigits m s b k
    → Clear m s c l
    → b + k ≤ c
    → Clear (setbits m s b k val) s c l
Clear-setbits m s b k val c l digits clear behind d lo hi =
    getbit-setbits_other m s b k val d digits (inr (omega (arith, behind, lo))) ∙ clear d lo hi

-- Two memories that agree on a field hold the same value in it.
pub getbits-agree :
    (m n : Memory) (s b k : ℕ)
    → ((c : ℕ) → c < b + k → getbit m s c ≡ getbit n s c)
    → getbits m s b k ≡ getbits n s b k
getbits-agree m n s b k agree =
    getbits-bits m s b k ∙ (bits-agree b k agree ∙ sym (getbits-bits n s b k))
  where
    bits-agree :
        (b k : ℕ)
        → ((c : ℕ) → c < b + k → getbit m s c ≡ getbit n s c)
        → bits m s b k ≡ bits n s b k
    bits-agree b zero agree = refl
    bits-agree b (suc k) agree =
        ap₂ (λ x y. x * 2 ^ k + y) (agree b (omega arith))
          (bits-agree (suc b) k (λ c h. agree c (omega (arith, h))))
