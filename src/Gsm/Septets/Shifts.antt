-- ===== src/Gsm/Septets/Shifts.antt =====
-- helper/gsm.c: the arithmetic of septets in bytes, at each of the eight shifts.
use Prim.Native.Nat.{bit_and, bit_or}
use sxx_ril.Common.{ℕ, ◌+◌, ◌-◌, ◌*◌, ◌/◌, ◌%◌, ◌^◌, ◌<◌, leb, if◌then◌else◌, ◌≡◌, ap, ◌∙◌, arith}
use sxx_ril.Common.Bits.{◌<<<◌, ◌>>>◌, or_left, and_low_7, below_8}
use sxx_ril.Gsm.Septets.{next_shift}

pub low_part :
    (bits pad c : ℕ)
    → bits < 8
    → 0 < bits
    → pad < 2 ^ bits
    → (pad + c * 2 ^ bits) % 256 % 2 ^ bits ≡ pad
low_part bits pad c b =
    below_8 (λ k. 0 < k → pad < 2 ^ k → (pad + c * 2 ^ k) % 256 % 2 ^ k ≡ pad)
      (λ p h. absurd (omega arith)) (λ p h. omega arith) (λ p h. omega arith) (λ p h. omega arith)
      (λ p h. omega arith) (λ p h. omega arith) (λ p h. omega arith) (λ p h. omega arith) bits b

-- What is pending behind a code, which fills a byte or not.
unfoldable pub pending : ℕ → ℕ → ℕ → ℕ
pending bits pad c = if leb 8 (bits + 7) then (pad + c * 2 ^ bits) / 256 else pad + c * 2 ^ bits

pub pending-lt :
    (bits pad c : ℕ)
    → bits < 8
    → pad < 2 ^ bits
    → c < 128
    → (pending bits pad c < 2 ^ next_shift bits) × (next_shift bits < 8)
unfolding pending
pending-lt bits pad c b =
    below_8 (λ k. pad < 2 ^ k → c < 128 → (pending k pad c < 2 ^ next_shift k) × (next_shift k < 8))
      (λ h l. omega arith) (λ h l. omega arith) (λ h l. omega arith) (λ h l. omega arith)
      (λ h l. omega arith) (λ h l. omega arith) (λ h l. omega arith) (λ h l. omega arith) bits b

high_part :
    (bits pad c : ℕ)
    → bits < 8
    → pad < 2 ^ bits
    → (pad + c * 2 ^ bits) % 256 / 2 ^ bits % 128 < 2 ^ (8 - bits)
high_part bits pad c b =
    below_8 (λ k. pad < 2 ^ k → (pad + c * 2 ^ k) % 256 / 2 ^ k % 128 < 2 ^ (8 - k))
      (λ h. omega arith) (λ h. omega arith) (λ h. omega arith) (λ h. omega arith) (λ h. omega arith)
      (λ h. omega arith) (λ h. omega arith) (λ h. omega arith) bits b

two_parts :
    (bits pad c y : ℕ)
    → bits < 8
    → 1 < bits
    → pad < 2 ^ bits
    → c < 128
    → y % 2 ^ (bits - 1) ≡ (pad + c * 2 ^ bits) / 256
    → (y * 2 ^ (8 - bits) + (pad + c * 2 ^ bits) % 256 / 2 ^ bits % 128) % 128 ≡ c
two_parts bits pad c y b =
    below_8
      (λ k.
        1 < k
        → pad < 2 ^ k
        → c < 128
        → y % 2 ^ (k - 1) ≡ (pad + c * 2 ^ k) / 256
        → (y * 2 ^ (8 - k) + (pad + c * 2 ^ k) % 256 / 2 ^ k % 128) % 128 ≡ c)
      (λ p h l e. absurd (omega arith)) (λ p h l e. absurd (omega arith)) (λ p h l e. omega arith)
      (λ p h l e. omega arith) (λ p h l e. omega arith) (λ p h l e. omega arith)
      (λ p h l e. omega arith) (λ p h l e. omega arith) bits b

-- A code that does not fit the first byte is put together from two.
pub septet_value :
    (bits pad c y : ℕ)
    → bits < 8
    → 1 < bits
    → pad < 2 ^ bits
    → c < 128
    → y % 2 ^ (bits - 1) ≡ (pad + c * 2 ^ bits) / 256
    → bit_and
        (bit_or (y <<< (8 - bits)) (bit_and (((pad + c * 2 ^ bits) % 256) >>> bits) 0x7f))
        0x7f
      ≡ c
septet_value bits pad c y b p h l e =
    ap (λ (n : ℕ). bit_and (bit_or (y <<< (8 - bits)) n) 0x7f) (and_low_7 _)
    ∙ ap (λ (n : ℕ). bit_and n 0x7f) (or_left (8 - bits) y _ (high_part bits pad c b h))
    ∙ and_low_7 _
    ∙ two_parts bits pad c y b p h l e

pub carry :
    (bits pad c : ℕ)
    → bits < 8
    → 0 < bits
    → pad < 2 ^ bits
    → c < 128
    → (pad + c * 2 ^ bits) / 256 < 2 ^ (bits - 1)
carry bits pad c b =
    below_8 (λ k. 0 < k → pad < 2 ^ k → c < 128 → (pad + c * 2 ^ k) / 256 < 2 ^ (k - 1))
      (λ p h l. absurd (omega arith)) (λ p h l. omega arith) (λ p h l. omega arith)
      (λ p h l. omega arith) (λ p h l. omega arith) (λ p h l. omega arith) (λ p h l. omega arith)
      (λ p h l. omega arith) bits b
