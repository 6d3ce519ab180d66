-- ===== src/Cdma/Message/Frames.antt =====
-- helper/sms.c: what one part of a message leaves of the others.
use sxx_ril.Common.{
  ℕ, zero, suc, ◌+◌, ◌-◌, ◌/◌, ◌≤◌, ◌<◌, false, ◌≡◌, ◌≢◌, refl, ◌∙◌, arith, Bool-cases, List, [],
  ◌∷◌, ◌==◌, ==_iff, length, inl, inr,
}
use Prim.Native.Nat.{bit_and}
use sxx_ril.Common.Bits.{◌>>>◌}
use sxx_ril.Cdma.{Memory, update, setbit, setbits}
use sxx_ril.Cdma.Message.{encode_text, text_bytes, encode_bearer_data, fill}

pub update_other : (m : Memory) (x c a : ℕ) → a ≢ x → update m x c a ≡ m a
update_other m x c a ne = elim (Bool-cases (a == x)) [
  | inl e ↦ absurd (ne ((==_iff a x).0 e))
  | inr e ↦ rw e refl
]

-- A field leaves the characters before it.
pub setbits_before : (m : Memory) (s b k val a : ℕ) → a < s + b / 4 → setbits m s b k val a ≡ m a
unfolding setbits setbit
setbits_before m s b zero val a h = refl
setbits_before m s b (suc k) val a h =
    setbits_before (setbit m s b (bit_and (val >>> k) 1)) s (suc b) k val a (omega (arith, h))
    ∙ update_other m (s + b / 4) _ a (λ e. omega (arith, h, e))

-- A field leaves the characters behind it.
pub setbits_behind :
    (m : Memory) (s b k val a : ℕ) → s + (b + k + 3) / 4 ≤ a → setbits m s b k val a ≡ m a
unfolding setbits setbit
setbits_behind m s b zero val a h = refl
setbits_behind m s b (suc k) val a h =
    setbits_behind (setbit m s b (bit_and (val >>> k) 1)) s (suc b) k val a (omega (arith, h))
    ∙ update_other m (s + b / 4) _ a (λ e. omega (arith, h, e))

encode_text_before :
    (m : Memory) (msg : ℕ) (text : List ℕ) (b a : ℕ) → a < msg → encode_text m msg text b a ≡ m a
unfolding encode_text
encode_text_before m msg [] b a h = refl
encode_text_before m msg (c ∷ text) b a h =
    encode_text_before (setbits m msg b 7 c) msg text (b + 7) a h
    ∙ setbits_before m msg b 7 c a (omega (arith, h))

pub encode_bearer_data_before :
    (m : Memory) (start : ℕ) (text : List ℕ) (a : ℕ)
    → a < start
    → encode_bearer_data m start text a ≡ m a
unfolding encode_bearer_data
encode_bearer_data_before m start text a h =
    setbits_before _ _ 24 24 0x0d0100 a (omega (arith, h))
    ∙ (setbits_before _ _ 0 24 0x80100 a (omega (arith, h))
        ∙ (setbits_before _ _ 8 8 (text_bytes text - 2) a (omega (arith, h))
            ∙ (encode_text_before _ _ text 29 a (omega (arith, h))
                ∙ (setbits_before _ _ 21 8 (length text) a (omega (arith, h))
                    ∙ (setbits_before _ _ 16 5 2 a (omega (arith, h))
                        ∙ (setbits_before _ _ 0 8 1 a (omega (arith, h))
                            ∙ (setbits_before _ _ 20 16 _ a (omega (arith, h))
                                ∙ (setbits_before _ _ 16 4 2 a (omega (arith, h))
                                    ∙ (setbits_before _ _ 8 8 3 a (omega (arith, h))
                                        ∙ setbits_before m start 0 8 0 a (omega (arith, h)))))))))))

pub fill-zero : (m : Memory) (pdu n a : ℕ) → pdu ≤ a → a < pdu + n → fill m pdu n a ≡ b'0'
unfolding fill
fill-zero m pdu zero a lo hi = absurd (omega (arith, lo, hi))
fill-zero m pdu (suc n) a lo hi = elim (Bool-cases (a == pdu + n)) [
  | inl e ↦ rw e refl
  | inr e ↦ rw e (fill-zero m pdu n a lo (below e))
]
  where
    below : (a == pdu + n) ≡ false → a < pdu + n
    below e = ground (arith, e, hi, (==_iff a (pdu + n)).1)
