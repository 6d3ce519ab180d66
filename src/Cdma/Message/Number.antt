-- ===== src/Cdma/Message/Number.antt =====
-- helper/sms.c: the receiver's number in a message that is sent.
use sxx_ril.Common.{
  ℕ, zero, suc, ◌+◌, ◌-◌, ◌*◌, ◌/◌, ◌%◌, ◌≤◌, ◌<◌, Bool, true, ◌≡◌, refl, sym, ap, ap₂, ◌∙◌, arith,
  List, ◌∷◌, ◌==◌, if◌then◌else◌, length, get_or,
}
use sxx_ril.Cdma.{
  Memory, hex2int, getbit, getbits, setbits, decode_digits, decode_number, decode_table,
  encode_number, encode_number_bytes,
}
use Prim.Native.Nat.{bit_and}
use sxx_ril.Common.Bits.{◌<<<◌, passes, passes_lem}
use sxx_ril.Cdma.Fields.{getbits-agree}
use sxx_ril.Cdma.Numbers.{AllListed, decode_number-encode_number}
use sxx_ril.Cdma.Message.{encode_bearer_data, encode_bearer_data_bytes, fill, encode_cdma_sms}
use sxx_ril.Cdma.Message.Frames.{
  update_other, setbits_before, setbits_behind, encode_bearer_data_before, fill-zero,
}

-- A bit is the one of its character.
getbit-agree :
    (m n : Memory) (s b : ℕ) → m (s + b / 4) ≡ n (s + b / 4) → getbit m s b ≡ getbit n s b
unfolding getbit
getbit-agree m n s b e = ap (λ c. if bit_and (hex2int c) (1 <<< (3 - b % 4)) == 0 then 0 else 1) e

decode_digits-agree :
    (m n : Memory) (msg k j : ℕ)
    → ((c : ℕ) → c < 10 + (j + k) * 4 → getbit m msg c ≡ getbit n msg c)
    → decode_digits m msg k j ≡ decode_digits n msg k j
unfolding decode_digits
decode_digits-agree m n msg zero j agree = refl
decode_digits-agree m n msg (suc k) j agree =
    ap₂ (λ x xs. get_or decode_table x 0 ∷ xs)
      (getbits-agree m n msg (10 + j * 4) 4 (λ c h. agree c (omega (arith, h))))
      (decode_digits-agree m n msg k (suc j) (λ c h. agree c (omega (arith, h))))

length-decode_digits : (m : Memory) (msg k j : ℕ) → length (decode_digits m msg k j) ≡ k
unfolding decode_digits
length-decode_digits m msg zero j = refl
length-decode_digits m msg (suc k) j = ap suc (length-decode_digits m msg k (suc j))

-- A number is read from the characters that it takes.
decode_number-agree :
    (m n : Memory) (msg : ℕ) (ds : List ℕ)
    → ((a : ℕ) → msg ≤ a → a < msg + (length ds * 4 + 13) / 4 → m a ≡ n a)
    → decode_number n msg ≡ ds
    → decode_number m msg ≡ ds
unfolding decode_number
decode_number-agree m n msg ds agree number =
    ap (λ k. decode_digits m msg k 0) (getbits-agree m n msg 2 8 (λ c h. bit c (omega (arith, h))))
    ∙ (decode_digits-agree m n msg (getbits n msg 2 8) 0 (λ c h. bit c (omega (arith, h, count)))
        ∙ number)
  where
    count : getbits n msg 2 8 ≡ length ds
    count = sym (length-decode_digits n msg (getbits n msg 2 8) 0) ∙ ap length number

    bit : (c : ℕ) → c < 10 + length ds * 4 → getbit m msg c ≡ getbit n msg c
    bit c h = getbit-agree m n msg c (agree (msg + c / 4) (omega arith) (omega (arith, h)))

zero_test : ℕ → Bool
zero_test j = bit_and (hex2int b'0') (1 <<< j) == 0

zero_tests : passes zero_test 4 ≡ true
unfolding passes zero_test hex2int
zero_tests = refl

-- The digit '0' has no bit that is set.
getbit-zero : (m : Memory) (s b : ℕ) → m (s + b / 4) ≡ b'0' → getbit m s b ≡ 0
unfolding getbit zero_test
getbit-zero m s b e =
    ap (λ c. if bit_and (hex2int c) (1 <<< (3 - b % 4)) == 0 then 0 else 1) e
    ∙ ap (λ (t : Bool). if t then 0 else 1)
        (passes_lem zero_test 4 (3 - b % 4) zero_tests (omega arith))

hex2int-zero : (c : ℕ) → c ≡ b'0' → hex2int c < 16
unfolding hex2int
hex2int-zero c e = rw e (omega arith)

-- The number takes no more room than its bytes.
number_room : (to : List ℕ) → (length to * 4 + 13) / 4 ≤ encode_number_bytes to * 2
unfolding encode_number_bytes
number_room to = omega arith

module _ (m : Memory) (pdu : ℕ) (to message : List ℕ) where
  -- The memory before the number is set.
  cleared : Memory
  cleared =
      setbits (setbits (setbits (fill m pdu 512) pdu 0 16 0) pdu 16 24 0x021002) (pdu + 10) 0 8 4

  cleared-zero : (a : ℕ) → pdu + 14 ≤ a → a < pdu + 512 → cleared a ≡ b'0'
  unfolding cleared
  cleared-zero a lo hi =
      setbits_behind _ (pdu + 10) 0 8 4 a (omega (arith, lo))
      ∙ (setbits_behind _ pdu 16 24 0x021002 a (omega (arith, lo))
          ∙ (setbits_behind _ pdu 0 16 0 a (omega (arith, lo))
              ∙ fill-zero m pdu 512 a (omega (arith, lo)) hi))

  decode_number-cleared :
      AllListed to
      → length to < 256
      → decode_number (encode_number cleared (pdu + 10 + 4) to) (pdu + 10 + 4) ≡ to
  decode_number-cleared listed short =
      decode_number-encode_number cleared (pdu + 10 + 4) to
        (λ c lo hi.
          hex2int-zero _
            (cleared-zero (pdu + 10 + 4 + c / 4) (omega arith) (omega (arith, hi, short))))
        (λ c lo hi.
          getbit-zero cleared (pdu + 10 + 4) c
            (cleared-zero (pdu + 10 + 4 + c / 4) (omega arith) (omega (arith, hi, short))))
        listed short

  -- What follows the number leaves its characters.
  encode_cdma_sms_number :
      (a : ℕ)
      → pdu + 10 + 4 ≤ a
      → a < pdu + 10 + 4 + (length to * 4 + 13) / 4
      → encode_cdma_sms m pdu to message a ≡ encode_number cleared (pdu + 10 + 4) to a
  unfolding encode_cdma_sms cleared
  encode_cdma_sms_number a lo hi =
      update_other body (bearer + encode_bearer_data_bytes message * 2 + 4) 0 a
        (λ e. omega (arith, e, before))
      ∙ (setbits_before _ bearer 8 8 _ a (omega (arith, before))
          ∙ (encode_bearer_data_before coded (bearer + 4) message a (omega (arith, before))
              ∙ (setbits_before _ bearer 0 8 8 a (omega (arith, before))
                  ∙ (setbits_before sized reply 0 24 0x060100 a (omega (arith, before))
                      ∙ setbits_behind _ (pdu + 10) 8 8 _ a (omega (arith, lo))))))
    where
      reply : ℕ
      reply = pdu + 10 + encode_number_bytes to * 2 + 4

      bearer : ℕ
      bearer = reply + 6

      sized : Memory
      sized =
          setbits (encode_number cleared (pdu + 10 + 4) to) (pdu + 10) 8 8 (encode_number_bytes to)

      coded : Memory
      coded = setbits (setbits sized reply 0 24 0x060100) bearer 0 8 8

      body : Memory
      body =
          setbits (encode_bearer_data coded (bearer + 4) message) bearer 8 8
            (encode_bearer_data_bytes message)

      before : a < pdu + 10 + encode_number_bytes to * 2 + 4
      before = omega (arith, hi, number_room to)

  -- The receiver of a message that is encoded, a number of at most 255 characters of the table, is
  -- decoded again from the address behind the first 14 characters, whatever the text is.
  pub decode_number-encode_cdma_sms :
      AllListed to
      → length to < 256
      → decode_number (encode_cdma_sms m pdu to message) (pdu + 10 + 4) ≡ to
  decode_number-encode_cdma_sms listed short =
      decode_number-agree (encode_cdma_sms m pdu to message)
        (encode_number cleared (pdu + 10 + 4) to) (pdu + 10 + 4) to encode_cdma_sms_number
        (decode_number-cleared listed short)
