-- ===== src/Cdma/Examples.antt =====
-- helper/sms.c: a message with the number 064*3#.
use sxx_ril.Common.{
  ℕ, zero, suc, get_or, ◌<◌, ◌+◌, List, [], ◌∷◌, ◌≡◌, refl, codes, length, arith, inl, inr, Text,
}
use sxx_ril.Cdma.{
  Memory, hex2int, hextable, getbit, setbit, getbits_loop, getbits, setbits, decode_number,
  decode_table, encode_digit, encode_digit_from, encode_number, encode_digits, encode_number_bytes,
}
use sxx_ril.Cdma.Message.{encode_cdma_sms}
use sxx_ril.Cdma.Message.Number.{decode_number-encode_cdma_sms}
use sxx_ril.Cdma.Numbers.{Listed, AllListed}

-- As many digits '0' as one likes.
abbrev zeros : Memory
zeros = λ a. b'0'

abbrev sender : Text
sender = codes "064*3#"

-- The character at an index.
Listed-get_or : (table : List ℕ) (k : ℕ) → k < length table → Listed table (get_or table k 0)
Listed-get_or [] k h = absurd (omega (arith, h))
Listed-get_or (c ∷ table) zero h = inl refl
Listed-get_or (c ∷ table) (suc k) h = inr (Listed-get_or table k (omega (arith, h)))

sender-AllListed : AllListed sender
sender-AllListed = (
  at 10 (omega arith),
  (
    at 6 (omega arith),
    (at 4 (omega arith), (at 11 (omega arith), (at 3 (omega arith), (at 12 (omega arith), tt)))),
  ),
)
  where
    at : (k : ℕ) → k < 16 → Listed decode_table (get_or decode_table k 0)
    at k h = Listed-get_or decode_table k h

-- The count stands in the bits 2 to 9.
sender_count : getbits (encode_number zeros 0 sender) 0 2 8 ≡ 6
unfolding getbits getbits_loop getbit hex2int encode_number encode_digits setbits setbit hextable
    encode_digit encode_digit_from
sender_count = refl

sender_bytes : encode_number_bytes sender ≡ 5
unfolding encode_number_bytes
sender_bytes = refl

-- A bit that is set is not cleared by a value that has it not.
stale_bits : getbits (setbits (setbits zeros 0 0 4 9) 0 0 4 6) 0 0 4 ≡ 15
unfolding getbits getbits_loop getbit hex2int setbits setbit hextable
stale_bits = refl

-- The digits at an address.
abbrev shown : Memory → ℕ → ℕ → Text
shown m a zero = []
shown m a (suc n) = m a ∷ shown m (suc a) n

-- Two bits of zero, the count 6, and 0 as 10, 6, 4, * as 11, 3 and # as 12.
sender_digits : shown (encode_number zeros 0 sender) 0 10 ≡ codes "01A992CF00"
unfolding encode_number encode_digits setbits setbit hextable hex2int encode_digit encode_digit_from
sender_digits = refl

decode_number-encode_cdma_sms_example :
    decode_number (encode_cdma_sms zeros 0 sender (codes "Hi")) (0 + 10 + 4) ≡ sender
decode_number-encode_cdma_sms_example =
    decode_number-encode_cdma_sms zeros 0 sender (codes "Hi") sender-AllListed (omega arith)
