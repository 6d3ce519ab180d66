-- ===== src/Cdma.antt =====
-- helper/sms.c: the bits of a message in hexadecimal, and the digits of a number.
use sxx_ril.Common.{
  ℕ, zero, suc, ◌+◌, ◌-◌, ◌*◌, ◌/◌, ◌%◌, Bool, true, false, Option, none, some, List, [], ◌∷◌, ◌==◌,
  ltb, if◌then◌else◌, Text, codes, length, get_or,
}
use Prim.Native.Nat.{bit_and, bit_or}
use sxx_ril.Common.Bits.{◌<<<◌, ◌>>>◌, u8}
pub mod Nibbles
pub mod Fields
pub mod Numbers
pub mod Message
pub mod Examples

-- The characters in memory; a `char *` is an address.
abbrev pub Memory : Type 0
Memory = ℕ → ℕ

abbrev pub update : Memory → ℕ → ℕ → Memory
update m a c = λ b. if b == a then c else m b

-- `hex2int`; the int is written modulo 2 ^ 32, since a character below '0' gives a negative one.
unfoldable pub hex2int : ℕ → ℕ
hex2int c = if ltb b'9' c then c + 10 - b'A' else (c + 4294967296 - b'0') % 4294967296

-- `getbit`.
unfoldable pub getbit : Memory → ℕ → ℕ → ℕ
getbit m s b = if bit_and (hex2int (m (s + b / 4))) (1 <<< (3 - b % 4)) == 0 then 0 else 1

-- `hextable[n]`. Behind the 16 digits stands the terminator; what lies behind it is not known, and
-- stands as 0 here: the theorems are about digits.
unfoldable pub hextable : ℕ → ℕ
hextable n = if ltb n 10 then b'0' + n else if ltb n 16 then b'A' + (n - 10) else 0

-- `setbit`.
unfoldable pub setbit : Memory → ℕ → ℕ → ℕ → Memory
setbit m s b val =
    update m (s + b / 4) (hextable (bit_or (hex2int (m (s + b / 4))) (val <<< (3 - b % 4))))

-- The loop of `getbits`; `k` bits are left, of which the next has the weight 2 ^ (k - 1).
unfoldable pub getbits_loop : Memory → ℕ → ℕ → ℕ → ℕ → ℕ
getbits_loop m s b zero val = val
getbits_loop m s b (suc k) val = getbits_loop m s (suc b) k (bit_or val (getbit m s b <<< k))

-- `getbits`; an int holds the value of at most 31 bits.
unfoldable pub getbits : Memory → ℕ → ℕ → ℕ → ℕ
getbits m s startbit nbits = getbits_loop m s startbit nbits 0

-- `setbits`.
unfoldable pub setbits : Memory → ℕ → ℕ → ℕ → ℕ → Memory
setbits m s b zero val = m
setbits m s b (suc k) val = setbits (setbit m s b (bit_and (val >>> k) 1)) s (suc b) k val

-- `decode_table`.
abbrev pub decode_table : List ℕ
decode_table = codes ".1234567890*#..."

-- The loop of `decode_number`, from the digit `j` on.
unfoldable pub decode_digits : Memory → ℕ → ℕ → ℕ → List ℕ
decode_digits m msg zero j = []
decode_digits m msg (suc k) j =
    get_or decode_table (getbits m msg (10 + j * 4) 4) 0 ∷ decode_digits m msg k (suc j)

-- `decode_number`, the text that it writes to `no`.
unfoldable pub decode_number : Memory → ℕ → List ℕ
decode_number m msg = decode_digits m msg (getbits m msg 2 8) 0

-- The loop of `encode_digit`, at the index `i` of the table.
unfoldable pub encode_digit_from : List ℕ → ℕ → ℕ → ℕ
encode_digit_from [] i d = 0
encode_digit_from (c ∷ table) i d = if c == d then i else encode_digit_from table (suc i) d

-- `encode_digit`.
unfoldable pub encode_digit : ℕ → ℕ
encode_digit d = encode_digit_from decode_table 0 d

-- The loop of `encode_number`, from the digit `i` on.
unfoldable pub encode_digits : Memory → ℕ → List ℕ → ℕ → Memory
encode_digits m msg [] i = m
encode_digits m msg (c ∷ digits) i =
    encode_digits (setbits m msg (10 + i * 4) 4 (encode_digit c)) msg digits (suc i)

-- What `encode_number` leaves in memory; the text `no` lies outside of it.
unfoldable pub encode_number : Memory → ℕ → List ℕ → Memory
encode_number m msg digits =
    encode_digits (setbits (setbits m msg 0 2 0) msg 2 8 (length digits)) msg digits 0

-- What `encode_number` returns, the number of bytes.
unfoldable pub encode_number_bytes : List ℕ → ℕ
encode_number_bytes digits = (10 + length digits * 4 + 7) / 8
