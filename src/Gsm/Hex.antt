-- ===== src/Gsm/Hex.antt =====
-- helper/gsm.c: the hexadecimal notation of bytes. `none` is the -1 of the source.
use Prim.Native.Nat.{bit_and, bit_or}
use sxx_ril.Common.{
  ℕ, ◌+◌, ◌-◌, ◌%◌, ◌^◌, ◌<◌, Bool, true, false, ◌&&◌, Option, none, some, List, [], ◌∷◌, ◌++◌, ltb,
  leb, ◌==◌, ==_iff, if◌then◌else◌, Text, ◌≡◌, refl, ap, ◌∙◌, arith,
}
use sxx_ril.Common.Bits.{◌<<<◌, ◌>>>◌, u8, AllBytes, passes, passes_lem, and_low_4, or_left}

-- `(unsigned)(c - first) < count`: below `first` the difference wraps to a large number.
abbrev pub in_run : ℕ → ℕ → ℕ → Bool
in_run first count c = leb first c && ltb (c - first) count

unfoldable pub hexchar_to_int : ℕ → Option ℕ
hexchar_to_int c =
    if in_run b'0' 10 c
    then some (c - b'0')
    else if in_run b'a' 6 c
    then some (10 + (c - b'a'))
    else if in_run b'A' 6 c
    then some (10 + (c - b'A'))
    else none

abbrev or_0 : Option ℕ → ℕ
or_0 none = 0
or_0 (some n) = n

unfoldable pub hexchar_to_int0 : ℕ → ℕ
unfolding hexchar_to_int
hexchar_to_int0 c = or_0 (hexchar_to_int c)

-- `(hi << shift) | lo`, or -1 where either half is.
abbrev joined : ℕ → Option ℕ → Option ℕ → Option ℕ
joined shift none lo = none
joined shift (some hi) none = none
joined shift (some hi) (some lo) = some (bit_or (hi <<< shift) lo)

unfoldable pub hex2_to_byte : ℕ → ℕ → Option ℕ
unfolding hexchar_to_int
hex2_to_byte hi lo = joined 4 (hexchar_to_int hi) (hexchar_to_int lo)

unfoldable pub hex4_to_short : ℕ → ℕ → ℕ → ℕ → Option ℕ
hex4_to_short c0 c1 c2 c3 = joined 8 (hex2_to_byte c0 c1) (hex2_to_byte c2 c3)

unfoldable pub hex2_to_byte0 : ℕ → ℕ → ℕ
unfolding hexchar_to_int0
hex2_to_byte0 hi lo = u8 (bit_or (hexchar_to_int0 hi <<< 4) (hexchar_to_int0 lo))

-- `hexdigits[n]`, for `n` below 16.
abbrev hex_digit : ℕ → ℕ
hex_digit n = if ltb n 10 then b'0' + n else b'A' + (n - 10)

-- The two bytes written to `hex`.
unfoldable pub hex_from_byte : ℕ → Text
hex_from_byte val = hex_digit (bit_and (val >>> 4) 15) ∷ hex_digit (bit_and val 15) ∷ []

unfoldable pub hex_from_short : ℕ → Text
unfolding hex_from_byte
hex_from_short val = hex_from_byte (val >>> 8) ++ hex_from_byte val

-- `hexlen` is the length of the text.
unfoldable pub hex_to_bytes : Text → List ℕ
unfolding hex2_to_byte0 hexchar_to_int0
hex_to_bytes [] = []
hex_to_bytes (c ∷ []) = u8 (hexchar_to_int0 c <<< 4) ∷ []
hex_to_bytes (hi ∷ lo ∷ hex) = u8 (hex2_to_byte0 hi lo) ∷ hex_to_bytes hex

unfoldable pub hex_from_bytes : List ℕ → Text
unfolding hex_from_byte
hex_from_bytes [] = []
hex_from_bytes (b ∷ src) = hex_from_byte b ++ hex_from_bytes src

abbrev is_some_of : ℕ → Option ℕ → Bool
is_some_of n none = false
is_some_of n (some m) = m == n

is_some_of_lem : (n : ℕ) (o : Option ℕ) → is_some_of n o ≡ true → o ≡ some n
is_some_of_lem n none h = cc
is_some_of_lem n (some m) h = ap some ((==_iff m n).0 h)

-- What the two digits of a byte are read back as, by evaluation.
byte_test : ℕ → Bool
byte_test b =
    let hi = hex_digit (bit_and (b >>> 4) 15) in
    let lo = hex_digit (bit_and b 15) in
    hex2_to_byte0 hi lo == b && is_some_of b (hex2_to_byte hi lo)

byte_table : passes byte_test 256 ≡ true
unfolding passes byte_test hex2_to_byte0 hex2_to_byte
byte_table = refl

both : (x y : Bool) → x && y ≡ true → (x ≡ true) × (y ≡ true)
both true true h = (refl, refl)
both true false h = cc
both false y h = cc

byte-hex :
    (b : ℕ)
    → b < 256
    → (hex2_to_byte0 (hex_digit (bit_and (b >>> 4) 15)) (hex_digit (bit_and b 15)) ≡ b)
      × (hex2_to_byte (hex_digit (bit_and (b >>> 4) 15)) (hex_digit (bit_and b 15)) ≡ some b)
unfolding byte_test
byte-hex b h =
    let t = both _ _ (passes_lem byte_test 256 b byte_table h) in
    ((==_iff _ b).0 t.0, is_some_of_lem b _ t.1)

-- Bytes that are written in hexadecimal are read back.
pub to_bytes-from_bytes : (bs : List ℕ) → AllBytes bs → hex_to_bytes (hex_from_bytes bs) ≡ bs
unfolding hex_to_bytes hex_from_bytes
to_bytes-from_bytes [] h = refl
to_bytes-from_bytes (b ∷ bs) h =
    rw ((byte-hex b h.0).0, to_bytes-from_bytes bs h.1)
      (ap (λ (c : ℕ). c ∷ bs) (omega (arith, h.0)))

-- The digits of an int are those of its last byte.
low_digits :
    (v : ℕ)
    → (bit_and (v >>> 4) 15 ≡ bit_and ((v % 256) >>> 4) 15) × (bit_and v 15 ≡ bit_and (v % 256) 15)
low_digits v = (
  omega (arith, and_low_4 (v >>> 4), and_low_4 ((v % 256) >>> 4)),
  omega (arith, and_low_4 v, and_low_4 (v % 256)),
)

abbrev pub short_of_digits : Text → Option ℕ
short_of_digits (c0 ∷ c1 ∷ c2 ∷ c3 ∷ []) = hex4_to_short c0 c1 c2 c3
short_of_digits _ = none

-- The four digits that are written for a number below 2 ^ 16 are read back as that number.
pub to_short-from_short : (v : ℕ) → v < 2 ^ 16 → short_of_digits (hex_from_short v) ≡ some v
unfolding hex4_to_short hex_from_short
to_short-from_short v h =
    rw
      (
        (byte-hex (v >>> 8) (omega (arith, h))).1,
        (low_digits v).0,
        (low_digits v).1,
        (byte-hex (v % 256) (omega arith)).1,
      )
      (ap some (or_left 8 (v >>> 8) (v % 256) (omega arith) ∙ (omega arith)))
