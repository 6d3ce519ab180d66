-- ===== src/Cdma/Numbers.antt =====
-- helper/sms.c: encode_number and decode_number are inverse.
use sxx_ril.Common.{
  ℕ, suc, ◌+◌, ◌*◌, ◌%◌, ◌^◌, ◌≤◌, ◌<◌, false, ◌≡◌, refl, ap, ap₂, ◌∙◌, ◌⊎◌, inl, inr, arith,
  Bool-cases, List, [], ◌∷◌, ◌==◌, ==_iff, get_or, if◌then◌else◌, length,
}
use sxx_ril.Cdma.{
  Memory, getbit, getbits, setbits, decode_table, decode_digits, decode_number, encode_digit_from,
  encode_digit, encode_digits, encode_number,
}
use sxx_ril.Cdma.Fields.{
  Clear, InDigits, getbits-setbits, getbit-setbits_other, InDigits-within, Clear-within,
  InDigits-setbits, Clear-setbits, getbits-agree,
}

-- A character of the table.
abbrev pub Listed : List ℕ → ℕ → Type 0
Listed [] d = ⊥
Listed (c ∷ table) d = (c ≡ d) ⊎ Listed table d

abbrev pub AllListed : List ℕ → Type 0
AllListed [] = Unit
AllListed (d ∷ ds) = Listed decode_table d × AllListed ds

-- What lies behind the first character, when that is another one.
listed_behind :
    {c d : ℕ} (table : List ℕ) → (c == d) ≡ false → (c ≡ d) ⊎ Listed table d → Listed table d
listed_behind table e (inl same) = absurd (ground (arith, e, (==_iff _ _).1 same))
listed_behind table e (inr l) = l

encode_digit_from-Listed :
    (table : List ℕ) (i d : ℕ)
    → Listed table d
    → (j : ℕ) × (encode_digit_from table i d ≡ i + j) × (get_or table j 0 ≡ d) × (j < length table)
unfolding encode_digit_from
encode_digit_from-Listed [] i d listed = elim listed [ ]
encode_digit_from-Listed (c ∷ table) i d listed = elim (Bool-cases (c == d)) [
  | inl e ↦ (0, rw (e, if◌then◌else◌) (omega arith), (==_iff c d).0 e, omega arith)
  | inr e ↦
      let (j, index, found, below) =
        encode_digit_from-Listed table (suc i) d (listed_behind table e listed) in
      (suc j, rw (e, if◌then◌else◌) (omega (arith, index)), found, omega (arith, below))
]

-- A digit that is encoded takes four bits and is decoded again.
get_or-encode_digit :
    (d : ℕ) → Listed decode_table d → (get_or decode_table (encode_digit d % 2 ^ 4) 0 ≡ d)
unfolding encode_digit
get_or-encode_digit d listed =
    let (j, index, found, below) = encode_digit_from-Listed decode_table 0 d listed in
    ap (λ n. get_or decode_table n 0) (omega (arith, index, below)) ∙ found

-- The number stands behind the bits that are read before it.
getbit-encode_digits :
    (m : Memory) (msg : ℕ) (ds : List ℕ) (i c : ℕ)
    → InDigits m msg (10 + i * 4) (length ds * 4)
    → c < 10 + i * 4
    → getbit (encode_digits m msg ds i) msg c ≡ getbit m msg c
unfolding encode_digits
getbit-encode_digits m msg [] i c digits before = refl
getbit-encode_digits m msg (d ∷ ds) i c digits before =
    getbit-encode_digits (setbits m msg (10 + i * 4) 4 (encode_digit d)) msg ds (suc i) c
      (InDigits-setbits m msg (10 + i * 4) 4 (encode_digit d) (10 + suc i * 4) (length ds * 4) first
        (InDigits-within m msg (10 + i * 4) (suc (length ds) * 4) (10 + suc i * 4) (length ds * 4)
          digits (omega arith) (omega arith)))
      (omega (arith, before))
    ∙ getbit-setbits_other m msg (10 + i * 4) 4 (encode_digit d) c first (inl before)
  where
    first : InDigits m msg (10 + i * 4) 4
    first =
        InDigits-within m msg (10 + i * 4) (suc (length ds) * 4) (10 + i * 4) 4 digits (omega arith)
          (omega arith)

decode_digits-encode_digits :
    (m : Memory) (msg : ℕ) (ds : List ℕ) (i : ℕ)
    → InDigits m msg (10 + i * 4) (length ds * 4)
    → Clear m msg (10 + i * 4) (length ds * 4)
    → AllListed ds
    → decode_digits (encode_digits m msg ds i) msg (length ds) i ≡ ds
unfolding encode_digits decode_digits
decode_digits-encode_digits m msg [] i digits clear listed = refl
decode_digits-encode_digits m msg (d ∷ ds) i digits clear (here, behind) =
    ap₂ (λ x xs. x ∷ xs) (ap (λ n. get_or decode_table n 0) digit ∙ get_or-encode_digit d here)
      (decode_digits-encode_digits n msg ds (suc i) digits_behind
        (Clear-setbits m msg start 4 (encode_digit d) (10 + suc i * 4) (length ds * 4) first
          (Clear-within m msg start (suc (length ds) * 4) (10 + suc i * 4) (length ds * 4) clear
            (omega arith) (omega arith))
          (omega arith))
        behind)
  where
    start : ℕ
    start = 10 + i * 4

    n : Memory
    n = setbits m msg start 4 (encode_digit d)

    first : InDigits m msg start 4
    first =
        InDigits-within m msg start (suc (length ds) * 4) start 4 digits (omega arith) (omega arith)

    digits_behind : InDigits n msg (10 + suc i * 4) (length ds * 4)
    digits_behind =
        InDigits-setbits m msg start 4 (encode_digit d) (10 + suc i * 4) (length ds * 4) first (
          InDigits-within m msg start (suc (length ds) * 4) (10 + suc i * 4) (length ds * 4) digits
            (omega arith) (omega arith))

    digit : getbits (encode_digits n msg ds (suc i)) msg start 4 ≡ encode_digit d % 2 ^ 4
    digit =
        getbits-agree (encode_digits n msg ds (suc i)) n msg start 4
          (λ c h. getbit-encode_digits n msg ds (suc i) c digits_behind (omega (arith, h)))
        ∙ getbits-setbits m msg start 4 (encode_digit d) first (
            Clear-within m msg start (suc (length ds) * 4) start 4 clear (omega arith)
              (omega arith))

-- A number of at most 255 characters of the table that is encoded into clear hexadecimal digits is
-- decoded again.
pub decode_number-encode_number :
    (m : Memory) (msg : ℕ) (ds : List ℕ)
    → InDigits m msg 0 (10 + length ds * 4)
    → Clear m msg 0 (10 + length ds * 4)
    → AllListed ds
    → length ds < 256
    → decode_number (encode_number m msg ds) msg ≡ ds
unfolding encode_number decode_number
decode_number-encode_number m msg ds digits clear listed short =
    ap (λ k. decode_digits (encode_digits n msg ds 0) msg k 0) count
    ∙ decode_digits-encode_digits n msg ds 0 digits_behind
        (Clear-setbits tagged msg 2 8 (length ds) 10 (length ds * 4) counted
          (Clear-setbits m msg 0 2 0 10 (length ds * 4) tag
            (Clear-within m msg 0 (10 + length ds * 4) 10 (length ds * 4) clear (omega arith)
              (omega arith))
            (omega arith))
          (omega arith))
        listed
  where
    tagged : Memory
    tagged = setbits m msg 0 2 0

    n : Memory
    n = setbits tagged msg 2 8 (length ds)

    tag : InDigits m msg 0 2
    tag = InDigits-within m msg 0 (10 + length ds * 4) 0 2 digits (omega arith) (omega arith)

    in_tagged : (b k : ℕ) → b + k ≤ 10 + length ds * 4 → InDigits tagged msg b k
    in_tagged b k h =
        InDigits-setbits m msg 0 2 0 b k tag
          (InDigits-within m msg 0 (10 + length ds * 4) b k digits (omega arith) (omega (arith, h)))

    counted : InDigits tagged msg 2 8
    counted = in_tagged 2 8 (omega arith)

    digits_behind : InDigits n msg 10 (length ds * 4)
    digits_behind =
        InDigits-setbits tagged msg 2 8 (length ds) 10 (length ds * 4) counted
          (in_tagged 10 (length ds * 4) (omega arith))

    count : getbits (encode_digits n msg ds 0) msg 2 8 ≡ length ds
    count =
        getbits-agree (encode_digits n msg ds 0) n msg 2 8
          (λ c h. getbit-encode_digits n msg ds 0 c digits_behind (omega (arith, h)))
        ∙ (getbits-setbits tagged msg 2 8 (length ds) counted (
              Clear-setbits m msg 0 2 0 2 8 tag
                (Clear-within m msg 0 (10 + length ds * 4) 2 8 clear (omega arith) (omega arith))
                (omega arith))
            ∙ omega (arith, short))
