-- ===== src/Tok/Numbers.antt =====
-- at_tok.c: numbers in decimal are read back by `at_tok_nextint`, which never leaves the range of
-- an int.
use sxx_ril.Common.{
  ℕ, zero, suc, ◌+◌, ◌-◌, ◌*◌, ◌/◌, ◌%◌, ◌^◌, ◌<◌, ◌≤◌, min, true, some, none, [], ◌∷◌, ◌++◌,
  if◌then◌else◌, Text, ◌≡◌, refl, ap, ◌∙◌, arith, ltb, Bool-cases, inl, inr,
}
use sxx_ril.Common.Int.{ℤ, pos, negsuc, ◌≤ℤ◌, sub_ℕ}
use sxx_ril.Tok.Strtol.{
  is_space, digits_value, starts_number, skip_prefix, skip_space, strtol, Scan,
}
use sxx_ril.Tok.Tokens.{Free}
use sxx_ril.Tok.Lines.{IsPlain, Spaces, next_tok-Spaces, next_tok_plain, next_tok_plain_last}
use sxx_ril.Tok.{Read, next_tok, at_tok_nextint, Result, ok, number_of}

-- The decimal digits of `n` in front of `rest`; `n` rounds are enough.
abbrev decimal_onto : ℕ → ℕ → Text → Text
decimal_onto zero n rest = (b'0' + n % 10) ∷ rest
decimal_onto (suc f) n rest =
    let more = decimal_onto f (n / 10) ((b'0' + n % 10) ∷ rest) in
    if ltb n 10 then (b'0' + n % 10) ∷ rest else more

pub decimal : ℕ → Text
decimal n = decimal_onto n n []

-- An integer as `printf("%d")` writes it.
pub decimal_int : ℤ → Text
decimal_int (pos n) = decimal n
decimal_int (negsuc n) = b'-' ∷ decimal (suc n)

abbrev IsDigit : ℕ → Type 0
IsDigit c = (b'0' ≤ c) × (c ≤ b'9')

abbrev IsDigits : Text → Type 0
IsDigits [] = Unit {0}
IsDigits (c ∷ s) = IsDigit c × IsDigits s

digits_value-digit :
    (a d : ℕ) (rest : Text)
    → d < 10
    → digits_value 10 a ((b'0' + d) ∷ rest) ≡ digits_value 10 (a * 10 + d) rest
unfolding digits_value
digits_value-digit a d rest h = ground arith

digits_value-decimal_onto :
    (f n : ℕ) (rest : Text)
    → n ≤ f
    → digits_value 10 0 (decimal_onto f n rest) ≡ digits_value 10 n rest
digits_value-decimal_onto zero n rest h =
    digits_value-digit 0 (n % 10) rest (omega arith)
    ∙ ap (λ (t : ℕ). digits_value 10 t rest) (omega arith)
digits_value-decimal_onto (suc f) n rest h = elim (Bool-cases (ltb n 10)) [
  | inl small ↦ rw small (
      digits_value-digit 0 (n % 10) rest (omega arith)
      ∙ ap (λ (t : ℕ). digits_value 10 t rest) (ground arith))
  | inr large ↦ rw large (
      digits_value-decimal_onto f (n / 10) ((b'0' + n % 10) ∷ rest) (ground arith)
      ∙ digits_value-digit (n / 10) (n % 10) rest (omega arith)
      ∙ ap (λ (t : ℕ). digits_value 10 t rest) (omega arith))
]

digits_value-decimal : (n : ℕ) → digits_value 10 0 (decimal n) ≡ n
unfolding decimal digits_value
digits_value-decimal n = digits_value-decimal_onto n n [] (omega arith)

decimal_onto-IsDigits : (f n : ℕ) (rest : Text) → IsDigits rest → IsDigits (decimal_onto f n rest)
decimal_onto-IsDigits zero n rest h = (omega arith, h)
decimal_onto-IsDigits (suc f) n rest h = elim (Bool-cases (ltb n 10)) [
  | inl small ↦ rw small (omega arith, h)
  | inr large ↦ rw large (decimal_onto-IsDigits f (n / 10) _ (omega arith, h))
]

abbrev Starts : Text → Type 0
Starts s = (c : ℕ) × (t : Text) × (s ≡ c ∷ t)

decimal_onto-Starts : (f n : ℕ) (rest : Text) → Starts (decimal_onto f n rest)
decimal_onto-Starts zero n rest = (_, rest, refl)
decimal_onto-Starts (suc f) n rest = elim (Bool-cases (ltb n 10)) [
  | inl small ↦ rw small (_, rest, refl)
  | inr large ↦ rw large (decimal_onto-Starts f (n / 10) _)
]

skip_prefix_ten : (s : Text) → skip_prefix 10 s ≡ s
unfolding skip_prefix
skip_prefix_ten [] = refl
skip_prefix_ten (a ∷ []) = refl
skip_prefix_ten (a ∷ b ∷ s) = refl

starts_number-digit : (c : ℕ) (s : Text) → IsDigit c → starts_number 10 (c ∷ s) ≡ true
unfolding starts_number
starts_number-digit c s h = ground arith

skip_space-digit : (c : ℕ) (s : Text) → IsDigit c → skip_space (c ∷ s) ≡ c ∷ s
unfolding skip_space
skip_space-digit c s h = ground arith

strtol-digits :
    (c : ℕ) (s : Text)
    → IsDigit c
    → strtol 10 (c ∷ s)
      ≡ record { digits = true; value = pos (min (digits_value 10 0 (c ∷ s)) (2 ^ 31 - 1)) }
unfolding strtol
strtol-digits c s h =
    ground (arith, skip_space-digit c s h, skip_prefix_ten (c ∷ s), starts_number-digit c s h)

strtol-minus :
    (c : ℕ) (s : Text)
    → IsDigit c
    → strtol 10 (b'-' ∷ c ∷ s)
      ≡ record { digits = true; value = sub_ℕ 0 (min (digits_value 10 0 (c ∷ s)) (2 ^ 31)) }
unfolding strtol skip_space
strtol-minus c s h = ground (arith, skip_prefix_ten (c ∷ s), starts_number-digit c s h)

-- The decimal digits of `n`, with a digit in front.
abbrev Digits : ℕ → Text → Type 0
Digits n s = (c : ℕ) × (t : Text) × (s ≡ c ∷ t) × IsDigit c × IsDigits t

decimal-Digits : (n : ℕ) → Digits n (decimal n)
unfolding decimal
decimal-Digits n = go (decimal_onto-Starts n n []) (decimal_onto-IsDigits n n [] tt)
  where
    go :
        Starts (decimal_onto n n [])
        → IsDigits (decimal_onto n n [])
        → Digits n (decimal_onto n n [])
    go (c, t, e) all = let both : IsDigits (c ∷ t) = rw e at all in (c, t, e, both.0, both.1)

strtol-decimal_int :
    (z : ℤ)
    → negsuc (2 ^ 31 - 1) ≤ℤ z
    → z ≤ℤ pos (2 ^ 31 - 1)
    → strtol 10 (decimal_int z) ≡ record { digits = true; value = z }
unfolding decimal_int
strtol-decimal_int (pos n) lo hi =
    let (c, t, e, d, _) = decimal-Digits n in
    rw e (strtol-digits c t d ∙ ground (arith, digits_value-decimal n, e))
strtol-decimal_int (negsuc n) lo hi =
    let (c, t, e, d, _) = decimal-Digits (suc n) in
    rw e (strtol-minus c t d ∙ ground (arith, digits_value-decimal (suc n), e))

-- The text of a number holds no ',' and begins with no '"' or white space.
IsDigits-Free : (w : Text) → IsDigits w → Free b',' w
IsDigits-Free [] h = tt
IsDigits-Free (c ∷ w) h = (ground arith, IsDigits-Free w h.1)

decimal-Free : (n : ℕ) → Free b',' (decimal n)
decimal-Free n = let (c, t, e, d, ds) = decimal-Digits n in rw e (IsDigits-Free (c ∷ t) (d, ds))

IsPlain-digits : (c : ℕ) (w : Text) → IsDigit c → IsDigits w → IsPlain (c ∷ w)
unfolding is_space
IsPlain-digits c w h hs = (ground arith, ground arith, IsDigits-Free (c ∷ w) (h, hs))

decimal_int-IsPlain : (z : ℤ) → IsPlain (decimal_int z)
unfolding decimal_int is_space
decimal_int-IsPlain (pos n) =
    let (c, t, e, d, ds) = decimal-Digits n in rw e (IsPlain-digits c t d ds)
decimal_int-IsPlain (negsuc n) = (refl, refl, (refl, decimal-Free (suc n)))

abbrev int_read : Read Text → Result ℤ
int_read t = number_of (strtol 10 t.out) t.cur

nextint_next_tok : (s : Text) → at_tok_nextint (some s) ≡ int_read (next_tok s)
unfolding at_tok_nextint
nextint_next_tok s = refl

-- An integer in the range of an int, written in decimal behind any white space and in front of a
-- ',', is read back, and the cursor then stands behind the ','.
pub nextint-decimal_int :
    (z : ℤ) (pad rest : Text)
    → negsuc (2 ^ 31 - 1) ≤ℤ z
    → z ≤ℤ pos (2 ^ 31 - 1)
    → Spaces pad
    → at_tok_nextint (some (pad ++ (decimal_int z ++ (b',' ∷ rest)))) ≡ ok z (some rest)
nextint-decimal_int z pad rest lo hi blank =
    nextint_next_tok _
    ∙ ap int_read
        (next_tok-Spaces pad _ blank ∙ next_tok_plain (decimal_int z) rest (decimal_int-IsPlain z))
    ∙ ap (λ (r : Scan). number_of r (some rest)) (strtol-decimal_int z lo hi)
    ∙ (unfold number_of in refl)

-- The same at the end of the line, where the cursor becomes NULL.
pub nextint-decimal_int_last :
    (z : ℤ) (pad : Text)
    → negsuc (2 ^ 31 - 1) ≤ℤ z
    → z ≤ℤ pos (2 ^ 31 - 1)
    → Spaces pad
    → at_tok_nextint (some (pad ++ decimal_int z)) ≡ ok z none
nextint-decimal_int_last z pad lo hi blank =
    nextint_next_tok _
    ∙ ap int_read
        (next_tok-Spaces pad _ blank ∙ next_tok_plain_last (decimal_int z) (decimal_int-IsPlain z))
    ∙ ap (λ (r : Scan). number_of r none) (strtol-decimal_int z lo hi)
    ∙ (unfold number_of in refl)
