-- ===== src/Tok/Ranges.antt =====
-- at_tok.c: what the readers of numbers return fits the `int` or the flag that they store it in.
use sxx_ril.Common.{
  ℕ, ◌-◌, ◌^◌, Bool, true, false, Option, none, some, [], ◌∷◌, ◌==◌, Text, ◌≡◌, ◌↔◌, ◌⊎◌, arith,
  Bool-cases, inl, inr,
}
use sxx_ril.Common.Int.{ℤ, pos, negsuc, ◌≤ℤ◌}
use sxx_ril.Tok.Strtol.{
  Scan, strtol, strtoul, signed, convert, clamp_long, wrap_ulong, skip_space, starts_number,
  skip_prefix,
}
use sxx_ril.Tok.{
  next_tok, at_tok_nextint, at_tok_nexthexint, at_tok_nextbool, Result, ok, fail, number_of,
  bool_of,
}

-- The range of a 32-bit int.
abbrev pub IsInt : ℤ → Type 0
IsInt z = (negsuc (2 ^ 31 - 1) ≤ℤ z) × (z ≤ℤ pos (2 ^ 31 - 1))

clamp_long-IsInt : (negative : Bool) (n : ℕ) → IsInt (clamp_long negative n)
clamp_long-IsInt true n = ground arith
clamp_long-IsInt false n = ground arith

wrap_ulong-IsInt : (negative : Bool) (n : ℕ) → IsInt (wrap_ulong negative n)
wrap_ulong-IsInt true n = ground arith
wrap_ulong-IsInt false n = ground arith

module _ (finish : Bool → ℕ → ℤ) (fits : (b : Bool) (n : ℕ) → IsInt (finish b n)) where
  convert-IsInt :
      (base : ℕ) (negative : Bool) (s : Text) → IsInt (convert finish base negative s).value
  convert-IsInt base negative s = elim (Bool-cases (starts_number base (skip_prefix base s))) [
    | inl e ↦ rw e (fits negative _)
    | inr e ↦ rw e (omega arith)
  ]

  signed-IsInt : (base : ℕ) (s : Text) → IsInt (signed finish base s).value
  signed-IsInt base [] = convert-IsInt base false []
  signed-IsInt base (c ∷ s) = elim (Bool-cases (c == b'-')) [
    | inl minus ↦ rw minus (convert-IsInt base true s)
    | inr minus ↦ elim (Bool-cases (c == b'+')) [
      | inl plus ↦ rw (minus, plus) (convert-IsInt base false s)
      | inr other ↦ rw (minus, other) (convert-IsInt base false (c ∷ s))
    ]
  ]

strtol-IsInt : (base : ℕ) (s : Text) → IsInt (strtol base s).value
unfolding strtol
strtol-IsInt base s = signed-IsInt clamp_long clamp_long-IsInt base (skip_space s)

strtoul-IsInt : (base : ℕ) (s : Text) → IsInt (strtoul base s).value
unfolding strtoul
strtoul-IsInt base s = signed-IsInt wrap_ulong wrap_ulong-IsInt base (skip_space s)

number_of-IsInt :
    (r : Scan) (cur rest : Option Text) (z : ℤ)
    → IsInt r.value
    → number_of r cur ≡ ok z rest
    → IsInt z
unfolding number_of
number_of-IsInt r cur rest z h e = ground arith

-- Whatever text the modem sends, a number that `at_tok_nextint` or `at_tok_nexthexint` accepts
-- fits a 32-bit int: a longer one is saturated (or, in hexadecimal, read as a bit pattern).
pub nextint-IsInt :
    (cur rest : Option Text) (z : ℤ)
    → (at_tok_nextint cur ≡ ok z rest) ⊎ (at_tok_nexthexint cur ≡ ok z rest)
    → IsInt z
unfolding at_tok_nextint at_tok_nexthexint
nextint-IsInt none rest z (inl e) = cc
nextint-IsInt none rest z (inr e) = cc
nextint-IsInt (some s) rest z (inl e) =
    number_of-IsInt _ (next_tok s).cur rest z (strtol-IsInt 10 (next_tok s).out) e
nextint-IsInt (some s) rest z (inr e) =
    number_of-IsInt _ (next_tok s).cur rest z (strtoul-IsInt 16 (next_tok s).out) e

abbrev pub flag : Bool → ℤ
flag true = pos 1
flag false = pos 0

bool_of_iff :
    (r : Result ℤ) (b : Bool) (rest : Option Text)
    → (bool_of r ≡ ok b rest) ↔ (r ≡ ok (flag b) rest)
unfolding bool_of
bool_of_iff (fail cur) b rest = ground arith
bool_of_iff (ok (negsuc n) cur) true rest = ground arith
bool_of_iff (ok (negsuc n) cur) false rest = ground arith
bool_of_iff (ok (pos n) cur) true rest = ground arith
bool_of_iff (ok (pos n) cur) false rest = ground arith

-- `at_tok_nextbool` accepts exactly the integers 0 and 1 that `at_tok_nextint` reads, and returns
-- them as the flag, with the same cursor.
pub nextbool_iff :
    (cur rest : Option Text) (b : Bool)
    → (at_tok_nextbool cur ≡ ok b rest) ↔ (at_tok_nextint cur ≡ ok (flag b) rest)
unfolding at_tok_nextbool
nextbool_iff cur rest b = bool_of_iff (at_tok_nextint cur) b rest
