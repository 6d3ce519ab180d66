-- ===== src/Tok/Strtol.antt =====
-- `strtol` and `strtoul` of the C library, in the bases 10 and 16 that the source uses, for a
-- 32-bit `long` as on the 32-bit Android targets of the library; `(int)` of the result is taken too.
use sxx_ril.Common.{
  ℕ, ◌+◌, ◌-◌, ◌*◌, ◌%◌, ◌^◌, min, Bool, true, false, ◌&&◌, ◌||◌, [], ◌∷◌, ◌==◌, leb, ltb,
  if◌then◌else◌, Text,
}
use sxx_ril.Common.Int.{ℤ, pos, negsuc, sub_ℕ}

abbrev within : ℕ → ℕ → ℕ → Bool
within lo hi c = leb lo c && leb c hi

-- The white space of the C locale.
unfoldable pub is_space : ℕ → Bool
is_space c = c == b' ' || within 9 13 c

-- The value of a digit in any base up to 36; 36 is no digit.
unfoldable pub digit : ℕ → ℕ
digit c =
    if within b'0' b'9' c
    then c - b'0'
    else if within b'a' b'z' c
    then c - b'a' + 10
    else if within b'A' b'Z' c
    then c - b'A' + 10
    else 36

-- The value of the leading digits after `acc`.
unfoldable pub digits_value : ℕ → ℕ → Text → ℕ
unfolding digit
digits_value base acc [] = acc
digits_value base acc (c ∷ s) =
    let rest = digits_value base (acc * base + digit c) s in
    if ltb (digit c) base then rest else acc

-- `digits` is false when no conversion is made, `end == ret` in the source.
pub record Scan : Type 0 where
  pub digits : Bool
  pub value : ℤ

unfoldable pub starts_number : ℕ → Text → Bool
unfolding digit
starts_number base [] = false
starts_number base (c ∷ s) = ltb (digit c) base

-- "0x" in front of a digit of base 16 is skipped.
unfoldable pub skip_prefix : ℕ → Text → Text
unfolding starts_number
skip_prefix base (z ∷ x ∷ s) =
    if base == 16 && z == b'0' && (x == b'x' || x == b'X') && starts_number 16 s
    then s
    else z ∷ x ∷ s
skip_prefix base s = s

abbrev pub convert : (Bool → ℕ → ℤ) → ℕ → Bool → Text → Scan
convert finish base negative s =
    let t = skip_prefix base s in
    record {
      digits = starts_number base t;
      value = if starts_number base t then finish negative (digits_value base 0 t) else pos 0;
    }

abbrev pub signed : (Bool → ℕ → ℤ) → ℕ → Text → Scan
signed finish base [] = convert finish base false []
signed finish base (c ∷ s) =
    if c == b'-'
    then convert finish base true s
    else if c == b'+'
    then convert finish base false s
    else convert finish base false (c ∷ s)

unfoldable pub skip_space : Text → Text
unfolding is_space
skip_space [] = []
skip_space (c ∷ s) = if is_space c then skip_space s else c ∷ s

-- Saturated to the range of `long`.
abbrev pub clamp_long : Bool → ℕ → ℤ
clamp_long negative n = if negative then sub_ℕ 0 (min n (2 ^ 31)) else pos (min n (2 ^ 31 - 1))

-- The int that a 32-bit pattern stands for.
abbrev pub to_int : ℕ → ℤ
to_int w = if ltb w (2 ^ 31) then pos w else negsuc (2 ^ 32 - w - 1)

-- Saturated to ULONG_MAX, or else negated modulo 2 ^ 32 after a '-'.
abbrev pub wrap_ulong : Bool → ℕ → ℤ
wrap_ulong negative n =
    if leb (2 ^ 32) n
    then to_int (2 ^ 32 - 1)
    else to_int (if negative then (2 ^ 32 - n) % 2 ^ 32 else n)

unfoldable pub strtol : ℕ → Text → Scan
unfolding skip_space starts_number digits_value skip_prefix
strtol base s = signed clamp_long base (skip_space s)

unfoldable pub strtoul : ℕ → Text → Scan
unfolding skip_space starts_number digits_value skip_prefix
strtoul base s = signed wrap_ulong base (skip_space s)
