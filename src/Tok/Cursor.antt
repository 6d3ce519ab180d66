-- ===== src/Tok/Cursor.antt =====
-- at_tok.c: every read moves the cursor on, so a loop over the tokens of a line ends.
use sxx_ril.Common.{
  ℕ, suc, ◌<◌, ◌≤◌, true, Option, none, some, [], ◌∷◌, ◌==◌, Text, length, ◌≡◌, refl, arith,
  Bool-cases, inl, inr,
}
use sxx_ril.Common.Int.{ℤ, pos, negsuc}
use sxx_ril.Tok.Strtol.{Scan, strtol, strtoul}
use sxx_ril.Tok.{
  strsep, skip_white_space, skip_next_comma, next_tok, next_tok_at, at_tok_nextstr, at_tok_nextint,
  at_tok_nextbool, at_tok_nexthexint, at_tok_hasmore, Result, ok, fail, cursor, over, number_of,
  bool_of, at_tok_nextint_base,
}

-- What is left to read: 0 at NULL, and one more than the length of the text otherwise.
abbrev pub left : Option Text → ℕ
left none = 0
left (some s) = suc (length s)

strsep-left : (c : ℕ) (s : Text) → left (strsep c s).cur ≤ length s
unfolding strsep
strsep-left c [] = omega arith
strsep-left c (x ∷ s) = ground (arith, strsep-left c s)

skip_next_comma-left : (s : Text) → length (skip_next_comma s) ≤ length s
unfolding skip_next_comma
skip_next_comma-left [] = omega arith
skip_next_comma-left (c ∷ s) = ground (arith, skip_next_comma-left s)

skip_white_space-left : (s : Text) → length (skip_white_space s) ≤ length s
unfolding skip_white_space
skip_white_space-left [] = omega arith
skip_white_space-left (c ∷ s) = ground (arith, skip_white_space-left s)

over_comma-left : (cur : Option Text) → left (over skip_next_comma cur) ≤ left cur
over_comma-left none = omega arith
over_comma-left (some s) = omega (arith, skip_next_comma-left s)

next_tok_at-left : (s : Text) → left (next_tok_at s).cur ≤ length s
unfolding next_tok_at
next_tok_at-left [] = omega arith
next_tok_at-left (c ∷ s) = elim (Bool-cases (c == b'"')) [
  | inl q ↦ rw q (omega (arith, over_comma-left (strsep b'"' s).cur, strsep-left b'"' s))
  | inr p ↦ rw p (strsep-left b',' (c ∷ s))
]

pub next_tok-left : (s : Text) → left (next_tok s).cur < left (some s)
unfolding next_tok
next_tok-left s = omega (arith, next_tok_at-left (skip_white_space s), skip_white_space-left s)

cursor-number_of : (r : Scan) (cur : Option Text) → cursor (number_of r cur) ≡ cur
unfolding number_of
cursor-number_of r cur = ground arith

cursor-bool_of : (r : Result ℤ) → cursor (bool_of r) ≡ cursor r
unfolding bool_of
cursor-bool_of (fail cur) = refl
cursor-bool_of (ok (pos n) cur) = ground arith
cursor-bool_of (ok (negsuc n) cur) = refl

nextint_base-left :
    (scan : Text → Scan) (s : Text)
    → left (cursor (at_tok_nextint_base scan (some s))) < left (some s)
nextint_base-left scan s =
    rw (cursor-number_of (scan (next_tok s).out) (next_tok s).cur) (next_tok-left s)

nextint-left : (s : Text) → left (cursor (at_tok_nextint (some s))) < left (some s)
unfolding at_tok_nextint
nextint-left s = nextint_base-left (strtol 10) s

nexthexint-left : (s : Text) → left (cursor (at_tok_nexthexint (some s))) < left (some s)
unfolding at_tok_nexthexint
nexthexint-left s = nextint_base-left (strtoul 16) s

nextstr-left : (s : Text) → left (cursor (at_tok_nextstr (some s))) < left (some s)
unfolding at_tok_nextstr
nextstr-left s = next_tok-left s

nextbool-left : (s : Text) → left (cursor (at_tok_nextbool (some s))) < left (some s)
unfolding at_tok_nextbool
nextbool-left s = rw (cursor-bool_of (at_tok_nextint (some s))) (nextint-left s)

-- On a cursor with more to read, each of the four readers, whether it fails or not, leaves a
-- cursor that is strictly further on.
pub readers-left :
    (cur : Option Text)
    → at_tok_hasmore cur ≡ true
    → (left (cursor (at_tok_nextstr cur)) < left cur)
      × (left (cursor (at_tok_nextint cur)) < left cur)
      × (left (cursor (at_tok_nexthexint cur)) < left cur)
      × (left (cursor (at_tok_nextbool cur)) < left cur)
unfolding at_tok_hasmore
readers-left none h = cc
readers-left (some s) h = (nextstr-left s, nextint-left s, nexthexint-left s, nextbool-left s)
