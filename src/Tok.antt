-- ===== src/Tok.antt =====
-- at_tok.c: the tokenizer of AT response lines.
-- A cursor `char *` that may be NULL is an `Option Text`: `none` is NULL, `some s` points at `s`.
-- `strsep` cuts the string behind the cursor, which is never read again, so a token is the text
-- up to the separator and the cursor is the text behind it.
pub mod Strtol
pub mod Tokens
pub mod Lines
pub mod Cursor
pub mod Numbers
pub mod Ranges
mod Examples
use sxx_ril.Common.{
  ℕ, Bool, true, false, not, ◌&&◌, ◌||◌, Option, none, some, List, [], ◌∷◌, ◌==◌, leb,
  if◌then◌else◌, Text,
}
use sxx_ril.Common.Int.{ℤ, pos}
use Strtol.{strtol, strtoul, is_space, Scan}

-- The cursor after a call, with the token, the number or the flag of its result.
pub record Read (A : Type 0) : Type 0 where
  pub cur : Option Text
  pub out : A

-- `strchr(s, c)`: the first `c` and what follows it.
pub strchr : Text → ℕ → Option Text
strchr [] c = none
strchr (x ∷ s) c = if x == c then some (x ∷ s) else strchr s c

abbrev tail_of : Option Text → Option Text
tail_of (some (x ∷ s)) = some s
tail_of _ = none

-- The cursor behind the first ':'. `none` is the result -1, on a NULL cursor or with no ':'.
unfoldable pub at_tok_start : Option Text → Option Text
unfolding strchr
at_tok_start none = none
at_tok_start (some s) = tail_of (strchr s b':')

unfoldable pub skip_white_space : Text → Text
skip_white_space [] = []
skip_white_space (c ∷ s) = if is_space c then skip_white_space s else c ∷ s

unfoldable pub skip_next_comma : Text → Text
skip_next_comma [] = []
skip_next_comma (c ∷ s) = if c == b',' then s else skip_next_comma s

-- `strsep(&cur, sep)` with one separator: the token before it, and the cursor behind it or NULL.
unfoldable pub strsep : ℕ → Text → Read Text
strsep sep [] = record { cur = none; out = [] }
strsep sep (c ∷ s) =
    let rest = strsep sep s in
    if c == sep
    then record { cur = some s; out = [] }
    else record { cur = rest.cur; out = c ∷ rest.out }

abbrev over {ℓ} : {A : Type ℓ} → (A → A) → Option A → Option A
over f none = none
over f (some a) = some (f a)

-- On the text behind the white space: a quoted token up to '"', or a plain one up to ','.
next_tok_at : Text → Read Text
unfolding strsep skip_next_comma
next_tok_at [] = strsep b',' []
next_tok_at (c ∷ s) =
    let quoted = strsep b'"' s in
    let plain = strsep b',' (c ∷ s) in
    if c == b'"' then record quoted { cur = over skip_next_comma quoted.cur } else plain

-- `nextTok` on a cursor that is not NULL, the only one that its callers give it.
unfoldable pub next_tok : Text → Read Text
unfolding next_tok_at skip_white_space
next_tok s = next_tok_at (skip_white_space s)

-- The result of a reader: the value, or -1 with the cursor as the call leaves it.
pub data Result (A : Type 0) : Type 0 where
  ok : A → Option Text → Result A
  fail : Option Text → Result A

abbrev pub cursor : {A : Type 0} → Result A → Option Text
cursor (ok a cur) = cur
cursor (fail cur) = cur

pub number_of : Scan → Option Text → Result ℤ
number_of r cur = if r.digits then ok r.value cur else fail cur

abbrev pub at_tok_nextint_base : (Text → Scan) → Option Text → Result ℤ
at_tok_nextint_base scan none = fail none
at_tok_nextint_base scan (some s) = let t = next_tok s in number_of (scan t.out) t.cur

unfoldable pub at_tok_nextint : Option Text → Result ℤ
unfolding number_of next_tok
at_tok_nextint = at_tok_nextint_base (strtol 10)

unfoldable pub at_tok_nexthexint : Option Text → Result ℤ
unfolding number_of next_tok
at_tok_nexthexint = at_tok_nextint_base (strtoul 16)

pub bool_of : Result ℤ → Result Bool
bool_of (fail cur) = fail cur
bool_of (ok (pos n) cur) = if n == 0 then ok false cur else if n == 1 then ok true cur else fail cur
bool_of (ok _ cur) = fail cur

unfoldable pub at_tok_nextbool : Option Text → Result Bool
unfolding bool_of at_tok_nextint
at_tok_nextbool cur = bool_of (at_tok_nextint cur)

unfoldable pub at_tok_nextstr : Option Text → Result Text
unfolding next_tok
at_tok_nextstr none = fail none
at_tok_nextstr (some s) = let t = next_tok s in ok t.out t.cur

unfoldable pub at_tok_hasmore : Option Text → Bool
at_tok_hasmore none = false
at_tok_hasmore (some []) = false
at_tok_hasmore (some _) = true
