-- ===== src/Gsm/Utf8/Next.antt =====
-- helper/gsm.c: `utf8_next` and `utf8_to_ucs2`. The loop of `utf8_next` over the tail of a character
-- does not move on, so it runs on fuel here; `none` is a run that is still in it when the fuel ends.
use Prim.Native.Nat.{bit_and, bit_or}
use sxx_ril.Common.{
  ℕ, zero, suc, ◌%◌, ◌^◌, ◌<◌, ◌≤◌, true, Option, none, some, List, [], ◌∷◌, ◌++◌, leb, ◌==◌,
  if◌then◌else◌, Text, ◌≡◌, ◌≢◌, refl, ap, ◌∙◌, arith,
}
use sxx_ril.Common.Bits.{◌<<<◌, ◌>>>◌, u8, or_left}
use sxx_ril.Gsm.Utf8.{utf8_write, ucs2_write, ucs2_to_utf8, is_tail, tail_length}
use sxx_ril.Gsm.Utf8.Valid.{IsChar, ascii, long, utf8_write-IsChar}

-- `while (p < end && (p[0] & 0xc0) == 0x80) c = (c << 6) | (p[0] & 0x3f)`.
unfoldable pub next_loop : ℕ → ℕ → Text → Option ℕ
next_loop fuel c [] = some c
next_loop zero c (x ∷ p) = if is_tail x then none else some c
next_loop (suc fuel) c (x ∷ p) =
    let rest = next_loop fuel (bit_or (c <<< 6) (bit_and x 0x3f) % 2 ^ 32) (x ∷ p) in
    if is_tail x then rest else some c

abbrev first_bits : ℕ → ℕ
first_bits c =
    if bit_and c 0xe0 == 0xc0
    then bit_and c 0x1f
    else if bit_and c 0xf0 == 0xe0
    then bit_and c 0x0f
    else bit_and c 0x07

-- `utf8_next` on the byte `c` with `p` behind it, and then the cursor is `p`.
unfoldable pub utf8_next : ℕ → ℕ → Text → Option ℕ
unfolding next_loop
utf8_next fuel c p = if leb 128 c then next_loop fuel (first_bits c) p else some c

-- The output for one character and for the rest, unless one of them hangs.
abbrev pub followed {ℓ} : {A : Type ℓ} → (A → A → A) → Option A → Option A → Option A
followed join none rest = none
followed join (some a) none = none
followed join (some a) (some b) = some (join a b)

abbrev pub over {ℓ κ} : {A : Type ℓ} {B : Type κ} → (A → B) → Option A → Option B
over f none = none
over f (some a) = some (f a)

unfoldable pub utf8_to_ucs2 : ℕ → Text → Option (List ℕ)
unfolding utf8_next
utf8_to_ucs2 fuel [] = some []
utf8_to_ucs2 fuel (c ∷ p) =
    followed (λ s t. s ++ t) (over ucs2_write (utf8_next fuel c p)) (utf8_to_ucs2 fuel p)

next_loop_hangs : (fuel c x : ℕ) (p : Text) → is_tail x ≡ true → next_loop fuel c (x ∷ p) ≡ none
unfolding next_loop
next_loop_hangs zero c x p t = rw t refl
next_loop_hangs (suc fuel) c x p t = rw (t, if◌then◌else◌) (next_loop_hangs fuel _ x p t)

no_tail : (c : ℕ) → tail_length c ≢ some 0
no_tail c = ground arith

begins_hang :
    (fuel v : ℕ) (s rest : Text) → 128 ≤ v → IsChar v s → utf8_to_ucs2 fuel (s ++ rest) ≡ none
unfolding utf8_to_ucs2 utf8_next
begins_hang fuel v _ rest h (ascii l) = absurd (omega arith)
begins_hang fuel v _ rest h (long c [] lo hi l t) = absurd (no_tail c l)
begins_hang fuel v _ rest h (long c (x ∷ tails) lo hi l t) =
    rw (high c lo, if◌then◌else◌, next_loop_hangs fuel (first_bits c) x (tails ++ rest) t.0) refl
  where
    high : (c : ℕ) → 0xc0 ≤ c → leb 128 c ≡ true
    high c lo = ground arith

followed_hang : {A : Type 0} (join : A → A → A) (o : Option A) → followed join o none ≡ none
followed_hang join none = refl
followed_hang join (some a) = refl

hang_later : (fuel c : ℕ) (p : Text) → utf8_to_ucs2 fuel p ≡ none → utf8_to_ucs2 fuel (c ∷ p) ≡ none
unfolding utf8_to_ucs2
hang_later fuel c p e = rw e (followed_hang _ _)

-- On a text that holds a character that is not ASCII, `utf8_to_ucs2` never returns, whatever the
-- fuel: `utf8_next` stays in its loop.
pub utf8_to_ucs2_hangs :
    (fuel v : ℕ) (s rest : Text) → 128 ≤ v → utf8_to_ucs2 fuel (s ++ (utf8_write v ++ rest)) ≡ none
utf8_to_ucs2_hangs fuel v [] rest h = begins_hang fuel v (utf8_write v) rest h (utf8_write-IsChar v)
utf8_to_ucs2_hangs fuel v (c ∷ s) rest h =
    hang_later fuel c (s ++ (utf8_write v ++ rest)) (utf8_to_ucs2_hangs fuel v s rest h)

abbrev pub AllAscii : Text → Type 0
AllAscii [] = Unit
AllAscii (c ∷ s) = (c < 128) × AllAscii s

pub utf8_next_ascii : (fuel c : ℕ) (p : Text) → c < 128 → utf8_next fuel c p ≡ some c
unfolding utf8_next
utf8_next_ascii fuel c p h = ground arith

pub utf8_write_ascii : (c : ℕ) → c < 128 → utf8_write c ≡ c ∷ []
unfolding utf8_write
utf8_write_ascii c h = ground arith

ucs2_char : (c : ℕ) (u : List ℕ) → c < 128 → ucs2_to_utf8 (ucs2_write c ++ u) ≡ c ∷ ucs2_to_utf8 u
unfolding ucs2_to_utf8 ucs2_write
ucs2_char c u h =
    ap (λ (v : ℕ). utf8_write v ++ ucs2_to_utf8 u)
      (or_left 8 (u8 (c >>> 8)) (u8 c) (omega arith) ∙ (omega (arith, h)))
    ∙ ap (λ (s : Text). s ++ ucs2_to_utf8 u) (utf8_write_ascii c h)

read_back :
    (c : ℕ) (s : Text) (o : Option (List ℕ))
    → c < 128
    → over ucs2_to_utf8 o ≡ some s
    → over ucs2_to_utf8 (over (λ t. ucs2_write c ++ t) o) ≡ some (c ∷ s)
read_back c s none h e = cc
read_back c s (some u) h e = cc (ucs2_char c u h)

pub followed-over :
    {A : Type 0} (join : A → A → A) (a : A) (o : Option A)
    → followed join (some a) o ≡ over (join a) o
followed-over join a none = refl
followed-over join a (some b) = refl

-- An ASCII text is converted with any fuel, and back it is the same text.
pub ucs2_to_utf8-utf8_to_ucs2 :
    (fuel : ℕ) (s : Text) → AllAscii s → over ucs2_to_utf8 (utf8_to_ucs2 fuel s) ≡ some s
unfolding utf8_to_ucs2
ucs2_to_utf8-utf8_to_ucs2 fuel [] h = unfold ucs2_to_utf8 in refl
ucs2_to_utf8-utf8_to_ucs2 fuel (c ∷ s) h =
    rw
      (
        utf8_next_ascii fuel c s h.0,
        followed-over (λ (s t : Text). s ++ t) (ucs2_write c) (utf8_to_ucs2 fuel s),
      )
      (read_back c s (utf8_to_ucs2 fuel s) h.0 (ucs2_to_utf8-utf8_to_ucs2 fuel s h.1))
