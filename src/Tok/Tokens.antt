-- ===== src/Tok/Tokens.antt =====
-- at_tok.c: which text each reader takes, and how far the cursor moves.
use sxx_ril.Common.{
  ℕ, false, none, some, [], ◌∷◌, ◌++◌, ◌==◌, Text, ◌≡◌, refl, ◌↔◌, ap, ◌∙◌, arith, ==_iff,
  Bool-cases, ◌⊎◌, inl, inr,
}
use sxx_ril.Tok.{strchr, strsep, skip_next_comma, at_tok_start}

-- The byte `c` does not occur.
abbrev pub Free : ℕ → Text → Type 0
Free c [] = Unit {0}
Free c (x ∷ s) = ((x == c) ≡ false) × Free c s

strchr-Free : (c : ℕ) (w rest : Text) → Free c w → strchr (w ++ (c ∷ rest)) c ≡ some (c ∷ rest)
unfolding strchr
strchr-Free c [] rest h = ground arith
strchr-Free c (x ∷ w) rest h = rw h.0 (strchr-Free c w rest h.1)

strchr-none : (c : ℕ) (w : Text) → Free c w → strchr w c ≡ none
unfolding strchr
strchr-none c [] h = refl
strchr-none c (x ∷ w) h = rw h.0 (strchr-none c w h.1)

-- A text has the byte at a first place, or not at all.
abbrev FirstAt : ℕ → Text → Type 0
FirstAt c s = (w : Text) × (rest : Text) × Free c w × (s ≡ w ++ (c ∷ rest))

FirstAt-cons : (c x : ℕ) (s : Text) → (x == c) ≡ false → FirstAt c s → FirstAt c (x ∷ s)
FirstAt-cons c x s ne (w, rest, f, e) = (x ∷ w, rest, (ne, f), ap (◌∷◌ x) e)

first_or_Free : (c : ℕ) (s : Text) → FirstAt c s ⊎ Free c s
first_or_Free c [] = inr tt
first_or_Free c (x ∷ s) = elim (Bool-cases (x == c)) [
  | inl e ↦ inl ([], s, tt, ap (λ (y : ℕ). y ∷ s) ((==_iff x c).0 e))
  | inr ne ↦ elim (first_or_Free c s) [
    | inl found ↦ inl (FirstAt-cons c x s ne found)
    | inr free ↦ inr (ne, free)
  ]
]

at_tok_start-colon :
    (w rest : Text) → Free b':' w → at_tok_start (some (w ++ (b':' ∷ rest))) ≡ some rest
unfolding at_tok_start
at_tok_start-colon w rest h = rw (strchr-Free b':' w rest h)

at_tok_start-none : (w : Text) → Free b':' w → at_tok_start (some w) ≡ none
unfolding at_tok_start
at_tok_start-none w h = rw (strchr-none b':' w h)

-- `at_tok_start` succeeds exactly on the texts that hold a ':', and then the cursor stands behind
-- the first one.
pub at_tok_start_iff :
    (s rest : Text)
    → (at_tok_start (some s) ≡ some rest) ↔ ((w : Text) × Free b':' w × (s ≡ w ++ (b':' ∷ rest)))
at_tok_start_iff s rest = (there (first_or_Free b':' s), back)
  where
    there :
        FirstAt b':' s ⊎ Free b':' s
        → at_tok_start (some s) ≡ some rest
        → (w : Text) × Free b':' w × (s ≡ w ++ (b':' ∷ rest))
    there (inl (w, r, f, e)) h =
        let r_is : r ≡ rest = cc (at_tok_start-colon w r f) in
        (w, f, e ∙ ap (λ (t : Text). w ++ (b':' ∷ t)) r_is)
    there (inr f) h = cc (at_tok_start-none s f)

    back : (w : Text) × Free b':' w × (s ≡ w ++ (b':' ∷ rest)) → at_tok_start (some s) ≡ some rest
    back (w, f, e) = rw e (at_tok_start-colon w rest f)

pub strsep-Free :
    (c : ℕ) (w rest : Text)
    → Free c w
    → strsep c (w ++ (c ∷ rest)) ≡ record { cur = some rest; out = w }
unfolding strsep
strsep-Free c [] rest h = ground arith
strsep-Free c (x ∷ w) rest h = rw (h.0, strsep-Free c w rest h.1)

pub strsep_all : (c : ℕ) (w : Text) → Free c w → strsep c w ≡ record { cur = none; out = w }
unfolding strsep
strsep_all c [] h = refl
strsep_all c (x ∷ w) h = rw (h.0, strsep_all c w h.1)

pub skip_next_comma-Free :
    (w rest : Text) → Free b',' w → skip_next_comma (w ++ (b',' ∷ rest)) ≡ rest
unfolding skip_next_comma
skip_next_comma-Free [] rest h = refl
skip_next_comma-Free (x ∷ w) rest h = rw h.0 (skip_next_comma-Free w rest h.1)
