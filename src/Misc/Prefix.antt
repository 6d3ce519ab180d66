-- ===== src/Misc/Prefix.antt =====
-- misc.c: `strStartsWith` and `strstr` against the splittings of a text.
use sxx_ril.Common.{
  ℕ, zero, suc, true, Option, none, some, [], ◌∷◌, ◌++◌, ◌==◌, Text, drop, ◌≡◌, refl, ◌↔◌, arith,
  ==_iff, Bool-cases, inl, inr, ap₂,
}
use sxx_ril.Misc.{str_starts_with, strstr, bump}

-- A line is its prefix and some rest.
abbrev pub Begins : Text → Text → Type 0
Begins line prefix = (rest : Text) × (line ≡ prefix ++ rest)

str_starts_with→Begins :
    (line prefix : Text) → str_starts_with line prefix ≡ true → Begins line prefix
unfolding str_starts_with
str_starts_with→Begins line [] h = (line, refl)
str_starts_with→Begins [] (p ∷ prefix) h = cc
str_starts_with→Begins (c ∷ line) (p ∷ prefix) h = elim (Bool-cases (c == p)) [
  | inl e ↦
      let (rest, r) = str_starts_with→Begins line prefix (ground arith) in
      (rest, ap₂ ◌∷◌ ((==_iff c p).0 e) r)
  | inr e ↦ ground arith
]

pub str_starts_with-append : (prefix rest : Text) → str_starts_with (prefix ++ rest) prefix ≡ true
unfolding str_starts_with
str_starts_with-append [] rest = refl
str_starts_with-append (p ∷ prefix) rest = ground (arith, str_starts_with-append prefix rest)

-- `strStartsWith` returns 1 exactly when the line is the prefix with something behind it.
pub str_starts_with_iff :
    (line prefix : Text) → (str_starts_with line prefix ≡ true) ↔ Begins line prefix
str_starts_with_iff line prefix =
    (str_starts_with→Begins line prefix, λ (rest, e). rw e (str_starts_with-append prefix rest))

Begins-drop :
    (c k : ℕ) (s t : Text) (o : Option ℕ)
    → ((j : ℕ) → o ≡ some j → Begins (drop j s) t)
    → bump o ≡ some k
    → Begins (drop k (c ∷ s)) t
Begins-drop c k s t none ih h = cc
Begins-drop c zero s t (some j) ih h = absurd (ground arith)
Begins-drop c (suc k) s t (some j) ih h = ih k (ground arith)

-- At the offset that `strstr` returns, the text goes on with what was looked for.
pub strstr-Begins : (s t : Text) (k : ℕ) → strstr s t ≡ some k → Begins (drop k s) t
unfolding strstr
strstr-Begins [] t zero h = (str_starts_with_iff [] t).0 (ground arith)
strstr-Begins [] t (suc k) h = absurd (ground arith)
strstr-Begins (c ∷ s) t k h = elim (Bool-cases (str_starts_with (c ∷ s) t)) [
  | inl e ↦
      let at_start : 0 ≡ k = ground arith in rw (← at_start) ((str_starts_with_iff (c ∷ s) t).0 e)
  | inr e ↦ Begins-drop c k s t (strstr s t) (λ j. strstr-Begins s t j) (rw e at h)
]
