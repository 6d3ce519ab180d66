-- ===== src/Gsm/Alphabet/Codes.antt =====
-- helper/gsm.c: the codes of a character and their number.
use sxx_ril.Common.{
  ℕ, suc, ◌+◌, ◌<◌, Bool, true, false, Option, none, some, List, [], ◌∷◌, ◌++◌, length,
  length-append, get_or, ◌==◌, ==_iff, if◌then◌else◌, Text, ◌≡◌, refl, sym, ap, ◌∙◌, ◌⊎◌, ◌↔◌,
  arith, Bool-cases, inl, inr,
}
use sxx_ril.Common.Bits.{passes, passes_lem}
use sxx_ril.Gsm.Utf8.Next.{utf8_next, followed, over}
use sxx_ril.Gsm.Alphabet.{
  gsm7bits_to_unicode, index_from, unichar_to_gsm7, unichar_to_gsm7_extend, unichar_to_gsm7_count,
  utf8_to_gsm7_count, codes_of, count_of, at_least_1, gsm_codes, utf8_to_gsm8,
}

IndexAt : List ℕ → ℕ → ℕ → ℕ → Type 0
IndexAt table nn v k = (j : ℕ) × (k ≡ nn + j) × (j < length table) × (get_or table j 0 ≡ v)

-- The index that the loop returns is that of the character in the table.
index_from_at :
    (table : List ℕ) (nn k v : ℕ) → index_from nn v table ≡ some k → IndexAt table nn v k
unfolding index_from IndexAt
index_from_at [] nn k v e = cc
index_from_at (u ∷ table) nn k v e = step (Bool-cases (u == v)) e (index_from_at table (suc nn) k v)
  where
    step :
        (u == v ≡ true) ⊎ (u == v ≡ false)
        → (if u == v then some nn else index_from (suc nn) v table) ≡ some k
        → (index_from (suc nn) v table ≡ some k → IndexAt table (suc nn) v k)
        → IndexAt (u ∷ table) nn v k
    step (inl b) e rest = (0, ground arith, omega arith, (==_iff u v).0 b)
    step (inr b) e rest =
        let r = rest (ground arith) in (suc r.0, omega (arith, r.1), omega (arith, r.2), r.3)

pub index_from-below : (table : List ℕ) (v k : ℕ) → index_from 0 v table ≡ some k → k < length table
unfolding IndexAt
index_from-below table v k e =
    let (j, at, below, found) = index_from_at table 0 k v e in omega (arith, at, below)

is_index : ℕ → Option ℕ → Bool
is_index n none = false
is_index n (some m) = m == n

is_index_lem : (n : ℕ) (o : Option ℕ) → is_index n o ≡ true → o ≡ some n
unfolding is_index
is_index_lem n none h = cc
is_index_lem n (some m) h = ap some ((==_iff m n).0 h)

code_table : passes (λ n. is_index n (unichar_to_gsm7 (get_or gsm7bits_to_unicode n 0))) 128 ≡ true
unfolding passes is_index unichar_to_gsm7
code_table = refl

in_table : (v k : ℕ) → unichar_to_gsm7 v ≡ some k → IndexAt gsm7bits_to_unicode 0 v k
unfolding unichar_to_gsm7
in_table v k e = index_from_at gsm7bits_to_unicode 0 k v e

at_index :
    (v k : ℕ) → IndexAt gsm7bits_to_unicode 0 v k → (k < 128) × (get_or gsm7bits_to_unicode k 0 ≡ v)
unfolding IndexAt
at_index v k (j, e, l, g) = (
  omega (arith, e, l),
  ap (λ (i : ℕ). get_or gsm7bits_to_unicode i 0) {x = k} {y = j} (omega (arith, e)) ∙ g,
)

-- `unichar_to_gsm7` finds exactly the index of a character in the table of 128 codes, in which no
-- character stands twice.
pub unichar_to_gsm7_iff :
    (v k : ℕ) → (unichar_to_gsm7 v ≡ some k) ↔ ((k < 128) × (get_or gsm7bits_to_unicode k 0 ≡ v))
unichar_to_gsm7_iff v k = (λ e. at_index v k (in_table v k e), back)
  where
    back : (k < 128) × (get_or gsm7bits_to_unicode k 0 ≡ v) → unichar_to_gsm7 v ≡ some k
    back (h, e) =
        ap unichar_to_gsm7 (sym e)
        ∙ is_index_lem k _ (
            passes_lem (λ n. is_index n (unichar_to_gsm7 (get_or gsm7bits_to_unicode n 0))) 128 k
              code_table h)

length_codes : (o p : Option ℕ) → length (codes_of o p) ≡ at_least_1 (count_of o p)
length_codes (some n) p = refl
length_codes none (some n) = refl
length_codes none none = refl

pub length-gsm_codes : (v : ℕ) → length (gsm_codes v) ≡ at_least_1 (unichar_to_gsm7_count v)
unfolding gsm_codes unichar_to_gsm7_count
length-gsm_codes v = length_codes (unichar_to_gsm7 v) (unichar_to_gsm7_extend v)

length-followed :
    (o : Option ℕ) (r : Option (List ℕ))
    → over length (followed (λ s t. s ++ t) (over gsm_codes o) r)
      ≡ followed (λ m n. m + n) (over (λ v. at_least_1 (unichar_to_gsm7_count v)) o) (over length r)
length-followed none r = refl
length-followed (some v) none = refl
length-followed (some v) (some t) =
    ap some (length-append (gsm_codes v) t ∙ ap (λ (m : ℕ). m + length t) (length-gsm_codes v))

-- `utf8_to_gsm7_count` is the number of the codes that `utf8_to_gsm8` writes, on every text.
pub length-utf8_to_gsm8 :
    (fuel : ℕ) (s : Text) → over length (utf8_to_gsm8 fuel s) ≡ utf8_to_gsm7_count fuel s
unfolding utf8_to_gsm8 utf8_to_gsm7_count
length-utf8_to_gsm8 fuel [] = refl
length-utf8_to_gsm8 fuel (c ∷ s) =
    length-followed (utf8_next fuel c s) (utf8_to_gsm8 fuel s)
    ∙ ap
        (followed (λ m n. m + n)
          (over (λ v. at_least_1 (unichar_to_gsm7_count v)) (utf8_next fuel c s)))
        (length-utf8_to_gsm8 fuel s)
