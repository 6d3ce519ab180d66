-- ===== src/Misc/Elements.antt =====
-- misc.c: what `getFirstElementValue` returns is between the two tags.
use sxx_ril.Common.{
  ℕ, zero, suc, ◌+◌, ◌-◌, ◌<◌, ◌≤◌, Option, none, some, [], ◌∷◌, ◌++◌, Text, length, take, drop,
  ◌≡◌, refl, sym, ap, ap₂, ◌∙◌, arith, Bool-cases, inl, inr, take-append-drop, ltb,
}
use sxx_ril.Misc.Prefix.{Begins, strstr-Begins}
use sxx_ril.Misc.{
  strstr, Element, absent, fault, found, cut_value, find_end, find_begin, get_first_element_value,
}

drop-append : (s t : Text) → drop (length s) (s ++ t) ≡ t
drop-append [] t = refl
drop-append (x ∷ s) t = drop-append s t

drop_nil : (n : ℕ) → drop {A = ℕ} n [] ≡ []
drop_nil zero = refl
drop_nil (suc n) = refl

drop-add : (j k : ℕ) (s : Text) → drop (j + k) s ≡ drop k (drop j s)
drop-add zero k s = ap (λ (n : ℕ). drop n s) {y = k} (omega arith)
drop-add (suc j) k [] = drop_nil (suc j + k) ∙ sym (drop_nil k)
drop-add (suc j) k (x ∷ s) =
    ap (λ (n : ℕ). drop n (x ∷ s)) {y = suc (j + k)} (omega arith) ∙ drop-add j k s

-- With the begin tag at the start and the end tag `k` bytes on, behind it.
split_element :
    (b e start : Text) (k : ℕ)
    → length b ≤ k
    → Begins start b
    → Begins (drop k start) e
    → start ≡ b ++ (take (k - length b) (drop (length b) start) ++ (e ++ drop (k + length e) start))
split_element b e start k fits (r, eb) (r', ee) =
    eb ∙ ap (λ (t : Text). b ++ t) (sym (take-append-drop (k - length b) r) ∙ ap₂ ◌++◌ value tail)
  where
    behind : drop (length b) start ≡ r
    behind = ap (λ (t : Text). drop (length b) t) eb ∙ drop-append b r

    value : take (k - length b) r ≡ take (k - length b) (drop (length b) start)
    value = ap (λ (t : Text). take (k - length b) t) (sym behind)

    at_end : drop (k - length b) r ≡ drop k start
    at_end =
        ap (λ (t : Text). drop (k - length b) t) (sym behind)
        ∙ sym (drop-add (length b) (k - length b) start)
        ∙ ap (λ (n : ℕ). drop n start) (omega arith)

    rest : drop (k + length e) start ≡ r'
    rest = drop-add k (length e) start ∙ ap (λ (t : Text). drop (length e) t) ee ∙ drop-append e r'

    tail : drop (k - length b) r ≡ e ++ drop (k + length e) start
    tail = at_end ∙ ee ∙ ap (λ (t : Text). e ++ t) (sym rest)

-- What each result says of a document whose begin tag is found at `start`.
abbrev Cut : Text → Text → Text → Element → Type 0
Cut b e start absent = Unit {0}
Cut b e start fault = Begins start b × ((k : ℕ) × (k < length b) × Begins (drop k start) e)
Cut b e start (found v rest) = start ≡ b ++ (v ++ (e ++ rest))

cut_value-Cut :
    (b e start : Text) (k : ℕ)
    → Begins start b
    → Begins (drop k start) e
    → Cut b e start (cut_value b e start k)
unfolding cut_value
cut_value-Cut b e start k hb he = elim (Bool-cases (ltb k (length b))) [
  | inl early ↦ rw early (hb, (k, ground arith, he))
  | inr late ↦ rw late (split_element b e start k (ground arith) hb he)
]

find_end-Cut :
    (b e start : Text) (o : Option ℕ)
    → strstr start e ≡ o
    → Begins start b
    → Cut b e start (find_end b e start o)
unfolding find_end
find_end-Cut b e start none s hb = tt
find_end-Cut b e start (some k) s hb = cut_value-Cut b e start k hb (strstr-Begins start e k s)

abbrev pub Between : Text → Text → Text → Element → Type 0
Between document b e absent = Unit {0}
Between document b e fault =
    (before : Text) × (start : Text) × (document ≡ before ++ start)
    × Begins start b
    × ((k : ℕ) × (k < length b) × Begins (drop k start) e)
Between document b e (found v rest) =
    (before : Text) × (document ≡ before ++ (b ++ (v ++ (e ++ rest))))

Between-Cut :
    (document b e : Text) (k : ℕ) (r : Element)
    → Begins (drop k document) b
    → Cut b e (drop k document) r
    → Between document b e r
Between-Cut document b e k absent h c = tt
Between-Cut document b e k fault h c =
    (take k document, drop k document, sym (take-append-drop k document), c.0, c.1)
Between-Cut document b e k (found v rest) h c =
    (take k document, sym (take-append-drop k document) ∙ ap (λ (t : Text). take k document ++ t) c)

find_begin-Between :
    (document b e : Text) (o : Option ℕ)
    → strstr document b ≡ o
    → Between document b e (find_begin document b e o)
unfolding find_begin
find_begin-Between document b e none s = tt
find_begin-Between document b e (some k) s =
    let hb = strstr-Begins document b k s in
    Between-Cut document b e k _ hb (find_end-Cut b e (drop k document) _ refl hb)

-- A value that `getFirstElementValue` returns stands in the document between the begin tag and the
-- end tag, with the remaining document behind the end tag; and a negative length comes about only
-- where the end tag is found so near that it begins inside the begin tag.
pub get_first_element_value-Between :
    (document b e : Text) → Between document b e (get_first_element_value document b e)
unfolding get_first_element_value
get_first_element_value-Between document b e = find_begin-Between document b e _ refl
