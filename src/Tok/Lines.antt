-- ===== src/Tok/Lines.antt =====
-- at_tok.c: a line of fields separated by commas is read back field by field.
use sxx_ril.Common.{
  ℕ, zero, suc, Bool, true, false, Option, none, some, List, [], ◌∷◌, ◌++◌, ◌==◌, Text, length, ◌≡◌,
  refl, ap, ◌∙◌, arith, append_assoc,
}
use sxx_ril.Tok.Strtol.{is_space}
use sxx_ril.Tok.Tokens.{Free, strsep-Free, strsep_all, skip_next_comma-Free}
use sxx_ril.Tok.{Read, skip_white_space, next_tok, next_tok_at, at_tok_nextstr, Result, ok, fail}

-- A field of a line: white space, and then the text between quotes or as it is.
pub record Field : Type 0 where
  pub pad : Text
  pub quoted : Bool
  pub text : Text

abbrev quote : Text → Text
quote w = b'"' ∷ (w ++ (b'"' ∷ []))

abbrev body : Bool → Text → Text
body true w = quote w
body false w = w

abbrev pub show : Field → Text
show f = f.pad ++ body f.quoted f.text

abbrev pub Spaces : Text → Type 0
Spaces [] = Unit {0}
Spaces (c ∷ s) = (is_space c ≡ true) × Spaces s

abbrev pub IsPlain : Text → Type 0
IsPlain [] = Unit {0}
IsPlain (c ∷ w) = (is_space c ≡ false) × ((c == b'"') ≡ false) × Free b',' (c ∷ w)

abbrev IsBody : Bool → Text → Type 0
IsBody true w = Free b'"' w
IsBody false w = IsPlain w

-- A quoted text holds no '"'; a plain one holds no ',' and begins with no '"' or white space.
pub record IsField (f : Field) : Type 0 where
  pub blank : Spaces f.pad
  pub fits : IsBody f.quoted f.text

skip_white_space-Spaces :
    (pad s : Text) → Spaces pad → skip_white_space (pad ++ s) ≡ skip_white_space s
unfolding skip_white_space
skip_white_space-Spaces [] s h = refl
skip_white_space-Spaces (c ∷ pad) s h = rw h.0 (skip_white_space-Spaces pad s h.1)

pub next_tok-Spaces : (pad s : Text) → Spaces pad → next_tok (pad ++ s) ≡ next_tok s
unfolding next_tok
next_tok-Spaces pad s h = ap next_tok_at (skip_white_space-Spaces pad s h)

pub next_tok_plain :
    (w rest : Text)
    → IsPlain w
    → next_tok (w ++ (b',' ∷ rest)) ≡ record { cur = some rest; out = w }
unfolding next_tok
next_tok_plain [] rest h = unfold is_space in refl
next_tok_plain (c ∷ w) rest (s, q, f) = rw (s, next_tok_at, q) (strsep-Free b',' (c ∷ w) rest f)

pub next_tok_plain_last : (w : Text) → IsPlain w → next_tok w ≡ record { cur = none; out = w }
unfolding next_tok
next_tok_plain_last [] h = refl
next_tok_plain_last (c ∷ w) (s, q, f) = rw (s, next_tok_at, q) (strsep_all b',' (c ∷ w) f)

next_tok_quoted :
    (w junk rest : Text)
    → Free b'"' w
    → Free b',' junk
    → next_tok (b'"' ∷ (w ++ (b'"' ∷ (junk ++ (b',' ∷ rest)))))
      ≡ record { cur = some rest; out = w }
unfolding next_tok is_space
next_tok_quoted w junk rest h k =
    rw (strsep-Free b'"' w (junk ++ (b',' ∷ rest)) h, skip_next_comma-Free junk rest k) refl

next_tok_quoted_last :
    (w : Text) → Free b'"' w → next_tok (quote w) ≡ record { cur = some []; out = w }
unfolding next_tok is_space
next_tok_quoted_last w h = rw (strsep-Free b'"' w [] h) refl

abbrev text_read : Read Text → Result Text
text_read t = ok t.out t.cur

nextstr_next_tok : (s : Text) → at_tok_nextstr (some s) ≡ text_read (next_tok s)
unfolding at_tok_nextstr
nextstr_next_tok s = refl

nextstr_body :
    (q : Bool) (w rest : Text)
    → IsBody q w
    → next_tok (body q w ++ (b',' ∷ rest)) ≡ record { cur = some rest; out = w }
nextstr_body true w rest h =
    ap (λ (t : Text). next_tok (b'"' ∷ t)) (append_assoc w (b'"' ∷ []) (b',' ∷ rest))
    ∙ next_tok_quoted w [] rest h tt
nextstr_body false w rest h = next_tok_plain w rest h

-- A well-formed field with a ',' behind it is read whole, without its white space and quotes, and
-- the cursor then stands behind the ','.
pub nextstr-show :
    (f : Field) (rest : Text)
    → IsField f
    → at_tok_nextstr (some (show f ++ (b',' ∷ rest))) ≡ ok f.text (some rest)
nextstr-show f rest h =
    nextstr_next_tok _
    ∙ ap text_read (
        ap next_tok (append_assoc f.pad (body f.quoted f.text) (b',' ∷ rest))
        ∙ next_tok-Spaces f.pad _ h.blank
        ∙ nextstr_body f.quoted f.text rest h.fits)

-- The cursor behind the last field: NULL after a plain text, at the end after a quoted one.
abbrev last_cursor : Bool → Option Text
last_cursor true = some []
last_cursor false = none

nextstr_body_last :
    (q : Bool) (w : Text)
    → IsBody q w
    → next_tok (body q w) ≡ record { cur = last_cursor q; out = w }
nextstr_body_last true w h = next_tok_quoted_last w h
nextstr_body_last false w h = next_tok_plain_last w h

nextstr-show_last :
    (f : Field) → IsField f → at_tok_nextstr (some (show f)) ≡ ok f.text (last_cursor f.quoted)
nextstr-show_last f h =
    nextstr_next_tok _
    ∙ ap text_read (next_tok-Spaces f.pad _ h.blank ∙ nextstr_body_last f.quoted f.text h.fits)

-- A line of at least one field.
abbrev pub render : Field → List Field → Text
render f [] = show f
render f (g ∷ fs) = show f ++ (b',' ∷ render g fs)

abbrev pub AreFields : Field → List Field → Type 0
AreFields f [] = IsField f
AreFields f (g ∷ fs) = IsField f × AreFields g fs

abbrev prepend : Text → Option (List Text) → Option (List Text)
prepend t none = none
prepend t (some ts) = some (t ∷ ts)

-- `n` calls of `at_tok_nextstr` in a row.
pub read_fields : ℕ → Option Text → Option (List Text)
read_fields zero cur = some []
read_fields (suc n) cur = elim (at_tok_nextstr cur) [
  | ok t rest ↦ prepend t (read_fields n rest)
  | fail rest ↦ none
]

read_fields-suc :
    (n : ℕ) (cur rest : Option Text) (t : Text)
    → at_tok_nextstr cur ≡ ok t rest
    → read_fields (suc n) cur ≡ prepend t (read_fields n rest)
unfolding read_fields
read_fields-suc n cur rest t e = ground arith

abbrev texts : List Field → List Text
texts [] = []
texts (f ∷ fs) = f.text ∷ texts fs

-- A line of well-formed fields, quoted or plain, with any white space in front of each, is read
-- back by as many calls of `at_tok_nextstr` as it has fields: their texts, in order.
pub read_fields-render :
    (f : Field) (fs : List Field)
    → AreFields f fs
    → read_fields (suc (length fs)) (some (render f fs)) ≡ some (f.text ∷ texts fs)
read_fields-render f [] h =
    read_fields-suc 0 _ _ f.text (nextstr-show_last f h) ∙ (unfold read_fields in refl)
read_fields-render f (g ∷ fs) (h, hs) =
    read_fields-suc _ _ _ f.text (nextstr-show f (render g fs) h)
    ∙ ap (prepend f.text) (read_fields-render g fs hs)
