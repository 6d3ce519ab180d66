-- ===== src/Channel/Process/Multi.antt =====
-- atchannel.c: the intermediate responses of a MULTILINE command are the lines with its prefix.
use sxx_ril.Common.{
  Bool, true, false, not, ◌&&◌, none, some, List, [], ◌∷◌, ◌++◌, if◌then◌else◌, Text, ◌≡◌, refl,
  sym, ap, ◌∙◌, arith, append_assoc, Bool-cases, inl, inr, ◌⊎◌,
}
use mathlib.Core.List.{reverse, reverse-append}
use sxx_ril.Misc.{str_starts_with}
use sxx_ril.Channel.State.{Channel, Response, Effect, multiline}
use sxx_ril.Channel.Lines.{is_unsolicited, is_final_response}
use sxx_ril.Channel.Process.{stepped, process_line, process_lines, handle_unsolicited, behind}

-- The line is no response to the command: it is unsolicited, or does not begin with the prefix.
abbrev pub belongs : Text → Text → Bool
belongs p line = not (is_unsolicited line) && str_starts_with line p

-- The lines that belong to the command, in order.
abbrev pub belonging : Text → List Text → List Text
belonging p [] = []
belonging p (line ∷ lines) = if belongs p line then line ∷ belonging p lines else belonging p lines

-- The others.
abbrev pub strangers : Text → List Text → List Text
strangers p [] = []
strangers p (line ∷ lines) = if belongs p line then strangers p lines else line ∷ strangers p lines

abbrev pub handed : Channel → List Text → List Effect
handed c [] = []
handed c (line ∷ lines) = handle_unsolicited c line ++ handed c lines

-- No line ends the command.
abbrev pub NoneFinal : List Text → Type 0
NoneFinal [] = Unit {0}
NoneFinal (line ∷ lines) =
    ((is_unsolicited line ≡ true) ⊎ (is_final_response line ≡ false)) × NoneFinal lines

-- A channel with a pending MULTILINE command, no PDU and the response `r`.
abbrev pub collecting : Channel → Text → Response → Channel
collecting c p r = record c {
  type = multiline;
  response_prefix = some p;
  sms_pdu = none;
  response = some r;
}

abbrev pub with_lines : Response → List Text → Response
with_lines r lines = record r { intermediates = lines }

process_line-belongs :
    (c : Channel) (p line : Text) (r : Response)
    → belongs p line ≡ true
    → (is_unsolicited line ≡ true) ⊎ (is_final_response line ≡ false)
    → process_line (collecting c p r) line
      ≡ stepped (collecting c p (with_lines r (line ∷ r.intermediates))) []
unfolding process_line is_final_response
process_line-belongs c p line r b f = ground arith

process_line_stranger :
    (c : Channel) (p line : Text) (r : Response)
    → belongs p line ≡ false
    → (is_unsolicited line ≡ true) ⊎ (is_final_response line ≡ false)
    → process_line (collecting c p r) line ≡ stepped (collecting c p r) (handle_unsolicited c line)
unfolding process_line is_final_response
process_line_stranger c p line r b f = ground arith

reverse_onto : (x : Text) (xs ys : List Text) → reverse (x ∷ xs) ++ ys ≡ reverse xs ++ (x ∷ ys)
reverse_onto x xs ys =
    ap (λ (zs : List Text). zs ++ ys) (reverse-append (x ∷ []) xs)
    ∙ append_assoc (reverse xs) (x ∷ []) ys

process_lines-step :
    (c d : Channel) (line : Text) (lines : List Text) (es : List Effect)
    → process_line c line ≡ stepped d es
    → process_lines c (line ∷ lines) ≡ behind es (process_lines d lines)
unfolding process_lines
process_lines-step c d line lines es e = rw e refl

-- The lines of a MULTILINE command, up to its final response, leave those that belong to it in
-- `p_intermediates`, the last one first, and all others go to the unsolicited handler, in order.
pub process_lines-collecting :
    (c : Channel) (p : Text) (r : Response) (lines : List Text)
    → NoneFinal lines
    → process_lines (collecting c p r) lines
      ≡ stepped
          (collecting c p (with_lines r (reverse (belonging p lines) ++ r.intermediates)))
          (handed c (strangers p lines))
process_lines-collecting c p r [] h = unfold process_lines in refl
process_lines-collecting c p r (line ∷ lines) (f, h) = elim (Bool-cases (belongs p line)) [
  | inl b ↦ rw b (
      process_lines-step _ _ line lines [] (process_line-belongs c p line r b f)
      ∙ ap (behind [])
          (process_lines-collecting c p (with_lines r (line ∷ r.intermediates)) lines h)
      ∙ ap
          (λ (ls : List Text).
            stepped (collecting c p (with_lines r ls)) (handed c (strangers p lines)))
          (sym (reverse_onto line (belonging p lines) r.intermediates)))
  | inr b ↦ rw b (
      process_lines-step _ _ line lines _ (process_line_stranger c p line r b f)
      ∙ ap (behind (handle_unsolicited c line)) (process_lines-collecting c p r lines h))
]
