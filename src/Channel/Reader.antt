-- ===== src/Channel/Reader.antt =====
-- atchannel.c: `readerLoop`, the thread that hands each line on, and `onReaderClosed` at its end.
use sxx_ril.Common.{
  Bool, true, false, not, ◌&&◌, Option, List, [], ◌∷◌, ◌++◌, none, some, if◌then◌else◌, Text, ◌≡◌,
  refl, if_both, sym, ap, ◌∙◌, append_assoc,
}
use mathlib.Core.Path.{subst}
use sxx_ril.Channel.Lines.{is_sms_unsolicited}
use sxx_ril.Channel.State.{Channel, Response, Effect, unsolicited, signal, on_reader_closed}
use sxx_ril.Channel.Process.{
  Outcome, fault, stepped, process_line, process_intermediate, behind, continue,
}
use sxx_ril.Channel.Process.Rule.{
  IsChannel, Holds, Tested, takes_line-Tested, pending_of, process_line_rule,
}

-- `onReaderClosed`; the flag is `s_onReaderClosed != NULL`.
abbrev pub close_reader : Bool → Channel → Outcome
close_reader callback c =
    if callback && not c.reader_closed
    then stepped (record c { reader_closed = true }) (signal ∷ on_reader_closed ∷ [])
    else stepped c []

-- The line that announces a message, with the PDU in the line behind it.
abbrev pub handle_sms : Channel → Text → Text → List Effect
handle_sms c line1 line2 = if c.has_handler then unsolicited line1 (some line2) ∷ [] else []

-- `readerLoop` on the lines that `readline` returns until it returns NULL.
unfoldable pub reader_loop : Bool → Channel → List Text → Outcome
reader_loop callback c [] = close_reader callback c
reader_loop callback c (line ∷ []) =
    if is_sms_unsolicited line
    then close_reader callback c
    else continue (λ d. close_reader callback d) (process_line c line)
reader_loop callback c (line ∷ line2 ∷ lines) =
    let rest = λ (d : Channel). reader_loop callback d (line2 ∷ lines) in
    let behind_pdu = reader_loop callback c lines in
    if is_sms_unsolicited line
    then behind (handle_sms c line line2) behind_pdu
    else continue rest (process_line c line)

-- The last effects are these.
abbrev pub EndsIn : List Effect → List Effect → Type 0
EndsIn last es = (first : List Effect) × (es ≡ first ++ last)

-- What holds when the reader has ended, the first flag being whether there is a callback, the second
-- whether the channel was closed before.
abbrev pub Ended : Bool → Bool → Channel → List Effect → Type 0
Ended callback closed d es =
    IsChannel d
    × (callback ≡ true → d.reader_closed ≡ true)
    × (callback ≡ true → closed ≡ false → EndsIn (signal ∷ on_reader_closed ∷ []) es)
    × (callback ≡ false → d.reader_closed ≡ closed)

-- A line leaves the flag as it is.
abbrev Kept : Bool → Channel → List Effect → Type 0
Kept closed d es = IsChannel d × (d.reader_closed ≡ closed)

close_reader-Ended :
    (callback closed : Bool) (c : Channel)
    → IsChannel c
    → c.reader_closed ≡ closed
    → Holds (Ended callback closed) (close_reader callback c)
close_reader-Ended false closed c h e = (h, λ t. cc, λ t. cc, λ f. e)
close_reader-Ended true true c h e = rw e (h, λ t. refl, λ t n. cc, λ f. cc)
close_reader-Ended true false c h e = rw e (h, λ t. refl, λ t n. ([], refl), λ f. cc)

Ended-behind :
    (callback closed : Bool) (es : List Effect) (o : Outcome)
    → Holds (Ended callback closed) o
    → Holds (Ended callback closed) (behind es o)
Ended-behind callback closed es fault h = h
Ended-behind callback closed es (stepped d fs) (h, marked, told, open_still) =
    (h, marked, λ t n. more (told t n), open_still)
  where
    more :
        EndsIn (signal ∷ on_reader_closed ∷ []) fs
        → EndsIn (signal ∷ on_reader_closed ∷ []) (es ++ fs)
    more (first, e) =
        (es ++ first, ap (λ (f : List Effect). es ++ f) e ∙ sym (append_assoc es first _))

Ended-continue :
    (callback closed : Bool) (k : Channel → Outcome) (o : Outcome)
    → Holds (Kept closed) o
    → ((d : Channel) → IsChannel d → d.reader_closed ≡ closed → Holds (Ended callback closed) (k d))
    → Holds (Ended callback closed) (continue k o)
Ended-continue callback closed k fault h rest = h
Ended-continue callback closed k (stepped d es) h rest =
    Ended-behind callback closed es (k d) (rest d h.0 h.1)

process_line-Kept :
    (c : Channel) (line : Text) → IsChannel c → Holds (Kept c.reader_closed) (process_line c line)
process_line-Kept c line h =
    process_line_rule (Kept c.reader_closed) c line (h, refl)
      (λ r flag at fin. (pending_of c r at h, refl)) (λ pdu at prompt. (h, refl))
      (λ r at.
        taken r _ at (takes_line-Tested c.type c.response_prefix r line (pending_of c r at h).0))
  where
    taken :
        (r : Response) (take : Option Bool)
        → c.response ≡ some r
        → Tested c.type c.response_prefix r line take
        → Holds
            (λ d es. IsChannel d × (d.reader_closed ≡ c.reader_closed))
            (process_intermediate take c r line)
    taken r none at t = t
    taken r (some true) at t = (((pending_of c r at h).0, t), refl)
    taken r (some false) at t = (h, refl)

kept :
    {closed : Bool} (c : Channel) (line : Text)
    → IsChannel c
    → c.reader_closed ≡ closed
    → Holds (Kept closed) (process_line c line)
kept c line h e = subst (λ b. Holds (Kept b) (process_line c line)) e (process_line-Kept c line h)

reader_loop-EndedFrom :
    (callback closed : Bool) (lines : List Text) (c : Channel)
    → IsChannel c
    → c.reader_closed ≡ closed
    → Holds (Ended callback closed) (reader_loop callback c lines)
unfolding reader_loop
reader_loop-EndedFrom callback closed [] c h e = close_reader-Ended callback closed c h e
reader_loop-EndedFrom callback closed (line ∷ []) c h e =
    if_both (Holds (Ended callback closed)) (is_sms_unsolicited line)
      (λ sms. close_reader-Ended callback closed c h e)
      (λ other.
        Ended-continue callback closed _ _ (kept c line h e) (close_reader-Ended callback closed))
reader_loop-EndedFrom callback closed (line ∷ line2 ∷ lines) c h e =
    let sms_rest = reader_loop-EndedFrom callback closed lines c h e in
    let rest = reader_loop-EndedFrom callback closed (line2 ∷ lines) in
    if_both (Holds (Ended callback closed)) (is_sms_unsolicited line)
      (λ sms. Ended-behind callback closed _ _ sms_rest)
      (λ other. Ended-continue callback closed _ _ (kept c line h e) rest)

-- Whatever lines arrive before the end, on a channel whose pending command, if any, has the prefix
-- that its type needs, the reader never reads a NULL prefix, and that still holds when it ends. With a
-- callback for its end the channel is then marked as closed, and if it was not before, the last things
-- done are the signal to the waiting command and the call of the callback. Without a callback the mark
-- is left as it was.
pub reader_loop-Ended :
    (callback : Bool) (c : Channel) (lines : List Text)
    → IsChannel c
    → Holds (Ended callback c.reader_closed) (reader_loop callback c lines)
reader_loop-Ended callback c lines h = reader_loop-EndedFrom callback c.reader_closed lines c h refl
