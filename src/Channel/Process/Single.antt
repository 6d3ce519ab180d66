-- ===== src/Channel/Process/Single.antt =====
-- atchannel.c: what holds of every run of `processLine`: no NULL prefix is read, a command for one
-- response gets at most one, a PDU is handed on once, and no line is lost.
use sxx_ril.Common.{
  ◌⊎◌, inl, inr, sym, str_eq, codes, Bool, true, false, Option, none, some, List, [], ◌∷◌, ◌++◌,
  Text, ◌≡◌, refl, ap, ◌∙◌, append_assoc,
}
use sxx_ril.Channel.State.{
  Channel, Response, Effect, unsolicited, ctrl_z, signal, put, on_timeout, on_reader_closed,
}
use sxx_ril.Channel.Process.Rule.{
  IsChannel, Holds, Tested, takes_line-Tested, pending_of, process_line_rule, is_final,
}
use mathlib.Core.Path.{subst}
use sxx_ril.Channel.Process.{
  process_intermediate, process_prompt, handle_unsolicited, handle_final_response, Outcome, stepped,
  fault, process_line, process_lines, behind, continue,
}

-- The PDUs that were handed to `writeCtrlZ`.
abbrev pub sent : List Effect → List Text
sent [] = []
sent (ctrl_z pdu ∷ es) = pdu ∷ sent es
sent (unsolicited line pdu ∷ es) = sent es
sent (signal ∷ es) = sent es
sent (put text ∷ es) = sent es
sent (on_timeout ∷ es) = sent es
sent (on_reader_closed ∷ es) = sent es

abbrev pub waiting : Option Text → List Text
waiting none = []
waiting (some pdu) = pdu ∷ []

abbrev pub held : Option Response → List Text
held none = []
held (some r) = r.intermediates

-- What a line that is not kept does: it is handed to the handler for unsolicited lines, or it is the
-- prompt and a PDU is handed to `writeCtrlZ`, or it is a final response and the command is signalled.
abbrev pub Causes : Text → Effect → Type 0
Causes line e =
    (e ≡ unsolicited line none)
    ⊎ (((pdu : Text) × (e ≡ ctrl_z pdu) × (str_eq line (codes "> ") ≡ true))
        ⊎ ((flag : Bool) × (e ≡ signal) × (is_final flag line ≡ true)))

-- Each line in turn becomes an intermediate response or has one effect, and nothing else is done: from
-- the intermediate responses `before` the lines lead to `behind`, with the effects.
abbrev pub Fate : List Text → List Text → List Text → List Effect → Type 0
Fate [] before later es = (later ≡ before) × (es ≡ [])
Fate (line ∷ lines) before later es =
    Fate lines (line ∷ before) later es
    ⊎ ((e : Effect) × (fs : List Effect) × (es ≡ e ∷ fs)
        × Causes line e
        × Fate lines before later fs)

-- From `c` over `lines` to `c'` with the effects `es`.
pub record Run (c : Channel) (lines : List Text) (c' : Channel) (es : List Effect) : Type 0 where
  pub well_formed : IsChannel c'
  pub same_open : (c'.fd_open ≡ c.fd_open) × (c'.reader_closed ≡ c.reader_closed)
  pub same_handler : c'.has_handler ≡ c.has_handler
  pub pdu_once : sent es ++ waiting c'.sms_pdu ≡ waiting c.sms_pdu
  pub all_lines : Fate lines (held c.response) (held c'.response) es

abbrev OneRun : Channel → Text → Outcome → Type 0
OneRun c line = Holds (Run c (line ∷ []))

Fate-one :
    (line : Text) (before later : List Text) (e : Effect)
    → Causes line e
    → later ≡ before
    → Fate (line ∷ []) before later (e ∷ [])
Fate-one line before later e h same = inr (e, [], refl, h, (same, refl))

module _ (c : Channel) (line : Text) (handled : c.has_handler ≡ true) where
  Run-unsolicited : IsChannel c → Run c (line ∷ []) c (handle_unsolicited c line)
  Run-unsolicited h = rw handled (record {
    well_formed = h;
    same_open = (refl, refl);
    same_handler = refl;
    pdu_once = refl;
    all_lines =
        Fate-one line (held c.response) (held c.response) (unsolicited line none) (inl refl) refl;
  })

  module _ (r : Response) (at : c.response ≡ some r) where
    run_final :
        (flag : Bool)
        → is_final flag line ≡ true
        → IsChannel c
        → OneRun c line (handle_final_response c r flag line)
    run_final flag fin h = record {
      well_formed = pending_of c r at h;
      same_open = (refl, refl);
      same_handler = refl;
      pdu_once = refl;
      all_lines =
          Fate-one line (held c.response) r.intermediates signal (inr (inr (flag, refl, fin)))
            (sym (ap held at));
    }

    run_intermediate :
        (take : Option Bool)
        → IsChannel c
        → Tested c.type c.response_prefix r line take
        → OneRun c line (process_intermediate take c r line)
    run_intermediate none h t = t
    run_intermediate (some true) h t = record {
      well_formed = ((pending_of c r at h).0, t);
      same_open = (refl, refl);
      same_handler = refl;
      pdu_once = refl;
      all_lines = inl (ap (λ (ls : List Text). line ∷ ls) (sym (ap held at)), refl);
    }
    run_intermediate (some false) h t = Run-unsolicited h

  run_prompt :
      (pdu : Text)
      → c.sms_pdu ≡ some pdu
      → str_eq line (codes "> ") ≡ true
      → IsChannel c
      → OneRun c line (process_prompt (some pdu) c)
  run_prompt pdu e prompt h = record {
    well_formed = h;
    same_open = (refl, refl);
    same_handler = refl;
    pdu_once = sym (ap waiting e);
    all_lines =
        Fate-one line (held c.response) (held c.response) (ctrl_z pdu)
          (inr (inl (pdu, refl, prompt))) refl;
  }

process_line-Run :
    (c : Channel) (line : Text)
    → c.has_handler ≡ true
    → IsChannel c
    → OneRun c line (process_line c line)
process_line-Run c line handled h =
    process_line_rule (Run c (line ∷ [])) c line (Run-unsolicited c line handled h)
      (λ r flag at fin. run_final c line handled r at flag fin h)
      (λ pdu at prompt. run_prompt c line handled pdu at prompt h)
      (λ r at.
        run_intermediate c line handled r at _ h
          (takes_line-Tested c.type c.response_prefix r line (pending_of c r at h).0))

Fate-compose :
    (line : Text) (lines before between later : List Text) (es fs : List Effect)
    → Fate (line ∷ []) before between es
    → Fate lines between later fs
    → Fate (line ∷ lines) before later (es ++ fs)
Fate-compose line lines before between later es fs (inl (same, nothing)) h =
    inl (rw nothing (subst (λ b. Fate lines b later fs) same h))
Fate-compose line lines before between later es fs (inr (e, gs, first, causes, (same, nothing))) h =
    inr (e, fs, rw (first, nothing) refl, causes, subst (λ b. Fate lines b later fs) same h)

sent-append : (es fs : List Effect) → sent (es ++ fs) ≡ sent es ++ sent fs
sent-append [] fs = refl
sent-append (ctrl_z pdu ∷ es) fs = ap (◌∷◌ pdu) (sent-append es fs)
sent-append (unsolicited line pdu ∷ es) fs = sent-append es fs
sent-append (signal ∷ es) fs = sent-append es fs
sent-append (put text ∷ es) fs = sent-append es fs
sent-append (on_timeout ∷ es) fs = sent-append es fs
sent-append (on_reader_closed ∷ es) fs = sent-append es fs

Run-compose :
    (c d e : Channel) (line : Text) (lines : List Text) (es fs : List Effect)
    → Run c (line ∷ []) d es
    → Run d lines e fs
    → Run c (line ∷ lines) e (es ++ fs)
Run-compose c d e line lines es fs r s = record {
  well_formed = s.well_formed;
  same_open = (s.same_open.0 ∙ r.same_open.0, s.same_open.1 ∙ r.same_open.1);
  same_handler = s.same_handler ∙ r.same_handler;
  pdu_once =
      ap (λ (ps : List Text). ps ++ waiting e.sms_pdu) (sent-append es fs)
      ∙ append_assoc (sent es) (sent fs) (waiting e.sms_pdu)
      ∙ ap (λ (ps : List Text). sent es ++ ps) s.pdu_once
      ∙ r.pdu_once;
  all_lines =
      Fate-compose line lines (held c.response) (held d.response) (held e.response) es fs
        r.all_lines s.all_lines;
}

Run-behind :
    (c d : Channel) (line : Text) (lines : List Text) (es : List Effect) (o : Outcome)
    → Run c (line ∷ []) d es
    → Holds (Run d lines) o
    → Holds (Run c (line ∷ lines)) (behind es o)
Run-behind c d line lines es fault r h = h
Run-behind c d line lines es (stepped e fs) r h = Run-compose c d e line lines es fs r h

Run-continue :
    (c : Channel) (line : Text) (lines : List Text) (o : Outcome)
    → OneRun c line o
    → ((d : Channel) (es : List Effect)
        → Run c (line ∷ []) d es
        → Holds (Run d lines) (process_lines d lines))
    → Holds (Run c (line ∷ lines)) (continue (λ d. process_lines d lines) o)
Run-continue c line lines fault h k = h
Run-continue c line lines (stepped d es) h k = Run-behind c d line lines es _ h (k d es h)

Run-none : (c : Channel) → IsChannel c → Run c [] c []
Run-none c h = record {
  well_formed = h;
  same_open = (refl, refl);
  same_handler = refl;
  pdu_once = refl;
  all_lines = (refl, refl);
}

-- On a channel with a handler for unsolicited lines, whose pending command, if any, has the prefix
-- that its type needs and no more intermediate responses than its type allows, any lines are processed
-- with no NULL prefix read, and this stays so: a SINGLELINE or NUMERIC command never gets a second
-- intermediate response. A pending PDU is handed to `writeCtrlZ` once or is still pending. Each line in
-- its turn either becomes an intermediate response or has one effect: it is handed to the handler, or
-- is the prompt that a PDU is handed on for, or is a final response that is signalled.
pub process_lines-Run :
    (c : Channel) (lines : List Text)
    → c.has_handler ≡ true
    → IsChannel c
    → Holds (Run c lines) (process_lines c lines)
unfolding process_lines
process_lines-Run c [] handled h = Run-none c h
process_lines-Run c (line ∷ lines) handled h =
    Run-continue c line lines (process_line c line) (process_line-Run c line handled h)
      (λ d es r. process_lines-Run d lines (r.same_handler ∙ handled) r.well_formed)
