-- ===== src/Channel/Process/Rule.antt =====
-- atchannel.c: the rule for a property of every branch of `processLine`, and what holds of the
-- pending command.
use sxx_ril.Common.{
  ◌≤◌, Bool, true, false, ◌&&◌, Option, none, some, List, [], ◌∷◌, Text, codes, str_eq, length, ◌≡◌,
  refl, arith, Bool-cases, inl, inr,
}
use sxx_ril.Misc.{str_starts_with}
use sxx_ril.Channel.State.{
  Channel, Response, Effect, CommandType, no_result, numeric, singleline, multiline,
}
use sxx_ril.Channel.Lines.{is_unsolicited, is_final_response_success, is_final_response_error}
use mathlib.Core.Path.{subst}
use sxx_ril.Channel.Process.{
  takes_line, process_intermediate, process_prompt, handle_unsolicited, handle_final_response,
  Outcome, stepped, fault, process_line, process_on, process_pending, is_digit, is_empty, is_prompt,
}

-- A command that looks for a prefix has one.
abbrev pub Prefixed : CommandType → Option Text → Type 0
Prefixed singleline none = ⊥
Prefixed multiline none = ⊥
Prefixed _ prefix = Unit {0}

-- How many intermediate responses each type of command can have.
abbrev pub Bounded : CommandType → List Text → Type 0
Bounded no_result lines = lines ≡ []
Bounded numeric lines = length lines ≤ 1
Bounded singleline lines = length lines ≤ 1
Bounded multiline lines = Unit {0}

abbrev pub Pending : CommandType → Option Text → Option Response → Type 0
Pending type prefix none = Unit {0}
Pending type prefix (some r) = Prefixed type prefix × Bounded type r.intermediates

-- What holds of the pending command, if there is one.
abbrev pub IsChannel : Channel → Type 0
IsChannel c = Pending c.type c.response_prefix c.response

abbrev pub Holds : (Channel → List Effect → Type 0) → Outcome → Type 0
Holds P fault = ⊥
Holds P (stepped c es) = P c es

-- The test of the intermediate response reads no NULL prefix, and keeps the bound.
abbrev pub Tested : CommandType → Option Text → Response → Text → Option Bool → Type 0
Tested type prefix r line none = ⊥
Tested type prefix r line (some false) = Unit {0}
Tested type prefix r line (some true) = Bounded type (line ∷ r.intermediates)

pub takes_line-Tested :
    (type : CommandType) (prefix : Option Text) (r : Response) (line : Text)
    → Prefixed type prefix
    → Tested type prefix r line (takes_line type prefix r line)
takes_line-Tested no_result prefix r line p = tt
takes_line-Tested numeric prefix r line p = one r.intermediates (is_digit line)
  where
    one :
        (lines : List Text) (b : Bool)
        → Tested numeric prefix
            (record r { intermediates = lines })
            line
            (some (is_empty lines && b))
    one [] true = omega arith
    one [] false = tt
    one (l ∷ lines) b = tt
takes_line-Tested singleline none r line p = absurd p
takes_line-Tested singleline (some q) r line p = one r.intermediates (str_starts_with line q)
  where
    one :
        (lines : List Text) (b : Bool)
        → Tested singleline
            (some q)
            (record r { intermediates = lines })
            line
            (some (is_empty lines && b))
    one [] true = omega arith
    one [] false = tt
    one (l ∷ lines) b = tt
takes_line-Tested multiline none r line p = absurd p
takes_line-Tested multiline (some q) r line p = any (str_starts_with line q)
  where
    any : (b : Bool) → Tested multiline (some q) r line (some b)
    any true = tt
    any false = tt

-- The line is a final response, of success or of an error.
abbrev pub is_final : Bool → Text → Bool
is_final true line = is_final_response_success line
is_final false line = is_final_response_error line

module _ (P : Channel → List Effect → Type 0) (c : Channel) (line : Text) where
  module _ (on_unsolicited : P c (handle_unsolicited c line))
      (on_final : (r : Response) (flag : Bool)
        → c.response ≡ some r
        → is_final flag line ≡ true
        → Holds P (handle_final_response c r flag line))
      (on_prompt : (pdu : Text)
        → c.sms_pdu ≡ some pdu
        → str_eq line (codes "> ") ≡ true
        → Holds P (process_prompt (some pdu) c))
      (on_intermediate : (r : Response)
        → c.response ≡ some r
        → Holds P
            (process_intermediate (takes_line c.type c.response_prefix r line) c r line)) where
    rule_prompt :
        (pdu : Option Text)
        → c.sms_pdu ≡ pdu
        → is_prompt pdu line ≡ true
        → Holds P (process_prompt pdu c)
    rule_prompt none e p = cc
    rule_prompt (some pdu) e p = on_prompt pdu e p

    rule_pending : (r : Response) → c.response ≡ some r → Holds P (process_pending c r line)
    unfolding process_pending
    rule_pending r at = elim (Bool-cases (is_unsolicited line)) [
      | inl u ↦ rw u on_unsolicited
      | inr u ↦ elim (Bool-cases (is_final_response_success line)) [
        | inl s ↦ rw (u, s) (on_final r true at s)
        | inr s ↦ elim (Bool-cases (is_final_response_error line)) [
          | inl f ↦ rw (u, s, f) (on_final r false at f)
          | inr f ↦ elim (Bool-cases (is_prompt c.sms_pdu line)) [
            | inl p ↦ rw (u, s, f, p) (rule_prompt c.sms_pdu refl p)
            | inr p ↦ rw (u, s, f, p) (on_intermediate r at)
          ]
        ]
      ]
    ]

    rule_on : (o : Option Response) → c.response ≡ o → Holds P (process_on o c line)
    unfolding process_on
    rule_on none e = on_unsolicited
    rule_on (some r) e = rule_pending r e

    -- What each branch of `processLine` establishes holds after it.
    pub process_line_rule : Holds P (process_line c line)
    unfolding process_line
    process_line_rule = rule_on c.response refl

pub pending_of :
    (c : Channel) (r : Response)
    → c.response ≡ some r
    → IsChannel c
    → Prefixed c.type c.response_prefix × Bounded c.type r.intermediates
pending_of c r at h = subst (Pending c.type c.response_prefix) at h

keep_intermediate :
    (c : Channel) (r : Response) (line : Text) (take : Option Bool)
    → c.response ≡ some r
    → IsChannel c
    → Tested c.type c.response_prefix r line take
    → Holds (λ d es. IsChannel d) (process_intermediate take c r line)
keep_intermediate c r line none at h t = t
keep_intermediate c r line (some true) at h t = ((pending_of c r at h).0, t)
keep_intermediate c r line (some false) at h t = h

-- `processLine` keeps what holds of the pending command, on an open or a closed channel.
pub process_line-IsChannel :
    (c : Channel) (line : Text) → IsChannel c → Holds (λ d es. IsChannel d) (process_line c line)
process_line-IsChannel c line h =
    process_line_rule (λ d es. IsChannel d) c line h (λ r flag at fin. pending_of c r at h)
      (λ pdu at prompt. h)
      (λ r at.
        keep_intermediate c r line _ at h
          (takes_line-Tested c.type c.response_prefix r line (pending_of c r at h).0))
