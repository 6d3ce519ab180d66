-- ===== src/Channel/Process.antt =====
-- atchannel.c: `processLine`, which the reader thread calls for each line, with `s_commandmutex`.
pub mod Rule
pub mod Single
pub mod Multi
pub mod Connect
use sxx_ril.Common.{
  ℕ, Bool, true, false, not, ◌&&◌, ◌||◌, Option, none, some, List, [], ◌∷◌, ◌++◌, if◌then◌else◌,
  Text, codes, str_eq, leb,
}
use sxx_ril.Misc.{str_starts_with}
use sxx_ril.Channel.Lines.{is_unsolicited, is_final_response_success, is_final_response_error}
use sxx_ril.Channel.State.{
  Channel, Response, Effect, CommandType, no_result, numeric, singleline, multiline, unsolicited,
  ctrl_z, signal,
}

-- The state after a line and what was done; `fault` is a NULL pointer read.
pub data Outcome : Type 0 where
  stepped : Channel → List Effect → Outcome
  fault : Outcome

abbrev pub handle_unsolicited : Channel → Text → List Effect
handle_unsolicited c line = if c.has_handler then unsolicited line none ∷ [] else []

-- `sp_response->success = flag; handleFinalResponse(line)`.
abbrev pub handle_final_response : Channel → Response → Bool → Text → Outcome
handle_final_response c r flag line =
    stepped (record c { response = some (record r { success = flag; final_response = some line }) })
      (signal ∷ [])

abbrev pub add_intermediate : Channel → Response → Text → Outcome
add_intermediate c r line =
    stepped (record c { response = some (record r { intermediates = line ∷ r.intermediates }) }) []

abbrev pub is_digit : Text → Bool
is_digit [] = false
is_digit (c ∷ line) = leb b'0' c && leb c b'9'

abbrev pub is_empty : List Text → Bool
is_empty [] = true
is_empty (line ∷ lines) = false

-- Whether the line is an intermediate response of the command; `none` reads a NULL prefix.
-- `&&` tests the prefix of SINGLELINE only while there is no intermediate response.
abbrev pub takes_line : CommandType → Option Text → Response → Text → Option Bool
takes_line no_result prefix r line = some false
takes_line numeric prefix r line = some (is_empty r.intermediates && is_digit line)
takes_line singleline none r line = if is_empty r.intermediates then none else some false
takes_line singleline (some p) r line = some (is_empty r.intermediates && str_starts_with line p)
takes_line multiline none r line = none
takes_line multiline (some p) r line = some (str_starts_with line p)

-- The `switch (s_type)`.
abbrev pub process_intermediate : Option Bool → Channel → Response → Text → Outcome
process_intermediate none c r line = fault
process_intermediate (some true) c r line = add_intermediate c r line
process_intermediate (some false) c r line = stepped c (handle_unsolicited c line)

-- `s_smsPDU != NULL && 0 == strcmp(line, "> ")`.
abbrev pub is_prompt : Option Text → Text → Bool
is_prompt none line = false
is_prompt (some pdu) line = str_eq line (codes "> ")

-- `writeCtrlZ(s_smsPDU)`, whose errors are ignored, and `s_smsPDU = NULL`.
abbrev pub process_prompt : Option Text → Channel → Outcome
process_prompt none c = stepped c []
process_prompt (some pdu) c = stepped (record c { sms_pdu = none }) (ctrl_z pdu ∷ [])

pub process_pending : Channel → Response → Text → Outcome
process_pending c r line =
    if is_unsolicited line
    then stepped c (handle_unsolicited c line)
    else if is_final_response_success line
    then handle_final_response c r true line
    else if is_final_response_error line
    then handle_final_response c r false line
    else if is_prompt c.sms_pdu line
    then process_prompt c.sms_pdu c
    else process_intermediate (takes_line c.type c.response_prefix r line) c r line

pub process_on : Option Response → Channel → Text → Outcome
process_on none c line = stepped c (handle_unsolicited c line)
process_on (some r) c line = process_pending c r line

-- `processLine`.
unfoldable pub process_line : Channel → Text → Outcome
unfolding process_on process_pending
process_line c line = process_on c.response c line

-- A run of lines, with all that was done.
abbrev pub behind : List Effect → Outcome → Outcome
behind done fault = fault
behind done (stepped c es) = stepped c (done ++ es)

abbrev pub continue : (Channel → Outcome) → Outcome → Outcome
continue k fault = fault
continue k (stepped c es) = behind es (k c)

unfoldable pub process_lines : Channel → List Text → Outcome
process_lines c [] = stepped c []
process_lines c (line ∷ lines) = continue (λ c'. process_lines c' lines) (process_line c line)
