-- ===== src/Channel/Lines.antt =====
-- atchannel.c: the kinds of lines, each given by a list of prefixes.
pub mod Kinds
use sxx_ril.Common.{
  ℕ, Bool, true, false, ◌||◌, List, [], ◌∷◌, Option, none, some, if◌then◌else◌, Text, codes,
}
use sxx_ril.Misc.{str_starts_with}

-- The loops over the prefixes.
unfoldable pub starts_with_any : Text → List Text → Bool
starts_with_any line [] = false
starts_with_any line (p ∷ prefixes) =
    if str_starts_with line p then true else starts_with_any line prefixes

-- `s_finalResponsesError`.
abbrev pub final_responses_error : List Text
final_responses_error =
    codes "ERROR"
    ∷ codes "+CMS ERROR:"
    ∷ codes "+CME ERROR:"
    ∷ codes "NO CARRIER"
    ∷ codes "NO ANSWER"
    ∷ codes "NO DIALTONE"
    ∷ []

unfoldable pub is_final_response_error : Text → Bool
unfolding starts_with_any
is_final_response_error line = starts_with_any line final_responses_error

-- `s_finalResponsesSuccess`.
abbrev pub final_responses_success : List Text
final_responses_success = codes "OK" ∷ codes "CONNECT" ∷ codes "ATA:OK" ∷ []

unfoldable pub is_final_response_success : Text → Bool
unfolding starts_with_any
is_final_response_success line = starts_with_any line final_responses_success

unfoldable pub is_final_response : Text → Bool
is_final_response line = is_final_response_success line || is_final_response_error line

-- `s_smsUnsoliciteds`.
abbrev pub sms_unsoliciteds : List Text
sms_unsoliciteds =
    codes "+CMT:"
    ∷ codes "+CDS:"
    ∷ codes "+CBM:"
    ∷ codes "+CDSI:"
    ∷ codes "^SMMEMFULL:"
    ∷ codes "^HCMT:"
    ∷ codes "^HCDS:"
    ∷ codes "^HCMGSS:"
    ∷ codes "^HCMGSF:"
    ∷ codes "+CMGL:"
    ∷ codes "+CMGR:"
    ∷ []

unfoldable pub is_sms_unsolicited : Text → Bool
unfolding starts_with_any
is_sms_unsolicited line = starts_with_any line sms_unsoliciteds

-- `s_Unsoliciteds`.
abbrev pub unsoliciteds : List Text
unsoliciteds =
    codes "^HRSSILVL:"
    ∷ codes "^MODE:"
    ∷ codes "^SIMST:"
    ∷ codes "^DSDORMANT:"
    ∷ codes "RING"
    ∷ codes "+CLIP:"
    ∷ codes "^CONN:"
    ∷ codes "^CEND:"
    ∷ codes "CONNECT"
    ∷ codes "^RESUME:"
    ∷ []

unfoldable pub is_unsolicited : Text → Bool
unfolding starts_with_any
is_unsolicited line = starts_with_any line unsoliciteds

-- `exclude_command_list`: the commands that run long.
abbrev pub exclude_command_list : List Text
exclude_command_list =
    codes "AT+COPS=?" ∷ codes "AT+CUSD" ∷ codes "AT+CCFC" ∷ codes "AT+CCWA" ∷ codes "AT+CGATT" ∷ []

unfoldable pub check_need_protect : Text → Bool
unfolding starts_with_any
check_need_protect cmd = if starts_with_any cmd exclude_command_list then false else true
