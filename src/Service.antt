-- ===== src/Service.antt =====
-- sxx-ril-service.c: the supplementary services and the USSD.
use sxx_ril.Common.{
  ℕ, Bool, true, false, ◌||◌, ◌&&◌, Option, none, some, List, [], ◌∷◌, ◌++◌, ◌==◌, if◌then◌else◌,
  Text, codes,
}
use sxx_ril.Common.Int.{ℤ, pos, negsuc}
use sxx_ril.Channel.State.{Response, AtError}
use sxx_ril.Channel.Cme.{at_get_cme_error}
use sxx_ril.Tok.{Result, ok, fail, at_tok_start, at_tok_nextint, at_tok_nextstr, at_tok_hasmore}
use sxx_ril.Tok.Numbers.{decimal_int}
use sxx_ril.Ril.{
  At, plain, singleline, numeric, multiline, Answer, Program, done, undefined, send, complete,
  notify, success, generic_failure, request_not_supported, on_ussd, supp_svc_notification,
}
use sxx_ril.Ril.Payload.{Payload, null, text, texts, ints, forwards, notification, Forward}
use sxx_ril.Ril.Steps.{
  check, checked, on_success, first_line, read_ussd, reading, set_ussd, started, reply,
  reply_checked, stored, tell,
}
pub mod Forwards
pub mod Completion
pub mod Examples

abbrev pub failure : Program Payload
failure = reply generic_failure null

abbrev pub succeeded : Program Payload
succeeded = reply success null

-- What follows the completion in `requestCancelUSSD`.
abbrev pub end_ussd : Program Payload
end_ussd = set_ussd false (tell (plain (codes "AT+CSCS=\"CUS2\"")) done)

-- `requestCancelUSSD`.
unfoldable pub request_cancel_ussd : Program Payload
request_cancel_ussd = send (numeric (codes "AT+CUSD=2")) true (λ a.
    check a (complete generic_failure null end_ussd)
      (λ r. first_line r.intermediates (λ line. complete success (text line) end_ussd)))

-- `requestSendUSSD`.
unfoldable pub request_send_ussd : Text → Program Payload
request_send_ussd ussd =
    tell (plain (codes "AT+CSCS=\"GSM\""))
      (set_ussd true (reply_checked (plain (codes "AT+CUSD=1," ++ (ussd ++ codes ",15"))) null))

-- An int that is compared with a number.
abbrev pub equals : ℤ → ℕ → Bool
equals (pos n) m = n == m
equals (negsuc n) m = false

abbrev pub supp_svc : ℤ → ℤ → ℤ → Program Payload
supp_svc type code index =
    notify supp_svc_notification
      (notification (record { notification_type = type; code = code; index = index })) done

-- `onSuppServiceNotification`.
unfoldable pub on_supp_service_notification : Text → ℤ → Program Payload
on_supp_service_notification s type = started (at_tok_start (some s)) done (λ cur0.
    reading (at_tok_nextint cur0) done (λ code cur1.
      if equals code 16 || (equals type 0 && equals code 4) || (equals type 1 && equals code 1)
      then reading (at_tok_nextint cur1) done (λ index cur2. supp_svc type code index)
      else supp_svc type code (pos 0)))

-- `free(line)`, after the tokenizer has moved `line` off the start of the block; NULL is freed.
abbrev pub free : Option Text → Program Payload → Program Payload
free none rest = rest
free (some moved) rest = undefined

-- "258", "257" and "100" end a USSD session.
abbrev pub ends_ussd : ℤ → Bool
ends_ussd code = equals code 258 || equals code 257 || equals code 100

abbrev pub after_code : Result ℤ → Program Payload
after_code (fail cur) = free cur done
after_code (ok code cur) =
    free cur (if ends_ussd code then notify on_ussd (texts (some (codes "-1") ∷ [])) done else done)

-- `at_tok_start`, where the result is not looked at; without a colon the cursor becomes NULL.
abbrev pub on_cme : Text → Bool → Program Payload
on_cme s true = after_code (at_tok_nextint (at_tok_start (some s)))
on_cme s false = done

-- `onCmeError`, for +CME ERROR.
unfoldable pub on_cme_error : Text → Program Payload
on_cme_error s = read_ussd (on_cme s)

-- What two `at_tok_nextint` behind `at_tok_start` make of `response[2]`.
abbrev pub from_first : ℤ → ℤ → Option Text → Result ℤ → List ℤ
from_first a b cur (ok a' cur') = a' ∷ stored b cur' ∷ []
from_first a b cur (fail cur') = stored a cur ∷ b ∷ []

abbrev pub from_colon : ℤ → ℤ → Option Text → List ℤ
from_colon a b none = a ∷ b ∷ []
from_colon a b (some rest) = from_first a b (some rest) (at_tok_nextint (some rest))

unfoldable pub two_ints : ℤ → ℤ → Text → List ℤ
two_ints a b line = from_colon a b (at_tok_start (some line))

-- A query that is always completed with RIL_E_SUCCESS: `requestGetCLIR`, `requestQueryCallWaiting`.
abbrev pub request_two_ints : At → ℤ → ℤ → Program Payload
request_two_ints at a b = send at true (λ answer.
    check answer (reply success (ints (a ∷ b ∷ [])))
      (λ r. first_line r.intermediates (λ line. reply success (ints (two_ints a b line)))))

-- `at_response_free(p_response)`, where `p_response` is not set before the command sets it.
abbrev pub release : Option Response → Program Payload
release none = undefined
release (some r) = done

-- `requestSetCallWaiting`.
unfoldable pub request_set_call_waiting : ℤ → ℤ → Program Payload
request_set_call_waiting enable c =
    send (plain (codes "AT+CCWA=1," ++ (decimal_int enable ++ (codes ",1," ++ decimal_int c)))) true
      (λ a.
        check a (complete generic_failure null (release a.response))
          (λ r. complete success null (release a.response)))

abbrev pub on_error : Option AtError → Program Payload
on_error none = succeeded
on_error (some e) = failure

-- `requestSetSuppSvcNotification`, behind its assertion.
abbrev pub request_set_supp_svc_notification : ℤ → Program Payload
request_set_supp_svc_notification ssn =
    send (plain (codes "AT+CSSN=" ++ (decimal_int ssn ++ (codes "," ++ decimal_int ssn)))) false
      (λ a. on_error a.err)
