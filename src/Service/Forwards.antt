-- ===== src/Service/Forwards.antt =====
-- sxx-ril-service.c: call forwarding, and the requests as they are registered.
use sxx_ril.Common.{
  ℕ, Bool, true, false, ◌||◌, ◌&&◌, Option, none, some, List, [], ◌∷◌, ◌++◌, ◌==◌, leb,
  if◌then◌else◌, Text, codes,
}
use sxx_ril.Common.Int.{ℤ, pos, negsuc}
use sxx_ril.Channel.State.{Response, AtError}
use sxx_ril.Channel.Cme.{at_get_cme_error}
use sxx_ril.Tok.{Result, ok, fail, at_tok_start, at_tok_nextint, at_tok_nextstr, at_tok_hasmore}
use sxx_ril.Tok.Numbers.{decimal_int}
use sxx_ril.Ril.{singleline, multiline, Program, undefined, send, success, request_not_supported}
use sxx_ril.Ril.Payload.{Payload, null, forwards, Forward}
use sxx_ril.Ril.Steps.{reply, stored}
use sxx_ril.Service.{
  equals, failure, succeeded, request_cancel_ussd, request_send_ussd, request_two_ints,
  request_set_call_waiting, request_set_supp_svc_notification,
}

-- A character of "+0123456789".
abbrev pub dials : ℕ → Bool
dials c = (c == b'+') || (leb b'0' c && leb c b'9')

-- `if (0 == strspn(number, "+0123456789")) number = NULL`.
abbrev pub dialled : Text → Option Text
dialled [] = none
dialled (c ∷ number) = if dials c then some (c ∷ number) else none

-- What a line leaves in its slot, and whether it is valid.
pub record Parsed : Type 0 where
  pub valid : Bool
  pub slot : Forward

abbrev pub invalid : Forward → Parsed
invalid f = record { valid = false; slot = f }

abbrev pub with_toa : Forward → Option Text → Result ℤ → Parsed
with_toa f cur (ok z cur') = record { valid = true; slot = record f { toa = z } }
with_toa f cur (fail cur') = invalid (record f { toa = stored f.toa cur })

-- "tolerate null here".
abbrev pub with_number : Forward → Result Text → Parsed
with_number f (fail cur) = record { valid = true; slot = f }
with_number f (ok number cur) =
    with_toa (record f { number = dialled number }) cur (at_tok_nextint cur)

abbrev pub with_class : Forward → Option Text → Result ℤ → Parsed
with_class f cur (fail cur') = invalid (record f { service_class = stored f.service_class cur })
with_class f cur (ok class cur') =
    let g = record f { service_class = class } in
    if at_tok_hasmore cur'
    then with_number g (at_tok_nextstr cur')
    else record { valid = true; slot = g }

abbrev pub with_status : Forward → Option Text → Result ℤ → Parsed
with_status f cur (fail cur') = invalid (record f { status = stored f.status cur })
with_status f cur (ok status cur') =
    with_class (record f { status = status }) cur' (at_tok_nextint cur')

abbrev pub behind_colon : Forward → Option Text → Parsed
behind_colon f none = invalid f
behind_colon f (some rest) = with_status f (some rest) (at_tok_nextint (some rest))

-- `forwardFromCCFCLine`, on the slot of the caller.
unfoldable pub forward_from_ccfc_line : Forward → Text → Parsed
forward_from_ccfc_line f line = behind_colon f (at_tok_start (some line))

abbrev pub zero_forward : Forward
zero_forward = record { status = pos 0; service_class = pos 0; number = none; toa = pos 0 }

-- The loop over the lines: the slot of a line that is not valid goes to the next line as it is.
unfoldable pub valid_forwards : Forward → List Text → List Forward
valid_forwards f [] = []
valid_forwards f (line ∷ lines) =
    let p = forward_from_ccfc_line f line in
    let rest = valid_forwards (if p.valid then zero_forward else p.slot) lines in
    if p.valid then p.slot ∷ rest else rest

abbrev pub forward_list : List Forward → Payload
forward_list [] = null
forward_list (f ∷ fs) = forwards (f ∷ fs)

-- CME_SUCCESS and CME_ERROR_NON_CME.
abbrev pub tolerated : ℤ → Bool
tolerated (pos n) = n == 0
tolerated (negsuc n) = n == 0

-- The fields of `RIL_CallForwardInfo` that are read.
pub record Query : Type 0 where
  pub status : ℤ
  pub reason : ℤ
  pub number : Option Text

abbrev pub or_empty : Option Text → Text
or_empty none = []
or_empty (some t) = t

abbrev pub ccfc_command : Query → Text
ccfc_command q =
    codes "AT+CCFC="
    ++ (decimal_int q.reason
        ++ (codes ","
            ++ (decimal_int q.status
                ++ (if equals q.status 2
                    then []
                    else codes ",\"" ++ (or_empty q.number ++ codes "\"")))))

abbrev pub forward_answer : Query → Option AtError → Option Response → Program Payload
forward_answer q (some e) r = failure
forward_answer q none none = undefined
forward_answer q none (some r) =
    if tolerated (at_get_cme_error r)
    then if equals q.status 2
      then reply success (forward_list (valid_forwards zero_forward r.intermediates))
      else succeeded
    else failure

-- `requestCallForward`; the flag is `datalen == sizeof(*data)`.
unfoldable pub request_call_forward : Query → Bool → Program Payload
request_call_forward q false = failure
request_call_forward q true =
    send (multiline (ccfc_command q) (codes "+CCFC:")) true (λ a. forward_answer q a.err a.response)

-- `requestQueryCallForwardStatus`; `number` is not set, and is read for any other status than 2.
unfoldable pub request_query_call_forward_status : ℤ → ℤ → Program Payload
request_query_call_forward_status status reason =
    if equals status 2
    then request_call_forward (record { status = status; reason = reason; number = none }) true
    else undefined

-- `requestQueryClip`.
abbrev pub request_query_clip : Program Payload
request_query_clip = reply request_not_supported null

-- `requestSetCLIR`.
abbrev pub request_set_clir : Program Payload
request_set_clir = reply request_not_supported null

-- `requestGetCLIR`.
abbrev pub request_get_clir : Program Payload
request_get_clir =
    request_two_ints (singleline (codes "AT+CLIR?") (codes "+CLIR: ")) (pos 1) (pos 1)

-- `requestQueryCallWaiting`.
abbrev pub request_query_call_waiting : ℤ → Program Payload
request_query_call_waiting c =
    request_two_ints (singleline (codes "AT+CCWA=1,2,1," ++ decimal_int c) (codes "+CCWA: "))
      (pos 0) (pos 0)

-- `requestSetCallForward`.
abbrev pub request_set_call_forward : Query → Bool → Program Payload
request_set_call_forward = request_call_forward

-- The registered requests, with what the handler reads of `data`.
pub data ServiceRequest : Type 0 where
  query_clip cancel_ussd get_clir set_clir : ServiceRequest
  send_ussd : Text → ServiceRequest
  query_call_forward_status set_call_waiting : ℤ → ℤ → ServiceRequest
  set_call_forward : Query → Bool → ServiceRequest
  query_call_waiting set_supp_svc_notification : ℤ → ServiceRequest

-- The handlers, as they are registered.
unfoldable pub on_service_request : ServiceRequest → Program Payload
on_service_request query_clip = request_query_clip
on_service_request cancel_ussd = request_cancel_ussd
on_service_request get_clir = request_get_clir
on_service_request set_clir = request_set_clir
on_service_request (send_ussd ussd) = request_send_ussd ussd
on_service_request (query_call_forward_status status reason) =
    request_query_call_forward_status status reason
on_service_request (set_call_waiting enable c) = request_set_call_waiting enable c
on_service_request (set_call_forward q sized) = request_set_call_forward q sized
on_service_request (query_call_waiting c) = request_query_call_waiting c
on_service_request (set_supp_svc_notification ssn) = request_set_supp_svc_notification ssn
