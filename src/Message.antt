-- ===== src/Message.antt =====
-- sxx-ril-message.c: sending, storing and receiving short messages.
use sxx_ril.Common.{
  ℕ, ◌/◌, Bool, true, false, not, Option, none, some, List, [], ◌∷◌, ◌++◌, ◌==◌, ltb, length,
  if◌then◌else◌, Text, codes,
}
use sxx_ril.Common.Int.{ℤ, pos, negsuc, ◌-ℤ◌, ltb_ℤ}
use sxx_ril.Channel.State.{Response, AtError}
use sxx_ril.Tok.{Result, ok, fail, at_tok_start, at_tok_nextint, at_tok_nextstr}
use sxx_ril.Tok.Numbers.{decimal, decimal_int}
use sxx_ril.Misc.{str_starts_with}
use sxx_ril.Ril.{
  At, plain, singleline, sms, Program, done, undefined, send, complete, notify, schedule, success,
  generic_failure, new_sms, new_sms_status_report, read_message_by_index, delete_message_by_index,
}
use sxx_ril.Ril.Payload.{Payload, null, zeroed, text}
use sxx_ril.Ril.Steps.{check, first_line, reading, started, reply, reply_checked, stored, tell}
pub mod Incoming
pub mod Completion
pub mod Acknowledge
pub mod Examples

abbrev pub failure : Program Payload
failure = reply generic_failure null

-- `RIL_GSM_BroadcastSmsConfigInfo`.
pub record BroadcastConfig : Type 0 where
  pub from_service_id : ℤ
  pub to_service_id : ℤ
  pub from_code_scheme : ℤ
  pub to_code_scheme : ℤ
  pub selected : Bool

-- The registered requests, with what the handler reads of `data`; a NULL smsc is the default.
pub data MessageRequest : Type 0 where
  get_broadcast_config broadcast_activation get_smsc_address : MessageRequest
  set_broadcast_config : BroadcastConfig → MessageRequest
  send_sms send_sms_expect_more : Option Text → Text → MessageRequest
  sms_acknowledge delete_sms_on_sim : ℤ → MessageRequest
  write_sms_to_sim : Text → ℤ → MessageRequest
  set_smsc_address : Text → MessageRequest

-- `requestGSMGetBroadcastSMSConfig`: a failure of the command frees `configInfo`, which is not set;
-- and else the size of the structure is zeroed where the pointer to it is.
unfoldable pub request_get_broadcast_config : Program Payload
request_get_broadcast_config =
    send (singleline (codes "AT+CSCB?") (codes "+CSCB:")) true
      (λ a. check a (complete generic_failure null undefined) (λ r. undefined))

-- "%d-%d" in quotation marks.
abbrev pub range : ℤ → ℤ → Text
range a b = codes "\"" ++ (decimal_int a ++ (codes "-" ++ (decimal_int b ++ codes "\"")))

-- `requestGSMSetBroadcastSMSConfig`, for service ids that are no more than an int apart.
unfoldable pub request_set_broadcast_config : BroadcastConfig → Program Payload
request_set_broadcast_config c =
    if not c.selected
    then failure
    else if ltb_ℤ (pos 10) (c.to_service_id -ℤ c.from_service_id)
    then failure
    else reply_checked
        (plain (
          codes "AT+CSCB=0,"
          ++ (range c.from_service_id c.to_service_id
              ++ (codes "," ++ range c.from_code_scheme c.to_code_scheme))))
        null

abbrev pub smsc_or_default : Option Text → Text
smsc_or_default none = codes "00"
smsc_or_default (some smsc) = smsc

-- `requestSendSMS`.
unfoldable pub request_send_sms : Option Text → Text → Program Payload
request_send_sms smsc pdu =
    send
      (sms (codes "AT+CMGS=" ++ decimal (length pdu / 2)) (smsc_or_default smsc ++ pdu)
        (codes "+CMGS:"))
      true (λ a. check a failure (λ r. reply success zeroed))

-- Behind the label `error` of `requestSMSAcknowledge`, which the success runs into.
abbrev pub acknowledge : Text → Program Payload
acknowledge command = tell (plain command) (complete success null failure)

-- `requestSMSAcknowledge`.
unfoldable pub request_sms_acknowledge : ℤ → Program Payload
request_sms_acknowledge (negsuc n) = failure
request_sms_acknowledge (pos n) =
    if n == 1
    then acknowledge (codes "AT+CNMA=1")
    else if n == 0
    then acknowledge (codes "AT+CNMA=2")
    else failure

-- `requestWriteSmsToSim`.
unfoldable pub request_write_sms_to_sim : Text → ℤ → Program Payload
request_write_sms_to_sim pdu status =
    send
      (sms (codes "AT+CMGW=" ++ (decimal (length pdu / 2) ++ (codes "," ++ decimal_int status))) pdu
        (codes "+CMGW:"))
      true (λ a. check a failure (λ r. reply success null))

-- `requestGetSMSCAddress`.
unfoldable pub request_get_smsc_address : Program Payload
request_get_smsc_address = send (singleline (codes "AT+CSCA?") (codes "+CSCA:")) true (λ a.
    check a failure (λ r. first_line r.intermediates (λ line.
      started (at_tok_start (some line)) failure (λ cur.
        reading (at_tok_nextstr cur) failure (λ address cur'. reply success (text address))))))

-- `requestGSMSMSBroadcastActivation`.
abbrev pub request_broadcast_activation : Program Payload
request_broadcast_activation = reply_checked (plain (codes "AT+CNMI=1,2,2,0,0")) null

-- `requestSendSMSExpectMore`.
abbrev pub request_send_sms_expect_more : Option Text → Text → Program Payload
request_send_sms_expect_more smsc pdu = tell (plain (codes "AT+CMMS=1")) (request_send_sms smsc pdu)

-- `requestDeleteSmsOnSim`.
abbrev pub request_delete_sms_on_sim : ℤ → Program Payload
request_delete_sms_on_sim index = reply_checked (plain (codes "AT+CMGD=" ++ decimal_int index)) null

-- `requestSetSMSCAddress`.
abbrev pub request_set_smsc_address : Text → Program Payload
request_set_smsc_address smsc =
    reply_checked (plain (codes "AT+CSCA=\"" ++ (smsc ++ codes "\""))) null

-- The handlers, as they are registered.
unfoldable pub on_message_request : MessageRequest → Program Payload
on_message_request get_broadcast_config = request_get_broadcast_config
on_message_request (set_broadcast_config c) = request_set_broadcast_config c
on_message_request broadcast_activation = request_broadcast_activation
on_message_request (send_sms smsc pdu) = request_send_sms smsc pdu
on_message_request (send_sms_expect_more smsc pdu) = request_send_sms_expect_more smsc pdu
on_message_request (sms_acknowledge ack) = request_sms_acknowledge ack
on_message_request (write_sms_to_sim pdu status) = request_write_sms_to_sim pdu status
on_message_request (delete_sms_on_sim index) = request_delete_sms_on_sim index
on_message_request get_smsc_address = request_get_smsc_address
on_message_request (set_smsc_address smsc) = request_set_smsc_address smsc
