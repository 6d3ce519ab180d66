-- ===== src/Message/Completion.antt =====
-- sxx-ril-message.c: how often a request is completed.
use sxx_ril.Common.{◌/◌, not, Option, some, ◌++◌, refl, Text, codes, length}
use sxx_ril.Common.Int.{pos, ltb_ℤ, ◌-ℤ◌}
use sxx_ril.Tok.{at_tok_start, at_tok_nextstr}
use sxx_ril.Tok.Numbers.{decimal, decimal_int}
use sxx_ril.Ril.{plain, singleline, sms, Allowed}
use sxx_ril.Ril.Once.{
  Completes, reply_checked-Completes, check-Completes, first_line-Completes, reading-Completes,
  started-Completes, if-Completes,
}
use sxx_ril.Message.{
  MessageRequest, get_broadcast_config, set_broadcast_config, broadcast_activation, send_sms,
  send_sms_expect_more, sms_acknowledge, write_sms_to_sim, delete_sms_on_sim, get_smsc_address,
  set_smsc_address, on_message_request, request_send_sms, request_write_sms_to_sim,
  request_get_smsc_address, request_set_broadcast_config, BroadcastConfig, smsc_or_default, range,
}

-- All but the two requests that are wrong: the query of the broadcasts, and the acknowledgement.
abbrev pub IsSound : MessageRequest → Type 0
IsSound get_broadcast_config = ⊥
IsSound (sms_acknowledge ack) = ⊥
IsSound _ = Unit

send_sms-Completes : (smsc : Option Text) (pdu : Text) → Completes 1 (request_send_sms smsc pdu)
unfolding request_send_sms
send_sms-Completes smsc pdu = λ a ok.
    check-Completes Allowed 1 a
      (sms (codes "AT+CMGS=" ++ decimal (length pdu / 2)) (smsc_or_default smsc ++ pdu)
        (codes "+CMGS:"))
      _ _ ok refl (λ r s i. refl)

set_broadcast-Completes : (c : BroadcastConfig) → Completes 1 (request_set_broadcast_config c)
unfolding request_set_broadcast_config
set_broadcast-Completes c = if-Completes Allowed 1 (not c.selected) _ _ refl (
    if-Completes Allowed 1 (ltb_ℤ (pos 10) (c.to_service_id -ℤ c.from_service_id)) _ _ refl (
      reply_checked-Completes
        (plain (
          codes "AT+CSCB=0,"
          ++ (range c.from_service_id c.to_service_id
              ++ (codes "," ++ range c.from_code_scheme c.to_code_scheme))))
        _))

pub on_message_request-Completes :
    (q : MessageRequest) → IsSound q → Completes 1 (on_message_request q)
unfolding on_message_request request_write_sms_to_sim request_get_smsc_address
on_message_request-Completes get_broadcast_config h = absurd h
on_message_request-Completes (set_broadcast_config c) h = set_broadcast-Completes c
on_message_request-Completes broadcast_activation h =
    reply_checked-Completes (plain (codes "AT+CNMI=1,2,2,0,0")) _
on_message_request-Completes (send_sms smsc pdu) h = send_sms-Completes smsc pdu
on_message_request-Completes (send_sms_expect_more smsc pdu) h = λ a ok. send_sms-Completes smsc pdu
on_message_request-Completes (sms_acknowledge ack) h = absurd h
on_message_request-Completes (write_sms_to_sim pdu status) h = λ a ok.
    check-Completes Allowed 1 a
      (sms (codes "AT+CMGW=" ++ (decimal (length pdu / 2) ++ (codes "," ++ decimal_int status))) pdu
        (codes "+CMGW:"))
      _ _ ok refl (λ r s i. refl)
on_message_request-Completes (delete_sms_on_sim index) h =
    reply_checked-Completes (plain (codes "AT+CMGD=" ++ decimal_int index)) _
on_message_request-Completes get_smsc_address h = λ a ok.
    check-Completes Allowed 1 a (singleline (codes "AT+CSCA?") (codes "+CSCA:")) _ _ ok refl
      (λ r s i. first_line-Completes Allowed 1 r _ s i (λ line.
        started-Completes Allowed 1 (at_tok_start (some line)) _ _ refl (λ cur.
          reading-Completes Allowed 1 (at_tok_nextstr cur) _ _ refl (λ address cur'. refl))))
on_message_request-Completes (set_smsc_address smsc) h =
    reply_checked-Completes (plain (codes "AT+CSCA=\"" ++ (smsc ++ codes "\""))) _
