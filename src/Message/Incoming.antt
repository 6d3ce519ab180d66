-- ===== src/Message/Incoming.antt =====
-- sxx-ril-message.c: the unsolicited lines of short messages.
use sxx_ril.Common.{Bool, false, Option, none, some, ◌++◌, ◌==◌, if◌then◌else◌, Text, codes, str_eq}
use sxx_ril.Common.Int.{ℤ, pos, negsuc}
use sxx_ril.Tok.{Result, ok, fail, cursor, at_tok_start, at_tok_nextint, at_tok_nextstr}
use sxx_ril.Tok.Numbers.{decimal_int}
use sxx_ril.Misc.{str_starts_with}
use sxx_ril.Ril.{
  plain, Program, done, undefined, notify, schedule, new_sms, new_sms_status_report,
  read_message_by_index, delete_message_by_index,
}
use sxx_ril.Ril.Payload.{Payload, text}
use sxx_ril.Ril.Steps.{stored, tell}
use sxx_ril.Service.{free}

-- `deleteMessageByIndex`.
abbrev pub delete_message : ℤ → Program Payload
delete_message index = tell (plain (codes "AT+CMGD=" ++ decimal_int index)) done

-- `readMessageByIndex`.
abbrev pub read_message : ℤ → Program Payload
read_message location = tell (plain (codes "AT+CMGR=" ++ (decimal_int location ++ codes ",0"))) done

-- The read of `index` behind `out`; it is not set if the line is not read so far, and 0 if its
-- token is no number.
abbrev pub with_index : Option Text → Option Text → Program Payload
with_index none cur = undefined
with_index (some s) cur = free cur (schedule (read_message_by_index (stored (pos 0) (some s))) done)

abbrev pub on_storage : Result Text → Program Payload
on_storage (fail cur) = undefined
on_storage (ok storage cur) =
    if str_eq storage (codes "SM") then with_index cur (cursor (at_tok_nextint cur)) else undefined

-- `onNewMesssageByIndex`, for +CMTI.
unfoldable pub on_new_message_by_index : Text → Program Payload
on_new_message_by_index s = on_storage (at_tok_nextstr (at_tok_start (some s)))

-- `sms_pdu`, with its `strlen`.
abbrev pub with_pdu : Option Text → (Text → Program Payload) → Program Payload
with_pdu none k = undefined
with_pdu (some pdu) k = k pdu

-- `onNewMessageOrStatus`, for +CMT, +CDS and +CMGR.
unfoldable pub on_new_message_or_status : Text → Option Text → Program Payload
on_new_message_or_status s sms_pdu =
    if str_starts_with s (codes "+CMT:")
    then with_pdu sms_pdu (λ pdu. notify new_sms (text pdu) done)
    else if str_starts_with s (codes "+CDS:")
    then with_pdu sms_pdu (λ pdu. notify new_sms_status_report (text pdu) done)
    else if str_starts_with s (codes "+CMGR:")
    then with_pdu sms_pdu (λ pdu. notify new_sms (text pdu) done)
    else done

abbrev pub is_0 : ℤ → Bool
is_0 (pos n) = n == 0
is_0 (negsuc n) = false

abbrev pub listed : Option Text → ℤ → Option Text → Option Text → Program Payload
listed sms_pdu stat cur none = undefined
listed sms_pdu stat cur (some s) = schedule (delete_message_by_index (stored (pos 0) (some s))) (
    if is_0 stat
    then with_pdu sms_pdu (λ pdu. notify new_sms (text pdu) (free cur done))
    else free cur done)

-- The two numbers; `index` is not set without a token, and `stat` is -1.
abbrev pub listing : Option Text → Option Text → Program Payload
listing sms_pdu cur0 =
    let cur1 = cursor (at_tok_nextint cur0) in
    listed sms_pdu (stored (negsuc 0) cur1) (cursor (at_tok_nextint cur1)) cur0

-- `onMessageListing`, for +CMGL.
unfoldable pub on_message_listing : Text → Option Text → Program Payload
on_message_listing s sms_pdu = listing sms_pdu (at_tok_start (some s))
