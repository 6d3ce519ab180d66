-- ===== src/Call/Requests.antt =====
-- sxx-ril-call.c: the requests and the unsolicited lines of call control.
use sxx_ril.Common.{
  ℕ, Bool, true, false, Option, none, some, List, [], ◌∷◌, ◌++◌, ◌==◌, if◌then◌else◌, Text, codes,
}
use sxx_ril.Common.Int.{ℤ}
use sxx_ril.Channel.State.{Response, AtError}
use sxx_ril.Call.{CallState, active, holding, RilCall, call_from_clcc_line}
use sxx_ril.Tok.Numbers.{decimal_int}
use sxx_ril.Ril.{
  At, plain, multiline, Answer, Program, done, send, complete, notify, schedule, success,
  generic_failure, request_not_supported, call_state_changed, send_call_state_changed,
  call_connected_job,
}
use sxx_ril.Ril.Payload.{Payload, null, calls}
use sxx_ril.Ril.Steps.{check, checked, reply, reply_checked, tell}

-- The registered requests, with what the handler reads of `data`.
pub data CallRequest : Type 0 where
  hangup_waiting_or_background hangup_foreground_resume_background : CallRequest
  switch_waiting_or_holding_and_active conference explicit_call_transfer udub : CallRequest
  get_mute last_call_fail_cause get_current_calls answer dtmf_stop : CallRequest
  separate_connection set_mute hangup : ℤ → CallRequest
  dial : Text → ℤ → CallRequest
  dtmf dtmf_start : ℕ → CallRequest

abbrev pub failure : Program Payload
failure = reply generic_failure null

abbrev pub succeeded : Program Payload
succeeded = reply success null

abbrev pub chup : At
chup = plain (codes "AT+CHUP")

-- `if (ret < 0 || p_response->success == 0)` behind AT+CHUP: `ret` is of AT+CHUP, and `p_response`
-- still that of the command before.
abbrev pub after_chup : Option AtError → Option Response → Program Payload
after_chup err before = checked err before failure (λ r. succeeded)

abbrev pub or_chup : Answer → Program Payload
or_chup a = check a (send chup false (λ b. after_chup b.err a.response)) (λ r. succeeded)

-- The two requests that hang up held calls, which differ in their command.
abbrev pub request_hangup_held : Text → Program Payload
request_hangup_held command = send (plain command) true or_chup

-- `p_response` behind a command that stores no response on an error.
abbrev pub latest : Option Response → Option Response → Option Response
latest none before = before
latest (some r) before = some r

-- `requestHangup`; the first response is overwritten, unless the second command stores none.
unfoldable pub request_hangup : ℤ → Program Payload
request_hangup line = send (plain (codes "AT+CHLD=?")) true (λ a.
    send (plain (codes "AT+CHLD=1" ++ decimal_int line)) true
      (λ b. or_chup (record b { response = latest b.response a.response })))

-- The commands whose result "is ignored by the upper layer".
abbrev pub request_told : Text → Program Payload
request_told command = tell (plain command) succeeded

abbrev pub request_unsupported : Program Payload
request_unsupported = reply request_not_supported null

abbrev pub on_error : Option AtError → Program Payload → Program Payload → Program Payload
on_error none fails holds = holds
on_error (some e) fails holds = fails

-- `requestSetMute`.
unfoldable pub request_set_mute : ℤ → Program Payload
request_set_mute mute =
    send (plain (codes "AT+CMUT=" ++ decimal_int mute)) false
      (λ a. on_error a.err failure succeeded)

-- The loop over the lines: a line that cannot be read leaves its slot to the next.
unfoldable pub valid_calls : List Text → List RilCall
valid_calls [] = []
valid_calls (line ∷ lines) = keep (call_from_clcc_line line) (valid_calls lines)
  where
    keep : Option RilCall → List RilCall → List RilCall
    keep none cs = cs
    keep (some c) cs = c ∷ cs

abbrev pub settled : CallState → Bool
settled active = true
settled holding = true
settled _ = false

-- `needRepoll`.
unfoldable pub need_repoll : List RilCall → Bool
need_repoll [] = false
need_repoll (c ∷ cs) = if settled c.state then need_repoll cs else true

abbrev pub repoll : Bool → Program Payload
repoll true = schedule send_call_state_changed done
repoll false = done

abbrev pub report_calls : List RilCall → Program Payload
report_calls cs = complete success (calls cs) (repoll (need_repoll cs))

abbrev pub current_answer : Answer → Program Payload
current_answer a = check a succeeded (λ r. report_calls (valid_calls r.intermediates))

-- `requestGetCurrentCalls`, without POLL_CALL_STATE.
unfoldable pub request_get_current_calls : Program Payload
request_get_current_calls = send (multiline (codes "AT+CLCC") (codes "+CLCC:")) true current_answer

-- `requestDial`; the text for `clir` is computed, and not used.
abbrev pub request_dial : Text → ℤ → Program Payload
request_dial address clir = request_told (codes "ATD" ++ (address ++ codes ";"))

-- `requestAnswer`.
abbrev pub request_answer : Program Payload
request_answer = reply_checked (plain (codes "ATA")) null

-- A char that is printed with `%c`; 0 ends the string.
abbrev pub printed : ℕ → Text
printed c = if c == 0 then [] else c ∷ []

-- `requestDTMF`.
abbrev pub request_dtmf : ℕ → Program Payload
request_dtmf c = request_told (codes "AT+VTS=" ++ printed c)

-- `requestHangupWaitingOrBackground`.
abbrev pub request_hangup_waiting_or_background : Program Payload
request_hangup_waiting_or_background = request_hangup_held (codes "AT+CHLD=0")

-- `requestHangupForegroundResumeBackground`.
abbrev pub request_hangup_foreground_resume_background : Program Payload
request_hangup_foreground_resume_background = request_hangup_held (codes "AT+CHLD=1")

-- `requestSwitchWaitingOrHoldingAndActive`.
abbrev pub request_switch_waiting_or_holding_and_active : Program Payload
request_switch_waiting_or_holding_and_active = request_told (codes "AT+CHLD=2")

-- `requestConference`.
abbrev pub request_conference : Program Payload
request_conference = request_told (codes "AT+CHLD=3")

-- `requestSeparateConnection`.
abbrev pub request_separate_connection : ℤ → Program Payload
request_separate_connection line = request_told (codes "AT+CHLD=2" ++ decimal_int line)

-- `requestExplicitCallTransfer`.
abbrev pub request_explicit_call_transfer : Program Payload
request_explicit_call_transfer = request_told (codes "AT+CHLD=4")

-- `requestUDUB`.
abbrev pub request_udub : Program Payload
request_udub = request_told (codes "AT+CHLD=0")

-- `requestGetMute`.
abbrev pub request_get_mute : Program Payload
request_get_mute = request_unsupported

-- `requestLastCallFailCause`.
abbrev pub request_last_call_fail_cause : Program Payload
request_last_call_fail_cause = request_unsupported

-- `requestDTMFStart`.
abbrev pub request_dtmf_start : ℕ → Program Payload
request_dtmf_start c = request_told (codes "AT+VTS=" ++ printed c)

-- `requestDTMFStop`.
abbrev pub request_dtmf_stop : Program Payload
request_dtmf_stop = request_unsupported

-- The handlers, as they are registered.
unfoldable pub on_call_request : CallRequest → Program Payload
on_call_request hangup_waiting_or_background = request_hangup_waiting_or_background
on_call_request hangup_foreground_resume_background = request_hangup_foreground_resume_background
on_call_request switch_waiting_or_holding_and_active = request_switch_waiting_or_holding_and_active
on_call_request conference = request_conference
on_call_request explicit_call_transfer = request_explicit_call_transfer
on_call_request udub = request_udub
on_call_request get_mute = request_get_mute
on_call_request last_call_fail_cause = request_last_call_fail_cause
on_call_request get_current_calls = request_get_current_calls
on_call_request answer = request_answer
on_call_request dtmf_stop = request_dtmf_stop
on_call_request (separate_connection line) = request_separate_connection line
on_call_request (set_mute mute) = request_set_mute mute
on_call_request (hangup line) = request_hangup line
on_call_request (dial address clir) = request_dial address clir
on_call_request (dtmf c) = request_dtmf c
on_call_request (dtmf_start c) = request_dtmf_start c

-- `sendCallStateChanged`, and `onCallStateChanged` for +CRING, RING, NO CARRIER, +CCWA, ^CEND and
-- +ZCEND.
abbrev pub on_call_state_changed : Program Payload
on_call_state_changed = notify call_state_changed null done

-- `callConnectedJob`.
abbrev pub call_connected : Program Payload
call_connected =
    tell (plain (codes "AT+CLVL=6"))
      (tell (plain (codes "AT+SIDET=0,1")) (tell (plain (codes "AT+ECHO=1")) done))

-- `onCallConnected`, for +ZCCNT.
abbrev pub on_call_connected : Program Payload
on_call_connected = schedule call_connected_job done
