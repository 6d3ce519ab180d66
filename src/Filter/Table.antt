-- ===== src/Filter/Table.antt =====
-- sxx-ril.c: the answers of `requestStateFilter`, by the state and the kind of the request.
use sxx_ril.Common.{Option, none, some, ◌≡◌, arith}
use sxx_ril.Filter.{
  RadioState, off, unavailable, sim_not_ready, sim_locked_or_absent, sim_ready, other, Request,
  write_sms_to_sim, delete_sms_on_sim, get_sim_status, screen_state, radio_power, stk_get_profile,
  stk_set_profile, report_stk_service_is_running, get_imeisv, get_imei, device_identity,
  baseband_version, enter_sim_pin, enter_sim_puk, enter_sim_pin2, enter_sim_puk2,
  enter_network_depersonalization, dial, get_current_calls, hangup,
  hangup_foreground_resume_background, set_tty_mode, query_tty_mode, dtmf, dtmf_start, dtmf_stop,
  last_call_fail_cause, request, generic_failure, radio_not_available, request_get_sim_status,
  sim_status_2, Answer, refused, request_state_filter,
}

-- What a request is about: the messages stored on the SIM card, the STK profile, whether STK runs, the
-- identity of the device as a whole, the power and the numbers of the device, the display, the state of
-- the card, the codes that unlock it, calls, or anything else.
pub data Kind : Type 0 where
  card_store stk_profile stk_running identity device display card_state unlocking calling any : Kind

abbrev pub kind : Request → Kind
kind write_sms_to_sim = card_store
kind delete_sms_on_sim = card_store
kind stk_get_profile = stk_profile
kind stk_set_profile = stk_profile
kind report_stk_service_is_running = stk_running
kind device_identity = identity
kind radio_power = device
kind get_imeisv = device
kind get_imei = device
kind baseband_version = device
kind screen_state = display
kind get_sim_status = card_state
kind enter_sim_pin = unlocking
kind enter_sim_puk = unlocking
kind enter_sim_pin2 = unlocking
kind enter_sim_puk2 = unlocking
kind enter_network_depersonalization = unlocking
kind dial = calling
kind get_current_calls = calling
kind hangup = calling
kind hangup_foreground_resume_background = calling
kind set_tty_mode = calling
kind query_tty_mode = calling
kind dtmf = calling
kind dtmf_start = calling
kind dtmf_stop = calling
kind last_call_fail_cause = calling
kind (request n) = any

-- The answer that a request of this kind is completed with; `none` is let through.
abbrev pub answered : RadioState → Kind → Option Answer
answered unavailable card_store = refused generic_failure
answered unavailable display = refused generic_failure
answered unavailable card_state =
    some (record { code = request_get_sim_status; payload = sim_status_2 })
answered unavailable _ = refused radio_not_available
answered off card_store = refused generic_failure
answered off stk_profile = refused generic_failure
answered off unlocking = refused radio_not_available
answered off calling = refused radio_not_available
answered off any = refused radio_not_available
answered off _ = none
answered sim_not_ready card_store = refused generic_failure
answered sim_not_ready stk_profile = refused generic_failure
answered sim_not_ready unlocking = refused generic_failure
answered sim_not_ready calling = refused generic_failure
answered sim_not_ready any = refused generic_failure
answered sim_not_ready _ = none
answered sim_locked_or_absent card_store = refused generic_failure
answered sim_locked_or_absent stk_profile = refused generic_failure
answered sim_locked_or_absent stk_running = refused generic_failure
answered sim_locked_or_absent identity = refused generic_failure
answered sim_locked_or_absent any = refused generic_failure
answered sim_locked_or_absent _ = none
answered sim_ready k = none
answered (other n) card_store = refused generic_failure
answered (other n) _ = none

-- The filter answers every request, in every state, as the table of kinds says: which requests are let
-- through, and with which error or status the others are completed.
pub request_state_filter_lem :
    (s : RadioState) (r : Request) → request_state_filter s r ≡ answered s (kind r)
unfolding request_state_filter
request_state_filter_lem off r = ground arith
request_state_filter_lem unavailable r = ground arith
request_state_filter_lem sim_not_ready r = ground arith
request_state_filter_lem sim_locked_or_absent r = ground arith
request_state_filter_lem sim_ready r = ground arith
request_state_filter_lem (other n) r = ground arith
