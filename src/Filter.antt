-- ===== src/Filter.antt =====
-- sxx-ril.c: `requestStateFilter`, which answers a request that the state of the radio does not allow.
use sxx_ril.Common.{ℕ, Bool, true, false, not, ◌&&◌, ◌||◌, Option, none, some, if◌then◌else◌}
pub mod Table
pub mod Examples

-- The values of `sState`; the code names five, `other` is any other.
pub data RadioState : Type 0 where
  off unavailable sim_not_ready sim_locked_or_absent sim_ready : RadioState
  other : ℕ → RadioState

-- The requests that the filter names; `request` is any other.
pub data Request : Type 0 where
  write_sms_to_sim delete_sms_on_sim get_sim_status screen_state radio_power : Request
  stk_get_profile stk_set_profile report_stk_service_is_running : Request
  get_imeisv get_imei device_identity baseband_version : Request
  enter_sim_pin enter_sim_puk enter_sim_pin2 enter_sim_puk2 enter_network_depersonalization :
      Request
  dial get_current_calls hangup hangup_foreground_resume_background : Request
  set_tty_mode query_tty_mode dtmf dtmf_start dtmf_stop last_call_fail_cause : Request
  request : ℕ → Request

-- The error codes that `RIL_onRequestComplete` gets here. One call passes the number of a request.
pub data Code : Type 0 where
  generic_failure radio_not_available request_get_sim_status : Code

pub data Payload : Type 0 where
  null sim_status_2 : Payload

pub record Answer : Type 0 where
  pub code : Code
  pub payload : Payload

abbrev pub refused : Code → Option Answer
refused e = some (record { code = e; payload = null })

abbrev pub is_ready : RadioState → Bool
is_ready sim_ready = true
is_ready _ = false

abbrev pub is_unavailable : RadioState → Bool
is_unavailable unavailable = true
is_unavailable _ = false

abbrev pub is_off : RadioState → Bool
is_off off = true
is_off _ = false

abbrev pub is_sim_not_ready : RadioState → Bool
is_sim_not_ready sim_not_ready = true
is_sim_not_ready _ = false

abbrev pub is_locked : RadioState → Bool
is_locked sim_locked_or_absent = true
is_locked _ = false

abbrev pub on_sim : Request → Bool
on_sim write_sms_to_sim = true
on_sim delete_sms_on_sim = true
on_sim _ = false

-- The exceptions of the first test of RADIO_STATE_OFF.
abbrev pub when_off : Request → Bool
when_off radio_power = true
when_off stk_get_profile = true
when_off stk_set_profile = true
when_off report_stk_service_is_running = true
when_off get_sim_status = true
when_off get_imeisv = true
when_off get_imei = true
when_off device_identity = true
when_off baseband_version = true
when_off screen_state = true
when_off _ = false

-- The exceptions of the test of RADIO_STATE_OFF and RADIO_STATE_SIM_NOT_READY.
abbrev pub when_not_ready : Request → Bool
when_not_ready radio_power = true
when_not_ready report_stk_service_is_running = true
when_not_ready get_sim_status = true
when_not_ready get_imeisv = true
when_not_ready get_imei = true
when_not_ready device_identity = true
when_not_ready baseband_version = true
when_not_ready screen_state = true
when_not_ready _ = false

-- The exceptions of the test of RADIO_STATE_SIM_LOCKED_OR_ABSENT.
abbrev pub when_locked : Request → Bool
when_locked enter_sim_pin = true
when_locked enter_sim_puk = true
when_locked enter_sim_pin2 = true
when_locked enter_sim_puk2 = true
when_locked enter_network_depersonalization = true
when_locked get_sim_status = true
when_locked radio_power = true
when_locked get_imeisv = true
when_locked get_imei = true
when_locked baseband_version = true
when_locked dial = true
when_locked get_current_calls = true
when_locked hangup = true
when_locked hangup_foreground_resume_background = true
when_locked set_tty_mode = true
when_locked query_tty_mode = true
when_locked dtmf = true
when_locked dtmf_start = true
when_locked dtmf_stop = true
when_locked last_call_fail_cause = true
when_locked screen_state = true
when_locked _ = false

-- The answer while the radio is not available.
abbrev pub static_answer : Request → Option Answer
static_answer get_sim_status =
    some (record { code = request_get_sim_status; payload = sim_status_2 })
static_answer screen_state = refused generic_failure
static_answer _ = refused radio_not_available

-- `requestStateFilter`: the completion of the request, where it returns true.
unfoldable pub request_state_filter : RadioState → Request → Option Answer
request_state_filter s r =
    if not (is_ready s) && on_sim r
    then refused generic_failure
    else if is_unavailable s
    then static_answer r
    else if is_off s && not (when_off r)
    then refused radio_not_available
    else if (is_off s || is_sim_not_ready s) && not (when_not_ready r)
    then refused generic_failure
    else if is_locked s && not (when_locked r)
    then refused generic_failure
    else none
