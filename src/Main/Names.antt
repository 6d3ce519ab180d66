-- ===== src/Main/Names.antt =====
-- sxx-ril.c: `onRequest`, with the names of the requests in the filter.
use sxx_ril.Common.{ℕ, false, Option, none, some, [], ◌∷◌}
use sxx_ril.Common.Int.{ℤ, pos}
use sxx_ril.Ril.{Program, RilError}
use sxx_ril.Ril as Codes
use sxx_ril.Ril.Payload.{
  Payload, null, ints, SimStatus, absent, not_ready, ready, pin, puk, network_personalization,
}
use sxx_ril.Ril.Steps.{read_radio, reply}
use sxx_ril.Radio.{get_sim_status}
use sxx_ril.Filter
use sxx_ril.Call.Requests as Calls
use sxx_ril.Device
use sxx_ril.Message
use sxx_ril.Network.Requests as Networks
use sxx_ril.Main.{
  RilRequest, call, service, device, message, network, get_sim_status_of, pins, PinRequest, handler,
  enter_sim_pin, enter_sim_puk, enter_sim_pin2, enter_sim_puk2,
}

-- The value of a `SIM_Status`.
abbrev pub sim_number : SimStatus → ℤ
sim_number absent = pos 0
sim_number not_ready = pos 1
sim_number ready = pos 2
sim_number pin = pos 3
sim_number puk = pos 4
sim_number network_personalization = pos 5

-- What the filter completes.
abbrev pub code_of : Filter.Code → RilError
code_of Filter.generic_failure = Codes.generic_failure
code_of Filter.radio_not_available = Codes.radio_not_available
code_of Filter.request_get_sim_status = Codes.request_get_sim_status

abbrev pub refuse : RilError → Filter.Payload → Program Payload
refuse e Filter.null = reply e null
refuse e Filter.sim_status_2 = get_sim_status false (λ s. reply e (ints (sim_number s ∷ [])))

abbrev pub filtered : Option Filter.Answer → Program Payload → Program Payload
filtered none rest = rest
filtered (some a) rest = refuse (code_of a.code) a.payload

-- `number` gives the RIL_REQUEST_* of telephony/ril.h for a request that the filter does not name.
module _ (number : RilRequest → ℕ) where
  abbrev pub name_of_pins : PinRequest → RilRequest → Filter.Request
  name_of_pins enter_sim_pin q = Filter.enter_sim_pin
  name_of_pins enter_sim_puk q = Filter.enter_sim_puk
  name_of_pins enter_sim_pin2 q = Filter.enter_sim_pin2
  name_of_pins enter_sim_puk2 q = Filter.enter_sim_puk2
  name_of_pins _ q = Filter.request (number q)

  abbrev pub name_of_call : Calls.CallRequest → RilRequest → Filter.Request
  name_of_call (Calls.dial address clir) q = Filter.dial
  name_of_call Calls.get_current_calls q = Filter.get_current_calls
  name_of_call (Calls.hangup line) q = Filter.hangup
  name_of_call Calls.hangup_foreground_resume_background q =
      Filter.hangup_foreground_resume_background
  name_of_call (Calls.dtmf c) q = Filter.dtmf
  name_of_call (Calls.dtmf_start c) q = Filter.dtmf_start
  name_of_call Calls.dtmf_stop q = Filter.dtmf_stop
  name_of_call Calls.last_call_fail_cause q = Filter.last_call_fail_cause
  name_of_call _ q = Filter.request (number q)

  abbrev pub name_of_device : Device.DeviceRequest → RilRequest → Filter.Request
  name_of_device Device.get_imeisv q = Filter.get_imeisv
  name_of_device Device.get_imei q = Filter.get_imei
  name_of_device Device.device_identity q = Filter.device_identity
  name_of_device Device.baseband_version q = Filter.baseband_version
  name_of_device Device.report_stk_service_is_running q = Filter.report_stk_service_is_running
  name_of_device _ q = Filter.request (number q)

  abbrev pub name_of_message : Message.MessageRequest → RilRequest → Filter.Request
  name_of_message (Message.write_sms_to_sim pdu status) q = Filter.write_sms_to_sim
  name_of_message (Message.delete_sms_on_sim index) q = Filter.delete_sms_on_sim
  name_of_message _ q = Filter.request (number q)

  abbrev pub name_of_network : Networks.NetworkRequest → RilRequest → Filter.Request
  name_of_network (Networks.radio_power on_off) q = Filter.radio_power
  name_of_network _ q = Filter.request (number q)

  unfoldable pub name_of : RilRequest → Filter.Request
  name_of (call q) = name_of_call q (call q)
  name_of (service q) = Filter.request (number (service q))
  name_of (device q) = name_of_device q (device q)
  name_of (message q) = name_of_message q (message q)
  name_of (network q) = name_of_network q (network q)
  name_of get_sim_status_of = Filter.get_sim_status
  name_of (pins q p) = name_of_pins q (pins q p)

  -- `onRequest`, where the request has its default handler.
  unfoldable pub on_request : RilRequest → Program Payload
  on_request q = read_radio (λ s. filtered (Filter.request_state_filter s (name_of q)) (handler q))
