-- ===== src/Main.antt =====
-- sxx-ril.c: a request of telephony, from the filter to its handler, and what the module does when
-- the modem comes and goes.
use sxx_ril.Common.{
  ℕ, Bool, true, false, Option, none, some, List, [], ◌∷◌, ◌++◌, if◌then◌else◌, Text, codes,
}
use sxx_ril.Common.Int.{ℤ, pos}
use sxx_ril.Filter.{request_state_filter, unavailable, sim_not_ready, is_unavailable}
use sxx_ril.Tok.{Result, ok, fail, at_tok_start, at_tok_nextstr}
use sxx_ril.Ril.{
  At, plain, numeric, Answer, Program, done, undefined, send, get, put, property_set, complete,
  notify, RilError, success, generic_failure, radio_not_available, nitz_time_received, invoke,
  at_close, exit,
}
use sxx_ril.Ril.Payload.{
  Payload, null, ints, text, SimStatus, absent, not_ready, ready, pin, puk, network_personalization,
}
use sxx_ril.Ril.Steps.{check, read_radio, reply, tell}
use sxx_ril.Service.{free}
use sxx_ril.Call.Requests.{CallRequest, on_call_request}
use sxx_ril.Service.Forwards.{ServiceRequest, on_service_request}
use sxx_ril.Device.{DeviceRequest, on_device_request}
use sxx_ril.Message.{MessageRequest, on_message_request}
use sxx_ril.Network.Requests.{NetworkRequest, on_network_request}
use sxx_ril.Radio.{get_sim_status, set_radio_state}
use sxx_ril.Sim.{Pins, request_get_sim_status, request_enter_sim_pin}
pub mod Names
pub mod Completion
pub mod Closing
pub mod Examples

-- The requests for SIM PINs, which have one handler.
pub data PinRequest : Type 0 where
  enter_sim_pin enter_sim_puk enter_sim_pin2 enter_sim_puk2 change_sim_pin change_sim_pin2 :
      PinRequest

-- A request that has a default handler, with what the handler reads of `data`.
pub data RilRequest : Type 0 where
  call : CallRequest → RilRequest
  service : ServiceRequest → RilRequest
  device : DeviceRequest → RilRequest
  message : MessageRequest → RilRequest
  network : NetworkRequest → RilRequest
  get_sim_status_of : RilRequest
  pins : PinRequest → Pins → RilRequest

-- The default handler of a request.
unfoldable pub handler : RilRequest → Program Payload
handler (call q) = on_call_request q
handler (service q) = on_service_request q
handler (device q) = on_device_request q
handler (message q) = on_message_request q
handler (network q) = on_network_request q
handler get_sim_status_of = request_get_sim_status
handler (pins q p) = request_enter_sim_pin p

-- The commands of `modem_init_generic` before and after the one whose response is tested, which is
-- only for the log.
abbrev pub tell_all : List Text → Program Payload → Program Payload
tell_all [] rest = rest
tell_all (c ∷ cs) rest = tell (plain c) (tell_all cs rest)

abbrev pub first_commands : List Text
first_commands =
    codes "AT+CREG=1"
    ∷ codes "AT+CGREG=1"
    ∷ codes "AT+CCWA=1"
    ∷ codes "AT+CMOD=0"
    ∷ codes "AT+CMUT=0"
    ∷ codes "AT+CSSN=0,1"
    ∷ codes "AT+COLP=0"
    ∷ codes "AT+CSMP =,,0,8"
    ∷ codes "AT+CUSD=1"
    ∷ codes "AT+CGEREP=1,0"
    ∷ []

abbrev pub last_commands : List Text
last_commands = codes "AT+CMGF=0" ∷ codes "AT+CSCA?" ∷ codes "AT+CMEE=1" ∷ []

-- `modem_init_generic`.
unfoldable pub modem_init_generic : Program Payload
modem_init_generic = tell_all first_commands (
    send (numeric (codes "AT+CPMS=\"SM\",\"MT\",\"SM\"")) true (λ a.
      let rest = tell_all last_commands (set_radio_state sim_not_ready done) in
      check a rest (λ r. rest)))

-- `onTimeChanged`, for %CTZV.
abbrev pub with_time : Result Text → Program Payload
with_time (fail cur) = free cur done
with_time (ok time cur) = notify nitz_time_received (text time) (free cur done)

unfoldable pub on_time_changed : Text → Program Payload
on_time_changed s = with_time (at_tok_nextstr (at_tok_start (some s)))

-- `onUnsolicited`, for the handler that `process_unsolicited` finds.
abbrev pub on_unsolicited : Program Payload → Program Payload
on_unsolicited process = read_radio (λ s. if is_unavailable s then done else process)

abbrev pub close : Program Payload → Program Payload
close rest = get (λ v. put (record v { closed = true }) (set_radio_state unavailable rest))

-- `onATReaderClosed`.
unfoldable pub on_at_reader_closed : Program Payload
on_at_reader_closed = invoke at_close (close done)

-- `onATTimeout`.
unfoldable pub on_at_timeout : Program Payload
on_at_timeout = invoke at_close (close (invoke exit done))
