-- ===== src/Sim.antt =====
-- sxx-ril-sim.c: the requests about the SIM card.
use sxx_ril.Common.{
  ℕ, Bool, true, false, Option, none, some, List, [], ◌∷◌, ◌++◌, if◌then◌else◌, Text, codes,
}
use sxx_ril.Filter.{off, sim_ready}
use sxx_ril.Ril.{plain, Answer, Program, done, send, complete, success, password_incorrect}
use sxx_ril.Ril.Payload.{
  Payload, null, card, CardStatus, SimStatus, absent, not_ready, ready, pin, puk,
  network_personalization,
}
use sxx_ril.Ril.Steps.{check, reply}
use sxx_ril.Radio.{get_sim_status, set_radio_state}
pub mod Completion
pub mod Examples

-- `getCardStatus`, for the status of the SIM card.
abbrev pub card_status : SimStatus → CardStatus
card_status absent = record { present = false; application = none }
card_status s = record { present = true; application = some s }

-- `requestGetSimStatus`.
unfoldable pub request_get_sim_status : Program Payload
request_get_sim_status = get_sim_status true (λ s. reply success (card (card_status s)))

-- `data` and `datalen`: one text; two, of which the second may be NULL; or another length.
pub data Pins : Type 0 where
  one : Text → Pins
  two : Text → Option Text → Pins
  other_length : Pins

abbrev pub pin_command : Pins → Option Text
pin_command (one p) = some (codes "AT+CPIN=" ++ p)
pin_command (two p none) = some (codes "AT+CPIN=" ++ p)
pin_command (two p (some q)) = some (codes "AT+CPIN=" ++ (p ++ (codes "," ++ q)))
pin_command other_length = none

abbrev pub is_lock : SimStatus → Bool
is_lock pin = true
is_lock puk = true
is_lock _ = false

abbrev pub unlock : Bool → Program Payload
unlock false = done
unlock true = set_radio_state off (set_radio_state sim_ready done)

abbrev pub incorrect : Program Payload
incorrect = reply password_incorrect null

abbrev pub send_pin : Option Text → Bool → Program Payload
send_pin none locked = incorrect
send_pin (some command) locked =
    send (plain command) true (λ a. check a incorrect (λ r. complete success null (unlock locked)))

-- `requestEnterSimPin`, which is registered for the six requests of PINs and PUKs.
unfoldable pub request_enter_sim_pin : Pins → Program Payload
request_enter_sim_pin pins = get_sim_status true (λ s. send_pin (pin_command pins) (is_lock s))
