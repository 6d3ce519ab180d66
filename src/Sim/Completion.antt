-- ===== src/Sim/Completion.antt =====
-- sxx-ril-sim.c: how often a request is completed.
use sxx_ril.Common.{Bool, true, false, Option, none, some, refl, Text}
use sxx_ril.Filter.{off, sim_ready}
use sxx_ril.Ril.{plain, Steady}
use sxx_ril.Ril.Once.{CompletesIf, check-Completes}
use sxx_ril.Radio.Completion.{get_sim_status-Completes, set_radio_state-Completes}
use sxx_ril.Sim.{
  Pins, pin_command, is_lock, unlock, send_pin, request_enter_sim_pin, request_get_sim_status,
}

pub request_get_sim_status-Completes : CompletesIf Steady 1 request_get_sim_status
unfolding request_get_sim_status
request_get_sim_status-Completes = get_sim_status-Completes 1 true _ (λ s. refl)

unlock-Completes : (b : Bool) → CompletesIf Steady 0 (unlock b)
unlock-Completes true =
    set_radio_state-Completes 0 off _ (set_radio_state-Completes 0 sim_ready _ refl)
unlock-Completes false = refl

send_pin-Completes :
    (command : Option Text) (locked : Bool) → CompletesIf Steady 1 (send_pin command locked)
send_pin-Completes none locked = refl
send_pin-Completes (some command) locked = λ a ok.
    check-Completes Steady 1 a (plain command) _ _ ok.0 refl (λ r s i. unlock-Completes locked)

pub request_enter_sim_pin-Completes :
    (pins : Pins) → CompletesIf Steady 1 (request_enter_sim_pin pins)
unfolding request_enter_sim_pin
request_enter_sim_pin-Completes pins =
    get_sim_status-Completes 1 true _ (λ s. send_pin-Completes (pin_command pins) (is_lock s))
