-- ===== src/Radio/Examples.antt =====
-- sxx-ril-network.c and sxx-ril-sim.c: runs of the changes of the state.
use sxx_ril.Common.{ℕ, Bool, true, false, Option, none, some, ◌≡◌, refl}
use sxx_ril.Filter.{off, sim_ready}
use sxx_ril.Ril.{run, finished, done}
use sxx_ril.Ril.Samples.{ok_modem, vars_in}
use sxx_ril.Radio.{set_radio_state, poll_sim}
use sxx_ril.Radio.States.{set_radio_state_final, poll_sim_lem, Polled, waiting_for_sim}

set_radio_state_final_example :
    (run ok_modem
      (record { modem = 0; vars = vars_in off })
      (set_radio_state sim_ready done)).final.radio
    ≡ sim_ready
set_radio_state_final_example =
    set_radio_state_final ok_modem (record { modem = 0; vars = vars_in off }) sim_ready refl

poll_ends :
    (run ok_modem
      (record { modem = 0; vars = waiting_for_sim (vars_in off) })
      (poll_sim done)).status
    ≡ finished
unfolding run poll_sim sxx_ril.Radio.get_sim_status sxx_ril.Channel.Cme.at_get_cme_error
    sxx_ril.Tok.at_tok_start sxx_ril.Tok.at_tok_nextstr sxx_ril.Radio.sim_of_result
    sxx_ril.Common.str_eq sxx_ril.Tok.Strtol.is_space sxx_ril.Radio.change_state
poll_ends = refl

poll_sim_example :
    Polled
      (run ok_modem (record { modem = 0; vars = waiting_for_sim (vars_in off) }) (poll_sim done))
poll_sim_example = poll_sim_lem ok_modem 0 (vars_in off) poll_ends
