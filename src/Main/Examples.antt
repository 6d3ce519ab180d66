-- ===== src/Main/Examples.antt =====
-- sxx-ril.c: runs of requests, and of the end of the channel.
use sxx_ril.Common.{
  ℕ, Bool, true, false, Option, none, some, List, [], ◌∷◌, Text, codes, ◌≡◌, ◌≢◌, refl,
}
use sxx_ril.Common.Int.{pos}
use sxx_ril.Filter
use sxx_ril.Ril.{World, run}
use sxx_ril.Ril.Once.{Settles}
use sxx_ril.Ril.Samples.{ok_modem, ok_modem-IsSteady, vars_in}
use sxx_ril.Network.Requests as Networks
use sxx_ril.Main.{RilRequest, call, network, on_at_reader_closed}
use sxx_ril.Main.Names.{on_request, name_of}
use sxx_ril.Main.Completion.{on_request-Settles}
use sxx_ril.Main.Closing.{EndsWith, on_at_reader_closed_lem, on_request_unavailable}

abbrev number : RilRequest → ℕ
number q = 0

abbrev world : Filter.RadioState → World ℕ
world s = record { modem = 0; vars = vars_in s }

abbrev power : RilRequest
power = network (Networks.radio_power (pos 1))

on_request-Settles_example : Settles 1 (run ok_modem (world Filter.off) (on_request number power))
on_request-Settles_example =
    on_request-Settles number ok_modem (world Filter.off) power ok_modem-IsSteady tt

on_at_reader_closed_example :
    EndsWith 0 0 (run ok_modem (world Filter.sim_ready) on_at_reader_closed)
    × ((run ok_modem (world Filter.sim_ready) on_at_reader_closed).final
        ≡ record (vars_in Filter.sim_ready) { radio = Filter.unavailable; closed = true })
on_at_reader_closed_example = on_at_reader_closed_lem ok_modem (world Filter.sim_ready)

power_name : name_of number power ≢ Filter.get_sim_status
unfolding name_of
power_name e = cc

on_request_unavailable_example :
    EndsWith 0 1 (run ok_modem (world Filter.unavailable) (on_request number power))
on_request_unavailable_example =
    on_request_unavailable number ok_modem (world Filter.unavailable) power refl power_name

-- Power on, with a SIM card that is ready.
power_on :
    (run ok_modem (world Filter.off) (on_request number power)).final.radio ≡ Filter.sim_ready
unfolding run on_request Filter.request_state_filter name_of sxx_ril.Main.handler
    Networks.on_network_request sxx_ril.Radio.request_radio_power sxx_ril.Radio.set_radio_state
    sxx_ril.Radio.change_state sxx_ril.Radio.poll_sim sxx_ril.Radio.get_sim_status
    sxx_ril.Channel.Cme.at_get_cme_error sxx_ril.Tok.at_tok_start sxx_ril.Tok.at_tok_nextstr
    sxx_ril.Radio.sim_of_result sxx_ril.Common.str_eq sxx_ril.Tok.Strtol.is_space
power_on = refl
