-- ===== src/Network/Examples.antt =====
-- sxx-ril-network.c: runs of the requests.
use sxx_ril.Common.{ℕ, none, true, some, [], ◌∷◌, str_eq, if◌then◌else◌, codes, ◌≡◌, refl}
use sxx_ril.Common.Int.{pos}
use sxx_ril.Filter.{sim_ready}
use sxx_ril.Ril.{At, singleline, Answer, Modem, World, run, finished, completions}
use sxx_ril.Ril.Samples.{failed_answer, vars_in}
use sxx_ril.Network.{mode_of_type}
use sxx_ril.Network.Registration.{
  voice, request_registration_state, Registered, registered_of_line, hexadecimal,
}
use sxx_ril.Network.Operators.{network_of, operator_of, count_networks}
use sxx_ril.Network.Repeated.{Tells, request_registration_state-repeated}
use sxx_ril.Ril.Payload.{ready}

abbrev world : World ℕ
world = record { modem = 0; vars = vars_in sim_ready }

abbrev ready_answer : Answer
ready_answer = record {
  err = none;
  response = some (record {
    success = true;
    final_response = some (codes "OK");
    intermediates = codes "+CPIN: READY" ∷ [];
  });
}

-- A modem that answers AT+CPIN? and nothing else.
abbrev sim_only : At → Answer
sim_only (singleline command prefix) =
    if str_eq command (codes "AT+CPIN?") then ready_answer else failed_answer
sim_only _ = failed_answer

abbrev sim_modem : Modem
sim_modem = record { State = ℕ; answer = λ s at want. some (sim_only at, s) }

ready-Tells : Tells ready_answer ready
unfolding sxx_ril.Tok.at_tok_start sxx_ril.Channel.Cme.at_get_cme_error sxx_ril.Tok.at_tok_nextstr
    sxx_ril.Radio.sim_of_result str_eq sxx_ril.Tok.Strtol.is_space
ready-Tells k = refl

request_registration_state-repeated_example :
    ((run sim_modem world (request_registration_state voice)).status ≡ finished)
    × (completions (run sim_modem world (request_registration_state voice)).events ≡ 20)
unfolding str_eq
request_registration_state-repeated_example =
    request_registration_state-repeated sim_modem voice world ready_answer 0 ready refl refl
      ready-Tells (λ s. (failed_answer, s, refl, tt))

registered_test :
    registered_of_line (codes "+CREG: 1,1,00C3,0A2F")
    ≡ some (record { stat = pos 1; lac = pos 195; cid = pos 2607 })
unfolding registered_of_line sxx_ril.Tok.at_tok_start sxx_ril.Network.Registration.read_fields
    sxx_ril.Network.Registration.commas sxx_ril.Tok.at_tok_nextint sxx_ril.Tok.Strtol.strtol
    sxx_ril.Tok.at_tok_nexthexint sxx_ril.Tok.Strtol.strtoul
registered_test = refl

hexadecimal_test : hexadecimal (pos 2607) ≡ codes "a2f"
unfolding hexadecimal
hexadecimal_test = refl

network_test :
    network_of (codes "2,\"CHN-UNICOM\",\"\",\"46001\",2")
    ≡ some (record {
      long_name = codes "CHN-UNICOM";
      short_name = codes "46001";
      numeric = codes "46001";
      status = pos 2;
    })
unfolding network_of sxx_ril.Tok.at_tok_nextint sxx_ril.Tok.Strtol.strtol sxx_ril.Tok.at_tok_nextstr
network_test = refl

count_networks_test :
    count_networks (codes "+COPS: (2,\"A\",\"a\",\"1\"),(1,\"B\",\"b\",\"2\"),,(0-4),(0-2)") ≡ 2
unfolding count_networks
count_networks_test = refl

operator_test : operator_of (codes "+COPS: 0,2,\"310170\"") ≡ some (some (codes "310170"))
unfolding operator_of sxx_ril.Tok.at_tok_start sxx_ril.Tok.at_tok_nextint sxx_ril.Tok.Strtol.strtol
    sxx_ril.Tok.at_tok_hasmore sxx_ril.Tok.at_tok_nextstr
operator_test = refl
