-- ===== src/Message/Examples.antt =====
-- sxx-ril-message.c: runs of the handlers.
use sxx_ril.Common.{ℕ, Bool, true, false, Option, none, some, List, [], ◌∷◌, Text, codes, ◌≡◌, refl}
use sxx_ril.Common.Int.{pos}
use sxx_ril.Filter.{sim_ready}
use sxx_ril.Tok.Ranges.{flag}
use sxx_ril.Ril.{run, done, schedule, undefined, read_message_by_index}
use sxx_ril.Ril.Once.{Settles}
use sxx_ril.Ril.Samples.{ok_modem, ok_modem-IsModem, vars_in}
use sxx_ril.Message.{request_sms_acknowledge}
use sxx_ril.Message.Acknowledge.{request_sms_acknowledge-Settles}
use sxx_ril.Message.Incoming.{on_new_message_by_index}

request_sms_acknowledge_example : Settles 2 (
    run ok_modem
      (record { modem = 0; vars = vars_in sim_ready })
      (request_sms_acknowledge (flag true)))
request_sms_acknowledge_example =
    request_sms_acknowledge-Settles ok_modem (record { modem = 0; vars = vars_in sim_ready }) true
      ok_modem-IsModem

new_message_test :
    on_new_message_by_index (codes "+CMTI: \"SM\",3")
    ≡ schedule (read_message_by_index (pos 3)) done
unfolding on_new_message_by_index sxx_ril.Tok.at_tok_nextstr sxx_ril.Tok.at_tok_start
    sxx_ril.Common.str_eq sxx_ril.Tok.Strtol.is_space sxx_ril.Tok.at_tok_nextint
    sxx_ril.Tok.Strtol.strtol
new_message_test = refl

-- A message that is not in the memory of the SIM card leaves the index unset.
other_storage_test : on_new_message_by_index (codes "+CMTI: \"ME\",3") ≡ undefined
unfolding on_new_message_by_index sxx_ril.Tok.at_tok_nextstr sxx_ril.Tok.at_tok_start
    sxx_ril.Common.str_eq sxx_ril.Tok.Strtol.is_space
other_storage_test = refl
