-- ===== src/Call/Examples.antt =====
-- sxx-ril-call.c: a line of the list of current calls.
use sxx_ril.Filter.{sim_ready}
use sxx_ril.Ril.{
  Answer, Modem, World, run, sent, completed, scheduled, send_call_state_changed, success, finished,
}
use sxx_ril.Ril.Payload.{calls}
use sxx_ril.Call.Listing.{
  Listed, IsListed, text_of, call_of, listing, clcc, SomeChanging, request_get_current_calls_lem,
}
use sxx_ril.Ril.Samples.{failing_modem, failed_answer, vars_in}
use sxx_ril.Call.Requests.{request_hangup_held, request_get_current_calls}
use sxx_ril.Call.Hangup.{successes, successes-request_hangup_held}
use sxx_ril.Common.{
  ℕ, List, Option, Text, ◌∷◌, map, none, true, false, some, [], codes, ◌≡◌, refl, arith,
}
use sxx_ril.Common.Int.{pos}
use sxx_ril.Tok.Lines.{IsField}
use sxx_ril.Call.{incoming, call_from_clcc_line}
use sxx_ril.Call.Clcc.{Line, line_of, call_from-line_of}

abbrev ringing : Line
ringing = record {
  index = pos 1;
  is_mt = true;
  state = incoming;
  mode = pos 0;
  is_mpty = false;
  number = record { pad = []; quoted = true; text = codes "+18" };
  toa = pos 145;
}

number-IsField : IsField (record { pad = []; quoted = true; text = codes "+18" })
number-IsField = record { blank = tt; fits = (refl, (refl, (refl, tt))) }

call_from-line_of_example :
    call_from_clcc_line (line_of ringing none)
    ≡ some (record {
      index = pos 1;
      is_mt = true;
      state = incoming;
      is_voice = true;
      is_mpty = false;
      number = some (codes "+18", pos 145);
    })
call_from-line_of_example =
    call_from-line_of ringing none (ground arith, ground arith) (ground arith, ground arith)
      (ground arith, ground arith) refl number-IsField

abbrev ready_world : World ℕ
ready_world = record { modem = 0; vars = vars_in sim_ready }

successes-request_hangup_held_example :
    successes (run failing_modem ready_world (request_hangup_held (codes "AT+CHLD=0"))).events ≡ 0
successes-request_hangup_held_example =
    successes-request_hangup_held failing_modem ready_world (codes "AT+CHLD=0") failed_answer 0 refl
      tt

abbrev ringing_listed : List Listed
ringing_listed =
    record { line = ringing; behind = none }
    ∷ record { line = ringing; behind = some (codes "\"\"") }
    ∷ []

abbrev listing_answer : Answer
listing_answer = record { err = none; response = some (listing (map text_of ringing_listed)) }

abbrev listing_modem : Modem
listing_modem = record { State = ℕ; answer = λ s at want. some (listing_answer, s) }

ringing-IsListed : (behind : Option Text) → IsListed (record { line = ringing; behind = behind })
ringing-IsListed behind = (
  (ground arith, ground arith),
  (ground arith, ground arith),
  (ground arith, ground arith),
  refl,
  number-IsField,
)

request_get_current_calls_example :
    ((run listing_modem ready_world request_get_current_calls).status ≡ finished)
    × (SomeChanging ringing_listed
        → (run listing_modem ready_world request_get_current_calls).events
          ≡ sent clcc
            ∷ completed success (calls (map call_of ringing_listed))
            ∷ scheduled send_call_state_changed
            ∷ [])
    × (¬ SomeChanging ringing_listed
        → (run listing_modem ready_world request_get_current_calls).events
          ≡ sent clcc ∷ completed success (calls (map call_of ringing_listed)) ∷ [])
request_get_current_calls_example =
    request_get_current_calls_lem listing_modem ready_world 0 ringing_listed
      (ringing-IsListed none, (ringing-IsListed (some (codes "\"\"")), tt)) refl
