-- ===== src/Network.antt =====
-- sxx-ril-network.c: the selection of a network and of its type, the strength of the signal, and
-- the locks of facilities.
use sxx_ril.Common.{
  ℕ, Bool, true, false, ◌||◌, Option, none, some, List, [], ◌∷◌, ◌++◌, ◌==◌, if◌then◌else◌, Text,
  codes, str_eq,
}
use sxx_ril.Common.Int.{ℤ, pos, negsuc}
use sxx_ril.Filter.{is_off}
use sxx_ril.Channel.State.{Response, AtError}
use sxx_ril.Tok.{at_tok_start, at_tok_nextint}
use sxx_ril.Tok.Numbers.{decimal_int}
use sxx_ril.Misc.{str_starts_with}
use sxx_ril.Ril.{
  At, plain, singleline, Answer, Program, done, undefined, send, complete, notify, success,
  generic_failure, radio_not_available, mode_not_supported, signal_strength,
  voice_network_state_changed,
}
use sxx_ril.Ril.Payload.{Payload, null, ints, texts, signal}
use sxx_ril.Ril.Steps.{
  check, first_line, read_radio, reading, started, reply, reply_checked, stored, tell,
}
pub mod Registration
pub mod Operators
pub mod Requests
pub mod Completion
pub mod Repeated
pub mod Examples

abbrev pub failure : Program Payload
failure = reply generic_failure null

abbrev pub succeeded : Program Payload
succeeded = reply success null

abbrev pub on_error : Option AtError → Program Payload
on_error none = succeeded
on_error (some e) = failure

-- `requestSetNetworkSelectionAutomatic`.
abbrev pub request_set_network_selection_automatic : Program Payload
request_set_network_selection_automatic =
    send (plain (codes "AT+COPS=0")) false (λ a. on_error a.err)

-- `_requestSetNetworkSelectionManualWCDMA`.
abbrev pub request_set_network_selection_manual : Option Text → Program Payload
request_set_network_selection_manual none = failure
request_set_network_selection_manual (some mcc_mnc) =
    reply_checked (plain (codes "AT+COPS=4,2,\"" ++ (mcc_mnc ++ codes "\""))) null

-- `select_tech`, and the command that stands for it in the automatic mode.
abbrev pub select_tech : ℕ → Program Payload → Program Payload
select_tech arg rest =
    if arg == 14
    then tell (plain (codes "AT+COPS=0,,,2")) rest
    else if arg == 13
    then tell (plain (codes "AT+COPS=0,,,0")) rest
    else tell (plain (codes "AT+COPS=0,,,")) rest

-- The value of AT+ZMDS for a network type of telephony.
unfoldable pub mode_of_type : ℤ → Option ℕ
mode_of_type (negsuc n) = none
mode_of_type (pos n) =
    if n == 0 || (n == 3 || (n == 4 || n == 7))
    then some 4
    else if n == 1 || n == 5
    then some 13
    else if n == 2 || n == 6
    then some 14
    else none

abbrev pub zmds_lines : List Text → (ℤ → Program Payload) → Program Payload
zmds_lines [] k = k (pos 4)
zmds_lines (line ∷ lines) k =
    started (at_tok_start (some line)) (k (pos 4)) (λ cur. k (stored (pos 4) cur))

abbrev pub zmds_answer : Option AtError → Option Response → (ℤ → Program Payload) → Program Payload
zmds_answer (some e) r k = k (pos 4)
zmds_answer none none k = undefined
zmds_answer none (some r) k = zmds_lines r.intermediates k

-- `getZmdsValue`.
unfoldable pub get_zmds_value : (ℤ → Program Payload) → Program Payload
get_zmds_value k =
    send (singleline (codes "AT+ZMDS?") (codes "+ZMDS:")) true (λ a. zmds_answer a.err a.response k)

abbrev pub equals : ℤ → ℕ → Bool
equals (pos n) m = n == m
equals (negsuc n) m = false

abbrev pub set_mode : Option ℕ → Program Payload
set_mode none = reply mode_not_supported null
set_mode (some arg) = get_zmds_value (λ now.
    if equals now arg
    then succeeded
    else send (plain (codes "AT+ZMDS=" ++ decimal_int (pos arg))) true
        (λ a. check a failure (λ r. select_tech arg succeeded)))

-- `_requestSetPreferredNetworkTypeWCDMA`.
unfoldable pub request_set_preferred_network_type : ℤ → Program Payload
request_set_preferred_network_type rat =
    read_radio
      (λ s. if is_off s then reply radio_not_available null else set_mode (mode_of_type rat))

-- The network type of telephony for a value of AT+ZMDS.
unfoldable pub type_of_mode : ℤ → ℤ
type_of_mode z =
    if equals z 4
    then pos 0
    else if equals z 13
    then pos 1
    else if equals z 14
    then pos 2
    else pos 0

abbrev pub report_type : ℤ → Program Payload
report_type z = reply success (ints (type_of_mode z ∷ []))

-- `_requestGetPreferredNetworkTypeWCDMA`.
unfoldable pub request_get_preferred_network_type : Program Payload
request_get_preferred_network_type = get_zmds_value report_type

-- The two numbers of a line of AT+CSQ.
abbrev pub read_signal : List Text → Program Payload → (ℤ → ℤ → Program Payload) → Program Payload
read_signal lines fails k = first_line lines (λ line.
    started (at_tok_start (some line)) fails (λ cur0.
      reading (at_tok_nextint cur0) fails
        (λ rssi cur1. reading (at_tok_nextint cur1) fails (λ ber cur2. k rssi ber))))

abbrev pub csq : At
csq = singleline (codes "AT+CSQ") (codes "+CSQ:")

abbrev pub signal_of : Response → Program Payload
signal_of r = read_signal r.intermediates failure (λ rssi ber. reply success (signal rssi ber))

-- A failure of the command is completed, and runs into the label `error`.
abbrev pub signal_failure : Program Payload
signal_failure = complete generic_failure null failure

-- `_requestSignalStrengthWCDMA`.
unfoldable pub request_signal_strength : Program Payload
request_signal_strength = send csq true (λ a. check a signal_failure signal_of)

abbrev pub or_given : Option ℤ → ℤ → ℤ
or_given none rssi = rssi
or_given (some z) rssi = z

-- `reportSignalStrength`; `param` may give the strength.
unfoldable pub report_signal_strength : Option ℤ → Program Payload
report_signal_strength param = send csq true (λ a. check a done (λ r.
    read_signal r.intermediates done
      (λ rssi ber. notify signal_strength (signal (or_given param rssi) ber) done)))

-- A query for one number.
abbrev pub query_int : At → Program Payload
query_int at = send at true (λ a. check a failure (λ r. first_line r.intermediates (λ line.
    started (at_tok_start (some line)) failure
      (λ cur. reading (at_tok_nextint cur) failure (λ z cur'. reply success (ints (z ∷ [])))))))

-- `requestQueryNetworkSelectionMode`.
abbrev pub request_query_network_selection_mode : Program Payload
request_query_network_selection_mode = query_int (singleline (codes "AT+COPS?") (codes "+COPS:"))

abbrev pub quoted : Text → Text
quoted t = codes "\"" ++ (t ++ codes "\"")

-- `requestSetFacilityLock`; `mode` is the number of the second text.
abbrev pub request_set_facility_lock : Text → ℤ → Text → Text → Program Payload
request_set_facility_lock facility mode password class =
    send
      (plain (
        codes "AT+CLCK="
        ++ (quoted facility
            ++ (codes ","
                ++ (decimal_int mode
                    ++ (codes "," ++ (quoted password ++ (codes "," ++ class))))))))
      true (λ a. check a failure (λ r. reply success (ints (negsuc 0 ∷ []))))

-- "do not support FD string, force copy string SC".
abbrev pub known_facility : Text → Text
known_facility t = if str_eq t (codes "FD") then codes "SC" else t

-- `requestQueryFacilityLock`.
abbrev pub request_query_facility_lock : Text → Text → Text → Program Payload
request_query_facility_lock facility password class = query_int (
    singleline
      (codes "AT+CLCK="
        ++ (quoted (known_facility facility)
            ++ (codes ",2," ++ (quoted password ++ (codes "," ++ class)))))
      (codes "+CLCK:"))

-- `requestCDMASubScription`.
abbrev pub request_cdma_subscription : Program Payload
request_cdma_subscription = reply success (
    texts (
      some (codes "23122")
      ∷ some (codes "22322")
      ∷ some (codes "23233")
      ∷ some (codes "1132565870")
      ∷ some (codes "1.0")
      ∷ []))

-- `requestSetLocationUpdates`, which is not registered; `enable` is 0 or 1.
abbrev pub request_set_location_updates : Bool → Program Payload
request_set_location_updates enable =
    reply_checked (plain (if enable then codes "AT+CREG=2" else codes "AT+CREG=1")) null

-- `onNetworkStateChanged`, for +CREG, +CGREG, ^MODE and ^DSDORMANT.
unfoldable pub on_network_state_changed : Text → Program Payload
on_network_state_changed s =
    if str_starts_with s (codes "+CREG:") || str_starts_with s (codes "+CGREG")
    then notify voice_network_state_changed null done
    else done
