-- ===== src/Radio.antt =====
-- sxx-ril-sim.c and sxx-ril-network.c: the state of the radio and of the SIM card, which call each
-- other.
use sxx_ril.Common.{
  ℕ, Bool, true, false, not, ◌&&◌, ◌||◌, Option, none, some, List, [], ◌∷◌, ◌==◌, if◌then◌else◌,
  Text, codes, str_eq,
}
use sxx_ril.Common.Int.{ℤ, pos, negsuc}
use sxx_ril.Filter.{
  RadioState, off, unavailable, sim_not_ready, sim_locked_or_absent, sim_ready, other, is_off,
  is_unavailable, is_sim_not_ready,
}
use sxx_ril.Channel.State.{Response, AtError}
use sxx_ril.Channel.Cme.{at_get_cme_error}
use sxx_ril.Tok.{Result, ok, fail, at_tok_start, at_tok_nextint, at_tok_nextstr}
use sxx_ril.Ril.{
  At, plain, singleline, Answer, Program, done, undefined, send, get, put, invoke, complete, notify,
  schedule, success, generic_failure, radio_state_changed, sim_status_changed, poll_sim_state,
  stop_pppd, wait_for_pppd_down,
}
use sxx_ril.Ril.Payload.{
  Payload, null, SimStatus, absent, not_ready, ready, pin, puk, network_personalization,
}
use sxx_ril.Ril.Steps.{check, first_line, read_radio, set_radio, reading, started, reply, tell}
pub mod Completion
pub mod States
pub mod Examples

-- `onSIMReady`.
abbrev pub on_sim_ready : Program Payload → Program Payload
on_sim_ready rest =
    tell (singleline (codes "AT+CSMS=1") (codes "+CSMS:"))
      (tell (plain (codes "AT+CNMI=1,2,2,0,0")) rest)

-- `onSimStateChanged`; the line is only read for the log.
abbrev pub on_sim_state_changed : Program Payload
on_sim_state_changed = notify sim_status_changed null done

-- The result of AT+CPIN?.
unfoldable pub sim_of_result : Text → SimStatus
sim_of_result t =
    if str_eq t (codes "SIM PIN")
    then pin
    else if str_eq t (codes "SIM PUK")
    then puk
    else if str_eq t (codes "PH-NET PIN")
    then network_personalization
    else if str_eq t (codes "READY")
    then ready
    else absent

abbrev pub sim_of_token : Result Text → SimStatus
sim_of_token (ok t cur) = sim_of_result t
sim_of_token (fail cur) = not_ready

abbrev pub behind_colon : Option Text → SimStatus
behind_colon none = not_ready
behind_colon (some rest) = sim_of_token (at_tok_nextstr (some rest))

-- The response, by its error: none, 14 ("SIM busy"), or another; `k` goes on.
abbrev pub by_error : ℤ → List Text → (SimStatus → Program Payload) → Program Payload
by_error (negsuc n) lines k = k absent
by_error (pos n) lines k =
    if n == 0
    then first_line lines (λ line. k (behind_colon (at_tok_start (some line))))
    else if n == 14
    then k not_ready
    else k absent

abbrev pub sim_answer :
    Option AtError → Option Response → (SimStatus → Program Payload) → Program Payload
sim_answer (some e) r k = k absent
sim_answer none none k = undefined
sim_answer none (some r) k = by_error (at_get_cme_error r) r.intermediates k

-- `getSIMStatus`; the flag is `falce == 0`.
unfoldable pub get_sim_status : Bool → (SimStatus → Program Payload) → Program Payload
get_sim_status unforced k = read_radio (λ s.
    if unforced && (is_off s || is_unavailable s)
    then k not_ready
    else send (singleline (codes "AT+CPIN?") (codes "+CPIN:")) true
        (λ a. sim_answer a.err a.response k))

-- The values of `sState`, compared.
abbrev pub same : RadioState → RadioState → Bool
same off off = true
same unavailable unavailable = true
same sim_not_ready sim_not_ready = true
same sim_locked_or_absent sim_locked_or_absent = true
same sim_ready sim_ready = true
same (other m) (other n) = m == n
same _ _ = false

-- The body of `setRadioState`, `after` being its calls once the state is another.
abbrev pub to_state :
    (RadioState → Program Payload → Program Payload)
    → RadioState
    → Program Payload
    → Program Payload
to_state after new rest = read_radio (λ old.
    set_radio new (if same new old then rest else notify radio_state_changed null (after new rest)))

unfoldable pub change_state :
    (RadioState → Program Payload → Program Payload)
    → RadioState
    → Program Payload
    → Program Payload
change_state after new rest = get (λ v. to_state after (if v.closed then unavailable else new) rest)

abbrev pub after_poll : RadioState → Program Payload → Program Payload
after_poll sim_ready rest = on_sim_ready rest
after_poll _ rest = rest

-- The switch of `pollSIMState`; the states that it sets are not RADIO_STATE_SIM_NOT_READY, so its
-- calls of `setRadioState` do not call it again.
abbrev pub on_poll : SimStatus → Program Payload → Program Payload
on_poll not_ready rest = schedule poll_sim_state rest
on_poll ready rest = change_state after_poll sim_ready rest
on_poll _ rest = change_state after_poll sim_locked_or_absent rest

-- RADIO_STATE_RUIM_NOT_READY, which `sState` never is, has the number 5.
abbrev pub polls : RadioState → Bool
polls sim_not_ready = true
polls (other n) = n == 5
polls _ = false

-- `pollSIMState`, and `onRadioPowerOn`.
unfoldable pub poll_sim : Program Payload → Program Payload
poll_sim rest =
    read_radio (λ s. if polls s then get_sim_status true (λ sim. on_poll sim rest) else rest)

abbrev pub after_change : RadioState → Program Payload → Program Payload
after_change sim_ready rest = on_sim_ready rest
after_change sim_not_ready rest = poll_sim rest
after_change _ rest = rest

-- `setRadioState`.
unfoldable pub set_radio_state : RadioState → Program Payload → Program Payload
set_radio_state = change_state after_change

abbrev pub power_answer : Option AtError → Option Response → (ℤ → Program Payload) → Program Payload
power_answer err r k =
    check (record { err = err; response = r }) (k (negsuc 0))
      (λ r. first_line r.intermediates (λ line.
        started (at_tok_start (some line)) (k (negsuc 0))
          (λ cur. reading (at_tok_nextint cur) (k (negsuc 0)) (λ power cur'. k power))))

-- `getRadioPower`.
unfoldable pub get_radio_power : (ℤ → Program Payload) → Program Payload
get_radio_power k =
    send (singleline (codes "AT+CFUN?") (codes "+CFUN:")) true
      (λ a. power_answer a.err a.response k)

abbrev pub is_1 : ℤ → Bool
is_1 (pos n) = n == 1
is_1 (negsuc n) = false

abbrev pub failure : Program Payload
failure = reply generic_failure null

abbrev pub succeeded : Program Payload
succeeded = reply success null

abbrev pub on_error : Option AtError → Program Payload → Program Payload → Program Payload
on_error none fails holds = holds
on_error (some e) fails holds = fails

abbrev pub power_off : Program Payload
power_off = set_radio_state off succeeded

-- The first request only changes the state.
abbrev pub switch_off : Bool → Program Payload
switch_off true = get (λ v. put (record v { first_cfun = false }) power_off)
switch_off false = invoke stop_pppd (
    invoke wait_for_pppd_down
      (send (plain (codes "AT+CFUN=0")) true (λ a. on_error a.err failure power_off)))

abbrev pub power_on : Program Payload
power_on = set_radio_state sim_not_ready succeeded

abbrev pub switch_on : Program Payload
switch_on = send (plain (codes "AT+CFUN=1")) true (λ a.
    check a (get_radio_power (λ power. if is_1 power then power_on else failure)) (λ r. power_on))

-- `onOff > 0`.
abbrev pub is_positive : ℤ → Bool
is_positive (pos n) = not (n == 0)
is_positive (negsuc n) = false

abbrev pub is_zero : ℤ → Bool
is_zero (pos n) = n == 0
is_zero (negsuc n) = false

-- `requestRadioPower`.
unfoldable pub request_radio_power : ℤ → Program Payload
request_radio_power on_off = get (λ v.
    if is_zero on_off && not (is_off v.radio)
    then switch_off v.first_cfun
    else if is_positive on_off && is_off v.radio
    then switch_on
    else succeeded)
