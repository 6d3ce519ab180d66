-- ===== src/Network/Registration.antt =====
-- sxx-ril-network.c: the state of the registration.
use sxx_ril.Common.{
  ℕ, suc, zero, ◌+◌, ◌-◌, ◌/◌, ◌%◌, ◌^◌, Bool, true, false, ◌||◌, Option, none, some, [], ◌∷◌, ◌==◌,
  ltb, if◌then◌else◌, Text, codes,
}
use sxx_ril.Common.Int.{ℤ, pos, negsuc}
use sxx_ril.Channel.State.{Response}
use sxx_ril.Call.{and_then}
use sxx_ril.Tok.{cursor, at_tok_start, at_tok_nextint, at_tok_nexthexint}
use sxx_ril.Tok.Numbers.{decimal_int}
use sxx_ril.Ril.{At, singleline, Program, done, send, get, put, complete, success, generic_failure}
use sxx_ril.Ril.Payload.{Payload, null, texts, SimStatus, absent}
use sxx_ril.Ril.Steps.{check, first_line, started, stored}
use sxx_ril.Radio.{get_sim_status}
use sxx_ril.Sim.{is_lock}
use sxx_ril.Network.{equals}

-- `printf("%x")` of an int: at most eight digits.
abbrev pub hex_digit : ℕ → ℕ
hex_digit n = if ltb n 10 then b'0' + n else b'a' + (n - 10)

abbrev pub hex_onto : ℕ → ℕ → Text → Text
hex_onto zero n rest = rest
hex_onto (suc f) n rest =
    let more = hex_onto f (n / 16) (hex_digit (n % 16) ∷ rest) in
    if ltb n 16 then hex_digit n ∷ rest else more

abbrev pub as_unsigned : ℤ → ℕ
as_unsigned (pos n) = n % 2 ^ 32
as_unsigned (negsuc n) = (2 ^ 32 - 1) - n % 2 ^ 32

unfoldable pub hexadecimal : ℤ → Text
hexadecimal z = hex_onto 8 (as_unsigned z) []

-- `response[0]` to `response[2]`; the fourth is not used.
pub record Registered : Type 0 where
  pub stat : ℤ
  pub lac : ℤ
  pub cid : ℤ

unfoldable pub commas : Text → ℕ
commas [] = 0
commas (c ∷ s) = let n = commas s in if c == b',' then suc n else n

abbrev pub read_stat : Option Text → Option Registered
read_stat cur =
    and_then (at_tok_nextint cur)
      (λ stat cur'. some (record { stat = stat; lac = pos 0; cid = pos 0 }))

abbrev pub read_cell :
    Option Text → (Registered → Option Text → Option Registered) → Option Registered
read_cell cur0 k = and_then (at_tok_nextint cur0) (λ stat cur1.
    and_then (at_tok_nexthexint cur1) (λ lac cur2.
      and_then (at_tok_nexthexint cur2)
        (λ cid cur3. k (record { stat = stat; lac = lac; cid = cid }) cur3)))

abbrev pub skip_int : Option Text → (Option Text → Option Registered) → Option Registered
skip_int cur k = and_then (at_tok_nextint cur) (λ skipped cur'. k cur')

-- The switch on the number of commas.
unfoldable pub read_fields : ℕ → Option Text → Option Registered
read_fields n cur =
    if n == 0
    then read_stat cur
    else if n == 1
    then skip_int cur read_stat
    else if n == 2
    then read_cell cur (λ r cur'. some r)
    else if n == 3
    then skip_int cur (λ cur'. read_cell cur' (λ r cur''. some r))
    else if n == 4
    then skip_int cur
        (λ cur'. read_cell cur' (λ r cur3. and_then (at_tok_nexthexint cur3) (λ type cur4. some r)))
    else none

-- `response[0] != 1 && response[0] != 5 && response[0] != 3`.
abbrev pub is_reported : Registered → Option Registered
is_reported r = if equals r.stat 1 || (equals r.stat 5 || equals r.stat 3) then some r else none

abbrev pub only_reported : Option Registered → Option Registered
only_reported none = none
only_reported (some r) = is_reported r

abbrev pub behind_colon : Option Text → Option Registered
behind_colon none = none
behind_colon (some rest) = only_reported (read_fields (commas rest) (some rest))

-- The line of +CREG or +CGREG; `none` is the label `error`.
unfoldable pub registered_of_line : Text → Option Registered
registered_of_line line = behind_colon (at_tok_start (some line))

-- The four `at_tok_nextint` into one variable.
abbrev pub fourth : Option Text → ℤ
fourth cur0 =
    let cur1 = cursor (at_tok_nextint cur0) in
    let cur2 = cursor (at_tok_nextint cur1) in
    let cur3 = cursor (at_tok_nextint cur2) in
    stored (stored (stored (stored (pos 0) cur0) cur1) cur2) cur3

abbrev pub type_of_act : ℤ → ℤ
type_of_act z = if equals z 0 || equals z 1 then pos 2 else pos 3

-- `getNetworkType`.
unfoldable pub get_network_type : (ℤ → Program Payload) → Program Payload
get_network_type k = send (singleline (codes "AT+COPS?") (codes "+COPS:")) true (λ a.
    check a (k (pos 0)) (λ r. first_line r.intermediates (λ line.
      started (at_tok_start (some line)) (k (pos 0)) (λ cur. k (type_of_act (fourth cur))))))

-- The two queries.
pub data Domain : Type 0 where
  voice packet : Domain

abbrev pub query : Domain → At
query voice = singleline (codes "AT+CREG?") (codes "+CREG:")
query packet = singleline (codes "AT+CGREG?") (codes "+CGREG:")

-- `k false` is the return of -1.
abbrev pub fail_with : (Bool → Program Payload) → Program Payload
fail_with k = complete generic_failure null (k false)

abbrev pub report : Registered → ℤ → (Bool → Program Payload) → Program Payload
report r type k = get (λ v.
    put (record v { creg_value = r.stat })
      (complete success
        (texts (
          some (decimal_int r.stat)
          ∷ some (hexadecimal r.lac)
          ∷ some (hexadecimal r.cid)
          ∷ some (decimal_int type)
          ∷ []))
        (k true)))

abbrev pub registered_answer : Option Registered → (Bool → Program Payload) → Program Payload
registered_answer none k = fail_with k
registered_answer (some r) k = get_network_type (λ type. report r type k)

abbrev pub registered_of : (Bool → Program Payload) → Response → Program Payload
registered_of k r =
    first_line r.intermediates (λ line. registered_answer (registered_of_line line) k)

-- `_requestRegistrationStateWCDMASub`.
unfoldable pub request_registration_sub : Domain → (Bool → Program Payload) → Program Payload
request_registration_sub d k = send (query d) true (λ a. check a (fail_with k) (registered_of k))

-- What the loop does after an attempt.
abbrev pub after_attempt : Bool → Program Payload → Bool → Program Payload
after_attempt locked again answered = if locked then done else if answered then done else again

-- `while (wait-- && ret == -1)`.
unfoldable pub attempts : Domain → Bool → ℕ → Program Payload
attempts d locked zero = done
attempts d locked (suc wait) =
    request_registration_sub d (after_attempt locked (attempts d locked wait))

abbrev pub tries : SimStatus → ℕ
tries absent = 2
tries _ = 20

-- `_requestRegistrationStateWCDMA` and `requestDataRegistrationState`.
unfoldable pub request_registration_state : Domain → Program Payload
request_registration_state d = get_sim_status true (λ s. attempts d (is_lock s) (tries s))
