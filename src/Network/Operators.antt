-- ===== src/Network/Operators.antt =====
-- sxx-ril-network.c: the names of the operators.
use sxx_ril.Common.{
  ℕ, suc, zero, Bool, true, false, ◌&&◌, Option, none, some, List, [], ◌∷◌, ◌++◌, ◌==◌, ltb, length,
  if◌then◌else◌, Text, codes,
}
use sxx_ril.Common.Int.{ℤ, pos, negsuc}
use sxx_ril.Channel.State.{Response, AtError}
use sxx_ril.Call.{and_then}
use sxx_ril.Tok.{at_tok_start, at_tok_nextint, at_tok_nextstr, at_tok_hasmore}
use sxx_ril.Misc.{Element, absent, fault, found, get_first_element_value}
use sxx_ril.Ril.{multiline, Program, undefined, send, success}
use sxx_ril.Ril.Payload.{Payload, texts}
use sxx_ril.Ril.Steps.{check, reply}
use sxx_ril.Network.{failure}

-- The number of "(" before two commas on end.
unfoldable pub count_networks : Text → ℕ
count_networks [] = 0
count_networks (c ∷ []) = if c == b'(' then 1 else 0
count_networks (c ∷ d ∷ s) =
    let n = count_networks (d ∷ s) in
    if c == b',' && d == b',' then 0 else if c == b'(' then suc n else n

-- `statusTable`.
unfoldable pub status_name : ℤ → Option Text
status_name (negsuc n) = none
status_name (pos n) =
    if n == 0
    then some (codes "unknown")
    else if n == 1
    then some (codes "available")
    else if n == 2
    then some (codes "current")
    else if n == 3
    then some (codes "forbidden")
    else none

-- "Check if modem returned an empty string, and fill it with MNC/MMC".
abbrev pub or_numeric : Text → Text → Text
or_numeric [] numeric = numeric
or_numeric (c ∷ name) numeric = c ∷ name

pub record Network : Type 0 where
  pub long_name : Text
  pub short_name : Text
  pub numeric : Text
  pub status : ℤ

-- One element; `none` is the label `error`.
unfoldable pub network_of : Text → Option Network
network_of line = and_then (at_tok_nextint (some line)) (λ status cur0.
    and_then (at_tok_nextstr cur0) (λ long cur1. and_then (at_tok_nextstr cur1) (λ short cur2.
      and_then (at_tok_nextstr cur2) (λ numeric cur3. some (record {
        long_name = or_numeric long numeric;
        short_name = or_numeric short numeric;
        numeric = numeric;
        status = status;
      })))))

abbrev pub with_status : List (Option Text) → Network → Option Text → Option (List (Option Text))
with_status got n none = none
with_status got n (some name) =
    some (got ++ (some n.long_name ∷ some n.short_name ∷ some n.numeric ∷ some name ∷ []))

abbrev pub on_network : Option Network → (Network → Program Payload) → Program Payload
on_network none k = failure
on_network (some n) k = k n

abbrev pub on_named :
    Option (List (Option Text)) → (List (Option Text) → Program Payload) → Program Payload
on_named none k = undefined
on_named (some got) k = k got

abbrev pub on_element :
    Element → List (Option Text) → (Text → Text → Program Payload) → Program Payload
on_element absent got k = reply success (texts got)
on_element fault got k = undefined
on_element (found line rest) got k = k line rest

-- The loop over the elements; `got` is what stands in `responseArray`, and a status that is not in
-- the table is a read out of bounds.
unfoldable pub collect : ℕ → Text → List (Option Text) → Program Payload
collect zero p got = reply success (texts got)
collect (suc n) p got =
    on_element (get_first_element_value p (codes "(") (codes ")")) got (λ line rest.
      on_network (network_of line) (λ net.
        on_named (with_status got net (status_name net.status)) (λ got'. collect n rest got')))

abbrev pub networks_of : List Text → Program Payload
networks_of [] = failure
networks_of (line ∷ lines) = collect (count_networks line) line []

-- `requestQueryAvailableNetworks`.
unfoldable pub request_query_available_networks : Program Payload
request_query_available_networks =
    send (multiline (codes "AT+COPS=?") (codes "+COPS:")) true
      (λ a. check a failure (λ r. networks_of r.intermediates))

-- One line of `_requestOperatorWCDMA`; `none` is the label `error`.
unfoldable pub operator_of : Text → Option (Option Text)
operator_of line = from_start (at_tok_start (some line)) (λ cur0.
    and_then (at_tok_nextint cur0) (λ mode cur1.
      if at_tok_hasmore cur1
      then and_then (at_tok_nextint cur1) (λ format cur2.
        if at_tok_hasmore cur2
        then and_then (at_tok_nextstr cur2) (λ name cur3. some (some name))
        else some none)
      else some none))
  where
    from_start : Option Text → (Option Text → Option (Option Text)) → Option (Option Text)
    from_start none k = none
    from_start (some rest) k = k (some rest)

abbrev pub on_operator :
    Option (Option Text) → Bool → (Option Text → Program Payload) → Program Payload
on_operator none fits k = failure
on_operator (some name) false k = undefined
on_operator (some name) true k = k name

-- The loop over the lines; a fourth one is written behind `response[3]`.
unfoldable pub operators : List Text → List (Option Text) → Program Payload
operators [] got = if length got == 3 then reply success (texts got) else failure
operators (line ∷ lines) got =
    on_operator (operator_of line) (ltb (length got) 3)
      (λ name. operators lines (got ++ (name ∷ [])))

abbrev pub operator_answer : Option AtError → Option Response → Program Payload
operator_answer (some e) r = failure
operator_answer none none = undefined
operator_answer none (some r) = operators r.intermediates []

-- `_requestOperatorWCDMA`.
unfoldable pub request_operator : Program Payload
request_operator =
    send (multiline (codes "AT+COPS=3,0;+COPS?;+COPS=3,1;+COPS?;+COPS=3,2;+COPS?") (codes "+COPS:"))
      true (λ a. operator_answer a.err a.response)
