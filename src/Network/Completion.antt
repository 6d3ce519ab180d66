-- ===== src/Network/Completion.antt =====
-- sxx-ril-network.c: how often a request is completed.
use sxx_ril.Common.{ℕ, true, ◌==◌, Option, none, some, List, [], ◌∷◌, ◌++◌, refl, Text, codes}
use sxx_ril.Common.Int.{ℤ, pos}
use sxx_ril.Filter.{is_off}
use sxx_ril.Channel.State.{Response, AtError}
use sxx_ril.Tok.{at_tok_start, at_tok_nextint}
use sxx_ril.Tok.Numbers.{decimal_int}
use sxx_ril.Ril.{At, plain, singleline, Allowed, AllowedOn, Program, Steady}
use sxx_ril.Ril.Payload.{Payload}
use sxx_ril.Ril.Once.{
  Completes, CompletesIf, CompletesIf-mono, check-Completes, first_line-Completes,
  reading-Completes, reply_checked-Completes, started-Completes, if-Completes,
}
use sxx_ril.Radio.Completion.{request_radio_power-Completes}
use sxx_ril.Network.{
  on_error, select_tech, mode_of_type, zmds_lines, zmds_answer, get_zmds_value, equals, set_mode,
  request_set_preferred_network_type, request_get_preferred_network_type, query_int,
  request_set_network_selection_manual, quoted, known_facility, succeeded,
  request_query_facility_lock, report_type,
}
use sxx_ril.Network.Requests.{
  NetworkRequest, signal_strength, set_network_selection_automatic, query_available_networks,
  query_network_selection_mode, operator, get_preferred_network_type, cdma_subscription,
  set_network_selection_manual, set_preferred_network_type, radio_power, registration_state,
  set_facility_lock, query_facility_lock, on_network_request,
}

-- All but those whose completions, or whose reads, depend on what the modem answers.
abbrev pub IsSingle : NetworkRequest → Type 0
IsSingle signal_strength = ⊥
IsSingle query_available_networks = ⊥
IsSingle operator = ⊥
IsSingle (registration_state d) = ⊥
IsSingle _ = Unit

on_error-Completes : (e : Option AtError) → Completes 1 (on_error e)
on_error-Completes none = refl
on_error-Completes (some e) = refl

zmds_lines-Completes :
    (n : ℕ) (lines : List Text) (k : ℤ → Program Payload)
    → ((z : ℤ) → Completes n (k z))
    → Completes n (zmds_lines lines k)
zmds_lines-Completes n [] k h = h (pos 4)
zmds_lines-Completes n (line ∷ lines) k h =
    started-Completes Allowed n (at_tok_start (some line)) _ _ (h (pos 4)) (λ cur. h _)

zmds_answer-Completes :
    (n : ℕ) (at : At) (e : Option AtError) (r : Option Response) (k : ℤ → Program Payload)
    → AllowedOn at true e r
    → ((z : ℤ) → Completes n (k z))
    → Completes n (zmds_answer e r k)
zmds_answer-Completes n at (some e) r k ok h = h (pos 4)
zmds_answer-Completes n at none none k ok h = absurd ok
zmds_answer-Completes n at none (some r) k ok h = zmds_lines-Completes n r.intermediates k h

zmds-Completes :
    (n : ℕ) (k : ℤ → Program Payload)
    → ((z : ℤ) → Completes n (k z))
    → Completes n (get_zmds_value k)
unfolding get_zmds_value
zmds-Completes n k h = λ a ok.
    zmds_answer-Completes n (singleline (codes "AT+ZMDS?") (codes "+ZMDS:")) a.err a.response k ok h

select_tech-Completes :
    (arg n : ℕ) (rest : Program Payload) → Completes n rest → Completes n (select_tech arg rest)
select_tech-Completes arg n rest h =
    if-Completes Allowed n (arg == 14) _ _ (λ a ok. h)
      (if-Completes Allowed n (arg == 13) _ _ (λ a ok. h) (λ a ok. h))

set_mode-Completes : (o : Option ℕ) → Completes 1 (set_mode o)
set_mode-Completes none = refl
set_mode-Completes (some arg) = zmds-Completes 1 _ (λ z.
    if-Completes Allowed 1 (equals z arg) _ _ refl (λ a ok.
      check-Completes Allowed 1 a (plain (codes "AT+ZMDS=" ++ decimal_int (pos arg))) _ _ ok refl
        (λ r s i. select_tech-Completes arg 1 succeeded refl)))

query_int-Completes : (c p : Text) → Completes 1 (query_int (singleline c p))
query_int-Completes c p = λ a ok. check-Completes Allowed 1 a (singleline c p) _ _ ok refl (λ r s i.
    first_line-Completes Allowed 1 r _ s i (λ line.
      started-Completes Allowed 1 (at_tok_start (some line)) _ _ refl
        (λ cur. reading-Completes Allowed 1 (at_tok_nextint cur) _ _ refl (λ z cur'. refl))))

manual-Completes : (o : Option Text) → Completes 1 (request_set_network_selection_manual o)
manual-Completes none = refl
manual-Completes (some t) =
    reply_checked-Completes (plain (codes "AT+COPS=4,2,\"" ++ (t ++ codes "\""))) _

type-Completes : (rat : ℤ) → Completes 1 (request_set_preferred_network_type rat)
unfolding request_set_preferred_network_type
type-Completes rat =
    λ v. if-Completes Allowed 1 (is_off v.radio) _ _ refl (set_mode-Completes (mode_of_type rat))

steady : (p : Program Payload) → Completes 1 p → CompletesIf Steady 1 p
steady p h = CompletesIf-mono Allowed Steady (λ at want a ok. ok.0) 1 p h

pub on_network_request-Completes :
    (q : NetworkRequest) → IsSingle q → CompletesIf Steady 1 (on_network_request q)
unfolding on_network_request request_get_preferred_network_type
on_network_request-Completes signal_strength h = absurd h
on_network_request-Completes set_network_selection_automatic h =
    λ a ok. steady (on_error a.err) (on_error-Completes a.err)
on_network_request-Completes query_available_networks h = absurd h
on_network_request-Completes query_network_selection_mode h =
    steady (query_int (singleline (codes "AT+COPS?") (codes "+COPS:")))
      (query_int-Completes (codes "AT+COPS?") (codes "+COPS:"))
on_network_request-Completes operator h = absurd h
on_network_request-Completes get_preferred_network_type h =
    steady request_get_preferred_network_type (zmds-Completes 1 report_type (λ z. refl))
on_network_request-Completes cdma_subscription h = refl
on_network_request-Completes (set_network_selection_manual o) h =
    steady (request_set_network_selection_manual o) (manual-Completes o)
on_network_request-Completes (set_preferred_network_type rat) h =
    steady (request_set_preferred_network_type rat) (type-Completes rat)
on_network_request-Completes (radio_power on_off) h = request_radio_power-Completes on_off
on_network_request-Completes (registration_state d) h = absurd h
on_network_request-Completes (set_facility_lock facility mode password class) h = λ a ok.
    check-Completes Steady 1 a
      (plain (
        codes "AT+CLCK="
        ++ (quoted facility
            ++ (codes ","
                ++ (decimal_int mode
                    ++ (codes "," ++ (quoted password ++ (codes "," ++ class))))))))
      _ _ ok.0 refl (λ r s i. refl)
on_network_request-Completes (query_facility_lock facility password class) h =
    steady (request_query_facility_lock facility password class) (
      query_int-Completes
        (codes "AT+CLCK="
          ++ (quoted (known_facility facility)
              ++ (codes ",2," ++ (quoted password ++ (codes "," ++ class)))))
        (codes "+CLCK:"))
