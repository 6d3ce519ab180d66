-- ===== src/Service/Completion.antt =====
-- sxx-ril-service.c: how often a request is completed.
use sxx_ril.Common.{Bool, true, false, Option, none, some, ◌++◌, ◌≡◌, refl, Text, codes}
use sxx_ril.Common.Int.{ℤ, pos}
use sxx_ril.Channel.State.{Response, AtError}
use sxx_ril.Channel.Cme.{at_get_cme_error}
use sxx_ril.Tok.Numbers.{decimal_int}
use sxx_ril.Ril.{At, plain, singleline, numeric, multiline, Allowed, AllowedOn}
use sxx_ril.Ril.Once.{Completes, check-Completes, first_line-Completes, if-Completes}
use sxx_ril.Service.{on_error, request_cancel_ussd, request_send_ussd, request_two_ints, equals}
use sxx_ril.Service.Forwards.{
  ServiceRequest, query_clip, cancel_ussd, get_clir, set_clir, send_ussd, query_call_forward_status,
  set_call_waiting, set_call_forward, query_call_waiting, set_supp_svc_notification,
  on_service_request, request_call_forward, request_query_call_forward_status, Query,
  forward_answer, tolerated, ccfc_command,
}

-- A query of call forwarding asks for the status, and not for a change; the setting of call waiting
-- frees what is not set.
abbrev pub IsAsked : ServiceRequest → Type 0
IsAsked (query_call_forward_status status reason) = equals status 2 ≡ true
IsAsked (set_call_waiting enable c) = ⊥
IsAsked _ = Unit

on_error-Completes : (e : Option AtError) → Completes 1 (on_error e)
on_error-Completes none = refl
on_error-Completes (some e) = refl

two_ints-Completes : (c p : Text) (a b : ℤ) → Completes 1 (request_two_ints (singleline c p) a b)
two_ints-Completes c p a b = λ answer ok.
    check-Completes Allowed 1 answer (singleline c p) _ _ ok refl
      (λ r s i. first_line-Completes Allowed 1 r _ s i (λ line. refl))

forward_answer-Completes :
    (q : Query) (at : At) (e : Option AtError) (r : Option Response)
    → AllowedOn at true e r
    → Completes 1 (forward_answer q e r)
forward_answer-Completes q at (some e) r h = refl
forward_answer-Completes q at none none h = absurd h
forward_answer-Completes q at none (some r) h =
    if-Completes Allowed 1 (tolerated (at_get_cme_error r)) _ _
      (if-Completes Allowed 1 (equals q.status 2) _ _ refl refl) refl

call_forward-Completes : (q : Query) (sized : Bool) → Completes 1 (request_call_forward q sized)
unfolding request_call_forward
call_forward-Completes q false = refl
call_forward-Completes q true = λ a ok.
    forward_answer-Completes q (multiline (ccfc_command q) (codes "+CCFC:")) a.err a.response ok

query-Completes :
    (status reason : ℤ)
    → equals status 2 ≡ true
    → Completes 1 (request_query_call_forward_status status reason)
unfolding request_query_call_forward_status
query-Completes status reason h = rw h (call_forward-Completes _ true)

pub on_service_request-Completes :
    (q : ServiceRequest) → IsAsked q → Completes 1 (on_service_request q)
unfolding on_service_request request_cancel_ussd request_send_ussd
on_service_request-Completes query_clip h = refl
on_service_request-Completes cancel_ussd h = λ a ok.
    check-Completes Allowed 1 a (numeric (codes "AT+CUSD=2")) _ _ ok (λ v b allowed. refl)
      (λ r s i. first_line-Completes Allowed 1 r _ s i (λ line v b allowed. refl))
on_service_request-Completes get_clir h =
    two_ints-Completes (codes "AT+CLIR?") (codes "+CLIR: ") (pos 1) (pos 1)
on_service_request-Completes set_clir h = refl
on_service_request-Completes (send_ussd ussd) h = λ a ok v b allowed.
    check-Completes Allowed 1 b (plain (codes "AT+CUSD=1," ++ (ussd ++ codes ",15"))) _ _ allowed
      refl (λ r s i. refl)
on_service_request-Completes (query_call_forward_status status reason) h =
    query-Completes status reason h
on_service_request-Completes (set_call_waiting enable c) h = absurd h
on_service_request-Completes (set_call_forward q sized) h = call_forward-Completes q sized
on_service_request-Completes (query_call_waiting c) h =
    two_ints-Completes (codes "AT+CCWA=1,2,1," ++ decimal_int c) (codes "+CCWA: ") (pos 0) (pos 0)
on_service_request-Completes (set_supp_svc_notification ssn) h = λ a ok. on_error-Completes a.err
