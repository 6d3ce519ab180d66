-- ===== src/Radio/Completion.antt =====
-- sxx-ril-sim.c and sxx-ril-network.c: what the changes of the state leave of the completions.
use sxx_ril.Common.{
  ℕ, Bool, true, false, not, ◌&&◌, ◌||◌, ◌==◌, Option, none, some, ◌≡◌, refl, ap, ==_iff, codes,
  if◌then◌else◌, Bool-cases, inl, inr,
}
use sxx_ril.Common.Int.{ℤ, pos, negsuc}
use sxx_ril.Filter.{
  RadioState, off, unavailable, sim_not_ready, sim_locked_or_absent, sim_ready, other, is_off,
  is_unavailable,
}
use sxx_ril.Channel.State.{Response, AtError}
use sxx_ril.Channel.Cme.{at_get_cme_error}
use sxx_ril.Tok.{at_tok_start, at_tok_nextint}
use sxx_ril.Ril.{At, Steady, PhoneWorks, plain, singleline, AllowedOn, HasLine, Program}
use sxx_ril.Ril.Payload.{
  Payload, SimStatus, absent, not_ready, ready, pin, puk, network_personalization,
}
use sxx_ril.Ril.Once.{
  CompletesIf, check-Completes, first_line-Completes, reading-Completes, started-Completes,
  if-Completes,
}
use sxx_ril.Radio.{
  get_sim_status, sim_answer, by_error, change_state, same, after_poll, after_change, on_poll,
  poll_sim, polls, set_radio_state, get_radio_power, request_radio_power, switch_off, switch_on,
  is_1, is_positive, is_zero, on_error,
}

abbrev cpin : At
cpin = singleline (codes "AT+CPIN?") (codes "+CPIN:")

by_error-Completes :
    (n : ℕ) (r : Response) (z : ℤ) (k : SimStatus → Program Payload)
    → (z ≡ pos 0 → r.success ≡ true)
    → HasLine r.success r.intermediates
    → ((s : SimStatus) → CompletesIf Steady n (k s))
    → CompletesIf Steady n (by_error z r.intermediates k)
by_error-Completes n r (negsuc m) k works i h = h absent
by_error-Completes n r (pos m) k works i h = elim (Bool-cases (m == 0)) [
  | inl is0 ↦
      rw (is0, if◌then◌else◌)
        (first_line-Completes Steady n r _ (works (ap pos ((==_iff m 0).0 is0))) i (λ line. h _))
  | inr not0 ↦
      rw (not0, if◌then◌else◌) (if-Completes Steady n (m == 14) _ _ (h not_ready) (h absent))
]

sim_answer-Completes :
    (n : ℕ) (e : Option AtError) (r : Option Response) (k : SimStatus → Program Payload)
    → AllowedOn cpin true e r
    → PhoneWorks r
    → ((s : SimStatus) → CompletesIf Steady n (k s))
    → CompletesIf Steady n (sim_answer e r k)
sim_answer-Completes n (some e) r k ok w h = h absent
sim_answer-Completes n none none k ok w h = absurd ok
sim_answer-Completes n none (some r) k ok w h = by_error-Completes n r (at_get_cme_error r) k w ok h

pub get_sim_status-Completes :
    (n : ℕ) (unforced : Bool) (k : SimStatus → Program Payload)
    → ((s : SimStatus) → CompletesIf Steady n (k s))
    → CompletesIf Steady n (get_sim_status unforced k)
unfolding get_sim_status
get_sim_status-Completes n unforced k h = λ v.
    if-Completes Steady n (unforced && (is_off v.radio || is_unavailable v.radio)) _ _ (h not_ready)
      (λ a ok. sim_answer-Completes n a.err a.response k ok.0 ok.1 h)

change_state-Completes :
    (n : ℕ) (after : RadioState → Program Payload → Program Payload) (new : RadioState)
    (rest : Program Payload)
    → ((s : RadioState) → CompletesIf Steady n (after s rest))
    → CompletesIf Steady n rest
    → CompletesIf Steady n (change_state after new rest)
unfolding change_state
change_state-Completes n after new rest h k = λ v w u.
    if-Completes Steady n (same (if v.closed then unavailable else new) w.radio) _ _ k
      (h (if v.closed then unavailable else new))

after_poll-Completes :
    (n : ℕ) (rest : Program Payload)
    → CompletesIf Steady n rest
    → (s : RadioState) → CompletesIf Steady n (after_poll s rest)
after_poll-Completes n rest h off = h
after_poll-Completes n rest h unavailable = h
after_poll-Completes n rest h sim_not_ready = h
after_poll-Completes n rest h sim_locked_or_absent = h
after_poll-Completes n rest h sim_ready = λ a ok b ok'. h
after_poll-Completes n rest h (other m) = h

on_poll-Completes :
    (n : ℕ) (rest : Program Payload)
    → CompletesIf Steady n rest
    → (s : SimStatus) → CompletesIf Steady n (on_poll s rest)
on_poll-Completes n rest h absent =
    change_state-Completes n _ _ rest (after_poll-Completes n rest h) h
on_poll-Completes n rest h not_ready = h
on_poll-Completes n rest h ready =
    change_state-Completes n _ _ rest (after_poll-Completes n rest h) h
on_poll-Completes n rest h pin = change_state-Completes n _ _ rest (after_poll-Completes n rest h) h
on_poll-Completes n rest h puk = change_state-Completes n _ _ rest (after_poll-Completes n rest h) h
on_poll-Completes n rest h network_personalization =
    change_state-Completes n _ _ rest (after_poll-Completes n rest h) h

pub poll_sim-Completes :
    (n : ℕ) (rest : Program Payload)
    → CompletesIf Steady n rest
    → CompletesIf Steady n (poll_sim rest)
unfolding poll_sim
poll_sim-Completes n rest h = λ v.
    if-Completes Steady n (polls v.radio) _ _
      (get_sim_status-Completes n true _ (on_poll-Completes n rest h)) h

after_change-Completes :
    (n : ℕ) (rest : Program Payload)
    → CompletesIf Steady n rest
    → (s : RadioState) → CompletesIf Steady n (after_change s rest)
after_change-Completes n rest h off = h
after_change-Completes n rest h unavailable = h
after_change-Completes n rest h sim_not_ready = poll_sim-Completes n rest h
after_change-Completes n rest h sim_locked_or_absent = h
after_change-Completes n rest h sim_ready = λ a ok b ok'. h
after_change-Completes n rest h (other m) = h

pub set_radio_state-Completes :
    (n : ℕ) (new : RadioState) (rest : Program Payload)
    → CompletesIf Steady n rest
    → CompletesIf Steady n (set_radio_state new rest)
unfolding set_radio_state
set_radio_state-Completes n new rest h =
    change_state-Completes n _ new rest (after_change-Completes n rest h) h

get_radio_power-Completes :
    (n : ℕ) (k : ℤ → Program Payload)
    → ((p : ℤ) → CompletesIf Steady n (k p))
    → CompletesIf Steady n (get_radio_power k)
unfolding get_radio_power
get_radio_power-Completes n k h = λ a ok.
    check-Completes Steady n (record { err = a.err; response = a.response })
      (singleline (codes "AT+CFUN?") (codes "+CFUN:")) _ _ ok.0 (h (negsuc 0))
      (λ r s i. first_line-Completes Steady n r _ s i (λ line.
        started-Completes Steady n (at_tok_start (some line)) _ _ (h (negsuc 0)) (λ cur.
          reading-Completes Steady n (at_tok_nextint cur) _ _ (h (negsuc 0)) (λ p cur'. h p))))

on_error-Completes :
    (n : ℕ) (e : Option AtError) (fails holds : Program Payload)
    → CompletesIf Steady n fails
    → CompletesIf Steady n holds
    → CompletesIf Steady n (on_error e fails holds)
on_error-Completes n none fails holds f h = h
on_error-Completes n (some e) fails holds f h = f

switch_off-Completes : (b : Bool) → CompletesIf Steady 1 (switch_off b)
switch_off-Completes true = λ v. set_radio_state-Completes 1 off _ refl
switch_off-Completes false =
    λ a ok. on_error-Completes 1 a.err _ _ refl (set_radio_state-Completes 1 off _ refl)

switch_on-Completes : CompletesIf Steady 1 switch_on
switch_on-Completes = λ a ok.
    check-Completes Steady 1 a (plain (codes "AT+CFUN=1")) _ _ ok.0
      (get_radio_power-Completes 1 _ (λ p.
        if-Completes Steady 1 (is_1 p) _ _ (set_radio_state-Completes 1 sim_not_ready _ refl) refl))
      (λ r s i. set_radio_state-Completes 1 sim_not_ready _ refl)

pub request_radio_power-Completes : (on_off : ℤ) → CompletesIf Steady 1 (request_radio_power on_off)
unfolding request_radio_power
request_radio_power-Completes on_off = λ v.
    if-Completes Steady 1 (is_zero on_off && not (is_off v.radio)) _ _
      (switch_off-Completes v.first_cfun)
      (if-Completes Steady 1 (is_positive on_off && is_off v.radio) _ _ switch_on-Completes refl)
