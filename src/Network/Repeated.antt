-- ===== src/Network/Repeated.antt =====
-- sxx-ril-network.c: the requests that are completed more than once when a command fails.
use sxx_ril.Common.{
  ℕ, suc, zero, Bool, true, false, ◌||◌, some, codes, if◌then◌else◌, ◌≡◌, refl, ap, ◌∙◌,
}
use sxx_ril.Ril.{
  At, singleline, Program, send, sent, then_trace, Answer, Modem, World, Trace, Status, finished,
  run, completions,
}
use sxx_ril.Ril.Failures.{Failed, run-Failed, run-send}
use sxx_ril.Ril.Payload.{
  Payload, SimStatus, absent, not_ready, ready, pin, puk, network_personalization,
}
use sxx_ril.Filter.{is_off, is_unavailable}
use sxx_ril.Radio.{get_sim_status, sim_answer}
use sxx_ril.Sim.{is_lock}
use sxx_ril.Network.Registration.{
  Domain, query, attempts, request_registration_sub, fail_with, after_attempt, registered_of, tries,
  request_registration_state,
}

-- How a run ends, and its completions, by an equal run.
outcome :
    (r t : Trace Payload) (s : Status) (n : ℕ)
    → r ≡ t
    → t.status ≡ s
    → completions t.events ≡ n
    → (r.status ≡ s) × (completions r.events ≡ n)
outcome r t s n e f g = (
  ap (λ (r : Trace Payload). r.status) e ∙ f,
  ap (λ (r : Trace Payload). completions r.events) e ∙ g,
)

-- The modem fails this command, whenever it is sent.
abbrev pub AlwaysFails : Modem → At → Type 0
AlwaysFails m at =
    (s : m.State) → (a : Answer) × (t : m.State) × (m.answer s at true ≡ some (a, t)) × Failed a

attempts-open :
    (m : Modem) (d : Domain) (wait : ℕ) (w : World m.State)
    → AlwaysFails m (query d)
    → ((run m w (attempts d false wait)).status ≡ finished)
      × (completions (run m w (attempts d false wait)).events ≡ wait)
unfolding run attempts request_registration_sub
attempts-open m d zero w f = (refl, refl)
attempts-open m d (suc wait) w f =
    let next = record w { modem = (f w.modem).1 } in
    let rest = attempts-open m d wait next f in
    outcome _ _ finished (suc wait)
      (run-Failed m w (query d) (fail_with (after_attempt false (attempts d false wait)))
        (registered_of (after_attempt false (attempts d false wait))) (f w.modem).0 (f w.modem).1
        (f w.modem).2 (f w.modem).3)
      rest.0 (ap suc rest.1)

-- With a locked SIM card the loop is left behind the first attempt.
attempts-locked :
    (m : Modem) (d : Domain) (wait : ℕ) (w : World m.State)
    → AlwaysFails m (query d)
    → ((run m w (attempts d true (suc wait))).status ≡ finished)
      × (completions (run m w (attempts d true (suc wait))).events ≡ 1)
unfolding run attempts request_registration_sub
attempts-locked m d wait w f =
    outcome _ _ finished 1
      (run-Failed m w (query d) (fail_with (after_attempt true (attempts d true wait)))
        (registered_of (after_attempt true (attempts d true wait))) (f w.modem).0 (f w.modem).1
        (f w.modem).2 (f w.modem).3)
      refl refl

-- How often a request for the registration is completed, by the state of the SIM card.
abbrev pub repeated : SimStatus → ℕ
repeated absent = 2
repeated pin = 1
repeated puk = 1
repeated not_ready = 20
repeated ready = 20
repeated network_personalization = 20

attempts-repeated :
    (m : Modem) (d : Domain) (s : SimStatus) (w : World m.State)
    → AlwaysFails m (query d)
    → ((run m w (attempts d (is_lock s) (tries s))).status ≡ finished)
      × (completions (run m w (attempts d (is_lock s) (tries s))).events ≡ repeated s)
attempts-repeated m d absent = attempts-open m d 2
attempts-repeated m d pin = attempts-locked m d 19
attempts-repeated m d puk = attempts-locked m d 19
attempts-repeated m d not_ready = attempts-open m d 20
attempts-repeated m d ready = attempts-open m d 20
attempts-repeated m d network_personalization = attempts-open m d 20

-- The answer to AT+CPIN? is read as this state of the SIM card.
abbrev pub Tells : Answer → SimStatus → Type 0
Tells a s = (k : SimStatus → Program Payload) → sim_answer a.err a.response k ≡ k s

-- With the radio neither off nor unavailable, when AT+CPIN? tells the state of the SIM card and the
-- query of the registration fails each time, the request for the registration ends and has been
-- completed once with a SIM card that waits for its PIN or PUK, twice without a SIM card, and 20 times
-- otherwise.
pub request_registration_state-repeated :
    (m : Modem) (d : Domain) (w : World m.State) (a : Answer) (t : m.State) (s : SimStatus)
    → (is_off w.vars.radio || is_unavailable w.vars.radio) ≡ false
    → m.answer w.modem (singleline (codes "AT+CPIN?") (codes "+CPIN:")) true ≡ some (a, t)
    → Tells a s
    → AlwaysFails m (query d)
    → ((run m w (request_registration_state d)).status ≡ finished)
      × (completions (run m w (request_registration_state d)).events ≡ repeated s)
unfolding run request_registration_state get_sim_status
request_registration_state-repeated m d w a t s on e tells f =
    let rest = attempts-repeated m d s (record w { modem = t }) f in
    outcome _ _ finished (repeated s)
      (by_state (is_off w.vars.radio || is_unavailable w.vars.radio) on) rest.0 rest.1
  where
    k : SimStatus → Program Payload
    k = λ s. attempts d (is_lock s) (tries s)

    cpin : At
    cpin = singleline (codes "AT+CPIN?") (codes "+CPIN:")

    by_state :
        (b : Bool)
        → b ≡ false
        → run m w (if b then k not_ready else send cpin true (λ a. sim_answer a.err a.response k))
          ≡ then_trace (sent cpin) (run m (record w { modem = t }) (k s))
    by_state true h = cc
    by_state false h =
        run-send m w cpin true (λ a. sim_answer a.err a.response k) a t e
        ∙ ap (λ p. then_trace (sent cpin) (run m (record w { modem = t }) p)) (tells k)
