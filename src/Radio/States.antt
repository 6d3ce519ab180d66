-- ===== src/Radio/States.antt =====
-- sxx-ril-network.c and sxx-ril-sim.c: the states of the radio that the changes and the polls lead to.
use sxx_ril.Common.{
  Bool, true, false, ◌==◌, Option, none, some, List, [], ◌∷◌, ◌≡◌, ◌⊎◌, inl, inr, refl, ap, Text,
  codes, if◌then◌else◌, Bool-cases,
}
use sxx_ril.Common.Int.{ℤ, pos, negsuc}
use sxx_ril.Filter.{
  RadioState, off, unavailable, sim_not_ready, sim_locked_or_absent, sim_ready, other,
  is_sim_not_ready,
}
use sxx_ril.Channel.State.{Response, AtError}
use sxx_ril.Channel.Cme.{at_get_cme_error}
use sxx_ril.Tok.{at_tok_start}
use sxx_ril.Ril.{
  At, plain, singleline, Answer, Program, done, undefined, Vars, Modem, World, Event, scheduled,
  sent, poll_sim_state, notify, radio_state_changed, finished, Trace, run, on_answer, then_trace,
}
use sxx_ril.Ril.Payload.{
  Payload, null, SimStatus, absent, not_ready, ready, pin, puk, network_personalization,
}
use sxx_ril.Ril.Steps.{first_line, tell}
use sxx_ril.Radio.{
  get_sim_status, sim_answer, by_error, behind_colon, change_state, to_state, same, after_change,
  on_poll, poll_sim, set_radio_state, on_sim_ready,
}

module _ (m : Modem) where
  -- A command leaves the variables as they are.
  told_final :
      (s : m.State) (v : Vars) (o : Option (Answer × m.State)) (k : m.State → Trace Payload)
      → ((t : m.State) → (k t).final ≡ v)
      → (on_answer v o (λ a t. k t)).final ≡ v
  told_final s v none k h = refl
  told_final s v (some (a, t)) k h = h t

  abbrev world : m.State → Vars → World m.State
  world s v = record { modem = s; vars = v }

  tell_final :
      (at : At) (p : Program Payload) (s : m.State) (v : Vars)
      → ((t : m.State) → (run m (world t v) p).final ≡ v)
      → (run m (world s v) (tell at p)).final ≡ v
  unfolding run
  tell_final at p s v h = told_final s v (m.answer s at false) (λ t. run m (world t v) p) h

  sim_ready_final : (s : m.State) (v : Vars) → (run m (world s v) (on_sim_ready done)).final ≡ v
  unfolding run
  sim_ready_final s v =
      tell_final (singleline (codes "AT+CSMS=1") (codes "+CSMS:"))
        (tell (plain (codes "AT+CNMI=1,2,2,0,0")) done) s v
        (λ t. tell_final (plain (codes "AT+CNMI=1,2,2,0,0")) done t v (λ u. refl))

  -- What is done behind a change.
  SettlesAt : (RadioState → Program Payload → Program Payload) → RadioState → Type 0
  SettlesAt after new = (s : m.State) (v : Vars) → (run m (world s v) (after new done)).final ≡ v

  to_state_final :
      (after : RadioState → Program Payload → Program Payload) (new : RadioState) (s : m.State)
      (v : Vars)
      → SettlesAt after new
      → (run m (world s v) (to_state after new done)).final.radio ≡ new
  unfolding run SettlesAt
  to_state_final after new s v h = by_same (same new v.radio)
    where
      by_same :
          (b : Bool)
          → (run m
              (world s (record v { radio = new }))
              (if b then done else notify radio_state_changed null (after new done))).final.radio
            ≡ new
      by_same true = refl
      by_same false = ap (λ (u : Vars). u.radio) (h s (record v { radio = new }))

  after_change-SettlesAt :
      (new : RadioState) → is_sim_not_ready new ≡ false → SettlesAt after_change new
  unfolding SettlesAt run
  after_change-SettlesAt off h = λ s v. refl
  after_change-SettlesAt unavailable h = λ s v. refl
  after_change-SettlesAt sim_not_ready h = cc
  after_change-SettlesAt sim_locked_or_absent h = λ s v. refl
  after_change-SettlesAt sim_ready h = sim_ready_final
  after_change-SettlesAt (other n) h = λ s v. refl

  -- `setRadioState` of any state but RADIO_STATE_SIM_NOT_READY leaves the radio in that state, and in
  -- RADIO_STATE_UNAVAILABLE where the channel is closed, whatever the modem answers.
  pub set_radio_state_final :
      (w : World m.State) (new : RadioState)
      → is_sim_not_ready new ≡ false
      → (run m w (set_radio_state new done)).final.radio
        ≡ (if w.vars.closed then unavailable else new)
  unfolding run set_radio_state change_state SettlesAt
  set_radio_state_final w new h = by_closed w.vars.closed
    where
      by_closed :
          (b : Bool)
          → (run m w (to_state after_change (if b then unavailable else new) done)).final.radio
            ≡ (if b then unavailable else new)
      by_closed true =
          to_state_final after_change unavailable w.modem w.vars
            (after_change-SettlesAt unavailable refl)
      by_closed false =
          to_state_final after_change new w.modem w.vars (after_change-SettlesAt new h)

-- That a poll of the SIM card is asked for.
abbrev pub polls_again : List (Event Payload) → Bool
polls_again [] = false
polls_again (scheduled poll_sim_state ∷ es) = true
polls_again (e ∷ es) = polls_again es

-- What a poll of the SIM card comes to: it asks for another, or the radio is ready, or locked.
abbrev pub Polled : Trace Payload → Type 0
Polled t =
    (polls_again t.events ≡ true)
    ⊎ ((t.final.radio ≡ sim_ready) ⊎ (t.final.radio ≡ sim_locked_or_absent))

-- With the variables of an open channel, and the radio waiting for the SIM card.
abbrev pub waiting_for_sim : Vars → Vars
waiting_for_sim v = record v { radio = sim_not_ready; closed = false }

module _ (m : Modem) where
  sim_answer_rule :
      (Q : Program Payload → Type 0) (e : Option AtError) (r : Option Response)
      (k : SimStatus → Program Payload)
      → Q undefined
      → ((s : SimStatus) → Q (k s))
      → Q (sim_answer e r k)
  sim_answer_rule Q (some e) r k u h = h absent
  sim_answer_rule Q none none k u h = u
  sim_answer_rule Q none (some r) k u h = by_number (at_get_cme_error r) r.intermediates
    where
      by_lines :
          (lines : List Text)
          → Q (first_line lines (λ line. k (behind_colon (at_tok_start (some line)))))
      by_lines [] = u
      by_lines (line ∷ lines) = h _

      by_number : (z : ℤ) (lines : List Text) → Q (by_error z lines k)
      by_number (negsuc n) lines = h absent
      by_number (pos n) lines = elim (Bool-cases (n == 0)) [
        | inl e ↦ rw (e, if◌then◌else◌) (by_lines lines)
        | inr e ↦
            rw (e, if◌then◌else◌)
              (elim (Bool-cases (n == 14)) [
                | inl f ↦ rw (f, if◌then◌else◌) (h not_ready)
                | inr f ↦ rw (f, if◌then◌else◌) (h absent)
              ])
      ]

  PolledIf : m.State → Vars → Program Payload → Type 0
  PolledIf s v p =
      (run m (record { modem = s; vars = v }) p).status ≡ finished
      → Polled (run m (record { modem = s; vars = v }) p)

  polled_on :
      (s : m.State) (v : Vars) (sim : SimStatus) → PolledIf s (waiting_for_sim v) (on_poll sim done)
  unfolding PolledIf run change_state
  polled_on s v absent e = inr (inr refl)
  polled_on s v not_ready e = inl refl
  polled_on s v ready e = inr (
      inl (
        ap (λ (u : Vars). u.radio)
          (sim_ready_final m s (record (waiting_for_sim v) { radio = sim_ready }))))
  polled_on s v pin e = inr (inr refl)
  polled_on s v puk e = inr (inr refl)
  polled_on s v network_personalization e = inr (inr refl)

  -- While the radio waits for the SIM card and the channel is open, a poll that ends has asked for the
  -- next one, or has left the radio ready, or locked: the polling does not stop before.
  pub poll_sim_lem :
      (s : m.State) (v : Vars)
      → (run m (record { modem = s; vars = waiting_for_sim v }) (poll_sim done)).status ≡ finished
      → Polled (run m (record { modem = s; vars = waiting_for_sim v }) (poll_sim done))
  unfolding run poll_sim get_sim_status PolledIf
  poll_sim_lem s v = by_answer (m.answer s cpin true)
    where
      cpin : At
      cpin = singleline (codes "AT+CPIN?") (codes "+CPIN:")

      k : SimStatus → Program Payload
      k sim = on_poll sim done

      by_answer :
          (o : Option (Answer × m.State))
          → (on_answer (waiting_for_sim v) o (λ a t.
              run m
                (record { modem = t; vars = waiting_for_sim v })
                (sim_answer a.err a.response k))).status
            ≡ finished
          → Polled (
              then_trace (sent cpin) (
                on_answer (waiting_for_sim v) o (λ a t.
                  run m
                    (record { modem = t; vars = waiting_for_sim v })
                    (sim_answer a.err a.response k))))
      by_answer none e = cc
      by_answer (some (a, t)) e =
          sim_answer_rule (PolledIf t (waiting_for_sim v)) a.err a.response k (λ e. cc)
            (polled_on t v) e
