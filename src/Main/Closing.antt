-- ===== src/Main/Closing.antt =====
-- sxx-ril.c: the end of the channel, and the requests behind it.
use sxx_ril.Common.{
  ℕ, suc, Bool, true, false, List, [], ◌∷◌, ◌≡◌, ◌≢◌, refl, sym, ap, ◌∙◌, if◌then◌else◌,
}
use mathlib.Core.Path.{subst}
use sxx_ril.Filter
use sxx_ril.Ril.{
  Modem, World, Vars, Event, sent, finished, Trace, run, done, completions, notify,
  radio_state_changed,
}
use sxx_ril.Ril.Payload.{Payload, null}
use sxx_ril.Radio.{set_radio_state, change_state, same}
use sxx_ril.Main.{RilRequest, handler, on_at_reader_closed}
use sxx_ril.Main.Names.{name_of, on_request, filtered}

-- How many commands are sent.
abbrev pub commands : List (Event Payload) → ℕ
commands [] = 0
commands (sent at ∷ es) = suc (commands es)
commands (e ∷ es) = commands es

-- A run that ends, with its commands and its completions.
abbrev pub EndsWith : ℕ → ℕ → Trace Payload → Type 0
EndsWith c n t = (t.status ≡ finished) × (commands t.events ≡ c) × (completions t.events ≡ n)

-- When the reader has closed, the handler ends without a command, and leaves the radio unavailable
-- and the module closed, whatever the state before.
pub on_at_reader_closed_lem :
    (m : Modem) (w : World m.State)
    → EndsWith 0 0 (run m w on_at_reader_closed)
      × ((run m w on_at_reader_closed).final
          ≡ record w.vars { radio = Filter.unavailable; closed = true })
unfolding run on_at_reader_closed set_radio_state change_state
on_at_reader_closed_lem m w = by_same (same Filter.unavailable w.vars.radio)
  where
    closed_vars : Vars
    closed_vars = record w.vars { radio = Filter.unavailable; closed = true }

    rest : Bool → Trace Payload
    rest b =
        run m (record w { vars = closed_vars })
          (if b then done else notify radio_state_changed null done)

    by_same : (b : Bool) → EndsWith 0 0 (rest b) × ((rest b).final ≡ closed_vars)
    by_same true = ((refl, refl, refl), refl)
    by_same false = ((refl, refl, refl), refl)

-- While the radio is unavailable, the filter refuses.
refused_when_unavailable :
    (r : Filter.Request)
    → r ≢ Filter.get_sim_status
    → (c : Filter.Code) × (Filter.request_state_filter Filter.unavailable r ≡ Filter.refused c)
unfolding Filter.request_state_filter
refused_when_unavailable Filter.get_sim_status ne = absurd (ne refl)
refused_when_unavailable Filter.write_sms_to_sim ne = (Filter.generic_failure, refl)
refused_when_unavailable Filter.delete_sms_on_sim ne = (Filter.generic_failure, refl)
refused_when_unavailable Filter.screen_state ne = (Filter.generic_failure, refl)
refused_when_unavailable _ ne = (Filter.radio_not_available, refl)

-- While the radio is unavailable, every request but RIL_REQUEST_GET_SIM_STATUS ends, completed once
-- and with no command sent.
pub on_request_unavailable :
    (number : RilRequest → ℕ) (m : Modem) (w : World m.State) (q : RilRequest)
    → w.vars.radio ≡ Filter.unavailable
    → name_of number q ≢ Filter.get_sim_status
    → EndsWith 0 1 (run m w (on_request number q))
unfolding run on_request
on_request_unavailable number m w q u ne =
    let c = refused_when_unavailable (name_of number q) ne in
    subst (λ o. EndsWith 0 1 (run m w (filtered o (handler q))))
      (sym (ap (λ s. Filter.request_state_filter s (name_of number q)) u ∙ c.1)) (refl, refl, refl)
