-- ===== src/Call/Hangup.antt =====
-- sxx-ril-call.c: what hanging up held calls comes to.
use sxx_ril.Common.{
  ℕ, suc, Bool, true, false, Option, none, some, List, [], ◌∷◌, ◌≡◌, refl, ap, ◌∙◌, if◌then◌else◌,
  Text,
}
use sxx_ril.Channel.State.{Response, AtError}
use sxx_ril.Ril.{
  plain, Answer, Program, Modem, World, Event, completed, success, Trace, run, on_answer, send,
}
use sxx_ril.Ril.Failures.{run-send}
use sxx_ril.Ril.Payload.{Payload}
use sxx_ril.Ril.Steps.{checked}
use sxx_ril.Call.Requests.{request_hangup_held, or_chup, after_chup, chup, succeeded}

-- How often success is reported.
abbrev pub successes : List (Event Payload) → ℕ
successes [] = 0
successes (completed success p ∷ es) = suc (successes es)
successes (e ∷ es) = successes es

abbrev pub Unsuccessful : Option Response → Type 0
Unsuccessful none = Unit
Unsuccessful (some r) = r.success ≡ false

module _ (m : Modem) where
  Unreported : World m.State → Program Payload → Type 0
  Unreported w p = successes (run m w p).events ≡ 0

  after_chup-Unreported :
      (w : World m.State) (e : Option AtError) (r : Option Response)
      → Unsuccessful r
      → Unreported w (after_chup e r)
  unfolding run Unreported
  after_chup-Unreported w (some e) r h = refl
  after_chup-Unreported w none none h = refl
  after_chup-Unreported w none (some r) h = rw (h, if◌then◌else◌) refl

  chup-Unreported :
      (w : World m.State) (r : Option Response)
      → Unsuccessful r
      → Unreported w (send chup false (λ b. after_chup b.err r))
  unfolding run Unreported
  chup-Unreported w r h = by_answer (m.answer w.modem chup false)
    where
      by_answer :
          (o : Option (Answer × m.State))
          → successes
              (on_answer w.vars o
                (λ b t. run m (record w { modem = t }) (after_chup b.err r))).events
            ≡ 0
      by_answer none = refl
      by_answer (some (b, t)) = after_chup-Unreported (record w { modem = t }) b.err r h

  or_chup-Unreported :
      (w : World m.State) (e : Option AtError) (r : Option Response)
      → Unsuccessful r
      → Unreported w (checked e r (send chup false (λ b. after_chup b.err r)) (λ q. succeeded))
  unfolding Unreported run
  or_chup-Unreported w (some e) r h = chup-Unreported w r h
  or_chup-Unreported w none none h = refl
  or_chup-Unreported w none (some r) h = by_success r.success h
    where
      by_success :
          (b : Bool)
          → b ≡ false
          → successes
              (run m w
                (if b then succeeded else send chup false (λ c. after_chup c.err (some r)))).events
            ≡ 0
      by_success true e = cc
      by_success false e = chup-Unreported w (some r) h

  -- When the first command is not answered with a success, then the request never reports one,
  -- although AT+CHUP may have hung up: the response that is tested behind it is that of the first
  -- command.
  pub successes-request_hangup_held :
      (w : World m.State) (command : Text) (a : Answer) (t : m.State)
      → m.answer w.modem (plain command) true ≡ some (a, t)
      → Unsuccessful a.response
      → successes (run m w (request_hangup_held command)).events ≡ 0
  unfolding Unreported
  successes-request_hangup_held w command a t e h =
      ap (λ (r : Trace Payload). successes r.events)
        (run-send m w (plain command) true or_chup a t e)
      ∙ or_chup-Unreported (record w { modem = t }) a.err a.response h
