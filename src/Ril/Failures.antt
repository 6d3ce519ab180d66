-- ===== src/Ril/Failures.antt =====
-- What follows when a command fails.
use sxx_ril.Common.{Bool, true, false, Option, none, some, ◌≡◌, refl, ap, ◌∙◌, if◌then◌else◌}
use sxx_ril.Channel.State.{Response, AtError}
use sxx_ril.Ril.{At, Answer, Program, send, Modem, World, run, then_trace, on_answer, sent}
use sxx_ril.Ril.Steps.{check, checked}

abbrev pub FailedOn : Option AtError → Option Response → Type 0
FailedOn (some e) r = Unit
FailedOn none none = ⊥
FailedOn none (some r) = r.success ≡ false

-- The command has an error, or a response that is no success.
abbrev pub Failed : Answer → Type 0
Failed a = FailedOn a.err a.response

module _ {P : Type 0} where
  pub check-Failed :
      (a : Answer) (fails : Program P) (holds : Response → Program P)
      → Failed a
      → check a fails holds ≡ fails
  check-Failed a fails holds h = by_cases a.err a.response h
    where
      by_cases :
          (e : Option AtError) (r : Option Response)
          → FailedOn e r
          → checked e r fails holds ≡ fails
      by_cases (some e) r h = refl
      by_cases none none h = absurd h
      by_cases none (some r) h = rw (h, if◌then◌else◌) refl

  pub run-send :
      (m : Modem) (w : World m.State) (at : At) (want : Bool) (k : Answer → Program P) (a : Answer)
      (t : m.State)
      → m.answer w.modem at want ≡ some (a, t)
      → run m w (send at want k) ≡ then_trace (sent at) (run m (record w { modem = t }) (k a))
  unfolding run
  run-send m w at want k a t e =
      ap
        (λ o.
          then_trace (sent at) (on_answer w.vars o (λ a s. run m (record w { modem = s }) (k a))))
        e

  -- A command that fails, and what the handler does then.
  pub run-Failed :
      (m : Modem) (w : World m.State) (at : At) (fails : Program P) (holds : Response → Program P)
      (a : Answer) (t : m.State)
      → m.answer w.modem at true ≡ some (a, t)
      → Failed a
      → run m w (send at true (λ b. check b fails holds))
        ≡ then_trace (sent at) (run m (record w { modem = t }) fails)
  run-Failed m w at fails holds a t e f =
      run-send m w at true (λ b. check b fails holds) a t e
      ∙ ap (λ p. then_trace (sent at) (run m (record w { modem = t }) p))
          (check-Failed a fails holds f)
