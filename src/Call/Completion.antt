-- ===== src/Call/Completion.antt =====
-- sxx-ril-call.c: how often a request of call control is completed.
use sxx_ril.Common.{Bool, true, false, Option, none, some, ◌≡◌, refl, codes}
use sxx_ril.Channel.State.{AtError}
use sxx_ril.Ril.{
  plain, multiline, Responsive, finished, completions, Allowed, IsModem, Modem, World, run,
}
use sxx_ril.Ril.Once.{Completes, check-Completes, Settles, run-Settles, run_finishes}
use sxx_ril.Call.Requests.{
  CallRequest, hangup_waiting_or_background, hangup_foreground_resume_background,
  switch_waiting_or_holding_and_active, conference, explicit_call_transfer, udub, get_mute,
  last_call_fail_cause, get_current_calls, answer, dtmf_stop, separate_connection, set_mute, hangup,
  dial, dtmf, dtmf_start, on_call_request, request_set_mute, request_get_current_calls, on_error,
  failure, succeeded, repoll,
}

-- The requests that do not look at the response of a command before.
abbrev pub IsPlain : CallRequest → Type 0
IsPlain hangup_waiting_or_background = ⊥
IsPlain hangup_foreground_resume_background = ⊥
IsPlain (hangup line) = ⊥
IsPlain _ = Unit

repoll-Completes : (b : Bool) → Completes 0 (repoll b)
repoll-Completes true = refl
repoll-Completes false = refl

on_error-Completes : (e : Option AtError) → Completes 1 (on_error e failure succeeded)
on_error-Completes none = refl
on_error-Completes (some e) = refl

pub on_call_request-Completes : (q : CallRequest) → IsPlain q → Completes 1 (on_call_request q)
unfolding on_call_request request_set_mute request_get_current_calls
on_call_request-Completes hangup_waiting_or_background h = absurd h
on_call_request-Completes hangup_foreground_resume_background h = absurd h
on_call_request-Completes switch_waiting_or_holding_and_active h = λ a ok. refl
on_call_request-Completes conference h = λ a ok. refl
on_call_request-Completes explicit_call_transfer h = λ a ok. refl
on_call_request-Completes udub h = λ a ok. refl
on_call_request-Completes get_mute h = refl
on_call_request-Completes last_call_fail_cause h = refl
on_call_request-Completes get_current_calls h = λ a ok.
    check-Completes Allowed 1 a (multiline (codes "AT+CLCC") (codes "+CLCC:")) _ _ ok refl
      (λ r s i. repoll-Completes _)
on_call_request-Completes answer h =
    λ a ok. check-Completes Allowed 1 a (plain (codes "ATA")) _ _ ok refl (λ r s i. refl)
on_call_request-Completes dtmf_stop h = refl
on_call_request-Completes (separate_connection line) h = λ a ok. refl
on_call_request-Completes (set_mute mute) h = λ a ok. on_error-Completes a.err
on_call_request-Completes (hangup line) h = absurd h
on_call_request-Completes (dial address clir) h = λ a ok. refl
on_call_request-Completes (dtmf c) h = λ a ok. refl
on_call_request-Completes (dtmf_start c) h = λ a ok. refl

-- With a modem that keeps the promise of the channel, each of these requests is completed exactly
-- once if its run ends, and at most once if a command does not return; and it reads nothing that
-- is not set.
pub on_call_request-Settles :
    (m : Modem) (w : World m.State) (q : CallRequest)
    → IsModem m
    → IsPlain q
    → Settles 1 (run m w (on_call_request q))
on_call_request-Settles m w q i h =
    run-Settles m Allowed 1 (on_call_request q) w i (on_call_request-Completes q h)

-- If the modem also answers every command, then each of these requests ends, completed exactly once.
pub on_call_request_finishes :
    (m : Modem) (w : World m.State) (q : CallRequest)
    → IsModem m
    → Responsive m
    → IsPlain q
    → ((run m w (on_call_request q)).status ≡ finished)
      × (completions (run m w (on_call_request q)).events ≡ 1)
on_call_request_finishes m w q i r h =
    run_finishes m Allowed 1 (on_call_request q) w i r (on_call_request-Completes q h)
