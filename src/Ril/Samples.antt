-- ===== src/Ril/Samples.antt =====
-- Two modems for runs of the handlers: one that answers every command with a success, and one that
-- fails every command.
use sxx_ril.Common.{
  ℕ, Bool, true, false, Option, none, some, [], ◌∷◌, codes, refl, ap, if◌then◌else◌,
}
use mathlib.Core.Path.{subst}
use sxx_ril.Common.Int.{pos}
use sxx_ril.Filter.{RadioState}
use sxx_ril.Channel.State.{Response, generic}
use sxx_ril.Ril.{
  At, plain, singleline, numeric, sms, multiline, Answer, Modem, Vars, IsModem, Steady, IsSteady,
  Responsive,
}

abbrev pub ok_response : Response
ok_response = record {
  success = true;
  final_response = some (codes "OK");
  intermediates = codes "+CPIN: READY" ∷ [];
}

abbrev pub ok_answer : Bool → Answer
ok_answer want = record { err = none; response = if want then some ok_response else none }

abbrev pub ok_modem : Modem
ok_modem = record { State = ℕ; answer = λ s at want. some (ok_answer want, s) }

ok_answer-Steady : (at : At) (want : Bool) → Steady at want (ok_answer want)
ok_answer-Steady (plain c) true = (tt, λ e. refl)
ok_answer-Steady (singleline c p) true = (tt, λ e. refl)
ok_answer-Steady (numeric c) true = (tt, λ e. refl)
ok_answer-Steady (sms c d p) true = (tt, λ e. refl)
ok_answer-Steady (multiline c p) true = (tt, λ e. refl)
ok_answer-Steady at false = (tt, tt)

-- The answer in a result.
abbrev answered : Option (Answer × ℕ) → Answer
answered none = ok_answer false
answered (some (a, s)) = a

pub ok_modem-IsSteady : IsSteady ok_modem
ok_modem-IsSteady = λ s t at want a e.
    subst (λ (b : Answer). Steady at want b) (ap answered e) (ok_answer-Steady at want)

pub ok_modem-IsModem : IsModem ok_modem
ok_modem-IsModem = λ s t at want a e. (ok_modem-IsSteady s t at want a e).0

pub ok_modem-Responsive : Responsive ok_modem
ok_modem-Responsive = λ s at want e. cc

abbrev pub failed_answer : Answer
failed_answer = record { err = some generic; response = none }

abbrev pub failing_modem : Modem
failing_modem = record { State = ℕ; answer = λ s at want. some (failed_answer, s) }

-- The variables with the radio in a state, and the channel open.
abbrev pub vars_in : RadioState → Vars
vars_in s = record {
  radio = s;
  closed = false;
  ussd = false;
  first_cfun = true;
  creg_value = pos 0;
}
