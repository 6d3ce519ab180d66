-- ===== src/Ril.antt =====
-- What the handlers of requests and unsolicited lines have in common (sxx-ril.h and the calls of
-- telephony and of atchannel.c that they make): a handler is a program over these calls, and `run`
-- is its run with a modem, which is a parameter here.
use sxx_ril.Common.{
  ℕ, zero, suc, ◌+◌, Bool, true, false, Option, none, some, List, [], ◌∷◌, length, Text, ◌≡◌, ◌≢◌,
  ◌≤◌,
}
use sxx_ril.Common.Int.{ℤ, pos}
use sxx_ril.Filter.{RadioState}
use sxx_ril.Channel.State.{Response, AtError}
use sxx_ril.Channel.Cme.{at_get_cme_error}
pub mod Once
pub mod Failures
pub mod Payload
pub mod Samples
pub mod Steps

-- A call of `at_send_command`, `_singleline`, `_numeric`, `_sms` or `_multiline`.
pub data At : Type 0 where
  plain : Text → At
  singleline : Text → Text → At
  numeric : Text → At
  sms : Text → Text → Text → At
  multiline : Text → Text → At

-- What such a call returns, `none` being 0, and what it stores where `pp_outResponse` points.
pub record Answer : Type 0 where
  pub err : Option AtError
  pub response : Option Response

-- The RIL_E_* codes that the handlers use; one call passes the number of a request.
pub data RilError : Type 0 where
  success generic_failure request_not_supported password_incorrect radio_not_available : RilError
  mode_not_supported request_get_sim_status : RilError

-- The RIL_UNSOL_* codes that the handlers use.
pub data Unsol : Type 0 where
  call_state_changed new_sms new_sms_status_report on_ussd supp_svc_notification : Unsol
  sim_status_changed nitz_time_received radio_state_changed : Unsol
  signal_strength voice_network_state_changed : Unsol

-- The functions that the handlers give to `RIL_requestTimedCallback`, with their parameter.
pub data Callback : Type 0 where
  send_call_state_changed call_connected_job poll_sim_state on_sim_ready : Callback
  read_message_by_index delete_message_by_index : ℤ → Callback

-- The static variables: `sState`, `s_closed`, `ussdStatus`, `first_cfun` and `creg_value`.
pub record Vars : Type 0 where
  pub radio : RadioState
  pub closed : Bool
  pub ussd : Bool
  pub first_cfun : Bool
  pub creg_value : ℤ

-- The functions of other parts that a handler calls for what they do to the outside.
pub data Job : Type 0 where
  stop_pppd wait_for_pppd_down at_close exit : Job

-- A handler, as the calls that it makes; the flag of `send` is `pp_outResponse != NULL`, and
-- `undefined` is a NULL pointer that is read, or a variable that is not set. `P` is what a handler
-- passes to telephony.
pub data Program (P : Type 0) : Type 0 where
  done undefined : Program P
  send : At → Bool → (Answer → Program P) → Program P
  complete : RilError → P → Program P → Program P
  notify : Unsol → P → Program P → Program P
  schedule : Callback → Program P → Program P
  property_set : Text → Text → Program P → Program P
  get : (Vars → Program P) → Program P
  put : Vars → Program P → Program P
  invoke : Job → Program P → Program P

-- The modem behind the channel; `none` is a command that never returns.
pub record Modem : Type 1 where
  pub State : Type 0
  pub answer : State → At → Bool → Option (Answer × State)

pub record World (S : Type 0) : Type 0 where
  pub modem : S
  pub vars : Vars

pub data Event (P : Type 0) : Type 0 where
  sent : At → Event P
  completed : RilError → P → Event P
  notified : Unsol → P → Event P
  scheduled : Callback → Event P
  invoked : Job → Event P
  property : Text → Text → Event P

pub data Status : Type 0 where
  finished waiting faulty : Status

-- What a run does, how it ends, and the variables then.
pub record Trace (P : Type 0) : Type 0 where
  pub events : List (Event P)
  pub status : Status
  pub final : Vars

module _ {P : Type 0} where
  abbrev pub then_trace : Event P → Trace P → Trace P
  then_trace e t = record t { events = e ∷ t.events }

  abbrev pub ended : Status → Vars → Trace P
  ended status v = record { events = []; status = status; final = v }

  abbrev pub on_answer :
      {S : Type 0} → Vars → Option (Answer × S) → (Answer → S → Trace P) → Trace P
  on_answer v none k = ended waiting v
  on_answer v (some (a, s)) k = k a s

  unfoldable pub run : (m : Modem) → World m.State → Program P → Trace P
  run m w done = ended finished w.vars
  run m w undefined = ended faulty w.vars
  run m w (send at want k) =
      then_trace (sent at)
        (on_answer w.vars (m.answer w.modem at want) (λ a s. run m (record w { modem = s }) (k a)))
  run m w (complete e p rest) = then_trace (completed e p) (run m w rest)
  run m w (notify u p rest) = then_trace (notified u p) (run m w rest)
  run m w (schedule c rest) = then_trace (scheduled c) (run m w rest)
  run m w (property_set key value rest) = then_trace (property key value) (run m w rest)
  run m w (invoke job rest) = then_trace (invoked job) (run m w rest)
  run m w (get k) = run m w (k w.vars)
  run m w (put v rest) = run m (record w { vars = v }) rest

  -- How often the request was completed.
  abbrev pub completions : List (Event P) → ℕ
  completions [] = 0
  completions (completed e p ∷ es) = suc (completions es)
  completions (sent at ∷ es) = completions es
  completions (notified u p ∷ es) = completions es
  completions (scheduled c ∷ es) = completions es
  completions (property key value ∷ es) = completions es
  completions (invoked job ∷ es) = completions es

-- A success has a line.
abbrev pub HasLine : Bool → List Text → Type 0
HasLine true [] = ⊥
HasLine _ _ = Unit

-- A command for one line gets it, if its response is a success.
abbrev pub IsReady : At → Response → Type 0
IsReady (plain c) r = Unit
IsReady (multiline c p) r = Unit
IsReady _ r = HasLine r.success r.intermediates

-- What the channel promises of an answer: with no error, there is the response if it is wanted.
abbrev pub AllowedOn : At → Bool → Option AtError → Option Response → Type 0
AllowedOn at want (some e) r = Unit
AllowedOn at true none none = ⊥
AllowedOn at true none (some r) = IsReady at r
AllowedOn at false none none = Unit
AllowedOn at false none (some r) = ⊥

abbrev pub Allowed : At → Bool → Answer → Type 0
Allowed at want a = AllowedOn at want a.err a.response

-- All that a modem answers is `Good`.
abbrev pub Keeps : Modem → (At → Bool → Answer → Type 0) → Type 0
Keeps m Good =
    (s t : m.State) (at : At) (want : Bool) (a : Answer)
    → m.answer s at want ≡ some (a, t)
    → Good at want a

abbrev pub IsModem : Modem → Type 0
IsModem m = Keeps m Allowed

-- "+CME ERROR: 0" is a failure of the phone, and the code takes it for a success.
abbrev pub PhoneWorks : Option Response → Type 0
PhoneWorks none = Unit
PhoneWorks (some r) = at_get_cme_error r ≡ pos 0 → r.success ≡ true

abbrev pub Steady : At → Bool → Answer → Type 0
Steady at want a = Allowed at want a × PhoneWorks a.response

abbrev pub IsSteady : Modem → Type 0
IsSteady m = Keeps m Steady

-- Every command returns.
abbrev pub Responsive : Modem → Type 0
Responsive m = (s : m.State) (at : At) (want : Bool) → m.answer s at want ≢ none
