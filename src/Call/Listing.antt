-- ===== src/Call/Listing.antt =====
-- sxx-ril-call.c: the list of the current calls, from the lines of the modem to telephony.
use sxx_ril.Common.{
  Bool, true, false, none, some, List, [], ◌∷◌, map, ◌≡◌, ◌≢◌, ◌⊎◌, inl, inr, Option, refl, ap, ◌∙◌,
  Text, codes,
}
use sxx_ril.Channel.State.{Response}
use sxx_ril.Tok.Lines.{IsField}
use sxx_ril.Ril.{
  At, multiline, Modem, World, Event, sent, completed, scheduled, success, send_call_state_changed,
  finished, Trace, run, then_trace,
}
use sxx_ril.Ril.Failures.{run-send}
use sxx_ril.Ril.Payload.{Payload, calls}
use sxx_ril.Call.{
  RilCall, is_mode, CallState, active, holding, dialing, alerting, incoming, waiting,
}
use sxx_ril.Call.Clcc.{Line, line_of, IsInt32, call_from-line_of}
use sxx_ril.Call.Requests.{
  valid_calls, settled, need_repoll, repoll, request_get_current_calls, current_answer,
  report_calls,
}

-- A line of the modem; behind the fields that are read it ends, or goes on with a ',' and any text.
pub record Listed : Type 0 where
  pub line : Line
  pub behind : Option Text

abbrev pub text_of : Listed → Text
text_of l = line_of l.line l.behind

-- The call that a line tells of.
abbrev pub call_of : Listed → RilCall
call_of l = record {
  index = l.line.index;
  is_mt = l.line.is_mt;
  state = l.line.state;
  is_voice = is_mode 0 l.line.mode;
  is_mpty = l.line.is_mpty;
  number = some (l.line.number.text, l.line.toa);
}

-- Numbers of the range of an int, a call that is no data call, and a field for the number.
abbrev pub IsListed : Listed → Type 0
IsListed l =
    IsInt32 l.line.index
    × IsInt32 l.line.mode
    × IsInt32 l.line.toa
    × (is_mode 1 l.line.mode ≡ false)
    × IsField l.line.number

abbrev pub AllListed : List Listed → Type 0
AllListed [] = Unit
AllListed (l ∷ ls) = IsListed l × AllListed ls

valid_calls-text_of :
    (ls : List Listed) → AllListed ls → valid_calls (map text_of ls) ≡ map call_of ls
unfolding valid_calls
valid_calls-text_of [] h = refl
valid_calls-text_of (l ∷ ls) ((i, m, t, v, f), rest) =
    rw (call_from-line_of l.line l.behind i m t v f)
      (ap (λ cs. call_of l ∷ cs) (valid_calls-text_of ls rest))

abbrev repolls : Bool → List (Event Payload)
repolls true = scheduled send_call_state_changed ∷ []
repolls false = []

-- The call is being set up or comes in: it is neither active nor held.
abbrev pub IsChanging : Listed → Type 0
IsChanging l = (l.line.state ≢ active) × (l.line.state ≢ holding)

abbrev pub SomeChanging : List Listed → Type 0
SomeChanging [] = ⊥
SomeChanging (l ∷ ls) = IsChanging l ⊎ SomeChanging ls

settled-cases :
    (s : CallState)
    → ((settled s ≡ true) × ((s ≡ active) ⊎ (s ≡ holding)))
      ⊎ ((settled s ≡ false) × ((s ≢ active) × (s ≢ holding)))
settled-cases active = inl (refl, inl refl)
settled-cases holding = inl (refl, inr refl)
settled-cases dialing = inr (refl, ((λ e. cc), (λ e. cc)))
settled-cases alerting = inr (refl, ((λ e. cc), (λ e. cc)))
settled-cases incoming = inr (refl, ((λ e. cc), (λ e. cc)))
settled-cases waiting = inr (refl, ((λ e. cc), (λ e. cc)))

later :
    (l : Listed) (ls : List Listed)
    → (l.line.state ≡ active) ⊎ (l.line.state ≡ holding)
    → IsChanging l ⊎ SomeChanging ls
    → SomeChanging ls
later l ls (inl a) (inl c) = absurd (c.0 a)
later l ls (inr o) (inl c) = absurd (c.1 o)
later l ls s (inr c) = c

need_repoll-SomeChanging :
    (ls : List Listed) → SomeChanging ls → need_repoll (map call_of ls) ≡ true
unfolding need_repoll
need_repoll-SomeChanging [] h = elim h [ ]
need_repoll-SomeChanging (l ∷ ls) h = elim (settled-cases l.line.state) [
  | inl s ↦ rw s.0 (need_repoll-SomeChanging ls (later l ls s.1 h))
  | inr s ↦ rw s.0 refl
]

need_repoll-quiet : (ls : List Listed) → ¬ SomeChanging ls → need_repoll (map call_of ls) ≡ false
unfolding need_repoll
need_repoll-quiet [] h = refl
need_repoll-quiet (l ∷ ls) h = elim (settled-cases l.line.state) [
  | inl s ↦ rw s.0 (need_repoll-quiet ls (λ c. h (inr c)))
  | inr s ↦ absurd (h (inl s.1))
]

abbrev pub clcc : At
clcc = multiline (codes "AT+CLCC") (codes "+CLCC:")

abbrev pub listing : List Text → Response
listing lines = record { success = true; final_response = some (codes "OK"); intermediates = lines }

module _ (m : Modem) (w : World m.State) where
  repoll-run :
      (b : Bool)
      → ((run m w (repoll b)).events ≡ repolls b) × ((run m w (repoll b)).status ≡ finished)
  unfolding run
  repoll-run true = (refl, refl)
  repoll-run false = (refl, refl)

module _ (m : Modem) (w : World m.State) (t : m.State) (ls : List Listed) where
  listed_run :
      AllListed ls
      → m.answer w.modem clcc true
        ≡ some (record { err = none; response = some (listing (map text_of ls)) }, t)
      → ((run m w request_get_current_calls).events
          ≡ sent clcc
            ∷ completed success (calls (map call_of ls))
            ∷ repolls (need_repoll (map call_of ls)))
        × ((run m w request_get_current_calls).status ≡ finished)
  unfolding request_get_current_calls run
  listed_run h e =
      let same =
        run-send m w clcc true current_answer
          (record { err = none; response = some (listing (map text_of ls)) }) t e
        ∙ ap (λ cs. then_trace (sent clcc) (run m (record w { modem = t }) (report_calls cs)))
            (valid_calls-text_of ls h) in
      let polled = repoll-run m (record w { modem = t }) (need_repoll (map call_of ls)) in
      (
        ap (λ (r : Trace Payload). r.events) same
            ∙ ap (λ es. sent clcc ∷ completed success (calls (map call_of ls)) ∷ es) polled.0,
        ap (λ (r : Trace Payload). r.status) same ∙ polled.1,
      )

-- If AT+CLCC is answered with success and lines that tell of calls, one for each line, all of them
-- voice or fax calls with a well-formed number and in numbers of the range of an int, then the request
-- ends, and telephony gets these calls in their order, in one completion with success; behind it
-- another poll is asked for if one of the calls is neither active nor held, and none if all are active
-- or held.
pub request_get_current_calls_lem :
    (m : Modem) (w : World m.State) (t : m.State) (ls : List Listed)
    → AllListed ls
    → m.answer w.modem clcc true
      ≡ some (record { err = none; response = some (listing (map text_of ls)) }, t)
    → ((run m w request_get_current_calls).status ≡ finished)
      × (SomeChanging ls
          → (run m w request_get_current_calls).events
            ≡ sent clcc
              ∷ completed success (calls (map call_of ls))
              ∷ scheduled send_call_state_changed
              ∷ [])
      × (¬ SomeChanging ls
          → (run m w request_get_current_calls).events
            ≡ sent clcc ∷ completed success (calls (map call_of ls)) ∷ [])
request_get_current_calls_lem m w t ls h e =
    let r = listed_run m w t ls h e in
    let events = λ (b : Bool). sent clcc ∷ completed success (calls (map call_of ls)) ∷ repolls b in
    (
      r.1,
      λ changing. r.0 ∙ ap events (need_repoll-SomeChanging ls changing),
      λ quiet. r.0 ∙ ap events (need_repoll-quiet ls quiet),
    )
