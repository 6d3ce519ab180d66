-- ===== src/Channel/Modem.antt =====
-- atchannel.c as the handlers see it: the channel keeps what they rely on, whatever is written and
-- whatever happens while their commands wait.
use sxx_ril.Common.{
  ℕ, suc, Bool, true, false, ◌&&◌, Option, none, some, List, [], ◌∷◌, if◌then◌else◌, Text, ◌≡◌,
  refl, ap,
}
use mathlib.Core.Path.{subst}
use sxx_ril.Channel.Lines.{check_need_protect}
use sxx_ril.Channel.State.{Channel, Response, AtError, CommandType, timed_out, invalid_response}
use sxx_ril.Channel.Process.{is_empty}
use sxx_ril.Channel.Process.Rule.{Prefixed}
use sxx_ril.Channel.Write.{WriteResult}
use sxx_ril.Channel.Command.Idle.{Settled, at_send_command_full_nolock-Settled}
use sxx_ril.Channel.Command.{
  Event, Reply, returned, running, crashed, Command, call_on_timeout, require_intermediate,
  at_send_command_full_nolock, at_send_command_full, at_send_command, at_send_command_singleline,
  at_send_command_numeric, at_send_command_sms, at_send_command_multiline,
}
use sxx_ril.Ril.{
  At, plain, singleline, numeric, sms, multiline, Answer, Modem, HasLine, AllowedOn, Allowed,
  IsModem,
}

-- The channel, and how many commands have been sent.
pub record ChannelState : Type 0 where
  pub channel : Channel
  pub sent : ℕ

-- What happens during a command.
pub record Happening : Type 0 where
  pub writes : List WriteResult
  pub events : List Event

-- The function for each command, on the main thread.
abbrev pub call : Bool → Channel → At → Bool → List WriteResult → List Event → Reply
call callback c (plain command) = at_send_command false callback c command
call callback c (singleline command prefix) =
    at_send_command_singleline false callback c command prefix
call callback c (numeric command) = at_send_command_numeric false callback c command
call callback c (sms command pdu prefix) = at_send_command_sms false callback c command pdu prefix
call callback c (multiline command prefix) =
    at_send_command_multiline false callback c command prefix

-- The callback on a timeout, `onATTimeout`, ends the process.
abbrev pub ends_process : Bool → Option AtError → Bool
ends_process true (some timed_out) = true
ends_process _ _ = false

-- The answer that a handler gets; it gets none from a command that still waits, that crashes, or whose
-- timeout ends the process.
abbrev pub answer_of : Bool → ℕ → Reply → Option (Answer × ChannelState)
answer_of callback n (returned out err c es) =
    if ends_process callback err
    then none
    else some (record { err = err; response = out }, record { channel = c; sent = n })
answer_of callback n (running c es) = none
answer_of callback n crashed = none

-- The modem behind a channel, `happens` being what is written and received in each command.
abbrev pub channel_modem : Bool → (ℕ → Happening) → Modem
channel_modem callback happens = record {
  State = ChannelState;
  answer = λ s at want.
      answer_of callback (suc s.sent)
        (call callback s.channel at want (happens s.sent).writes (happens s.sent).events);
}

-- With no error there is a response if one is wanted.
abbrev Wanted : Bool → Reply → Type 0
Wanted want (returned none none c es) = want ≡ false
Wanted want (returned (some r) none c es) = want ≡ true
Wanted want _ = Unit

-- And a success has a line.
abbrev Lined : Reply → Type 0
Lined (returned (some r) none c es) = HasLine r.success r.intermediates
Lined _ = Unit

Wanted-Settled :
    (type : CommandType) (want : Bool) (r : Reply) → Settled type want r → Wanted want r
Wanted-Settled type want crashed h = tt
Wanted-Settled type want (running c es) h = tt
Wanted-Settled type want (returned none (some e) c es) h = tt
Wanted-Settled type want (returned (some r) (some e) c es) h = tt
Wanted-Settled type want (returned none none c es) h = h.1
Wanted-Settled type want (returned (some r) none c es) h = h.1

Wanted-call_on_timeout :
    (want callback : Bool) (r : Reply) → Wanted want r → Wanted want (call_on_timeout callback r)
Wanted-call_on_timeout want true (returned none (some timed_out) c es) h = tt
Wanted-call_on_timeout want true (returned (some r) (some timed_out) c es) h = tt
Wanted-call_on_timeout want _ r h = h

Wanted-require_intermediate :
    (want : Bool) (r : Reply) → Wanted want r → Wanted want (require_intermediate r)
Wanted-require_intermediate want (returned (some r) none c es) h =
    by_test (r.success && is_empty r.intermediates)
  where
    by_test :
        (b : Bool)
        → Wanted want
            (if b then returned none (some invalid_response) c es else returned (some r) none c es)
    by_test true = tt
    by_test false = h
Wanted-require_intermediate want r h = h

has_line : (b : Bool) (lines : List Text) → (b && is_empty lines) ≡ false → HasLine b lines
has_line true [] e = cc
has_line false [] e = tt
has_line true (line ∷ lines) e = tt
has_line false (line ∷ lines) e = tt

Lined-require_intermediate : (r : Reply) → Lined (require_intermediate r)
Lined-require_intermediate (returned (some r) none c es) =
    by_test (r.success && is_empty r.intermediates) refl
  where
    by_test :
        (b : Bool)
        → (r.success && is_empty r.intermediates) ≡ b
        → Lined
            (if b then returned none (some invalid_response) c es else returned (some r) none c es)
    by_test true e = tt
    by_test false e = has_line r.success r.intermediates e
Lined-require_intermediate r = tt

Wanted-full :
    (callback : Bool) (c : Channel) (k : Command) (ws : List WriteResult) (es : List Event)
    → Prefixed k.type k.response_prefix
    → Wanted k.want (at_send_command_full false callback c k ws es)
unfolding at_send_command_full
Wanted-full callback c k ws es p = protecting (check_need_protect k.command)
  where
    wanted :
        (j : Command)
        → Prefixed j.type j.response_prefix
        → Wanted j.want (call_on_timeout callback (at_send_command_full_nolock c j ws es))
    wanted j q =
        Wanted-call_on_timeout j.want callback _
          (Wanted-Settled j.type j.want _ (at_send_command_full_nolock-Settled c j ws es q).0)

    protecting :
        (b : Bool)
        → Wanted k.want (
            call_on_timeout callback (
              at_send_command_full_nolock c
                (if b then record k { timeout_msec = 5000 } else k)
                ws
                es))
    protecting true = wanted (record k { timeout_msec = 5000 }) p
    protecting false = wanted k p

-- What a reply makes of the answer.
AllowedReply : At → Bool → Reply → Type 0
AllowedReply at want (returned out err c es) = AllowedOn at want err out
AllowedReply at want _ = Unit

-- For a command without a line to wait for.
unready :
    (at : At) (want : Bool) (r : Reply)
    → ((q : Response) → want ≡ true → AllowedOn at want none (some q))
    → Wanted want r
    → AllowedReply at want r
unfolding AllowedReply
unready at want (returned out (some e) c es) i h = tt
unready at true (returned none none c es) i h = cc
unready at false (returned none none c es) i h = tt
unready at want (returned (some q) none c es) i h = i q h
unready at want (running c es) i h = tt
unready at want crashed i h = tt

-- For a command for one line.
ready :
    (at : At) (want : Bool) (r : Reply)
    → ((q : Response)
        → want ≡ true
        → HasLine q.success q.intermediates
        → AllowedOn at want none (some q))
    → Wanted want r
    → Lined r
    → AllowedReply at want r
unfolding AllowedReply
ready at want (returned out (some e) c es) i h l = tt
ready at true (returned none none c es) i h l = cc
ready at false (returned none none c es) i h l = tt
ready at want (returned (some q) none c es) i h l = i q h l
ready at want (running c es) i h l = tt
ready at want crashed i h l = tt

module _ (callback : Bool) (c : Channel) (want : Bool) (ws : List WriteResult)
    (es : List Event) where
  call-AllowedReply : (at : At) → AllowedReply at want (call callback c at want ws es)
  unfolding at_send_command at_send_command_singleline at_send_command_numeric at_send_command_sms
      at_send_command_multiline
  call-AllowedReply (plain command) =
      unready (plain command) want _ (by_want want) (Wanted-full callback c _ ws es tt)
    where
      by_want : (b : Bool) (q : Response) → b ≡ true → AllowedOn (plain command) b none (some q)
      by_want true q e = tt
      by_want false q e = cc
  call-AllowedReply (multiline command prefix) =
      unready (multiline command prefix) want _ (by_want want) (Wanted-full callback c _ ws es tt)
    where
      by_want :
          (b : Bool) (q : Response)
          → b ≡ true
          → AllowedOn (multiline command prefix) b none (some q)
      by_want true q e = tt
      by_want false q e = cc
  call-AllowedReply (singleline command prefix) =
      ready (singleline command prefix) want _ (by_want want)
        (Wanted-require_intermediate want _ (Wanted-full callback c _ ws es tt))
        (Lined-require_intermediate _)
    where
      by_want :
          (b : Bool) (q : Response)
          → b ≡ true
          → HasLine q.success q.intermediates
          → AllowedOn (singleline command prefix) b none (some q)
      by_want true q e l = l
      by_want false q e l = cc
  call-AllowedReply (numeric command) =
      ready (numeric command) want _ (by_want want)
        (Wanted-require_intermediate want _ (Wanted-full callback c _ ws es tt))
        (Lined-require_intermediate _)
    where
      by_want :
          (b : Bool) (q : Response)
          → b ≡ true
          → HasLine q.success q.intermediates
          → AllowedOn (numeric command) b none (some q)
      by_want true q e l = l
      by_want false q e l = cc
  call-AllowedReply (sms command pdu prefix) =
      ready (sms command pdu prefix) want _ (by_want want)
        (Wanted-require_intermediate want _ (Wanted-full callback c _ ws es tt))
        (Lined-require_intermediate _)
    where
      by_want :
          (b : Bool) (q : Response)
          → b ≡ true
          → HasLine q.success q.intermediates
          → AllowedOn (sms command pdu prefix) b none (some q)
      by_want true q e l = l
      by_want false q e l = cc

Allowed-answer :
    (callback : Bool) (n : ℕ) (at : At) (want : Bool) (r : Reply) (a : Answer) (t : ChannelState)
    → AllowedReply at want r
    → answer_of callback n r ≡ some (a, t)
    → Allowed at want a
unfolding AllowedReply
Allowed-answer callback n at want (returned out err c es) a t h e =
    by_end (ends_process callback err) e
  where
    first : Option (Answer × ChannelState) → Answer
    first none = record { err = err; response = out }
    first (some (b, u)) = b

    given : Option (Answer × ChannelState)
    given = some (record { err = err; response = out }, record { channel = c; sent = n })

    by_end : (b : Bool) → (if b then none else given) ≡ some (a, t) → Allowed at want a
    by_end true e = cc
    by_end false e = subst (λ (b : Answer). Allowed at want b) (ap first e) h
Allowed-answer callback n at want (running c es) a t h e = cc
Allowed-answer callback n at want crashed a t h e = cc

-- From any state of the channel, whatever each write returns and whatever lines, timeouts and
-- closings come while a command waits: a command that returns 0 has left a response exactly if one
-- was wanted, and a success of a command for one line has a line.
pub channel_modem-Allowed :
    (callback : Bool) (happens : ℕ → Happening) (s t : ChannelState) (at : At) (want : Bool)
    (a : Answer)
    → (channel_modem callback happens).answer s at want ≡ some (a, t)
    → Allowed at want a
channel_modem-Allowed callback happens s t at want a =
    Allowed-answer callback (suc s.sent) at want
      (call callback s.channel at want (happens s.sent).writes (happens s.sent).events) a t
      (call-AllowedReply callback s.channel want (happens s.sent).writes (happens s.sent).events at)

-- So a channel is a modem as the handlers rely on it.
pub channel_modem-IsModem :
    (callback : Bool) (happens : ℕ → Happening) → IsModem (channel_modem callback happens)
channel_modem-IsModem = channel_modem-Allowed
