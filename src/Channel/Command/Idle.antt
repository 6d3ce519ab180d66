-- ===== src/Channel/Command/Idle.antt =====
-- atchannel.c: how a command ends, whatever happens while it waits.
use sxx_ril.Common.{
  ap, ◌∙◌, ◌==◌, Bool, true, false, not, ◌&&◌, Option, none, some, List, [], ◌∷◌, if◌then◌else◌,
  Text, ◌≡◌, refl, sym, arith, Bool-cases, inl, inr,
}
use mathlib.Core.List.{reverse}
use mathlib.Core.Path.{subst}
use sxx_ril.Channel.State.{
  Channel, Response, Effect, CommandType, no_result, numeric, singleline, multiline,
  clear_pending_command, AtError, generic, command_pending, channel_closed, timed_out, put,
}
use sxx_ril.Channel.Process.Rule.{
  Prefixed, Bounded, IsChannel, Holds, Tested, takes_line-Tested, pending_of, process_line_rule,
}
use sxx_ril.Channel.Process.{Outcome, stepped, fault, process_line, process_intermediate}
use sxx_ril.Channel.Write.{WriteResult, Status, success, write_error, closed, blocked, writeline}
use sxx_ril.Channel.Command.{
  Event, receive, reader_closes, wake, timeout, Reply, returned, running, crashed, after, resume,
  finish, must_wait, on_wake, await, Command, start, after_write, send_on, reverse_intermediates,
  at_send_command_full_nolock, is_none,
}

-- No command is pending.
abbrev pub IsIdle : Channel → Type 0
IsIdle c = (c.response ≡ none) × (c.response_prefix ≡ none) × (c.sms_pdu ≡ none)

abbrev Present : Option Response → Type 0
Present none = ⊥
Present (some r) = Unit {0}

-- A command of this type is waiting.
abbrev Waits : CommandType → Channel → Type 0
Waits type c = IsChannel c × Present c.response × (c.type ≡ type)

-- What is behind a successful return of a command of this type that wants its response.
abbrev pub Answered : CommandType → Channel → Response → Type 0
Answered type c r =
    ((l : Text) × (r.final_response ≡ some l))
    × (c.reader_closed ≡ false)
    × Bounded type r.intermediates

-- How a command of this type ends, `want` being whether it has room for a response.
abbrev pub Settled : CommandType → Bool → Reply → Type 0
Settled type want crashed = ⊥
Settled type want (running c es) = Unit {0}
Settled type want (returned out (some e) c es) = IsIdle c
Settled type want (returned none none c es) = IsIdle c × (want ≡ false) × (c.reader_closed ≡ false)
Settled type want (returned (some r) none c es) = IsIdle c × (want ≡ true) × Answered type c r

Settled-after :
    (type : CommandType) (want : Bool) (done : List Effect) (r : Reply)
    → Settled type want r
    → Settled type want (after done r)
Settled-after type want done crashed h = h
Settled-after type want done (running c es) h = h
Settled-after type want done (returned out (some e) c es) h = h
Settled-after type want done (returned none none c es) h = h
Settled-after type want done (returned (some r) none c es) h = h

Present-some : (c : Channel) (r : Response) → c.response ≡ some r → Present c.response
Present-some c r e = subst Present (sym e) tt

Waits-intermediate :
    (type : CommandType) (c : Channel) (r : Response) (line : Text) (take : Option Bool)
    → c.response ≡ some r
    → Waits type c
    → Tested c.type c.response_prefix r line take
    → Holds (λ d es. Waits type d) (process_intermediate take c r line)
Waits-intermediate type c r line none at h t = t
Waits-intermediate type c r line (some true) at (h, p, e) t = (((pending_of c r at h).0, t), tt, e)
Waits-intermediate type c r line (some false) at h t = h

process_line-Waits :
    (type : CommandType) (c : Channel) (line : Text)
    → Waits type c
    → Holds (λ d es. Waits type d) (process_line c line)
process_line-Waits type c line (h, p, e) =
    process_line_rule (λ d es. Waits type d) c line (h, p, e)
      (λ r flag at fin. (pending_of c r at h, tt, e)) (λ pdu at prompt. (h, p, e))
      (λ r at.
        Waits-intermediate type c r line _ at (h, p, e)
          (takes_line-Tested c.type c.response_prefix r line (pending_of c r at h).0))

Bounded-reverse :
    (type : CommandType) (lines : List Text) → Bounded type lines → Bounded type (reverse lines)
Bounded-reverse no_result [] h = refl
Bounded-reverse no_result (l ∷ lines) h = cc
Bounded-reverse numeric [] h = h
Bounded-reverse numeric (l ∷ []) h = h
Bounded-reverse numeric (l ∷ m ∷ lines) h = absurd (omega arith)
Bounded-reverse singleline [] h = h
Bounded-reverse singleline (l ∷ []) h = h
Bounded-reverse singleline (l ∷ m ∷ lines) h = absurd (omega arith)
Bounded-reverse multiline lines h = tt

some_of : (o : Option Text) → is_none o ≡ false → (l : Text) × (o ≡ some l)
some_of none h = cc
some_of (some l) h = (l, refl)

Answered-reversed :
    (type : CommandType) (c : Channel) (r : Response)
    → c.response ≡ some r
    → Waits type c
    → (is_none r.final_response && not c.reader_closed) ≡ false
    → c.reader_closed ≡ false
    → Answered type (clear_pending_command c) (reverse_intermediates r)
Answered-reversed type c r at (h, p, e) ended opened =
    (some_of r.final_response (ground arith), opened, Bounded-reverse type r.intermediates bounded)
  where
    bounded : Bounded type r.intermediates
    bounded = subst (λ t. Bounded t r.intermediates) e (pending_of c r at h).1

finish-cases :
    (type : CommandType) (want closing : Bool) (c : Channel) (r : Response)
    → c.reader_closed ≡ closing
    → c.response ≡ some r
    → Waits type c
    → (is_none r.final_response && not c.reader_closed) ≡ false
    → Settled type want (
        returned
          (if want then some (reverse_intermediates r) else none)
          (if closing then some channel_closed else none)
          (clear_pending_command c)
          [])
finish-cases type want true c r b at w ended = (refl, refl, refl)
finish-cases type true false c r b at w ended =
    ((refl, refl, refl), refl, Answered-reversed type c r at w ended b)
finish-cases type false false c r b at w ended = ((refl, refl, refl), refl, b)

finish-Settled :
    (type : CommandType) (want : Bool) (c : Channel) (r : Response)
    → c.response ≡ some r
    → Waits type c
    → (is_none r.final_response && not c.reader_closed) ≡ false
    → Settled type want (finish want c (some r))
finish-Settled type want c r = finish-cases type want c.reader_closed c r refl

on_wake-Settled :
    (type : CommandType) (want : Bool) (c : Channel) (o : Option Response) (rest : Reply)
    → c.response ≡ o
    → Waits type c
    → Settled type want rest
    → Settled type want (on_wake want c (must_wait c o) rest)
on_wake-Settled type want c none rest at (h, p, e) s = absurd (subst Present at p)
on_wake-Settled type want c (some r) rest at w s =
    elim (Bool-cases (is_none r.final_response && not c.reader_closed)) [
      | inl waits ↦ rw waits s
      | inr ended ↦ rw ended (
          subst (λ o. Settled type want (finish want c o)) (sym at)
            (finish-Settled type want c r at w ended))
    ]

resume-Settled :
    (type : CommandType) (want : Bool) (k : Channel → Reply) (o : Outcome)
    → Holds (λ d es. Waits type d) o
    → ((d : Channel) → Waits type d → Settled type want (k d))
    → Settled type want (resume k o)
resume-Settled type want k fault h f = h
resume-Settled type want k (stepped d es) h f = Settled-after type want es (k d) (f d h)

timed-Settled :
    (type : CommandType) (want timed : Bool) (c : Channel) (rest : Reply)
    → Settled type want rest
    → Settled type want
        (if timed then returned none (some timed_out) (clear_pending_command c) [] else rest)
timed-Settled type want true c rest s = (refl, refl, refl)
timed-Settled type want false c rest s = s

await-Settled :
    (type : CommandType) (timed want : Bool) (events : List Event) (c : Channel)
    → Waits type c
    → Settled type want (await timed want events c)
unfolding await
await-Settled type timed want [] c w = tt
await-Settled type timed want (receive l ∷ events) c w =
    resume-Settled type want (λ d. await timed want events d) (process_line c l)
      (process_line-Waits type c l w) (λ d v. await-Settled type timed want events d v)
await-Settled type timed want (reader_closes ∷ events) c w =
    await-Settled type timed want events (record c { reader_closed = true }) w
await-Settled type timed want (wake ∷ events) c w =
    on_wake-Settled type want c c.response _ refl w (await-Settled type timed want events c w)
await-Settled type timed want (timeout ∷ events) c w =
    timed-Settled type want timed c _ (await-Settled type timed want events c w)

Bounded-start : (type : CommandType) → Bounded type []
Bounded-start no_result = refl
Bounded-start numeric = omega arith
Bounded-start singleline = omega arith
Bounded-start multiline = tt

after_write-Settled :
    (s : Status) (c : Channel) (k : Command) (events : List Event)
    → Prefixed k.type k.response_prefix
    → Settled k.type k.want (after_write s c k events)
after_write-Settled success c k events p =
    await-Settled k.type _ k.want events (start c k) ((p, Bounded-start k.type), tt, refl)
after_write-Settled write_error c k events p = (refl, refl, refl)
after_write-Settled closed c k events p = (refl, refl, refl)
after_write-Settled blocked c k events p = tt

send_on-Settled :
    (o : Option Response) (c : Channel) (k : Command) (ws : List WriteResult) (events : List Event)
    → Prefixed k.type k.response_prefix
    → Settled k.type k.want (send_on o c k ws events)
unfolding send_on
send_on-Settled (some r) c k ws events p = (refl, refl, refl)
send_on-Settled none c k ws events p =
    Settled-after k.type k.want (put (writeline c k.command ws).emitted ∷ []) _
      (after_write-Settled (writeline c k.command ws).status c k events p)

nolock-Settled :
    (c : Channel) (k : Command) (ws : List WriteResult) (events : List Event)
    → Prefixed k.type k.response_prefix
    → Settled k.type k.want (at_send_command_full_nolock c k ws events)
unfolding at_send_command_full_nolock
nolock-Settled c k ws events p = send_on-Settled c.response c k ws events p

-- The reply without its response, unless that is wanted.
abbrev pub give : Bool → Reply → Reply
give true r = r
give false (returned out e c es) = returned none e c es
give false (running c es) = running c es
give false crashed = crashed

give-after :
    (want : Bool) (done : List Effect) (r : Reply)
    → after done (give want r) ≡ give want (after done r)
give-after true done r = refl
give-after false done (returned out e c es) = refl
give-after false done (running c es) = refl
give-after false done crashed = refl

finish-give :
    (want : Bool) (c : Channel) (o : Option Response)
    → finish want c o ≡ give want (finish true c o)
finish-give true c o = refl
finish-give false c none = refl
finish-give false c (some r) = refl

on_wake-give :
    (want : Bool) (c : Channel) (o : Option Bool) (rest : Reply)
    → on_wake want c o (give want rest) ≡ give want (on_wake true c o rest)
on_wake-give true c o rest = refl
on_wake-give false c none rest = refl
on_wake-give false c (some true) rest = refl
on_wake-give false c (some false) rest = finish-give false c c.response

-- A return with no response is the same whether one is wanted or not.
error-give :
    (want : Bool) (e : AtError) (c : Channel)
    → returned none (some e) c [] ≡ give want (returned none (some e) c [])
error-give true e c = refl
error-give false e c = refl

running-give : (want : Bool) (c : Channel) → running c [] ≡ give want (running c [])
running-give true c = refl
running-give false c = refl

timed-give :
    (want timed : Bool) (c : Channel) (rest : Reply)
    → (if timed
        then returned none (some timed_out) (clear_pending_command c) []
        else give want rest)
      ≡ give want
          (if timed then returned none (some timed_out) (clear_pending_command c) [] else rest)
timed-give want true c rest = error-give want timed_out (clear_pending_command c)
timed-give want false c rest = refl

resume-give :
    (want : Bool) (k l : Channel → Reply) (o : Outcome)
    → ((d : Channel) → k d ≡ give want (l d))
    → resume k o ≡ give want (resume l o)
resume-give true k l fault h = refl
resume-give false k l fault h = refl
resume-give want k l (stepped d es) h = ap (λ r. after es r) (h d) ∙ give-after want es (l d)

await-give :
    (timed want : Bool) (events : List Event) (c : Channel)
    → await timed want events c ≡ give want (await timed true events c)
unfolding await
await-give timed want [] c = running-give want c
await-give timed want (receive l ∷ events) c =
    resume-give want (λ d. await timed want events d) (λ d. await timed true events d)
      (process_line c l) (λ d. await-give timed want events d)
await-give timed want (reader_closes ∷ events) c =
    await-give timed want events (record c { reader_closed = true })
await-give timed want (wake ∷ events) c =
    ap (λ r. on_wake want c (must_wait c c.response) r) (await-give timed want events c)
    ∙ on_wake-give want c (must_wait c c.response) (await timed true events c)
await-give timed want (timeout ∷ events) c =
    ap
      (λ (r : Reply).
        if timed then returned none (some timed_out) (clear_pending_command c) [] else r)
      (await-give timed want events c)
    ∙ timed-give want timed c (await timed true events c)

-- The command with room for its response.
abbrev pub wanting : Command → Command
wanting k = record k { want = true }

after_write-give :
    (s : Status) (c : Channel) (k : Command) (events : List Event)
    → after_write s c k events ≡ give k.want (after_write s c (wanting k) events)
after_write-give success c k events =
    await-give (not (k.timeout_msec == 0)) k.want events (start c k)
after_write-give write_error c k events = error-give k.want generic (clear_pending_command c)
after_write-give closed c k events = error-give k.want channel_closed (clear_pending_command c)
after_write-give blocked c k events = running-give k.want c

nolock-give :
    (o : Option Response) (c : Channel) (k : Command) (ws : List WriteResult) (events : List Event)
    → send_on o c k ws events ≡ give k.want (send_on o c (wanting k) ws events)
unfolding send_on
nolock-give (some r) c k ws events = error-give k.want command_pending (clear_pending_command c)
nolock-give none c k ws events =
    let w = writeline c k.command ws in
    ap (λ r. after (put w.emitted ∷ []) r) (after_write-give w.status c k events)
    ∙ give-after k.want (put w.emitted ∷ []) (after_write w.status c (wanting k) events)

-- Whatever lines arrive, in whatever order they meet timeouts, wake-ups and the end of the reader:
-- a command whose type has the prefix that it needs never reads a NULL pointer, and when it
-- returns, no command is pending any more. If it returns 0 then the reader was open, and the
-- response, if it was wanted, holds a final response, with no more intermediate responses than the
-- type allows. Where no response is wanted the run is that of the command with one, but for the
-- response, which is not given.
pub at_send_command_full_nolock-Settled :
    (c : Channel) (k : Command) (ws : List WriteResult) (events : List Event)
    → Prefixed k.type k.response_prefix
    → Settled k.type k.want (at_send_command_full_nolock c k ws events)
      × (at_send_command_full_nolock c k ws events
          ≡ give k.want (at_send_command_full_nolock c (wanting k) ws events))
unfolding at_send_command_full_nolock
at_send_command_full_nolock-Settled c k ws events p =
    (nolock-Settled c k ws events p, nolock-give c.response c k ws events)
