-- ===== src/Channel/Command.antt =====
-- atchannel.c: `at_send_command_full_nolock` and the functions that stand on it.
-- While the command waits for its condition, the mutex is free: the reader thread processes lines
-- and may close, and the command thread looks at its response only when it wakes. Such a run is a
-- list of events in their order.
pub mod Idle
pub mod Replies
pub mod Lists
pub mod Pending
use sxx_ril.Common.{
  ℕ, Bool, true, false, not, ◌&&◌, ◌||◌, Option, none, some, List, [], ◌∷◌, ◌++◌, ◌==◌,
  if◌then◌else◌, Text, codes,
}
use mathlib.Core.List.{reverse}
use sxx_ril.Channel.Lines.{check_need_protect}
use sxx_ril.Channel.State.{
  Channel, Response, Effect, CommandType, AtError, no_result, numeric, singleline, multiline, put,
  on_timeout, generic, command_pending, channel_closed, timed_out, invalid_thread, invalid_response,
  at_response_new, clear_pending_command,
}
use sxx_ril.Channel.Process.{Outcome, stepped, fault, process_line, is_empty}
use sxx_ril.Channel.Write.{
  WriteResult, Written, Status, success, write_error, closed, blocked, writeline,
}

-- What happens during a wait: the reader processes a line, the reader closes, the wait returns
-- normally (for a signal or for nothing), the wait times out.
pub data Event : Type 0 where
  receive : Text → Event
  reader_closes wake timeout : Event

-- `returned out err c es`: `*pp_outResponse` if it is set, the error code or 0, the state, and
-- what was done. `running` is still waiting or writing.
pub data Reply : Type 0 where
  returned : Option Response → Option AtError → Channel → List Effect → Reply
  running : Channel → List Effect → Reply
  crashed : Reply

abbrev pub after : List Effect → Reply → Reply
after done (returned out err c es) = returned out err c (done ++ es)
after done (running c es) = running c (done ++ es)
after done crashed = crashed

abbrev pub resume : (Channel → Reply) → Outcome → Reply
resume k fault = crashed
resume k (stepped c es) = after es (k c)

-- `reverseIntermediates`.
abbrev pub reverse_intermediates : Response → Response
reverse_intermediates r = record r { intermediates = reverse r.intermediates }

-- Behind the loop; `want` is `pp_outResponse != NULL`.
abbrev pub finish : Bool → Channel → Option Response → Reply
finish want c none = crashed
finish want c (some r) =
    returned (if want then some (reverse_intermediates r) else none)
      (if c.reader_closed then some channel_closed else none) (clear_pending_command c) []

abbrev pub is_none : Option Text → Bool
is_none none = true
is_none (some line) = false

-- `sp_response->finalResponse == NULL && s_readerClosed == 0`, the test of the loop.
abbrev pub must_wait : Channel → Option Response → Option Bool
must_wait c none = none
must_wait c (some r) = some (is_none r.final_response && not c.reader_closed)

abbrev pub on_wake : Bool → Channel → Option Bool → Reply → Reply
on_wake want c none rest = crashed
on_wake want c (some true) rest = rest
on_wake want c (some false) rest = finish want c c.response

-- The loop. Without a timeout `pthread_cond_wait` never returns ETIMEDOUT.
unfoldable pub await : Bool → Bool → List Event → Channel → Reply
await timed want [] c = running c []
await timed want (receive l ∷ es) c = resume (λ d. await timed want es d) (process_line c l)
await timed want (reader_closes ∷ es) c = await timed want es (record c { reader_closed = true })
await timed want (wake ∷ es) c =
    let rest = await timed want es c in on_wake want c (must_wait c c.response) rest
await timed want (timeout ∷ es) c =
    let rest = await timed want es c in
    if timed then returned none (some timed_out) (clear_pending_command c) [] else rest

-- A command as it is given to `at_send_command_full`.
pub record Command : Type 0 where
  pub command : Text
  pub type : CommandType
  pub response_prefix : Option Text
  pub smspdu : Option Text
  pub timeout_msec : ℕ
  pub want : Bool

abbrev pub start : Channel → Command → Channel
start c k = record c {
  type = k.type;
  response_prefix = k.response_prefix;
  sms_pdu = k.smspdu;
  response = some at_response_new;
}

abbrev pub after_write : Status → Channel → Command → List Event → Reply
after_write success c k es = await (not (k.timeout_msec == 0)) k.want es (start c k)
after_write write_error c k es = returned none (some generic) (clear_pending_command c) []
after_write closed c k es = returned none (some channel_closed) (clear_pending_command c) []
after_write blocked c k es = running c []

abbrev pub write_and_wait : Written → Channel → Command → List Event → Reply
write_and_wait w c k es = after (put w.emitted ∷ []) (after_write w.status c k es)

unfoldable pub send_on : Option Response → Channel → Command → List WriteResult → List Event → Reply
send_on (some r) c k ws es = returned none (some command_pending) (clear_pending_command c) []
send_on none c k ws es = write_and_wait (writeline c k.command ws) c k es

-- `at_send_command_full_nolock`.
unfoldable pub at_send_command_full_nolock :
    Channel → Command → List WriteResult → List Event → Reply
unfolding send_on
at_send_command_full_nolock c = send_on c.response c

abbrev at_timeout_protect : ℕ
at_timeout_protect = 5000

-- `if (check_need_protect(command)) timeoutMsec = AT_TIMEOUT_PROTECT`.
abbrev pub protected : Command → Command
protected k =
    if check_need_protect k.command then record k { timeout_msec = at_timeout_protect } else k

-- The callback on a timeout, if `at_set_on_timeout` has set one.
abbrev pub call_on_timeout : Bool → Reply → Reply
call_on_timeout true (returned out (some timed_out) c es) =
    returned out (some timed_out) c (es ++ (on_timeout ∷ []))
call_on_timeout _ r = r

-- `at_send_command_full`; the flags say whether this is the reader thread, and whether a callback
-- is set.
unfoldable pub at_send_command_full :
    Bool → Bool → Channel → Command → List WriteResult → List Event → Reply
at_send_command_full on_reader callback c k ws es =
    let reply = call_on_timeout callback (at_send_command_full_nolock c (protected k) ws es) in
    if on_reader then returned none (some invalid_thread) c [] else reply

-- "successful command must have an intermediate response".
abbrev pub require_intermediate : Reply → Reply
require_intermediate (returned (some r) none c es) =
    if r.success && is_empty r.intermediates
    then returned none (some invalid_response) c es
    else returned (some r) none c es
require_intermediate r = r

module _ (on_reader callback : Bool) (c : Channel) where
  abbrev full : Command → List WriteResult → List Event → Reply
  full = at_send_command_full on_reader callback c

  unfoldable pub at_send_command : Text → Bool → List WriteResult → List Event → Reply
  at_send_command command want = full (record {
    command = command;
    type = no_result;
    response_prefix = none;
    smspdu = none;
    timeout_msec = 0;
    want = want;
  })

  unfoldable pub at_send_command_singleline :
      Text → Text → Bool → List WriteResult → List Event → Reply
  at_send_command_singleline command prefix want ws es = require_intermediate (
      full
        (record {
          command = command;
          type = singleline;
          response_prefix = some prefix;
          smspdu = none;
          timeout_msec = 0;
          want = want;
        })
        ws es)

  unfoldable pub at_send_command_numeric : Text → Bool → List WriteResult → List Event → Reply
  at_send_command_numeric command want ws es = require_intermediate (
      full
        (record {
          command = command;
          type = numeric;
          response_prefix = none;
          smspdu = none;
          timeout_msec = 0;
          want = want;
        })
        ws es)

  unfoldable pub at_send_command_sms :
      Text → Text → Text → Bool → List WriteResult → List Event → Reply
  at_send_command_sms command pdu prefix want ws es = require_intermediate (
      full
        (record {
          command = command;
          type = singleline;
          response_prefix = some prefix;
          smspdu = some pdu;
          timeout_msec = 0;
          want = want;
        })
        ws es)

  unfoldable pub at_send_command_multiline :
      Text → Text → Bool → List WriteResult → List Event → Reply
  at_send_command_multiline command prefix want = full (record {
    command = command;
    type = multiline;
    response_prefix = some prefix;
    smspdu = none;
    timeout_msec = 0;
    want = want;
  })
