-- ===== src/Channel/Command/Lists.antt =====
-- atchannel.c: a command for many lines gets its lines, in order.
use sxx_ril.Common.{
  ℕ, Bool, true, false, not, Option, none, some, List, [], ◌∷◌, ◌++◌, ◌==◌, if◌then◌else◌, Text,
  map, ◌≡◌, refl, sym, ap, ◌∙◌, arith, append_assoc, append-nil,
}
use mathlib.Core.List.{reverse, reverse-reverse}
use mathlib.Core.Path.{fun_ext}
use sxx_ril.Channel.Lines.{is_unsolicited, is_final_response, is_final_response_success}
use sxx_ril.Channel.State.{
  Channel, Response, Effect, multiline, put, signal, clear_pending_command, at_response_new,
  channel_closed,
}
use sxx_ril.Channel.Process.{Outcome, stepped, fault, process_line, process_lines, behind, continue}
use sxx_ril.Channel.Process.Multi.{
  belonging, strangers, handed, NoneFinal, collecting, with_lines, process_lines-collecting,
}
use sxx_ril.Channel.Write.{WriteResult, Status, success, writeline}
use sxx_ril.Channel.Command.{
  Event, receive, wake, Reply, returned, running, crashed, after, resume, await, Command,
  after_write, send_on, at_send_command_full_nolock,
}

resume-behind :
    (k : Channel → Reply) (es : List Effect) (o : Outcome)
    → resume k (behind es o) ≡ after es (resume k o)
resume-behind k es fault = refl
resume-behind k es (stepped d fs) = after-append (k d)
  where
    after-append : (r : Reply) → after (es ++ fs) r ≡ after es (after fs r)
    after-append (returned out err c gs) = ap (returned out err c) (append_assoc es fs gs)
    after-append (running c gs) = ap (running c) (append_assoc es fs gs)
    after-append crashed = refl

resume-continue :
    (k : Channel → Reply) (f : Channel → Outcome) (o : Outcome)
    → resume k (continue f o) ≡ resume (λ d. resume k (f d)) o
resume-continue k f fault = refl
resume-continue k f (stepped d es) = resume-behind k es (f d)

-- Lines that arrive one after the other are processed by `process_lines`.
await-receive :
    (timed want : Bool) (lines : List Text) (events : List Event) (c : Channel)
    → await timed want (map receive lines ++ events) c
      ≡ resume (λ d. await timed want events d) (process_lines c lines)
unfolding await process_lines
await-receive timed want [] events c = sym (after_nothing (await timed want events c))
  where
    after_nothing : (r : Reply) → after [] r ≡ r
    after_nothing (returned out err d es) = refl
    after_nothing (running d es) = refl
    after_nothing crashed = refl
await-receive timed want (l ∷ lines) events c =
    ap (λ (k : Channel → Reply). resume k (process_line c l))
      (fun_ext (λ d. await-receive timed want lines events d))
    ∙ sym (
        resume-continue (λ d. await timed want events d) (λ d. process_lines d lines)
          (process_line c l))

-- `at_send_command_multiline`, with a timeout.
abbrev pub multiline_command : Text → Text → ℕ → Command
multiline_command command p t = record {
  command = command;
  type = multiline;
  response_prefix = some p;
  smspdu = none;
  timeout_msec = t;
  want = true;
}

abbrev pub answered : Bool → Text → List Text → Response
answered flag final lines = record {
  success = flag;
  final_response = some final;
  intermediates = lines;
}

abbrev final_channel : Channel → Text → Response → Bool → Text → Channel
final_channel c p r flag final =
    collecting c p (record r { success = flag; final_response = some final })

process_line_final :
    (c : Channel) (p final : Text) (r : Response) (flag : Bool)
    → is_unsolicited final ≡ false
    → is_final_response_success final ≡ flag
    → is_final_response final ≡ true
    → process_line (collecting c p r) final ≡ stepped (final_channel c p r flag final) (signal ∷ [])
unfolding process_line is_final_response
process_line_final c p final r true u s f = ground arith
process_line_final c p final r false u s f = ground arith

await_final :
    (c : Channel) (p final : Text) (r : Response) (flag timed : Bool)
    → c.reader_closed ≡ false
    → is_unsolicited final ≡ false
    → is_final_response_success final ≡ flag
    → is_final_response final ≡ true
    → await timed true (receive final ∷ wake ∷ []) (collecting c p r)
      ≡ returned
          (some (answered flag final (reverse r.intermediates)))
          none
          (clear_pending_command (collecting c p r))
          (signal ∷ [])
unfolding await
await_final c p final r flag timed opened u s f =
    ap (resume (λ d. await timed true (wake ∷ []) d)) (process_line_final c p final r flag u s f)
    ∙ ap
        (λ (b : Bool).
          returned (some (answered flag final (reverse r.intermediates)))
            (if b then some channel_closed else none) (clear_pending_command (collecting c p r))
            (signal ∷ []))
        opened

reverse_back : (lines : List Text) → reverse (reverse lines ++ []) ≡ lines
reverse_back lines = ap reverse (append-nil (reverse lines)) ∙ reverse-reverse lines

await_lines :
    (c : Channel) (p final : Text) (lines : List Text) (flag timed : Bool)
    → NoneFinal lines
    → c.reader_closed ≡ false
    → is_unsolicited final ≡ false
    → is_final_response_success final ≡ flag
    → is_final_response final ≡ true
    → await timed true
        (map receive lines ++ (receive final ∷ wake ∷ []))
        (collecting c p at_response_new)
      ≡ returned
          (some (answered flag final (belonging p lines)))
          none
          (clear_pending_command (record c { type = multiline }))
          (handed c (strangers p lines) ++ (signal ∷ []))
await_lines c p final lines flag timed h opened u s f =
    await-receive timed true lines (receive final ∷ wake ∷ []) _
    ∙ ap (resume (λ d. await timed true (receive final ∷ wake ∷ []) d))
        (process_lines-collecting c p at_response_new lines h)
    ∙ ap (after (handed c (strangers p lines))) (
        await_final c p final (with_lines at_response_new (reverse (belonging p lines) ++ [])) flag
          timed opened u s f)
    ∙ ap
        (λ (ls : List Text).
          returned (some (answered flag final ls)) none
            (clear_pending_command (record c { type = multiline }))
            (handed c (strangers p lines) ++ (signal ∷ [])))
        (reverse_back (belonging p lines))

-- A MULTILINE command on an open channel with no command pending, once it is written whole: when
-- lines arrive that do not end it, then a final response, then the thread wakes, it returns 0. The
-- response holds the final response and whether it is a success, and exactly those lines that begin
-- with the prefix and are not unsolicited, in the order received; all other lines went to the
-- unsolicited handler, in order; and no command is pending.
pub multiline_response :
    (c : Channel) (command p final : Text) (lines : List Text) (t : ℕ) (flag : Bool)
    (ws : List WriteResult)
    → c.response ≡ none
    → c.reader_closed ≡ false
    → (writeline c command ws).status ≡ success
    → NoneFinal lines
    → is_unsolicited final ≡ false
    → is_final_response_success final ≡ flag
    → is_final_response final ≡ true
    → at_send_command_full_nolock c
        (multiline_command command p t)
        ws
        (map receive lines ++ (receive final ∷ wake ∷ []))
      ≡ returned
          (some (answered flag final (belonging p lines)))
          none
          (clear_pending_command (record c { type = multiline }))
          (put (writeline c command ws).emitted ∷ (handed c (strangers p lines) ++ (signal ∷ [])))
unfolding at_send_command_full_nolock
multiline_response c command p final lines t flag ws idle opened written h u s f =
    ap (λ (o : Option Response). send_on o c k ws events) idle
    ∙ ap (λ (st : Status). after output (after_write st c k events)) written
    ∙ ap (after output) (await_lines c p final lines flag (not (t == 0)) h opened u s f)
  where
    events : List Event
    events = map receive lines ++ (receive final ∷ wake ∷ [])

    k : Command
    k = multiline_command command p t

    output : List Effect
    output = put (writeline c command ws).emitted ∷ []
