-- ===== src/Channel/Examples.antt =====
-- atchannel.c: commands and their replies on a small scale.
use sxx_ril.Common.{
  ℕ, ap, true, false, none, some, List, [], ◌∷◌, ◌++◌, Text, codes, length, map, ◌≡◌, refl, inl,
  inr, arith,
}
use sxx_ril.Misc.{str_starts_with}
use sxx_ril.Channel.Lines.{
  is_unsolicited, is_final_response, is_final_response_success, is_final_response_error,
  check_need_protect,
}
use sxx_ril.Channel.State.{
  Channel, Response, no_result, singleline, multiline, unsolicited, signal, put, command_pending,
  clear_pending_command,
}
use sxx_ril.Channel.Process.{stepped, process_line, process_lines}
use sxx_ril.Channel.Process.Connect.{process_line-connect}
use sxx_ril.Channel.Process.Rule.{Holds}
use sxx_ril.Channel.Process.Single.{Run, process_lines-Run}
use sxx_ril.Channel.Reader.{reader_loop, Ended, reader_loop-Ended}
use sxx_ril.Channel.Write.{WriteResult, wrote, interrupted, success, writeline}
use sxx_ril.Channel.Write.Complete.{Wrote, writeline-Wrote, writeline_ends}
use sxx_ril.Channel.Command.{
  Event, receive, wake, returned, crashed, Command, await, at_send_command_full_nolock,
  at_send_command_full, at_send_command_singleline,
}
use sxx_ril.Channel.Command.Idle.{Settled, give, at_send_command_full_nolock-Settled}
use sxx_ril.Channel.Command.Lists.{answered, multiline_command, multiline_response}
use sxx_ril.Channel.Command.Pending.{second_command_crash, woken_after}
use sxx_ril.Channel.Command.Replies.{one_response}
use sxx_ril.Channel.Modem.{Happening, answer_of, channel_modem-Allowed}
use sxx_ril.Ril as At
use sxx_ril.Ril.{Allowed}

abbrev idle : Channel
idle = record {
  fd_open = true;
  reader_closed = false;
  has_handler = true;
  type = no_result;
  response_prefix = none;
  sms_pdu = none;
  response = none;
}

abbrev full_write : List WriteResult
full_write = wrote 3 ∷ interrupted ∷ wrote 5 ∷ wrote 1 ∷ []

abbrev pending : Channel
pending = record idle {
  type = singleline;
  response_prefix = some (codes "+CMGS:");
  sms_pdu = some (codes "00AA");
  response = some (record { success = false; final_response = none; intermediates = [] });
}

process_lines-Run_example :
    Holds
      (Run pending (codes "> " ∷ codes "+CMGS: 4" ∷ codes "RING" ∷ []))
      (process_lines pending (codes "> " ∷ codes "+CMGS: 4" ∷ codes "RING" ∷ []))
process_lines-Run_example =
    process_lines-Run pending (codes "> " ∷ codes "+CMGS: 4" ∷ codes "RING" ∷ []) refl
      (tt, omega arith)

process_line-connect_example :
    (is_final_response_success (codes "CONNECT 9600") ≡ true)
    × (process_line pending (codes "CONNECT 9600")
        ≡ stepped pending (unsolicited (codes "CONNECT 9600") none ∷ []))
process_line-connect_example = process_line-connect pending (codes " 9600")

writeline-Wrote_example :
    Wrote (codes "AT+CLCC" ++ (b'\r' ∷ [])) (writeline idle (codes "AT+CLCC") full_write)
writeline-Wrote_example = writeline-Wrote idle (codes "AT+CLCC") full_write refl refl

abbrev bytes : List WriteResult
bytes = wrote 1 ∷ wrote 1 ∷ interrupted ∷ wrote 1 ∷ wrote 1 ∷ []

writeline_ends_example : (writeline idle (codes "ATA") bytes).status ≡ success
writeline_ends_example = writeline_ends idle (codes "ATA") bytes refl refl tt (omega arith)

written_whole :
    (writeline idle (codes "AT+CLCC") full_write)
    ≡ record { emitted = codes "AT+CLCC" ++ (b'\r' ∷ []); status = success; unused = [] }
unfolding writeline
written_whole = refl

-- A command of which no response is wanted.
abbrev quiet_command : Command
quiet_command = record {
  command = codes "AT+CSQ";
  type = singleline;
  response_prefix = some (codes "+CSQ:");
  smspdu = none;
  timeout_msec = 5000;
  want = false;
}

abbrev quiet_events : List Event
quiet_events = receive (codes "+CSQ: 5") ∷ receive (codes "OK") ∷ wake ∷ []

full_nolock_example :
    Settled singleline false
      (at_send_command_full_nolock idle quiet_command full_write quiet_events)
    × (at_send_command_full_nolock idle quiet_command full_write quiet_events
        ≡ give false (
            at_send_command_full_nolock idle
              (record quiet_command { want = true })
              full_write
              quiet_events))
full_nolock_example =
    at_send_command_full_nolock-Settled idle quiet_command full_write quiet_events tt

abbrev calls : List Text
calls = codes "+CLCC: 1,0" ∷ codes "RING" ∷ codes "+CLCC: 2,0" ∷ []

multiline_response_example :
    at_send_command_full_nolock idle
      (multiline_command (codes "AT+CLCC") (codes "+CLCC:") 5000)
      full_write
      (map receive calls ++ (receive (codes "OK") ∷ wake ∷ []))
    ≡ returned
        (some (answered true (codes "OK") (codes "+CLCC: 1,0" ∷ codes "+CLCC: 2,0" ∷ [])))
        none
        (record idle { type = multiline })
        (put (codes "AT+CLCC" ++ (b'\r' ∷ [])) ∷ unsolicited (codes "RING") none ∷ signal ∷ [])
unfolding is_unsolicited is_final_response is_final_response_success is_final_response_error
    str_starts_with writeline
multiline_response_example =
    multiline_response idle (codes "AT+CLCC") (codes "+CLCC:") (codes "OK") calls 5000 true
      full_write refl refl refl (inr refl, (inl refl, (inr refl, tt))) refl refl refl

abbrev csq_events : List Event
csq_events =
    receive (codes "+CSQ: 5") ∷ receive (codes "+CSQ: 6") ∷ receive (codes "OK") ∷ wake ∷ []

abbrev csq_response : Response
csq_response = answered true (codes "OK") (codes "+CSQ: 5" ∷ [])

csq_reply :
    at_send_command_singleline false false idle
      (codes "AT+CSQ")
      (codes "+CSQ:")
      true
      full_write
      csq_events
    ≡ returned
        (some csq_response)
        none
        (record idle { type = singleline })
        (put (codes "AT+CSQ" ++ (b'\r' ∷ [])) ∷ unsolicited (codes "+CSQ: 6") none ∷ signal ∷ [])
unfolding at_send_command_singleline at_send_command_full at_send_command_full_nolock await
    process_line is_unsolicited is_final_response_success is_final_response_error str_starts_with
    writeline check_need_protect
csq_reply = refl

one_response_example : length csq_response.intermediates ≡ 1
one_response_example =
    one_response false false true idle full_write csq_events (codes "AT+CSQ") (codes "+CSQ:") [] _
      csq_response (record idle { type = singleline })
      (put (codes "AT+CSQ" ++ (b'\r' ∷ [])) ∷ unsolicited (codes "+CSQ: 6") none ∷ signal ∷ [])
      (inl refl) csq_reply refl

handshake : Command
handshake = record {
  command = codes "ATE0";
  type = no_result;
  response_prefix = none;
  smspdu = none;
  timeout_msec = 250;
  want = false;
}

second_command_crash_example :
    (at_send_command_full_nolock pending handshake [] []
      ≡ returned none (some command_pending) (clear_pending_command pending) [])
    × (woken_after (at_send_command_full_nolock pending handshake [] []) true true [] ≡ crashed)
second_command_crash_example =
    second_command_crash pending
      (record { success = false; final_response = none; intermediates = [] }) handshake [] [] []
      true true refl

reader_loop-Ended_example :
    Holds
      (Ended true pending.reader_closed)
      (reader_loop true pending (codes "+CMT: 1" ∷ codes "0791" ∷ codes "OK" ∷ []))
reader_loop-Ended_example =
    reader_loop-Ended true pending (codes "+CMT: 1" ∷ codes "0791" ∷ codes "OK" ∷ [])
      (tt, omega arith)

abbrev csq_happens : ℕ → Happening
csq_happens n = record { writes = full_write; events = csq_events }

channel_modem-Allowed_example :
    Allowed
      (At.singleline (codes "AT+CSQ") (codes "+CSQ:"))
      true
      (record { err = none; response = some csq_response })
channel_modem-Allowed_example =
    channel_modem-Allowed false csq_happens (record { channel = idle; sent = 0 })
      (record { channel = record idle { type = singleline }; sent = 1 })
      (At.singleline (codes "AT+CSQ") (codes "+CSQ:")) true
      (record { err = none; response = some csq_response }) (ap (answer_of false 1) csq_reply)
