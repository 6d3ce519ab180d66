-- ===== src/Channel/State.antt =====
-- atchannel.c: the variables of the pending command, and what the code does to the outside.
use sxx_ril.Common.{Bool, false, Option, none, List, [], Text}

-- `ATCommandType`.
pub data CommandType : Type 0 where
  no_result numeric singleline multiline : CommandType

-- `ATResponse`; the intermediates stand as in the linked list, the last line first until
-- `reverseIntermediates`.
pub record Response : Type 0 where
  pub success : Bool
  pub final_response : Option Text
  pub intermediates : List Text

-- The static variables. `fd_open` is `s_fd >= 0`, `has_handler` is `s_unsolHandler != NULL`.
pub record Channel : Type 0 where
  pub fd_open : Bool
  pub reader_closed : Bool
  pub has_handler : Bool
  pub type : CommandType
  pub response_prefix : Option Text
  pub sms_pdu : Option Text
  pub response : Option Response

-- A call of the unsolicited handler, a call of `writeCtrlZ` with a PDU (what it puts on the channel,
-- and its errors, are those of `write_ctrl_z` of Channel/Write.antt), a signal to the waiting thread,
-- bytes that `writeline` put on the channel, a call of the `s_onTimeout` or the `s_onReaderClosed`
-- callback.
pub data Effect : Type 0 where
  unsolicited : Text → Option Text → Effect
  ctrl_z : Text → Effect
  signal : Effect
  put : Text → Effect
  on_timeout : Effect
  on_reader_closed : Effect

-- `at_response_new`.
abbrev pub at_response_new : Response
at_response_new = record { success = false; final_response = none; intermediates = [] }

-- `clearPendingCommand`; what the response held is freed.
abbrev pub clear_pending_command : Channel → Channel
clear_pending_command c = record c { response_prefix = none; sms_pdu = none; response = none }

-- The AT_ERROR_* codes.
pub data AtError : Type 0 where
  generic command_pending channel_closed timed_out invalid_thread invalid_response : AtError
