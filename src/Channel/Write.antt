-- ===== src/Channel/Write.antt =====
-- atchannel.c: `writeline` and `writeCtrlZ`, over the results of the calls of `write`.
pub mod Complete
use sxx_ril.Common.{
  ℕ, zero, suc, Bool, true, false, not, ◌||◌, Option, none, some, List, [], ◌∷◌, ◌++◌,
  if◌then◌else◌, Text, take, drop,
}
use sxx_ril.Channel.State.{Channel}

-- What one call of `write` returns: a count, -1 with EINTR, or -1 with another error.
pub data WriteResult : Type 0 where
  wrote : ℕ → WriteResult
  interrupted failed : WriteResult

-- 0, AT_ERROR_GENERIC, AT_ERROR_CHANNEL_CLOSED, or still waiting for a call to return.
pub data Status : Type 0 where
  success write_error closed blocked : Status

-- What has been put on the channel, how the call ended, and the results not used.
pub record Written : Type 0 where
  pub emitted : Text
  pub status : Status
  pub unused : List WriteResult

abbrev pub emit : Text → Written → Written
emit s w = record w { emitted = s ++ w.emitted }

-- The last loop, which writes the one byte of the terminator.
unfoldable pub write_end : ℕ → List WriteResult → Written
write_end c [] = record { emitted = []; status = blocked; unused = [] }
write_end c (wrote zero ∷ ws) = write_end c ws
write_end c (wrote (suc n) ∷ ws) = record { emitted = c ∷ []; status = success; unused = ws }
write_end c (interrupted ∷ ws) = write_end c ws
write_end c (failed ∷ ws) = record { emitted = []; status = write_error; unused = ws }

-- The main loop, `while (cur < len)`, and what follows it.
unfoldable pub write_from : ℕ → Text → List WriteResult → Written
unfolding write_end
write_from c [] ws = write_end c ws
write_from c (x ∷ s) [] = record { emitted = []; status = blocked; unused = [] }
write_from c (x ∷ s) (wrote n ∷ ws) = emit (take n (x ∷ s)) (write_from c (drop n (x ∷ s)) ws)
write_from c (x ∷ s) (interrupted ∷ ws) = write_from c (x ∷ s) ws
write_from c (x ∷ s) (failed ∷ ws) = record { emitted = []; status = write_error; unused = ws }

abbrev write_terminated : ℕ → Channel → Text → List WriteResult → Written
write_terminated c chan s ws =
    if not chan.fd_open || chan.reader_closed
    then record { emitted = []; status = closed; unused = ws }
    else write_from c s ws

-- `writeline`: a '\r' behind the text.
unfoldable pub writeline : Channel → Text → List WriteResult → Written
unfolding write_from
writeline = write_terminated b'\r'

-- `writeCtrlZ`: a ^Z behind the text.
unfoldable pub write_ctrl_z : Channel → Text → List WriteResult → Written
unfolding write_from
write_ctrl_z = write_terminated 0x1a
