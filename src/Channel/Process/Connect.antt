-- ===== src/Channel/Process/Connect.antt =====
-- atchannel.c: CONNECT stands both among the final responses and among the unsolicited lines.
use sxx_ril.Common.{true, Option, none, some, ◌++◌, Text, codes, ◌≡◌, refl}
use sxx_ril.Channel.Lines.{is_unsolicited, is_final_response_success}
use sxx_ril.Channel.Lines.Kinds.{connect_unsolicited, connect_final}
use sxx_ril.Channel.State.{Channel, Response}
use sxx_ril.Channel.Process.{stepped, process_line, process_on, process_pending, handle_unsolicited}

connect_on :
    (o : Option Response) (c : Channel) (line : Text)
    → is_unsolicited line ≡ true
    → process_on o c line ≡ stepped c (handle_unsolicited c line)
unfolding process_on process_pending
connect_on none c line u = refl
connect_on (some r) c line u = rw u refl

-- A line that begins with CONNECT counts as a final response, yet in every state it only goes to
-- the unsolicited handler: it never ends a command.
pub process_line-connect :
    (c : Channel) (rest : Text)
    → (is_final_response_success (codes "CONNECT" ++ rest) ≡ true)
      × (process_line c (codes "CONNECT" ++ rest)
          ≡ stepped c (handle_unsolicited c (codes "CONNECT" ++ rest)))
unfolding process_line
process_line-connect c rest =
    (connect_final rest, connect_on c.response c _ (connect_unsolicited rest))
