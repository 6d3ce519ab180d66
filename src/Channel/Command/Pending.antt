-- ===== src/Channel/Command/Pending.antt =====
-- atchannel.c: what a second command does to one that is pending.
use sxx_ril.Common.{Bool, Option, none, some, List, [], ◌∷◌, ◌≡◌, refl, ap, ◌∙◌}
use sxx_ril.Channel.State.{Channel, Response, command_pending, clear_pending_command}
use sxx_ril.Channel.Write.{WriteResult}
use sxx_ril.Channel.Command.{
  Event, wake, Reply, returned, crashed, await, Command, send_on, at_send_command_full_nolock,
}

-- The command that still waits, woken on the state that the second one leaves.
abbrev pub woken_after : Reply → Bool → Bool → List Event → Reply
woken_after (returned out err c done) timed want events = await timed want (wake ∷ events) c
woken_after r timed want events = r

-- A command that is sent while another waits (as `at_handshake` can, which does not take
-- `commandmutex`) is refused, but it clears the pending command, and the thread that waits for
-- that one reads through a NULL `sp_response` when it next wakes.
pub second_command_crash :
    (c : Channel) (r : Response) (k : Command) (ws : List WriteResult) (events later : List Event)
    (timed want : Bool)
    → c.response ≡ some r
    → (at_send_command_full_nolock c k ws events
        ≡ returned none (some command_pending) (clear_pending_command c) [])
      × (woken_after (at_send_command_full_nolock c k ws events) timed want later ≡ crashed)
second_command_crash c r k ws events later timed want pending = (
  refused,
  ap (λ (reply : Reply). woken_after reply timed want later) refused ∙ (unfold await in refl),
)
  where
    refused :
        at_send_command_full_nolock c k ws events
        ≡ returned none (some command_pending) (clear_pending_command c) []
    refused =
        unfold at_send_command_full_nolock in
        (ap (λ (o : Option Response). send_on o c k ws events) pending)
