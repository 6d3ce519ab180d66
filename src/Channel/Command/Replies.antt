-- ===== src/Channel/Command/Replies.antt =====
-- atchannel.c: a command for one line gets one line.
use sxx_ril.Common.{
  ◌≤◌, Bool, true, false, Option, none, some, List, [], ◌∷◌, if◌then◌else◌, Text, length, ◌≡◌, refl,
  sym, ◌∙◌, ◌⊎◌, inl, inr, arith,
}
use sxx_ril.Channel.Lines.{check_need_protect}
use sxx_ril.Channel.State.{Channel, Response, Effect, CommandType, numeric, singleline, timed_out}
use sxx_ril.Channel.Process.{is_empty}
use sxx_ril.Channel.Process.Rule.{Prefixed, Bounded}
use sxx_ril.Channel.Write.{WriteResult}
use sxx_ril.Channel.Command.Idle.{Settled, at_send_command_full_nolock-Settled}
use sxx_ril.Channel.Command.{
  Event, Reply, returned, running, crashed, Command, call_on_timeout, require_intermediate,
  at_send_command_full_nolock, at_send_command_full, at_send_command_singleline,
  at_send_command_numeric, at_send_command_sms,
}

-- A wanted response without an error is one that the type allows.
abbrev Allowed : CommandType → Reply → Type 0
Allowed type (returned (some r) none c es) = Bounded type r.intermediates
Allowed type _ = Unit {0}

Allowed-Settled :
    (type : CommandType) (want : Bool) (r : Reply) → Settled type want r → Allowed type r
Allowed-Settled type want crashed h = tt
Allowed-Settled type want (running c es) h = tt
Allowed-Settled type want (returned out (some e) c es) h = unused out
  where
    unused : (out : Option Response) → Allowed type (returned out (some e) c es)
    unused none = tt
    unused (some r) = tt
Allowed-Settled type want (returned none none c es) h = tt
Allowed-Settled type want (returned (some r) none c es) h = h.2.2

Allowed-call_on_timeout :
    (type : CommandType) (callback : Bool) (r : Reply)
    → Allowed type r
    → Allowed type (call_on_timeout callback r)
Allowed-call_on_timeout type true (returned none (some timed_out) c es) h = tt
Allowed-call_on_timeout type true (returned (some r) (some timed_out) c es) h = tt
Allowed-call_on_timeout type _ r h = h

Allowed-full :
    (on_reader callback : Bool) (c : Channel) (k : Command) (ws : List WriteResult)
    (es : List Event)
    → Prefixed k.type k.response_prefix
    → Allowed k.type (at_send_command_full on_reader callback c k ws es)
unfolding at_send_command_full
Allowed-full true callback c k ws es p = tt
Allowed-full false callback c k ws es p = protecting (check_need_protect k.command)
  where
    allowed :
        (j : Command)
        → Prefixed j.type j.response_prefix
        → Allowed j.type (call_on_timeout callback (at_send_command_full_nolock c j ws es))
    allowed j q =
        Allowed-call_on_timeout j.type callback _
          (Allowed-Settled j.type j.want _ (at_send_command_full_nolock-Settled c j ws es q).0)

    protecting :
        (b : Bool)
        → Allowed k.type (
            call_on_timeout callback (
              at_send_command_full_nolock c
                (if b then record k { timeout_msec = 5000 } else k)
                ws
                es))
    protecting true = allowed (record k { timeout_msec = 5000 }) p
    protecting false = allowed k p

length_one : (lines : List Text) → length lines ≤ 1 → is_empty lines ≡ false → length lines ≡ 1
length_one [] h e = cc
length_one (l ∷ []) h e = refl
length_one (l ∷ m ∷ lines) h e = absurd (omega arith)

required_one :
    (q r : Response) (d c : Channel) (fs es : List Effect)
    → length q.intermediates ≤ 1
    → require_intermediate (returned (some q) none d fs) ≡ returned (some r) none c es
    → r.success ≡ true
    → length r.intermediates ≡ 1
required_one q r d c fs es h e s = ground (arith, length_one q.intermediates h)

abbrev One : Reply → Type 0
One (returned (some r) none c es) = length r.intermediates ≤ 1
One _ = Unit {0}

required :
    (reply : Reply) (r : Response) (c : Channel) (es : List Effect)
    → One reply
    → require_intermediate reply ≡ returned (some r) none c es
    → r.success ≡ true
    → length r.intermediates ≡ 1
required (returned (some q) none d fs) r c es h e s = required_one q r d c fs es h e s
required (returned none none d fs) r c es h e s = cc
required (returned none (some a) d fs) r c es h e s = cc
required (returned (some q) (some a) d fs) r c es h e s = cc
required (running d fs) r c es h e s = cc
required crashed r c es h e s = cc

One-singleline : (reply : Reply) → Allowed singleline reply → One reply
One-singleline (returned (some r) none c es) h = h
One-singleline _ h = tt

One-numeric : (reply : Reply) → Allowed numeric reply → One reply
One-numeric (returned (some r) none c es) h = h
One-numeric _ h = tt

module _ (on_reader callback want : Bool) (c : Channel) (ws : List WriteResult)
    (events : List Event) where
  -- A call of one of the three functions for a single response line.
  abbrev pub SingleCall : Text → Text → Text → Reply → Type 0
  SingleCall command prefix pdu reply =
      (reply ≡ at_send_command_singleline on_reader callback c command prefix want ws events)
      ⊎ ((reply ≡ at_send_command_numeric on_reader callback c command want ws events)
          ⊎ (reply ≡ at_send_command_sms on_reader callback c command pdu prefix want ws events))

  -- A SINGLELINE, NUMERIC or SMS command that returns 0 with a success response has exactly one
  -- intermediate response, whatever the modem sent.
  pub one_response :
      (command prefix pdu : Text) (reply : Reply) (r : Response) (d : Channel) (done : List Effect)
      → SingleCall command prefix pdu reply
      → reply ≡ returned (some r) none d done
      → r.success ≡ true
      → length r.intermediates ≡ 1
  unfolding at_send_command_singleline at_send_command_numeric at_send_command_sms
  one_response command prefix pdu reply r d done (inl call) e s =
      required _ r d done (One-singleline _ (Allowed-full on_reader callback c _ ws events tt))
        (sym call ∙ e) s
  one_response command prefix pdu reply r d done (inr (inl call)) e s =
      required _ r d done (One-numeric _ (Allowed-full on_reader callback c _ ws events tt))
        (sym call ∙ e) s
  one_response command prefix pdu reply r d done (inr (inr call)) e s =
      required _ r d done (One-singleline _ (Allowed-full on_reader callback c _ ws events tt))
        (sym call ∙ e) s
