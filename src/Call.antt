-- ===== src/Call.antt =====
-- sxx-ril-call.c: the lines of the list of current calls.
use sxx_ril.Common.{
  ℕ, ◌+◌, Bool, true, false, Option, none, some, List, [], ◌∷◌, ◌==◌, if◌then◌else◌, Text,
}
use sxx_ril.Common.Int.{ℤ, pos, negsuc}
use sxx_ril.Tok.{
  Result, ok, fail, at_tok_start, at_tok_nextint, at_tok_nextbool, at_tok_nextstr, at_tok_hasmore,
}
pub mod Clcc
pub mod Requests
pub mod Completion
pub mod Hangup
pub mod Listing
pub mod Examples

pub data CallState : Type 0 where
  active holding dialing alerting incoming waiting : CallState

-- `clccStateToRILState`; `none` is the return of -1.
abbrev pub clcc_state_to_ril_state : ℤ → Option CallState
clcc_state_to_ril_state (pos n) =
    if n == 0
    then some active
    else if n == 1
    then some holding
    else if n == 2
    then some dialing
    else if n == 3
    then some alerting
    else if n == 4
    then some incoming
    else if n == 5
    then some waiting
    else none
clcc_state_to_ril_state (negsuc n) = none

-- What a line sets of `RIL_Call`. Without a number that can be read, `number` and `toa` stay as the
-- caller has them.
pub record RilCall : Type 0 where
  pub index : ℤ
  pub is_mt : Bool
  pub state : CallState
  pub is_voice : Bool
  pub is_mpty : Bool
  pub number : Option (Text × ℤ)

-- `if (err < 0) goto error`, and else on with the value and the cursor.
abbrev pub and_then : {A B : Type 0} → Result A → (A → Option Text → Option B) → Option B
and_then (ok a cur) k = k a cur
and_then (fail cur) k = none

abbrev pub is_mode : ℕ → ℤ → Bool
is_mode m (pos n) = n == m
is_mode m (negsuc n) = false

-- "tolerate null here".
abbrev pub read_number : Result Text → (Option (Text × ℤ) → RilCall) → Option RilCall
read_number (fail cur) call = some (call none)
read_number (ok number cur) call =
    and_then (at_tok_nextint cur) (λ toa cur'. some (call (some (number, toa))))

abbrev pub with_state : Option CallState → (CallState → Option RilCall) → Option RilCall
with_state none k = none
with_state (some s) k = k s

abbrev pub from_start : Option Text → (Option Text → Option RilCall) → Option RilCall
from_start none k = none
from_start (some rest) k = k (some rest)

-- `callFromCLCCLine`; `none` is the return of -1.
unfoldable pub call_from_clcc_line : Text → Option RilCall
call_from_clcc_line line = from_start (at_tok_start (some line)) (λ cur0.
    and_then (at_tok_nextint cur0) (λ index cur1. and_then (at_tok_nextbool cur1) (λ is_mt cur2.
      and_then (at_tok_nextint cur2) (λ state cur3. with_state (clcc_state_to_ril_state state) (λ s.
        and_then (at_tok_nextint cur3) (λ mode cur4.
          if is_mode 1 mode
          then none
          else and_then (at_tok_nextbool cur4) (λ is_mpty cur5.
            if at_tok_hasmore cur5
            then read_number (at_tok_nextstr cur5) (λ number. record {
              index = index;
              is_mt = is_mt;
              state = s;
              is_voice = is_mode 0 mode;
              is_mpty = is_mpty;
              number = number;
            })
            else none)))))))
