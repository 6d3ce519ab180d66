-- ===== src/Manager.antt =====
-- sxx-ril-manager.c: the tables of request handlers, of unsolicited handlers and of modems.
-- A table is the list of its slots, zeroed at the start (`ril_manager_init`), and an `int` is its
-- 32-bit pattern, so VID_PID_GENERIC, which is -1, is 2 ^ 32 - 1. Handlers are an abstract type;
-- `none` is a NULL pointer.
pub mod Requests
pub mod Overrides
pub mod Modems
pub mod Unsolicited
mod Examples
use sxx_ril.Common.{
  ℕ, ◌-◌, ◌^◌, Bool, true, false, not, ◌&&◌, ◌||◌, Option, none, some, List, [], ◌∷◌, ◌==◌,
  if◌then◌else◌, Text, str_eq, replicate,
}
use sxx_ril.Misc.{str_starts_with}

abbrev pub vid_pid_generic : ℕ
vid_pid_generic = 2 ^ 32 - 1

abbrev pub ril_max_request : ℕ
ril_max_request = 256

abbrev pub ril_max_unsolicited : ℕ
ril_max_unsolicited = 256

abbrev pub max_support_modem : ℕ
max_support_modem = 10

-- `request_item_t`; request 0 marks a free slot.
pub record RequestItem (H : Type 0) : Type 0 where
  pub request : ℕ
  pub handler : Option H
  pub vid_pid : ℕ

-- `unsolicited_item_t`; a NULL prefix marks a free slot.
pub record UnsolicitedItem (H : Type 0) : Type 0 where
  pub prefix : Option Text
  pub handler : Option H
  pub vid_pid : ℕ

-- A registration that is not for the modem in use is ignored.
abbrev pub applies : ℕ → ℕ → Bool
applies modem vid = vid == vid_pid_generic || vid == modem

abbrev is_null : Option Text → Bool
is_null none = true
is_null (some p) = false

-- `u->prefix != 0 && strcmp(u->prefix, prefix)`.
abbrev pub other_prefix : Option Text → Text → Bool
other_prefix none prefix = false
other_prefix (some p) prefix = not (str_eq p prefix)

module _ {H : Type 0} where
  abbrev pub no_request : RequestItem H
  no_request = record { request = 0; handler = none; vid_pid = 0 }

  abbrev pub no_unsolicited : UnsolicitedItem H
  no_unsolicited = record { prefix = none; handler = none; vid_pid = 0 }

  -- The loop of `register_request` over the slots that are left.
  pub place_request : ℕ → H → ℕ → List (RequestItem H) → List (RequestItem H)
  place_request request handler vid [] = []
  place_request request handler vid (r ∷ items) =
      if not (r.request == 0) && not (r.request == request)
      then r ∷ place_request request handler vid items
      else if not (r.request == 0) && not (r.vid_pid == vid_pid_generic)
      then r ∷ items
      else record { request = request; handler = some handler; vid_pid = vid } ∷ items

  -- `register_request`, with the `vid_pid` of `g_modem`.
  unfoldable pub register_request : ℕ → ℕ → H → ℕ → List (RequestItem H) → List (RequestItem H)
  unfolding place_request
  register_request modem request handler vid items =
      if not (vid == vid_pid_generic) && not (vid == modem)
      then items
      else place_request request handler vid items

  -- `process_request`: the handler that is called, if any.
  unfoldable pub process_request : ℕ → List (RequestItem H) → Option H
  process_request request [] = none
  process_request request (r ∷ items) = elim r.handler [
    | none ↦ none
    | some h ↦ if not (r.request == request) then process_request request items else some h
  ]

  pub place_unsolicited : Text → H → ℕ → List (UnsolicitedItem H) → List (UnsolicitedItem H)
  place_unsolicited prefix handler vid [] = []
  place_unsolicited prefix handler vid (u ∷ items) =
      if other_prefix u.prefix prefix
      then u ∷ place_unsolicited prefix handler vid items
      else if not (is_null u.prefix) && not (u.vid_pid == vid_pid_generic)
      then u ∷ items
      else record { prefix = some prefix; handler = some handler; vid_pid = vid } ∷ items

  -- `register_unsolicited`.
  unfoldable pub register_unsolicited :
      ℕ → Text → H → ℕ → List (UnsolicitedItem H) → List (UnsolicitedItem H)
  unfolding place_unsolicited
  register_unsolicited modem prefix handler vid items =
      if not (vid == vid_pid_generic) && not (vid == modem)
      then items
      else place_unsolicited prefix handler vid items

  -- `process_unsolicited`: the handler that is called with the line, if any.
  unfoldable pub process_unsolicited : Text → List (UnsolicitedItem H) → Option H
  process_unsolicited s [] = none
  process_unsolicited s (u ∷ items) = elim u.prefix [
    | none ↦ none
    | some p ↦ if not (str_starts_with s p) then process_unsolicited s items else u.handler
  ]

-- `modem_spec_t`; `none` is a NULL string. The callbacks are of an abstract type.
pub record ModemSpec (C : Type 0) : Type 0 where
  pub name : Text
  pub at_port : Text
  pub data_port : Text
  pub chat_option : Option Text
  pub vid_pid : ℕ
  pub init : C
  pub bringup : Option C
  pub periodic : Option C

-- What `register_modem` leaves: the table, and the callback `bringup` that it has called, if the modem
-- has one.
pub record ModemTable (C : Type 0) : Type 0 where
  pub table : List (Option (ModemSpec C))
  pub called : Option C

module _ {C : Type 0} where
  -- The loop of `register_modem`: the modem is put in its first free slot, and `none` is `exit(-1)`
  -- when there is no free slot. A slot of the zeroed table is `none`.
  unfoldable pub register_modem : ModemSpec C → List (Option (ModemSpec C)) → Option (ModemTable C)
  register_modem modem [] = none
  register_modem modem (none ∷ modems) =
      some (record { table = some modem ∷ modems; called = modem.bringup })
  register_modem modem (some m ∷ modems) =
      let rest = register_modem modem modems in
      if m.vid_pid == 0
      then some (record { table = some modem ∷ modems; called = modem.bringup })
      else elim rest [
        | none ↦ none
        | some r ↦ some (record { table = some m ∷ r.table; called = r.called })
      ]

  -- `check_match`: the first modem of that id, up to the first free slot.
  unfoldable pub check_match : ℕ → List (Option (ModemSpec C)) → Option (ModemSpec C)
  check_match id [] = none
  check_match id (none ∷ modems) = none
  check_match id (some m ∷ modems) =
      if m.vid_pid == 0 then none else if m.vid_pid == id then some m else check_match id modems
