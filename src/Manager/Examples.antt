-- ===== src/Manager/Examples.antt =====
-- sxx-ril-manager.c on small tables. Handlers are numbers here.
use sxx_ril.Common.{
  ℕ, none, some, List, [], ◌∷◌, codes, replicate, ◌≡◌, refl, inl, inr, arith, str_eq,
}
use sxx_ril.Misc.{str_starts_with}
use sxx_ril.Manager.Modems.{Added, register_modem-Added}
use sxx_ril.Manager.Overrides.{Registration, register_all, process_request-register_all}
use sxx_ril.Manager.Unsolicited.{process-register_unsolicited}
use sxx_ril.Manager.{
  no_request, process_request, UnsolicitedItem, no_unsolicited, register_unsolicited,
  process_unsolicited, ModemSpec, vid_pid_generic,
}

abbrev mh400b_id : ℕ
mh400b_id = 0x05c66000

abbrev registration : ℕ → ℕ → ℕ → Registration ℕ
registration request handler vid = record { request = request; handler = handler; vid_pid = vid }

-- RADIO_POWER has a handler for the modem, and a default one that is registered later.
abbrev registrations : List (Registration ℕ)
registrations =
    registration 23 400 mh400b_id
    ∷ registration 10 1 vid_pid_generic
    ∷ registration 23 2 vid_pid_generic
    ∷ registration 23 3 0x12d11001
    ∷ []

overrides :
    (process_request 23 (register_all mh400b_id registrations (replicate 8 no_request)) ≡ some 400)
    × (process_request 10 (register_all mh400b_id registrations (replicate 8 no_request)) ≡ some 1)
    × (process_request 11 (register_all mh400b_id registrations (replicate 8 no_request)) ≡ none)
unfolding process_request register_all
overrides = (refl, refl, refl)

process_request-register_all_example :
    process_request 23 (register_all mh400b_id registrations (replicate 8 no_request)) ≡ some 400
process_request-register_all_example =
    process_request-register_all mh400b_id 23 8 registrations (omega arith) (omega arith)
      (omega arith)

abbrev lines : List (UnsolicitedItem ℕ)
lines =
    record { prefix = some (codes "+CMT"); handler = some 1; vid_pid = vid_pid_generic }
    ∷ no_unsolicited
    ∷ no_unsolicited
    ∷ []

process-register_unsolicited_example :
    process_unsolicited
      (codes "+CMTI: 3")
      (register_unsolicited mh400b_id (codes "+CMTI:") 7 mh400b_id lines)
    ≡ some 1
unfolding str_eq str_starts_with
process-register_unsolicited_example =
    process-register_unsolicited mh400b_id mh400b_id (codes "+CMTI: 3") (codes "+CMTI:") 7 lines
      (inr ((codes "+CMT", refl), inl (refl, (refl, tt))))

abbrev mh400b : ModemSpec ℕ
mh400b = record {
  name = codes "MH400B";
  at_port = codes "/dev/ttyUSB1";
  data_port = codes "/dev/ttyUSB3";
  chat_option = none;
  vid_pid = mh400b_id;
  init = 0;
  bringup = none;
  periodic = none;
}

register_modem-Added_example : Added mh400b (none ∷ none ∷ [])
register_modem-Added_example =
    register_modem-Added mh400b (none ∷ none ∷ []) (omega arith) (refl, tt) (omega arith)
