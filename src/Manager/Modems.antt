-- ===== src/Manager/Modems.antt =====
-- sxx-ril-manager.c: the table of supported modems.
use sxx_ril.Common.{
  ℕ, suc, ◌<◌, Option, none, some, List, [], ◌∷◌, ◌==◌, if◌then◌else◌, ◌≡◌, ◌≢◌, refl, arith,
}
use sxx_ril.Manager.{ModemSpec, register_modem, check_match}

module _ {C : Type 0} where
  abbrev pub AllFree : List (Option (ModemSpec C)) → Type 0
  AllFree [] = Unit {0}
  AllFree (m ∷ modems) = (m ≡ none) × AllFree modems

  -- The modems come first, each with an id; the rest is free.
  abbrev pub IsModems : List (Option (ModemSpec C)) → Type 0
  IsModems [] = Unit {0}
  IsModems (none ∷ modems) = AllFree modems
  IsModems (some m ∷ modems) = (m.vid_pid ≢ 0) × IsModems modems

  abbrev pub free_slots : List (Option (ModemSpec C)) → ℕ
  free_slots [] = 0
  free_slots (none ∷ modems) = suc (free_slots modems)
  free_slots (some m ∷ modems) = free_slots modems

  -- What a lookup finds when `modem` is added behind what it found before.
  abbrev pub added : ModemSpec C → ℕ → Option (ModemSpec C) → Option (ModemSpec C)
  added modem id (some m) = some m
  added modem id none = if modem.vid_pid == id then some modem else none

  AllFree-IsModems : (modems : List (Option (ModemSpec C))) → AllFree modems → IsModems modems
  AllFree-IsModems [] f = tt
  AllFree-IsModems (none ∷ modems) f = f.1
  AllFree-IsModems (some m ∷ modems) f = cc f.0

  check_match-AllFree :
      (id : ℕ) (modems : List (Option (ModemSpec C)))
      → AllFree modems
      → check_match id modems ≡ none
  unfolding check_match
  check_match-AllFree id [] f = refl
  check_match-AllFree id (none ∷ modems) f = refl
  check_match-AllFree id (some m ∷ modems) f = cc f.0

  -- The table that a registration leaves.
  pub record Added (modem : ModemSpec C) (modems : List (Option (ModemSpec C))) : Type 0 where
    pub table : List (Option (ModemSpec C))
    pub returns :
        register_modem modem modems ≡ some (record { table = table; called = modem.bringup })
    pub well_formed : IsModems table
    pub takes_one : suc (free_slots table) ≡ free_slots modems
    pub finds : (id : ℕ) → check_match id table ≡ added modem id (check_match id modems)

  Added-here :
      (modem : ModemSpec C) (modems : List (Option (ModemSpec C)))
      → modem.vid_pid ≢ 0
      → AllFree modems
      → Added modem (none ∷ modems)
  Added-here modem modems ne f = record {
    table = some modem ∷ modems;
    returns = unfold register_modem in refl;
    well_formed = (ne, AllFree-IsModems modems f);
    takes_one = refl;
    finds = λ id. found id;
  }
    where
      found :
          (id : ℕ)
          → check_match id (some modem ∷ modems) ≡ added modem id (check_match id (none ∷ modems))
      found id = unfold check_match in ground (arith, check_match-AllFree id modems f)

  Added-cons :
      (modem m : ModemSpec C) (modems : List (Option (ModemSpec C)))
      → m.vid_pid ≢ 0
      → Added modem modems
      → Added modem (some m ∷ modems)
  Added-cons modem m modems ne a = record {
    table = some m ∷ a.table;
    returns = unfold register_modem in ground (arith, a.returns);
    well_formed = (ne, a.well_formed);
    takes_one = a.takes_one;
    finds = λ id. found id;
  }
    where
      found :
          (id : ℕ)
          → check_match id (some m ∷ a.table) ≡ added modem id (check_match id (some m ∷ modems))
      found id = unfold check_match in ground (arith, a.finds id)

  -- While a slot is free, `register_modem` adds a modem with an id: the table stays well formed
  -- with one free slot less, the `bringup` of this modem is called if it has one, and `check_match` finds the new modem by its id exactly where it found
  -- none before, and every other modem as before.
  pub register_modem-Added :
      (modem : ModemSpec C) (modems : List (Option (ModemSpec C)))
      → modem.vid_pid ≢ 0
      → IsModems modems
      → 0 < free_slots modems
      → Added modem modems
  register_modem-Added modem [] ne t room = absurd (omega arith)
  register_modem-Added modem (none ∷ modems) ne t room = Added-here modem modems ne t
  register_modem-Added modem (some m ∷ modems) ne t room =
      Added-cons modem m modems t.0 (register_modem-Added modem modems ne t.1 room)

  -- With no free slot the registration ends the process.
  pub register_modem_full :
      (modem : ModemSpec C) (modems : List (Option (ModemSpec C)))
      → IsModems modems
      → free_slots modems ≡ 0
      → register_modem modem modems ≡ none
  unfolding register_modem
  register_modem_full modem [] t full = refl
  register_modem_full modem (none ∷ modems) t full = absurd (omega arith)
  register_modem_full modem (some m ∷ modems) t full =
      ground (arith, register_modem_full modem modems t.1 full)
