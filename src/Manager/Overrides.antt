-- ===== src/Manager/Overrides.antt =====
-- sxx-ril-manager.c: which handler a request reaches after all the registrations of the library's
-- constructors, in whatever order these run.
use sxx_ril.Common.{
  ℕ, suc, ◌<◌, ◌≤◌, Bool, true, false, not, ◌&&◌, Option, none, some, List, [], ◌∷◌, ◌==◌, ltb,
  if◌then◌else◌, replicate, ◌≡◌, ◌≢◌, refl, ap, ◌∙◌, ◌⊎◌, inl, inr, arith, Bool-cases, ==_iff,
  length,
}
use sxx_ril.Manager.Requests.{
  IsTable, AllFree-IsTable, zeroed-AllFree, owner, free_slots, handler_of, overridden,
  owner-AllFree, process_request-owner, owner-place_request, place_request-IsTable,
  free_slots-place_request, free_slots_zeroed,
}
use sxx_ril.Manager.{RequestItem, no_request, register_request, process_request, vid_pid_generic}

-- One call of `register_request`.
pub record Registration (H : Type 0) : Type 0 where
  pub request : ℕ
  pub handler : H
  pub vid_pid : ℕ

module _ {H : Type 0} (modem : ℕ) where
  -- The calls in their order.
  unfoldable pub register_all : List (Registration H) → List (RequestItem H) → List (RequestItem H)
  unfolding register_request
  register_all [] items = items
  register_all (g ∷ gs) items =
      register_all gs (register_request modem g.request g.handler g.vid_pid items)

  abbrev pub is_generic : ℕ → Registration H → Bool
  is_generic q g = g.request == q && g.vid_pid == vid_pid_generic

  abbrev pub is_specific : ℕ → Registration H → Bool
  is_specific q g = g.request == q && (not (g.vid_pid == vid_pid_generic) && g.vid_pid == modem)

  abbrev pub or_else : Option H → Option H → Option H
  or_else (some h) o = some h
  or_else none o = o

  -- The first registration for the modem in use.
  abbrev pub first_specific : ℕ → List (Registration H) → Option H
  first_specific q [] = none
  first_specific q (g ∷ gs) = if is_specific q g then some g.handler else first_specific q gs

  -- The last registration for every modem.
  abbrev pub last_generic : ℕ → List (Registration H) → Option H
  last_generic q [] = none
  last_generic q (g ∷ gs) =
      or_else (last_generic q gs) (if is_generic q g then some g.handler else none)

  abbrev AllNamed : List (Registration H) → Type 0
  AllNamed [] = Unit {0}
  AllNamed (g ∷ gs) = (g.request ≢ 0) × AllNamed gs

  -- What the registrations still to come make of the item that a request has.
  abbrev settled : Option H → Option H → Option (RequestItem H) → Option H
  settled specific generic none = or_else specific generic
  settled specific generic (some r) =
      if r.vid_pid == vid_pid_generic
      then or_else specific (or_else generic r.handler)
      else r.handler

  -- One registration, seen from the request `q`.
  abbrev step : ℕ → Registration H → Option (RequestItem H) → Option (RequestItem H)
  step q g o =
      if not (g.vid_pid == vid_pid_generic) && not (g.vid_pid == modem)
      then o
      else if g.request == q
      then overridden g.request g.handler g.vid_pid true o
      else o

  owner-register_request :
      (q : ℕ) (g : Registration H) (items : List (RequestItem H))
      → q ≢ 0
      → g.request ≢ 0
      → IsTable items
      → 0 < free_slots items
      → owner q (register_request modem g.request g.handler g.vid_pid items)
        ≡ step q g (owner q items)
  unfolding register_request
  owner-register_request q g items ne named t room =
      elim (Bool-cases (not (g.vid_pid == vid_pid_generic) && not (g.vid_pid == modem))) [
        | inl skipped ↦ rw (skipped, if◌then◌else◌) refl
        | inr kept ↦ rw kept (
            owner-place_request g.request q g.handler g.vid_pid items named ne t
            ∙ placed (Bool-cases (g.request == q)))
      ]
    where
      has_room : ltb 0 (free_slots items) ≡ true
      has_room = ground arith

      placed :
          ((g.request == q) ≡ true) ⊎ ((g.request == q) ≡ false)
          → (if g.request == q
              then overridden g.request g.handler g.vid_pid
                  (ltb 0 (free_slots items))
                  (owner g.request items)
              else owner q items)
            ≡ (if g.request == q
                then overridden g.request g.handler g.vid_pid true (owner q items)
                else owner q items)
      placed (inl e) =
          rw (e, has_room)
            (ap (λ (k : ℕ). overridden g.request g.handler g.vid_pid true (owner k items))
              ((==_iff g.request q).0 e))
      placed (inr e) = rw e refl

  settled-step :
      (q : ℕ) (g : Registration H) (gs : List (Registration H)) (o : Option (RequestItem H))
      → settled (first_specific q gs) (last_generic q gs) (step q g o)
        ≡ settled (first_specific q (g ∷ gs)) (last_generic q (g ∷ gs)) o
  settled-step q g gs none = ground arith
  settled-step q g gs (some r) = ground arith

  register_request-IsTable :
      (g : Registration H) (items : List (RequestItem H))
      → g.request ≢ 0
      → IsTable items
      → IsTable (register_request modem g.request g.handler g.vid_pid items)
  unfolding register_request
  register_request-IsTable g items named t =
      elim (Bool-cases (not (g.vid_pid == vid_pid_generic) && not (g.vid_pid == modem))) [
        | inl skipped ↦ rw skipped t
        | inr kept ↦ rw kept (place_request-IsTable g.request g.handler g.vid_pid items named t)
      ]

  free_slots-register_request :
      (g : Registration H) (items : List (RequestItem H))
      → free_slots items
        ≤ suc (free_slots (register_request modem g.request g.handler g.vid_pid items))
  unfolding register_request
  free_slots-register_request g items =
      ground (arith, free_slots-place_request g.request g.handler g.vid_pid items)

  register_all-cons :
      (g : Registration H) (gs : List (Registration H)) (items : List (RequestItem H))
      → register_all (g ∷ gs) items
        ≡ register_all gs (register_request modem g.request g.handler g.vid_pid items)
  unfolding register_all
  register_all-cons g gs items = refl

  register_all-nil : (items : List (RequestItem H)) → register_all [] items ≡ items
  unfolding register_all
  register_all-nil items = refl

  handler_of-settled : (o : Option (RequestItem H)) → handler_of o ≡ settled none none o
  handler_of-settled none = refl
  handler_of-settled (some r) = ground arith

  register_all-settled :
      (q : ℕ) (gs : List (Registration H)) (items : List (RequestItem H))
      → q ≢ 0
      → AllNamed gs
      → IsTable items
      → length gs ≤ free_slots items
      → process_request q (register_all gs items)
        ≡ settled (first_specific q gs) (last_generic q gs) (owner q items)
  register_all-settled q [] items ne named t room =
      ap (process_request q) (register_all-nil items)
      ∙ process_request-owner q items ne t
      ∙ handler_of-settled (owner q items)
  register_all-settled q (g ∷ gs) items ne (first, named) t room =
      let next = register_request modem g.request g.handler g.vid_pid items in
      ap (process_request q) (register_all-cons g gs items)
      ∙ register_all-settled q gs next ne named (register_request-IsTable g items first t)
          (omega (arith, free_slots-register_request g items))
      ∙ ap (settled (first_specific q gs) (last_generic q gs))
          (owner-register_request q g items ne first t (omega arith))
      ∙ settled-step q g gs (owner q items)

  -- After the calls of `register_request` in `gs`, in any order and with any repetition, on the
  -- zeroed table of `n` slots, at least as many as there are calls, `process_request` calls for a
  -- request the first handler that was registered for the modem in use, whatever was registered
  -- for every modem before or after it; without one, the last handler for every modem; and else none.
  pub process_request-register_all :
      (q n : ℕ) (gs : List (Registration H))
      → q ≢ 0
      → AllNamed gs
      → length gs ≤ n
      → process_request q (register_all gs (replicate n no_request))
        ≡ or_else (first_specific q gs) (last_generic q gs)
  process_request-register_all q n gs ne named room =
      let free = zeroed-AllFree H n in
      register_all-settled q gs (replicate n no_request) ne named (AllFree-IsTable _ free)
        (omega (arith, free_slots_zeroed H n))
      ∙ ap (settled (first_specific q gs) (last_generic q gs)) (owner-AllFree q _ ne free)
