-- ===== src/Manager/Requests.antt =====
-- sxx-ril-manager.c: the table of requests refines a map from requests to their items.
use sxx_ril.Common.{
  ℕ, zero, suc, ◌+◌, ◌≤◌, Bool, true, false, Option, none, some, List, [], ◌∷◌, ◌==◌, if◌then◌else◌,
  replicate, ◌≡◌, ◌≢◌, refl, ◌⊎◌, inl, inr, arith, Bool-cases, ltb,
}
use sxx_ril.Manager.{RequestItem, no_request, place_request, process_request, vid_pid_generic}

module _ {H : Type 0} where
  -- All slots are free.
  abbrev pub AllFree : List (RequestItem H) → Type 0
  AllFree [] = Unit {0}
  AllFree (r ∷ items) = (r.request ≡ 0) × (r.handler ≡ none) × AllFree items

  -- The used slots come first and have handlers; the rest are free.
  abbrev pub IsTable : List (RequestItem H) → Type 0
  IsTable [] = Unit {0}
  IsTable (r ∷ items) =
      AllFree (r ∷ items) ⊎ ((r.request ≢ 0) × ((h : H) × (r.handler ≡ some h)) × IsTable items)

  pub AllFree-IsTable : (items : List (RequestItem H)) → AllFree items → IsTable items
  AllFree-IsTable [] h = tt
  AllFree-IsTable (r ∷ items) h = inl h

  -- The abstract view: the item of a request.
  abbrev pub owner : ℕ → List (RequestItem H) → Option (RequestItem H)
  owner q [] = none
  owner q (r ∷ items) = if r.request == q then some r else owner q items

  abbrev pub free_slots : List (RequestItem H) → ℕ
  free_slots [] = 0
  free_slots (r ∷ items) = (if r.request == 0 then 1 else 0) + free_slots items

  abbrev pub handler_of : Option (RequestItem H) → Option H
  handler_of none = none
  handler_of (some r) = r.handler

  pub owner-AllFree :
      (q : ℕ) (items : List (RequestItem H)) → q ≢ 0 → AllFree items → owner q items ≡ none
  owner-AllFree q [] ne h = refl
  owner-AllFree q (r ∷ items) ne h = ground (arith, owner-AllFree q items ne h.2)

  pub process_request-owner :
      (q : ℕ) (items : List (RequestItem H))
      → q ≢ 0
      → IsTable items
      → process_request q items ≡ handler_of (owner q items)
  unfolding process_request
  process_request-owner q [] ne h = refl
  process_request-owner q (r ∷ items) ne (inl h) = ground (arith, owner-AllFree q (r ∷ items) ne h)
  process_request-owner q (r ∷ items) ne (inr (used, (h, e), t)) =
      ground (arith, process_request-owner q items ne t)

  abbrev pub new_item : ℕ → H → ℕ → RequestItem H
  new_item q h v = record { request = q; handler = some h; vid_pid = v }

  -- What a registration makes of the item of its request: a generic one is replaced, one for a
  -- modem stays, and a new one wants a free slot.
  abbrev pub overridden : ℕ → H → ℕ → Bool → Option (RequestItem H) → Option (RequestItem H)
  overridden q h v room (some r) =
      if r.vid_pid == vid_pid_generic then some (new_item q h v) else some r
  overridden q h v room none = if room then some (new_item q h v) else none

  place_request-AllFree :
      (q : ℕ) (h : H) (v : ℕ) (r : RequestItem H) (items : List (RequestItem H))
      → r.request ≡ 0
      → place_request q h v (r ∷ items) ≡ new_item q h v ∷ items
  unfolding place_request
  place_request-AllFree q h v r items e = ground arith

  place_request_other :
      (q : ℕ) (h : H) (v : ℕ) (r : RequestItem H) (items : List (RequestItem H))
      → r.request ≢ 0
      → (r.request == q) ≡ false
      → place_request q h v (r ∷ items) ≡ r ∷ place_request q h v items
  unfolding place_request
  place_request_other q h v r items used other = ground arith

  place_request_generic :
      (q : ℕ) (h : H) (v : ℕ) (r : RequestItem H) (items : List (RequestItem H))
      → (r.request == q) ≡ true
      → (r.vid_pid == vid_pid_generic) ≡ true
      → place_request q h v (r ∷ items) ≡ new_item q h v ∷ items
  unfolding place_request
  place_request_generic q h v r items same generic = ground arith

  place_request_specific :
      (q : ℕ) (h : H) (v : ℕ) (r : RequestItem H) (items : List (RequestItem H))
      → r.request ≢ 0
      → (r.request == q) ≡ true
      → (r.vid_pid == vid_pid_generic) ≡ false
      → place_request q h v (r ∷ items) ≡ r ∷ items
  unfolding place_request
  place_request_specific q h v r items used same specific = ground arith

  -- A registration takes one free slot at most.
  pub free_slots-place_request :
      (q : ℕ) (h : H) (v : ℕ) (items : List (RequestItem H))
      → free_slots items ≤ suc (free_slots (place_request q h v items))
  unfolding place_request
  free_slots-place_request q h v [] = omega arith
  free_slots-place_request q h v (r ∷ items) = ground (arith, free_slots-place_request q h v items)

  pub place_request-IsTable :
      (q : ℕ) (h : H) (v : ℕ) (items : List (RequestItem H))
      → q ≢ 0
      → IsTable items
      → IsTable (place_request q h v items)
  place_request-IsTable q h v [] ne t = unfold place_request in tt
  place_request-IsTable q h v (r ∷ items) ne (inl f) =
      rw (place_request-AllFree q h v r items f.0) (inr (ne, (h, refl), AllFree-IsTable items f.2))
  place_request-IsTable q h v (r ∷ items) ne (inr (used, some_handler, t)) =
      elim (Bool-cases (r.request == q)) [
        | inr other ↦
            rw (place_request_other q h v r items used other)
              (inr (used, some_handler, place_request-IsTable q h v items ne t))
        | inl same ↦ elim (Bool-cases (r.vid_pid == vid_pid_generic)) [
          | inl generic ↦
              rw (place_request_generic q h v r items same generic) (inr (ne, (h, refl), t))
          | inr specific ↦
              rw (place_request_specific q h v r items used same specific)
                (inr (used, some_handler, t))
        ]
      ]

  -- Registering a request changes the item of that request only, and that by `overridden`.
  pub owner-place_request :
      (q q' : ℕ) (h : H) (v : ℕ) (items : List (RequestItem H))
      → q ≢ 0
      → q' ≢ 0
      → IsTable items
      → owner q' (place_request q h v items) ≡ (
          if q == q'
          then overridden q h v (ltb 0 (free_slots items)) (owner q items)
          else owner q' items)
  unfolding place_request
  owner-place_request q q' h v [] ne ne' t = ground arith
  owner-place_request q q' h v (r ∷ items) ne ne' (inl f) =
      ground (arith, owner-AllFree q' items ne' f.2, owner-AllFree q items ne f.2)
  owner-place_request q q' h v (r ∷ items) ne ne' (inr (used, (k, e), t)) =
      ground (arith, owner-place_request q q' h v items ne ne' t)

-- The table after `ril_manager_init`.
pub zeroed-AllFree : (H : Type 0) (n : ℕ) → AllFree (replicate n (no_request {H = H}))
zeroed-AllFree H zero = tt
zeroed-AllFree H (suc n) = (refl, refl, zeroed-AllFree H n)

pub free_slots_zeroed : (H : Type 0) (n : ℕ) → free_slots (replicate n (no_request {H = H})) ≡ n
free_slots_zeroed H zero = refl
free_slots_zeroed H (suc n) = omega (arith, free_slots_zeroed H n)
