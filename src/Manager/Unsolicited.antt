-- ===== src/Manager/Unsolicited.antt =====
-- sxx-ril-manager.c: the table of unsolicited handlers. A line goes to the first prefix that it
-- begins with, in the order in which the prefixes were first registered.
use sxx_ril.Common.{
  ℕ, ◌+◌, Bool, true, false, not, ◌&&◌, ◌||◌, Option, none, some, List, [], ◌∷◌, ◌==◌,
  if◌then◌else◌, ◌≡◌, refl, ap, ◌∙◌, ◌⊎◌, inl, inr, arith, ltb, Text, str_eq, str_eq_iff,
}
use sxx_ril.Misc.{str_starts_with}
use sxx_ril.Manager.{
  UnsolicitedItem, place_unsolicited, register_unsolicited, process_unsolicited, vid_pid_generic,
  is_null, applies,
}

-- The prefixes keep their places, and a new one comes behind them.
abbrev pub matched_with : Text → Text → Bool → Option Text → Option Text
matched_with p s room (some q) = some q
matched_with p s room none = if room && str_starts_with s p then some p else none

module _ {H : Type 0} where
  abbrev pub AllFree : List (UnsolicitedItem H) → Type 0
  AllFree [] = Unit {0}
  AllFree (u ∷ items) = (u.prefix ≡ none) × AllFree items

  -- The used slots come first; the rest are free.
  abbrev pub IsTable : List (UnsolicitedItem H) → Type 0
  IsTable [] = Unit {0}
  IsTable (u ∷ items) = AllFree (u ∷ items) ⊎ (((p : Text) × (u.prefix ≡ some p)) × IsTable items)

  abbrev has_prefix : Text → UnsolicitedItem H → Bool
  has_prefix p u = elim u.prefix [ none ↦ false | some q ↦ str_eq q p ]

  -- The item of a prefix.
  abbrev pub item : Text → List (UnsolicitedItem H) → Option (UnsolicitedItem H)
  item p [] = none
  item p (u ∷ items) = if has_prefix p u then some u else item p items

  -- The first prefix that a line begins with.
  abbrev pub matched : Text → List (UnsolicitedItem H) → Option Text
  matched s [] = none
  matched s (u ∷ items) = elim u.prefix [
    | none ↦ none
    | some p ↦ if str_starts_with s p then some p else matched s items
  ]

  abbrev pub free_slots : List (UnsolicitedItem H) → ℕ
  free_slots [] = 0
  free_slots (u ∷ items) = (if is_null u.prefix then 1 else 0) + free_slots items

  abbrev handler_of : Option (UnsolicitedItem H) → Option H
  handler_of none = none
  handler_of (some u) = u.handler

  abbrev pub handler_at : Option Text → List (UnsolicitedItem H) → Option H
  handler_at none items = none
  handler_at (some p) items = handler_of (item p items)

  abbrev pub new_item : Text → H → ℕ → UnsolicitedItem H
  new_item p h v = record { prefix = some p; handler = some h; vid_pid = v }

  abbrev pub overridden :
      Text → H → ℕ → Bool → Option (UnsolicitedItem H) → Option (UnsolicitedItem H)
  overridden p h v room (some u) =
      if u.vid_pid == vid_pid_generic then some (new_item p h v) else some u
  overridden p h v room none = if room then some (new_item p h v) else none

  item-AllFree : (p : Text) (items : List (UnsolicitedItem H)) → AllFree items → item p items ≡ none
  item-AllFree p [] f = refl
  item-AllFree p (u ∷ items) f = ground (arith, item-AllFree p items f.1)

  matched-AllFree :
      (s : Text) (items : List (UnsolicitedItem H)) → AllFree items → matched s items ≡ none
  matched-AllFree s [] f = refl
  matched-AllFree s (u ∷ items) f = ground (arith, f.0)

  -- Registering a prefix changes the item of that prefix only, and that by `overridden`.
  pub item-place_unsolicited :
      (p p' : Text) (h : H) (v : ℕ) (items : List (UnsolicitedItem H))
      → IsTable items
      → item p' (place_unsolicited p h v items) ≡ (
          if str_eq p p'
          then overridden p h v (ltb 0 (free_slots items)) (item p items)
          else item p' items)
  unfolding place_unsolicited
  item-place_unsolicited p p' h v [] t = ground arith
  item-place_unsolicited p p' h v (u ∷ items) (inl f) =
      ground (arith, item-AllFree p items f.1, item-AllFree p' items f.1)
  item-place_unsolicited p p' h v (u ∷ items) (inr ((q, e), t)) = ground (
    arith,
    str_eq_iff p p',
    str_eq_iff q p,
    str_eq_iff q p',
    item-place_unsolicited p p' h v items t,
  )

  -- The first prefix of a line after a registration.
  pub matched-place_unsolicited :
      (p s : Text) (h : H) (v : ℕ) (items : List (UnsolicitedItem H))
      → IsTable items
      → matched s (place_unsolicited p h v items)
        ≡ matched_with p s (ltb 0 (free_slots items)) (matched s items)
  unfolding place_unsolicited
  matched-place_unsolicited p s h v [] t = refl
  matched-place_unsolicited p s h v (u ∷ items) (inl f) =
      ground (arith, matched-AllFree s items f.1)
  matched-place_unsolicited p s h v (u ∷ items) (inr ((q, e), t)) =
      ground (arith, str_eq_iff q p, matched-place_unsolicited p s h v items t)

  matched-starts :
      (s p : Text) (items : List (UnsolicitedItem H))
      → matched s items ≡ some p
      → str_starts_with s p ≡ true
  matched-starts s p [] e = cc
  matched-starts s p (u ∷ items) e = ground (arith, matched-starts s p items)

  -- A slot whose prefix does not begin the line is not the one that the line goes to.
  handler_at_skip :
      (s q : Text) (u : UnsolicitedItem H) (items : List (UnsolicitedItem H)) (o : Option Text)
      → matched s items ≡ o
      → u.prefix ≡ some q
      → str_starts_with s q ≡ false
      → handler_at o (u ∷ items) ≡ handler_at o items
  handler_at_skip s q u items none m e no_match = refl
  handler_at_skip s q u items (some p) m e no_match =
      ground (arith, matched-starts s p items m, str_eq_iff q p)

  process_unsolicited_used :
      (s q : Text) (u : UnsolicitedItem H) (items : List (UnsolicitedItem H))
      → u.prefix ≡ some q
      → process_unsolicited s items ≡ handler_at (matched s items) items
      → process_unsolicited s (u ∷ items) ≡ handler_at (matched s (u ∷ items)) (u ∷ items)
  unfolding process_unsolicited
  process_unsolicited_used s q u items e rest =
      ground (arith, str_eq_iff q q, handler_at_skip s q u items (matched s items) refl e)

  -- `process_unsolicited` calls the handler that is registered for the first prefix of the line.
  pub process_unsolicited-matched :
      (s : Text) (items : List (UnsolicitedItem H))
      → IsTable items
      → process_unsolicited s items ≡ handler_at (matched s items) items
  process_unsolicited-matched s [] t = unfold process_unsolicited in refl
  process_unsolicited-matched s (u ∷ items) (inl f) = unfold process_unsolicited in ground arith
  process_unsolicited-matched s (u ∷ items) (inr ((q, e), t)) =
      process_unsolicited_used s q u items e (process_unsolicited-matched s items t)

  AllFree-IsTable : (items : List (UnsolicitedItem H)) → AllFree items → IsTable items
  AllFree-IsTable [] f = tt
  AllFree-IsTable (u ∷ items) f = inl f

  place_unsolicited-cases :
      (p : Text) (h : H) (v : ℕ) (u : UnsolicitedItem H) (items : List (UnsolicitedItem H))
      → (place_unsolicited p h v (u ∷ items) ≡ u ∷ place_unsolicited p h v items)
        ⊎ ((place_unsolicited p h v (u ∷ items) ≡ u ∷ items)
            ⊎ (place_unsolicited p h v (u ∷ items) ≡ new_item p h v ∷ items))
  unfolding place_unsolicited
  place_unsolicited-cases p h v u items = ground arith

  place_unsolicited_free :
      (p : Text) (h : H) (v : ℕ) (u : UnsolicitedItem H) (items : List (UnsolicitedItem H))
      → u.prefix ≡ none
      → place_unsolicited p h v (u ∷ items) ≡ new_item p h v ∷ items
  unfolding place_unsolicited
  place_unsolicited_free p h v u items e = ground arith

  -- A registration keeps the table well formed.
  pub place_unsolicited-IsTable :
      (p : Text) (h : H) (v : ℕ) (items : List (UnsolicitedItem H))
      → IsTable items
      → IsTable (place_unsolicited p h v items)
  place_unsolicited-IsTable p h v [] t = unfold place_unsolicited in tt
  place_unsolicited-IsTable p h v (u ∷ items) (inl f) =
      rw (place_unsolicited_free p h v u items f.0) (inr ((p, refl), AllFree-IsTable items f.1))
  place_unsolicited-IsTable p h v (u ∷ items) (inr (used, t)) =
      elim (place_unsolicited-cases p h v u items) [
        | inl later ↦ rw later (inr (used, place_unsolicited-IsTable p h v items t))
        | inr (inl kept) ↦ rw kept (inr (used, t))
        | inr (inr replaced) ↦ rw replaced (inr ((p, refl), t))
      ]

  -- What a line whose first prefix is `o` goes to once `p` is registered on the table `items`.
  abbrev pub dispatched : Text → H → ℕ → Option Text → List (UnsolicitedItem H) → Option H
  dispatched p h v none items = none
  dispatched p h v (some q) items =
      if str_eq p q
      then handler_of (overridden p h v (ltb 0 (free_slots items)) (item p items))
      else handler_of (item q items)

  dispatched_lem :
      (p : Text) (h : H) (v : ℕ) (o : Option Text) (items : List (UnsolicitedItem H))
      → IsTable items
      → handler_at o (place_unsolicited p h v items) ≡ dispatched p h v o items
  dispatched_lem p h v none items t = refl
  dispatched_lem p h v (some q) items t =
      ap handler_of (item-place_unsolicited p q h v items t) ∙ branch (str_eq p q)
    where
      branch :
          (b : Bool)
          → handler_of (
              if b
              then overridden p h v (ltb 0 (free_slots items)) (item p items)
              else item q items)
            ≡ (if b
                then handler_of (overridden p h v (ltb 0 (free_slots items)) (item p items))
                else handler_of (item q items))
      branch true = refl
      branch false = refl

  -- What a line is dispatched to after `register_unsolicited`. A registration for another modem
  -- changes nothing. Otherwise the first prefix of the line is the one that it had before, and the
  -- new prefix only for a line that had none, if a slot is free; a generic handler of the new
  -- prefix is replaced, a handler for the modem stays, and those of other prefixes are untouched.
  pub process-register_unsolicited :
      (modem v : ℕ) (s p : Text) (h : H) (items : List (UnsolicitedItem H))
      → IsTable items
      → process_unsolicited s (register_unsolicited modem p h v items) ≡ (
          if applies modem v
          then dispatched p h v
              (matched_with p s (ltb 0 (free_slots items)) (matched s items))
              items
          else process_unsolicited s items)
  unfolding register_unsolicited
  process-register_unsolicited modem v s p h items t =
      ap (process_unsolicited s) (unfolded (v == vid_pid_generic) (v == modem))
      ∙ branch (applies modem v)
    where
      placed :
          process_unsolicited s (place_unsolicited p h v items)
          ≡ dispatched p h v (matched_with p s (ltb 0 (free_slots items)) (matched s items)) items
      placed =
          process_unsolicited-matched s _ (place_unsolicited-IsTable p h v items t)
          ∙ ap (λ (o : Option Text). handler_at o (place_unsolicited p h v items))
              (matched-place_unsolicited p s h v items t)
          ∙ dispatched_lem p h v _ items t

      unfolded :
          (a b : Bool)
          → (if not a && not b then items else place_unsolicited p h v items)
            ≡ (if a || b then place_unsolicited p h v items else items)
      unfolded true b = refl
      unfolded false true = refl
      unfolded false false = refl

      branch :
          (b : Bool)
          → process_unsolicited s (if b then place_unsolicited p h v items else items) ≡ (
              if b
              then dispatched p h v
                  (matched_with p s (ltb 0 (free_slots items)) (matched s items))
                  items
              else process_unsolicited s items)
      branch true = placed
      branch false = refl
