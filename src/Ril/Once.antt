-- ===== src/Ril/Once.antt =====
-- A rule for "the request is completed exactly once", by the shape of a program.
use sxx_ril.Common.{
  ℕ, zero, suc, ◌≤◌, Bool, true, false, Option, none, some, List, [], ◌∷◌, Text, ◌≡◌, ◌≢◌, refl, ap,
  arith, if◌then◌else◌,
}
use sxx_ril.Channel.State.{Response, AtError}
use sxx_ril.Tok.{Result, ok, fail}
use sxx_ril.Ril.{
  At, Answer, Program, done, undefined, send, complete, notify, schedule, property_set, invoke, get,
  put, Modem, World, Vars, Status, finished, waiting, faulty, Trace, on_answer, run, completions,
  HasLine, IsReady, Allowed, AllowedOn, Keeps, Responsive,
}
use sxx_ril.Ril.Steps.{checked, check, first_line, reading, reply_checked, started}

-- What a run of such a program is, `k` being its completions: all `n` if it ends, and no more if
-- a command never returns; and nothing undefined happens.
abbrev pub SettlesWith : ℕ → Status → ℕ → Type 0
SettlesWith n finished k = k ≡ n
SettlesWith n waiting k = k ≤ n
SettlesWith n faulty k = ⊥

more : (n k : ℕ) (s : Status) → SettlesWith n s k → SettlesWith (suc n) s (suc k)
more n k finished h = ap suc h
more n k waiting h = omega (arith, h)
more n k faulty h = h

module _ {P : Type 0} where
  -- `n` completions are still to come, whatever the answers that are `Good`.
  abbrev pub CompletesIf : (At → Bool → Answer → Type 0) → ℕ → Program P → Type 0
  CompletesIf Good n done = n ≡ 0
  CompletesIf Good n undefined = ⊥
  CompletesIf Good n (send at want k) = (a : Answer) → Good at want a → CompletesIf Good n (k a)
  CompletesIf Good zero (complete e p rest) = ⊥
  CompletesIf Good (suc n) (complete e p rest) = CompletesIf Good n rest
  CompletesIf Good n (notify u p rest) = CompletesIf Good n rest
  CompletesIf Good n (schedule c rest) = CompletesIf Good n rest
  CompletesIf Good n (property_set key value rest) = CompletesIf Good n rest
  CompletesIf Good n (invoke job rest) = CompletesIf Good n rest
  CompletesIf Good n (get k) = (v : Vars) → CompletesIf Good n (k v)
  CompletesIf Good n (put v rest) = CompletesIf Good n rest

  -- Whatever the answers that the channel allows.
  abbrev pub Completes : ℕ → Program P → Type 0
  Completes = CompletesIf Allowed

  -- With fewer answers there are fewer runs.
  pub CompletesIf-mono :
      (G H : At → Bool → Answer → Type 0)
      → ((at : At) (want : Bool) (a : Answer) → H at want a → G at want a)
      → (n : ℕ) (p : Program P) → CompletesIf G n p
      → CompletesIf H n p
  CompletesIf-mono G H i n done h = h
  CompletesIf-mono G H i n undefined h = h
  CompletesIf-mono G H i n (send at want k) h =
      λ a ok. CompletesIf-mono G H i n (k a) (h a (i at want a ok))
  CompletesIf-mono G H i zero (complete e p rest) h = h
  CompletesIf-mono G H i (suc n) (complete e p rest) h = CompletesIf-mono G H i n rest h
  CompletesIf-mono G H i n (notify u p rest) h = CompletesIf-mono G H i n rest h
  CompletesIf-mono G H i n (schedule c rest) h = CompletesIf-mono G H i n rest h
  CompletesIf-mono G H i n (property_set key value rest) h = CompletesIf-mono G H i n rest h
  CompletesIf-mono G H i n (invoke job rest) h = CompletesIf-mono G H i n rest h
  CompletesIf-mono G H i n (get k) h = λ v. CompletesIf-mono G H i n (k v) (h v)
  CompletesIf-mono G H i n (put v rest) h = CompletesIf-mono G H i n rest h

  abbrev pub Settles : ℕ → Trace P → Type 0
  Settles n t = SettlesWith n t.status (completions t.events)

  module _ (m : Modem) where
    on_answer-Settles :
        (n : ℕ) (v : Vars) (at : At) (want : Bool) (s : m.State) (o : Option (Answer × m.State))
        (k : Answer → m.State → Trace P)
        → ((a : Answer) (t : m.State) → o ≡ some (a, t) → Settles n (k a t))
        → Settles n (on_answer v o k)
    on_answer-Settles n v at want s none k h = omega arith
    on_answer-Settles n v at want s (some (a, t)) k h = h a t refl

    -- A run with a modem that keeps the promise settles.
    pub run-Settles :
        (Good : At → Bool → Answer → Type 0) (n : ℕ) (p : Program P) (w : World m.State)
        → Keeps m Good
        → CompletesIf Good n p
        → Settles n (run m w p)
    unfolding run
    run-Settles Good n done w i h = omega (arith, h)
    run-Settles Good n undefined w i h = h
    run-Settles Good n (send at want k) w i h =
        on_answer-Settles n w.vars at want w.modem (m.answer w.modem at want) _ (λ a t e.
          run-Settles Good n (k a) (record w { modem = t }) i (h a (i w.modem t at want a e)))
    run-Settles Good zero (complete e p rest) w i h = absurd h
    run-Settles Good (suc n) (complete e p rest) w i h = more n _ _ (run-Settles Good n rest w i h)
    run-Settles Good n (notify u p rest) w i h = run-Settles Good n rest w i h
    run-Settles Good n (schedule c rest) w i h = run-Settles Good n rest w i h
    run-Settles Good n (property_set key value rest) w i h = run-Settles Good n rest w i h
    run-Settles Good n (invoke job rest) w i h = run-Settles Good n rest w i h
    run-Settles Good n (get k) w i h = run-Settles Good n (k w.vars) w i (h w.vars)
    run-Settles Good n (put v rest) w i h = run-Settles Good n rest (record w { vars = v }) i h

    -- With a modem that answers every command, a run does not wait for ever.
    run_not_waiting :
        (p : Program P) (w : World m.State) → Responsive m → (run m w p).status ≢ waiting
    unfolding run
    run_not_waiting done w r e = cc
    run_not_waiting undefined w r e = cc
    run_not_waiting (send at want k) w r e =
        answered (m.answer w.modem at want) (r w.modem at want)
          (λ a t. run_not_waiting (k a) (record w { modem = t }) r) e
      where
        answered :
            (o : Option (Answer × m.State))
            → o ≢ none
            → ((a : Answer) (t : m.State) → (run m (record w { modem = t }) (k a)).status ≢ waiting)
            → (on_answer w.vars o (λ a t. run m (record w { modem = t }) (k a))).status ≢ waiting
        answered none ne h = absurd (ne refl)
        answered (some (a, t)) ne h = h a t
    run_not_waiting (complete c p rest) w r e = run_not_waiting rest w r e
    run_not_waiting (notify u p rest) w r e = run_not_waiting rest w r e
    run_not_waiting (schedule c rest) w r e = run_not_waiting rest w r e
    run_not_waiting (property_set key value rest) w r e = run_not_waiting rest w r e
    run_not_waiting (invoke job rest) w r e = run_not_waiting rest w r e
    run_not_waiting (get k) w r e = run_not_waiting (k w.vars) w r e
    run_not_waiting (put v rest) w r e = run_not_waiting rest (record w { vars = v }) r e

    settled_finished :
        (n : ℕ) (t : Trace P)
        → Settles n t
        → t.status ≢ waiting
        → (t.status ≡ finished) × (completions t.events ≡ n)
    settled_finished n t h ne = by_status t.status h ne
      where
        by_status :
            (s : Status)
            → SettlesWith n s (completions t.events)
            → s ≢ waiting
            → (s ≡ finished) × (completions t.events ≡ n)
        by_status finished h ne = (refl, h)
        by_status waiting h ne = absurd (ne refl)
        by_status faulty h ne = absurd h

    -- With such a modem the run ends, with all its completions.
    pub run_finishes :
        (Good : At → Bool → Answer → Type 0) (n : ℕ) (p : Program P) (w : World m.State)
        → Keeps m Good
        → Responsive m
        → CompletesIf Good n p
        → ((run m w p).status ≡ finished) × (completions (run m w p).events ≡ n)
    run_finishes Good n p w i r h =
        settled_finished n (run m w p) (run-Settles Good n p w i h) (run_not_waiting p w r)

  -- The steps that handlers share.
  pub check-Completes :
      (Good : At → Bool → Answer → Type 0) (n : ℕ) (a : Answer) (at : At) (fails : Program P)
      (holds : Response → Program P)
      → Allowed at true a
      → CompletesIf Good n fails
      → ((r : Response) → r.success ≡ true → IsReady at r → CompletesIf Good n (holds r))
      → CompletesIf Good n (check a fails holds)
  check-Completes Good n a at fails holds h f k = by_error a.err a.response h
    where
      by_success :
          (r : Response)
          → (b : Bool) → r.success ≡ b
          → IsReady at r
          → CompletesIf Good n (if b then holds r else fails)
      by_success r true e h = k r e h
      by_success r false e h = f

      by_error :
          (e : Option AtError) (r : Option Response)
          → AllowedOn at true e r
          → CompletesIf Good n (checked e r fails holds)
      by_error (some e) r h = f
      by_error none none h = absurd h
      by_error none (some r) h = by_success r r.success refl h

  pub first_line-Completes :
      (Good : At → Bool → Answer → Type 0) (n : ℕ) (r : Response) (k : Text → Program P)
      → r.success ≡ true
      → HasLine r.success r.intermediates
      → ((line : Text) → CompletesIf Good n (k line))
      → CompletesIf Good n (first_line r.intermediates k)
  first_line-Completes Good n r k s h c = by_lines r.success r.intermediates s h
    where
      by_lines :
          (b : Bool) (lines : List Text)
          → b ≡ true
          → HasLine b lines
          → CompletesIf Good n (first_line lines k)
      by_lines true [] s h = absurd h
      by_lines false [] s h = cc
      by_lines b (line ∷ lines) s h = c line

  pub reading-Completes :
      {A : Type 0} (Good : At → Bool → Answer → Type 0) (n : ℕ) (r : Result A) (fails : Program P)
      (k : A → Option Text → Program P)
      → CompletesIf Good n fails
      → ((a : A) (cur : Option Text) → CompletesIf Good n (k a cur))
      → CompletesIf Good n (reading r fails k)
  reading-Completes Good n (ok a cur) fails k f h = h a cur
  reading-Completes Good n (fail cur) fails k f h = f

  pub started-Completes :
      (Good : At → Bool → Answer → Type 0) (n : ℕ) (o : Option Text) (fails : Program P)
      (k : Option Text → Program P)
      → CompletesIf Good n fails
      → ((cur : Option Text) → CompletesIf Good n (k cur))
      → CompletesIf Good n (started o fails k)
  started-Completes Good n none fails k f h = f
  started-Completes Good n (some rest) fails k f h = h (some rest)

  -- A branch on a test.
  pub if-Completes :
      (Good : At → Bool → Answer → Type 0) (n : ℕ) (b : Bool) (p q : Program P)
      → CompletesIf Good n p
      → CompletesIf Good n q
      → CompletesIf Good n (if b then p else q)
  if-Completes Good n true p q h k = h
  if-Completes Good n false p q h k = k

  -- A request that reports whether its command has succeeded.
  pub reply_checked-Completes : (at : At) (null : P) → Completes 1 (reply_checked at null)
  reply_checked-Completes at null =
      λ a ok. check-Completes Allowed 1 a at _ _ ok refl (λ r s i. refl)
