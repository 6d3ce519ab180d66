-- ===== src/Channel/Write/Complete.antt =====
-- atchannel.c: partial and interrupted writes neither lose nor repeat a byte.
use sxx_ril.Common.{
  ℕ, zero, suc, ◌<◌, true, false, List, [], ◌∷◌, ◌++◌, Text, take, drop, length, length-drop,
  take-append-drop, append_assoc, ◌≡◌, refl, sym, ap, ◌∙◌, ◌≢◌, ◌⊎◌, inl, inr, if◌then◌else◌, arith,
}
use sxx_ril.Channel.State.{Channel}
use sxx_ril.Channel.Write.{
  WriteResult, wrote, interrupted, failed, success, Written, emit, write_end, write_from, writeline,
}

-- What each end of a call says of the bytes `all` that it had to write.
abbrev pub Wrote : Text → Written → Type 0
Wrote all w = (rest : Text) × (w.emitted ++ rest ≡ all) × ((rest ≡ []) ⊎ (w.status ≢ success))

write_end-Wrote : (c : ℕ) (ws : List WriteResult) → Wrote (c ∷ []) (write_end c ws)
unfolding write_end
write_end-Wrote c [] = (c ∷ [], refl, inr (λ e. cc e))
write_end-Wrote c (wrote zero ∷ ws) = write_end-Wrote c ws
write_end-Wrote c (wrote (suc n) ∷ ws) = ([], refl, inl refl)
write_end-Wrote c (interrupted ∷ ws) = write_end-Wrote c ws
write_end-Wrote c (failed ∷ ws) = (c ∷ [], refl, inr (λ e. cc e))

Wrote-emit :
    (n : ℕ) (c : ℕ) (s : Text) (w : Written)
    → Wrote (drop n s ++ (c ∷ [])) w
    → Wrote (s ++ (c ∷ [])) (emit (take n s) w)
Wrote-emit n c s w (rest, e, done) = (rest, whole, done)
  where
    whole : (take n s ++ w.emitted) ++ rest ≡ s ++ (c ∷ [])
    whole =
        append_assoc (take n s) w.emitted rest
        ∙ ap (λ (t : Text). take n s ++ t) e
        ∙ sym (append_assoc (take n s) (drop n s) (c ∷ []))
        ∙ ap (λ (t : Text). t ++ (c ∷ [])) (take-append-drop n s)

write_from-Wrote :
    (c : ℕ) (s : Text) (ws : List WriteResult) → Wrote (s ++ (c ∷ [])) (write_from c s ws)
unfolding write_from
write_from-Wrote c [] ws = write_end-Wrote c ws
write_from-Wrote c (x ∷ s) [] = (x ∷ (s ++ (c ∷ [])), refl, inr (λ e. cc e))
write_from-Wrote c (x ∷ s) (wrote n ∷ ws) =
    Wrote-emit n c (x ∷ s) (write_from c (drop n (x ∷ s)) ws)
      (write_from-Wrote c (drop n (x ∷ s)) ws)
write_from-Wrote c (x ∷ s) (interrupted ∷ ws) = write_from-Wrote c (x ∷ s) ws
write_from-Wrote c (x ∷ s) (failed ∷ ws) = (x ∷ (s ++ (c ∷ [])), refl, inr (λ e. cc e))

-- The calls of `write` that make progress, and none that fails.
abbrev pub progress : List WriteResult → ℕ
progress [] = 0
progress (wrote zero ∷ ws) = progress ws
progress (wrote (suc n) ∷ ws) = suc (progress ws)
progress (interrupted ∷ ws) = progress ws
progress (failed ∷ ws) = progress ws

abbrev pub NoFailure : List WriteResult → Type 0
NoFailure [] = Unit {0}
NoFailure (wrote n ∷ ws) = NoFailure ws
NoFailure (interrupted ∷ ws) = NoFailure ws
NoFailure (failed ∷ ws) = ⊥

write_end_ends :
    (c : ℕ) (ws : List WriteResult)
    → NoFailure ws
    → 0 < progress ws
    → (write_end c ws).status ≡ success
unfolding write_end
write_end_ends c [] f p = absurd (omega arith)
write_end_ends c (wrote zero ∷ ws) f p = write_end_ends c ws f p
write_end_ends c (wrote (suc n) ∷ ws) f p = refl
write_end_ends c (interrupted ∷ ws) f p = write_end_ends c ws f p
write_end_ends c (failed ∷ ws) f p = absurd f

write_from_ends :
    (c : ℕ) (s : Text) (ws : List WriteResult)
    → NoFailure ws
    → length s < progress ws
    → (write_from c s ws).status ≡ success
unfolding write_from
write_from_ends c [] ws f p = write_end_ends c ws f p
write_from_ends c (x ∷ s) [] f p = absurd (omega arith)
write_from_ends c (x ∷ s) (wrote zero ∷ ws) f p = write_from_ends c (x ∷ s) ws f p
write_from_ends c (x ∷ s) (wrote (suc n) ∷ ws) f p =
    write_from_ends c (drop n s) ws f (omega (arith, length-drop n s))
write_from_ends c (x ∷ s) (interrupted ∷ ws) f p = write_from_ends c (x ∷ s) ws f p
write_from_ends c (x ∷ s) (failed ∷ ws) f p = absurd f

-- However `write` splits or interrupts the output, what `writeline` has put on an open channel is a
-- first part of the text with a '\r' behind it, and the whole of that unless it does not succeed.
pub writeline-Wrote :
    (chan : Channel) (s : Text) (ws : List WriteResult)
    → chan.fd_open ≡ true
    → chan.reader_closed ≡ false
    → Wrote (s ++ (b'\r' ∷ [])) (writeline chan s ws)
unfolding writeline
writeline-Wrote chan s ws opened reading =
    rw (opened, reading, if◌then◌else◌) (write_from-Wrote b'\r' s ws)

-- On an open channel `writeline` succeeds once there have been more writes of at least one byte
-- than the text has bytes, in any split and with any interruptions, and no error.
pub writeline_ends :
    (chan : Channel) (s : Text) (ws : List WriteResult)
    → chan.fd_open ≡ true
    → chan.reader_closed ≡ false
    → NoFailure ws
    → length s < progress ws
    → (writeline chan s ws).status ≡ success
unfolding writeline
writeline_ends chan s ws opened reading none_fails enough =
    rw (opened, reading, if◌then◌else◌) (write_from_ends b'\r' s ws none_fails enough)
