-- ===== src/Channel/Lines/Kinds.antt =====
-- atchannel.c: how the kinds of lines overlap.
use sxx_ril.Common.{
  ℕ, true, false, [], ◌∷◌, ◌++◌, Text, codes, ◌≡◌, refl, arith, Bool-cases, inl, inr, ◌⊎◌,
}
use sxx_ril.Misc.{str_starts_with}
use sxx_ril.Channel.Lines.{is_final_response_error, is_final_response_success, is_unsolicited}

starts_with-head :
    (c p : ℕ) (line prefix : Text) → str_starts_with (c ∷ line) (p ∷ prefix) ≡ true → c ≡ p
unfolding str_starts_with
starts_with-head c p line prefix h = ground arith

not_starts_nil : (p : ℕ) (prefix : Text) → str_starts_with [] (p ∷ prefix) ≡ false
unfolding str_starts_with
not_starts_nil p prefix = refl

success-head :
    (c : ℕ) (line : Text)
    → is_final_response_success (c ∷ line) ≡ true
    → (c ≡ b'O') ⊎ ((c ≡ b'C') ⊎ (c ≡ b'A'))
unfolding is_final_response_success
success-head c line h = ground (
  arith,
  starts_with-head c b'O' line (codes "K"),
  starts_with-head c b'C' line (codes "ONNECT"),
  starts_with-head c b'A' line (codes "TA:OK"),
)

error-head :
    (c : ℕ) (line : Text)
    → is_final_response_error (c ∷ line) ≡ true
    → (c ≡ b'E') ⊎ ((c ≡ b'+') ⊎ (c ≡ b'N'))
unfolding is_final_response_error
error-head c line h = ground (
  arith,
  starts_with-head c b'E' line (codes "RROR"),
  starts_with-head c b'+' line (codes "CMS ERROR:"),
  starts_with-head c b'+' line (codes "CME ERROR:"),
  starts_with-head c b'N' line (codes "O CARRIER"),
  starts_with-head c b'N' line (codes "O ANSWER"),
  starts_with-head c b'N' line (codes "O DIALTONE"),
)

error_nil : is_final_response_error [] ≡ false
unfolding is_final_response_error str_starts_with
error_nil = refl

-- No line is a final response of both kinds.
pub final_response_exclusive :
    (line : Text) → is_final_response_success line ≡ true → is_final_response_error line ≡ false
final_response_exclusive [] h = error_nil
final_response_exclusive (c ∷ line) h = elim (Bool-cases (is_final_response_error (c ∷ line))) [
  | inr e ↦ e
  | inl e ↦ absurd (ground (arith, success-head c line h, error-head c line e))
]

-- Every line that begins with CONNECT is taken for unsolicited.
pub connect_unsolicited : (rest : Text) → is_unsolicited (codes "CONNECT" ++ rest) ≡ true
unfolding is_unsolicited str_starts_with
connect_unsolicited rest = refl

pub connect_final : (rest : Text) → is_final_response_success (codes "CONNECT" ++ rest) ≡ true
unfolding is_final_response_success str_starts_with
connect_final rest = refl
