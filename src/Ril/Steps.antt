-- ===== src/Ril/Steps.antt =====
-- The steps that the handlers share: the tests of a response, and the reading of its lines.
use sxx_ril.Common.{Bool, true, false, Option, none, some, List, [], ◌∷◌, if◌then◌else◌, Text}
use sxx_ril.Common.Int.{ℤ, pos}
use sxx_ril.Channel.State.{Response, AtError}
use sxx_ril.Tok.{Result, ok, fail, at_tok_nextint}
use sxx_ril.Filter.{RadioState}
use sxx_ril.Ril.{
  At, Answer, Program, get, put, undefined, done, send, complete, RilError, success,
  generic_failure,
}

module _ {P : Type 0} where
  -- `p_response->success == 0`, where the pointer may be NULL.
  abbrev pub on_success : Option Response → Program P → (Response → Program P) → Program P
  on_success none fails holds = undefined
  on_success (some r) fails holds = if r.success then holds r else fails

  -- `if (err < 0 || p_response->success == 0)`: every error code is negative.
  abbrev pub checked :
      Option AtError → Option Response → Program P → (Response → Program P) → Program P
  checked (some e) r fails holds = fails
  checked none r fails holds = on_success r fails holds

  abbrev pub check : Answer → Program P → (Response → Program P) → Program P
  check a = checked a.err a.response

  -- `p_response->p_intermediates->line`.
  abbrev pub first_line : List Text → (Text → Program P) → Program P
  first_line [] k = undefined
  first_line (line ∷ lines) k = k line

  -- `if (err < 0) goto error`, with the value and the cursor behind.
  abbrev pub reading :
      {A : Type 0} → Result A → Program P → (A → Option Text → Program P) → Program P
  reading (ok a cur) fails k = k a cur
  reading (fail cur) fails k = fails

  abbrev pub started : Option Text → Program P → (Option Text → Program P) → Program P
  started none fails k = fails
  started (some rest) fails k = k (some rest)

  -- A command whose result is not looked at.
  abbrev pub tell : At → Program P → Program P
  tell at rest = send at false (λ a. rest)

  abbrev pub read_radio : (RadioState → Program P) → Program P
  read_radio k = get (λ v. k v.radio)

  abbrev pub set_radio : RadioState → Program P → Program P
  set_radio s rest = get (λ v. put (record v { radio = s }) rest)

  abbrev pub read_ussd : (Bool → Program P) → Program P
  read_ussd k = get (λ v. k v.ussd)

  abbrev pub set_ussd : Bool → Program P → Program P
  set_ussd b rest = get (λ v. put (record v { ussd = b }) rest)

  abbrev pub reply : RilError → P → Program P
  reply e p = complete e p done

  -- Success and failure of a request with no payload.
  abbrev pub reply_checked : At → P → Program P
  reply_checked at null =
      send at true (λ a. check a (reply generic_failure null) (λ r. reply success null))

-- What `v` holds after `at_tok_nextint(&cur, &v)`: its value before at a NULL cursor, and 0 if the
-- token is no number.
abbrev value_or_0 : Result ℤ → ℤ
value_or_0 (ok z cur) = z
value_or_0 (fail cur) = pos 0

abbrev pub stored : ℤ → Option Text → ℤ
stored v none = v
stored v (some s) = value_or_0 (at_tok_nextint (some s))
