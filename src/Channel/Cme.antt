-- ===== src/Channel/Cme.antt =====
-- atchannel.c: `at_get_cme_error`, the number of the error in a final response.
use sxx_ril.Common.{
  ◌-◌, ◌^◌, false, not, Option, none, some, ◌++◌, if◌then◌else◌, Text, codes, ◌≡◌, refl, ap, ◌∙◌,
}
use sxx_ril.Common.Int.{ℤ, pos, negsuc, ◌≤ℤ◌}
use sxx_ril.Misc.{str_starts_with}
use sxx_ril.Misc.Prefix.{str_starts_with-append}
use sxx_ril.Tok.{Result, ok, fail, at_tok_start, at_tok_nextint}
use sxx_ril.Tok.Tokens.{Free, at_tok_start_iff}
use sxx_ril.Tok.Strtol.{is_space}
use sxx_ril.Tok.Lines.{Spaces}
use sxx_ril.Tok.Numbers.{decimal_int, nextint-decimal_int_last}
use sxx_ril.Channel.State.{Response}

-- `CME_ERROR_NON_CME` and `CME_SUCCESS`.
abbrev pub cme_error_non_cme : ℤ
cme_error_non_cme = negsuc 0

abbrev pub cme_success : ℤ
cme_success = pos 0

abbrev pub number_or_non_cme : Result ℤ → ℤ
number_or_non_cme (ok z cur) = z
number_or_non_cme (fail cur) = cme_error_non_cme

abbrev pub behind_colon : Option Text → ℤ
behind_colon none = cme_error_non_cme
behind_colon (some rest) = number_or_non_cme (at_tok_nextint (some rest))

abbrev pub cme_of_final : Option Text → ℤ
cme_of_final none = cme_error_non_cme
cme_of_final (some line) =
    if not (str_starts_with line (codes "+CME ERROR:"))
    then cme_error_non_cme
    else behind_colon (at_tok_start (some line))

unfoldable pub at_get_cme_error : Response → ℤ
at_get_cme_error r = if r.success then cme_success else cme_of_final r.final_response

cme-Free : Free b':' (codes "+CME ERROR")
cme-Free = (refl, (refl, (refl, (refl, (refl, (refl, (refl, (refl, (refl, (refl, tt))))))))))

space : Spaces (codes " ")
unfolding is_space
space = (refl, tt)

-- Of a response that is no success, the error code is the integer in its final response
-- "+CME ERROR: " and that integer in decimal, in the range of an int; and of every other final
-- response that does not begin with "+CME ERROR:", CME_ERROR_NON_CME.
pub at_get_cme_error_final :
    (r : Response) (z : ℤ) (line : Text)
    → r.success ≡ false
    → negsuc (2 ^ 31 - 1) ≤ℤ z
    → z ≤ℤ pos (2 ^ 31 - 1)
    → str_starts_with line (codes "+CME ERROR:") ≡ false
    → (at_get_cme_error (record r { final_response = some (codes "+CME ERROR: " ++ decimal_int z) })
        ≡ z)
      × (at_get_cme_error (record r { final_response = some line }) ≡ cme_error_non_cme)
unfolding at_get_cme_error
at_get_cme_error_final r z line fails lo hi other = (
  rw
      (
        fails,
        if◌then◌else◌,
        str_starts_with-append (codes "+CME ERROR:") (codes " " ++ decimal_int z),
        if◌then◌else◌,
      )
      (ap behind_colon
          ((at_tok_start_iff _ (codes " " ++ decimal_int z)).1 (codes "+CME ERROR", cme-Free, refl))
        ∙ ap number_or_non_cme (nextint-decimal_int_last z (codes " ") lo hi space)),
  rw (fails, if◌then◌else◌, other, if◌then◌else◌) refl,
)
