-- ===== src/Service/Examples.antt =====
-- sxx-ril-service.c: runs of the handlers.
use sxx_ril.Common.{some, [], ◌∷◌, codes, ◌≡◌, refl}
use sxx_ril.Common.Int.{pos}
use sxx_ril.Service.{two_ints}
use sxx_ril.Service.Forwards.{valid_forwards, zero_forward}

two_ints_test : two_ints (pos 1) (pos 1) (codes "+CLIR: 0,4") ≡ pos 0 ∷ pos 4 ∷ []
unfolding two_ints sxx_ril.Tok.at_tok_start sxx_ril.Tok.at_tok_nextint sxx_ril.Tok.Strtol.strtol
two_ints_test = refl

-- The number of a line that is not valid goes to the next line, which has none.
stale_number_test :
    valid_forwards zero_forward (codes "+CCFC: 1,1,\"+491\",x" ∷ codes "+CCFC: 1,2" ∷ [])
    ≡ record { status = pos 1; service_class = pos 2; number = some (codes "+491"); toa = pos 0 }
      ∷ []
unfolding valid_forwards sxx_ril.Service.Forwards.forward_from_ccfc_line sxx_ril.Tok.at_tok_start
    sxx_ril.Tok.at_tok_nextint sxx_ril.Tok.Strtol.strtol sxx_ril.Tok.at_tok_hasmore
    sxx_ril.Tok.at_tok_nextstr
stale_number_test = refl
