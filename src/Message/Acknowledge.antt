-- ===== src/Message/Acknowledge.antt =====
-- sxx-ril-message.c: the acknowledgement of a short message.
use sxx_ril.Common.{Bool, true, false, refl}
use sxx_ril.Tok.Ranges.{flag}
use sxx_ril.Ril.{Modem, World, IsModem, Allowed, run}
use sxx_ril.Ril.Once.{Completes, Settles, run-Settles}
use sxx_ril.Message.{request_sms_acknowledge}

acknowledge-Completes : (b : Bool) → Completes 2 (request_sms_acknowledge (flag b))
unfolding request_sms_acknowledge
acknowledge-Completes true = λ a ok. refl
acknowledge-Completes false = λ a ok. refl

-- An acknowledgement with 0 or 1 that ends is completed twice, whatever the modem answers.
pub request_sms_acknowledge-Settles :
    (m : Modem) (w : World m.State) (b : Bool)
    → IsModem m
    → Settles 2 (run m w (request_sms_acknowledge (flag b)))
request_sms_acknowledge-Settles m w b i =
    run-Settles m Allowed 2 (request_sms_acknowledge (flag b)) w i (acknowledge-Completes b)
