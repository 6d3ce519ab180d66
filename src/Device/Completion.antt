-- ===== src/Device/Completion.antt =====
-- sxx-ril-device.c: how often a request is completed.
use sxx_ril.Common.{some, List, [], ◌∷◌, refl, Text, codes}
use sxx_ril.Tok.{at_tok_nextstr}
use sxx_ril.Ril.{singleline, numeric, Allowed}
use sxx_ril.Ril.Once.{Completes, check-Completes, first_line-Completes, reading-Completes}
use sxx_ril.Device.{
  DeviceRequest, get_imsi, device_identity, get_imei, get_imeisv, report_stk_service_is_running,
  baseband_version, on_device_request, request_get_imsi, request_device_identity, request_get_imei,
  request_baseband_version, version_line,
}

version_line-Completes : (lines : List Text) → Completes 1 (version_line lines)
version_line-Completes [] = refl
version_line-Completes (line ∷ lines) =
    reading-Completes Allowed 1 (at_tok_nextstr (some line)) _ _ refl (λ response cur. refl)

pub on_device_request-Completes : (q : DeviceRequest) → Completes 1 (on_device_request q)
unfolding on_device_request request_get_imsi request_device_identity request_get_imei
    request_baseband_version
on_device_request-Completes get_imsi = λ a ok.
    check-Completes Allowed 1 a (singleline (codes "AT+CIMI") []) _ _ ok refl (λ r s i.
      first_line-Completes Allowed 1 r _ s i (λ line.
        reading-Completes Allowed 1 (at_tok_nextstr (some line)) _ _ refl (λ response cur. refl)))
on_device_request-Completes device_identity = λ a ok.
    check-Completes Allowed 1 a (numeric (codes "AT+CGSN")) _ _ ok refl
      (λ r s i. first_line-Completes Allowed 1 r _ s i (λ line. refl))
on_device_request-Completes get_imei = λ a ok.
    check-Completes Allowed 1 a (numeric (codes "AT+CGSN")) _ _ ok refl
      (λ r s i. first_line-Completes Allowed 1 r _ s i (λ line. refl))
on_device_request-Completes get_imeisv = refl
on_device_request-Completes report_stk_service_is_running = refl
on_device_request-Completes baseband_version = λ a ok.
    check-Completes Allowed 1 a (singleline (codes "AT+CGMM") []) _ _ ok refl
      (λ r s i. version_line-Completes r.intermediates)
