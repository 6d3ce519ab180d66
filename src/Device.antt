-- ===== src/Device.antt =====
-- sxx-ril-device.c: the identity of the device.
use sxx_ril.Common.{
  ℕ, suc, Bool, true, Option, none, some, List, [], ◌∷◌, if◌then◌else◌, Text, codes, drop,
}
use sxx_ril.Tok.{at_tok_nextstr}
use sxx_ril.Misc.{strstr}
use sxx_ril.Ril.{
  singleline, numeric, Program, send, complete, property_set, done, success, generic_failure,
}
use sxx_ril.Ril.Payload.{Payload, null, text, texts}
use sxx_ril.Ril.Steps.{check, first_line, reading, reply}
pub mod Completion
pub mod Examples

pub data DeviceRequest : Type 0 where
  get_imsi device_identity get_imei get_imeisv report_stk_service_is_running : DeviceRequest
  baseband_version : DeviceRequest

abbrev pub failure : Program Payload
failure = reply generic_failure null

-- `if (strstr(response, "+CIMI:") != NULL) strcpy(response, response + 6)`, the copy going forward.
abbrev pub without_name : Option ℕ → Text → Text
without_name none response = response
without_name (some at) response = drop 6 response

unfoldable pub imsi_of : Text → Text
imsi_of response = without_name (strstr response (codes "+CIMI:")) response

-- `requestGetIMSI`.
unfoldable pub request_get_imsi : Program Payload
request_get_imsi = send (singleline (codes "AT+CIMI") []) true (λ a. check a failure (λ r.
    first_line r.intermediates (λ line.
      reading (at_tok_nextstr (some line)) failure
        (λ response cur. reply success (text (imsi_of response))))))

-- "%02d" of RIL_IMEISV_VERSION.
abbrev pub imeisv : Text
imeisv = codes "02"

-- `_requestDeviceIdentityWCDMA`.
unfoldable pub request_device_identity : Program Payload
request_device_identity = send (numeric (codes "AT+CGSN")) true (λ a. check a failure (λ r.
    first_line r.intermediates
      (λ line. reply success (texts (some line ∷ some imeisv ∷ none ∷ none ∷ [])))))

-- `_requestGetIMEIWCDMA`.
unfoldable pub request_get_imei : Program Payload
request_get_imei = send (numeric (codes "AT+CGSN")) true (λ a. check a failure (λ r.
    first_line r.intermediates
      (λ line. property_set (codes "ril.imei") line (reply success (text line)))))

-- The lines of `requestBasebandVersion`, where NULL is tested.
abbrev pub version_line : List Text → Program Payload
version_line [] = failure
version_line (line ∷ lines) =
    reading (at_tok_nextstr (some line)) failure (λ response cur. reply success (text response))

-- `requestBasebandVersion`.
unfoldable pub request_baseband_version : Program Payload
request_baseband_version =
    send (singleline (codes "AT+CGMM") []) true
      (λ a. check a failure (λ r. version_line r.intermediates))

-- `requestGetIMEISV`.
abbrev pub request_get_imeisv : Program Payload
request_get_imeisv = reply success (text imeisv)

-- `requestReportStkServiceIsRunning`.
abbrev pub request_report_stk_service_is_running : Program Payload
request_report_stk_service_is_running = failure

-- The handlers, as they are registered.
unfoldable pub on_device_request : DeviceRequest → Program Payload
on_device_request get_imsi = request_get_imsi
on_device_request device_identity = request_device_identity
on_device_request get_imei = request_get_imei
on_device_request get_imeisv = request_get_imeisv
on_device_request report_stk_service_is_running = request_report_stk_service_is_running
on_device_request baseband_version = request_baseband_version
