-- ===== src/Filter/Examples.antt =====
-- sxx-ril.c: the filter at concrete requests.
use sxx_ril.Common.{◌≡◌, refl}
use sxx_ril.Filter.{
  off, sim_locked_or_absent, device_identity, stk_get_profile, refused, generic_failure,
  request_state_filter,
}
use sxx_ril.Filter.Table.{request_state_filter_lem}

-- The first test of RADIO_STATE_OFF spares this request, and the next one refuses it.
stk_when_off : request_state_filter off stk_get_profile ≡ refused generic_failure
unfolding request_state_filter
stk_when_off = refl

request_state_filter_example :
    request_state_filter sim_locked_or_absent device_identity ≡ refused generic_failure
request_state_filter_example = request_state_filter_lem sim_locked_or_absent device_identity
