-- ===== src/Network/Requests.antt =====
-- sxx-ril-network.c: the requests as they are registered.
use sxx_ril.Common.{Option, Text}
use sxx_ril.Common.Int.{ℤ}
use sxx_ril.Ril.{Program}
use sxx_ril.Ril.Payload.{Payload}
use sxx_ril.Radio.{request_radio_power}
use sxx_ril.Network.{
  request_set_network_selection_automatic, request_set_network_selection_manual,
  request_set_preferred_network_type, request_signal_strength, request_query_network_selection_mode,
  request_get_preferred_network_type, request_set_facility_lock, request_query_facility_lock,
  request_cdma_subscription,
}
use sxx_ril.Network.Registration.{Domain, request_registration_state}
use sxx_ril.Network.Operators.{request_query_available_networks, request_operator}

-- The registered requests, with what the handler reads of `data`.
pub data NetworkRequest : Type 0 where
  signal_strength set_network_selection_automatic query_available_networks : NetworkRequest
  query_network_selection_mode operator get_preferred_network_type cdma_subscription :
      NetworkRequest
  set_network_selection_manual : Option Text → NetworkRequest
  set_preferred_network_type radio_power : ℤ → NetworkRequest
  registration_state : Domain → NetworkRequest
  set_facility_lock : Text → ℤ → Text → Text → NetworkRequest
  query_facility_lock : Text → Text → Text → NetworkRequest

unfoldable pub on_network_request : NetworkRequest → Program Payload
on_network_request signal_strength = request_signal_strength
on_network_request set_network_selection_automatic = request_set_network_selection_automatic
on_network_request query_available_networks = request_query_available_networks
on_network_request query_network_selection_mode = request_query_network_selection_mode
on_network_request operator = request_operator
on_network_request get_preferred_network_type = request_get_preferred_network_type
on_network_request cdma_subscription = request_cdma_subscription
on_network_request (set_network_selection_manual mcc_mnc) =
    request_set_network_selection_manual mcc_mnc
on_network_request (set_preferred_network_type rat) = request_set_preferred_network_type rat
on_network_request (radio_power on_off) = request_radio_power on_off
on_network_request (registration_state d) = request_registration_state d
on_network_request (set_facility_lock facility mode password class) =
    request_set_facility_lock facility mode password class
on_network_request (query_facility_lock facility password class) =
    request_query_facility_lock facility password class
