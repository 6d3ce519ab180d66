-- ===== src/Ril/Payload.antt =====
-- What the handlers pass to telephony: the responses and the data of sxx-ril-*.c.
use sxx_ril.Common.{Bool, Option, List, Text}
use sxx_ril.Common.Int.{ℤ}
use sxx_ril.Call.{RilCall}

-- What `forwardFromCCFCLine` sets of `RIL_CallForwardInfo`.
pub record Forward : Type 0 where
  pub status : ℤ
  pub service_class : ℤ
  pub number : Option Text
  pub toa : ℤ

-- What `onSuppServiceNotification` sets of `RIL_SuppSvcNotification`; the rest is 0.
pub record SuppSvcNotification : Type 0 where
  pub notification_type : ℤ
  pub code : ℤ
  pub index : ℤ

-- `SIM_Status`.
pub data SimStatus : Type 0 where
  absent not_ready ready pin puk network_personalization : SimStatus

-- `RIL_CardStatus`, without what never changes: the application is the one of the status in the
-- table of `getCardStatus`.
pub record CardStatus : Type 0 where
  pub present : Bool
  pub application : Option SimStatus

-- `null` is (NULL, 0), `zeroed` is a structure of zeros, `signal` is `RIL_SignalStrength_v6` with the
-- two numbers of GW_SignalStrength, those of LTE_SignalStrength being -1 and the rest 0.
pub data Payload : Type 0 where
  null zeroed : Payload
  text : Text → Payload
  texts : List (Option Text) → Payload
  ints : List ℤ → Payload
  calls : List RilCall → Payload
  forwards : List Forward → Payload
  notification : SuppSvcNotification → Payload
  card : CardStatus → Payload
  signal : ℤ → ℤ → Payload
