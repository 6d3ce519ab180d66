-- ===== src/Main/Completion.antt =====
-- sxx-ril.c: how often a request of telephony is completed, from the filter on.
use sxx_ril.Common.{ℕ, false, Option, none, some, ◌≡◌, refl}
use sxx_ril.Filter
use sxx_ril.Ril.{
  Program, RilError, Allowed, Steady, Modem, World, run, IsSteady, Responsive, finished,
  completions,
}
use sxx_ril.Ril.Payload.{Payload}
use sxx_ril.Ril.Once.{Completes, CompletesIf, CompletesIf-mono, Settles, run-Settles, run_finishes}
use sxx_ril.Call.Completion.{IsPlain, on_call_request-Completes}
use sxx_ril.Service.Completion.{IsAsked, on_service_request-Completes}
use sxx_ril.Device.Completion.{on_device_request-Completes}
use sxx_ril.Message.Completion.{IsSound, on_message_request-Completes}
use sxx_ril.Network.Completion.{IsSingle, on_network_request-Completes}
use sxx_ril.Radio.Completion.{get_sim_status-Completes}
use sxx_ril.Sim.Completion.{request_get_sim_status-Completes, request_enter_sim_pin-Completes}
use sxx_ril.Main.{
  RilRequest, call, service, device, message, network, get_sim_status_of, pins, handler,
}
use sxx_ril.Main.Names.{filtered, refuse, code_of, name_of, on_request}

-- The requests whose handlers complete them once.
abbrev pub IsOnce : RilRequest → Type 0
IsOnce (call q) = IsPlain q
IsOnce (service q) = IsAsked q
IsOnce (device q) = Unit
IsOnce (message q) = IsSound q
IsOnce (network q) = IsSingle q
IsOnce get_sim_status_of = Unit
IsOnce (pins q p) = Unit

steady : (p : Program Payload) → Completes 1 p → CompletesIf Steady 1 p
steady p h = CompletesIf-mono Allowed Steady (λ at want a ok. ok.0) 1 p h

pub handler-Completes : (q : RilRequest) → IsOnce q → CompletesIf Steady 1 (handler q)
unfolding handler
handler-Completes (call q) h = steady (handler (call q)) (on_call_request-Completes q h)
handler-Completes (service q) h = steady (handler (service q)) (on_service_request-Completes q h)
handler-Completes (device q) h = steady (handler (device q)) (on_device_request-Completes q)
handler-Completes (message q) h = steady (handler (message q)) (on_message_request-Completes q h)
handler-Completes (network q) h = on_network_request-Completes q h
handler-Completes get_sim_status_of h = request_get_sim_status-Completes
handler-Completes (pins q p) h = request_enter_sim_pin-Completes p

refuse-Completes : (e : RilError) (p : Filter.Payload) → CompletesIf Steady 1 (refuse e p)
refuse-Completes e Filter.null = refl
refuse-Completes e Filter.sim_status_2 = get_sim_status-Completes 1 false _ (λ s. refl)

filtered-Completes :
    (o : Option Filter.Answer) (p : Program Payload)
    → CompletesIf Steady 1 p
    → CompletesIf Steady 1 (filtered o p)
filtered-Completes none p h = h
filtered-Completes (some a) p h = refuse-Completes (code_of a.code) a.payload

pub on_request-Completes :
    (number : RilRequest → ℕ) (q : RilRequest)
    → IsOnce q
    → CompletesIf Steady 1 (on_request number q)
unfolding on_request
on_request-Completes number q h = λ v.
    filtered-Completes (Filter.request_state_filter v.radio (name_of number q)) _
      (handler-Completes q h)

-- Whatever the state of the radio and the answers of the modem, where the modem keeps the promise
-- of the channel and reports no failure of the phone: a request of these is completed exactly once
-- if its run ends, by the filter or by its handler, and at most once if a command does not return;
-- and nothing is read that is not set.
pub on_request-Settles :
    (number : RilRequest → ℕ) (m : Modem) (w : World m.State) (q : RilRequest)
    → IsSteady m
    → IsOnce q
    → Settles 1 (run m w (on_request number q))
on_request-Settles number m w q i h =
    run-Settles m Steady 1 (on_request number q) w i (on_request-Completes number q h)

-- With a steady modem that answers every command, a request of `IsOnce` ends, completed exactly once.
pub on_request_finishes :
    (number : RilRequest → ℕ) (m : Modem) (w : World m.State) (q : RilRequest)
    → IsSteady m
    → Responsive m
    → IsOnce q
    → ((run m w (on_request number q)).status ≡ finished)
      × (completions (run m w (on_request number q)).events ≡ 1)
on_request_finishes number m w q i r h =
    run_finishes m Steady 1 (on_request number q) w i r (on_request-Completes number q h)
