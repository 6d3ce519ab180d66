-- ===== src/Sim/Examples.antt =====
-- sxx-ril-sim.c: runs of the handlers.
use sxx_ril.Common.{codes, ◌≡◌, refl}
use sxx_ril.Ril.Payload.{puk}
use sxx_ril.Radio.{sim_of_result}

sim_of_result_test : sim_of_result (codes "SIM PUK") ≡ puk
unfolding sim_of_result sxx_ril.Common.str_eq
sim_of_result_test = refl
