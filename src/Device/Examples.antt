-- ===== src/Device/Examples.antt =====
-- sxx-ril-device.c: runs of the handlers.
use sxx_ril.Common.{codes, ◌≡◌, refl}
use sxx_ril.Device.{imsi_of}

imsi_test : imsi_of (codes "+CIMI:262011234567890") ≡ codes "262011234567890"
unfolding imsi_of sxx_ril.Misc.strstr
imsi_test = refl
