-- ===== src/Misc/Examples.antt =====
-- misc.c on small texts.
use sxx_ril.Common.{codes, ◌≡◌, refl}
use sxx_ril.Misc.Elements.{Between, get_first_element_value-Between}
use sxx_ril.Misc.{get_first_element_value, found, fault, absent}

elements :
    (get_first_element_value (codes "x<a>12</a>y") (codes "<a>") (codes "</a>")
      ≡ found (codes "12") (codes "y"))
    × (get_first_element_value (codes "x<a>12") (codes "<a>") (codes "</a>") ≡ absent)
    × (get_first_element_value (codes "''v''") (codes "''") (codes "'") ≡ fault)
unfolding get_first_element_value
elements = (refl, refl, refl)

get_first_element_value-Between_example :
    Between (codes "x<a>12</a>y") (codes "<a>") (codes "</a>") (found (codes "12") (codes "y"))
unfolding get_first_element_value
get_first_element_value-Between_example =
    get_first_element_value-Between (codes "x<a>12</a>y") (codes "<a>") (codes "</a>")
