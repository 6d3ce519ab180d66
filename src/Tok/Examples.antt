-- ===== src/Tok/Examples.antt =====
-- at_tok.c on lines that a modem sends.
use sxx_ril.Common.{◌<◌, true, false, none, some, [], ◌∷◌, ◌++◌, codes, ◌≡◌, refl, arith}
use sxx_ril.Common.Int.{pos, negsuc}
use sxx_ril.Tok.Cursor.{left, readers-left}
use sxx_ril.Tok.Lines.{Field, AreFields, read_fields, read_fields-render}
use sxx_ril.Tok.Numbers.{decimal_int, nextint-decimal_int}
use sxx_ril.Tok.Strtol.{is_space, strtol, strtoul}
use sxx_ril.Tok.{
  at_tok_start, at_tok_nextint, at_tok_nexthexint, at_tok_nextbool, at_tok_nextstr, at_tok_hasmore,
  ok, fail, cursor, number_of,
}

clcc_line :
    (at_tok_start (some (codes "+CLCC: 1,0,2")) ≡ some (codes " 1,0,2"))
    × (at_tok_nextint (some (codes " 1,0,2")) ≡ ok (pos 1) (some (codes "0,2")))
    × (at_tok_nextbool (some (codes "0,2")) ≡ ok false (some (codes "2")))
    × (at_tok_nextint (some (codes "2")) ≡ ok (pos 2) none)
unfolding at_tok_start at_tok_nextint at_tok_nextbool strtol number_of
clcc_line = (refl, refl, refl, refl)

mixed_line :
    (at_tok_nextstr (some (codes "\"SM\",-17")) ≡ ok (codes "SM") (some (codes "-17")))
    × (at_tok_nextint (some (codes "-17")) ≡ ok (negsuc 16) none)
    × (at_tok_nexthexint (some (codes "\"0x1aF\"")) ≡ ok (pos 431) (some []))
    × (at_tok_nextint (some (codes "99999999999,")) ≡ ok (pos 2147483647) (some []))
    × (at_tok_nextint (some (codes "x,1")) ≡ fail (some (codes "1")))
    × (at_tok_nextbool (some (codes "2")) ≡ fail none)
unfolding at_tok_nextstr at_tok_nextint at_tok_nexthexint at_tok_nextbool strtol strtoul number_of
mixed_line = (refl, refl, refl, refl, refl, refl)

abbrev operator_field : Field
operator_field = record { pad = codes " "; quoted = true; text = codes "CMCC, GSM" }

abbrev access_field : Field
access_field = record { pad = []; quoted = false; text = codes "2" }

fields_fit : AreFields operator_field (access_field ∷ [])
unfolding is_space
fields_fit =
    (record { blank = (refl, tt); fits = grind arith }, record { blank = tt; fits = grind arith })

read_fields-render_example :
    read_fields 2 (some (codes " \"CMCC, GSM\",2")) ≡ some (codes "CMCC, GSM" ∷ codes "2" ∷ [])
read_fields-render_example = read_fields-render operator_field (access_field ∷ []) fields_fit

nextint-decimal_int_example :
    at_tok_nextint (some (codes " " ++ (decimal_int (negsuc 112) ++ (b',' ∷ codes "99"))))
    ≡ ok (negsuc 112) (some (codes "99"))
unfolding is_space
nextint-decimal_int_example =
    nextint-decimal_int (negsuc 112) (codes " ") (codes "99") (omega arith) (omega arith) (refl, tt)

has_more : at_tok_hasmore (some (codes "7,8")) ≡ true
unfolding at_tok_hasmore
has_more = refl

readers-left_example :
    (left (cursor (at_tok_nextstr (some (codes "7,8")))) < 4)
    × (left (cursor (at_tok_nextint (some (codes "7,8")))) < 4)
    × (left (cursor (at_tok_nexthexint (some (codes "7,8")))) < 4)
    × (left (cursor (at_tok_nextbool (some (codes "7,8")))) < 4)
readers-left_example = readers-left (some (codes "7,8")) has_more
