-- ===== src/Gsm/Alphabet.antt =====
-- helper/gsm.c: the alphabet of GSM and the unpacked form of a text, with one code in a byte.
use sxx_ril.Common.{
  ℕ, zero, suc, ◌+◌, ◌<◌, Bool, true, false, Option, none, some, List, [], ◌∷◌, ◌++◌, length,
  get_or, leb, ◌==◌, if◌then◌else◌, Text,
}
use sxx_ril.Gsm.Utf8.{utf8_write}
use sxx_ril.Gsm.Utf8.Next.{utf8_next, followed, over}
pub mod RoundTrip
pub mod Codes

-- `GSM_7BITS_ESCAPE`.
abbrev pub gsm_7bits_escape : ℕ
gsm_7bits_escape = 0x1b

abbrev pub gsm7bits_to_unicode : List ℕ
gsm7bits_to_unicode =
    64 ∷ 163 ∷ 36 ∷ 165 ∷ 232 ∷ 233 ∷ 249 ∷ 236 ∷ 242 ∷ 199 ∷ 10 ∷ 216 ∷ 248 ∷ 13 ∷ 197 ∷ 229 ∷ 916
    ∷ 95 ∷ 934 ∷ 915 ∷ 923 ∷ 937 ∷ 928 ∷ 936 ∷ 931 ∷ 920 ∷ 926 ∷ 0 ∷ 198 ∷ 230 ∷ 223 ∷ 201 ∷ 32 ∷ 33
    ∷ 34 ∷ 35 ∷ 164 ∷ 37 ∷ 38 ∷ 39 ∷ 40 ∷ 41 ∷ 42 ∷ 43 ∷ 44 ∷ 45 ∷ 46 ∷ 47 ∷ 48 ∷ 49 ∷ 50 ∷ 51 ∷ 52
    ∷ 53 ∷ 54 ∷ 55 ∷ 56 ∷ 57 ∷ 58 ∷ 59 ∷ 60 ∷ 61 ∷ 62 ∷ 63 ∷ 161 ∷ 65 ∷ 66 ∷ 67 ∷ 68 ∷ 69 ∷ 70 ∷ 71
    ∷ 72 ∷ 73 ∷ 74 ∷ 75 ∷ 76 ∷ 77 ∷ 78 ∷ 79 ∷ 80 ∷ 81 ∷ 82 ∷ 83 ∷ 84 ∷ 85 ∷ 86 ∷ 87 ∷ 88 ∷ 89 ∷ 90
    ∷ 196 ∷ 214 ∷ 327 ∷ 220 ∷ 167 ∷ 191 ∷ 97 ∷ 98 ∷ 99 ∷ 100 ∷ 101 ∷ 102 ∷ 103 ∷ 104 ∷ 105 ∷ 106
    ∷ 107 ∷ 108 ∷ 109 ∷ 110 ∷ 111 ∷ 112 ∷ 113 ∷ 114 ∷ 115 ∷ 116 ∷ 117 ∷ 118 ∷ 119 ∷ 120 ∷ 121 ∷ 122
    ∷ 228 ∷ 246 ∷ 241 ∷ 252 ∷ 224 ∷ []

abbrev pub gsm7bits_extend_to_unicode : List ℕ
gsm7bits_extend_to_unicode =
    0 ∷ 0 ∷ 0 ∷ 0 ∷ 0 ∷ 0 ∷ 0 ∷ 0 ∷ 0 ∷ 0 ∷ 12 ∷ 0 ∷ 0 ∷ 0 ∷ 0 ∷ 0 ∷ 0 ∷ 0 ∷ 0 ∷ 0 ∷ 94 ∷ 0 ∷ 0 ∷ 0
    ∷ 0 ∷ 0 ∷ 0 ∷ 0 ∷ 0 ∷ 0 ∷ 0 ∷ 0 ∷ 0 ∷ 0 ∷ 0 ∷ 0 ∷ 0 ∷ 0 ∷ 0 ∷ 0 ∷ 123 ∷ 125 ∷ 0 ∷ 0 ∷ 0 ∷ 0 ∷ 0
    ∷ 92 ∷ 0 ∷ 0 ∷ 0 ∷ 0 ∷ 0 ∷ 0 ∷ 0 ∷ 0 ∷ 0 ∷ 0 ∷ 0 ∷ 0 ∷ 91 ∷ 126 ∷ 93 ∷ 0 ∷ 124 ∷ 0 ∷ 0 ∷ 0 ∷ 0
    ∷ 0 ∷ 0 ∷ 0 ∷ 0 ∷ 0 ∷ 0 ∷ 0 ∷ 0 ∷ 0 ∷ 0 ∷ 0 ∷ 0 ∷ 0 ∷ 0 ∷ 0 ∷ 0 ∷ 0 ∷ 0 ∷ 0 ∷ 0 ∷ 0 ∷ 0 ∷ 0 ∷ 0
    ∷ 0 ∷ 0 ∷ 0 ∷ 0 ∷ 0 ∷ 0 ∷ 0 ∷ 0 ∷ 8364 ∷ 0 ∷ 0 ∷ 0 ∷ 0 ∷ 0 ∷ 0 ∷ 0 ∷ 0 ∷ 0 ∷ 0 ∷ 0 ∷ 0 ∷ 0 ∷ 0
    ∷ 0 ∷ 0 ∷ 0 ∷ 0 ∷ 0 ∷ 0 ∷ 0 ∷ 0 ∷ 0 ∷ 0 ∷ 0 ∷ 0 ∷ []

-- The loop that looks for a character in a table, from the index `nn`.
unfoldable pub index_from : ℕ → ℕ → List ℕ → Option ℕ
index_from nn unicode [] = none
index_from nn unicode (u ∷ table) =
    let rest = index_from (suc nn) unicode table in if u == unicode then some nn else rest

unfoldable pub unichar_to_gsm7 : ℕ → Option ℕ
unfolding index_from
unichar_to_gsm7 unicode = index_from 0 unicode gsm7bits_to_unicode

unfoldable pub unichar_to_gsm7_extend : ℕ → Option ℕ
unfolding index_from
unichar_to_gsm7_extend unichar = index_from 0 unichar gsm7bits_extend_to_unicode

abbrev pub count_of : Option ℕ → Option ℕ → ℕ
count_of (some nn) extend = 1
count_of none (some nn) = 2
count_of none none = 0

unfoldable pub unichar_to_gsm7_count : ℕ → ℕ
unichar_to_gsm7_count unicode = count_of (unichar_to_gsm7 unicode) (unichar_to_gsm7_extend unicode)

abbrev pub at_least_1 : ℕ → ℕ
at_least_1 len = if len == 0 then 1 else len

unfoldable pub utf8_to_gsm7_count : ℕ → Text → Option ℕ
utf8_to_gsm7_count fuel [] = some 0
utf8_to_gsm7_count fuel (c ∷ p) =
    followed (λ m n. m + n) (over (λ v. at_least_1 (unichar_to_gsm7_count v)) (utf8_next fuel c p))
      (utf8_to_gsm7_count fuel p)

-- `utf8_check_gsm7` goes on behind a character that has a code.
abbrev pub checked : Option ℕ → Option Bool → Option Bool
checked none rest = none
checked (some zero) rest = some false
checked (some (suc n)) rest = rest

unfoldable pub utf8_check_gsm7 : ℕ → Text → Option Bool
utf8_check_gsm7 fuel [] = some true
utf8_check_gsm7 fuel (c ∷ p) =
    checked (over unichar_to_gsm7_count (utf8_next fuel c p)) (utf8_check_gsm7 fuel p)

-- The codes of a character: its own, that of the extension table behind an escape, or a space.
abbrev pub codes_of : Option ℕ → Option ℕ → List ℕ
codes_of (some nn) extend = nn ∷ []
codes_of none (some nn) = gsm_7bits_escape ∷ nn ∷ []
codes_of none none = 0x20 ∷ []

unfoldable pub gsm_codes : ℕ → List ℕ
gsm_codes c = codes_of (unichar_to_gsm7 c) (unichar_to_gsm7_extend c)

-- The bytes that `utf8_to_gsm8` writes; it returns their number.
unfoldable pub utf8_to_gsm8 : ℕ → Text → Option (List ℕ)
utf8_to_gsm8 fuel [] = some []
utf8_to_gsm8 fuel (c ∷ p) =
    followed (λ s t. s ++ t) (over gsm_codes (utf8_next fuel c p)) (utf8_to_gsm8 fuel p)

-- `utf8_from_gsm8`; the flag is `escaped`, which stays set behind a character of the extension table.
unfoldable pub from_gsm8 : Bool → List ℕ → Text
from_gsm8 escaped [] = []
from_gsm8 escaped (c ∷ src) =
    let escape = from_gsm8 true src in
    let space = utf8_write 0x20 ++ from_gsm8 false src in
    let extend = utf8_write (get_or gsm7bits_extend_to_unicode c 0) ++ from_gsm8 escaped src in
    let basic = utf8_write (get_or gsm7bits_to_unicode c 0) ++ from_gsm8 escaped src in
    if c == 0xff
    then []
    else if c == gsm_7bits_escape
    then (if escaped then space else escape)
    else if leb 0x80 c
    then space
    else if escaped
    then extend
    else basic

unfoldable pub utf8_from_gsm8 : List ℕ → Text
unfolding from_gsm8
utf8_from_gsm8 src = from_gsm8 false src
