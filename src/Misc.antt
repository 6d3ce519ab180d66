-- ===== src/Misc.antt =====
-- misc.c: prefixes of lines, and the first element of a tagged document.
pub mod Prefix
pub mod Elements
mod Examples
use sxx_ril.Common.{
  ℕ, ◌-◌, ◌+◌, Bool, true, false, Option, none, some, List, [], ◌∷◌, ◌==◌, if◌then◌else◌, Text,
  length, take, drop, ltb,
}

-- `strStartsWith`.
unfoldable pub str_starts_with : Text → Text → Bool
str_starts_with line [] = true
str_starts_with [] (p ∷ prefix) = false
str_starts_with (c ∷ line) (p ∷ prefix) = if c == p then str_starts_with line prefix else false

abbrev pub bump : Option ℕ → Option ℕ
bump none = none
bump (some k) = some (k + 1)

-- `strstr(s, t)` as an offset into `s`.
unfoldable pub strstr : Text → Text → Option ℕ
unfolding str_starts_with
strstr [] t = if str_starts_with [] t then some 0 else none
strstr (c ∷ s) t =
    let later = bump (strstr s t) in if str_starts_with (c ∷ s) t then some 0 else later

-- `absent` is a NULL result; `fault` is the undefined behaviour of a negative length, which
-- `malloc` and `strncpy` take for a huge one.
pub data Element : Type 0 where
  absent fault : Element
  found : Text → Text → Element

-- With `start` at the begin tag and the end tag `k` bytes on: the value, and what is behind it.
pub cut_value : Text → Text → Text → ℕ → Element
cut_value begin_tag end_tag start k =
    let n = length begin_tag in
    if ltb k n then fault else found (take (k - n) (drop n start)) (drop (k + length end_tag) start)

-- `end = strstr(start, elementEndTag)`, and what is done with it.
pub find_end : Text → Text → Text → Option ℕ → Element
unfolding cut_value
find_end begin_tag end_tag start none = absent
find_end begin_tag end_tag start (some k) = cut_value begin_tag end_tag start k

-- `start = strstr(document, elementBeginTag)`, and what is done with it.
pub find_begin : Text → Text → Text → Option ℕ → Element
unfolding find_end strstr
find_begin document begin_tag end_tag none = absent
find_begin document begin_tag end_tag (some k) =
    let start = drop k document in find_end begin_tag end_tag start (strstr start end_tag)

-- `getFirstElementValue` on arguments that are not NULL, with the remaining document.
unfoldable pub get_first_element_value : Text → Text → Text → Element
unfolding find_begin
get_first_element_value document begin_tag end_tag =
    find_begin document begin_tag end_tag (strstr document begin_tag)
