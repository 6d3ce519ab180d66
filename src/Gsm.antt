-- ===== src/Gsm.antt =====
-- helper/gsm.c: digits, the hexadecimal notation, UTF-8 and the alphabet of GSM. A buffer is the
-- list of its bytes; a function that fills one returns the bytes that it writes, in order.
pub mod Hex
pub mod Examples
pub mod Utf8
pub mod Alphabet
pub mod Septets
pub mod Bcd
