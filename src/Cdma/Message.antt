-- ===== src/Cdma/Message.antt =====
-- helper/sms.c: a message that is sent. The memory is what the function leaves at `pdu`; the texts `to`
-- and `message` lie outside of it.
use sxx_ril.Common.{ℕ, zero, suc, ◌+◌, ◌-◌, ◌*◌, ◌/◌, List, [], ◌∷◌, length, Text}
use sxx_ril.Cdma.{Memory, update, setbits, encode_number, encode_number_bytes}
pub mod Frames
pub mod Number

-- The sum of the characters, as the message id.
unfoldable pub message_id : List ℕ → ℕ
message_id [] = 0
message_id (c ∷ text) = c + message_id text

-- The loop over the characters, from the bit `b` on.
unfoldable pub encode_text : Memory → ℕ → List ℕ → ℕ → Memory
encode_text m msg [] b = m
encode_text m msg (c ∷ text) b = encode_text (setbits m msg b 7 c) msg text (b + 7)

-- The bytes of the user data, its two bytes of code and length among them.
unfoldable pub text_bytes : List ℕ → ℕ
text_bytes text = (29 + length text * 7 + 7) / 8

-- What `encode_bearer_data` leaves in memory.
unfoldable pub encode_bearer_data : Memory → ℕ → List ℕ → Memory
encode_bearer_data m start text =
    let kind = setbits (setbits (setbits m start 0 8 0) start 8 8 3) start 16 4 2 in
    let id = setbits kind start 20 16 (message_id text) in
    let msg = start + 10 in
    let head = setbits (setbits (setbits id msg 0 8 1) msg 16 5 2) msg 21 8 (length text) in
    let counted = setbits (encode_text head msg text 29) msg 8 8 (text_bytes text - 2) in
    let next = msg + 2 * text_bytes text in
    setbits (setbits counted next 0 24 0x80100) next 24 24 0x0d0100

-- What `encode_bearer_data` returns, the number of bytes.
unfoldable pub encode_bearer_data_bytes : List ℕ → ℕ
encode_bearer_data_bytes text = (10 + 2 * text_bytes text + 12) / 2

-- The loop of `encode_cdma_sms` that fills the buffer with '0'.
unfoldable pub fill : Memory → ℕ → ℕ → Memory
fill m pdu zero = m
fill m pdu (suc n) = update (fill m pdu n) (pdu + n) b'0'

-- What `encode_cdma_sms` leaves in memory.
unfoldable pub encode_cdma_sms : Memory → ℕ → List ℕ → List ℕ → Memory
encode_cdma_sms m pdu to message =
    let head = setbits (setbits (fill m pdu 512) pdu 0 16 0) pdu 16 24 0x021002 in
    let address = pdu + 10 in
    let number = encode_number (setbits head address 0 8 4) (address + 4) to in
    let sized = setbits number address 8 8 (encode_number_bytes to) in
    let reply = address + encode_number_bytes to * 2 + 4 in
    let bearer = reply + 6 in
    let coded = setbits (setbits sized reply 0 24 0x060100) bearer 0 8 8 in
    let text = encode_bearer_data coded (bearer + 4) message in
    let bytes = encode_bearer_data_bytes message in
    update (setbits text bearer 8 8 bytes) (bearer + bytes * 2 + 4) 0
