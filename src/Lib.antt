-- ===== src/Lib.antt =====
-- Verification of sxx-ril, an Android radio interface layer for USB 3G modems.
--
-- The library takes requests from the Android telephony service, turns them into AT commands on a
-- serial line, and turns the lines that the modem sends into responses and unsolicited events.
--
-- The parts and their files:
-- - at_tok.c, the reader of AT lines: Tok.antt. A cursor `char **` is an Option Text (NULL is none)
--   that every reader takes and returns. The four readers return a Result with the cursor behind.
--   strtol and strtoul of the C library, for a 32-bit long, are in Tok/Strtol.antt.
-- - misc.c, prefixes and XML elements: Misc.antt. A pointer into the document is an offset.
-- - sxx-ril-manager.c, the registration tables and the dispatch of requests and unsolicited lines:
--   Manager.antt. The tables are lists of slots of any length; a zeroed slot has number 0 or the
--   prefix NULL. A handler is a value of a type of the user's.
-- - atchannel.c, the AT channel: Channel/State.antt (the static variables as a record, and what the
--   code does to the outside as Effect), Channel/Lines.antt (the lists of line kinds),
--   Channel/Process.antt (`processLine`), Channel/Write.antt (`writeline` and `writeCtrlZ` over the
--   results of write(2)), Channel/Command.antt (`at_send_command_full_nolock` and the calls above it;
--   the reader thread, the timer and the wake-ups are a list of events in any order),
--   Channel/Reader.antt (`readerLoop` and `onReaderClosed`).
-- - helper/gsm.c, the formats of GSM: Gsm.antt. Gsm/Hex.antt is the hexadecimal notation, Gsm/Bcd.antt
--   the decimal nibbles, Gsm/Utf8.antt UTF-8 and UCS-2, Gsm/Alphabet.antt the tables of the alphabet and
--   the unpacked texts, Gsm/Septets.antt the packed ones. A buffer is the list of its bytes; a function
--   that fills one returns what it writes. A read behind the end of a buffer is none.
-- - sxx-ril.c, the filter of requests by the state of the radio: Filter.antt. The states and requests
--   that it names are constructors; it returns the completion that the request gets, if any.
-- - at_get_cme_error of atchannel.c: Channel/Cme.antt.
-- - The handlers of requests and unsolicited lines (sxx-ril-*.c) are programs over the calls that they
--   make: Ril.antt has the commands with their answers, the completions and notifications of telephony,
--   the timed callbacks, and the static variables that handlers share. `run` is the run of a program
--   with a modem, which is a parameter; Channel/Modem.antt is the channel of atchannel.c as such a modem.
--   Ril/Steps.antt has the tests that handlers repeat, Ril/Payload.antt what they pass to telephony.
--   A NULL pointer that is read, a variable that is not set, and a pointer that is freed off its start
--   are the program `undefined`.
-- - sxx-ril-call.c, call control: Call.antt reads the lines of the list of calls, over Tok.antt;
--   Call/Requests.antt has the handlers. An int or a text of `data` is an argument of the request.
-- - sxx-ril-service.c, supplementary services: Service.antt, and Service/Forwards.antt for call
--   forwarding. sxx-ril-device.c: Device.antt. sxx-ril-message.c: Message.antt for the requests,
--   Message/Incoming.antt for the lines.
-- - setRadioState, getSIMStatus and what stands between them (sxx-ril-network.c, sxx-ril-sim.c):
--   Radio.antt. The PIN requests and the card status: Sim.antt.
-- - sxx-ril-network.c: Network.antt, Network/Registration.antt, Network/Operators.antt.
-- - helper/sms.c, the bit fields of a CDMA message and the numbers in them: Cdma.antt; a `char *` is an
--   address of a memory of characters. Cdma/Message.antt is the encoding of a whole message.
-- - sxx-ril.c, from the filter to the handler: Main.antt (the default handlers, the start-up, the end of
--   the channel) and Main/Names.antt (`onRequest`).
-- In each of these folders Completion.antt is about how often a request is completed.
-- Texts are lists of bytes without the final NUL. Common.antt has what they share.
--
-- Fuel: only the loop in `utf8_next` has one, since it does not end on a character that is not
-- ASCII; none is a run that is still in it, and an ASCII text needs no fuel at all. Every other
-- loop is a structural recursion; `await` recurses on the events that arrive, and is `running` when
-- they end before the command returns.
--
-- Not modelled: the data connection (sxx-ril-pdp.c), the phonebook and the request for SIM I/O that it
-- hooks, the modem files, and onUSSDReceived; the formats of GSM messages (helper/sms_gsm.c), the
-- decoding of CDMA messages but for the number (helper/sms.c) and the bit fields (helper/bit_op.c); the reading of bytes into lines, the search of the
-- USB bus and the main loop, which are I/O. A handler runs alone: what the reader thread changes of the
-- state while it runs is not modelled, and the handlers are the default ones, without those that a modem
-- file registers in their place. The strcpy of requestGetIMSI between overlapping
-- texts copies forward. Allocation never fails in the model, logging and sleeping have no
-- effect, and the assertions on `data` hold. The leak of a response is not seen.

pub mod Call
pub mod Cdma
pub mod Channel
pub mod Common
pub mod Device
pub mod Filter
pub mod Gsm
pub mod Main
pub mod Manager
pub mod Message
pub mod Misc
pub mod Network
pub mod Radio
pub mod Ril
pub mod Service
pub mod Sim
pub mod Tok
