-- ===== src/Lib.antt =====
-- Verification of chan_quectel, the channel driver that connects Asterisk with Quectel and SimCom
-- modems over a serial line.
--
-- The driver sends AT commands and reads responses. Commands wait in a queue (src/at_queue.c), a
-- task of several commands at a time; what the modem sends is read into a byte ring
-- (src/ringbuffer.c), where the reader (src/at_read.c) looks for the ends of responses; a response
-- tells the queue to go on. Texts of messages are turned into the 7-bit alphabet and into
-- hexadecimal digits (src/char_conv.c with the tables of src/gsm7_luts.h) and put into PDUs
-- (src/pdu.c). The calls of a device (src/cpvt.c) go through the states that the modem reports, one
-- of them owns the audio, and the audio of several is mixed in a second ring (src/mixbuffer.c).
--
-- Which file models what:
--
--   Ring           src/ringbuffer.c, src/ringbuffer.h: `struct ringbuffer` is the record Ringbuffer,
--                  and each function has its name. The storage is a list of bytes and a pointer into it
--                  an offset; an `iovec` array is a record that a function is handed and returns.
--   Ring/Search    the searches of src/ringbuffer.c, and src/memmem.c.
--   AtRead         src/at_read.c: what the reader keeps between its calls is the record Reader; a call of
--                  itself is a pass, on fuel. The loop of src/monitor_thread.c over the responses.
--   Queue          src/at_queue.c, src/at_queue.h: the queue and its two counters are the record Pvt.
--   Queue/Run      what the queue sends, and the insertions.
--   MixBuffer      src/mixbuffer.c, src/mixbuffer.h: the streams are a list, and a pointer to one is
--                  its place.
--   Cpvt           src/cpvt.c, src/cpvt.h: the calls of a device are a list of records in the record
--                  Device, and a pointer to a call is its address, a number. Cpvt/Activate says whose the
--                  audio is, Cpvt/Change has the call state machine, Cpvt/Find what src/chan_quectel.c
--                  asks of the list, and Cpvt/Channels what src/channel.c, src/at_response.c,
--                  src/chan_quectel.c and src/monitor_thread.c do with a call; Cpvt/System is a
--                  device over time, whose steps are all operations that change its calls.
--   AtCommand      src/at_command.c: the commands that end a call.
--   CharConv       src/char_conv.c: hexadecimal text and the codes of the 7-bit alphabet;
--                  CharConv/LutLs, LutSs and LutRev are the tables of src/gsm7_luts.h.
--   CharConv/Pack  gsm7_pack and gsm7_unpack_decode of src/char_conv.c.
--   Pdu            src/pdu.c: numbers in semi-octets and the validity period; Pdu/Parts cuts a text
--                  into parts, Pdu/Build builds the messages of pdu_build and pdu_build_mult, and
--                  Pdu/Deliver is tpdu_parse_deliver, with `pdu + i` as the list from there on, and
--                  Pdu/Report has the other parsers.
--   Prelude        shared names, lists, bits and machine words.
--
-- `size_t` is 64 bits wide and `unsigned` 32, with their wrap written out; the theorems on the
-- ring assume a storage smaller than 2 ^ 62 bytes. Loops that are not over a list run on fuel: one
-- round for each unit in the cutting of a text, one for each byte of a user data header and one
-- more, one for each task in at_queue_flush, one for each byte of the pattern in the search round
-- the end of the storage, one for each bit that is under way in gsm7_unpack_decode, two for each
-- byte of the ring and one more in at_read_result_iov, and one for each byte of the ring in the
-- monitor's loop. Calls of Asterisk and of the operating system are arguments: whether an
-- allocation, a pipe, a capture or a write succeeds, the time and its normalization, the
-- conversion to UTF-8, and the string buffer, whose appending within its limit is the one law that
-- is assumed of it.
--
-- Not modelled: the audio path, most of the callbacks of channels, the console, the configuration,
-- the message store and the parsers of responses, which for the most part are calls of Asterisk,
-- ALSA, SQLite and the C library; locking; logging.
pub mod AtCommand
pub mod AtRead
pub mod CharConv
pub mod Cpvt
pub mod MixBuffer
pub mod Pdu
pub mod Prelude
pub mod Queue
pub mod Ring
