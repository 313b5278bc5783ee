-- ===== src/Lib.antt =====
-- Apple Squeezer: a verification library for the audio path of the player.
--
-- The player receives a stream on the network (stream.c), under the control of a Logitech Media
-- Server (slimproto.c), decodes it (decode.c and a codec such as pcm.c), may process it
-- (process.c), and plays it (output.c with a device back end). The threads are joined by two byte
-- FIFOs, streambuf and outputbuf (buffer.c). Each file here translates one part:
--
-- Buffer: buffer.c. Buffer/Inv has the invariant of `struct buffer`, Buffer/Queue its reading as
--   a FIFO, Buffer/Unwrap the function `_buf_unwrap` with its laws below it. A pointer is its
--   offset from `buf->buf`, a `size_t` wraps at 2 ^ 64 and an `unsigned` at 2 ^ 32. Every function
--   runs with the buffer's mutex held, so each is one step.
-- Sample, Pack, Mix: output_pack.c, as compiled for a little-endian machine. A sample is an
--   integer, with its 32-bit pattern where the code works on bits.
-- Dop: dop.c, the markers of DSD over PCM.
-- Pcm: pcm.c and pcm_convert.h. Pcm/Convert has the reading of a sample,
--   Pcm/Convert/Perfect its way to the bytes of the device, Pcm/Chunks one round of
--   the loop of `_check_header`, Pcm/Header the loop, Pcm/Open `pcm_open`,
--   Pcm/Decode `pcm_decode` for a stream that is not new and without processing. The static variables
--   are a record; the stream is the list of the bytes that can be read in one piece.
-- Dsd: dsd.c, as compiled without processing. Dsd/Header has `_read_header`, with
--   its laws in Dsd/Safe and Dsd/RoundTrip, Dsd/Pack the words that are
--   written, Dsd/Diff `_decode_dsdiff`, Dsd/Dsf `_decode_dsf`, Dsd/Decode `dsd_decode`. The state of
--   dsd2pcm is of any type, and `dsd2pcm_translate` with `_pcm32` of its floats is an argument, as is the
--   table `dsd2pcm_bitreverse`.
-- Output: output.c and `struct outputstate`. Output/Fade has one round of a fade,
--   Output/Frames/Prepare what `_output_frames` does in front of its loop, Output/Frames the loop.
--   A pointer into outputbuf is an offset, and NULL is `none`. The back end's `write_cb` is an
--   argument, as are `to_gain` of a quotient of floats and the clock.
-- Stream: stream.c and `struct streamstate`, a round of the thread as one step. Stream/Demux has the
--   reader of single bytes that a stream with metadata is compared with, Stream/Bounds the invariant
--   of the header buffer, Stream/Reach all that changes the stream and Stream/Host the search for the
--   host in a header. Of `stream_ogg` the writing of the comments to the header is modelled; how they
--   are found in the pages is an argument.
-- Network: utils.c, numbers in network byte order.
-- Slimproto: slimproto.c and slimproto.h. Slimproto/Receive has the reading of packets, compared in
--   Slimproto/Framing with what the server framed; Slimproto/Packets, Slimproto/Strm and
--   Slimproto/Handlers have the packets and `process_strm` to `process_serv`, Slimproto/Process the
--   table `handlers` and `process`, Slimproto/Message the packets that are sent, Slimproto/Pass and
--   Slimproto/Update the update of the playback state in `slimproto_run`, Slimproto/Once what it
--   sends once. `Player` has the parts that the threads share: Stream, Codecs and Output, with the
--   two buffers.
-- Process: process.c, `_write_samples`, with its proof in Process/Write; Process/Start has
--   `process_newstream`. What the resampler and the DSP answer is an argument.
-- Codecs: decode.c, the table of codecs and `codec_open`; Codecs/Thread has a round of
--   the thread. The functions of a codec are not modelled: the calls of them are a list in the state.
--
-- Prelude holds what these share: tests, lists and integers over the native numbers, words, and
-- the laws of `&` and `|` on fields of bits.
--
-- Fuel: `_buf_unwrap` calls itself where malloc fails; more rounds than `cont` are enough.
-- `_check_header` has as many rounds as there are bytes, and each passes at least eight.
-- `_read_header` has a round more than there are bytes, and each but the last passes at least one.
-- `_decode_dsf` has a round more than a block has bytes; with room for a block each reads one at least.
-- The loop of `_output_frames` has as many rounds as there are frames to write, and each writes one
-- or is the last; skipping has a round for each frame.
-- `_write_samples` has at most as many rounds as there are frames and waits.
-- malloc is an argument of the functions that call it, with its documented answer (storage of the
-- size asked for) as a hypothesis where a result depends on it.
--
-- Not modelled: device back ends, codec libraries and their wrappers, floating-point processing
-- (dsp.c, resample.c, `to_gain`), sockets and threads themselves, the command line; of stream.c the
-- pages of Ogg streams and SSL, of slimproto.c the discovery and the connection, HELO and IR;
-- of dsd.c the decoding into the buffer of process.c, and dsd2pcm.
pub mod Prelude
pub mod Buffer
pub mod Codecs
pub mod Dop
pub mod Dsd
pub mod Mix
pub mod Network
pub mod Output
pub mod Pack
pub mod Pcm
pub mod Process
pub mod Sample
pub mod Slimproto
pub mod Stream
