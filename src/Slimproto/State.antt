-- ===== src/Slimproto/State.antt =====
-- slimproto.c: what the control connection works on. The enumerations are compared by their
-- numbers, as the code does.
use apple_squeezer.Prelude.{ℕ, Bool}
use apple_squeezer.Prelude.Int.{ℤ}
use apple_squeezer.Buffer.{Buffer}
use apple_squeezer.Stream.{
  Stream, StreamState, disconnected, streaming_wait, streaming_buffering, streaming_file,
  streaming_http, send_headers, recv_headers,
}
use apple_squeezer.Output.{Output, OutputState, off, buffering, pause_frames, skip_frames, start_at}
use apple_squeezer.Pcm.Decode.{DecodeState, ready, complete, error}
use apple_squeezer.Codecs.{Decoding}
use apple_squeezer.Slimproto.Message.{Status}

-- `stream_state`, `output_state` and `decode_state`, as numbers.
abbrev pub stream_number : StreamState → ℕ
stream_number StreamState.stopped = 0
stream_number disconnected = 1
stream_number streaming_wait = 2
stream_number streaming_buffering = 3
stream_number streaming_file = 4
stream_number streaming_http = 5
stream_number send_headers = 6
stream_number recv_headers = 7

abbrev pub output_number : OutputState → ℕ
output_number off = 0
output_number OutputState.stopped = 1
output_number buffering = 2
output_number OutputState.running = 3
output_number pause_frames = 4
output_number skip_frames = 5
output_number start_at = 6

abbrev pub decode_number : DecodeState → ℕ
decode_number DecodeState.stopped = 0
decode_number ready = 1
decode_number DecodeState.running = 2
decode_number complete = 3
decode_number error = 4

-- What else of `struct outputstate` the connection reads and writes.
pub record Device : Type 0 where
  pub frames_played_dmp : ℕ
  pub updated : ℕ
  pub device_frames : ℕ
  pub idle_to : ℕ
  pub coreaudio_reopen : Bool

-- What the threads share.
pub record Player : Type 0 where
  pub stream : Stream
  pub streambuf : Buffer
  pub decode : Decoding
  pub output : Output
  pub outputbuf : Buffer
  pub device : Device

-- What belongs to the connection alone.
pub record Session : Type 0 where
  pub status : Status
  pub autostart : ℤ
  pub sent_stmu : Bool
  pub sent_stmo : Bool
  pub sent_stml : Bool
