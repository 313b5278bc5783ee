-- ===== src/Slimproto/Pass.antt =====
-- slimproto.c: the first half of the update of the playback state in `slimproto_run`, when it is
-- woken or every 100 ms: what is done under the locks of streambuf and of the decoder. The build is
-- one without IR and with neither Core Audio nor PortAudio.
use apple_squeezer.Prelude.{
  ℕ, Bool, true, false, ◌&&◌, ◌||◌, not, List, [], Option, none, some, ◌==◌, if◌then◌else◌,
}
use apple_squeezer.Prelude.Int.{ℤ, pos, negsuc}
use apple_squeezer.Buffer.{used}
use apple_squeezer.Stream.{StreamState, DisconnectCode, disconnect_ok}
use apple_squeezer.Output.{OutputState}
use apple_squeezer.Pcm.Decode.{DecodeState}
use apple_squeezer.Slimproto.Message.{reason}
use apple_squeezer.Slimproto.State.{stream_number, output_number, decode_number, Player, Session}

-- The local flags of the pass, with the header that is copied for RESP and META.
pub record Notes : Type 0 where
  pub send_dsco : Option DisconnectCode
  pub send_resp : Bool
  pub send_meta : Bool
  pub header : List ℕ
  pub send_stms : Bool
  pub send_stmd : Bool
  pub send_stmt : Bool
  pub send_stml : Bool
  pub send_stmu : Bool
  pub send_stmo : Bool
  pub send_stmn : Bool
  pub disconnects : Bool
  pub starts_output : Bool

abbrev pub no_notes : Notes
no_notes = record {
  send_dsco = none;
  send_resp = false;
  send_meta = false;
  header = [];
  send_stms = false;
  send_stmd = false;
  send_stmt = false;
  send_stml = false;
  send_stmu = false;
  send_stmo = false;
  send_stmn = false;
  disconnects = false;
  starts_output = false;
}

abbrev pub stream_is : StreamState → StreamState → Bool
stream_is a b = stream_number a == stream_number b

abbrev pub output_is : OutputState → OutputState → Bool
output_is a b = output_number a == output_number b

abbrev pub decode_is : DecodeState → DecodeState → Bool
decode_is a b = decode_number a == decode_number b

-- What the pass works on.
pub record Pass : Type 0 where
  pub session : Session
  pub player : Player
  pub notes : Notes

-- Under the lock of streambuf: the status, then a disconnection, the response header and the
-- metadata that are to be sent on.
abbrev pub stream_status : Pass → Pass
stream_status t =
    let p = t.player in
    record t {
      session = record t.session {
        status = record t.session.status {
          stream_full = used p.streambuf;
          stream_size = p.streambuf.size;
          stream_bytes = p.stream.bytes;
          stream_state = p.stream.state;
        };
      };
    }

unfoldable pub note_disconnect : Pass → Pass
note_disconnect t =
    let s = t.player.stream in
    if stream_is s.state StreamState.disconnected
    then record t {
      player = record t.player { stream = record s { state = StreamState.stopped } };
      notes = record t.notes { send_dsco = some s.disconnect };
    }
    else t

unfoldable pub note_headers : Pass → Pass
note_headers t =
    let s = t.player.stream in
    if not s.sent_headers
      && (stream_is s.state StreamState.streaming_http
          || stream_is s.state StreamState.streaming_wait
          || stream_is s.state StreamState.streaming_buffering)
    then record t {
      player = record t.player { stream = record s { sent_headers = true } };
      notes = record t.notes { header = s.header; send_resp = true };
    }
    else t

unfoldable pub note_meta : Pass → Pass
note_meta t =
    let s = t.player.stream in
    if s.meta_send
    then record t {
      player = record t.player { stream = record s { meta_send = false } };
      notes = record t.notes { header = s.header; send_meta = true };
    }
    else t

-- Under the lock of the decoder: it is started, or is found to have ended.
abbrev pub can_start : Pass → Bool
can_start t =
    let state = t.session.status.stream_state in
    (stream_is state StreamState.streaming_http
      || stream_is state StreamState.streaming_file
      || stream_is state StreamState.disconnected
        && reason t.player.stream.disconnect == reason disconnect_ok)
    && not t.session.sent_stml
    && decode_is t.player.decode.state DecodeState.ready

abbrev pub run_decoder : Player → Player
run_decoder p = record p { decode = record p.decode { state = DecodeState.running } }

abbrev pub start_by : ℤ → Pass → Pass
start_by (pos n) t =
    if n == 0
    then record t {
      session = record t.session { sent_stml = true };
      player = run_decoder t.player;
      notes = record t.notes { send_stml = true };
    }
    else if n == 1
    then record t { player = run_decoder t.player; notes = record t.notes { starts_output = true } }
    else t
start_by (negsuc n) t = t

unfoldable pub start_decoder : Pass → Pass
start_decoder t = if can_start t then start_by t.session.autostart t else t

unfoldable pub note_decoded : Pass → Pass
note_decoded t =
    let state = t.player.decode.state in
    let stream = t.session.status.stream_state in
    if decode_is state DecodeState.complete || decode_is state DecodeState.error
    then record t {
      player = record t.player { decode = record t.player.decode { state = DecodeState.stopped } };
      notes = record t.notes {
        send_stmd = decode_is state DecodeState.complete;
        send_stmn = decode_is state DecodeState.error;
        disconnects =
            stream_is stream StreamState.streaming_http
            || stream_is stream StreamState.streaming_file;
      };
    }
    else t
