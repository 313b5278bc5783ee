-- ===== src/Slimproto/Strm.antt =====
-- slimproto.c: `process_strm`, and what all handlers work on, in a build without DSP and without
-- processing. The clock, the table of codecs, whether a file or a connection could be opened, the
-- answers of `server_addr` and malloc, and the back end's `set_volume` are in `World`.
use apple_squeezer.Prelude.{
  ℕ, ◌-◌, ◌*◌, ◌/◌, ◌^◌, Bool, false, ◌&&◌, ◌||◌, not, List, [], ◌∷◌, ◌++◌, length, drop, Option,
  some, ◌==◌, ltb, if◌then◌else◌, u32, bit_and,
}
use apple_squeezer.Prelude.Int.{ℤ, pos, sub_ℕ, ◌-ℤ◌, ltb_ℤ}
use apple_squeezer.Buffer.{flush}
use apple_squeezer.Stream.{stream_file, stream_sock, stream_disconnect, max_header}
use apple_squeezer.Output.{
  Output, OutputState, FadeMode, fade_none, crossfade, fade_in, fade_out, fade_inout, output_flush,
  output_flush_streaming,
}
use apple_squeezer.Pcm.Decode.{DecodeState}
use apple_squeezer.Codecs.{Slot, Decoding, codec_open}
use apple_squeezer.Network.{unpack_u32, ◌>>=◌}
use apple_squeezer.Slimproto.Message.{Stat, stmc, stmf, stmp, stmr, stmt, Message, stat}
use apple_squeezer.Slimproto.State.{Player, Session}
use apple_squeezer.Slimproto.Pass.{output_is}
use apple_squeezer.Slimproto.Packets.{Strm, read_strm}

-- The state of the connection, and what it has sent.
pub record Connection : Type 0 where
  pub session : Session
  pub player : Player
  pub slimproto_ip : ℕ
  pub new_server : ℕ
  pub new_server_cap : Option (List ℕ)
  pub player_name : List ℕ
  pub sent : List Message

pub record World : Type 0 where
  pub now : ℕ
  pub slots : List Slot
  pub opens : Bool
  pub connects : Bool
  pub server_addr : ℕ
  pub has_memory : Bool
  pub set_volume : ℕ → ℕ → Output → Output

abbrev pub send_packet : Message → Connection → Connection
send_packet m c = record c { sent = c.sent ++ (m ∷ []) }

-- `sendSTAT(event, 0)`
abbrev pub send_stat : Stat → World → Connection → Connection
send_stat e w c = send_packet (stat e c.session.status w.now 0 0 0 0) c

-- `decode_flush`
abbrev pub decode_flush : Decoding → Decoding
decode_flush d = record d { state = DecodeState.stopped }

-- `strm q`
unfoldable pub strm_quit : World → Connection → Connection
unfolding output_flush stream_disconnect flush
strm_quit w c =
    let p = c.player in
    let (o, b) = output_flush w.now p.output p.outputbuf in
    send_stat stmf w (record c {
      session = record c.session { status = record c.session.status { frames_played = 0 } };
      player = record p {
        decode = decode_flush p.decode;
        output = o;
        outputbuf = b;
        stream = (stream_disconnect p.stream).1;
        streambuf = flush p.streambuf;
      };
    })

-- `strm f`
unfoldable pub strm_flush : World → Connection → Connection
unfolding output_flush_streaming stream_disconnect flush
strm_flush w c =
    let p = c.player in
    let (flushed, o, b) = output_flush_streaming p.output p.outputbuf in
    let (connected, s) = stream_disconnect p.stream in
    let c' : Connection = record c {
      player = record p {
        decode = decode_flush p.decode;
        output = o;
        outputbuf = b;
        stream = s;
        streambuf = flush p.streambuf;
      };
    } in
    if connected || flushed then send_stat stmf w c' else c'

-- What the handlers do to `output`.
abbrev pub with_output : (Output → Output) → Connection → Connection
with_output f c = record c { player = record c.player { output = f c.player.output } }

-- `interval * status.current_sample_rate / 1000`
abbrev pub frames_in : ℕ → Connection → ℕ
frames_in interval c = u32 (interval * c.session.status.current_sample_rate) / 1000

-- `strm p`
unfoldable pub strm_pause : ℕ → World → Connection → Connection
strm_pause interval w c =
    let waiting = frames_in interval c in
    if interval == 0
    then send_stat stmp w (
        with_output
          (λ o.
            if output_is o.state OutputState.off
            then record o { waiting = waiting }
            else record o { waiting = waiting; state = OutputState.stopped; stop_time = w.now })
          c)
    else with_output (λ o. record o { waiting = waiting; state = OutputState.pause_frames }) c

-- `strm a`
unfoldable pub strm_skip : ℕ → Connection → Connection
strm_skip interval c =
    with_output (λ o. record o { waiting = frames_in interval c; state = OutputState.skip_frames })
      c

-- `strm u`
unfoldable pub strm_unpause : ℕ → World → Connection → Connection
strm_unpause jiffies w c = send_stat stmr w (
    with_output
      (λ o. record o {
        state = if jiffies == 0 then OutputState.running else OutputState.start_at;
        waiting = jiffies;
      })
      c)

-- `transition_type - '0'` as a `fade_mode`; a number that is none is compared with none as well.
abbrev pub fade_of : ℕ → FadeMode
fade_of t =
    if t == b'1'
    then crossfade
    else if t == b'2'
    then fade_in
    else if t == b'3'
    then fade_out
    else if t == b'4'
    then fade_inout
    else fade_none

abbrev pub local_player_ip : ℕ
local_player_ip = 0x0100007f

abbrev pub local_player_port : ℕ
local_player_port = 0x9b0d

abbrev pub with_autostart : (ℤ → ℤ) → Connection → Connection
with_autostart f c = record c { session = record c.session { autostart = f c.session.autostart } }

-- `autostart >= 2`
abbrev pub waits_for_cont : Connection → Bool
waits_for_cont c = not (ltb_ℤ c.session.autostart (pos 2))

-- The stream is opened: a file of the local player, or a connection. `header` is all that is left of
-- the packet; `none` says that `stream_sock` reads past its end.
unfoldable pub open_stream : World → Strm → List ℕ → Connection → Option Connection
unfolding stream_file stream_sock ◌-ℤ◌
open_stream w m header c =
    let p = c.player in
    let ip = if m.server_ip == 0 then c.slimproto_ip else m.server_ip in
    let threshold = m.threshold * 1024 in
    if ip == local_player_ip && m.server_port == local_player_port
    then (let (s, b) = stream_file w.opens header threshold p.stream p.streambuf in
        some (
          with_autostart (λ a. a -ℤ pos 2)
            (record c { player = record p { stream = s; streambuf = b } })))
    else stream_sock w.connects header threshold (waits_for_cont c) p.stream p.streambuf >>= λ r.
        some (record c { player = record p { stream = r.0; streambuf = r.1 } })

-- What the output is told of the stream.
unfoldable pub prepare_output : Strm → Output → Output
unfolding unpack_u32
prepare_output m o = record o {
  threshold = m.output_threshold;
  next_replay_gain = unpack_u32 m.gain0 m.gain1 m.gain2 m.gain3;
  fade_mode = fade_of m.transition_type;
  fade_secs = m.transition_period;
  invert = bit_and m.flags 0x03 == 0x03;
  channels = bit_and m.flags 0x0c / 2 ^ 2;
}

abbrev pub reset_sent : Connection → Connection
reset_sent c = record c {
  session = record c.session { sent_stmu = false; sent_stmo = false; sent_stml = false };
}

abbrev pub open_codec : World → ℕ → Connection → Connection
open_codec w format c = record c {
  player = record c.player { decode = codec_open format w.slots c.player.decode };
}

unfoldable pub strm_opened : World → Strm → List ℕ → Connection → Option Connection
unfolding open_stream prepare_output
strm_opened w m header c = do
  c' ← open_stream w m header c
  some (with_output (prepare_output m) (reset_sent (send_stat stmc w c')))

-- `strm s`
unfoldable pub strm_start : World → Strm → List ℕ → Connection → Option Connection
unfolding strm_opened codec_open
strm_start w m header c =
    let c' : Connection = send_stat stmf w (with_autostart (λ _. sub_ℕ m.autostart b'0') c) in
    if ltb (max_header - 1) (length header)
    then some c'
    else if not (m.format == b'?')
    then strm_opened w m header (open_codec w m.format c')
    else if waits_for_cont c'
    then strm_opened w m header c'
    else some c'

-- The commands of `process_strm`
unfoldable pub strm_command : World → Strm → List ℕ → Connection → Option Connection
unfolding strm_quit strm_flush strm_pause strm_skip strm_unpause strm_start
strm_command w m header c =
    let number = unpack_u32 m.gain0 m.gain1 m.gain2 m.gain3 in
    if m.command == b't'
    then some (send_packet (stat stmt c.session.status w.now m.gain0 m.gain1 m.gain2 m.gain3) c)
    else if m.command == b'q'
    then some (strm_quit w c)
    else if m.command == b'f'
    then some (strm_flush w c)
    else if m.command == b'p'
    then some (strm_pause number w c)
    else if m.command == b'a'
    then some (strm_skip number c)
    else if m.command == b'u'
    then some (strm_unpause number w c)
    else if m.command == b's'
    then strm_start w m header c
    else some c

unfoldable pub process_strm : World → List ℕ → Connection → Option Connection
unfolding strm_command read_strm
process_strm w packet c = do m ← read_strm packet; strm_command w m (drop 28 packet) c
