-- ===== src/Slimproto/Update.antt =====
-- slimproto.c: the second half of the update of the playback state in `slimproto_run`: what is done
-- under the lock of outputbuf, and the packets that are sent.
use apple_squeezer.Prelude.{
  ℕ, Bool, true, false, ◌&&◌, ◌||◌, not, List, [], ◌∷◌, ◌++◌, Option, none, some, ◌==◌, ltb, leb,
  if◌then◌else◌, sub32,
}
use apple_squeezer.Buffer.{used}
use apple_squeezer.Stream.{StreamState, DisconnectCode, stream_disconnect}
use apple_squeezer.Output.{OutputState}
use apple_squeezer.Pcm.Decode.{DecodeState}
use apple_squeezer.Slimproto.Message.{
  Status, stmd, stml, stmn, stmo, stms, stmt, stmu, Message, stat, dsco, resp, meta,
}
use apple_squeezer.Slimproto.State.{stream_number, Player, Session}
use apple_squeezer.Slimproto.Pass.{
  Notes, no_notes, stream_is, output_is, decode_is, Pass, stream_status, note_disconnect,
  note_headers, note_meta, start_decoder, note_decoded,
}

-- Under the lock of outputbuf: the status, a track that has begun, the start of the output, and the
-- underruns and time-outs.
abbrev pub output_status : Pass → Pass
output_status t =
    let p = t.player in
    record t {
      session = record t.session {
        status = record t.session.status {
          output_full = used p.outputbuf;
          output_size = p.outputbuf.size;
          frames_played = p.device.frames_played_dmp;
          current_sample_rate = p.output.current_sample_rate;
          updated = p.device.updated;
          device_frames = p.device.device_frames;
        };
      };
    }

unfoldable pub note_track : Pass → Pass
note_track t =
    let o = t.player.output in
    if o.track_started
    then record t {
      session = record t.session {
        status = record t.session.status { stream_start = o.track_start_time };
      };
      player = record t.player { output = record o { track_started = false } };
      notes = record t.notes { send_stms = true };
    }
    else t

unfoldable pub start_output : Pass → Pass
start_output t =
    let o = t.player.output in
    let d = t.player.device in
    if t.notes.starts_output
      && (output_is o.state OutputState.stopped || output_is o.state OutputState.off)
    then record t {
      player = record t.player {
        output = record o { state = OutputState.buffering };
        device = record d {
          coreaudio_reopen = output_is o.state OutputState.off || d.coreaudio_reopen;
        };
      };
    }
    else t

-- All is played: the output runs dry behind the end of the stream.
abbrev pub is_played : Pass → Bool
is_played t =
    output_is t.player.output.state OutputState.running
    && not t.session.sent_stmu
    && t.session.status.output_full == 0
    && leb (stream_number t.session.status.stream_state) (stream_number StreamState.disconnected)
    && decode_is t.player.decode.state DecodeState.stopped

unfoldable pub note_played : ℕ → Pass → Pass
note_played now t =
    if is_played t
    then record t {
      session = record t.session { sent_stmu = true };
      player = record t.player {
        output = record t.player.output { state = OutputState.stopped; stop_time = now };
      };
      notes = record t.notes { send_stmu = true };
    }
    else t

-- The output runs dry in the middle of the stream.
unfoldable pub note_underrun : Pass → Pass
note_underrun t =
    if output_is t.player.output.state OutputState.running
      && not t.session.sent_stmo
      && t.session.status.output_full == 0
      && stream_is t.session.status.stream_state StreamState.streaming_http
    then record t {
      session = record t.session { sent_stmo = true };
      notes = record t.notes { send_stmo = true };
    }
    else t

unfoldable pub note_idle : ℕ → Pass → Pass
note_idle now t =
    let o = t.player.output in
    let idle = t.player.device.idle_to in
    if output_is o.state OutputState.stopped && not (idle == 0) && ltb idle (sub32 now o.stop_time)
    then record t { player = record t.player { output = record o { state = OutputState.off } } }
    else t

unfoldable pub note_time : ℕ → Pass → Pass
note_time now t =
    if output_is t.player.output.state OutputState.running
      && ltb 1000 (sub32 now t.session.status.last)
    then record t {
      session = record t.session { status = record t.session.status { last = now } };
      notes = record t.notes { send_stmt = true };
    }
    else t

-- `if (_stream_disconnect) stream_disconnect();`
unfoldable pub disconnect_noted : Pass → Pass
unfolding stream_disconnect
disconnect_noted t =
    if t.notes.disconnects
    then record t { player = record t.player { stream = (stream_disconnect t.player.stream).1 } }
    else t

abbrev pub when : Bool → Message → List Message
when true m = m ∷ []
when false m = []

abbrev pub when_some : Option DisconnectCode → List Message
when_some none = []
when_some (some code) = dsco code ∷ []

-- What is sent once the locks are released.
unfoldable pub noted : ℕ → Status → Notes → List Message
noted now s n =
    when_some n.send_dsco
    ++ (when n.send_stms (stat stms s now 0 0 0 0)
        ++ (when n.send_stmd (stat stmd s now 0 0 0 0)
            ++ (when n.send_stmt (stat stmt s now 0 0 0 0)
                ++ (when n.send_stml (stat stml s now 0 0 0 0)
                    ++ (when n.send_stmu (stat stmu s now 0 0 0 0)
                        ++ (when n.send_stmo (stat stmo s now 0 0 0 0)
                            ++ (when n.send_stmn (stat stmn s now 0 0 0 0)
                                ++ (when n.send_resp (resp n.header)
                                    ++ when n.send_meta (meta n.header)))))))))

-- The three parts, one lock each.
unfoldable pub on_stream : Pass → Pass
unfolding note_disconnect note_headers note_meta
on_stream t = note_meta (note_headers (note_disconnect (stream_status t)))

unfoldable pub on_decoder : Pass → Pass
unfolding start_decoder note_decoded
on_decoder t = note_decoded (start_decoder t)

unfoldable pub on_output : ℕ → Pass → Pass
unfolding note_track start_output note_played note_underrun note_idle note_time
on_output now t =
    note_time now (
      note_idle now (note_underrun (note_played now (start_output (note_track (output_status t))))))

-- A pass. `gettime_ms` in `sendSTAT` gives the time of the pass.
unfoldable pub pass : ℕ → Session → Player → Session × Player × List Message
unfolding on_stream on_decoder on_output disconnect_noted noted
pass now session player =
    let t = disconnect_noted (
      on_output now (
        on_decoder
          (on_stream (record { session = session; player = player; notes = no_notes })))) in
    (t.session, t.player, noted now t.session.status t.notes)
