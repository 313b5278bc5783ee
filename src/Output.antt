-- ===== src/Output.antt =====
-- output.c and `struct outputstate`: the state that the output thread shares with the decoder and
-- with the control connection, and the operations on it besides `_output_frames`. The build is one
-- with DSD; a pointer into outputbuf is its offset from `outputbuf->buf`, with `none` for NULL.
pub mod Fade
pub mod Frames
pub mod Check
pub mod Flush
mod Tests
use apple_squeezer.Prelude.{
  ℕ, ◌+◌, ◌-◌, ◌*◌, ◌/◌, Bool, true, false, ◌&&◌, ◌||◌, not, Option, none, some, ◌==◌, ltb, leb,
  if◌then◌else◌, min, u32, sub64, List, Option-cases,
}
use apple_squeezer.Buffer.{Buffer, used, flush, resize}

-- `output_state`
pub data OutputState : Type 0 where
  off stopped buffering running pause_frames skip_frames start_at : OutputState

-- `fade_state`
pub data FadeState : Type 0 where
  inactive due active : FadeState

-- `fade_dir`; `undirected` is the 0 that a static variable starts with.
pub data FadeDir : Type 0 where
  undirected up down cross : FadeDir

-- `fade_mode`
pub data FadeMode : Type 0 where
  fade_none crossfade fade_in fade_out fade_inout : FadeMode

-- `struct outputstate`, less what only the device back ends use. `waiting` is the union of
-- `pause_frames`, `skip_frames` and `start_at`; 0 in `outfmt` and `next_fmt` is PCM.
pub record Output : Type 0 where
  pub state : OutputState
  pub channels : ℕ
  pub track_started : Bool
  pub start_frames : ℕ
  pub frames_played : ℕ
  pub current_sample_rate : ℕ
  pub default_sample_rate : ℕ
  pub error_opening : Bool
  pub track_start_time : ℕ
  pub current_replay_gain : ℕ
  pub waiting : ℕ
  pub next_sample_rate : ℕ
  pub track_start : Option ℕ
  pub gain_l : ℕ
  pub gain_r : ℕ
  pub invert : Bool
  pub next_replay_gain : ℕ
  pub threshold : ℕ
  pub fade : FadeState
  pub fade_start : ℕ
  pub fade_end : ℕ
  pub fade_dir : FadeDir
  pub fade_mode : FadeMode
  pub fade_secs : ℕ
  pub rate_delay : ℕ
  pub delay_active : Bool
  pub stop_time : ℕ
  pub outfmt : ℕ
  pub next_fmt : ℕ
  pub dsd_delay : ℕ

abbrev pub is_crossfade : FadeMode → Bool
is_crossfade crossfade = true
is_crossfade fade_none = false
is_crossfade fade_in = false
is_crossfade fade_out = false
is_crossfade fade_inout = false

abbrev pub is_inout : FadeMode → Bool
is_inout fade_inout = true
is_inout fade_none = false
is_inout crossfade = false
is_inout fade_in = false
is_inout fade_out = false

abbrev pub is_inactive : FadeState → Bool
is_inactive inactive = true
is_inactive due = false
is_inactive active = false

-- `bytes` of `_checkfade`, before it is cut to what there is
abbrev pub fade_bytes : Output → ℕ
fade_bytes o =
    let bytes = u32 (o.next_sample_rate * 8 * o.fade_secs) in
    if is_inout o.fade_mode then bytes / 2 / 8 * 8 else bytes

-- `writep - bytes`, moved up by the size where it falls below the start of the storage
abbrev pub back : Buffer → ℕ → ℕ
back b bytes = if ltb b.writep bytes then b.writep + b.size - bytes else b.writep - bytes

-- `writep + bytes`, moved down by the size where it reaches the end of the storage
abbrev pub forward : Buffer → ℕ → ℕ
forward b bytes =
    if leb b.wrap (b.writep + bytes) then b.writep + bytes - b.size else b.writep + bytes

abbrev pub fade_up : Output → Buffer → ℕ → Output
fade_up o b bytes = record o {
  fade = due;
  fade_dir = up;
  fade_start = b.writep;
  fade_end = forward b (min bytes (b.size - 8));
}

abbrev pub fade_down : Output → Buffer → ℕ → Output
fade_down o b bytes = record o {
  fade = due;
  fade_dir = down;
  fade_start = back b (min (used b) bytes);
  fade_end = b.writep;
}

-- `(frames_t)(outputbuf->size * 0.9)`, a product of double precision, is `size * 9 / 10`.
abbrev pub fade_cross : Output → Buffer → ℕ → Output
fade_cross o b bytes =
    let start = back b (min (min bytes (used b)) (b.size * 9 / 10)) in
    record o {
      fade = due;
      fade_dir = cross;
      fade_start = start;
      fade_end = b.writep;
      track_start = some start;
    }

-- `OUTPUTBUF_SIZE` and `OUTPUTBUF_SIZE_CROSSFADE`
abbrev pub outputbuf_size : ℕ
outputbuf_size = 44100 * 8 * 10

abbrev pub outputbuf_size_crossfade : ℕ
outputbuf_size_crossfade = outputbuf_size * 12 / 10

-- The branch of `_checkfade` for the start of a track in the mode of a crossfade; `storage` is
-- what malloc answers to `_buf_resize`.
abbrev pub start_cross : Option (List ℕ) → Output → Buffer → ℕ → Output × Buffer
start_cross storage o b bytes =
    if not (used b == 0)
    then (if not (o.next_sample_rate == o.current_sample_rate)
        then (o, b)
        else (fade_cross o b bytes, b))
    else if b.size == outputbuf_size && b.readp == 0
    then (o, resize b outputbuf_size_crossfade storage)
    else (o, b)

-- The branches of `_checkfade` at the start of a track, by mode.
unfoldable pub start_fade : Option (List ℕ) → FadeMode → Output → Buffer → ℕ → Output × Buffer
start_fade storage fade_none o b bytes = (o, b)
start_fade storage crossfade o b bytes = start_cross storage o b bytes
start_fade storage fade_in o b bytes = (fade_up o b bytes, b)
start_fade storage fade_out o b bytes = (o, b)
start_fade storage fade_inout o b bytes = if used b == 0 then (fade_up o b bytes, b) else (o, b)

-- The branch at the end of a track.
unfoldable pub end_fade : FadeMode → Output → Buffer → ℕ → Output
end_fade fade_none o b bytes = o
end_fade crossfade o b bytes = o
end_fade fade_in o b bytes = o
end_fade fade_out o b bytes = fade_down o b bytes
end_fade fade_inout o b bytes = fade_down o b bytes

-- `_checkfade`
unfoldable pub checkfade : Option (List ℕ) → Bool → Output → Buffer → Output × Buffer
unfolding start_fade end_fade
checkfade storage start o b =
    let bytes = fade_bytes o in
    if bytes == 0
    then (record o { fade = inactive }, b)
    else if start
    then start_fade storage o.fade_mode o b bytes
    else (end_fade o.fade_mode o b bytes, b)

abbrev pub is_off : OutputState → Bool
is_off off = true
is_off stopped = false
is_off buffering = false
is_off running = false
is_off pause_frames = false
is_off skip_frames = false
is_off start_at = false

-- `output_flush`; `now` is the time.
unfoldable pub output_flush : ℕ → Output → Buffer → Output × Buffer
unfolding flush
output_flush now o b =
    let stopping = record o {
      fade = inactive;
      state = stopped;
      stop_time = now;
      current_sample_rate =
          if o.error_opening then o.default_sample_rate else o.current_sample_rate;
      delay_active = false;
      frames_played = 0;
    } in
    (if is_off o.state then record o { fade = inactive; frames_played = 0 } else stopping, flush b)

-- `output_flush_streaming`: whether there was a track to flush, and what it leaves; `start` is
-- `output.track_start`.
unfoldable pub flush_from : Option ℕ → Output → Buffer → Bool × Output × Buffer
flush_from none o b = (false, o, b)
flush_from (some start) o b = (true, record o { track_start = none }, record b { writep = start })

unfoldable pub output_flush_streaming : Output → Buffer → Bool × Output × Buffer
unfolding flush_from
output_flush_streaming o b = flush_from o.track_start o b
