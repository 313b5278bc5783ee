-- ===== src/Output/Tests.antt =====
-- Runs of the output engine, and its properties at concrete states.
use apple_squeezer.Prelude.{
  ℕ, zero, suc, ◌≡◌, ◌⊎◌, refl, Bool, true, false, none, some, List, [], ◌∷◌, arith, take,
}
use apple_squeezer.Prelude.Int.{pos}
use apple_squeezer.Buffer.{Buffer, used, cont_read, inc_readp}
use apple_squeezer.Output.Fade.{fade_step, fade_active, settled, fade_over}
use apple_squeezer.Buffer.Inv.{IsValid}
use apple_squeezer.Buffer.Queue.{contents}
use apple_squeezer.Buffer.Aligned.{IsAligned}
use apple_squeezer.Output.{
  Output, running, skip_frames, inactive, active, undirected, cross, fade_none, fade_in, crossfade,
  checkfade, start_fade, output_flush_streaming,
}
use apple_squeezer.Output.Check.{IsMarked, checkfade_lem}
use apple_squeezer.Output.Flush.{output_flush_streaming_lem}
use apple_squeezer.Output.Frames.{
  Host, Rendered, rendered, stuck, loop, output_frames, round, write_round, account, wrote,
}
use apple_squeezer.Output.Frames.Prepare.{prepare, skip_ahead, skip_loop, start_when_full, wait}
use apple_squeezer.Output.Frames.Skip.{skipped}
use apple_squeezer.Output.Frames.Laws.{IsHonest}
use apple_squeezer.Output.Frames.Whole.{Balances, output_frames_lem}

zeros : ℕ → List ℕ
zeros zero = []
zeros (suc n) = 0 ∷ zeros n

abbrev silent_bytes : List ℕ
silent_bytes = zeros 80

-- Four frames, which go round the end after the first.
abbrev four : Buffer
four = record {
  allocated = true;
  mem = zeros 80;
  readp = 72;
  writep = 24;
  wrap = 80;
  size = 80;
  base_size = 80;
}

abbrev idle : Output
idle = record {
  state = running;
  channels = 0;
  track_started = false;
  start_frames = 0;
  frames_played = 0;
  current_sample_rate = 1;
  default_sample_rate = 44100;
  error_opening = false;
  track_start_time = 0;
  current_replay_gain = 0;
  waiting = 0;
  next_sample_rate = 1;
  track_start = none;
  gain_l = 65536;
  gain_r = 65536;
  invert = false;
  next_replay_gain = 0;
  threshold = 0;
  fade = inactive;
  fade_start = 0;
  fade_end = 0;
  fade_dir = undirected;
  fade_mode = fade_none;
  fade_secs = 2;
  rate_delay = 0;
  delay_active = false;
  stop_time = 0;
  outfmt = 0;
  next_fmt = 0;
  dsd_delay = 0;
}

-- A back end that writes all it gets.
abbrev willing : Host
willing = record {
  write_cb = λ c mem. record { frames = c.out_frames; mem = mem; cross_ptr = none };
  ratio_gain = λ part whole. pos 0;
  track_time = 0;
}

willing-IsHonest : IsHonest willing
willing-IsHonest = record { no_more = λ c mem. omega arith; in_place = λ c mem. refl }

four-IsValid : IsValid four
unfolding zeros
four-IsValid = ground arith

four-IsAligned : IsAligned four
four-IsAligned = ground arith

-- One frame is skipped.
abbrev skipping : Output
skipping = record idle { state = skip_frames; waiting = 1 }

output_frames_lem_example :
    Balances 8 (skipped skipping four) four (output_frames willing false 0 8 skipping four)
output_frames_lem_example =
    output_frames_lem willing false 0 8 skipping four willing-IsHonest four-IsValid four-IsAligned
      refl

abbrev returned : Rendered → List (ℕ × Bool)
returned (rendered l) = l.written
returned stuck = []

output_frames-skipping : returned (output_frames willing false 0 8 skipping four) ≡ (3, false) ∷ []
unfolding output_frames loop round write_round account wrote prepare skip_ahead skip_loop
    start_when_full wait used cont_read inc_readp fade_step
output_frames-skipping = refl

checkfade_lem_example :
    let o = record idle { fade_mode = fade_in } in
    let o' = (checkfade none true o four).0 in
    (o' ≡ o) ⊎ (o' ≡ record o { fade = inactive }) ⊎ IsMarked o four o'
checkfade_lem_example =
    checkfade_lem none true (record idle { fade_mode = fade_in }) four-IsValid four-IsAligned refl

output_flush_streaming_lem_example :
    let (flushed, o', b') = output_flush_streaming (record idle { track_start = some 0 }) four in
    (flushed ≡ true)
    × (o' ≡ record idle { track_start = none })
    × (contents b' ≡ take 8 (contents four))
    × IsValid b'
unfolding used
output_flush_streaming_lem_example =
    output_flush_streaming_lem (record idle { track_start = some 0 }) 8 0 four-IsValid (omega arith)
      refl refl

-- Three frames, the first two of which a crossfade has mixed into the track before.
abbrev three : Buffer
three = record four { readp = 16; writep = 40 }

abbrev crossing : Output
crossing = record idle {
  fade = active;
  fade_dir = cross;
  fade_mode = crossfade;
  fade_start = 0;
  fade_end = 16;
}

abbrev held_after : Rendered → ℕ
held_after (rendered l) = used l.outputbuf
held_after stuck = 0

-- The round that completes the crossfade skips two frames and still writes three: the read
-- pointer passes the write pointer, and eight frames seem to be held.
output_frames-crossing : held_after (output_frames willing false 0 8 crossing three) ≡ 64
unfolding output_frames loop round write_round account wrote prepare skip_ahead skip_loop
    start_when_full wait used cont_read inc_readp fade_step fade_active settled fade_over
output_frames-crossing = refl

-- A crossfade over nine tenths of a buffer of 88 bytes starts in the middle of a frame.
abbrev ten : Buffer
ten = record {
  allocated = true;
  mem = [];
  readp = 0;
  writep = 80;
  wrap = 88;
  size = 88;
  base_size = 88;
}

checkfade-ten :
    (checkfade none true (record idle { fade_mode = crossfade; fade_secs = 10 }) ten).0.fade_start
    ≡ 1
unfolding checkfade start_fade used
checkfade-ten = refl
