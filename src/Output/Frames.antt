-- ===== src/Output/Frames.antt =====
-- output.c: `_output_frames`, which the device back end calls for `avail` frames.
pub mod Prepare
pub mod Laws
pub mod Skip
pub mod Whole
use apple_squeezer.Prelude.{
  ℕ, zero, suc, ◌+◌, ◌-◌, ◌*◌, ◌/◌, Bool, true, false, ◌&&◌, ◌||◌, not, Option, none, some, ◌==◌,
  ltb, leb, if◌then◌else◌, min, u32, List, [], ◌∷◌, ◌++◌,
}
use apple_squeezer.Prelude.Int.{ℤ, pos}
use apple_squeezer.Buffer.{Buffer, used, cont_read, inc_readp}
use apple_squeezer.Sample.{gain, signed32, fixed_one}
use apple_squeezer.Output.{Output, OutputState, pause_frames, is_crossfade, is_inactive}
use apple_squeezer.Output.Fade.{Gains, Round, inverted, fade_step}
use Prepare.{Prepared, prepare}

-- What `write_cb` is called with.
pub record Chunk : Type 0 where
  pub out_frames : ℕ
  pub silence : Bool
  pub gains : Gains

-- What it answers: the frames written, 0 for an error, the storage of outputbuf, which it scales in
-- place, and `cross_ptr`.
pub record Answer : Type 0 where
  pub frames : ℕ
  pub mem : List ℕ
  pub cross_ptr : Option ℕ

-- What the code around gives: the back end's `write_cb`, `to_gain` of a quotient of floats, and
-- `gettime_ms` where a track starts.
pub record Host : Type 0 where
  pub write_cb : Chunk → List ℕ → Answer
  pub ratio_gain : ℕ → ℕ → ℤ
  pub track_time : ℕ

-- The variables of the loop, with the answers of `write_cb` that were not 0.
pub record Loop : Type 0 where
  pub output : Output
  pub outputbuf : Buffer
  pub gains : Gains
  pub frames : ℕ
  pub size : ℕ
  pub written : List (ℕ × Bool)

-- `delay` at the start of a track
abbrev pub track_delay : Output → ℕ
track_delay o =
    if not (o.outfmt == o.next_fmt)
    then o.dsd_delay
    else if not (o.current_sample_rate == o.next_sample_rate)
    then o.rate_delay
    else 0

abbrev pub begin_track : ℕ → Output → Output
begin_track now o = record o {
  frames_played = 0;
  track_started = true;
  track_start_time = now;
  current_sample_rate = o.next_sample_rate;
  outfmt = o.next_fmt;
  current_replay_gain =
      if is_inactive o.fade || not (is_crossfade o.fade_mode)
      then o.next_replay_gain
      else o.current_replay_gain;
  track_start = none;
}

-- `output.track_start == outputbuf->readp`: the loop is left in each branch.
unfoldable pub track_reached : ℕ → Output → Output
track_reached now o =
    let delay = track_delay o in
    if delay == 0
    then begin_track now o
    else if o.delay_active
    then begin_track now (record o {
      state = pause_frames;
      waiting = u32 (o.next_sample_rate * delay) / 2000;
      delay_active = false;
    })
    else record o {
      state = pause_frames;
      waiting = u32 (o.current_sample_rate * delay) / 2000;
      delay_active = true;
    }

-- `output.outfmt != PCM`
abbrev pub dsd_gains : Output → Gains → Gains
dsd_gains o g = if o.outfmt == 0 then g else record g { gain_l = fixed_one; gain_r = fixed_one }

abbrev pub dsd_flags : Output → Gains → Gains
dsd_flags o g = if o.outfmt == 0 then g else record g { flags = 0 }

-- A round that wrote something.
unfoldable pub wrote : Bool → Loop → Round → Gains → Answer → Loop
wrote silence l r g answer =
    let b : Buffer = record r.outputbuf { mem = answer.mem } in
    record l {
      output =
          if silence
          then r.output
          else record r.output { frames_played = u32 (r.output.frames_played + answer.frames) };
      outputbuf = if silence then b else inc_readp b (answer.frames * 8);
      gains = record g { cross_ptr = answer.cross_ptr };
      size = l.size - answer.frames;
      written = l.written ++ ((answer.frames, silence) ∷ []);
    }

-- What a round does with the answer of `write_cb`; `true` says that the loop is left.
unfoldable pub account : Bool → Loop → Round → Gains → Answer → Bool × Loop
unfolding wrote
account silence l r g answer =
    let b : Buffer = record r.outputbuf { mem = answer.mem } in
    let g' : Gains = record g { cross_ptr = answer.cross_ptr } in
    let failed : Loop = record l {
      output = r.output;
      outputbuf = b;
      gains = g';
      frames = l.frames - l.size;
    } in
    if answer.frames == 0 then (true, failed) else (false, wrote silence l r g answer)

-- The round of the loop from `out_frames = ...` on.
unfoldable pub write_round : Host → Bool → Loop → Round → Bool × Loop
unfolding account
write_round host silence l r =
    let out = if silence then l.size else min l.size r.cont_frames in
    let g = dsd_flags r.output r.gains in
    let chunk : Chunk = record { out_frames = out; silence = silence; gains = g } in
    account silence l r g (host.write_cb chunk r.outputbuf.mem)

-- The next track's start, where it lies ahead, is at the end of a round.
abbrev pub up_to_track : Option ℕ → ℕ → ℕ → ℕ
up_to_track none readp cont = cont
up_to_track (some p) readp cont = if ltb readp p then min cont ((p - readp) / 8) else cont

abbrev pub starts_track : Option ℕ → ℕ → Bool
starts_track none readp = false
starts_track (some p) readp = p == readp

-- A round of the loop that plays, and one of silence.
unfoldable pub round : Host → Bool → Loop → Bool × Loop
unfolding track_reached write_round
round host silence l =
    let o = l.output in
    let b = l.outputbuf in
    let cont = cont_read b / 8 in
    let g = dsd_gains o l.gains in
    if silence
    then write_round host true l
        (record { output = o; outputbuf = b; cont_frames = cont; gains = g })
    else if starts_track o.track_start b.readp
    then (true, record l { output = track_reached host.track_time o; frames = l.frames - l.size })
    else write_round host false l (
        fade_step host.ratio_gain l.size o.fade (record {
          output = o;
          outputbuf = b;
          cont_frames = up_to_track o.track_start b.readp cont;
          gains = g;
        }))

-- What `_output_frames` returns and leaves; `stuck` means that the fuel ran out.
pub data Rendered : Type 0 where
  rendered : Loop → Rendered
  stuck : Rendered

-- `while (size > 0)`
unfoldable pub loop : ℕ → Host → Bool → Loop → Rendered
unfolding round
loop zero host silence l = if l.size == 0 then rendered l else stuck
loop (suc fuel) host silence l =
    let (left, l') = round host silence l in
    let rest = loop fuel host silence l' in
    if l.size == 0 then rendered l else if left then rendered l' else rest

-- The gains before the loop; `managed` is `dsp_replaygain_managed()`.
abbrev pub first_gains : Bool → Output → Gains
first_gains managed o =
    let replay = if managed then 0 else o.current_replay_gain in
    let scaled =
      λ (x : ℕ). if replay == 0 then signed32 x else gain (signed32 x) (signed32 replay) in
    inverted o (record {
      gain_l = scaled o.gain_l;
      gain_r = scaled o.gain_r;
      flags = o.channels;
      cross_gain_in = pos 0;
      cross_gain_out = pos 0;
      cross_ptr = none;
    })

-- `_output_frames`; `now` is the time that OUTPUT_START_AT reads.
unfoldable pub output_frames : Host → Bool → ℕ → ℕ → Output → Buffer → Rendered
unfolding loop prepare
output_frames host managed now avail o b = elim (prepare now avail o b) [
  | none ↦ stuck
  | some p ↦
      let frames = min p.frames avail in
      loop frames host p.silence (record {
        output = p.output;
        outputbuf = p.outputbuf;
        gains = first_gains managed o;
        frames = frames;
        size = frames;
        written = [];
      })
]
