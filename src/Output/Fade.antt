-- ===== src/Output/Fade.antt =====
-- output.c: the part of the loop of `_output_frames` that fades.
pub mod Keeps
use apple_squeezer.Prelude.{
  ℕ, ◌+◌, ◌-◌, ◌*◌, ◌/◌, Bool, true, false, ◌&&◌, ◌||◌, Option, none, some, ◌==◌, ltb, leb,
  if◌then◌else◌, min, u32,
}
use apple_squeezer.Prelude.Int.{ℤ, pos, ◌-ℤ◌}
use apple_squeezer.Buffer.{Buffer, used, inc_readp}
use apple_squeezer.Sample.{gain, signed32, fixed_one}
use apple_squeezer.Output.{
  Output, FadeState, inactive, due, active, FadeDir, undirected, up, down, cross, is_inout,
  is_crossfade, is_inactive,
}

-- The local variables of `_output_frames` that `write_cb` gets.
pub record Gains : Type 0 where
  pub gain_l : ℤ
  pub gain_r : ℤ
  pub flags : ℕ
  pub cross_gain_in : ℤ
  pub cross_gain_out : ℤ
  pub cross_ptr : Option ℕ

-- What the fade of one round works on; `cont_frames` is how far the round may go.
pub record Round : Type 0 where
  pub output : Output
  pub outputbuf : Buffer
  pub cont_frames : ℕ
  pub gains : Gains

abbrev pub negate : ℤ → ℤ
negate x = pos 0 -ℤ x

-- `if (output.invert) { gainL = -gainL; gainR = -gainR; }`
abbrev pub inverted : Output → Gains → Gains
inverted o g =
    if o.invert then record g { gain_l = negate g.gain_l; gain_r = negate g.gain_r } else g

-- `output.fade == FADE_DUE`
unfoldable pub fade_reached : Round → Round
fade_reached r =
    let start = r.output.fade_start in
    let readp = r.outputbuf.readp in
    if start == readp
    then record r { output = record r.output { fade = active } }
    else if ltb readp start
    then record r { cont_frames = min r.cont_frames ((start - readp) / 8) }
    else r

-- The frames from `from` up to `to`, going round the end.
abbrev pub frames_between : Buffer → ℕ → ℕ → ℕ
frames_between b from to = if leb from to then (to - from) / 8 else (to + b.size - from) / 8

abbrev pub is_down : FadeDir → Bool
is_down down = true
is_down undirected = false
is_down up = false
is_down cross = false

-- `cur_f >= dur_f`: the fade is over, or fading down goes over to fading up.
unfoldable pub fade_over : ℕ → Round → Round
fade_over dur r =
    let o = r.output in
    let b = r.outputbuf in
    let fade_end =
      if leb b.wrap (b.readp + dur * 8) then b.readp + dur * 8 - b.size else b.readp + dur * 8 in
    if is_inout o.fade_mode && is_down o.fade_dir
    then record r { output = record o { fade_dir = up; fade_start = b.readp; fade_end = fade_end } }
    else if is_crossfade o.fade_mode
    then record r {
      output = record o { fade = inactive; current_replay_gain = o.next_replay_gain };
      outputbuf = if leb (dur * 8) (used b) then inc_readp b (dur * 8) else b;
    }
    else record r { output = record o { fade = inactive } }

unfoldable pub settled : ℕ → ℕ → Round → Round
unfolding fade_over
settled cur dur r = if leb dur cur then fade_over dur r else r

-- `cur_f` behind that
abbrev pub position_after : Output → ℕ → ℕ
position_after o cur = if is_inout o.fade_mode && is_down o.fade_dir then 0 else cur

abbrev pub is_active : FadeState → Bool
is_active active = true
is_active inactive = false
is_active due = false

unfoldable pub up_to_end : Round → Round
up_to_end r =
    let readp = r.outputbuf.readp in
    if ltb readp r.output.fade_end
    then record r { cont_frames = min r.cont_frames ((r.output.fade_end - readp) / 8) }
    else r

module _ (ratio_gain : ℕ → ℕ → ℤ) where
  -- `FADE_UP` and `FADE_DOWN`: the fade is a factor on the gains.
  abbrev pub fade_gains : ℕ → ℕ → Round → Round
  fade_gains part dur r =
      let g = r.gains in
      let factor = ratio_gain part dur in
      record r {
        gains =
            inverted r.output
              (record g { gain_l = gain g.gain_l factor; gain_r = gain g.gain_r factor });
      }

  -- `FADE_CROSS`: `size` frames are still to be written.
  abbrev pub cross_gains : ℕ → ℕ → ℕ → Round → Round
  cross_gains size cur dur r =
      let o = r.output in
      let gain_in = ratio_gain cur dur in
      let gain_out = fixed_one -ℤ gain_in in
      if ltb (u32 (dur + size)) (used r.outputbuf / 8)
      then record r {
        gains = inverted o (record r.gains {
          gain_l = signed32 o.gain_l;
          gain_r = signed32 o.gain_r;
          cross_gain_in =
              if o.next_replay_gain == 0
              then gain_in
              else gain gain_in (signed32 o.next_replay_gain);
          cross_gain_out =
              if o.current_replay_gain == 0
              then gain_out
              else gain gain_out (signed32 o.current_replay_gain);
          cross_ptr = some (o.fade_end + cur * 8);
        });
      }
      else record r { output = record o { fade = inactive } }

  -- `output.fade && dur_f`: a fade in progress ends at the end of a round.
  unfoldable pub fade_on : ℕ → ℕ → ℕ → FadeDir → Round → Round
  fade_on size cur dur undirected r = r
  fade_on size cur dur up r = fade_gains cur dur r
  fade_on size cur dur down r = fade_gains (dur - cur) dur r
  fade_on size cur dur cross r = cross_gains size cur dur r

  -- `output.fade == FADE_ACTIVE`
  unfoldable pub fade_active : ℕ → Round → Round
  unfolding settled fade_on up_to_end
  fade_active size r =
      let cur = frames_between r.outputbuf r.output.fade_start r.outputbuf.readp in
      let dur = frames_between r.outputbuf r.output.fade_start r.output.fade_end in
      let r' = settled cur dur r in
      let cur' = if leb dur cur then position_after r.output cur else cur in
      if is_inactive r'.output.fade || dur == 0
      then r'
      else fade_on size cur' dur r'.output.fade_dir (up_to_end r')

  -- `output.fade && !silence`
  unfoldable pub fade_step : ℕ → FadeState → Round → Round
  unfolding fade_active fade_reached
  fade_step size inactive r = r
  fade_step size due r =
      let r' = fade_reached r in if is_active r'.output.fade then fade_active size r' else r'
  fade_step size active r = fade_active size r
