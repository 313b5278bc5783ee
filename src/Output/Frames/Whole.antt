-- ===== src/Output/Frames/Whole.antt =====
-- `_output_frames` as a whole.
use apple_squeezer.Prelude.{
  ℕ, ◌+◌, ◌*◌, ◌≤◌, ◌≡◌, ◌∙◌, ap, Bool, false, Option, none, some, min, [], arith,
}
use apple_squeezer.Buffer.{Buffer, used}
use apple_squeezer.Buffer.Inv.{IsValid}
use apple_squeezer.Buffer.Aligned.{IsAligned}
use apple_squeezer.Output.{Output, is_crossfade}
use apple_squeezer.Output.Fade.{Gains}
use apple_squeezer.Output.Frames.{
  Host, Loop, Rendered, rendered, stuck, loop, first_gains, output_frames,
}
use apple_squeezer.Output.Frames.Prepare.{Prepared, prepare}
use apple_squeezer.Output.Frames.Skip.{skipped, Ready, prepare-Ready}
use apple_squeezer.Output.Frames.Laws.{IsHonest, total, played, Closed, loop-Closed}

-- The accounts of a call for `avail` frames, which skips `gone` frames of `b`.
abbrev pub Balances : ℕ → ℕ → Buffer → Rendered → Type 0
Balances avail gone b (rendered l) =
    (l.frames ≤ avail)
    × (l.frames ≡ total l.written)
    × (used l.outputbuf + 8 * (gone + played l.written) ≡ used b)
    × IsValid l.outputbuf
    × IsAligned l.outputbuf
Balances avail gone b stuck = ⊥

run_loop :
    (host : Host) (gains : Gains) (avail gone : ℕ) (o : Output) (b : Buffer) (r : Option Prepared)
    → IsHonest host
    → is_crossfade o.fade_mode ≡ false
    → Ready o b gone r
    → Balances avail gone b (elim r [
      | none ↦ stuck
      | some p ↦
          let frames = min p.frames avail in
          loop frames host p.silence (record {
            output = p.output;
            outputbuf = p.outputbuf;
            gains = gains;
            frames = frames;
            size = frames;
            written = [];
          })
    ])
run_loop host gains avail gone o b none honest mode h = h
run_loop host gains avail gone o b (some p) honest mode h =
    let frames = min p.frames avail in
    let l : Loop = record {
      output = p.output;
      outputbuf = p.outputbuf;
      gains = gains;
      frames = frames;
      size = frames;
      written = [];
    } in
    closes (loop frames host p.silence l) (
      loop-Closed (used p.outputbuf) host honest frames avail p.silence l
        (record {
          valid = h.0;
          aligned = h.1;
          shared = omega arith;
          taken = omega arith;
          no_cross = ap is_crossfade h.3 ∙ mode;
        })
        (omega arith) (omega arith))
  where
    closes :
        (r : Rendered) → Closed (used p.outputbuf) host honest avail r → Balances avail gone b r
    closes (rendered l) c =
        (c.1, c.0.all_written, omega (arith, c.0.taken, h.2), c.0.valid, c.0.aligned)
    closes stuck c = c

-- On a valid outputbuf that is aligned on frames, with a back end that writes no more than it
-- is asked for and scales outputbuf in its place, and with no crossfade, `_output_frames` comes to an end; it returns just
-- the number of frames that the back end wrote, at most `avail`; the bytes that outputbuf then holds
-- fewer are those of the frames skipped and of the frames of music written, and of no others; and
-- outputbuf stays valid and aligned on frames.
pub output_frames_lem :
    (host : Host) (managed : Bool) (now avail : ℕ) (o : Output) (b : Buffer)
    → IsHonest host
    → IsValid b
    → IsAligned b
    → is_crossfade o.fade_mode ≡ false
    → Balances avail (skipped o b) b (output_frames host managed now avail o b)
unfolding output_frames
output_frames_lem host managed now avail o b honest v a mode =
    run_loop host (first_gains managed o) avail (skipped o b) o b (prepare now avail o b) honest
      mode (prepare-Ready now avail o b v a)
