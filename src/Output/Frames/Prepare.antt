-- ===== src/Output/Frames/Prepare.antt =====
-- output.c: `_output_frames` in front of its loop: how many frames to play, and whether of music.
use apple_squeezer.Prelude.{
  ℕ, zero, suc, ◌+◌, ◌-◌, ◌*◌, ◌/◌, Bool, true, false, ◌&&◌, ◌||◌, not, Option, none, some, ◌==◌,
  ltb, leb, if◌then◌else◌, min, u32,
}
use apple_squeezer.Buffer.{Buffer, used, cont_read, inc_readp}
use apple_squeezer.Output.{
  Output, OutputState, off, stopped, buffering, running, pause_frames, skip_frames, start_at,
}

-- What the part in front of the loop leaves.
pub record Prepared : Type 0 where
  pub output : Output
  pub outputbuf : Buffer
  pub frames : ℕ
  pub silence : Bool

-- `while (skip > 0)`; `none` means that the fuel ran out.
unfoldable pub skip_loop : ℕ → ℕ → Buffer → Option Buffer
skip_loop zero skip b = if skip == 0 then some b else none
skip_loop (suc fuel) skip b =
    let cont = min skip (cont_read b / 8) in
    let rest = skip_loop fuel (skip - cont) (inc_readp b (cont * 8)) in
    if skip == 0 then some b else rest

-- `OUTPUT_BUFFER`: playing starts when the threshold is met.
unfoldable pub start_when_full : OutputState → Output → ℕ → Output
start_when_full buffering o frames =
    if ltb (u32 (o.threshold * o.next_sample_rate) / 10) frames && ltb o.start_frames frames
    then record o { state = running }
    else o
start_when_full off o frames = o
start_when_full stopped o frames = o
start_when_full running o frames = o
start_when_full pause_frames o frames = o
start_when_full skip_frames o frames = o
start_when_full start_at o frames = o

abbrev pub skips : OutputState → Bool
skips skip_frames = true
skips off = false
skips stopped = false
skips buffering = false
skips running = false
skips pause_frames = false
skips start_at = false

-- `OUTPUT_SKIP_FRAMES`
unfoldable pub skip_ahead : Output → Buffer → ℕ → Option Prepared
unfolding skip_loop
skip_ahead o b frames =
    let skip = min frames o.waiting in
    if not (skips o.state)
    then some (record { output = o; outputbuf = b; frames = frames; silence = false })
    else elim (skip_loop skip skip b) [
      | none ↦ none
      | some b' ↦ some (record {
        output = record o { state = running; frames_played = u32 (o.frames_played + skip) };
        outputbuf = b';
        frames = frames - skip;
        silence = false;
      })
    ]

-- `MAX_SILENCE_FRAMES`
abbrev pub max_silence_frames : ℕ
max_silence_frames = 2048

-- `OUTPUT_PAUSE_FRAMES`, `OUTPUT_START_AT`, and the states that play nothing.
unfoldable pub wait : ℕ → ℕ → OutputState → Prepared → Prepared
wait now avail pause_frames p =
    let frames = min (min avail p.output.waiting) max_silence_frames in
    if p.output.waiting == 0
    then record p { output = record p.output { state = running } }
    else record p {
      silence = true;
      frames = frames;
      output = record p.output { waiting = p.output.waiting - frames };
    }
wait now avail start_at p =
    let at = p.output.waiting in
    if leb at now || ltb (u32 (now + 10000)) at
    then record p { output = record p.output { state = running } }
    else record p {
      silence = true;
      frames =
          min (min avail (u32 ((at - now) * p.output.current_sample_rate) / 1000))
            max_silence_frames;
    }
wait now avail off p = p
wait now avail stopped p = p
wait now avail buffering p = p
wait now avail running p = p
wait now avail skip_frames p = p

-- `output.state <= OUTPUT_BUFFER`
abbrev pub plays_nothing : OutputState → Bool
plays_nothing off = true
plays_nothing stopped = true
plays_nothing buffering = true
plays_nothing running = false
plays_nothing pause_frames = false
plays_nothing skip_frames = false
plays_nothing start_at = false

abbrev pub or_silence : ℕ → Prepared → Prepared
or_silence avail p =
    if plays_nothing p.output.state || p.frames == 0
    then record p { silence = true; frames = min avail max_silence_frames }
    else p

unfoldable pub prepare : ℕ → ℕ → Output → Buffer → Option Prepared
unfolding start_when_full skip_ahead wait
prepare now avail o b =
    let frames = used b / 8 in
    let o' = start_when_full o.state o frames in
    elim (skip_ahead o' b frames) [
      | none ↦ none
      | some p ↦ some (or_silence avail (wait now avail p.output.state p))
    ]
