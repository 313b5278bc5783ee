-- ===== src/Output/Frames/Skip.antt =====
-- Skipping ends, and takes just the frames that it was asked for, as far as they are there.
use apple_squeezer.Prelude.{
  ℕ, zero, suc, ◌+◌, ◌-◌, ◌*◌, ◌/◌, ◌≤◌, ◌<◌, ◌≡◌, ◌∙◌, refl, subst, true, false, Option, none,
  some, ◌==◌, if◌then◌else◌, min, u32, arith, Bool-cases, inl, inr,
}
use apple_squeezer.Buffer.{Buffer, used, cont_read, inc_readp}
use apple_squeezer.Buffer.Inv.{IsValid, measures, inc_readp-IsValid}
use apple_squeezer.Buffer.Aligned.{IsAligned, inc_readp-IsAligned, frame-IsReadable}
use apple_squeezer.Buffer.Queue.{inc_readp_moves}
use apple_squeezer.Output.{Output, OutputState, running}
use apple_squeezer.Output.Frames.Prepare.{
  Prepared, skip_loop, start_when_full, skips, skip_ahead, wait, or_silence, prepare,
}

-- A buffer from which `skip` frames are gone.
abbrev Skips : Buffer → ℕ → Option Buffer → Type 0
Skips b skip none = ⊥
Skips b skip (some b') = IsValid b' × IsAligned b' × (used b' + 8 * skip ≡ used b)

more :
    (b' b : Buffer) (n skip : ℕ) (r : Option Buffer)
    → used b' + n * 8 ≡ used b
    → n ≤ skip
    → Skips b' (skip - n) r
    → Skips b skip r
more b' b n skip none e h s = s
more b' b n skip (some b'') e h s = (s.0, s.1, omega (arith, s.2))

skip_loop-Skips :
    (fuel skip : ℕ) (b : Buffer)
    → IsValid b
    → IsAligned b
    → skip ≤ fuel
    → skip * 8 ≤ used b
    → Skips b skip (skip_loop fuel skip b)
unfolding skip_loop
skip_loop-Skips zero skip b v a h k =
    let t : (skip == 0) ≡ true = ground arith in rw t (v, a, omega arith)
skip_loop-Skips (suc fuel) skip b v a h k = elim (Bool-cases (skip == 0)) [
  | inl e ↦ rw e (v, a, ground (arith, e))
  | inr e ↦
      let n = min skip (cont_read b / 8) in
      let some_left : 0 < skip = ground (arith, e) in
      let readable = frame-IsReadable v a (omega arith) in
      let there : n * 8 ≤ used b = omega (arith, measures v) in
      let moves = inc_readp_moves (n * 8) v there in
      let rest =
        skip_loop-Skips fuel (skip - n) (inc_readp b (n * 8)) (inc_readp-IsValid (n * 8) v)
          (inc_readp-IsAligned n v a there) (omega (arith, readable)) (omega (arith, moves.1)) in
      rw e (
        more (inc_readp b (n * 8)) b n skip (skip_loop fuel (skip - n) (inc_readp b (n * 8)))
          (omega (arith, moves.1, there)) (omega arith) rest)
]

-- What a call skips: nothing but in OUTPUT_SKIP_FRAMES.
abbrev pub skipped : Output → Buffer → ℕ
skipped o b = if skips o.state then min (used b / 8) o.waiting else 0

-- In front of the loop: a good buffer, from which just the skipped frames are gone.
abbrev pub Ready : Output → Buffer → ℕ → Option Prepared → Type 0
Ready o b gone none = ⊥
Ready o b gone (some p) =
    IsValid p.outputbuf
    × IsAligned p.outputbuf
    × (used p.outputbuf + 8 * gone ≡ used b)
    × (p.output.fade_mode ≡ o.fade_mode)

skip_found :
    (o : Output) (b : Buffer) (frames skip : ℕ) (r : Option Buffer)
    → Skips b skip r
    → Ready o b skip (elim r [
      | none ↦ none
      | some b' ↦ some (record {
        output = record o { state = running; frames_played = u32 (o.frames_played + skip) };
        outputbuf = b';
        frames = frames - skip;
        silence = false;
      })
    ])
skip_found o b frames skip none s = s
skip_found o b frames skip (some b') s = (s.0, s.1, s.2, refl)

skip_ahead-Ready :
    (o : Output) (b : Buffer)
    → IsValid b
    → IsAligned b
    → Ready o b (skipped o b) (skip_ahead o b (used b / 8))
unfolding skip_ahead
skip_ahead-Ready o b v a =
    let skip = min (used b / 8) o.waiting in
    elim (Bool-cases (skips o.state)) [
      | inl e ↦ rw e (
          skip_found o b (used b / 8) skip (skip_loop skip skip b)
            (skip_loop-Skips skip skip b v a (omega arith) (omega arith)))
      | inr e ↦ rw e (v, a, omega arith, refl)
    ]

start_when_full_lem :
    (state : OutputState) (o : Output) (frames : ℕ)
    → state ≡ o.state
    → (skips (start_when_full state o frames).state ≡ skips o.state)
      × ((start_when_full state o frames).waiting ≡ o.waiting)
      × ((start_when_full state o frames).fade_mode ≡ o.fade_mode)
unfolding start_when_full
start_when_full_lem state o frames e = ground (arith, e)

wait-Ready :
    (now avail : ℕ) (state : OutputState) (o : Output) (b : Buffer) (gone : ℕ) (p : Prepared)
    → Ready o b gone (some p)
    → Ready o b gone (some (wait now avail state p))
unfolding wait
wait-Ready now avail state o b gone p h = ground (arith, h)

waited :
    (now avail : ℕ) (o : Output) (b : Buffer) (gone : ℕ) (r : Option Prepared)
    → Ready o b gone r
    → Ready o b gone (elim r [
      | none ↦ none
      | some p ↦ some (or_silence avail (wait now avail p.output.state p))
    ])
waited now avail o b gone none h = h
waited now avail o b gone (some p) h =
    let w = wait-Ready now avail p.output.state o b gone p h in
    quiet (wait now avail p.output.state p) w
  where
    quiet : (p : Prepared) → Ready o b gone (some p) → Ready o b gone (some (or_silence avail p))
    quiet p h = ground (arith, h)

same_mode :
    (o o' : Output) (b : Buffer) (gone : ℕ) (r : Option Prepared)
    → o'.fade_mode ≡ o.fade_mode
    → Ready o' b gone r
    → Ready o b gone r
same_mode o o' b gone none e h = h
same_mode o o' b gone (some p) e h = (h.0, h.1, h.2, h.3 ∙ e)

pub prepare-Ready :
    (now avail : ℕ) (o : Output) (b : Buffer)
    → IsValid b
    → IsAligned b
    → Ready o b (skipped o b) (prepare now avail o b)
unfolding prepare
prepare-Ready now avail o b v a =
    let o' = start_when_full o.state o (used b / 8) in
    let started = start_when_full_lem o.state o (used b / 8) refl in
    let same : skipped o' b ≡ skipped o b = rw (started.0, started.1) refl in
    same_mode o o' b (skipped o b) _ started.2 (
      waited now avail o' b (skipped o b) (skip_ahead o' b (used b / 8))
        (subst (λ n. Ready o' b n (skip_ahead o' b (used b / 8))) same (skip_ahead-Ready o' b v a)))
