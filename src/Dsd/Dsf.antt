-- ===== src/Dsd/Dsf.antt =====
-- dsd.c: `_decode_dsf`, where the output buffer is written directly. A block of one channel lies behind
-- the block of the other.
pub mod Steps
pub mod Round
pub mod Ends
pub mod Spin
pub mod Blocks
pub mod Laws
use apple_squeezer.Prelude.{
  ℕ, zero, suc, ◌+◌, ◌-◌, ◌*◌, ◌/◌, Bool, true, false, ◌&&◌, ◌||◌, not, List, [], ◌∷◌, ◌++◌, map,
  take, drop, replicate, get_or, Option, none, some, min, ltb, leb, ◌==◌, if◌then◌else◌, u32, sub32,
}
use apple_squeezer.Buffer.{Buffer, used, space, cont_read, cont_write, inc_readp, inc_writep}
use apple_squeezer.Buffer.Memory.{blit}
use apple_squeezer.Pack.Words.{store32}
use apple_squeezer.Pcm.Decode.{DecodeState, running, complete, writable_frames}
use apple_squeezer.Dsd.{Dsd}
use apple_squeezer.Dsd.Pack.{Layout, width, width_of, word, Filters, strided, interleave}
use apple_squeezer.Dsd.Diff.{DsdDecoder}

-- A pointer that is past the end of the storage, brought back.
abbrev pub turned : Buffer → ℕ → ℕ
turned b p = if leb b.wrap p then p - b.size else p

-- The loop over `i` from here down to 1, which stops at a byte that is not 0 in both channels.
unfoldable pub zero_padding : Buffer → ℕ → ℕ → ℕ → ℕ
zero_padding b l r zero = 0
zero_padding b l r (suc i) =
    let rest = zero_padding b l r i in
    if get_or b.mem (turned b (l + suc i)) 0 == 0 && get_or b.mem (turned b (r + suc i)) 0 == 0
    then rest + 1
    else 0

-- `*(iptrl + i) = *(iptrr + i) = 0x69` for the bytes that are missing in a frame, where
-- they lie within the storage: `round_dsf` tells the other case apart.
abbrev pub silence_rest : ℕ → ℕ → List ℕ → ℕ → ℕ → List ℕ
silence_rest frame n mem l r =
    let silence = replicate (frame - n) 0x69 in blit (blit mem (l + n) silence) (r + n) silence

-- `iptrr`
abbrev pub right_of : Buffer → ℕ → ℕ
right_of b block_size = turned b (b.readp + block_size)

-- The test for the last block, of a file with an inaccurate sample count.
abbrev pub is_last : Dsd → Buffer → Bool
is_last d b = used b == u32 (d.block_size * d.channels) && ltb (used b) d.sample_bytes

-- `padding` and `block_left` behind it.
abbrev pub padding_of : Dsd → Buffer → ℕ → ℕ
padding_of d b padding =
    if is_last d b
    then padding + zero_padding b b.readp (right_of b d.block_size) (d.block_size - 1)
    else padding

abbrev pub left_of : Dsd → Buffer → ℕ → ℕ → ℕ
left_of d b padding left = if is_last d b then sub32 left (padding_of d b padding) else left

-- `bytes`: what can be read of both channels in one piece.
abbrev pub piece : Dsd → Buffer → ℕ → ℕ
piece d b left = min left (min (b.wrap - b.readp) (b.wrap - right_of b d.block_size))

-- `frames` before it is cut to what there is room for; 0 ends the decoding.
abbrev pub frames_there : ℕ → ℕ → ℕ → ℕ
frames_there bytes n frame =
    let frames = min bytes n / frame in
    if not (frames == 0) then frames else if not (n == 0) && leb (2 * n) bytes then 1 else 0

-- Whether the one frame there is has to be filled with silence.
abbrev pub is_filled : ℕ → ℕ → ℕ → Bool
is_filled bytes n frame = min bytes n / frame == 0

-- Whether a byte of silence for the frame is stored behind the end of the storage, in either channel.
abbrev pub fills_past : Buffer → ℕ → ℕ → Bool
fills_past b r frame = ltb b.wrap (b.readp + frame) || ltb b.wrap (r + frame)

-- How a round of the loop ends; `stores_past` is a store behind the end of the storage,
-- with the state before it.
pub data DsfRound {ℓ} (F : Type ℓ) : Type ℓ where
  at_end : DsfRound F
  stores_past : DsdDecoder F → DsfRound F
  goes_on : (left padding : ℕ) (d : DsdDecoder F) → DsfRound F

-- What `_decode_dsf` comes to; `spins` means that the fuel ran out, `overruns` that it stored bytes
-- behind the end of the storage.
pub data DsfResult {ℓ} (F : Type ℓ) : Type ℓ where
  spins : DsfResult F
  overruns : DsdDecoder F → DsfResult F
  returns : DecodeState → DsdDecoder F → DsfResult F

module _ {ℓ} {F : Type ℓ} where
  -- Behind the loop: the padding and the block of the other channel are skipped.
  unfoldable pub skip_dsf : ℕ → DsdDecoder F → DsdDecoder F
  skip_dsf padding d =
      let after = inc_readp d.streambuf padding in
      record d {
        streambuf = if ltb 1 d.dsd.channels then inc_readp after d.dsd.block_size else after;
        dsd =
            if ltb 2 d.dsd.channels
            then record d.dsd { consume = u32 (d.dsd.block_size * (d.dsd.channels - 2)) }
            else d.dsd;
      }

  -- From the end of a round on; `next` is the loop behind it.
  unfoldable pub after_round :
      (ℕ → ℕ → DsdDecoder F → DsfResult F) → DsdDecoder F → DsfRound F → DsfResult F
  after_round next d at_end = returns complete d
  after_round next d (stores_past d') = overruns d'
  after_round next d (goes_on left padding d') = next left padding d'

-- The bytes as they are packed.
abbrev pub as_packed : (ℕ → ℕ) → Bool → List ℕ → List ℕ
as_packed bitreverse lsb_first p = if lsb_first then map bitreverse p else p

-- `bitreverse` is the table `dsd2pcm_bitreverse`; `translate` is `dsd2pcm_translate`, whose flag says
-- that the least significant bit comes first, and `_pcm32` of what it gives.
module _ {ℓ} {F : Type ℓ} (bitreverse : ℕ → ℕ) (translate : Bool → F → List ℕ → List ℕ × F) where
  -- The loops `while (count--)`; `q` is the other channel, or the same one again.
  unfoldable pub pack_blocks : Layout → Bool → ℕ → List ℕ → List ℕ → List ℕ
  unfolding word
  pack_blocks l lsb_first zero p q = []
  pack_blocks l lsb_first (suc count) p q =
      store32 (word l 1 (as_packed bitreverse lsb_first (take (width l) p)))
      ++ (store32 (word l 1 (as_packed bitreverse lsb_first (take (width l) q)))
          ++ pack_blocks l lsb_first count (drop (width l) p) (drop (width l) q))

  unfoldable pub block_pcm : Bool → Bool → ℕ → List ℕ → List ℕ → Filters F → List ℕ × Filters F
  unfolding strided interleave
  block_pcm lsb_first is_mono count p q filters =
      let (ls, left) = translate lsb_first filters.left (strided count 1 p) in
      let (rs, right) = translate lsb_first filters.right (strided count 1 q) in
      if is_mono
      then (interleave ls ls, record { left = left; right = filters.right })
      else (interleave ls rs, record { left = left; right = right })

  -- The `switch (outfmt)` of `_decode_dsf`.
  unfoldable pub pack_dsf :
      Option Layout → Dsd → ℕ → List ℕ → List ℕ → Filters F → List ℕ × Filters F
  unfolding pack_blocks block_pcm
  pack_dsf none d count p q filters = block_pcm d.lsb_first (d.channels == 1) count p q filters
  pack_dsf (some l) d count p q filters =
      (pack_blocks l d.lsb_first count p (if d.channels == 1 then p else q), filters)

  -- From `frames = min(frames, out)` on.
  unfoldable pub write_dsf : Option Layout → ℕ → ℕ → ℕ → Bool → DsdDecoder F → DsfRound F
  unfolding pack_dsf
  write_dsf l left padding there fills d =
      let b = d.streambuf in
      let n = d.dsd.sample_bytes in
      let frame = width_of l in
      let r = right_of b d.dsd.block_size in
      let frames = min (min there (writable_frames d.outputbuf)) 4096 in
      let taken = frames * frame in
      let mem = if fills then silence_rest frame n b.mem b.readp r else b.mem in
      let packed = pack_dsf l d.dsd frames (drop b.readp mem) (drop r mem) d.filters in
      goes_on (if ltb taken n then sub32 left taken else 0) padding (record {
        streambuf = inc_readp (record b { mem = mem }) taken;
        dsd = record d.dsd { sample_bytes = if ltb taken n then n - taken else 0 };
        filters = packed.1;
        outputbuf =
            inc_writep
              (record d.outputbuf { mem = blit d.outputbuf.mem d.outputbuf.writep packed.0 })
              (frames * 8);
      })

  -- A round of the loop.
  unfoldable pub round_dsf : Option Layout → ℕ → ℕ → DsdDecoder F → DsfRound F
  unfolding write_dsf zero_padding
  round_dsf l block_left padding d =
      let b = d.streambuf in
      let left = left_of d.dsd b padding block_left in
      let bytes = piece d.dsd b left in
      let there = frames_there bytes d.dsd.sample_bytes (width_of l) in
      if there == 0
      then at_end
      else if is_filled bytes d.dsd.sample_bytes (width_of l)
          && fills_past b (right_of b d.dsd.block_size) (width_of l)
      then stores_past d
      else write_dsf l left (padding_of d.dsd b padding) there
          (is_filled bytes d.dsd.sample_bytes (width_of l)) d

  -- The loop `while (block_left)`
  unfoldable pub dsf_loop : ℕ → Option Layout → ℕ → ℕ → DsdDecoder F → DsfResult F
  unfolding round_dsf skip_dsf after_round
  dsf_loop zero l left padding d = spins
  dsf_loop (suc fuel) l left padding d =
      if left == 0
      then returns running (skip_dsf padding d)
      else after_round (dsf_loop fuel l) d (round_dsf l left padding d)

  -- `_decode_dsf`
  unfoldable pub decode_dsf : Option Layout → DsdDecoder F → DsfResult F
  unfolding dsf_loop
  decode_dsf l d =
      if ltb (used d.streambuf) (u32 (d.dsd.block_size * d.dsd.channels))
      then returns complete d
      else dsf_loop (d.dsd.block_size + 1) l d.dsd.block_size 0 d
