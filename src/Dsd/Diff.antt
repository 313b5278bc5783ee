-- ===== src/Dsd/Diff.antt =====
-- dsd.c: `_decode_dsdiff`, where the output buffer is written directly.
pub mod Source
pub mod Laws
pub mod Limit
use apple_squeezer.Prelude.{
  ℕ, ◌+◌, ◌-◌, ◌*◌, ◌/◌, Bool, true, false, ◌&&◌, ◌||◌, List, ◌++◌, take, drop, replicate, Option,
  none, some, min, ltb, leb, ◌==◌, if◌then◌else◌,
}
use apple_squeezer.Buffer.{Buffer, used, space, cont_read, cont_write, inc_readp, inc_writep}
use apple_squeezer.Buffer.Memory.{blit}
use apple_squeezer.Pcm.Decode.{DecodeState, running, error, readable, writable_frames}
use apple_squeezer.Dsd.{Dsd}
use apple_squeezer.Dsd.Pack.{
  Layout, words, halves, bytes, dop_halves, width_of, Filters, pack_dsdiff,
}

-- What the decoder works on.
pub record DsdDecoder {ℓ} (F : Type ℓ) : Type ℓ where
  pub dsd : Dsd
  pub filters : Filters F
  pub streambuf : Buffer
  pub outputbuf : Buffer

-- `out`: dsd2pcm and DSD_U8 take `BLOCK` frames at most.
abbrev pub room_frames : Option Layout → Buffer → ℕ
room_frames none b = min (writable_frames b) 4096
room_frames (some words) b = writable_frames b
room_frames (some halves) b = writable_frames b
room_frames (some dop_halves) b = writable_frames b
room_frames (some bytes) b = min (writable_frames b) 4096

-- `min(min(bytes, d->sample_bytes) / bytes_per_frame, out)`
abbrev pub whole_in : ℕ → ℕ → Buffer → ℕ → ℕ
whole_in frame out b sample_bytes = min (min (readable b) sample_bytes / frame) out

-- `!frames && bytes < bytes_per_frame`
abbrev pub is_partial : ℕ → ℕ → Buffer → ℕ → Bool
is_partial frame out b sample_bytes =
    whole_in frame out b sample_bytes == 0 && ltb (readable b) frame

-- `tmp`, filled with the silence of DSD.
abbrev pub patched : ℕ → Buffer → List ℕ
patched frame b =
    let bytes = readable b in
    if leb frame (used b)
    then take bytes (drop b.readp b.mem)
      ++ (take (frame - bytes) b.mem ++ replicate (32 - frame) 0x69)
    else take bytes (drop b.readp b.mem) ++ replicate (32 - bytes) 0x69

-- `iptr`, `frames` and `bytes_read`
abbrev pub source : ℕ → ℕ → Buffer → ℕ → List ℕ
source frame out b n = if is_partial frame out b n then patched frame b else drop b.readp b.mem

abbrev pub frames_read : ℕ → ℕ → Buffer → ℕ → ℕ
frames_read frame out b n = if is_partial frame out b n then 1 else whole_in frame out b n

abbrev pub bytes_read : ℕ → ℕ → Buffer → ℕ → ℕ
bytes_read frame out b n =
    if is_partial frame out b n
    then (if leb frame (used b) then frame else readable b)
    else whole_in frame out b n * frame

module _ {ℓ} {F : Type ℓ} (translate : F → List ℕ → List ℕ × F) where
  -- From `iptr = ...` on, with the frame size of the output format.
  unfoldable pub decode_dsdiff_frames : Option Layout → ℕ → DsdDecoder F → DsdDecoder F
  unfolding pack_dsdiff
  decode_dsdiff_frames l frame d =
      let out = room_frames l d.outputbuf in
      let n = d.dsd.sample_bytes in
      let frames = frames_read frame out d.streambuf n in
      let taken = bytes_read frame out d.streambuf n in
      let iptr = source frame out d.streambuf n in
      let packed = pack_dsdiff translate l d.dsd.channels frames iptr d.filters in
      record {
        streambuf = inc_readp d.streambuf taken;
        dsd = record d.dsd { sample_bytes = if ltb taken n then n - taken else 0 };
        filters = packed.1;
        outputbuf =
            inc_writep
              (record d.outputbuf { mem = blit d.outputbuf.mem d.outputbuf.writep packed.0 })
              (frames * 8);
      }

  -- `_decode_dsdiff`
  unfoldable pub decode_dsdiff : Option Layout → DsdDecoder F → DecodeState × DsdDecoder F
  unfolding decode_dsdiff_frames
  decode_dsdiff l d =
      let frame = d.dsd.channels * width_of l in
      if frame == 0 || ltb 32 frame then (error, d) else (running, decode_dsdiff_frames l frame d)
