-- ===== src/Pcm/Decode.antt =====
-- pcm.c: `pcm_decode` where the output buffer is written directly and the stream is not new.
pub mod Input
pub mod Laws
pub mod Limit
mod Tests
use apple_squeezer.Prelude.{
  ℕ, zero, suc, ◌+◌, ◌-◌, ◌*◌, ◌/◌, Bool, true, false, ◌&&◌, ◌||◌, not, List, [], ◌++◌, take, drop,
  ltb, leb, ◌==◌, if◌then◌else◌, min, sub32,
}
use apple_squeezer.Buffer.{Buffer, used, space, cont_read, cont_write, inc_readp, inc_writep}
use apple_squeezer.Buffer.Memory.{blit}
use apple_squeezer.Pack.Words.{store32}
use apple_squeezer.Pcm.Chunks.{PcmState}
use apple_squeezer.Pcm.Convert.{pcm_read_s32}

-- `decode_state`
pub data DecodeState : Type 0 where
  stopped ready running complete error : DecodeState

-- What `pcm_decode` works on.
pub record Decoder : Type 0 where
  pub pcm : PcmState
  pub streambuf : Buffer
  pub outputbuf : Buffer

abbrev pub bad_format : PcmState → Bool
bad_format s =
    s.format_error
    || s.sample_rate == 0
    || not (s.channels == 1) && not (s.channels == 2)
    || ltb s.sample_size 1
    || ltb 4 s.sample_size
    || s.bytes_per_frame == 0
    || ltb 24 s.bytes_per_frame

-- The two loops over `count` samples: a sample of mono is written twice.
unfoldable pub pack_samples : PcmState → ℕ → List ℕ → List ℕ
pack_samples s zero iptr = []
pack_samples s (suc count) iptr =
    let sample = store32 (pcm_read_s32 iptr s.sample_size s.bigendian s.unsigned_8bit) in
    let rest = pack_samples s count (drop s.sample_size iptr) in
    if s.channels == 2 then sample ++ rest else sample ++ (sample ++ rest)

-- `in == 0 && bytes > 0 && _buf_used(streambuf) >= bytes_per_frame`: a frame goes round the end.
abbrev pub goes_round : ℕ → ℕ → Buffer → Bool
goes_round bytes frame b = bytes / frame == 0 && ltb 0 bytes && leb frame (used b)

-- `iptr` and `in`, with the frame that goes round the end put together in `tmp`.
abbrev pub input : ℕ → ℕ → Buffer → List ℕ
input bytes frame b =
    if goes_round bytes frame b
    then take bytes (drop b.readp b.mem) ++ take (frame - bytes) b.mem
    else drop b.readp b.mem

abbrev pub whole_frames : ℕ → ℕ → Buffer → ℕ
whole_frames bytes frame b = if goes_round bytes frame b then 1 else bytes / frame

-- `frames`, with `MAX_DECODE_FRAMES` and the limit
abbrev pub frames_of : PcmState → ℕ → ℕ → ℕ
frames_of s whole out =
    let frames = min (min whole out) 4096 in
    if s.limit && ltb s.audio_left (frames * s.bytes_per_frame)
    then s.audio_left / s.bytes_per_frame
    else frames

abbrev pub readable : Buffer → ℕ
readable b = min (used b) (cont_read b)

abbrev pub writable_frames : Buffer → ℕ
writable_frames b = min (space b) (cont_write b) / 8

-- What a call that gets past the tests decodes.
abbrev pub decoded_frames : Decoder → ℕ
decoded_frames d =
    frames_of d.pcm (whole_frames (readable d.streambuf) d.pcm.bytes_per_frame d.streambuf)
      (writable_frames d.outputbuf)

-- From `optr = ...` on.
unfoldable pub decode_frames : Decoder → Decoder
unfolding pack_samples
decode_frames d =
    let frames = decoded_frames d in
    let frame = d.pcm.bytes_per_frame in
    let iptr = input (readable d.streambuf) frame d.streambuf in
    let written = pack_samples d.pcm (frames * d.pcm.channels) iptr in
    record {
      streambuf = inc_readp d.streambuf (frames * frame);
      pcm =
          if d.pcm.limit
          then record d.pcm { audio_left = sub32 d.pcm.audio_left (frames * frame) }
          else d.pcm;
      outputbuf =
          inc_writep (record d.outputbuf { mem = blit d.outputbuf.mem d.outputbuf.writep written })
            (frames * 8);
    }

-- `pcm_decode`; `ended` is `stream.state <= DISCONNECT`.
unfoldable pub pcm_decode : Bool → Decoder → DecodeState × Decoder
unfolding decode_frames
pcm_decode ended d =
    if bad_format d.pcm
    then (error, d)
    else if ended && ltb (readable d.streambuf) d.pcm.bytes_per_frame
        || d.pcm.limit && d.pcm.audio_left == 0
    then (complete, d)
    else (running, decode_frames d)
