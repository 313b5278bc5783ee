-- ===== src/Pcm/Decode/Limit.antt =====
-- `pcm_decode` and the length that the file's header gives: the count-down, when a call makes
-- progress, and when calls stop making any.
use apple_squeezer.Prelude.{
  ℕ, ◌+◌, ◌*◌, ◌/◌, ◌^◌, ◌≤◌, ◌<◌, ◌≡◌, ◌⊎◌, refl, ap, ◌∙◌, Bool, true, false, ltb, ◌==◌, ◌&&◌,
  ◌||◌, min, arith, Bool-cases, inl, inr, sub32,
}
use native.Mathlib.Nat.{div-mul-le_self, div-eq_of_lt, le-div_iff_mul-le}
use apple_squeezer.Buffer.{Buffer, used}
use apple_squeezer.Buffer.Memory.{blit}
use apple_squeezer.Buffer.Inv.{IsValid, inc_readp_zero, inc_writep_zero, cont_read_pos}
use apple_squeezer.Pcm.Chunks.{PcmState}
use apple_squeezer.Pcm.Decode.{
  running, Decoder, bad_format, pack_samples, goes_round, whole_frames, frames_of, readable,
  writable_frames, decoded_frames, decode_frames, pcm_decode,
}
use apple_squeezer.Pcm.Decode.Laws.{pcm_decode_went_on}

-- The frames never reach past the limit.
frames_of_limit :
    (s : PcmState) (whole out : ℕ)
    → s.limit ≡ true
    → frames_of s whole out * s.bytes_per_frame ≤ s.audio_left
frames_of_limit s whole out l =
    let frames = min (min whole out) 4096 in
    elim (Bool-cases (ltb s.audio_left (frames * s.bytes_per_frame))) [
      | inl e ↦ rw (l, e) (div-mul-le_self s.audio_left s.bytes_per_frame)
      | inr e ↦ rw (l, e) (ground (arith, e))
    ]

count_down : (a t : ℕ) → t ≤ a → a < 2 ^ 32 → sub32 a t + t ≡ a
count_down a t h k = omega arith

-- Where the header gives a length, each call counts down just the bytes of the frames it decodes,
-- and never decodes past that length.
pub pcm_decode_limit :
    (ended : Bool) (d : Decoder)
    → d.pcm.limit ≡ true
    → d.pcm.audio_left < 2 ^ 32
    → (pcm_decode ended d).0 ≡ running
    → (pcm_decode ended d).1.pcm.audio_left + decoded_frames d * d.pcm.bytes_per_frame
      ≡ d.pcm.audio_left
unfolding decode_frames
pcm_decode_limit ended d l h r =
    let le : decoded_frames d * d.pcm.bytes_per_frame ≤ d.pcm.audio_left =
      frames_of_limit d.pcm (whole_frames (readable d.streambuf) d.pcm.bytes_per_frame d.streambuf)
        (writable_frames d.outputbuf) l in
    let left : (decode_frames d).pcm.audio_left
        ≡ sub32 d.pcm.audio_left (decoded_frames d * d.pcm.bytes_per_frame) =
      rw l refl in
    rw ((pcm_decode_went_on ended d r).1) (
      ap (λ x. x + decoded_frames d * d.pcm.bytes_per_frame) left
      ∙ count_down d.pcm.audio_left (decoded_frames d * d.pcm.bytes_per_frame) le h)

-- The frames of a rest that is shorter than a frame.
frames_of_rest :
    (s : PcmState) (whole out : ℕ)
    → s.limit ≡ true
    → s.audio_left < s.bytes_per_frame
    → frames_of s whole out ≡ 0
frames_of_rest s whole out l h =
    let frames = min (min whole out) 4096 in
    elim (Bool-cases (ltb s.audio_left (frames * s.bytes_per_frame))) [
      | inl e ↦ rw (l, e) (div-eq_of_lt h)
      | inr e ↦
          let some_of : frames ≤ s.audio_left / s.bytes_per_frame =
            (le-div_iff_mul-le {k = s.bytes_per_frame} {x = frames} {y = s.audio_left}
                (omega arith)).1
              (ground (arith, e)) in
          rw (l, e) (omega (arith, some_of, div-eq_of_lt h))
    ]

-- On valid buffers and with a good format, where fewer bytes are left of the length than a frame
-- has, but some are, and a frame can be read of the stream buffer in one piece or the stream goes
-- on, a call of `pcm_decode` returns DECODE_RUNNING and leaves everything as it is.
pub pcm_decode_stalls :
    (ended : Bool) (d : Decoder)
    → IsValid d.streambuf
    → IsValid d.outputbuf
    → bad_format d.pcm ≡ false
    → d.pcm.limit ≡ true
    → 0 < d.pcm.audio_left
    → d.pcm.audio_left < d.pcm.bytes_per_frame
    → (ended ≡ false) ⊎ (d.pcm.bytes_per_frame ≤ readable d.streambuf)
    → pcm_decode ended d ≡ (running, d)
unfolding pcm_decode decode_frames pack_samples blit
pcm_decode_stalls ended d vs vo b l h0 h1 e =
    let none : decoded_frames d ≡ 0 =
      frames_of_rest d.pcm (whole_frames (readable d.streambuf) d.pcm.bytes_per_frame d.streambuf)
        (writable_frames d.outputbuf) l h1 in
    let on : (ended && ltb (readable d.streambuf) d.pcm.bytes_per_frame
          || d.pcm.limit && d.pcm.audio_left == 0)
        ≡ false =
      ground (arith, e, h0) in
    let small : d.pcm.bytes_per_frame ≤ 24 = ground (arith, b) in
    let no_input : 0 * d.pcm.bytes_per_frame ≡ 0 = omega arith in
    let no_samples : 0 * d.pcm.channels ≡ 0 = omega arith in
    let same : sub32 d.pcm.audio_left 0 ≡ d.pcm.audio_left = omega (arith, small) in
    rw (b, on, none, no_input, no_samples, same, inc_readp_zero vs, inc_writep_zero vo, l) refl

whole_frames_pos :
    {b : Buffer} (frame : ℕ)
    → IsValid b
    → 0 < frame
    → frame ≤ used b
    → 1 ≤ whole_frames (readable b) frame b
whole_frames_pos {b} frame v h k =
    let some : 0 < readable b = omega (arith, cont_read_pos v (omega arith)) in
    elim (Bool-cases (goes_round (readable b) frame b)) [
      | inl e ↦ rw e (omega arith)
      | inr e ↦ rw e (ground (arith, e, some))
    ]

frames_of_pos :
    (s : PcmState) (whole out : ℕ)
    → 0 < s.bytes_per_frame
    → 1 ≤ whole
    → 1 ≤ out
    → (s.limit ≡ false) ⊎ (s.bytes_per_frame ≤ s.audio_left)
    → 1 ≤ frames_of s whole out
frames_of_pos s whole out h w o (inl e) = rw e (omega arith)
frames_of_pos s whole out h w o (inr k) =
    let frames = min (min whole out) 4096 in
    elim (Bool-cases (s.limit && ltb s.audio_left (frames * s.bytes_per_frame))) [
      | inl e ↦
          rw e (
            (le-div_iff_mul-le {k = s.bytes_per_frame} {x = 1} {y = s.audio_left} h).1
              (omega arith))
      | inr e ↦ rw e (omega arith)
    ]

-- `pcm_decode` returns DECODE_RUNNING and decodes a frame at least whenever the format is good,
-- the stream buffer is valid and holds a frame, the output buffer has room for one, the length in the header
-- leaves one, and the stream goes on or a frame can be read in one piece.
pub pcm_decode_progress :
    (ended : Bool) (d : Decoder)
    → IsValid d.streambuf
    → bad_format d.pcm ≡ false
    → d.pcm.bytes_per_frame ≤ used d.streambuf
    → 1 ≤ writable_frames d.outputbuf
    → (d.pcm.limit ≡ false) ⊎ (d.pcm.bytes_per_frame ≤ d.pcm.audio_left)
    → (ended ≡ false) ⊎ (d.pcm.bytes_per_frame ≤ readable d.streambuf)
    → ((pcm_decode ended d).0 ≡ running) × (1 ≤ decoded_frames d)
unfolding pcm_decode
pcm_decode_progress ended d v b held room left more =
    let frame_pos : 0 < d.pcm.bytes_per_frame = ground (arith, b) in
    let on : (ended && ltb (readable d.streambuf) d.pcm.bytes_per_frame
          || d.pcm.limit && d.pcm.audio_left == 0)
        ≡ false =
      ground (arith, left, more, frame_pos) in
    (
      rw (b, on) refl,
      frames_of_pos d.pcm _ _ frame_pos (whole_frames_pos d.pcm.bytes_per_frame v frame_pos held)
          room left,
    )
