-- ===== src/Dsd/Diff/Limit.antt =====
-- dsd.c: the count-down of `_decode_dsdiff`: when a call makes progress, and when none does any more.
use apple_squeezer.Prelude.{
  ℕ, ◌+◌, ◌-◌, ◌*◌, ◌/◌, ◌≤◌, ◌<◌, ◌≡◌, ◌⊎◌, ap, ap₂, ◌∙◌, sym, length, length-drop, length-append,
  refl, inl, inr, true, false, Bool-cases, if_both, List, Option, some, min, ltb, leb, ◌==◌, ◌||◌,
  arith,
}
use native.Mathlib.Nat.{div-eq_of_lt, le-div_iff_mul-le, mul-le-mul_right}
use native.Mathlib.Decide.{dec_lt}
use apple_squeezer.Buffer.{Buffer, used}
use apple_squeezer.Buffer.Memory.{blit}
use apple_squeezer.Buffer.Inv.{IsValid, inc_readp_zero, inc_writep_zero, cont_read_pos}
use apple_squeezer.Pcm.Decode.{running, readable, writable_frames}
use apple_squeezer.Dsd.Diff.Source.{padded, length-contents}
use apple_squeezer.Dsd.Diff.Laws.{decode_dsdiff_lem, frame_le, out_pos}
use apple_squeezer.Buffer.Queue.{contents}
use apple_squeezer.Dsd.Pack.Laws.{length-pack_dsdiff}
use apple_squeezer.Dsd.Pack.{Layout, width, width_of, pack_frames, pack_dsdiff}
use apple_squeezer.Dsd.Diff.{
  DsdDecoder, room_frames, whole_in, is_partial, frames_read, bytes_read, decode_dsdiff_frames,
  decode_dsdiff,
}

-- A rest that is shorter than a frame gives no frame.
whole_of_rest : (frame out n : ℕ) (b : Buffer) → n < frame → whole_in frame out b n ≡ 0
whole_of_rest frame out n b h =
    let z : min (readable b) n / frame ≡ 0 = div-eq_of_lt (omega (arith, h)) in omega (arith, z)

module _ {ℓ} {F : Type ℓ} (translate : F → List ℕ → List ℕ × F) where
  -- Where fewer bytes are left of the length in the header than a frame has, but some are, a frame
  -- has 32 bytes at most and a whole one can be read in one piece, `_decode_dsdiff` on valid
  -- buffers with DSD output returns DECODE_RUNNING and leaves everything as it is.
  pub decode_dsdiff_stalls :
      (l : Layout) (d : DsdDecoder F)
      → IsValid d.streambuf
      → IsValid d.outputbuf
      → 0 < d.dsd.sample_bytes
      → d.dsd.sample_bytes < d.dsd.channels * width l
      → d.dsd.channels * width l ≤ readable d.streambuf
      → d.dsd.channels * width l ≤ 32
      → decode_dsdiff translate (some l) d ≡ (running, d)
  unfolding decode_dsdiff decode_dsdiff_frames pack_dsdiff pack_frames blit
  decode_dsdiff_stalls l d vs vo h0 h1 h2 h3 =
      let frame = d.dsd.channels * width l in
      let n = d.dsd.sample_bytes in
      let ok : (frame == 0 || ltb 32 frame) ≡ false = ground (arith, h0, h1, h3) in
      let no_frame = whole_of_rest frame (room_frames (some l) d.outputbuf) n d.streambuf h1 in
      let full : ltb (readable d.streambuf) frame ≡ false = ground (arith, h2) in
      let left : ltb 0 n ≡ true = ground (arith, h0) in
      let nothing : 0 * frame ≡ 0 = omega arith in
      let same : n - 0 ≡ n = omega arith in
      rw (ok, no_frame, full, nothing, left, same, inc_readp_zero vs, inc_writep_zero vo) refl

whole_pos :
    (frame out n : ℕ) (b : Buffer)
    → frame ≤ readable b
    → frame ≤ n
    → 0 < frame
    → 1 ≤ out
    → 1 ≤ whole_in frame out b n
whole_pos frame out n b r h p o =
    let one : 1 ≤ min (readable b) n / frame =
      (le-div_iff_mul-le {k = frame} {x = 1} {y = min (readable b) n} p).1 (omega arith) in
    omega (arith, one)

-- A call that is not for a part of a frame can read a whole one.
whole_none :
    (frame out n : ℕ) (b : Buffer)
    → is_partial frame out b n ≡ false
    → frame ≤ n
    → 0 < frame
    → 1 ≤ out
    → frame ≤ readable b
whole_none frame out n b e k h o = elim (dec_lt (readable b) frame) [
  | yes p ↦
      let z : min (readable b) n / frame ≡ 0 = div-eq_of_lt (omega arith) in
      absurd (ground (arith, e, z, p))
  | no p ↦ omega (arith, p)
]

bytes_read_pos :
    {b : Buffer} (frame out n : ℕ)
    → IsValid b
    → 0 < frame
    → frame ≤ n
    → 0 < used b
    → 1 ≤ out
    → (1 ≤ bytes_read frame out b n) × 1 ≤ frames_read frame out b n
bytes_read_pos {b} frame out n v h k u o =
    let r : 0 < readable b = omega (arith, cont_read_pos v u) in
    elim (Bool-cases (is_partial frame out b n)) [
      | inl e ↦ rw e (
        if_both (λ t. 1 ≤ t) (leb frame (used b)) frame (readable b) (λ _. h) (λ _. r),
        omega arith,
      )
      | inr e ↦
          let full : frame ≤ readable b = whole_none frame out n b e k h o in
          let one : 1 ≤ whole_in frame out b n = whole_pos frame out n b full k h o in
          rw e (omega (arith, h, one, mul-le-mul_right frame one), one)
    ]

module _ {ℓ} {F : Type ℓ} (translate : F → List ℕ → List ℕ × F)
    (one_each : (f : F) (xs : List ℕ) → length ((translate f xs).0) ≡ length xs) where
  -- As long as the length in the header leaves a frame, the stream buffer holds something and the
  -- output buffer has room for a frame, a call of `_decode_dsdiff` on valid buffers counts down,
  -- takes a byte at least and adds a frame at least, for one or two channels and a dsd2pcm that
  -- gives a sample for each byte.
  pub decode_dsdiff_progress :
      (l : Option Layout) (d : DsdDecoder F)
      → IsValid d.streambuf
      → IsValid d.outputbuf
      → d.dsd.channels ≡ 1 ⊎ d.dsd.channels ≡ 2
      → 1 ≤ writable_frames d.outputbuf
      → 0 < used d.streambuf
      → d.dsd.channels * width_of l ≤ d.dsd.sample_bytes
      → let d' = (decode_dsdiff translate l d).1 in
        (d'.dsd.sample_bytes < d.dsd.sample_bytes)
        × (used d'.streambuf < used d.streambuf)
        × (used d.outputbuf + 8 ≤ used d'.outputbuf)
  decode_dsdiff_progress l d vs vo c room some_held whole_left =
      let r = decode_dsdiff_lem translate one_each l d vs vo c room in
      let d' = (decode_dsdiff translate l d).1 in
      let small = frame_le l d.dsd.channels c in
      let moves =
        bytes_read_pos (d.dsd.channels * width_of l) (room_frames l d.outputbuf) d.dsd.sample_bytes
          vs (small.1) whole_left some_held (out_pos l d.outputbuf room) in
      let frame = d.dsd.channels * width_of l in
      let out = room_frames l d.outputbuf in
      let t : ℕ = bytes_read frame out d.streambuf d.dsd.sample_bytes in
      let f : ℕ = frames_read frame out d.streambuf d.dsd.sample_bytes in
      let held = padded t (contents d.streambuf) in
      let taken : used (d'.streambuf) ≡ used d.streambuf - t =
        sym (length-contents d'.streambuf)
        ∙ ap length (r.1)
        ∙ length-drop t (contents d.streambuf)
        ∙ ap (λ n. n - t) (length-contents d.streambuf) in
      let packed = (pack_dsdiff translate l d.dsd.channels f held d.filters).0 in
      let added : used (d'.outputbuf) ≡ used d.outputbuf + f * 8 =
        sym (length-contents d'.outputbuf)
        ∙ ap length (r.2)
        ∙ length-append (contents d.outputbuf) packed
        ∙ ap₂ ◌+◌ (length-contents d.outputbuf)
            (length-pack_dsdiff translate one_each l d.dsd.channels f held d.filters) in
      (
        omega (arith, r.4, moves, small),
        omega (arith, taken, moves, some_held),
        omega (arith, added, moves),
      )
