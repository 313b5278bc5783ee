-- ===== src/Pcm/Decode/Laws.antt =====
-- `pcm_decode` between the two buffers as FIFOs of bytes.
use apple_squeezer.Prelude.{
  ℕ, zero, suc, ◌+◌, ◌*◌, ◌/◌, ◌≤◌, ◌<◌, ◌≡◌, ◌⊎◌, refl, sym, ap, ◌∙◌, Bool, true, false, List,
  ◌++◌, drop, length, ltb, ◌==◌, ◌&&◌, if◌then◌else◌, min, arith, Bool-cases, inl, inr, subst,
}
use native.Mathlib.Nat.{div-lt_iff_lt-mul, div-mul-le_self, mul-le-mul_right, mul_assoc}
use apple_squeezer.Buffer.{Buffer, used}
use apple_squeezer.Buffer.Memory.{Agree, drop-Agree}
use apple_squeezer.Buffer.Inv.{IsValid, measures, inc_readp-IsValid}
use apple_squeezer.Buffer.Queue.{contents, contents-inc_readp, append_bytes, append_bytes_lem}
use apple_squeezer.Pcm.Chunks.{PcmState}
use apple_squeezer.Pcm.Convert.{pcm_read_s32}
use apple_squeezer.Pcm.Header.Rounds.{IsUsable}
use apple_squeezer.Pcm.Decode.{
  running, Decoder, bad_format, pack_samples, goes_round, input, whole_frames, frames_of, readable,
  writable_frames, decoded_frames, decode_frames, pcm_decode,
}
use apple_squeezer.Pcm.Decode.Input.{input-contents}

pcm_read_s32_ext :
    (size : ℕ) (p q : List ℕ) (bigendian unsigned_8bit : Bool)
    → Agree size p q
    → pcm_read_s32 p size bigendian unsigned_8bit ≡ pcm_read_s32 q size bigendian unsigned_8bit
unfolding pcm_read_s32
pcm_read_s32_ext zero p q be un h = refl
pcm_read_s32_ext (suc zero) p q be un h = rw (h 0 (omega arith)) refl
pcm_read_s32_ext (suc (suc zero)) p q be un h = rw (h 0 (omega arith), h 1 (omega arith)) refl
pcm_read_s32_ext (suc (suc (suc zero))) p q be un h =
    rw (h 0 (omega arith), h 1 (omega arith), h 2 (omega arith)) refl
pcm_read_s32_ext (suc (suc (suc (suc zero)))) p q be un h =
    rw (h 0 (omega arith), h 1 (omega arith), h 2 (omega arith), h 3 (omega arith)) refl
pcm_read_s32_ext (suc (suc (suc (suc (suc n))))) p q be un h = ground arith

-- The loops read `count * sample_size` bytes and no more.
pack_samples_ext :
    (s : PcmState) (count : ℕ) (p q : List ℕ)
    → Agree (count * s.sample_size) p q
    → pack_samples s count p ≡ pack_samples s count q
unfolding pack_samples
pack_samples_ext s zero p q h = refl
pack_samples_ext s (suc count) p q h =
    let size = s.sample_size in
    let e : suc count * size ≡ size + count * size = omega arith in
    let h' : Agree (size + count * size) p q = subst (λ n. Agree n p q) e h in
    rw
      (
        pcm_read_s32_ext size p q s.bigendian s.unsigned_8bit (λ k l. h' k (omega arith)),
        pack_samples_ext s count (drop size p) (drop size q)
            (drop-Agree size (count * size) p q h'),
      )
      refl

-- Every frame comes out as 8 bytes.
length-pack_samples :
    (s : PcmState) (count : ℕ) (p : List ℕ)
    → length (pack_samples s count p) ≡ (if s.channels == 2 then 4 else 8) * count
unfolding pack_samples
length-pack_samples s zero p = omega arith
length-pack_samples s (suc count) p =
    let left = drop s.sample_size p in
    let rest : (c : Bool)
        → (s.channels == 2) ≡ c
        → length (pack_samples s count left) ≡ (if c then 4 else 8) * count =
      λ c e.
        subst (λ c. length (pack_samples s count left) ≡ (if c then 4 else 8) * count) e
          (length-pack_samples s count left) in
    elim (Bool-cases (s.channels == 2)) [
      | inl e ↦ rw e (omega (arith, rest true e))
      | inr e ↦ rw e (omega (arith, rest false e))
    ]

frame_bytes :
    (s : PcmState) (n : ℕ) (p : List ℕ)
    → s.channels ≡ 1 ⊎ s.channels ≡ 2
    → length (pack_samples s (n * s.channels) p) ≡ n * 8
frame_bytes s n p (inl e) = length-pack_samples s (n * s.channels) p ∙ rw e (omega arith)
frame_bytes s n p (inr e) = length-pack_samples s (n * s.channels) p ∙ rw e (omega arith)

frames_of_le :
    (s : PcmState) (whole out : ℕ)
    → 0 < s.bytes_per_frame
    → (frames_of s whole out ≤ whole) × frames_of s whole out ≤ out
frames_of_le s whole out h =
    let frames = min (min whole out) 4096 in
    elim (Bool-cases (s.limit && ltb s.audio_left (frames * s.bytes_per_frame))) [
      | inl e ↦
          let cut : s.audio_left / s.bytes_per_frame < frames =
            (div-lt_iff_lt-mul {k = s.bytes_per_frame} {x = s.audio_left} {y = frames} h).1
              (ground (arith, e)) in
          rw e (omega (arith, cut), omega (arith, cut))
      | inr e ↦ rw e (omega arith, omega arith)
    ]

-- What the frames take of the stream is there.
taken_le :
    {b : Buffer} (frame n : ℕ)
    → IsValid b
    → n ≤ whole_frames (readable b) frame b
    → n * frame ≤ used b
taken_le {b} frame n v h =
    let less : n * frame ≤ whole_frames (readable b) frame b * frame = mul-le-mul_right frame h in
    elim (Bool-cases (goes_round (readable b) frame b)) [
      | inl e ↦
          let one : n * frame ≤ 1 * frame =
            subst (λ c. n * frame ≤ (if c then 1 else readable b / frame) * frame) e less in
          let fits : frame ≤ used b = ground (arith, e) in omega (arith, one, fits)
      | inr e ↦
          let some_of : n * frame ≤ readable b / frame * frame =
            subst (λ c. n * frame ≤ (if c then 1 else readable b / frame) * frame) e less in
          omega (arith, some_of, div-mul-le_self (readable b) frame, measures v)
    ]

decode_frames_lem :
    (d : Decoder)
    → IsValid d.streambuf
    → IsValid d.outputbuf
    → d.pcm.channels ≡ 1 ⊎ d.pcm.channels ≡ 2
    → 0 < d.pcm.bytes_per_frame
    → d.pcm.bytes_per_frame ≡ d.pcm.channels * d.pcm.sample_size
    → (contents ((decode_frames d).streambuf)
        ≡ drop (decoded_frames d * d.pcm.bytes_per_frame) (contents d.streambuf))
      × (contents ((decode_frames d).outputbuf)
          ≡ contents d.outputbuf
            ++ pack_samples d.pcm (decoded_frames d * d.pcm.channels) (contents d.streambuf))
      × IsValid ((decode_frames d).streambuf)
      × IsValid ((decode_frames d).outputbuf)
unfolding decode_frames append_bytes
decode_frames_lem d vs vo hc hf hb =
    let n = decoded_frames d in
    let frame = d.pcm.bytes_per_frame in
    let count = n * d.pcm.channels in
    let iptr = input (readable d.streambuf) frame d.streambuf in
    let held = contents d.streambuf in
    let le =
      frames_of_le d.pcm (whole_frames (readable d.streambuf) frame d.streambuf)
        (writable_frames d.outputbuf) hf in
    let taken = taken_le frame n vs le.0 in
    let whole : count * d.pcm.sample_size ≡ n * frame =
      mul_assoc n d.pcm.channels d.pcm.sample_size ∙ ap (λ m. n * m) (sym hb) in
    let same : pack_samples d.pcm count iptr ≡ pack_samples d.pcm count held =
      pack_samples_ext d.pcm count iptr held (λ k l.
        input-contents frame k vs hf (omega (arith, l, whole, mul-le-mul_right frame le.0))) in
    let long : length (pack_samples d.pcm count held) ≡ n * 8 = frame_bytes d.pcm n held hc in
    let appended : (decode_frames d).outputbuf
        ≡ append_bytes d.outputbuf (pack_samples d.pcm count held) =
      rw (same, long) refl in
    let out = append_bytes_lem (pack_samples d.pcm count held) vo (omega (arith, long, le.1)) in
    (
      contents-inc_readp (n * frame) vs taken,
      ap contents appended ∙ out.0,
      inc_readp-IsValid (n * frame) vs,
      subst IsValid (sym appended) out.1,
    )

-- A call that goes on has passed the tests.
pub pcm_decode_went_on :
    (ended : Bool) (d : Decoder)
    → (pcm_decode ended d).0 ≡ running
    → (bad_format d.pcm ≡ false) × (pcm_decode ended d ≡ (running, decode_frames d))
unfolding pcm_decode
pcm_decode_went_on ended d h = ground arith

-- In a usable format with two valid buffers, a call of `pcm_decode` that returns DECODE_RUNNING
-- takes whole frames off the front of the stream buffer and adds at the back of the output buffer
-- the samples that its loops make of the bytes the stream buffer held, also where a frame goes
-- round the end of the storage; both buffers stay valid.
pub pcm_decode_running :
    (ended : Bool) (d : Decoder)
    → IsValid d.streambuf
    → IsValid d.outputbuf
    → IsUsable d.pcm
    → (pcm_decode ended d).0 ≡ running
    → let d' = (pcm_decode ended d).1 in
      let n = decoded_frames d in
      (contents d'.streambuf ≡ drop (n * d.pcm.bytes_per_frame) (contents d.streambuf))
      × (contents d'.outputbuf
          ≡ contents d.outputbuf ++ pack_samples d.pcm (n * d.pcm.channels) (contents d.streambuf))
      × IsValid d'.streambuf
      × IsValid d'.outputbuf
unfolding IsUsable
pcm_decode_running ended d vs vo u h =
    let on = pcm_decode_went_on ended d h in
    elim u [
      | inl e ↦ absurd (ground (arith, on.0, e))
      | inr p ↦ rw (on.1) (decode_frames_lem d vs vo p.0 (ground (arith, on.0)) p.4)
    ]
