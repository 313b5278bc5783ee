-- ===== src/Pack/Refine.antt =====
-- Each format against what it promises of a single sample.
use apple_squeezer.Prelude.{
  ℕ, ◌≡◌, refl, ap, ap₂, ◌∙◌, List, [], ◌∷◌, ◌++◌, map, arith, if◌then◌else◌,
}
use apple_squeezer.Prelude.Int.{ℤ, pos, negsuc, ltb_ℤ, ◌+ℤ◌}
use apple_squeezer.Sample.{Frame, IsS32, pattern32, asr, fixed_one}
use apple_squeezer.Sample.Laws.{gain-IsS32, to_s32-IsS32}
use apple_squeezer.Pack.{
  OutputFormat, s32_le, s24_le, s24_3le, s16_le, u8, u16_le, u16_be, u32_le, u32_be, half, mixed,
  scaled, each, packed, scale_and_pack_frames,
}
use apple_squeezer.Pack.Words.{store32}
use apple_squeezer.Pack.Bytes.{
  byte_of, word16-bytes, word8-bytes, word16_swapped-bytes, swap32-bytes,
}
use apple_squeezer.Pack.Pairs.{frame24, pack24-eq-each}

-- What a format keeps of a sample, as bytes in the order of the device.
unfoldable pub encode : OutputFormat → ℤ → List ℕ
encode s32_le z =
    byte_of 0 (pattern32 z)
    ∷ byte_of 1 (pattern32 z)
    ∷ byte_of 2 (pattern32 z)
    ∷ byte_of 3 (pattern32 z)
    ∷ []
encode u32_le z =
    byte_of 0 (pattern32 z)
    ∷ byte_of 1 (pattern32 z)
    ∷ byte_of 2 (pattern32 z)
    ∷ byte_of 3 (pattern32 z)
    ∷ []
encode u32_be z =
    byte_of 3 (pattern32 z)
    ∷ byte_of 2 (pattern32 z)
    ∷ byte_of 1 (pattern32 z)
    ∷ byte_of 0 (pattern32 z)
    ∷ []
encode s24_le z =
    byte_of 1 (pattern32 z)
    ∷ byte_of 2 (pattern32 z)
    ∷ byte_of 3 (pattern32 z)
    ∷ (if ltb_ℤ z (pos 0) then 0xff else 0)
    ∷ []
encode s24_3le z = byte_of 1 (pattern32 z) ∷ byte_of 2 (pattern32 z) ∷ byte_of 3 (pattern32 z) ∷ []
encode s16_le z = byte_of 2 (pattern32 z) ∷ byte_of 3 (pattern32 z) ∷ []
encode u16_le z = byte_of 2 (pattern32 z) ∷ byte_of 3 (pattern32 z) ∷ []
encode u16_be z = byte_of 3 (pattern32 z) ∷ byte_of 2 (pattern32 z) ∷ []
encode u8 z = byte_of 3 (pattern32 z) ∷ []

-- The formats of PCM are scaled, those of DSD are not.
pub played : OutputFormat → ℤ → ℤ → Frame → Frame
played s32_le gl gr f = scaled gl gr f
played s24_le gl gr f = scaled gl gr f
played s24_3le gl gr f = scaled gl gr f
played s16_le gl gr f = scaled gl gr f
played _ gl gr f = f

abbrev pub IsSamples : Frame → Type 0
IsSamples f = IsS32 f.left × IsS32 f.right

abbrev pub AllSamples : List Frame → Type 0
AllSamples [] = Unit
AllSamples (f ∷ fs) = IsSamples f × AllSamples fs

pub encoded : OutputFormat → ℤ → ℤ → Frame → List ℕ
unfolding encode played
encoded format gl gr f =
    encode format (played format gl gr f).left ++ encode format (played format gl gr f).right

each_ext :
    (p q : Frame → List ℕ) (fs : List Frame)
    → ((f : Frame) → IsSamples f → p f ≡ q f)
    → AllSamples fs
    → each p fs ≡ each q fs
unfolding each
each_ext p q [] h a = refl
each_ext p q (f ∷ fs) h a = ap₂ ◌++◌ (h f a.0) (each_ext p q fs h a.1)

each-map :
    (p : Frame → List ℕ) (g : Frame → Frame) (fs : List Frame)
    → each p (map g fs) ≡ each (λ f. p (g f)) fs
unfolding each
each-map p g [] = refl
each-map p g (f ∷ fs) = ap (λ t. p (g f) ++ t) (each-map p g fs)

pub scaled-IsSamples : (gl gr : ℤ) (f : Frame) → IsSamples f → IsSamples (scaled gl gr f)
unfolding scaled
scaled-IsSamples gl gr f h = ground (arith, gain-IsS32 gl f.left, gain-IsS32 gr f.right)

word24-bytes : (z : ℤ) → IsS32 z → store32 (pattern32 (asr z 8)) ≡ encode s24_le z
unfolding encode
word24-bytes (pos n) h = ground arith
word24-bytes (negsuc n) h = ground arith

word32-bytes : (z : ℤ) → store32 (pattern32 z) ≡ encode s32_le z
unfolding encode
word32-bytes z = ground arith

-- For every format, gains and start address, the bytes written for the frames are, frame by frame
-- and left before right, the bytes that the format keeps of each scaled sample.
pub packed-eq-encoded :
    (format : OutputFormat) (addr : ℕ) (gl gr : ℤ) (fs : List Frame)
    → AllSamples fs
    → packed format addr gl gr fs ≡ each (encoded format gl gr) fs
unfolding packed encoded
packed-eq-encoded s32_le addr gl gr fs a =
    each_ext _ _ fs
      (λ f h. ap₂ ◌++◌ (word32-bytes (scaled gl gr f).left) (word32-bytes (scaled gl gr f).right)) a
packed-eq-encoded u32_le addr gl gr fs a =
    each_ext _ _ fs (λ f h. ap₂ ◌++◌ (word32-bytes f.left) (word32-bytes f.right)) a
packed-eq-encoded u32_be addr gl gr fs a =
    each_ext _ _ fs
      (λ f h. ap₂ ◌++◌ (swap32-bytes (pattern32 f.left)) (swap32-bytes (pattern32 f.right))) a
packed-eq-encoded u16_le addr gl gr fs a = each_ext _ _ fs (λ f h. word16-bytes f h.0) a
packed-eq-encoded u16_be addr gl gr fs a = each_ext _ _ fs (λ f h. word16_swapped-bytes f) a
packed-eq-encoded u8 addr gl gr fs a = each_ext _ _ fs (λ f h. word8-bytes f h.0 h.1) a
packed-eq-encoded s16_le addr gl gr fs a =
    each_ext _ _ fs (λ f h. word16-bytes (scaled gl gr f) (scaled-IsSamples gl gr f h).0) a
packed-eq-encoded s24_le addr gl gr fs a =
    each_ext _ _ fs
      (λ f h.
        ap₂ ◌++◌ (word24-bytes (scaled gl gr f).left (scaled-IsSamples gl gr f h).0)
          (word24-bytes (scaled gl gr f).right (scaled-IsSamples gl gr f h).1))
      a
packed-eq-encoded s24_3le addr gl gr fs a =
    pack24-eq-each addr (map (scaled gl gr) fs) ∙ each-map frame24 (scaled gl gr) fs

mixed-IsSamples : (flags : ℕ) (f : Frame) → IsSamples f → IsSamples (mixed flags f)
unfolding mixed
mixed-IsSamples flags f h = ground (arith, to_s32-IsS32 (half (f.left +ℤ f.right)))

map-mixed-AllSamples :
    (flags : ℕ) (fs : List Frame) → AllSamples fs → AllSamples (map (mixed flags) fs)
map-mixed-AllSamples flags [] a = tt
map-mixed-AllSamples flags (f ∷ fs) a =
    (mixed-IsSamples flags f a.0, map-mixed-AllSamples flags fs a.1)

-- `_scale_and_pack_frames` writes the encoding of the mixed frames.
pub scale_and_pack_frames-eq-encoded :
    (addr : ℕ) (fs : List Frame) (gl gr : ℤ) (flags : ℕ) (format : OutputFormat)
    → AllSamples fs
    → (scale_and_pack_frames addr fs gl gr flags format).1
      ≡ each (encoded format gl gr) (map (mixed flags) fs)
unfolding scale_and_pack_frames
scale_and_pack_frames-eq-encoded addr fs gl gr flags format a =
    packed-eq-encoded format addr gl gr (map (mixed flags) fs) (map-mixed-AllSamples flags fs a)

-- The samples of frames, left before right, as the format keeps them.
abbrev pub encode_frames : OutputFormat → List Frame → List ℕ
encode_frames format [] = []
encode_frames format (f ∷ fs) =
    (encode format f.left ++ encode format f.right) ++ encode_frames format fs

played_unity : (format : OutputFormat) (f : Frame) → played format fixed_one fixed_one f ≡ f
unfolding played scaled
played_unity s32_le f = refl
played_unity s24_le f = refl
played_unity s24_3le f = refl
played_unity s16_le f = refl
played_unity u32_le f = refl
played_unity u32_be f = refl
played_unity u16_le f = refl
played_unity u16_be f = refl
played_unity u8 f = refl

each-encoded_unity :
    (format : OutputFormat) (fs : List Frame)
    → each (encoded format fixed_one fixed_one) (map (mixed 0) fs) ≡ encode_frames format fs
unfolding each encoded mixed
each-encoded_unity format [] = refl
each-encoded_unity format (f ∷ fs) =
    ap₂ ◌++◌ (ap (λ g. encode format g.left ++ encode format g.right) (played_unity format f))
      (each-encoded_unity format fs)

-- At unit gain and without a mono output `_scale_and_pack_frames` writes the frames as they are.
pub scale_and_pack_frames_unity :
    (addr : ℕ) (fs : List Frame) (format : OutputFormat)
    → AllSamples fs
    → (scale_and_pack_frames addr fs fixed_one fixed_one 0 format).1 ≡ encode_frames format fs
scale_and_pack_frames_unity addr fs format a =
    scale_and_pack_frames-eq-encoded addr fs fixed_one fixed_one 0 format a
    ∙ each-encoded_unity format fs
