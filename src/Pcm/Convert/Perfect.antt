-- ===== src/Pcm/Convert/Perfect.antt =====
-- PCM from `pcm_read_s32` of pcm_convert.h to `_scale_and_pack_frames` of output_pack.c.
use apple_squeezer.Prelude.{
  ℕ, ◌-◌, ◌≤◌, ◌<◌, ◌≡◌, refl, ap₂, ◌∙◌, subst, false, if_both, List, [], ◌∷◌, ◌++◌, length, ltb,
  ◌^◌, IsBytes, arith,
}
use apple_squeezer.Prelude.Int.{ℤ, pos, negsuc}
use apple_squeezer.Sample.{Frame, IsS32, signed32, fixed_one}
use apple_squeezer.Pack.{scale_and_pack_frames}
use apple_squeezer.Pack.Refine.{encode, AllSamples, encode_frames, scale_and_pack_frames_unity}
use apple_squeezer.Pcm.Convert.{pcm_read_s32}
use apple_squeezer.Pcm.Convert.Laws.{format_of, encode-pcm_read_s32}

-- A frame of the stream: the bytes of the left and of the right sample.
abbrev pub read_sample : ℕ → List ℕ → ℤ
read_sample n p = signed32 (pcm_read_s32 p n false false)

abbrev pub read_frames : ℕ → List (List ℕ × List ℕ) → List Frame
read_frames n [] = []
read_frames n (f ∷ fs) =
    record { left = read_sample n f.0; right = read_sample n f.1 } ∷ read_frames n fs

-- The frames as they stand in the stream.
abbrev pub in_stream : List (List ℕ × List ℕ) → List ℕ
in_stream [] = []
in_stream (f ∷ fs) = (f.0 ++ f.1) ++ in_stream fs

-- Samples of `n` bytes each.
abbrev pub AreFrames : ℕ → List (List ℕ × List ℕ) → Type 0
AreFrames n [] = Unit
AreFrames n (f ∷ fs) =
    (IsBytes f.0 × (length f.0 ≡ n)) × (IsBytes f.1 × (length f.1 ≡ n)) × AreFrames n fs

signed32-IsS32 : (u : ℕ) → IsS32 (signed32 u)
signed32-IsS32 u =
    if_both IsS32 (ltb u (2 ^ 31)) (pos u) (negsuc (2 ^ 32 - 1 - u)) (λ e. ground (arith, e))
      (λ e. ground (arith, e))

read_frames-AllSamples : (n : ℕ) (fs : List (List ℕ × List ℕ)) → AllSamples (read_frames n fs)
read_frames-AllSamples n [] = tt
read_frames-AllSamples n (f ∷ fs) =
    ((signed32-IsS32 _, signed32-IsS32 _), read_frames-AllSamples n fs)

encode-read_sample :
    (n : ℕ) (p : List ℕ)
    → 1 < n
    → n ≤ 4
    → IsBytes p
    → length p ≡ n
    → encode (format_of n) (read_sample n p) ≡ p
encode-read_sample n p l h b e =
    subst (λ k. encode (format_of k) (read_sample k p) ≡ p) e
      (encode-pcm_read_s32 p b (omega (arith, e, l)) (omega (arith, e, h)))

encode_frames-read_frames :
    (n : ℕ) (fs : List (List ℕ × List ℕ))
    → 1 < n
    → n ≤ 4
    → AreFrames n fs
    → encode_frames (format_of n) (read_frames n fs) ≡ in_stream fs
encode_frames-read_frames n [] l h a = refl
encode_frames-read_frames n (f ∷ fs) l h a =
    ap₂ ◌++◌
      (ap₂ ◌++◌ (encode-read_sample n f.0 l h a.0.0 a.0.1)
        (encode-read_sample n f.1 l h a.1.0 a.1.1))
      (encode_frames-read_frames n fs l h a.2)

-- Bit perfect: what `_scale_and_pack_frames` writes for frames whose little-endian samples of two to
-- four bytes were read by `pcm_read_s32` is the bytes of the stream, for a device whose samples have
-- as many bytes, at unit gain and without a mono output, at any address.
pub scale_and_pack_frames-pcm_read_s32 :
    (addr n : ℕ) (fs : List (List ℕ × List ℕ))
    → 1 < n
    → n ≤ 4
    → AreFrames n fs
    → (scale_and_pack_frames addr (read_frames n fs) fixed_one fixed_one 0 (format_of n)).1
      ≡ in_stream fs
scale_and_pack_frames-pcm_read_s32 addr n fs l h a =
    scale_and_pack_frames_unity addr (read_frames n fs) (format_of n) (read_frames-AllSamples n fs)
    ∙ encode_frames-read_frames n fs l h a
