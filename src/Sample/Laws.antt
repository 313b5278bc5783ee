-- ===== src/Sample/Laws.antt =====
-- What `gain` does to a sample.
use apple_squeezer.Prelude.{ℕ, suc, ◌-◌, ◌*◌, ◌^◌, ◌≤◌, ◌≡◌, arith}
use apple_squeezer.Prelude.Int.{ℤ, pos, negsuc, pos_part, neg_part, ◌*ℤ◌, ◌≤ℤ◌}
use apple_squeezer.Sample.{
  IsS32, to_s32, asr, clamp, max_scalesample, min_scalesample, fixed_one, gain,
}

-- A cast to `s32_t` changes nothing in its range.
pub to_s32_id : (z : ℤ) → IsS32 z → to_s32 z ≡ z
to_s32_id (pos n) h = ground arith
to_s32_id (negsuc n) h = ground arith

pub to_s32-IsS32 : (z : ℤ) → IsS32 (to_s32 z)
to_s32-IsS32 (pos n) = ground arith
to_s32-IsS32 (negsuc n) = ground arith

-- The integers that `s32_t` holds, nearest to `z`.
abbrev pub saturate32 : ℤ → ℤ
saturate32 z = clamp (negsuc (2 ^ 31 - 1)) (pos (2 ^ 31 - 1)) z

clamp_then_shift :
    (p : ℤ) → to_s32 (asr (clamp min_scalesample max_scalesample p) 16) ≡ saturate32 (asr p 16)
clamp_then_shift (pos n) = ground arith
clamp_then_shift (negsuc n) = ground arith

-- The limit that `gain` puts on the 64-bit product is the saturation of the scaled sample at the
-- ends of `s32_t`.
pub gain-eq-saturate : (g s : ℤ) → gain g s ≡ saturate32 (asr (g *ℤ s) 16)
unfolding gain
gain-eq-saturate g s = clamp_then_shift (g *ℤ s)

pub gain-IsS32 : (g s : ℤ) → IsS32 (gain g s)
unfolding gain
gain-IsS32 g s = to_s32-IsS32 (asr (clamp min_scalesample max_scalesample (g *ℤ s)) 16)

-- `FIXED_ONE` is the unit of `gain`: no sample is changed, the least one included.
pub gain_unity : (s : ℤ) → IsS32 s → gain fixed_one s ≡ s
unfolding gain
gain_unity (pos n) h = ground arith
gain_unity (negsuc n) h = ground arith

clamp_mono : (p q : ℤ) → p ≤ℤ q → saturate32 (asr p 16) ≤ℤ saturate32 (asr q 16)
clamp_mono (pos n) (pos m) h = ground arith
clamp_mono (pos n) (negsuc m) h = absurd (omega arith)
clamp_mono (negsuc n) (pos m) h = ground arith
clamp_mono (negsuc n) (negsuc m) h = ground arith

mul_mono : (g a b : ℕ) → a ≤ b → g * a ≤ g * b
mul_mono g a b h = grind arith

scale_mono : (g : ℕ) (s t : ℤ) → s ≤ℤ t → (pos g *ℤ s) ≤ℤ (pos g *ℤ t)
unfolding ◌*ℤ◌
scale_mono g (pos n) (pos m) h = ground (arith, mul_mono g n m (omega arith))
scale_mono g (pos n) (negsuc m) h = absurd (omega arith)
scale_mono g (negsuc n) (pos m) h = ground arith
scale_mono g (negsuc n) (negsuc m) h = ground (arith, mul_mono g (suc m) (suc n) (omega arith))

-- A gain that is not negative keeps the order of samples, saturation and rounding included.
pub gain_mono : (g : ℕ) (s t : ℤ) → s ≤ℤ t → gain (pos g) s ≤ℤ gain (pos g) t
gain_mono g s t h =
    rw (gain-eq-saturate (pos g) s, gain-eq-saturate (pos g) t)
      (clamp_mono (pos g *ℤ s) (pos g *ℤ t) (scale_mono g s t h))

-- A gain of at most `FIXED_ONE` never makes a sample louder.
pub gain_attenuates :
    (g : ℕ) (s : ℤ)
    → g ≤ 0x10000
    → IsS32 s
    → (pos_part (gain (pos g) s) ≤ pos_part s) × (neg_part (gain (pos g) s) ≤ neg_part s)
unfolding gain ◌*ℤ◌
gain_attenuates g (pos n) h r = ground (arith, mul_mono n g 0x10000 h)
gain_attenuates g (negsuc n) h r = ground (arith, mul_mono (suc n) g 0x10000 h)
