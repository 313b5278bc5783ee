-- ===== src/Mix/Gain.antt =====
-- `_apply_gain` against the gain of each sample.
use apple_squeezer.Prelude.{
  ℕ, ◌≡◌, refl, ap, ap₂, Bool, true, false, ◌&&◌, List, [], ◌∷◌, map, arith, ◌==◌, bit_and,
  and_mask, Bool-cases, inl, inr,
}
use apple_squeezer.Prelude.Int.{ℤ, pos, negsuc, ◌+ℤ◌}
use apple_squeezer.Sample.{Frame, gain, IsS32, fixed_one}
use apple_squeezer.Sample.Laws.{saturate32, gain_unity, gain-IsS32}
use apple_squeezer.Pack.{mono_left, mono_right, half, is_fixed_one}
use apple_squeezer.Pack.Refine.{IsSamples, AllSamples}
use apple_squeezer.Mix.{gain_frames, apply_gain}

-- One frame after the gains and the mono mix.
pub gained : Bool → Bool → ℤ → ℤ → Frame → Frame
gained true true gl gr f =
    let m = half (gain gl f.left +ℤ gain gr f.right) in record { left = m; right = m }
gained false true gl gr f = record { left = gain gr f.right; right = gain gr f.right }
gained true false gl gr f = record { left = gain gl f.left; right = gain gl f.left }
gained false false gl gr f = record { left = gain gl f.left; right = gain gr f.right }

mean-IsS32 : (l r : ℤ) → IsS32 l → IsS32 r → IsS32 (half (l +ℤ r))
unfolding ◌+ℤ◌
mean-IsS32 (pos l) (pos r) h k = ground arith
mean-IsS32 (pos l) (negsuc r) h k = ground arith
mean-IsS32 (negsuc l) (pos r) h k = ground arith
mean-IsS32 (negsuc l) (negsuc r) h k = ground arith

saturate32_id : (z : ℤ) → IsS32 z → saturate32 z ≡ z
saturate32_id (pos n) h = ground arith
saturate32_id (negsuc n) h = ground arith

map_ext :
    (p q : Frame → Frame) (fs : List Frame)
    → ((f : Frame) → IsSamples f → p f ≡ q f)
    → AllSamples fs
    → map p fs ≡ map q fs
map_ext p q [] h a = refl
map_ext p q (f ∷ fs) h a = ap₂ ◌∷◌ (h f a.0) (map_ext p q fs h a.1)

map_id_ext :
    (p : Frame → Frame) (fs : List Frame)
    → ((f : Frame) → IsSamples f → f ≡ p f)
    → AllSamples fs
    → fs ≡ map p fs
map_id_ext p [] h a = refl
map_id_ext p (f ∷ fs) h a = ap₂ ◌∷◌ (h f a.0) (map_id_ext p fs h a.1)

gain_frames-eq-gained :
    (l r : Bool) (gl gr : ℤ) (fs : List Frame)
    → AllSamples fs
    → gain_frames l r gl gr fs ≡ map (gained l r gl gr) fs
unfolding gain_frames gained
gain_frames-eq-gained true true gl gr fs a = map_ext _ _ fs step a
  where
    step :
        (f : Frame)
        → IsSamples f
        → (let m = saturate32 (half (gain gl f.left +ℤ gain gr f.right)) in
            record { left = m; right = m })
          ≡ gained true true gl gr f
    step f h =
        ap (λ (m : ℤ). let r : Frame = record { left = m; right = m } in r)
          (saturate32_id (half (gain gl f.left +ℤ gain gr f.right)) (
            mean-IsS32 (gain gl f.left) (gain gr f.right) (gain-IsS32 gl f.left)
              (gain-IsS32 gr f.right)))
gain_frames-eq-gained false true gl gr fs a = refl
gain_frames-eq-gained true false gl gr fs a = refl
gain_frames-eq-gained false false gl gr fs a = refl

and_left : (a b : Bool) → (a && b) ≡ true → a ≡ true
and_left true b h = refl
and_left false b h = cc

and_right : (a b : Bool) → (a && b) ≡ true → b ≡ true
and_right true b h = h
and_right false b h = cc

is_fixed_one_sound : (z : ℤ) → is_fixed_one z ≡ true → z ≡ fixed_one
is_fixed_one_sound (pos n) h = ground arith
is_fixed_one_sound (negsuc n) h = cc

no_mono :
    (flags : ℕ)
    → (bit_and flags 0x03 == 0) ≡ true
    → (mono_left flags ≡ false) × (mono_right flags ≡ false)
no_mono flags h = ground (arith, and_mask 0 2 flags, and_mask 0 1 flags, and_mask 1 1 flags)

unity_frames :
    (fs : List Frame) → AllSamples fs → fs ≡ map (gained false false fixed_one fixed_one) fs
unfolding gained
unity_frames fs a =
    map_id_ext _ fs (λ f h. ground (arith, gain_unity f.left h.0, gain_unity f.right h.1)) a

-- On 32-bit samples `_apply_gain` puts each frame through its gains and the mono mix: returning
-- early at unit gains and the clamp of the mean change no sample.
pub apply_gain-eq-gained :
    (gl gr : ℤ) (flags : ℕ) (fs : List Frame)
    → AllSamples fs
    → apply_gain gl gr flags fs ≡ map (gained (mono_left flags) (mono_right flags) gl gr) fs
unfolding apply_gain
apply_gain-eq-gained gl gr flags fs a =
    elim (Bool-cases (is_fixed_one gl && is_fixed_one gr && bit_and flags 0x03 == 0)) [
      | inl e ↦
          let units = and_left (is_fixed_one gl && is_fixed_one gr) (bit_and flags 0x03 == 0) e in
          let unit_l = is_fixed_one_sound gl (and_left (is_fixed_one gl) (is_fixed_one gr) units) in
          let unit_r =
            is_fixed_one_sound gr (and_right (is_fixed_one gl) (is_fixed_one gr) units) in
          let plain =
            no_mono flags
              (and_right (is_fixed_one gl && is_fixed_one gr) (bit_and flags 0x03 == 0) e) in
          rw (e, plain.0, plain.1, unit_l, unit_r) (unity_frames fs a)
      | inr e ↦ rw e (gain_frames-eq-gained (mono_left flags) (mono_right flags) gl gr fs a)
    ]
