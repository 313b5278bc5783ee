-- ===== src/Pack/Tests.antt =====
-- Frames packed for a device, and the theorem about it at concrete frames.
use apple_squeezer.Prelude.{◌≡◌, refl, List, [], ◌∷◌, map, arith}
use apple_squeezer.Prelude.Int.{pos, negsuc}
use apple_squeezer.Sample.{Frame, fixed_one}
use apple_squeezer.Pack.{OutputFormat, mixed, each, packed, scale_and_pack_frames}
use apple_squeezer.Pack.Refine.{AllSamples, encoded, scale_and_pack_frames-eq-encoded}

abbrev frames : List Frame
frames =
    record { left = pos 0x01020304; right = negsuc 0 }
    ∷ record { left = pos 0x05060708; right = pos 0x090a0b0c }
    ∷ record { left = negsuc 0x7fffffff; right = pos 0 }
    ∷ []

frames-AllSamples : AllSamples frames
frames-AllSamples = omega arith

-- An aligned start: two frames as words, the third byte by byte.
packed_aligned :
    packed OutputFormat.s24_3le 0 fixed_one fixed_one frames
    ≡ 3 ∷ 2 ∷ 1 ∷ 255 ∷ 255 ∷ 255 ∷ 7 ∷ 6 ∷ 5 ∷ 11 ∷ 10 ∷ 9 ∷ 0 ∷ 0 ∷ 128 ∷ 0 ∷ 0 ∷ 0 ∷ []
unfolding packed
packed_aligned = refl

scale_and_pack_frames-eq-encoded_example :
    (scale_and_pack_frames 2 frames (pos 0x8000) (pos 0x8000) 1 OutputFormat.s24_3le).1
    ≡ each (encoded OutputFormat.s24_3le (pos 0x8000) (pos 0x8000)) (map (mixed 1) frames)
scale_and_pack_frames-eq-encoded_example =
    scale_and_pack_frames-eq-encoded 2 frames (pos 0x8000) (pos 0x8000) 1 OutputFormat.s24_3le
      frames-AllSamples
