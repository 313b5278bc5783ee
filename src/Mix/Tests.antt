-- ===== src/Mix/Tests.antt =====
-- Mixing in place, and the theorems about it at concrete samples.
use apple_squeezer.Prelude.{◌≡◌, List, [], ◌∷◌, map, arith}
use apple_squeezer.Prelude.Int.{ℤ, pos, negsuc}
use apple_squeezer.Sample.{Frame, fixed_one}
use apple_squeezer.Pack.{mono_left, mono_right}
use apple_squeezer.Mix.{apply_gain}
use apple_squeezer.Mix.Gain.{gained, apply_gain-eq-gained}

abbrev frames : List Frame
frames =
    record { left = pos 10; right = negsuc 2 } ∷ record { left = negsuc 6; right = pos 100 } ∷ []

apply_gain-eq-gained_example :
    apply_gain fixed_one fixed_one 0 frames
    ≡ map (gained (mono_left 0) (mono_right 0) fixed_one fixed_one) frames
apply_gain-eq-gained_example = apply_gain-eq-gained fixed_one fixed_one 0 frames (omega arith)

-- Two frames of the buffer: the first is played, the second mixed into it.
abbrev samples : List ℤ
samples = pos 10 ∷ pos 20 ∷ pos 30 ∷ pos 40 ∷ []
