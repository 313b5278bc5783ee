-- ===== src/Sample/Tests.antt =====
-- Runs of `gain`.
use apple_squeezer.Prelude.{◌≡◌, refl}
use apple_squeezer.Prelude.Int.{pos, negsuc}
use apple_squeezer.Sample.{gain}

-- Half the volume of -3 rounds down to -2; twice the loudest sample saturates.
gain_runs :
    (gain (pos 0x8000) (negsuc 2) ≡ negsuc 1)
    × (gain (pos 0x20000) (pos 0x7fffffff) ≡ pos 0x7fffffff)
unfolding gain
gain_runs = (refl, refl)
