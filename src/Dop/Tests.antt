-- ===== src/Dop/Tests.antt =====
-- DoP frames written and detected, and the theorems about them at concrete frames.
use apple_squeezer.Prelude.{ℕ, ◌≡◌, ◌↔◌, refl, List, [], ◌∷◌, true, false, arith, replicate, inl}
use apple_squeezer.Dop.{is_stream_dop, update_dop}
use apple_squeezer.Dop.Update.{due, markers_of, payloads, flip_all, marker_after, update_dop_lem}
use apple_squeezer.Dop.Detect.{HasRun, is_stream_dop_iff, update_dop_detected}

abbrev two : List (ℕ × ℕ)
two = (0x12345678, 0x9abcdef0) ∷ (0x00000000, 0xffffffff) ∷ []

abbrev many : List (ℕ × ℕ)
many = replicate 33 (0x12345678, 0x9abcdef0)

update_dop_runs :
    update_dop false 0x05 two ≡ ((0x05345600, 0x05bcde00) ∷ (0xfa000000, 0xfaffff00) ∷ [], 0x05)
unfolding update_dop
update_dop_runs = refl

update_dop_lem_example :
    (markers_of (update_dop true 0x05 two).0 ≡ due 2 0x05)
    × (payloads (update_dop true 0x05 two).0 ≡ flip_all true (payloads two))
    × ((update_dop true 0x05 two).1 ≡ marker_after 2 0x05)
update_dop_lem_example = update_dop_lem true 0x05 two (inl refl) (omega arith)

is_stream_dop_iff_example : (is_stream_dop (due 40 0xFA) ≡ true) ↔ HasRun (due 40 0xFA)
is_stream_dop_iff_example = is_stream_dop_iff (due 40 0xFA)

update_dop_detected_example : is_stream_dop (markers_of (update_dop false 0xFA many).0) ≡ true
update_dop_detected_example =
    update_dop_detected false 0xFA many (omega arith) (omega arith) (omega arith)
