-- ===== src/Mix.antt =====
-- output_pack.c: `_apply_gain` and `_apply_cross`, which work on the samples of the output buffer
-- in place.
pub mod Gain
pub mod Cross
mod Tests
use apple_squeezer.Prelude.{
  ℕ, zero, suc, ◌+◌, ◌*◌, ◌%◌, ltb, Bool, true, false, ◌&&◌, ◌||◌, not, List, map, Option, none,
  some, get_or, set, length, if◌then◌else◌, ◌==◌, bit_and,
}
use apple_squeezer.Prelude.Int.{ℤ, ◌+ℤ◌}
use apple_squeezer.Sample.{Frame, gain}
use apple_squeezer.Sample.Laws.{saturate32}
use apple_squeezer.Pack.{mono_left, mono_right, half, is_fixed_one}

-- The four loops of `_apply_gain`, chosen by `flags & MONO_LEFT` and `flags & MONO_RIGHT`.
pub gain_frames : Bool → Bool → ℤ → ℤ → List Frame → List Frame
unfolding ◌+ℤ◌
gain_frames true true gain_l gain_r frames =
    map
      (λ f.
        let m = saturate32 (half (gain gain_l f.left +ℤ gain gain_r f.right)) in
        record { left = m; right = m })
      frames
gain_frames false true gain_l gain_r frames =
    map (λ f. let m = gain gain_r f.right in record { left = m; right = m }) frames
gain_frames true false gain_l gain_r frames =
    map (λ f. let m = gain gain_l f.left in record { left = m; right = m }) frames
gain_frames false false gain_l gain_r frames =
    map (λ f. record { left = gain gain_l f.left; right = gain gain_r f.right }) frames

-- `_apply_gain` on the `count` frames at `readp`.
pub apply_gain : ℤ → ℤ → ℕ → List Frame → List Frame
unfolding gain_frames
apply_gain gain_l gain_r flags frames =
    if is_fixed_one gain_l && is_fixed_one gain_r && bit_and flags 0x03 == 0
    then frames
    else gain_frames (mono_left flags) (mono_right flags) gain_l gain_r frames

-- The loop of `_apply_cross` with `count` samples left: `mem` is the buffer as samples, `at` the
-- index of `ptr`, `offset` the index of the sample mixed in. Both live in one buffer.
pub cross_loop : ℤ → ℤ → ℕ → List ℤ → ℕ → ℕ → List ℤ × ℕ
unfolding ◌+ℤ◌
cross_loop gain_in gain_out zero mem at offset = (mem, offset)
cross_loop gain_in gain_out (suc count) mem at offset =
    let mixed =
      gain gain_out (get_or mem at (ℤ.pos 0)) +ℤ gain gain_in (get_or mem offset (ℤ.pos 0)) in
    cross_loop gain_in gain_out count (set mem at (saturate32 mixed)) (at + 1)
      ((offset + 1) % length mem)

-- `_apply_cross`: `at` is `readp` as an index of samples and `cross` that of `*cross_ptr`, which is
-- taken as 0 outside the buffer; `none` is a NULL pointer.
pub apply_cross : List ℤ → ℕ → ℕ → ℤ → ℤ → Option ℕ → List ℤ × Option ℕ
unfolding cross_loop
apply_cross mem out_frames at gain_in gain_out none = (mem, none)
apply_cross mem out_frames at gain_in gain_out (some cross) =
    if length mem == 0
    then (mem, some cross)
    else let start = if ltb cross (length mem) then cross % length mem else 0 in
      let (mem', offset) = cross_loop gain_in gain_out (out_frames * 2) mem at start in
      (mem', some offset)
