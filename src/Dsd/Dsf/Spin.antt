-- ===== src/Dsd/Dsf/Spin.antt =====
-- dsd.c: where the loop of `_decode_dsf` does not end.
use apple_squeezer.Prelude.{
  ℕ, zero, suc, ◌-◌, ◌*◌, ◌/◌, ◌^◌, ◌≤◌, ◌<◌, ◌≡◌, refl, Bool, true, false, List, some, min, ltb,
  ◌==◌, sub32, arith,
}
use native.Mathlib.Nat.{le-div_iff_mul-le}
use apple_squeezer.Buffer.Memory.{blit}
use apple_squeezer.Buffer.Inv.{IsValid, inc_readp_zero, inc_writep_zero}
use apple_squeezer.Pcm.Decode.{writable_frames}
use apple_squeezer.Dsd.Pack.{Layout, width}
use apple_squeezer.Dsd.Diff.{DsdDecoder}
use apple_squeezer.Dsd.Dsf.{
  is_last, piece, goes_on, spins, after_round, pack_dsf, pack_blocks, write_dsf, round_dsf,
  dsf_loop,
}

module _ {ℓ} {F : Type ℓ} (bitreverse : ℕ → ℕ) (translate : Bool → F → List ℕ → List ℕ × F) where
  round_stays :
      (l : Layout) (left padding : ℕ) (d : DsdDecoder F)
      → IsValid d.streambuf
      → IsValid d.outputbuf
      → is_last d.dsd d.streambuf ≡ false
      → writable_frames d.outputbuf ≡ 0
      → left < 2 ^ 32
      → 0 < width l
      → width l ≤ piece d.dsd d.streambuf left
      → width l ≤ d.dsd.sample_bytes
      → round_dsf bitreverse translate (some l) left padding d ≡ goes_on left padding d
  unfolding round_dsf write_dsf pack_dsf pack_blocks blit
  round_stays l left padding d vs vo e full small w p n =
      let b = d.streambuf in
      let q : ℕ = min (piece d.dsd b left) d.dsd.sample_bytes / width l in
      let some_frame : 1 ≤ q =
        (le-div_iff_mul-le {k = width l} {x = 1} {y = min (piece d.dsd b left) d.dsd.sample_bytes}
            w).1
          (omega (arith, p, n)) in
      let q0 : (q == 0) ≡ false = ground (arith, some_frame) in
      let no_frame : min (min q (writable_frames d.outputbuf)) 4096 ≡ 0 = omega (arith, full) in
      let nothing : 0 * width l ≡ 0 = omega arith in
      let counted : ltb 0 d.dsd.sample_bytes ≡ true = ground (arith, w, n) in
      let same_left : sub32 left 0 ≡ left = omega (arith, small) in
      let same : d.dsd.sample_bytes - 0 ≡ d.dsd.sample_bytes = omega arith in
      rw
        (
          e,
          q0,
          q0,
          no_frame,
          nothing,
          counted,
          same_left,
          same,
          inc_readp_zero vs,
          inc_writep_zero vo,
        )
        refl

  -- When the output buffer is full while some of a block is left, a frame at least can be read of
  -- both channels in one piece and is left of the length, and this is not the block of the padding,
  -- the loop of `_decode_dsf` on valid buffers with DSD output never ends, however many rounds it
  -- is given.
  pub dsf_loop-spins :
      (fuel : ℕ) (l : Layout) (left padding : ℕ) (d : DsdDecoder F)
      → IsValid d.streambuf
      → IsValid d.outputbuf
      → is_last d.dsd d.streambuf ≡ false
      → writable_frames d.outputbuf ≡ 0
      → left < 2 ^ 32
      → 0 < width l
      → width l ≤ piece d.dsd d.streambuf left
      → width l ≤ d.dsd.sample_bytes
      → dsf_loop bitreverse translate fuel (some l) left padding d ≡ spins
  unfolding dsf_loop after_round
  dsf_loop-spins zero l left padding d vs vo e full small w p n = refl
  dsf_loop-spins (suc fuel) l left padding d vs vo e full small w p n =
      let go : (left == 0) ≡ false = ground (arith, w, p) in
      let stays = round_stays l left padding d vs vo e full small w p n in
      rw (go, stays) (dsf_loop-spins fuel l left padding d vs vo e full small w p n)
