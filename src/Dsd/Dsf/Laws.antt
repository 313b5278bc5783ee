-- ===== src/Dsd/Dsf/Laws.antt =====
-- dsd.c: what a round of `_decode_dsf` reads and writes, with the buffers as FIFOs of bytes.
use apple_squeezer.Prelude.{
  ℕ, ◌+◌, ◌-◌, ◌*◌, ◌/◌, ◌≤◌, ◌<◌, ◌≡◌, refl, ap, ◌∙◌, Bool, false, ◌&&◌, if_both, List, ◌++◌, drop,
  length, Option, min, ltb, ◌==◌, if◌then◌else◌, sub32, arith,
}
use native.Mathlib.Nat.{div-mul-le_self, mul-le-mul_right}
use apple_squeezer.Buffer.{used, inc_readp}
use apple_squeezer.Buffer.Inv.{IsValid}
use apple_squeezer.Buffer.Queue.{contents, contents-inc_readp, append_bytes, append_bytes_lem}
use apple_squeezer.Pcm.Decode.{writable_frames}
use apple_squeezer.Dsd.Pack.{Layout, width_of}
use apple_squeezer.Dsd.Diff.{DsdDecoder}
use apple_squeezer.Dsd.Dsf.Blocks.{pack_dsf_ext, length-pack_dsf, left-Same, right-Same}
use apple_squeezer.Dsd.Dsf.{
  right_of, padding_of, left_of, piece, frames_there, is_filled, fills_past, goes_on, pack_dsf,
  write_dsf, round_dsf,
}

whole_frames_there :
    (avail n w : ℕ)
    → is_filled avail n w ≡ false
    → (frames_there avail n w * w ≤ avail) × (0 < frames_there avail n w)
whole_frames_there avail n w e =
    let le = div-mul-le_self (min avail n) w in
    let pos : 0 < min avail n / w = ground (arith, e) in rw e (omega (arith, le), pos)

module _ {ℓ} {F : Type ℓ} (bitreverse : ℕ → ℕ) (translate : Bool → F → List ℕ → List ℕ × F)
    (one_each : (b : Bool) (f : F) (xs : List ℕ) → length ((translate b f xs).0) ≡ length xs) where
  -- A round of the loop of `_decode_dsf` on valid buffers that hold what is left of both blocks,
  -- where a whole frame can be read of both channels in one piece and dsd2pcm gives a sample for
  -- each byte: it takes no more than what is left of the left block off the stream buffer, counts
  -- that down, and adds to the output buffer what the `switch` makes of these bytes and of those a
  -- block further, also where the blocks go round the end of the storage.
  pub round_dsf_lem :
      (l : Option Layout) (left padding : ℕ) (d : DsdDecoder F)
      → IsValid d.streambuf
      → IsValid d.outputbuf
      → d.dsd.block_size + left_of d.dsd d.streambuf padding left ≤ used d.streambuf
      → is_filled
          (piece d.dsd d.streambuf (left_of d.dsd d.streambuf padding left))
          d.dsd.sample_bytes
          (width_of l)
        ≡ false
      → let rest = left_of d.dsd d.streambuf padding left in
        let n = d.dsd.sample_bytes in
        let there = frames_there (piece d.dsd d.streambuf rest) n (width_of l) in
        let f = min (min there (writable_frames d.outputbuf)) 4096 in
        let t = f * width_of l in
        let held = contents d.streambuf in
        let packed =
          pack_dsf bitreverse translate l d.dsd f held (drop d.dsd.block_size held) d.filters in
        (d' : DsdDecoder F) × (round_dsf bitreverse translate l left padding d
          ≡ goes_on (if ltb t n then sub32 rest t else 0) (padding_of d.dsd d.streambuf padding) d')
        × (contents d'.streambuf ≡ drop t held)
        × (contents d'.outputbuf ≡ contents d.outputbuf ++ packed.0)
        × (d'.filters ≡ packed.1)
        × (d'.dsd.sample_bytes ≡ n - t)
        × (t ≤ rest)
  unfolding round_dsf write_dsf append_bytes
  round_dsf_lem l left padding d vs vo held_blocks full =
      let b = d.streambuf in
      let rest = left_of d.dsd b padding left in
      let n = d.dsd.sample_bytes in
      let w = width_of l in
      let avail = piece d.dsd b rest in
      let there = frames_there avail n w in
      let f = min (min there (writable_frames d.outputbuf)) 4096 in
      let t = f * w in
      let held = contents b in
      let r = right_of b d.dsd.block_size in
      let block = d.dsd.block_size in
      let packed = pack_dsf bitreverse translate l d.dsd f held (drop block held) d.filters in
      let fit : (t ≤ avail) × (0 < there) =
        let whole = whole_frames_there avail n w full in
        let f_le : f ≤ there = omega arith in
        (omega (arith, whole, mul-le-mul_right w f_le), whole.1) in
      let same : pack_dsf bitreverse translate l d.dsd f (drop b.readp b.mem) (drop r b.mem)
            d.filters
          ≡ packed =
        pack_dsf_ext bitreverse translate one_each l d.dsd f _ _ held (drop block held) d.filters
          (left-Same t vs (omega (arith, fit)) (omega (arith, fit, held_blocks)))
          (right-Same block t vs (omega (arith, fit)) (omega (arith, fit, held_blocks))) in
      let long : length (packed.0) ≡ f * 8 =
        length-pack_dsf bitreverse translate one_each l d.dsd f held (drop block held) d.filters in
      let added = append_bytes_lem (packed.0) vo (omega (arith, long)) in
      let d' : DsdDecoder F = record {
        streambuf = inc_readp b t;
        dsd = record d.dsd { sample_bytes = if ltb t n then n - t else 0 };
        filters = packed.1;
        outputbuf = append_bytes d.outputbuf (packed.0);
      } in
      let count : (if ltb t n then n - t else 0) ≡ n - t =
        if_both (λ x. x ≡ n - t) (ltb t n) (n - t) 0 (λ _. refl) (λ e. ground (arith, e)) in
      let go : (there == 0) ≡ false = ground (arith, fit) in
      let padding' = padding_of d.dsd b padding in
      let no_past : (is_filled avail n w && fills_past b r w) ≡ false = rw full refl in
      let reads : round_dsf bitreverse translate l left padding d
          ≡ write_dsf bitreverse translate l rest padding' there (is_filled avail n w) d =
        rw (go, no_past) refl in
      let writes : write_dsf bitreverse translate l rest padding' there false d
          ≡ goes_on (if ltb t n then sub32 rest t else 0) padding' d' =
        rw (same, long) refl in
      (
        d',
        reads
            ∙ ap (λ fills. write_dsf bitreverse translate l rest padding' there fills d) full
            ∙ writes,
        contents-inc_readp t vs (omega (arith, fit, held_blocks)),
        added.0,
        refl,
        count,
        omega (arith, fit),
      )
