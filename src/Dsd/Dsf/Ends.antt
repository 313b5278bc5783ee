-- ===== src/Dsd/Dsf/Ends.antt =====
-- dsd.c: the loop of `_decode_dsf` ends, and takes whole blocks.
use apple_squeezer.Prelude.{
  ℕ, zero, suc, ◌+◌, ◌*◌, ◌/◌, ◌≤◌, ◌<◌, ◌≡◌, ◌⊎◌, refl, ap, subst, inl, inr, Bool, true, false,
  if_both, List, Option, ltb, ◌==◌, u32, arith,
}
use native.Mathlib.Nat.{div-mul-le_self, mul-le-mul_right}
use apple_squeezer.Buffer.{used, space, inc_readp}
use apple_squeezer.Buffer.Inv.{IsValid, inc_readp-IsValid}
use apple_squeezer.Buffer.Queue.{inc_readp_moves}
use apple_squeezer.Buffer.Aligned.{IsAligned}
use apple_squeezer.Pcm.Decode.{running, complete}
use apple_squeezer.Dsd.{Dsd, dsf, is_dsf, valid_stream_format}
use apple_squeezer.Dsd.Pack.{Layout, width_of}
use apple_squeezer.Dsd.Diff.{DsdDecoder}
use apple_squeezer.Dsd.Dsf.Round.{Keeps, Goes, round-Goes}
use apple_squeezer.Dsd.Dsf.{
  DsfRound, at_end, stores_past, goes_on, DsfResult, spins, overruns, returns, after_round,
  round_dsf, skip_dsf, dsf_loop, decode_dsf,
}

in_total :
    {block channels total : ℕ}
    → channels ≡ 1 ⊎ channels ≡ 2
    → block * channels ≤ total
    → block ≤ total
in_total {block = block} {total = total} (inl e) h =
    let times : block * 1 ≤ total = subst (λ c. block * c ≤ total) e h in omega (arith, times)
in_total {block = block} {total = total} (inr e) h =
    let times : block * 2 ≤ total = subst (λ c. block * c ≤ total) e h in omega (arith, times)

module _ {ℓ} {F : Type ℓ} (w block channels total : ℕ) where
  -- What `_decode_dsf` comes to, with frames of `w` bytes of each channel.
  pub Ended : DsfResult F → Type 0
  Ended spins = ⊥
  Ended (overruns d) = (w ≡ 4) × (d.dsd.sample_bytes ≡ 1)
  Ended (returns s d) =
      IsValid d.streambuf
      × IsValid d.outputbuf
      × IsAligned d.outputbuf
      × ((s ≡ complete)
          ⊎ ((s ≡ running)
              × ((used d.streambuf + block * channels ≡ total) ⊎ (d.dsd.sample_bytes ≡ 0))))

  skip-Ended :
      {padding : ℕ} {d : DsdDecoder F}
      → Keeps block channels total 0 padding d
      → channels ≡ 1 ⊎ channels ≡ 2
      → block * channels ≤ total
      → Ended (returns running (skip_dsf padding d))
  unfolding skip_dsf Ended
  skip-Ended {padding} {d} k c h =
      let b = inc_readp d.streambuf padding in
      let v : IsValid b = inc_readp-IsValid padding k.stream in
      let none_over : ltb 2 d.dsd.channels ≡ false = ground (arith, c, k.same_channels) in
      let skipped : used d.streambuf + block ≡ total + padding → used b + block ≡ total = λ q.
        omega (
          arith,
          (inc_readp_moves padding k.stream (omega (arith, q, h, in_total c h))).1,
          q,
          h,
          in_total c h,
        ) in
      elim c [
        | inl e ↦
            let one : ltb 1 d.dsd.channels ≡ false = ground (arith, e, k.same_channels) in
            let times : block * channels ≡ block = rw e (omega arith) in
            rw (one, none_over)
              (
                v,
                k.output,
                k.aligned,
                inr (
                  refl,
                  elim k.counted [
                    | inl q ↦ inl (omega (arith, skipped (omega (arith, q)), times))
                    | inr q ↦ inr (q.1)
                  ],
                ),
              )
        | inr e ↦
            let two : ltb 1 d.dsd.channels ≡ true = ground (arith, e, k.same_channels) in
            let times : block * channels ≡ block + block = rw e (omega arith) in
            rw (two, none_over)
              (
                inc_readp-IsValid d.dsd.block_size v,
                k.output,
                k.aligned,
                inr (
                  refl,
                  elim k.counted [
                    | inl q ↦
                        let s = skipped (omega (arith, q)) in
                        let m =
                          inc_readp_moves d.dsd.block_size v
                            (omega (arith, s, h, times, k.same_block)) in
                        inl (omega (arith, m.1, s, h, times, k.same_block))
                    | inr q ↦ inr (q.1)
                  ],
                ),
              )
      ]

  module _ (bitreverse : ℕ → ℕ) (translate : Bool → F → List ℕ → List ℕ × F) where
    next-Ended :
        {left : ℕ} (d : DsdDecoder F) (next : ℕ → ℕ → DsdDecoder F → DsfResult F) (r : DsfRound F)
        → IsValid d.streambuf
        → IsValid d.outputbuf
        → IsAligned d.outputbuf
        → Goes block channels total w left r
        → ((left' padding' : ℕ) (d' : DsdDecoder F)
            → Keeps block channels total left' padding' d'
            → left' < left
            → Ended (next left' padding' d'))
        → Ended (after_round next d r)
    unfolding after_round Ended Goes
    next-Ended d next at_end vb vo a g rest = (vb, vo, a, inl refl)
    next-Ended d next (stores_past d') vb vo a g rest = g
    next-Ended d next (goes_on left' padding' d') vb vo a g rest =
        rest left' padding' d' (g.0) (g.1)

    loop-Ended :
        (fuel : ℕ) {left padding : ℕ} {d : DsdDecoder F} (l : Option Layout)
        → Keeps block channels total left padding d
        → channels ≡ 1 ⊎ channels ≡ 2
        → block * channels ≤ total
        → left < fuel
        → width_of l ≡ w
        → Ended (dsf_loop bitreverse translate fuel l left padding d)
    unfolding dsf_loop
    loop-Ended zero l k c h f we = absurd (omega (arith, f))
    loop-Ended (suc fuel) {left} {padding} {d} l k c h f we =
        if_both Ended (left == 0) (returns running (skip_dsf padding d))
          (after_round (dsf_loop bitreverse translate fuel l) d
            (round_dsf bitreverse translate l left padding d))
          (λ e.
            let z : left ≡ 0 = ground (arith, e) in
            skip-Ended (subst (λ n. Keeps block channels total n padding d) z k) c h)
          (λ e.
            next-Ended d (dsf_loop bitreverse translate fuel l)
              (round_dsf bitreverse translate l left padding d) k.stream k.output k.aligned
              (subst
                (λ x.
                  Goes block channels total x left
                    (round_dsf bitreverse translate l left padding d))
                we (round-Goes block channels total bitreverse translate l k (ground (arith, e))))
              (λ left' padding' d' k' less. loop-Ended fuel l k' c h (omega (arith, less, f)) we))

valid_blocks :
    (size : ℕ) (d : Dsd)
    → valid_stream_format size d ≡ true
    → d.type ≡ dsf
    → (d.channels ≡ 1 ⊎ d.channels ≡ 2) × (d.block_size * d.channels ≤ size)
unfolding valid_stream_format
valid_blocks size d h t =
    let s : is_dsf d.type ≡ true = ap is_dsf t in
    let fits : d.block_size ≤ size / d.channels = ground (arith, h, s) in
    let times : d.block_size * d.channels ≤ size / d.channels * d.channels =
      mul-le-mul_right d.channels fits in
    (ground (arith, h), omega (arith, times, div-mul-le_self size d.channels))

module _ {ℓ} {F : Type ℓ} (bitreverse : ℕ → ℕ) (translate : Bool → F → List ℕ → List ℕ × F) where
  -- `_decode_dsf` on valid buffers, the output one in whole frames, for a format that
  -- `_read_header` found valid, with room for a frame for each byte of a block, where the stream
  -- buffer holds the blocks alone, a block more than them at least, or all samples that are left: its
  -- loop ends, and it either stores silence behind the end of the stream buffer, which only a 32-bit
  -- format does and only with a single byte of the track left, or both buffers stay valid, and it
  -- returns DECODE_RUNNING with just one block of each channel taken off the stream buffer or all
  -- samples of the track read, or DECODE_COMPLETE. How much it has read where it returns
  -- DECODE_COMPLETE is left open.
  pub decode_dsf-Ended :
      (l : Option Layout) (d : DsdDecoder F)
      → IsValid d.streambuf
      → IsValid d.outputbuf
      → IsAligned d.outputbuf
      → valid_stream_format d.streambuf.size d.dsd ≡ true
      → d.dsd.type ≡ dsf
      → d.dsd.block_size * 8 ≤ space d.outputbuf
      → let blocks = d.dsd.block_size * d.dsd.channels in
        (used d.streambuf ≡ blocks)
          ⊎ (blocks + d.dsd.block_size ≤ used d.streambuf)
          ⊎ (d.dsd.sample_bytes ≤ used d.streambuf)
        → Ended
            (width_of l)
            d.dsd.block_size
            d.dsd.channels
            (used d.streambuf)
            (decode_dsf bitreverse translate l d)
  unfolding decode_dsf Ended
  decode_dsf-Ended l d vb vo a valid t room held =
      let block = d.dsd.block_size in
      let channels = d.dsd.channels in
      let total = used d.streambuf in
      let v = valid_blocks d.streambuf.size d.dsd valid t in
      let narrow : u32 (block * channels) ≡ block * channels =
        omega (arith, v.1, vb.small, vb.within) in
      if_both (Ended (width_of l) block channels total) (ltb total (u32 (block * channels)))
        (returns complete d) (dsf_loop bitreverse translate (block + 1) l block 0 d)
        (λ _. (vb, vo, a, inl refl))
        (λ e.
          let there : block * channels ≤ total = ground (arith, e, narrow) in
          let start : Keeps block channels total block 0 d = record {
            same_block = refl;
            same_channels = refl;
            stream = vb;
            output = vo;
            aligned = a;
            has_room = room;
            held = in_total (v.0) there;
            in_block = omega arith;
            counted = inl (omega arith);
            last_once = elim held [
              | inl p ↦ inl (refl, refl, omega (arith, p, narrow))
              | inr (inl p) ↦ inr (inr (inl (omega (arith, p, narrow))))
              | inr (inr p) ↦ inr (inr (inr p))
            ];
          } in
          loop-Ended (width_of l) block channels total bitreverse translate (block + 1) l start
            (v.0) there (omega arith) refl)
