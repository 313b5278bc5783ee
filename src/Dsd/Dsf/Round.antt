-- ===== src/Dsd/Dsf/Round.antt =====
-- dsd.c: a round of the loop of `_decode_dsf`.
use apple_squeezer.Prelude.{
  ℕ, ◌+◌, ◌-◌, ◌*◌, ◌≤◌, ◌<◌, ◌≡◌, ◌⊎◌, refl, ap, ap₂, ◌∙◌, inl, inr, Bool, Bool-cases, if_both,
  ◌&&◌, List, length, drop, Option, min, ltb, ◌==◌, if◌then◌else◌, u32, sub32, arith,
}
use native.Mathlib.Nat.{mul-le-mul_right}
use apple_squeezer.Buffer.{Buffer, used, space, cont_write, inc_readp, inc_writep}
use apple_squeezer.Buffer.Memory.{blit, length-blit}
use apple_squeezer.Buffer.Inv.{IsValid, measures, inc_readp-IsValid, inc_writep-IsValid}
use apple_squeezer.Buffer.Queue.{inc_readp_moves, inc_writep_moves, inc_writep_keeps}
use apple_squeezer.Buffer.Aligned.{IsAligned, inc_writep-IsAligned, frame-IsWritable}
use apple_squeezer.Pcm.Decode.{writable_frames}
use apple_squeezer.Dsd.Pack.{Layout, width_of, Filters}
use apple_squeezer.Dsd.Diff.{DsdDecoder}
use apple_squeezer.Dsd.Dsf.{
  silence_rest, right_of, is_last, padding_of, left_of, piece, frames_there, is_filled, DsfRound,
  at_end, goes_on, stores_past, fills_past, write_dsf, round_dsf, pack_dsf,
}
use apple_squeezer.Dsd.Dsf.Steps.{
  stored-IsValid, used-stored, space-stored, length-silence_rest, zero_padding_le, width_pos,
  le_times, there_lem, past_wide, There, nothing, plain, filled,
}

-- `total` bytes are held before the loop; each of the blocks has `block` bytes.
module _ {ℓ} {F : Type ℓ} (block channels total : ℕ) where
  -- The loop before a round: `left` bytes of the block are to be read.
  pub record Keeps (left padding : ℕ) (d : DsdDecoder F) : Type 0 where
    pub same_block : d.dsd.block_size ≡ block
    pub same_channels : d.dsd.channels ≡ channels
    pub stream : IsValid d.streambuf
    pub output : IsValid d.outputbuf
    pub aligned : IsAligned d.outputbuf
    pub has_room : left * 8 ≤ space d.outputbuf
    pub held : left ≤ used d.streambuf
    pub in_block : left + padding ≤ block
    pub counted :
        (used d.streambuf + block ≡ total + left + padding)
        ⊎ ((left ≡ 0) × (d.dsd.sample_bytes ≡ 0))
    pub last_once :
        ((left ≡ block) × (padding ≡ 0) × (used d.streambuf ≡ u32 (block * channels)))
        ⊎ (used d.streambuf < u32 (block * channels))
        ⊎ (u32 (block * channels) + left ≤ used d.streambuf)
        ⊎ (d.dsd.sample_bytes ≤ used d.streambuf)

  -- The padding of the last block is taken off what is left, once.
  marked :
      {left padding : ℕ} {d : DsdDecoder F}
      → Keeps left padding d
      → 0 < left
      → let left' = left_of d.dsd d.streambuf padding left in
        (left' + padding_of d.dsd d.streambuf padding ≡ left + padding)
        × (left' ≤ left)
        × (0 < left')
  marked {left} {padding} {d} k h =
      let b = d.streambuf in
      let z = zero_padding_le b b.readp (right_of b d.dsd.block_size) (d.dsd.block_size - 1) in
      let m = measures k.stream in
      let x : u32 (d.dsd.block_size * d.dsd.channels) ≡ u32 (block * channels) =
        ap₂ (λ s c. u32 (s * c)) k.same_block k.same_channels in
      elim (Bool-cases (is_last d.dsd b)) [
        | inl e ↦
            let full : used b ≡ u32 (d.dsd.block_size * d.dsd.channels) = ground (arith, e) in
            let more : used b < d.dsd.sample_bytes = ground (arith, e) in
            let first : (left ≡ block) × (padding ≡ 0) = elim k.last_once [
              | inl f ↦ (f.0, f.1)
              | inr (inl f) ↦ absurd (omega (arith, f, x, full))
              | inr (inr (inl f)) ↦ absurd (omega (arith, f, x, full, h))
              | inr (inr (inr f)) ↦ absurd (omega (arith, f, more))
            ] in
            rw e (
              omega (arith, z, m, first, k.same_block, k.held, k.stream.small, k.stream.within),
              omega (arith, z, m, first, k.same_block, k.held, k.stream.small, k.stream.within),
              omega (arith, z, m, first, k.same_block, k.held, k.stream.small, k.stream.within, h),
            )
        | inr e ↦ rw e (refl, omega arith, h)
      ]

  -- A round that goes on, with frames of `w` bytes.
  unfoldable pub Goes : ℕ → ℕ → DsfRound F → Type 0
  Goes w left at_end = Unit
  Goes w left (stores_past d) = (w ≡ 4) × (d.dsd.sample_bytes ≡ 1)
  Goes w left (goes_on left' padding d) = Keeps left' padding d × left' < left

  -- The state behind a round that reads `t` bytes of each channel and writes `f` frames, whatever is stored.
  abbrev moved : ℕ → ℕ → List ℕ → List ℕ → Filters F → DsdDecoder F → DsdDecoder F
  moved f t m m' g d = record {
    streambuf = inc_readp (record d.streambuf { mem = m }) t;
    dsd = record d.dsd {
      sample_bytes = if ltb t d.dsd.sample_bytes then d.dsd.sample_bytes - t else 0;
    };
    filters = g;
    outputbuf = inc_writep (record d.outputbuf { mem = m' }) (f * 8);
  }

  moved-Keeps :
      {left padding : ℕ} {d : DsdDecoder F} (w left' padding' f t : ℕ) (m m' : List ℕ)
      (g : Filters F)
      → Keeps left padding d
      → left' + padding' ≡ left + padding
      → left' ≤ left
      → 0 < left'
      → length m ≡ length d.streambuf.mem
      → length m' ≡ length d.outputbuf.mem
      → 1 ≤ f
      → f ≤ t
      → f * 8 ≤ space d.outputbuf
      → (t < d.dsd.sample_bytes → t ≤ left')
      → Goes w left (
          goes_on
            (if ltb t d.dsd.sample_bytes then sub32 left' t else 0)
            padding'
            (moved f t m m' g d))
  unfolding Goes
  moved-Keeps {left} {padding} {d} w left' padding' f t m m' g k e le pos lm lm' one grows fits
        small =
      let b = d.streambuf in
      let o = d.outputbuf in
      let n = d.dsd.sample_bytes in
      let b' : Buffer = record b { mem = m } in
      let o' : Buffer = record o { mem = m' } in
      let vb : IsValid b' = stored-IsValid m k.stream lm in
      let vo : IsValid o' = stored-IsValid m' k.output lm' in
      let ao : IsAligned o' = ground (arith, k.aligned) in
      let wrote : used (inc_writep o' (f * 8)) ≡ used o + f * 8 =
        inc_writep_moves (f * 8) vo (omega (arith, fits, space-stored o m'))
        ∙ ap (λ u. u + f * 8) (used-stored o m') in
      let vo' : IsValid (inc_writep o' (f * 8)) = inc_writep-IsValid (f * 8) vo in
      let ao' : IsAligned (inc_writep o' (f * 8)) =
        inc_writep-IsAligned f vo ao (omega (arith, fits, space-stored o m')) in
      let vb' : IsValid (inc_readp b' t) = inc_readp-IsValid t vb in
      let sizes : (inc_writep o' (f * 8)).size ≡ o.size = (inc_writep_keeps o' (f * 8)).1 in
      let free : space (inc_writep o' (f * 8)) + f * 8 ≡ space o =
        omega (arith, measures vo', measures k.output, wrote, sizes) in
      elim (Bool-cases (ltb t n)) [
        | inl c ↦
            let tn : t < n = ground (arith, c) in
            let tl : t ≤ left' = small tn in
            let in_stream : t ≤ used b' = omega (arith, tl, le, k.held, used-stored b m) in
            let read : used (inc_readp b' t) ≡ used b - t =
              (inc_readp_moves t vb in_stream).1 ∙ ap (λ u. u - t) (used-stored b m) in
            let l32 : sub32 left' t ≡ left' - t =
              omega (arith, tl, le, k.held, measures k.stream, k.stream.small, k.stream.within) in
            rw (c, l32)
              (
                record {
                  same_block = k.same_block;
                  same_channels = k.same_channels;
                  stream = vb';
                  output = vo';
                  aligned = ao';
                  has_room = omega (arith, free, k.has_room, le, grows, tl);
                  held = omega (arith, read, k.held, le, tl);
                  in_block = omega (arith, k.in_block, e);
                  counted = elim k.counted [
                    | inl q ↦ inl (omega (arith, q, e, read, tl, le, k.held))
                    | inr q ↦ absurd (omega (arith, q, le, pos))
                  ];
                  last_once = elim k.last_once [
                    | inl q ↦ inr (inl (omega (arith, q, read, one, grows, tl, le, k.held)))
                    | inr (inl q) ↦ inr (inl (omega (arith, q, read)))
                    | inr (inr (inl q)) ↦ inr (inr (inl (omega (arith, q, read, tl, le))))
                    | inr (inr (inr q)) ↦ inr (inr (inr (omega (arith, q, read))))
                  ];
                },
                omega (arith, one, grows, le, pos, tl),
              )
        | inr c ↦ rw c (
          record {
            same_block = k.same_block;
            same_channels = k.same_channels;
            stream = vb';
            output = vo';
            aligned = ao';
            has_room = omega arith;
            held = omega arith;
            in_block = omega (arith, k.in_block, e);
            counted = inr (refl, refl);
            last_once = inr (inr (inr (omega arith)));
          },
          omega (arith, le, pos),
        )
      ]

  module _ (bitreverse : ℕ → ℕ) (translate : Bool → F → List ℕ → List ℕ × F) where
    write-Goes :
        {left padding : ℕ} {d : DsdDecoder F} (l : Option Layout) (left' padding' avail there : ℕ)
        → Keeps left padding d
        → left' + padding' ≡ left + padding
        → left' ≤ left
        → 0 < left'
        → 0 < there
        → avail ≤ left'
        → There avail d.dsd.sample_bytes (width_of l) there
        → Goes (width_of l) left (
            write_dsf bitreverse translate l left' padding' there
              (is_filled avail d.dsd.sample_bytes (width_of l))
              d)
    unfolding write_dsf
    write-Goes {left} {padding} {d} l left' padding' avail there k e le pos some_there a t =
        let b = d.streambuf in
        let o = d.outputbuf in
        let n = d.dsd.sample_bytes in
        let w = width_of l in
        let r = right_of b d.dsd.block_size in
        let fills = is_filled avail n w in
        let f = min (min there (writable_frames o)) 4096 in
        let mem = if fills then silence_rest w n b.mem b.readp r else b.mem in
        let packed =
          pack_dsf bitreverse translate l d.dsd f (drop b.readp mem) (drop r mem) d.filters in
        let same : length mem ≡ length b.mem =
          if_both (λ m. length m ≡ length b.mem) fills (silence_rest w n b.mem b.readp r) b.mem
            (λ _. length-silence_rest w n b.mem b.readp r) (λ _. refl) in
        let one : 8 ≤ cont_write o =
          frame-IsWritable k.output k.aligned (omega (arith, k.has_room, pos, le)) in
        let some_room : 1 ≤ f = omega (arith, one, k.has_room, pos, le, some_there) in
        let a_frame : 1 * w ≤ f * w = mul-le-mul_right w some_room in
        let less : f * w ≤ there * w =
          let f_le : f ≤ there = omega arith in mul-le-mul_right w f_le in
        let small : f * w < n → f * w ≤ left' = λ h. elim t [
          | nothing z ↦ absurd (omega (arith, z, some_there))
          | plain _ p _ ↦ omega (arith, p, less, a)
          | filled _ u v ↦ absurd (omega (arith, h, v, a_frame))
        ] in
        moved-Keeps w left' padding' f (f * w) mem (blit o.mem o.writep (packed.0)) (packed.1) k e
          le pos same (length-blit (packed.0) o.mem o.writep) some_room (le_times f w (width_pos l))
          (omega arith) small

    pub round-Goes :
        {left padding : ℕ} {d : DsdDecoder F} (l : Option Layout)
        → Keeps left padding d
        → 0 < left
        → Goes (width_of l) left (round_dsf bitreverse translate l left padding d)
    unfolding round_dsf Goes
    round-Goes {left} {padding} {d} l k h =
        let b = d.streambuf in
        let left' = left_of d.dsd b padding left in
        let avail = piece d.dsd b left' in
        let there = frames_there avail d.dsd.sample_bytes (width_of l) in
        let m = marked k h in
        let n = d.dsd.sample_bytes in
        let w = width_of l in
        let r = right_of b d.dsd.block_size in
        let write =
          write_dsf bitreverse translate l left' (padding_of d.dsd b padding) there
            (is_filled avail n w) d in
        let past = is_filled avail n w && fills_past b r w in
        if_both (Goes w left) (there == 0) at_end (if past then stores_past d else write) (λ _. tt)
          (λ e.
            if_both (Goes w left) past (stores_past d) write
              (λ q. past_wide l avail n b r q (ground (arith, e)) (omega arith) (omega arith))
              (λ _.
                write-Goes l left' (padding_of d.dsd b padding) avail there k (m.0) (m.1) (m.2)
                  (ground (arith, e)) (omega arith) (there_lem avail n w (width_pos l))))
