-- ===== src/Dsd/Diff/Laws.antt =====
-- dsd.c: `_decode_dsdiff` between the two buffers as FIFOs of bytes.
use apple_squeezer.Prelude.{
  ℕ, ◌-◌, ◌*◌, ◌≤◌, ◌<◌, ◌≡◌, ◌⊎◌, refl, sym, ap, ◌∙◌, subst, false, if_both, List, ◌++◌, drop,
  length, Option, none, some, ltb, ◌==◌, ◌||◌, if◌then◌else◌, arith,
}
use apple_squeezer.Buffer.{Buffer, inc_readp}
use apple_squeezer.Buffer.Inv.{IsValid, inc_readp-IsValid}
use apple_squeezer.Buffer.Queue.{contents, contents-inc_readp, append_bytes, append_bytes_lem}
use apple_squeezer.Pcm.Decode.{running, writable_frames}
use apple_squeezer.Dsd.Pack.{Layout, words, halves, bytes, dop_halves, width_of, pack_dsdiff}
use apple_squeezer.Dsd.Pack.Laws.{length-pack_dsdiff, pack_dsdiff_ext}
use apple_squeezer.Dsd.Diff.{
  DsdDecoder, room_frames, source, frames_read, bytes_read, decode_dsdiff_frames, decode_dsdiff,
}
use apple_squeezer.Dsd.Diff.Source.{padded, taken_le, frames_le, source-Agree}

out_le : (l : Option Layout) (b : Buffer) → room_frames l b ≤ writable_frames b
out_le none b = omega arith
out_le (some words) b = omega arith
out_le (some halves) b = omega arith
out_le (some dop_halves) b = omega arith
out_le (some bytes) b = omega arith

pub out_pos : (l : Option Layout) (b : Buffer) → 1 ≤ writable_frames b → 1 ≤ room_frames l b
out_pos none b h = omega (arith, h)
out_pos (some words) b h = h
out_pos (some halves) b h = h
out_pos (some dop_halves) b h = h
out_pos (some bytes) b h = omega (arith, h)

pub frame_le :
    (l : Option Layout) (c : ℕ) → c ≡ 1 ⊎ c ≡ 2 → (c * width_of l ≤ 32) × 0 < c * width_of l
frame_le none c h = (ground (arith, h), ground (arith, h))
frame_le (some words) c h = (ground (arith, h), ground (arith, h))
frame_le (some halves) c h = (ground (arith, h), ground (arith, h))
frame_le (some dop_halves) c h = (ground (arith, h), ground (arith, h))
frame_le (some bytes) c h = (ground (arith, h), ground (arith, h))

module _ {ℓ} {F : Type ℓ} where
  -- The frame size of the format, what a call takes off the stream buffer, and how many frames it writes.
  abbrev pub frame_size : Option Layout → DsdDecoder F → ℕ
  frame_size l d = d.dsd.channels * width_of l

  abbrev pub taken : Option Layout → DsdDecoder F → ℕ
  taken l d = bytes_read (frame_size l d) (room_frames l d.outputbuf) d.streambuf d.dsd.sample_bytes

  abbrev pub written : Option Layout → DsdDecoder F → ℕ
  written l d =
      frames_read (frame_size l d) (room_frames l d.outputbuf) d.streambuf d.dsd.sample_bytes

module _ {ℓ} {F : Type ℓ} (translate : F → List ℕ → List ℕ × F)
    (one_each : (f : F) (xs : List ℕ) → length ((translate f xs).0) ≡ length xs) where
  -- `_decode_dsdiff` on valid buffers, for one or two channels, with room for a frame and a dsd2pcm
  -- that gives a sample for each byte: it returns DECODE_RUNNING, takes bytes off the front of the
  -- stream buffer and counts them down, and adds to the output buffer what the loops make of just
  -- these bytes, with silence behind them where they are less than a frame, also where a frame goes
  -- round the end of the storage; both buffers stay valid.
  pub decode_dsdiff_lem :
      (l : Option Layout) (d : DsdDecoder F)
      → IsValid d.streambuf
      → IsValid d.outputbuf
      → d.dsd.channels ≡ 1 ⊎ d.dsd.channels ≡ 2
      → 1 ≤ writable_frames d.outputbuf
      → let d' = (decode_dsdiff translate l d).1 in
        let out =
          pack_dsdiff translate l d.dsd.channels
            (written l d)
            (padded (taken l d) (contents d.streambuf))
            d.filters in
        ((decode_dsdiff translate l d).0 ≡ running)
        × (contents d'.streambuf ≡ drop (taken l d) (contents d.streambuf))
        × (contents d'.outputbuf ≡ contents d.outputbuf ++ out.0)
        × (d'.filters ≡ out.1)
        × (d'.dsd.sample_bytes ≡ d.dsd.sample_bytes - taken l d)
        × IsValid d'.streambuf
        × IsValid d'.outputbuf
  unfolding decode_dsdiff decode_dsdiff_frames append_bytes
  decode_dsdiff_lem l d vs vo c room =
      let frame = frame_size l d in
      let small = frame_le l d.dsd.channels c in
      let ok : (frame == 0 || ltb 32 frame) ≡ false = ground (arith, small) in
      let out = room_frames l d.outputbuf in
      let n = d.dsd.sample_bytes in
      let held = padded (taken l d) (contents d.streambuf) in
      let packed = pack_dsdiff translate l d.dsd.channels (written l d) held d.filters in
      let same : pack_dsdiff translate l d.dsd.channels (written l d)
            (source frame out d.streambuf n) d.filters
          ≡ packed =
        pack_dsdiff_ext translate one_each l d.dsd.channels (written l d) _ held d.filters c
          (source-Agree frame out n vs (small.0)) in
      let le = taken_le frame out n vs in
      let few = frames_le frame out n vs (out_pos l d.outputbuf room) in
      let long : length (packed.0) ≡ written l d * 8 =
        length-pack_dsdiff translate one_each l d.dsd.channels (written l d) held d.filters in
      let added = append_bytes_lem (packed.0) vo (omega (arith, long, few, out_le l d.outputbuf)) in
      let after : DsdDecoder F = record {
        streambuf = inc_readp d.streambuf (taken l d);
        dsd = record d.dsd { sample_bytes = if ltb (taken l d) n then n - taken l d else 0 };
        filters = packed.1;
        outputbuf = append_bytes d.outputbuf packed.0;
      } in
      let comes : decode_dsdiff_frames translate l frame d ≡ after = rw (same, long) refl in
      let count : (if ltb (taken l d) n then n - taken l d else 0) ≡ n - taken l d =
        if_both (λ t. t ≡ n - taken l d) (ltb (taken l d) n) (n - taken l d) 0 (λ _. refl)
          (λ e. ground (arith, e)) in
      rw ok (
        refl,
        ap (λ (x : DsdDecoder F). contents x.streambuf) comes
            ∙ contents-inc_readp (taken l d) vs le,
        ap (λ (x : DsdDecoder F). contents x.outputbuf) comes ∙ added.0,
        ap (λ (x : DsdDecoder F). x.filters) comes,
        ap (λ (x : DsdDecoder F). x.dsd.sample_bytes) comes ∙ count,
        subst (λ (x : DsdDecoder F). IsValid x.streambuf) (sym comes)
            (inc_readp-IsValid (taken l d) vs),
        subst (λ (x : DsdDecoder F). IsValid x.outputbuf) (sym comes) added.1,
      )
