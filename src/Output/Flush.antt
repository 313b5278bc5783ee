-- ===== src/Output/Flush.antt =====
-- output.c: what the two flushes leave of outputbuf.
use apple_squeezer.Prelude.{
  ℕ, zero, suc, ◌+◌, ◌%◌, ◌≤◌, ◌<◌, ◌≡◌, ◌∙◌, refl, sym, ap, true, none, some, List, ◌∷◌, take,
  get_or, arith,
}
use apple_squeezer.Buffer.{Buffer, used}
use apple_squeezer.Buffer.Inv.{IsValid, measures}
use apple_squeezer.Buffer.Queue.{window, contents, mod_cases}
use apple_squeezer.Output.{Output, flush_from, output_flush_streaming}

take-window :
    (mem : List ℕ) (size from n m : ℕ)
    → n ≤ m
    → take n (window mem size from m) ≡ window mem size from n
take-window mem size from zero m h = refl
take-window mem size from (suc n) zero h = absurd (omega arith)
take-window mem size from (suc n) (suc m) h =
    ap (◌∷◌ (get_or mem (from % size) 0)) (take-window mem size (from + 1) n m (omega arith))

used-cut :
    {b : Buffer} (n p : ℕ)
    → IsValid b
    → n ≤ used b
    → p ≡ (b.readp + n) % b.size
    → (used (record b { writep = p }) ≡ n) × (p < b.size)
unfolding used
used-cut {b} n p v h e =
    ground (arith, e, mod_cases (b.readp + n) b.size (omega (arith, v.read_in, measures v)))

-- Where the next track starts behind the first `n` bytes that outputbuf holds,
-- `output_flush_streaming` reports that it flushed, leaves just those bytes and forgets the track;
-- outputbuf stays valid.
pub output_flush_streaming_lem :
    {b : Buffer} (o : Output) (n p : ℕ)
    → IsValid b
    → n ≤ used b
    → o.track_start ≡ some p
    → p ≡ (b.readp + n) % b.size
    → let (flushed, o', b') = output_flush_streaming o b in
      (flushed ≡ true)
      × (o' ≡ record o { track_start = none })
      × (contents b' ≡ take n (contents b))
      × IsValid b'
unfolding output_flush_streaming flush_from
output_flush_streaming_lem {b} o n p v h t e =
    let cut = used-cut n p v h e in
    let kept : IsValid (record b { writep = p }) = ground (arith, cut.1) in
    rw (ap (λ q. flush_from q o b) t) (
      refl,
      refl,
      ap (window b.mem b.size b.readp) cut.0 ∙ sym (take-window b.mem b.size b.readp n (used b) h),
      kept,
    )
