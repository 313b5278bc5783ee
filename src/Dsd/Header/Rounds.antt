-- ===== src/Dsd/Header/Rounds.antt =====
-- dsd.c: the chunks that `_read_header` goes over are within what it has.
use apple_squeezer.Prelude.{
  ℕ, ◌-◌, ◌/◌, ◌^◌, ◌≤◌, ◌<◌, ◌≡◌, refl, Bool, true, ◌&&◌, ◌||◌, not, List, length, Option, some,
  ◌==◌, ltb, leb, if◌then◌else◌, if_both, arith,
}
use apple_squeezer.Network.Reads.{read_u16-IsRead, read_u32-IsRead}
use apple_squeezer.Dsd.{DsdType, unknown, dsf, dsdiff, Dsd, valid_stream_format}
use apple_squeezer.Dsd.Header.{
  tag, HeaderChunk, bad, audio, holds, passes, valid_or_bad, pass_over, whole_dsdiff, dsdiff_fields,
  format_or_bad, dsdiff_chunk, dsf_format, dsf_chunk, chunk_of,
}
use apple_squeezer.Dsd.Header.Reads.{
  IsGiven, bind-IsGiven, read_u32_le-IsRead, read_tag-IsRead, read_u64_be-IsRead,
  read_u64_le-IsRead,
}

-- The audio has a valid format, and something is passed over, of less than 2 ^ 32 bytes.
unfoldable pub GoodChunk : ℕ → HeaderChunk → Type 0
GoodChunk size (bad d) = Unit
GoodChunk size (holds d) = Unit
GoodChunk size (audio d) = valid_stream_format size d ≡ true
GoodChunk size (passes consume d) = (0 < consume) × (consume < 2 ^ 32)

pass_over-Good : (size consume : ℕ) (d : Dsd) → GoodChunk size (pass_over consume d)
unfolding GoodChunk
pass_over-Good size consume d =
    if_both (GoodChunk size) (consume == 0 || ltb (2 ^ 32 - 1) consume) (bad d) (passes consume d)
      (λ e. tt) (λ e. ground (arith, e))

valid_or_bad-Good :
    (size : ℕ) (d d' : Dsd)
    → (valid_stream_format size d ≡ true → valid_stream_format size d' ≡ true)
    → GoodChunk size (valid_or_bad size d d')
unfolding GoodChunk
valid_or_bad-Good size d d' h =
    if_both (GoodChunk size) (valid_stream_format size d) (audio d') (bad d) h (λ e. tt)

bad-Good : (size : ℕ) (d : Dsd) → GoodChunk size (bad d)
unfolding GoodChunk
bad-Good size d = tt

dsdiff_fields-Good :
    (size id len form rate channels : ℕ) (d : Dsd)
    → GoodChunk size (dsdiff_fields size id len form rate channels d)
unfolding dsdiff_fields valid_stream_format
dsdiff_fields-Good size id len form rate channels d =
    let skip = pass_over-Good size in
    let good = if_both (GoodChunk size) in
    let whole_in : Dsd → HeaderChunk = pass_over (whole_dsdiff len) in
    let with_rate : Dsd = record d { sample_rate = rate } in
    let with_channels : Dsd = record d { channels = channels } in
    let with_audio : Dsd = record d { sample_bytes = len } in
    let is_bad : Bool = not (channels == 1) && not (channels == 2) in
    let at_audio : HeaderChunk =
      if id == tag b'D' b'S' b'D' b' ' then valid_or_bad size d with_audio else whole_in d in
    let by_channels : HeaderChunk = if is_bad then bad with_channels else whole_in with_channels in
    let at_channels : HeaderChunk =
      if id == tag b'C' b'H' b'N' b'L' then by_channels else at_audio in
    let at_rate : HeaderChunk =
      if id == tag b'F' b'S' b' ' b' ' then whole_in with_rate else at_channels in
    let at_prop : HeaderChunk =
      if id == tag b'P' b'R' b'O' b'P' && form == tag b'S' b'N' b'D' b' '
      then pass_over 16 d
      else at_rate in
    let by_form : HeaderChunk = if form == tag b'D' b'S' b'D' b' ' then pass_over 16 d else bad d in
    good (id == tag b'F' b'R' b'M' b'8') by_form at_prop
      (λ _.
        good (form == tag b'D' b'S' b'D' b' ') (pass_over 16 d) (bad d) (λ _. skip 16 d)
          (λ _. bad-Good size d))
      (λ _.
        good (id == tag b'P' b'R' b'O' b'P' && form == tag b'S' b'N' b'D' b' ') (pass_over 16 d)
          at_rate (λ _. skip 16 d)
          (λ _.
            good (id == tag b'F' b'S' b' ' b' ') (whole_in with_rate) at_channels
              (λ _. skip (whole_dsdiff len) with_rate)
              (λ _.
                good (id == tag b'C' b'H' b'N' b'L') by_channels at_audio
                  (λ _.
                    good is_bad (bad with_channels) (whole_in with_channels)
                      (λ _. bad-Good size with_channels)
                      (λ _. skip (whole_dsdiff len) with_channels))
                  (λ _.
                    good (id == tag b'D' b'S' b'D' b' ') (valid_or_bad size d with_audio)
                      (whole_in d) (λ _. valid_or_bad-Good size d with_audio (λ e. e))
                      (λ _. skip (whole_dsdiff len) d)))))

dsdiff_chunk-Good :
    (size : ℕ) (bytes : List ℕ) (id len : ℕ) (d : Dsd)
    → 16 ≤ length bytes
    → IsGiven (GoodChunk size) (dsdiff_chunk size bytes id len d)
unfolding dsdiff_chunk
dsdiff_chunk-Good size bytes id len d h =
    bind-IsGiven (read_tag-IsRead bytes 12 (omega arith)) (λ form.
      bind-IsGiven (read_u32-IsRead bytes 12 (omega arith)) (λ rate.
        bind-IsGiven (read_u16-IsRead bytes 12 (omega arith)) (λ channels. (
          dsdiff_fields size id len form rate channels d,
          refl,
          dsdiff_fields-Good size id len form rate channels d,
        ))))

format_or_bad-Good :
    (size format len : ℕ) (d d' : Dsd) → GoodChunk size (format_or_bad size format len d d')
unfolding GoodChunk
format_or_bad-Good size format len d d' =
    let by_format : HeaderChunk =
      if not (valid_stream_format size d') then bad d' else pass_over len d' in
    if_both (GoodChunk size) (not (format == 0)) (bad d) by_format (λ _. tt)
      (λ _.
        if_both (GoodChunk size) (not (valid_stream_format size d')) (bad d') (pass_over len d')
          (λ _. tt) (λ _. pass_over-Good size len d'))

dsf_format-Good :
    (size : ℕ) (bytes : List ℕ) (len : ℕ) (d : Dsd)
    → 52 ≤ length bytes
    → IsGiven (GoodChunk size) (dsf_format size bytes len d)
unfolding dsf_format
dsf_format-Good size bytes len d h =
    bind-IsGiven (read_u32_le-IsRead bytes 16 (omega arith)) (λ format.
      bind-IsGiven (read_u32_le-IsRead bytes 24 (omega arith)) (λ channels.
        bind-IsGiven (read_u32_le-IsRead bytes 28 (omega arith)) (λ sample_rate.
          bind-IsGiven (read_u32_le-IsRead bytes 32 (omega arith)) (λ bits.
            bind-IsGiven (read_u64_le-IsRead bytes 36 (omega arith)) (λ samples.
              bind-IsGiven (read_u32_le-IsRead bytes 44 (omega arith)) (λ block_size.
                let d' : Dsd = record d {
                  channels = channels;
                  sample_rate = sample_rate;
                  lsb_first = bits == 1;
                  sample_bytes = samples / 8;
                  block_size = block_size;
                } in
                (
                  format_or_bad size format len d d',
                  refl,
                  format_or_bad-Good size format len d d',
                )))))))

-- A given value that is good.
given : (size : ℕ) (c : HeaderChunk) → GoodChunk size c → IsGiven (GoodChunk size) (some c)
given size c g = (c, refl, g)

dsf_chunk-Good :
    (size : ℕ) (bytes : List ℕ) (id len : ℕ) (d : Dsd)
    → IsGiven (GoodChunk size) (dsf_chunk size bytes id len d)
unfolding dsf_chunk GoodChunk
dsf_chunk-Good size bytes id len d =
    let good = if_both (IsGiven (GoodChunk size)) in
    let is_whole : Bool = leb len (length bytes) && leb 52 (length bytes) in
    let at_format : Option HeaderChunk =
      if is_whole then dsf_format size bytes len d else some (holds d) in
    let at_data : Option HeaderChunk =
      if id == tag b'd' b'a' b't' b'a'
      then some (valid_or_bad size d d)
      else some (pass_over len d) in
    good (id == tag b'f' b'm' b't' b' ') at_format at_data
      (λ _.
        good is_whole (dsf_format size bytes len d) (some (holds d))
          (λ e. dsf_format-Good size bytes len d (ground (arith, e))) (λ _. (holds d, refl, tt)))
      (λ _.
        good (id == tag b'd' b'a' b't' b'a') (some (valid_or_bad size d d)) (some (pass_over len d))
          (λ _. given size (valid_or_bad size d d) (valid_or_bad-Good size d d (λ e. e)))
          (λ _. given size (pass_over len d) (pass_over-Good size len d)))

pub chunk_of-Good :
    (type : DsdType) (size : ℕ) (bytes : List ℕ) (d : Dsd)
    → 16 ≤ length bytes
    → IsGiven (GoodChunk size) (chunk_of type size bytes d)
unfolding chunk_of GoodChunk
chunk_of-Good dsdiff size bytes d h =
    bind-IsGiven (read_u64_be-IsRead bytes 4 (omega arith)) (λ len.
      bind-IsGiven (read_tag-IsRead bytes 0 (omega arith)) (λ id.
        if_both (IsGiven (GoodChunk size)) (ltb (2 ^ 32 - 1 - 12) len) (some (bad d))
          (dsdiff_chunk size bytes id len d) (λ _. (bad d, refl, tt))
          (λ _. dsdiff_chunk-Good size bytes id len d h)))
chunk_of-Good dsf size bytes d h = bind-IsGiven (read_u64_le-IsRead bytes 4 (omega arith)) (λ len.
    bind-IsGiven (read_tag-IsRead bytes 0 (omega arith)) (λ id.
      if_both (IsGiven (GoodChunk size)) (ltb len 12 || ltb (2 ^ 32 - 1) len) (some (bad d))
        (dsf_chunk size bytes id len d) (λ _. (bad d, refl, tt))
        (λ _. dsf_chunk-Good size bytes id len d)))
chunk_of-Good unknown size bytes d h =
    bind-IsGiven (read_u64_le-IsRead bytes 4 (omega arith))
      (λ len. given size (pass_over len d) (pass_over-Good size len d))
