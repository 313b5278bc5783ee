-- ===== src/Dsd/Header.antt =====
-- dsd.c: `_read_header`, which goes over the chunks of a file up to its audio. It works on the bytes
-- that can be read in one piece; a read past them gives `none`.
pub mod Reads
pub mod Rounds
pub mod Written
mod Tests
use apple_squeezer.Prelude.{
  ℕ, zero, suc, ◌+◌, ◌-◌, ◌*◌, ◌/◌, ◌%◌, ◌^◌, ◌&&◌, ◌||◌, not, List, length, drop, Option, none,
  some, get_elem?, bit_or, ◌==◌, ltb, leb, if◌then◌else◌, u64,
}
use apple_squeezer.Network.{read_u16, read_u32, unpack_u32, ◌>>=◌}
use apple_squeezer.Dsd.{DsdType, unknown, dsf, dsdiff, Dsd, is_unknown, valid_stream_format}

-- `unpack32le`
unfoldable pub read_u32_le : List ℕ → ℕ → Option ℕ
unfolding unpack_u32
read_u32_le bytes i = do
  a ← get_elem? bytes i
  b ← get_elem? bytes (i + 1)
  c ← get_elem? bytes (i + 2)
  d ← get_elem? bytes (i + 3)
  some (unpack_u32 d c b a)

-- `unpack64be` and `unpack64le`, of their two halves.
unfoldable pub read_u64_be : List ℕ → ℕ → Option ℕ
unfolding read_u32
read_u64_be bytes i = do
  high ← read_u32 bytes i
  low ← read_u32 bytes (i + 4)
  some (bit_or (high * 2 ^ 32) low)

unfoldable pub read_u64_le : List ℕ → ℕ → Option ℕ
unfolding read_u32_le
read_u64_le bytes i = do
  low ← read_u32_le bytes i
  high ← read_u32_le bytes (i + 4)
  some (bit_or (high * 2 ^ 32) low)

-- The four bytes of a tag, as a number.
abbrev pub tag : ℕ → ℕ → ℕ → ℕ → ℕ
tag a b c d = a * 2 ^ 24 + b * 2 ^ 16 + c * 2 ^ 8 + d

-- A tag is compared as the number that its bytes are.
unfoldable pub read_tag : List ℕ → ℕ → Option ℕ
read_tag bytes i = do
  a ← get_elem? bytes i
  b ← get_elem? bytes (i + 1)
  c ← get_elem? bytes (i + 2)
  d ← get_elem? bytes (i + 3)
  some (tag a b c d)

-- What a chunk leads to: an error, the audio, a wait for more of the chunk, or bytes to pass over.
pub data HeaderChunk : Type 0 where
  bad audio holds : Dsd → HeaderChunk
  passes : ℕ → Dsd → HeaderChunk

-- The last argument is the state once the format is found valid.
abbrev pub valid_or_bad : ℕ → Dsd → Dsd → HeaderChunk
valid_or_bad size d d' = if valid_stream_format size d then audio d' else bad d

-- `consume > UINT32_MAX`, or none
abbrev pub pass_over : ℕ → Dsd → HeaderChunk
pass_over consume d = if consume == 0 || ltb (2 ^ 32 - 1) consume then bad d else passes consume d

-- A whole chunk of DSDIFF
abbrev pub whole_dsdiff : ℕ → ℕ
whole_dsdiff len = u64 (len + 12 + len % 2)

-- A chunk of DSDIFF; `form`, `rate` and `channels` are what may stand behind its length.
unfoldable pub dsdiff_fields : ℕ → ℕ → ℕ → ℕ → ℕ → ℕ → Dsd → HeaderChunk
unfolding valid_stream_format
dsdiff_fields size id len form rate channels d =
    if id == tag b'F' b'R' b'M' b'8'
    then if form == tag b'D' b'S' b'D' b' ' then pass_over 16 d else bad d
    else if id == tag b'P' b'R' b'O' b'P' && form == tag b'S' b'N' b'D' b' '
    then pass_over 16 d
    else if id == tag b'F' b'S' b' ' b' '
    then pass_over (whole_dsdiff len) (record d { sample_rate = rate })
    else if id == tag b'C' b'H' b'N' b'L'
    then if not (channels == 1) && not (channels == 2)
      then bad (record d { channels = channels })
      else pass_over (whole_dsdiff len) (record d { channels = channels })
    else if id == tag b'D' b'S' b'D' b' '
    then valid_or_bad size d (record d { sample_bytes = len })
    else pass_over (whole_dsdiff len) d

unfoldable pub dsdiff_chunk : ℕ → List ℕ → ℕ → ℕ → Dsd → Option HeaderChunk
unfolding dsdiff_fields read_u16 read_u32
dsdiff_chunk size bytes id len d = do
  form ← read_tag bytes 12
  rate ← read_u32 bytes 12
  channels ← read_u16 bytes 12
  some (dsdiff_fields size id len form rate channels d)

-- Raw samples in a valid format, or an error; `d'` is the state with the format.
abbrev pub format_or_bad : ℕ → ℕ → ℕ → Dsd → Dsd → HeaderChunk
format_or_bad size format len d d' =
    if not (format == 0)
    then bad d
    else if not (valid_stream_format size d')
    then bad d'
    else pass_over len d'

-- `fmt ` of DSF, when it is there.
unfoldable pub dsf_format : ℕ → List ℕ → ℕ → Dsd → Option HeaderChunk
unfolding read_u32_le read_u64_le valid_stream_format
dsf_format size bytes len d = do
  format ← read_u32_le bytes 16
  channels ← read_u32_le bytes 24
  sample_rate ← read_u32_le bytes 28
  bits ← read_u32_le bytes 32
  samples ← read_u64_le bytes 36
  block_size ← read_u32_le bytes 44
  let d' = record d {
    channels = channels;
    sample_rate = sample_rate;
    lsb_first = bits == 1;
    sample_bytes = samples / 8;
    block_size = block_size;
  }
  some (format_or_bad size format len d d')

-- A chunk of DSF
unfoldable pub dsf_chunk : ℕ → List ℕ → ℕ → ℕ → Dsd → Option HeaderChunk
unfolding dsf_format
dsf_chunk size bytes id len d =
    if id == tag b'f' b'm' b't' b' '
    then if leb len (length bytes) && leb 52 (length bytes)
      then dsf_format size bytes len d
      else some (holds d)
    else if id == tag b'd' b'a' b't' b'a'
    then some (valid_or_bad size d d)
    else some (pass_over len d)

-- A round of the loop, on the 16 bytes and more that are there.
unfoldable pub chunk_of : DsdType → ℕ → List ℕ → Dsd → Option HeaderChunk
unfolding dsdiff_chunk dsf_chunk read_tag read_u64_be read_u64_le
chunk_of dsdiff size bytes d = do
  len ← read_u64_be bytes 4
  id ← read_tag bytes 0
  if ltb (2 ^ 32 - 1 - 12) len then some (bad d) else dsdiff_chunk size bytes id len d
chunk_of dsf size bytes d = do
  len ← read_u64_le bytes 4
  id ← read_tag bytes 0
  if ltb len 12 || ltb (2 ^ 32 - 1) len then some (bad d) else dsf_chunk size bytes id len d
chunk_of unknown size bytes d = do len ← read_u64_le bytes 4; some (pass_over len d)

-- What `_read_header` comes to, with what it takes off streambuf: -1, 1, or 0. `unfinished` means that
-- the fuel ran out.
pub data Header : Type 0 where
  unfinished : Header
  invalid found more : Dsd → ℕ → Header

-- The end of a round; `next` is the rounds behind it. A chunk that is not there as a whole is passed
-- over later.
unfoldable pub step : (ℕ → Dsd → Option Header) → ℕ → ℕ → HeaderChunk → Option Header
step next n consumed (bad d) = some (invalid d consumed)
step next n consumed (audio d) = some (found d (consumed + 12))
step next n consumed (holds d) = some (more d consumed)
step next n consumed (passes consume d) =
    if leb consume n
    then next consume d
    else some (more (record d { consume = consume - n }) (consumed + n))

unfoldable pub header_chunks : ℕ → ℕ → List ℕ → ℕ → Dsd → Option Header
unfolding chunk_of step
header_chunks zero size bytes consumed d = some unfinished
header_chunks (suc fuel) size bytes consumed d =
    if ltb (length bytes) 16
    then some (more d consumed)
    else chunk_of d.type size bytes d
      >>= step (λ k d'. header_chunks fuel size (drop k bytes) (consumed + k) d') (length bytes)
          consumed

-- The kind of the file, which its first four bytes tell.
unfoldable pub kind : List ℕ → Dsd → Option (Option Dsd)
unfolding read_tag
kind bytes d =
    if is_unknown d.type && leb 4 (length bytes)
    then (read_tag bytes 0 >>= λ id. some (
        if id == tag b'F' b'R' b'M' b'8'
        then some (record d { type = dsdiff })
        else if id == tag b'D' b'S' b'D' b' '
        then some (record d { type = dsf })
        else none))
    else some (some d)

unfoldable pub of_kind : ℕ → List ℕ → Dsd → Option Dsd → Option Header
unfolding header_chunks
of_kind size bytes d none = some (invalid d 0)
of_kind size bytes d (some d') = header_chunks (length bytes + 1) size bytes 0 d'

-- `_read_header`
unfoldable pub read_dsd_header : ℕ → List ℕ → Dsd → Option Header
unfolding kind of_kind
read_dsd_header size bytes d = kind bytes d >>= of_kind size bytes d
