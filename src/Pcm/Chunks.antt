-- ===== src/Pcm/Chunks.antt =====
-- pcm.c: one round of the loop of `_check_header`, the chunk at `ptr`.
use apple_squeezer.Prelude.{
  ℕ, zero, suc, ◌+◌, ◌-◌, ◌*◌, ◌/◌, ◌%◌, Bool, true, false, ◌&&◌, ◌||◌, not, List, get_or, bit_and,
  ◌==◌, ltb, leb, if◌then◌else◌, u32,
}
use apple_squeezer.Pcm.Convert.{join2, join4}

-- The static variables of pcm.c.
pub record PcmState : Type 0 where
  pub sample_rate : ℕ
  pub sample_size : ℕ
  pub channels : ℕ
  pub bigendian : Bool
  pub limit : Bool
  pub format_error : Bool
  pub unsigned_8bit : Bool
  pub audio_left : ℕ
  pub bytes_per_frame : ℕ

-- `header_format`, but for UNKNOWN
pub data HeaderFormat : Type 0 where
  wave aiff : HeaderFormat

-- What a round does: return with the stream advanced by `consumed`, or go on `advance` bytes
-- further. `have_format` is the local variable of that name.
pub data Round : Type 0 where
  stop : (returns : Bool) (state : PcmState) (consumed : ℕ) → Round
  next : (have_format : Bool) (state : PcmState) (advance : ℕ) → Round

abbrev pub at : List ℕ → ℕ → ℕ
at bytes i = get_or bytes i 0

-- `!memcmp(ptr + i, "abcd", 4)`
abbrev pub is_tag : List ℕ → ℕ → ℕ → ℕ → ℕ → ℕ → Bool
is_tag bytes i a b c d =
    at bytes i == a && at bytes (i + 1) == b && at bytes (i + 2) == c && at bytes (i + 3) == d

abbrev pub little16 : List ℕ → ℕ → ℕ
little16 bytes i = join2 (at bytes i) (at bytes (i + 1))

abbrev pub little32 : List ℕ → ℕ → ℕ
little32 bytes i = join4 (at bytes i) (at bytes (i + 1)) (at bytes (i + 2)) (at bytes (i + 3))

abbrev pub big16 : List ℕ → ℕ → ℕ
big16 bytes i = join2 (at bytes (i + 1)) (at bytes i)

abbrev pub big32 : List ℕ → ℕ → ℕ
big32 bytes i = join4 (at bytes (i + 3)) (at bytes (i + 2)) (at bytes (i + 1)) (at bytes i)

abbrev pub fail : PcmState → PcmState
fail s = record s { format_error = true }

-- The WAVE "data" chunk. Two lengths stand for an unknown size.
unfoldable pub data_chunk : Bool → PcmState → ℕ → ℕ → Round
data_chunk have_format s pos len =
    if not have_format
    then stop true (fail s) 0
    else stop true
        (record s { audio_left = len; limit = not (len == 0xFFFFFFFF || len == 0x7FFFEFFC) })
        (pos + 8)

-- The AIFF "SSND" chunk; `pos` is `ptr - streambuf->readp`, `used` is `_buf_used`, and
-- `from_file` that the stream is a file.
unfoldable pub ssnd_chunk : Bool → Bool → ℕ → PcmState → List ℕ → ℕ → ℕ → ℕ → Round
ssnd_chunk have_format from_file used s bytes avail pos len =
    let offset = big32 bytes 8 in
    if not have_format
    then stop true (fail s) 0
    else if ltb len 8 || ltb (len - 8) offset || ltb avail (offset + 16)
    then stop true (fail s) 0
    else if ltb used (pos + 16 + offset)
    then stop true (fail s) 0
    else stop true
        (if from_file then record s { audio_left = len - 8 - offset; limit = true } else s)
        (pos + 16 + offset)

abbrev pub bad_bits : ℕ → Bool
bad_bits bits = ltb bits 8 || ltb 32 bits || not (bits % 8 == 0)

abbrev pub bad_channels : ℕ → Bool
bad_channels n = not (n == 1) && not (n == 2)

-- `advance = 8U + (size_t)len + (len & 1U)`
abbrev pub chunk_advance : ℕ → ℕ
chunk_advance len = 8 + len + bit_and len 1

-- The WAVE "fmt " chunk.
unfoldable pub fmt_chunk : PcmState → List ℕ → ℕ → Round
fmt_chunk s bytes len =
    let new_channels = little16 bytes 10 in
    let new_rate = little32 bytes 12 in
    let bits = little16 bytes 22 in
    let encoding = little16 bytes 8 in
    if not (encoding == 1) || bad_channels new_channels || new_rate == 0 || bad_bits bits
    then stop true (fail s) 0
    else next true
        (record s {
          channels = new_channels;
          sample_rate = new_rate;
          sample_size = bits / 8;
          bigendian = false;
          unsigned_8bit = bits == 8;
          bytes_per_frame = new_channels * (bits / 8);
        })
        (chunk_advance len)

-- `while (exponent < 0) { sample_rate >>= 1; ++exponent; }`
unfoldable pub shift_down : ℕ → ℕ → ℕ
shift_down zero x = x
shift_down (suc n) x = shift_down n (x / 2)

-- `while (exponent > 0) { sample_rate <<= 1; --exponent; }`
unfoldable pub shift_up : ℕ → ℕ → ℕ
shift_up zero x = x
shift_up (suc n) x = shift_up n (u32 (x * 2))

-- The sample rate of "COMM": the exponent is that of an 80-bit float and `biased` is the
-- exponent + 16383 + 31.
unfoldable pub aiff_rate : ℕ → ℕ → ℕ
unfolding shift_down shift_up
aiff_rate biased mantissa =
    if ltb biased 16414
    then shift_down (16414 - biased) mantissa
    else shift_up (biased - 16414) mantissa

-- The part of "COMM" behind the test of the AIFC compression.
unfoldable pub comm_format : PcmState → List ℕ → ℕ → Bool → Round
unfolding aiff_rate
comm_format s bytes len new_bigendian =
    let new_channels = big16 bytes 8 in
    let bits = big16 bytes 14 in
    let biased = join2 (at bytes 17) (bit_and (at bytes 16) 0x7f) in
    let rate = aiff_rate biased (big32 bytes 18) in
    let s' = record s {
      channels = new_channels;
      sample_size = bits / 8;
      bigendian = new_bigendian;
      unsigned_8bit = false;
    } in
    if bad_channels new_channels || bad_bits bits || ltb biased 16383 || ltb 16445 biased
    then stop true (fail s') 0
    else if rate == 0
    then stop true (fail (record s' { sample_rate = rate })) 0
    else next true (record s' { sample_rate = rate; bytes_per_frame = new_channels * (bits / 8) })
        (chunk_advance len)

-- The AIFF "COMM" chunk, with the compression type of AIFC: "sowt", "NONE" or "twos".
unfoldable pub comm_chunk : Bool → PcmState → List ℕ → ℕ → ℕ → Round
unfolding comm_format
comm_chunk aifc s bytes avail len =
    if not aifc
    then comm_format s bytes len true
    else if ltb len 22
    then stop true (fail s) 0
    else if ltb avail 30
    then stop false s 0
    else if is_tag bytes 26 b's' b'o' b'w' b't'
    then comm_format s bytes len false
    else if is_tag bytes 26 b'N' b'O' b'N' b'E' || is_tag bytes 26 b't' b'w' b'o' b's'
    then comm_format s bytes len true
    else stop true (fail s) 0

-- One round: `bytes` is what stands at `ptr`, `avail` their number.
unfoldable pub chunk : HeaderFormat → Bool → Bool → ℕ → Bool → PcmState → List ℕ → ℕ → ℕ → Round
unfolding data_chunk ssnd_chunk fmt_chunk comm_chunk
chunk wave aifc from_file used have_format s bytes avail pos =
    let len = little32 bytes 4 in
    if is_tag bytes 0 b'd' b'a' b't' b'a'
    then data_chunk have_format s pos len
    else if is_tag bytes 0 b'f' b'm' b't' 32 && leb 16 len && leb 24 avail
    then fmt_chunk s bytes len
    else next have_format s (chunk_advance len)
chunk aiff aifc from_file used have_format s bytes avail pos =
    let len = big32 bytes 4 in
    if is_tag bytes 0 b'S' b'S' b'N' b'D' && leb 16 avail
    then ssnd_chunk have_format from_file used s bytes avail pos len
    else if is_tag bytes 0 b'C' b'O' b'M' b'M' && leb 26 avail
    then comm_chunk aifc s bytes avail len
    else next have_format s (chunk_advance len)
