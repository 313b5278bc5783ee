-- ===== src/Pcm/Header/Wav.antt =====
-- `_check_header` on the usual header of a WAV file: it finds the format and the samples.
use apple_squeezer.Prelude.{
  ℕ, suc, ◌+◌, ◌*◌, ◌/◌, ◌%◌, ◌^◌, ◌≤◌, ◌<◌, ◌≡◌, ◌⊎◌, refl, ◌∙◌, Bool, true, false, ◌&&◌, ◌||◌,
  not, List, [], ◌∷◌, ◌++◌, drop, length, ltb, leb, ◌==◌, arith,
}
use apple_squeezer.Pcm.Convert.{join2, join4}
use apple_squeezer.Pcm.Convert.Laws.{join2_sum, join4_sum}
use apple_squeezer.Pcm.Chunks.{
  PcmState, HeaderFormat, wave, next, stop, data_chunk, fmt_chunk, chunk, chunk_advance, bad_bits,
  bad_channels, little16, little32,
}
use apple_squeezer.Pcm.Header.{checked, walk, check_header}

-- A number as two or four bytes, the lowest first.
abbrev pub bytes2 : ℕ → List ℕ
bytes2 n = n % 2 ^ 8 ∷ n / 2 ^ 8 ∷ []

abbrev pub bytes4 : ℕ → List ℕ
bytes4 n = n % 2 ^ 8 ∷ n / 2 ^ 8 % 2 ^ 8 ∷ n / 2 ^ 16 % 2 ^ 8 ∷ n / 2 ^ 24 ∷ []

-- The header of 44 bytes that stands before `len` bytes of samples.
abbrev pub wav_header : ℕ → ℕ → ℕ → ℕ → List ℕ
wav_header channels rate size len =
    (b'R' ∷ b'I' ∷ b'F' ∷ b'F' ∷ bytes4 (36 + len))
    ++ (b'W' ∷ b'A' ∷ b'V' ∷ b'E' ∷ b'f' ∷ b'm' ∷ b't' ∷ 32 ∷ bytes4 16)
    ++ bytes2 1
    ++ bytes2 channels
    ++ bytes4 rate
    ++ bytes4 (rate * channels * size)
    ++ bytes2 (channels * size)
    ++ bytes2 (size * 8)
    ++ (b'd' ∷ b'a' ∷ b't' ∷ b'a' ∷ bytes4 len)

join2_bytes : (n : ℕ) → n < 2 ^ 16 → join2 (n % 2 ^ 8) (n / 2 ^ 8) ≡ n
join2_bytes n h = join2_sum _ _ (omega arith) ∙ omega arith

join4_bytes :
    (n : ℕ)
    → n < 2 ^ 32
    → join4 (n % 2 ^ 8) (n / 2 ^ 8 % 2 ^ 8) (n / 2 ^ 16 % 2 ^ 8) (n / 2 ^ 24) ≡ n
join4_bytes n h = join4_sum _ _ _ _ (omega arith) (omega arith) (omega arith) ∙ omega arith

-- The state that the fields of a "fmt " chunk give.
abbrev formatted : PcmState → ℕ → ℕ → ℕ → PcmState
formatted s n rate size = record s {
  channels = n;
  sample_rate = rate;
  sample_size = size;
  bigendian = false;
  unsigned_8bit = size == 1;
  bytes_per_frame = n * size;
}

fmt_chunk-formatted :
    (s : PcmState) (bytes : List ℕ) (len n rate size : ℕ)
    → little16 bytes 8 ≡ 1
    → little16 bytes 10 ≡ n
    → little32 bytes 12 ≡ rate
    → little16 bytes 22 ≡ size * 8
    → n ≡ 1 ⊎ n ≡ 2
    → 1 ≤ rate
    → 1 ≤ size
    → size ≤ 4
    → fmt_chunk s bytes len ≡ next true (formatted s n rate size) (chunk_advance len)
unfolding fmt_chunk
fmt_chunk-formatted s bytes len n rate size a b c d hn hr h1 h4 =
    let whole : size * 8 / 8 ≡ size = omega arith in
    let eight : (size * 8 == 8) ≡ (size == 1) = ground arith in
    let good : (bad_channels n || rate == 0 || bad_bits (size * 8)) ≡ false = ground arith in
    rw (a, b, c, d, good, whole, eight) refl

module _ (format : HeaderFormat) (aifc from_file : Bool) (used : ℕ) where
  walk_next :
      (fuel : ℕ) (have_format have' : Bool) (s s' : PcmState) (bytes : List ℕ) (pos advance : ℕ)
      → 8 ≤ length bytes
      → chunk format aifc from_file used have_format s bytes (length bytes) pos
        ≡ next have' s' advance
      → 8 ≤ advance
      → advance ≤ length bytes
      → walk (suc fuel) format aifc from_file used have_format s bytes pos
        ≡ walk fuel format aifc from_file used have' s' (drop advance bytes) (pos + advance)
  unfolding walk
  walk_next fuel have_format have' s s' bytes pos advance h e l k =
      let long : ltb (length bytes) 8 ≡ false = ground arith in
      let fits : (leb 8 advance && leb advance (length bytes)) ≡ true = ground arith in
      rw (long, e, fits) refl

  walk_stop :
      (fuel : ℕ) (have_format returns : Bool) (s s' : PcmState) (bytes : List ℕ) (pos consumed : ℕ)
      → 8 ≤ length bytes
      → chunk format aifc from_file used have_format s bytes (length bytes) pos
        ≡ stop returns s' consumed
      → walk (suc fuel) format aifc from_file used have_format s bytes pos
        ≡ checked returns s' consumed
  unfolding walk
  walk_stop fuel have_format returns s s' bytes pos consumed h e =
      let long : ltb (length bytes) 8 ≡ false = ground arith in rw (long, e) refl

-- The chunks behind the first 12 bytes.
abbrev chunks : ℕ → ℕ → ℕ → ℕ → List ℕ → List ℕ
chunks n rate size len samples = drop 12 (wav_header n rate size len ++ samples)

fmt_found :
    (from_file : Bool) (used : ℕ) (s : PcmState) (n rate size len : ℕ) (samples : List ℕ)
    → n ≡ 1 ⊎ n ≡ 2
    → 1 ≤ rate
    → rate < 2 ^ 32
    → 1 ≤ size
    → size ≤ 4
    → chunk wave false from_file used false s
        (chunks n rate size len samples)
        (length (chunks n rate size len samples))
        12
      ≡ next true (formatted s n rate size) 24
unfolding chunk
fmt_found from_file used s n rate size len samples hn hr1 hr h1 h4 =
    let long : leb 24 (length (chunks n rate size len samples)) ≡ true = ground arith in
    rw long (
      fmt_chunk-formatted s (chunks n rate size len samples) 16 n rate size refl
        (join2_bytes n (omega (arith, hn))) (join4_bytes rate hr)
        (join2_bytes (size * 8) (omega arith)) hn hr1 h1 h4)

data_found :
    (from_file : Bool) (used : ℕ) (s : PcmState) (n rate size len : ℕ) (samples : List ℕ)
    (avail : ℕ)
    → len < 2 ^ 32
    → chunk wave false from_file used true s (drop 24 (chunks n rate size len samples)) avail 36
      ≡ stop true
          (record s { audio_left = len; limit = not (len == 0xFFFFFFFF || len == 0x7FFFEFFC) })
          44
unfolding chunk data_chunk
data_found from_file used s n rate size len samples avail hl = rw (join4_bytes len hl) refl

-- On a usual WAV header of one or two channels, samples of 1 to 4 bytes and a rate other than 0,
-- `_check_header` succeeds, moves the stream to the first sample and leaves just the format that
-- the header was written for; the length of the samples is a limit, but for the two
-- lengths that mean an unknown size.
pub check_header-wav_header :
    (from_file : Bool) (used : ℕ) (s : PcmState) (n rate size len : ℕ) (samples : List ℕ)
    → n ≡ 1 ⊎ n ≡ 2
    → 1 ≤ rate
    → rate < 2 ^ 32
    → 1 ≤ size
    → size ≤ 4
    → len < 2 ^ 32
    → check_header from_file used s (wav_header n rate size len ++ samples)
      ≡ checked true
          (record (formatted s n rate size) {
            audio_left = len;
            limit = not (len == 0xFFFFFFFF || len == 0x7FFFEFFC);
          })
          44
unfolding check_header
check_header-wav_header from_file used s n rate size len samples hn hr1 hr h1 h4 hl =
    let view = wav_header n rate size len ++ samples in
    let tail = chunks n rate size len samples in
    let long : leb 12 (length (wav_header n rate size len ++ samples)) ≡ true = ground arith in
    rw long (
      walk_next wave false from_file used (length (drop 1 view)) false true s
        (formatted s n rate size) tail 12 24 (omega arith)
        (fmt_found from_file used s n rate size len samples hn hr1 hr h1 h4) (omega arith)
        (omega arith)
      ∙ walk_stop wave false from_file used (length (drop 2 view)) true true
          (formatted s n rate size)
          (record (formatted s n rate size) {
            audio_left = len;
            limit = not (len == 0xFFFFFFFF || len == 0x7FFFEFFC);
          })
          (drop 24 tail) 36 44 (omega arith)
          (data_found from_file used (formatted s n rate size) n rate size len samples
            (length (drop 24 tail)) hl))
