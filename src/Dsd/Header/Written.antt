-- ===== src/Dsd/Header/Written.antt =====
-- The chunks of a DSDIFF file as they are written, and `_read_header` on each.
use apple_squeezer.Prelude.{
  ℕ, suc, ◌+◌, ◌-◌, ◌*◌, ◌/◌, ◌^◌, ◌≤◌, ◌<◌, ◌≡◌, refl, ap, ◌∙◌, Bool, true, List, [], ◌∷◌,
  replicate, length-append, length-replicate, ◌||◌, false, ◌==◌, append_assoc, sym, ◌%◌, ◌++◌,
  length, drop, some, ltb, leb, or-zero, u8, arith,
}
use apple_squeezer.Network.{read_u16, read_u32, unpack_u16, unpack_u32}
use apple_squeezer.Network.Laws.{unpack_u32_sum}
use apple_squeezer.Dsd.{Dsd, dsdiff, is_dsf, valid_stream_format}
use apple_squeezer.Dsd.Header.{
  read_u64_be, tag, read_tag, audio, passes, dsdiff_fields, dsdiff_chunk, chunk_of, step, found,
  header_chunks, whole_dsdiff,
}

-- A number of 32 bits, its highest byte first.
abbrev pub be32 : ℕ → List ℕ
be32 v = u8 (v / 2 ^ 24) ∷ u8 (v / 2 ^ 16) ∷ u8 (v / 2 ^ 8) ∷ u8 v ∷ []

-- An id with a length below 2 ^ 32.
abbrev pub chunk_head : ℕ → ℕ → ℕ → ℕ → ℕ → List ℕ
chunk_head a b c d v = a ∷ b ∷ c ∷ d ∷ 0 ∷ 0 ∷ 0 ∷ 0 ∷ be32 v

-- "CHNL" with the ids "SLFT" and "SRGT", or "C   ".
abbrev pub channel_chunk : Bool → List ℕ
channel_chunk false = chunk_head b'C' b'H' b'N' b'L' 6 ++ (0 ∷ 1 ∷ b'C' ∷ b' ' ∷ b' ' ∷ b' ' ∷ [])
channel_chunk true =
    chunk_head b'C' b'H' b'N' b'L' 10
    ++ (0 ∷ 2 ∷ b'S' ∷ b'L' ∷ b'F' ∷ b'T' ∷ b'S' ∷ b'R' ∷ b'G' ∷ b'T' ∷ [])

abbrev pub channels_of : Bool → ℕ
channels_of false = 1
channels_of true = 2

-- A byte of padding behind an odd length.
abbrev pub pad : ℕ → List ℕ
pad n = replicate (n % 2) 0

-- "CMPR" for audio that is not compressed, with the name that is shown for that.
abbrev pub compression_chunk : List ℕ → List ℕ
compression_chunk name =
    chunk_head b'C' b'M' b'P' b'R' (5 + length name)
    ++ (b'D' ∷ b'S' ∷ b'D' ∷ b' ' ∷ u8 (length name) ∷ (name ++ pad (5 + length name)))

-- The length of "PROP".
abbrev pub prop_length : Bool → List ℕ → ℕ
prop_length is_stereo name =
    34 + 4 * channels_of is_stereo + (12 + (5 + length name) + (5 + length name) % 2)

-- The header of a file with `len` bytes of audio, in one channel or in two: "FRM8", "FVER" with the
-- version 1.5, and "PROP" with the sample rate, the channels and the compression, up to "DSD ".
abbrev pub dsdiff_header : Bool → ℕ → List ℕ → ℕ → List ℕ
dsdiff_header is_stereo rate name len =
    chunk_head b'F' b'R' b'M' b'8' (44 + prop_length is_stereo name + len)
    ++ (b'D'
        ∷ b'S'
        ∷ b'D'
        ∷ b' '
        ∷ (chunk_head b'F' b'V' b'E' b'R' 4
            ++ (1
                ∷ 5
                ∷ 0
                ∷ 0
                ∷ (chunk_head b'P' b'R' b'O' b'P' (prop_length is_stereo name)
                    ++ (b'S'
                        ∷ b'N'
                        ∷ b'D'
                        ∷ b' '
                        ∷ (chunk_head b'F' b'S' b' ' b' ' 4
                            ++ (be32 rate
                                ++ (channel_chunk is_stereo
                                    ++ (compression_chunk name
                                        ++ chunk_head b'D' b'S' b'D' b' ' len)))))))))

pub few_channels : (is_stereo : Bool) → 4 * channels_of is_stereo ≤ 8
few_channels false = omega arith
few_channels true = omega arith

pub unpack_u32-be32 :
    (v : ℕ)
    → v < 2 ^ 32
    → unpack_u32 (u8 (v / 2 ^ 24)) (u8 (v / 2 ^ 16)) (u8 (v / 2 ^ 8)) (u8 v) ≡ v
unpack_u32-be32 v h =
    unpack_u32_sum (u8 (v / 2 ^ 24)) (u8 (v / 2 ^ 16)) (u8 (v / 2 ^ 8)) (u8 v) (omega arith)
      (omega arith) (omega arith)
    ∙ omega arith

-- A round that passes over a chunk, and one that finds the audio.
pass_round :
    (fuel size : ℕ) (bytes : List ℕ) (consumed k : ℕ) (d d' : Dsd)
    → 16 ≤ length bytes
    → k ≤ length bytes
    → chunk_of d.type size bytes d ≡ some (passes k d')
    → header_chunks (suc fuel) size bytes consumed d
      ≡ header_chunks fuel size (drop k bytes) (consumed + k) d'
unfolding header_chunks step
pass_round fuel size bytes consumed k d d' h l e =
    let long : ltb (length bytes) 16 ≡ false = ground (arith, h) in
    let whole : leb k (length bytes) ≡ true = ground (arith, l) in rw (long, e, whole) refl

found_round :
    (fuel size : ℕ) (bytes : List ℕ) (consumed : ℕ) (d d' : Dsd)
    → 16 ≤ length bytes
    → chunk_of d.type size bytes d ≡ some (audio d')
    → header_chunks (suc fuel) size bytes consumed d ≡ some (found d' (consumed + 12))
unfolding header_chunks step
found_round fuel size bytes consumed d d' h e =
    let long : ltb (length bytes) 16 ≡ false = ground (arith, h) in rw (long, e) refl

-- A chunk of DSDIFF with a length that is not too large.
chunk_of_dsdiff :
    (size i j k l v a b c e : ℕ) (rest : List ℕ) (d : Dsd)
    → v ≤ 2 ^ 32 - 1 - 12
    → chunk_of dsdiff size (chunk_head i j k l v ++ (a ∷ b ∷ c ∷ e ∷ rest)) d
      ≡ some
          (dsdiff_fields size (tag i j k l) v (tag a b c e) (unpack_u32 a b c e) (unpack_u16 a b) d)
unfolding chunk_of read_u64_be read_u32 read_u16 read_tag dsdiff_chunk unpack_u32
chunk_of_dsdiff size i j k l v a b c e rest d h =
    let small : ltb (2 ^ 32 - 1 - 12) v ≡ false = ground (arith, h) in
    rw (unpack_u32-be32 v (omega (arith, h)), or-zero v, small) refl

pub fields_form :
    (size v rate channels : ℕ) (d : Dsd)
    → dsdiff_fields size (tag b'F' b'R' b'M' b'8') v (tag b'D' b'S' b'D' b' ') rate channels d
      ≡ passes 16 d
unfolding dsdiff_fields
fields_form size v rate channels d = refl

pub fields_prop :
    (size v rate channels : ℕ) (d : Dsd)
    → dsdiff_fields size (tag b'P' b'R' b'O' b'P') v (tag b'S' b'N' b'D' b' ') rate channels d
      ≡ passes 16 d
unfolding dsdiff_fields
fields_prop size v rate channels d = refl

pub fields_version :
    (size form rate channels : ℕ) (d : Dsd)
    → dsdiff_fields size (tag b'F' b'V' b'E' b'R') 4 form rate channels d ≡ passes 16 d
unfolding dsdiff_fields
fields_version size form rate channels d = refl

fields_compression :
    (size v form rate channels : ℕ) (d : Dsd)
    → v < 2 ^ 31
    → dsdiff_fields size (tag b'C' b'M' b'P' b'R') v form rate channels d
      ≡ passes (whole_dsdiff v) d
unfolding dsdiff_fields
fields_compression size v form rate channels d h =
    let some_bytes : (whole_dsdiff v == 0 || ltb (2 ^ 32 - 1) (whole_dsdiff v)) ≡ false =
      ground (arith, h) in
    rw some_bytes refl

pub fields_rate :
    (size form rate channels : ℕ) (d : Dsd)
    → dsdiff_fields size (tag b'F' b'S' b' ' b' ') 4 form rate channels d
      ≡ passes 16 (record d { sample_rate = rate })
unfolding dsdiff_fields
fields_rate size form rate channels d = refl

fields_channels :
    (size form rate : ℕ) (is_stereo : Bool) (d : Dsd)
    → dsdiff_fields size
        (tag b'C' b'H' b'N' b'L')
        (2 + 4 * channels_of is_stereo)
        form
        rate
        (channels_of is_stereo)
        d
      ≡ passes (14 + 4 * channels_of is_stereo) (record d { channels = channels_of is_stereo })
unfolding dsdiff_fields
fields_channels size form rate false d = refl
fields_channels size form rate true d = refl

fields_audio :
    (size v form rate channels : ℕ) (is_stereo : Bool) (d : Dsd)
    → d.type ≡ dsdiff
    → d.channels ≡ channels_of is_stereo
    → 0 < d.sample_rate
    → dsdiff_fields size (tag b'D' b'S' b'D' b' ') v form rate channels d
      ≡ audio (record d { sample_bytes = v })
unfolding dsdiff_fields valid_stream_format
fields_audio size v form rate channels false d t c r =
    let not_dsf : is_dsf d.type ≡ false = ap is_dsf t in
    let valid : valid_stream_format size d ≡ true = ground (arith, not_dsf, c, r) in rw valid refl
fields_audio size v form rate channels true d t c r =
    let not_dsf : is_dsf d.type ≡ false = ap is_dsf t in
    let valid : valid_stream_format size d ≡ true = ground (arith, not_dsf, c, r) in rw valid refl

-- The same with the chunk written out.
pub pass_chunk :
    (fuel size i j k l v a b c e : ℕ) (rest : List ℕ) (consumed n : ℕ) (d d' : Dsd)
    → d.type ≡ dsdiff
    → v ≤ 2 ^ 32 - 1 - 12
    → n ≤ 16 + length rest
    → dsdiff_fields size (tag i j k l) v (tag a b c e) (unpack_u32 a b c e) (unpack_u16 a b) d
      ≡ passes n d'
    → let bytes = chunk_head i j k l v ++ (a ∷ b ∷ c ∷ e ∷ rest) in
      header_chunks (suc fuel) size bytes consumed d
      ≡ header_chunks fuel size (drop n bytes) (consumed + n) d'
pass_chunk fuel size i j k l v a b c e rest consumed n d d' t h m f =
    let bytes = chunk_head i j k l v ++ (a ∷ b ∷ c ∷ e ∷ rest) in
    pass_round fuel size bytes consumed n d d' (omega arith) (omega (arith, m)) (
      ap (λ ty. chunk_of ty size bytes d) t
      ∙ chunk_of_dsdiff size i j k l v a b c e rest d h
      ∙ ap some f)

found_chunk :
    (fuel size v a b c e : ℕ) (rest : List ℕ) (consumed : ℕ) (is_stereo : Bool) (d : Dsd)
    → d.type ≡ dsdiff
    → d.channels ≡ channels_of is_stereo
    → 0 < d.sample_rate
    → v ≤ 2 ^ 32 - 1 - 12
    → header_chunks
        (suc fuel)
        size
        (chunk_head b'D' b'S' b'D' b' ' v ++ (a ∷ b ∷ c ∷ e ∷ rest))
        consumed
        d
      ≡ some (found (record d { sample_bytes = v }) (consumed + 12))
found_chunk fuel size v a b c e rest consumed is_stereo d t g r h =
    let bytes = chunk_head b'D' b'S' b'D' b' ' v ++ (a ∷ b ∷ c ∷ e ∷ rest) in
    found_round fuel size bytes consumed d (record d { sample_bytes = v }) (omega arith)
      (ap (λ ty. chunk_of ty size bytes d) t
        ∙ chunk_of_dsdiff size b'D' b'S' b'D' b' ' v a b c e rest d h
        ∙ ap some (fields_audio size v _ _ _ is_stereo d t g r))

-- The channels.
pub read_channels :
    (is_stereo : Bool) (fuel size : ℕ) (behind : List ℕ) (d : Dsd)
    → d.type ≡ dsdiff
    → header_chunks (suc fuel) size (channel_chunk is_stereo ++ behind) 64 d
      ≡ header_chunks fuel size behind
          (78 + 4 * channels_of is_stereo)
          (record d { channels = channels_of is_stereo })
unfolding unpack_u16
read_channels false fuel size behind d t =
    pass_chunk fuel size b'C' b'H' b'N' b'L' 6 0 1 b'C' b' ' _ 64 18 d (record d { channels = 1 }) t
      (omega arith) (omega arith) (fields_channels size _ _ false d)
read_channels true fuel size behind d t =
    pass_chunk fuel size b'C' b'H' b'N' b'L' 10 0 2 b'S' b'L' _ 64 22 d (record d { channels = 2 })
      t (omega arith) (omega arith) (fields_channels size _ _ true d)

drop-append : (n : ℕ) (xs ys : List ℕ) → n ≡ length xs → drop n (xs ++ ys) ≡ ys
drop-append n [] ys e = rw e refl
drop-append n (x ∷ xs) ys e =
    ap (λ k. drop k (x ∷ (xs ++ ys))) e ∙ drop-append (length xs) xs ys refl

pub length-compression_chunk :
    (name : List ℕ)
    → length name < 256
    → length (compression_chunk name) ≡ whole_dsdiff (5 + length name)
length-compression_chunk name h =
    let m = length-append name (pad (5 + length name)) in
    let p = length-replicate {A = ℕ} ((5 + length name) % 2) 0 in omega (arith, m, p, h)

-- The compression, and the start of the audio.
pub read_ending :
    (is_stereo : Bool) (name : List ℕ) (fuel size len a b c e consumed : ℕ) (rest : List ℕ)
    (d : Dsd)
    → d.type ≡ dsdiff
    → d.channels ≡ channels_of is_stereo
    → 0 < d.sample_rate
    → length name < 256
    → len ≤ 2 ^ 32 - 1 - 12
    → header_chunks
        (suc (suc fuel))
        size
        ((compression_chunk name ++ chunk_head b'D' b'S' b'D' b' ' len) ++ (a ∷ b ∷ c ∷ e ∷ rest))
        consumed
        d
      ≡ some (
          found (record d { sample_bytes = len }) (consumed + length (compression_chunk name) + 12))
read_ending is_stereo name fuel size len a b c e consumed rest d t g r small h =
    let head = chunk_head b'D' b'S' b'D' b' ' len in
    let audio_on = head ++ (a ∷ b ∷ c ∷ e ∷ rest) in
    let v = 5 + length name in
    let n = length-compression_chunk name small in
    let named = name ++ pad v in
    let long = length-append named audio_on in
    let several = length-append name (pad v) in
    let odd = length-replicate {A = ℕ} (v % 2) 0 in
    ap (λ bytes. header_chunks (suc (suc fuel)) size bytes consumed d)
      (append_assoc (compression_chunk name) head (a ∷ b ∷ c ∷ e ∷ rest))
    ∙ pass_chunk (suc fuel) size b'C' b'M' b'P' b'R' v b'D' b'S' b'D' b' '
        (u8 (length name) ∷ (named ++ audio_on)) consumed (whole_dsdiff v) d d t
        (omega (arith, small)) (omega (arith, long, several, odd, small))
        (fields_compression size v _ _ _ d (omega (arith, small)))
    ∙ ap (λ bytes. header_chunks (suc fuel) size bytes (consumed + whole_dsdiff v) d)
        (drop-append (whole_dsdiff v) (compression_chunk name) audio_on (sym n))
    ∙ found_chunk fuel size len a b c e rest (consumed + whole_dsdiff v) is_stereo d t g r h
    ∙ ap (λ k. some (found (record d { sample_bytes = len }) (consumed + k + 12))) (sym n)
