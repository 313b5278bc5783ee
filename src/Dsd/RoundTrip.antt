-- ===== src/Dsd/RoundTrip.antt =====
-- dsd.c: `_read_header` on the header of a DSDIFF file.
use apple_squeezer.Prelude.{
  ℕ, suc, ◌+◌, ◌-◌, ◌*◌, ◌/◌, ◌^◌, ◌≤◌, ◌<◌, ◌≡◌, refl, ap, ◌∙◌, Bool, true, false, List, ◌∷◌, ◌++◌,
  length, length-append, drop, some, leb, u8, arith,
}
use apple_squeezer.Network.{◌>>=◌}
use apple_squeezer.Dsd.{Dsd, unknown, dsdiff, is_unknown}
use apple_squeezer.Dsd.Header.{
  read_tag, passes, found, header_chunks, kind, of_kind, read_dsd_header,
}
use apple_squeezer.Dsd.Header.Written.{
  be32, chunk_head, channel_chunk, channels_of, dsdiff_header, few_channels, unpack_u32-be32,
  compression_chunk, prop_length, fields_version, read_ending, pass_chunk, fields_form, fields_prop,
  fields_rate, read_channels,
}

-- The rounds over the chunks up to the sample rate.
read_rounds :
    (is_stereo : Bool) (name : List ℕ) (fuel size rate len : ℕ) (behind : List ℕ) (d : Dsd)
    → d.type ≡ dsdiff
    → rate < 2 ^ 32
    → length name < 256
    → len + 400 < 2 ^ 32
    → header_chunks
        (suc (suc (suc (suc fuel))))
        size
        (chunk_head b'F' b'R' b'M' b'8' (44 + prop_length is_stereo name + len)
          ++ (b'D'
              ∷ b'S'
              ∷ b'D'
              ∷ b' '
              ∷ (chunk_head b'F' b'V' b'E' b'R' 4
                  ++ (1
                      ∷ 5
                      ∷ 0
                      ∷ 0
                      ∷ (chunk_head b'P' b'R' b'O' b'P' (prop_length is_stereo name)
                          ++ (b'S'
                              ∷ b'N'
                              ∷ b'D'
                              ∷ b' '
                              ∷ (chunk_head b'F' b'S' b' ' b' ' 4 ++ (be32 rate ++ behind))))))))
        0
        d
      ≡ header_chunks fuel size behind 64 (record d { sample_rate = rate })
read_rounds is_stereo name fuel size rate len behind d t r small h =
    let few : 4 * channels_of is_stereo ≤ 8 = few_channels is_stereo in
    pass_chunk (suc (suc (suc fuel))) size b'F' b'R' b'M' b'8'
      (44 + prop_length is_stereo name + len) b'D' b'S' b'D' b' ' _ 0 16 d d t
      (omega (arith, few, h, small)) (omega arith) (fields_form size _ _ _ d)
    ∙ pass_chunk (suc (suc fuel)) size b'F' b'V' b'E' b'R' 4 1 5 0 0 _ 16 16 d d t (omega arith)
        (omega arith) (fields_version size _ _ _ d)
    ∙ pass_chunk (suc fuel) size b'P' b'R' b'O' b'P' (prop_length is_stereo name) b'S' b'N' b'D'
        b' ' _ 32 16 d d t (omega (arith, few, small)) (omega arith) (fields_prop size _ _ _ d)
    ∙ pass_chunk fuel size b'F' b'S' b' ' b' ' 4 (u8 (rate / 2 ^ 24)) (u8 (rate / 2 ^ 16))
        (u8 (rate / 2 ^ 8)) (u8 rate) behind 48 16 d (record d { sample_rate = rate }) t
        (omega arith) (omega arith)
        (fields_rate size _ _ _ d
          ∙ ap (λ x. passes 16 (record d { sample_rate = x })) (unpack_u32-be32 rate r))

kind_dsdiff :
    (xs : List ℕ) (d : Dsd)
    → d.type ≡ unknown
    → kind (b'F' ∷ b'R' ∷ b'M' ∷ b'8' ∷ xs) d ≡ some (some (record d { type = dsdiff }))
unfolding kind read_tag
kind_dsdiff xs d t =
    let new : is_unknown d.type ≡ true = ap is_unknown t in
    let long : leb 4 (length (b'F' ∷ b'R' ∷ b'M' ∷ b'8' ∷ xs)) ≡ true = ground arith in
    rw (new, long) refl

-- The rounds are enough for the seven chunks.
enough : (n : ℕ) → 6 ≤ n → n + 1 ≡ suc (suc (suc (suc (suc (suc (suc (n - 6)))))))
enough n h = omega (arith, h)

-- `_read_header` on the header of a DSDIFF file, with its version and with a name of the compression
-- of up to 255 bytes, of an even or an odd length, and four bytes of audio at least: it passes over
-- these two chunks, the padding included, finds the sample rate, the channels and the length that the
-- header was written with, and takes just the header off streambuf. The type is not known before,
-- the rate is not 0, and the file is 400 bytes shorter than 2 ^ 32 at least.
pub read_dsd_header-dsdiff_header :
    (is_stereo : Bool) (size rate : ℕ) (name : List ℕ) (len a b c e : ℕ) (rest : List ℕ) (d : Dsd)
    → d.type ≡ unknown
    → 0 < rate
    → rate < 2 ^ 32
    → length name < 256
    → len + 400 < 2 ^ 32
    → read_dsd_header size (dsdiff_header is_stereo rate name len ++ (a ∷ b ∷ c ∷ e ∷ rest)) d
      ≡ some (
          found
            (record d {
              type = dsdiff;
              sample_rate = rate;
              channels = channels_of is_stereo;
              sample_bytes = len;
            })
            (length (dsdiff_header is_stereo rate name len)))
unfolding read_dsd_header of_kind
read_dsd_header-dsdiff_header false size rate name len a b c e rest d t r r' small h =
    let header = dsdiff_header false rate name len in
    let bytes = header ++ (a ∷ b ∷ c ∷ e ∷ rest) in
    let d' : Dsd = record d { type = dsdiff } in
    let d'' : Dsd = record d' { sample_rate = rate; channels = channels_of false } in
    let n = length bytes in
    let fuel = enough n (omega arith) in
    let ending =
      (compression_chunk name ++ chunk_head b'D' b'S' b'D' b' ' len) ++ (a ∷ b ∷ c ∷ e ∷ rest) in
    let long = length-append (compression_chunk name) (chunk_head b'D' b'S' b'D' b' ' len) in
    ap (λ k. k >>= of_kind size bytes d) (kind_dsdiff (drop 4 bytes) d t)
    ∙ ap (λ f. header_chunks f size bytes 0 d') fuel
    ∙ read_rounds false name (suc (suc (suc (n - 6)))) size rate len (channel_chunk false ++ ending)
        d' refl r' small h
    ∙ read_channels false (suc (suc (n - 6))) size ending (record d' { sample_rate = rate }) refl
    ∙ read_ending false name (n - 6) size len a b c e (78 + 4 * channels_of false) rest d'' refl
        refl r small (omega (arith, h))
    ∙ ap (λ k. some (found (record d'' { sample_bytes = len }) k)) (omega (arith, long))
read_dsd_header-dsdiff_header true size rate name len a b c e rest d t r r' small h =
    let header = dsdiff_header true rate name len in
    let bytes = header ++ (a ∷ b ∷ c ∷ e ∷ rest) in
    let d' : Dsd = record d { type = dsdiff } in
    let d'' : Dsd = record d' { sample_rate = rate; channels = channels_of true } in
    let n = length bytes in
    let fuel = enough n (omega arith) in
    let ending =
      (compression_chunk name ++ chunk_head b'D' b'S' b'D' b' ' len) ++ (a ∷ b ∷ c ∷ e ∷ rest) in
    let long = length-append (compression_chunk name) (chunk_head b'D' b'S' b'D' b' ' len) in
    ap (λ k. k >>= of_kind size bytes d) (kind_dsdiff (drop 4 bytes) d t)
    ∙ ap (λ f. header_chunks f size bytes 0 d') fuel
    ∙ read_rounds true name (suc (suc (suc (n - 6)))) size rate len (channel_chunk true ++ ending)
        d' refl r' small h
    ∙ read_channels true (suc (suc (n - 6))) size ending (record d' { sample_rate = rate }) refl
    ∙ read_ending true name (n - 6) size len a b c e (78 + 4 * channels_of true) rest d'' refl refl
        r small (omega (arith, h))
    ∙ ap (λ k. some (found (record d'' { sample_bytes = len }) k)) (omega (arith, long))
