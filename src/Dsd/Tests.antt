-- ===== src/Dsd/Tests.antt =====
-- dsd.c on small buffers: a DSDIFF header, frames that are packed, and blocks of a DSF file.
use apple_squeezer.Prelude.{
  ℕ, zero, suc, ◌+◌, ◌-◌, ◌^◌, ◌≤◌, ◌<◌, ◌≡◌, refl, inl, inr, true, false, List, [], ◌∷◌, ◌++◌,
  length, drop, get_or, replicate, some, none, ◌⊎◌, arith,
}
use apple_squeezer.Buffer.{Buffer, used, space, cont_read, cont_write, inc_readp, inc_writep}
use apple_squeezer.Buffer.Memory.{blit}
use apple_squeezer.Buffer.Inv.{IsValid}
use apple_squeezer.Buffer.Aligned.{IsAligned}
use apple_squeezer.Buffer.Queue.{contents}
use apple_squeezer.Pcm.Decode.{running, complete}
use apple_squeezer.Output.{Output, stopped, inactive, undirected, fade_none}
use apple_squeezer.Dsd.Decode.{Settings, DsdPlayer, format_number, start_track}
use apple_squeezer.Dsd.Header.Reads.{IsGiven}
use apple_squeezer.Dsd.Decode.{decode_header}
use apple_squeezer.Dsd.NewStream.{IsStarted, decode_header-IsStarted}
use apple_squeezer.Dsd.Header.Written.{dsdiff_header}
use apple_squeezer.Dsd.Start.{start_track-Plays}
use apple_squeezer.Dsd.{Dsd, pcm, dop, DsdType, unknown, dsf, dsdiff, valid_stream_format}
use apple_squeezer.Dsd.Pack.{words, halves, dop_halves, word, strided, pack_dsdiff}
use apple_squeezer.Dsd.Pack.Bytes.{payload, payload-word}
use apple_squeezer.Dsd.Diff.{DsdDecoder, decode_dsdiff}
use apple_squeezer.Dsd.Diff.Source.{padded}
use apple_squeezer.Dsd.Diff.Laws.{taken, written, decode_dsdiff_lem}
use apple_squeezer.Dsd.Diff.Limit.{decode_dsdiff_stalls}
use apple_squeezer.Dsd.Dsf.Laws.{round_dsf_lem}
use apple_squeezer.Dsd.Dsf.{
  left_of, zero_padding, goes_on, round_dsf, pack_dsf, spins, overruns, returns, dsf_loop,
  decode_dsf,
}
use apple_squeezer.Dsd.Dsf.Ends.{Ended, decode_dsf-Ended}
use apple_squeezer.Dsd.Dsf.Spin.{dsf_loop-spins}

abbrev stereo : DsdType → ℕ → ℕ → Dsd
stereo type block left = record {
  type = type;
  consume = 0;
  sample_rate = 2822400;
  channels = 2;
  sample_bytes = left;
  block_size = block;
  lsb_first = false;
  is_ready = true;
}

-- A filter that takes the bytes as they are.
abbrev as_bytes : ℕ → List ℕ → List ℕ × ℕ
as_bytes f xs = (xs, f + length xs)

as_bytes-length : (f : ℕ) (xs : List ℕ) → length ((as_bytes f xs).0) ≡ length xs
as_bytes-length f xs = refl

-- Holds 3 4 5 6 7 8 1 2: the last frame of 4 bytes goes round the end.
abbrev wrapped : Buffer
wrapped = record {
  allocated = true;
  mem = 1 ∷ 2 ∷ 0 ∷ 0 ∷ 3 ∷ 4 ∷ 5 ∷ 6 ∷ 7 ∷ 8 ∷ [];
  readp = 4;
  writep = 2;
  wrap = 10;
  size = 10;
  base_size = 10;
}

abbrev roomy : ℕ → Buffer
roomy n = record {
  allocated = true;
  mem = replicate 48 0;
  readp = 0;
  writep = n;
  wrap = 48;
  size = 48;
  base_size = 48;
}

abbrev of : Dsd → DsdDecoder ℕ
of d = record {
  dsd = d;
  filters = record { left = 0; right = 0 };
  streambuf = wrapped;
  outputbuf = roomy 0;
}

wrapped-IsValid : IsValid wrapped
wrapped-IsValid = ground arith

roomy-IsValid : IsValid (roomy 0)
roomy-IsValid = ground arith

roomy-IsAligned : IsAligned (roomy 0)
roomy-IsAligned = ground arith

one_frame :
    contents (decode_dsdiff as_bytes (some halves) (of (stereo dsdiff 0 8))).1.outputbuf
    ≡ 0 ∷ 0 ∷ 5 ∷ 3 ∷ 0 ∷ 0 ∷ 6 ∷ 4 ∷ []
unfolding decode_dsdiff used space cont_read cont_write inc_readp inc_writep blit
one_frame = refl

decode_dsdiff_lem_example :
    let d = of (stereo dsdiff 0 8) in
    let d' = (decode_dsdiff as_bytes (some halves) d).1 in
    let n = taken (some halves) d in
    let out =
      pack_dsdiff as_bytes
        (some halves)
        2
        (written (some halves) d)
        (padded n (contents wrapped))
        d.filters in
    ((decode_dsdiff as_bytes (some halves) d).0 ≡ running)
    × (contents d'.streambuf ≡ drop n (contents wrapped))
    × (contents d'.outputbuf ≡ contents (roomy 0) ++ out.0)
    × (d'.filters ≡ out.1)
    × (d'.dsd.sample_bytes ≡ 8 - n)
    × IsValid d'.streambuf
    × IsValid d'.outputbuf
unfolding space used cont_write
decode_dsdiff_lem_example =
    decode_dsdiff_lem as_bytes as_bytes-length (some halves) (of (stereo dsdiff 0 8))
      wrapped-IsValid roomy-IsValid (inr refl) (omega arith)

decode_dsdiff_stalls_example :
    decode_dsdiff as_bytes (some halves) (of (stereo dsdiff 0 2))
    ≡ (running, of (stereo dsdiff 0 2))
unfolding used cont_read
decode_dsdiff_stalls_example =
    decode_dsdiff_stalls as_bytes halves (of (stereo dsdiff 0 2)) wrapped-IsValid roomy-IsValid
      (omega arith) (omega arith) (omega arith) (omega arith)

-- Two bytes of a channel, among those of the other.
abbrev four_bytes : List ℕ
four_bytes = 0x69 ∷ 1 ∷ 0x96 ∷ 2 ∷ []

four_bytes_small : (k : ℕ) → get_or four_bytes k 0 < 2 ^ 8
four_bytes_small zero = omega arith
four_bytes_small (suc zero) = omega arith
four_bytes_small (suc (suc zero)) = omega arith
four_bytes_small (suc (suc (suc zero))) = omega arith
four_bytes_small (suc (suc (suc (suc k)))) = omega arith

payload-word_example :
    (payload dop_halves (word dop_halves 2 four_bytes) ≡ 0x69 ∷ 0x96 ∷ [])
    × word dop_halves 2 four_bytes < 2 ^ 32
unfolding strided
payload-word_example = payload-word dop_halves 2 four_bytes four_bytes_small

-- Blocks of 4 bytes: the left one 3 4 5 6, the right one 7 8 1 2.
abbrev blocks : DsdDecoder ℕ
blocks = of (stereo dsf 4 4)

blocks_decoded :
    decode_dsf (λ b. b) (λ lsb. as_bytes) (some halves) blocks
    ≡ returns running (record blocks {
      dsd = stereo dsf 4 0;
      streambuf = record wrapped { readp = 2 };
      outputbuf = record (roomy 16) {
        mem = 0 ∷ 0 ∷ 4 ∷ 3 ∷ 0 ∷ 0 ∷ 8 ∷ 7 ∷ 0 ∷ 0 ∷ 6 ∷ 5 ∷ 0 ∷ 0 ∷ 2 ∷ 1 ∷ replicate 32 0;
      };
    })
unfolding decode_dsf used space cont_read cont_write inc_readp inc_writep blit
blocks_decoded = refl

-- With words of 4 bytes the 2 bytes before the end of the storage end the track.
blocks_cut : decode_dsf (λ b. b) (λ lsb. as_bytes) (some words) blocks ≡ returns complete blocks
unfolding decode_dsf used space cont_write
blocks_cut = refl

-- With one byte of the track left, words of 4 bytes and 2 bytes before the end of the storage, the
-- silence is stored behind that end.
abbrev last_byte : DsdDecoder ℕ
last_byte = record blocks { dsd = stereo dsf 4 1 }

silence_overrun : decode_dsf (λ b. b) (λ lsb. as_bytes) (some words) last_byte ≡ overruns last_byte
unfolding decode_dsf used space cont_write
silence_overrun = refl

decode_dsf-Ended_example :
    Ended 2 4 2 8 (decode_dsf (λ b. b) (λ lsb. as_bytes) (some halves) blocks)
unfolding valid_stream_format used space
decode_dsf-Ended_example =
    decode_dsf-Ended (λ b. b) (λ lsb. as_bytes) (some halves) blocks wrapped-IsValid roomy-IsValid
      roomy-IsAligned refl refl (omega arith) (inl refl)

abbrev full : Buffer
full = record {
  allocated = true;
  mem = replicate 48 0;
  readp = 0;
  writep = 47;
  wrap = 48;
  size = 48;
  base_size = 48;
}

full-IsValid : IsValid full
full-IsValid = ground arith

abbrev stuck : DsdDecoder ℕ
stuck = record blocks { outputbuf = full }

dsf_loop-spins_example : dsf_loop (λ b. b) (λ lsb. as_bytes) 1000 (some halves) 4 0 stuck ≡ spins
unfolding used space cont_write
dsf_loop-spins_example =
    dsf_loop-spins (λ b. b) (λ lsb. as_bytes) 1000 halves 4 0 stuck wrapped-IsValid full-IsValid
      refl refl (omega arith) (omega arith) (omega arith) (omega arith)

abbrev idle : Output
idle = record {
  state = stopped;
  channels = 0;
  track_started = false;
  start_frames = 0;
  frames_played = 0;
  current_sample_rate = 44100;
  default_sample_rate = 44100;
  error_opening = false;
  track_start_time = 0;
  current_replay_gain = 0;
  waiting = 0;
  next_sample_rate = 0;
  track_start = none;
  gain_l = 65536;
  gain_r = 65536;
  invert = false;
  next_replay_gain = 0;
  threshold = 0;
  fade = inactive;
  fade_start = 0;
  fade_end = 0;
  fade_dir = undirected;
  fade_mode = fade_none;
  fade_secs = 0;
  rate_delay = 0;
  delay_active = false;
  stop_time = 0;
  outfmt = 0;
  next_fmt = 0;
  dsd_delay = 0;
}

abbrev settings : Settings
settings = record { dsdfmt = dop; highest_rate = 192000; storage = none }

abbrev new_track : DsdPlayer ℕ
new_track = record { new_stream = true; outfmt = pcm; output = idle; decoder = blocks }

start_track-Plays_example :
    let q = start_track settings new_track in
    (q.new_stream ≡ false)
    × (q.output.next_fmt ≡ format_number q.outfmt)
    × (((q.outfmt ≡ pcm) × ((dop ≡ pcm) ⊎ (192000 < 176400)))
        ⊎ ((q.outfmt ≡ dop)
            × (q.output.next_sample_rate ≤ 192000)
            × (q.output.fade ≡ inactive)
            × (q.decoder.outputbuf ≡ roomy 0)))
start_track-Plays_example = start_track-Plays settings new_track

round_dsf_lem_example :
    let held = contents wrapped in
    let packed =
      pack_dsf
        (λ b. b)
        (λ lsb. as_bytes)
        (some halves)
        blocks.dsd
        1
        held
        (drop 4 held)
        blocks.filters in
    (d : DsdDecoder ℕ) × (round_dsf (λ b. b) (λ lsb. as_bytes) (some halves) 4 0 blocks
      ≡ goes_on 2 0 d)
    × (contents d.streambuf ≡ drop 2 held)
    × (contents d.outputbuf ≡ contents (roomy 0) ++ packed.0)
    × (d.filters ≡ packed.1)
    × (d.dsd.sample_bytes ≡ 2)
    × (2 ≤ 4)
unfolding used space cont_write
round_dsf_lem_example =
    round_dsf_lem (λ b. b) (λ lsb. as_bytes) (λ lsb. as_bytes-length) (some halves) 4 0 blocks
      wrapped-IsValid roomy-IsValid (omega arith) refl

-- Two blocks of zeros, after a part of the left one was read.
abbrev quiet : Buffer
quiet = record {
  allocated = true;
  mem = replicate 10 0;
  readp = 0;
  writep = 8;
  wrap = 10;
  size = 10;
  base_size = 10;
}

-- The padding that is found then is more than the 2 bytes that are left of the block.
padding_underflow : left_of (stereo dsf 4 100) quiet 0 2 ≡ 2 ^ 32 - 1
unfolding used zero_padding
padding_underflow = refl

-- A file of two channels with its first bytes of audio.
abbrev loaded : Buffer
loaded = record {
  allocated = true;
  mem = dsdiff_header true 2822400 (b'D' ∷ b'S' ∷ b'D' ∷ []) 8 ++ (1 ∷ 2 ∷ 3 ∷ 4 ∷ 0 ∷ []);
  readp = 0;
  writep = 122;
  wrap = 123;
  size = 123;
  base_size = 123;
}

loaded-IsValid : IsValid loaded
loaded-IsValid = ground arith

abbrev new_file : DsdPlayer ℕ
new_file = record new_track {
  decoder = record (of (record (stereo unknown 0 0) { sample_rate = 0; channels = 0 })) {
    streambuf = loaded;
  };
}

decode_header-IsStarted_example : IsGiven (IsStarted loaded) (decode_header settings new_file)
decode_header-IsStarted_example = decode_header-IsStarted settings new_file refl loaded-IsValid
