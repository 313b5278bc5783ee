-- ===== src/Dsd/Decode.antt =====
-- dsd.c: `dsd_decode`, where the output buffer is written directly, `dsd_invert` and `dsd_silence_frames`.
use apple_squeezer.Prelude.{
  ℕ, zero, suc, ◌-◌, ◌/◌, ◌^◌, Bool, true, false, ◌&&◌, ◌||◌, not, List, [], ◌∷◌, take, drop,
  Option, none, some, min, ltb, ◌==◌, if◌then◌else◌,
}
use apple_squeezer.Buffer.{Buffer, used, inc_readp}
use apple_squeezer.Pcm.Decode.{DecodeState, running, complete, error, readable}
use apple_squeezer.Output.{
  Output, FadeMode, fade_none, crossfade, fade_in, fade_out, fade_inout, inactive, checkfade,
}
use apple_squeezer.Codecs.Thread.{decode_newstream}
use apple_squeezer.Dsd.{
  unknown, dsf, dsdiff, DsdFormat, pcm, dop, dsd_u8, dsd_u16_le, dsd_u32_le, dsd_u16_be, dsd_u32_be,
  dop_s24_le, dop_s24_3le, Dsd,
}
use apple_squeezer.Network.{◌>>=◌}
use apple_squeezer.Dsd.Header.{Header, invalid, unfinished, found, more, read_dsd_header}
use apple_squeezer.Dsd.Pack.{layout}
use apple_squeezer.Dsd.Diff.{DsdDecoder, decode_dsdiff}
use apple_squeezer.Dsd.Dsf.{spins, overruns, returns, decode_dsf}

-- The number of a format, and 0 for PCM.
abbrev pub format_number : DsdFormat → ℕ
format_number pcm = 0
format_number dop = 1
format_number dsd_u8 = 2
format_number dsd_u16_le = 3
format_number dsd_u32_le = 4
format_number dsd_u16_be = 5
format_number dsd_u32_be = 6
format_number dop_s24_le = 7
format_number dop_s24_3le = 8

-- The settings that a stream is started with: `output.dsdfmt`, `output.supported_rates[0]`, and what malloc
-- answers when outputbuf is resized for a crossfade.
pub record Settings : Type 0 where
  pub dsdfmt : DsdFormat
  pub highest_rate : ℕ
  pub storage : Option (List ℕ)

-- What `dsd_decode` works on.
pub record DsdPlayer {ℓ} (F : Type ℓ) : Type ℓ where
  pub new_stream : Bool
  pub outfmt : DsdFormat
  pub output : Output
  pub decoder : DsdDecoder F

-- `output.next_sample_rate` for DSD output.
abbrev pub dsd_rate : DsdFormat → ℕ → ℕ → ℕ
dsd_rate pcm old rate = old
dsd_rate dop old rate = rate / 16
dsd_rate dsd_u8 old rate = rate / 8
dsd_rate dsd_u16_le old rate = rate / 16
dsd_rate dsd_u32_le old rate = rate / 32
dsd_rate dsd_u16_be old rate = rate / 16
dsd_rate dsd_u32_be old rate = rate / 32
dsd_rate dop_s24_le old rate = rate / 16
dsd_rate dop_s24_3le old rate = rate / 16

-- The format, which falls back to PCM where the device is too slow.
abbrev pub format_for : Settings → ℕ → DsdFormat
format_for s rate = if ltb s.highest_rate rate then pcm else s.dsdfmt

abbrev pub has_fade : FadeMode → Bool
has_fade fade_none = false
has_fade crossfade = true
has_fade fade_in = true
has_fade fade_out = true
has_fade fade_inout = true

-- A start with PCM output and one with DSD output.
unfoldable pub start_pcm : Settings → ℕ → Output → Buffer → Output × Buffer
unfolding decode_newstream checkfade
start_pcm s rate o b =
    let o' = record (decode_newstream (rate / 8) o b) { next_sample_rate = rate / 8 } in
    if has_fade o'.fade_mode then checkfade s.storage true o' b else (o', b)

unfoldable pub start_format : Settings → DsdFormat → ℕ → Output → Buffer → Output × Buffer
unfolding start_pcm
start_format s pcm rate o b = start_pcm s rate o b
start_format s dop rate o b = (record o { fade = inactive }, b)
start_format s dsd_u8 rate o b = (record o { fade = inactive }, b)
start_format s dsd_u16_le rate o b = (record o { fade = inactive }, b)
start_format s dsd_u32_le rate o b = (record o { fade = inactive }, b)
start_format s dsd_u16_be rate o b = (record o { fade = inactive }, b)
start_format s dsd_u32_be rate o b = (record o { fade = inactive }, b)
start_format s dop_s24_le rate o b = (record o { fade = inactive }, b)
start_format s dop_s24_3le rate o b = (record o { fade = inactive }, b)

-- `min(_buf_used(streambuf), _buf_cont_read(streambuf))` bytes from the read pointer.
abbrev pub view : Buffer → List ℕ
view b = take (readable b) (drop b.readp b.mem)

-- What a stage of `dsd_decode` comes to: it returns, or goes on.
pub data Stage {ℓ} (F : Type ℓ) : Type ℓ where
  ends : DecodeState → DsdPlayer F → Stage F
  goes : DsdPlayer F → Stage F

module _ {ℓ} {F : Type ℓ} where
  -- The bytes left of a chunk of the header are taken off first.
  unfoldable pub pass_rest : DsdDecoder F → DsdDecoder F
  pass_rest d =
      let n = min d.dsd.consume (readable d.streambuf) in
      record d {
        dsd = record d.dsd { consume = d.dsd.consume - n };
        streambuf = inc_readp d.streambuf n;
      }

  -- The start of the track, behind the header.
  unfoldable pub start_track : Settings → DsdPlayer F → DsdPlayer F
  unfolding start_format
  start_track s p =
      let rate = p.decoder.dsd.sample_rate in
      let b = p.decoder.outputbuf in
      let o = record p.output {
        track_start = some b.writep;
        next_sample_rate = dsd_rate s.dsdfmt p.output.next_sample_rate rate;
      } in
      let format = format_for s (dsd_rate s.dsdfmt 0 rate) in
      let (o', b') = start_format s format rate o b in
      record {
        new_stream = false;
        outfmt = format;
        output = record o' { next_fmt = format_number format };
        decoder = record p.decoder { outputbuf = b' };
      }

  -- What `_read_header` left of the stream.
  abbrev pub behind_header : DsdPlayer F → Dsd → ℕ → DsdPlayer F
  behind_header p d n = record p {
    decoder = record p.decoder { dsd = d; streambuf = inc_readp p.decoder.streambuf n };
  }

  -- The results of `_read_header`; `none` where its fuel ran out.
  unfoldable pub on_header : Settings → DsdPlayer F → Header → Option (Stage F)
  unfolding start_track
  on_header s p unfinished = none
  on_header s p (invalid d n) = some (ends error (behind_header p d n))
  on_header s p (more d n) = some (ends running (behind_header p d n))
  on_header s p (found d n) = some (goes (start_track s (behind_header p d n)))

  -- `_read_header`, on a new stream; `none` also where it reads past the end.
  unfoldable pub decode_header : Settings → DsdPlayer F → Option (Stage F)
  unfolding read_dsd_header on_header
  decode_header s p =
      read_dsd_header p.decoder.streambuf.size (view p.decoder.streambuf) p.decoder.dsd
      >>= on_header s p

module _ {ℓ} {F : Type ℓ} (bitreverse : ℕ → ℕ) (translate : Bool → F → List ℕ → List ℕ × F) where
  -- `switch (d->type)`; `none` where the fuel of `_decode_dsf` ran out, or it stored bytes behind the
  -- end of the storage.
  unfoldable pub decode_type : DsdPlayer F → Option (DecodeState × DsdPlayer F)
  unfolding decode_dsf decode_dsdiff
  decode_type p = elim p.decoder.dsd.type [
    | unknown ↦ some (error, p)
    | dsdiff ↦
        let (s, d) = decode_dsdiff (translate false) (layout p.outfmt) p.decoder in
        some (s, record p { decoder = d })
    | dsf ↦ elim (decode_dsf bitreverse translate (layout p.outfmt) p.decoder) [
      | spins ↦ none
      | overruns d ↦ none
      | returns s d ↦ some (s, record p { decoder = d })
    ]
  ]

  -- `dsd_decode`; `ended` is `stream.state <= DISCONNECT`.
  unfoldable pub dsd_decode : Bool → Settings → DsdPlayer F → Option (DecodeState × DsdPlayer F)
  unfolding pass_rest decode_header decode_type
  dsd_decode ended s p =
      let p' = record p { decoder = pass_rest p.decoder } in
      if not p.decoder.dsd.is_ready
      then some (error, p)
      else if ended && used p.decoder.streambuf == 0
          || not p.new_stream && p.decoder.dsd.sample_bytes == 0
      then some (complete, p)
      else if not (p'.decoder.dsd.consume == 0)
      then some (running, p')
      else if not p.new_stream
      then decode_type p'
      else elim (decode_header s p') [
        | none ↦ none
        | some (ends r q) ↦ some (r, q)
        | some (goes q) ↦ decode_type q
      ]

-- `dsd_invert`: `~` of both words of a frame.
unfoldable pub dsd_invert : List ℕ → List ℕ
dsd_invert [] = []
dsd_invert (w ∷ ws) = (2 ^ 32 - 1 - w) ∷ dsd_invert ws

-- `dsd_silence_frames`
unfoldable pub dsd_silence_frames : ℕ → List ℕ
dsd_silence_frames zero = []
dsd_silence_frames (suc frames) = 0x69696969 ∷ 0x69696969 ∷ dsd_silence_frames frames
