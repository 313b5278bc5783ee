-- ===== src/Codecs/Thread.antt =====
-- decode.c: a round of `decode_thread`, `decode_newstream` and `decode_close`, in a build without
-- processing. The codec's `decode` is an argument.
use apple_squeezer.Prelude.{
  ℕ, ◌*◌, ◌/◌, Bool, true, false, ◌&&◌, ◌||◌, not, List, [], ◌∷◌, ◌++◌, Option, none, some, ltb,
  if◌then◌else◌, u32,
}
use apple_squeezer.Buffer.{Buffer, used, space}
use apple_squeezer.Output.{
  Output, FadeMode, fade_none, crossfade, fade_in, fade_out, fade_inout, checkfade,
}
use apple_squeezer.Pcm.Decode.{DecodeState, running}
use apple_squeezer.Codecs.{Codec, Decoding, Call, closed}

-- What the thread works on.
pub record Work : Type 0 where
  pub decoding : Decoding
  pub streambuf : Buffer
  pub output : Output
  pub outputbuf : Buffer

abbrev pub is_running : DecodeState → Bool
is_running running = true
is_running DecodeState.stopped = false
is_running DecodeState.ready = false
is_running DecodeState.complete = false
is_running DecodeState.error = false

abbrev pub fades : FadeMode → Bool
fades fade_none = false
fades crossfade = true
fades fade_in = true
fades fade_out = true
fades fade_inout = true

-- The end of the track, or an error: the fade at its end is set up.
unfoldable pub after_decode : Option (List ℕ) → Work → Work
unfolding checkfade
after_decode storage w =
    if is_running w.decoding.state || not (fades w.output.fade_mode)
    then w
    else (let (o, b) = checkfade storage false w.output w.outputbuf in
        record w { output = o; outputbuf = b })

-- A round: `ended` says that the stream is at its end, and `decode` is the codec's.
unfoldable pub decode_with :
    Option Codec → (Codec → Work → Work) → Option (List ℕ) → Bool → Work → Work
unfolding after_decode
decode_with none decode storage ended w = w
decode_with (some c) decode storage ended w =
    if is_running w.decoding.state
      && ltb c.min_space (space w.outputbuf)
      && (ltb c.min_read_bytes (used w.streambuf) || ended)
    then after_decode storage (decode c w)
    else w

unfoldable pub decode_round : (Codec → Work → Work) → Option (List ℕ) → Bool → Work → Work
unfolding decode_with
decode_round decode storage ended w = decode_with w.decoding.codec decode storage ended w

-- `decode_close`
abbrev pub close_codec : Option Codec → List Call
close_codec none = []
close_codec (some c) = closed c ∷ []

unfoldable pub decode_close : Decoding → Decoding
decode_close d = record d { codec = none; calls = d.calls ++ close_codec d.codec }

-- The threshold of `decode_newstream`
unfoldable pub decode_newstream : ℕ → Output → Buffer → Output
decode_newstream rate o b =
    if ltb (b.size / 8 / 2) (u32 (o.threshold * rate) / 10)
    then record o { threshold = u32 (b.size / 8 / 2 * 10 / rate) }
    else o
