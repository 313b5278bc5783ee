-- ===== src/Codecs.antt =====
-- decode.c: the table of codecs, in the order of their priority, and `codec_open`.
pub mod Order
pub mod Thread
mod Tests
use apple_squeezer.Prelude.{
  ℕ, ◌+◌, Bool, true, false, ◌&&◌, not, List, [], ◌∷◌, ◌++◌, Option, none, some, ◌==◌, ltb,
  if◌then◌else◌,
}
use apple_squeezer.Pcm.Decode.{DecodeState, stopped, ready}

-- `struct codec`, with the address that the code compares; the functions are only called.
pub record Codec : Type 0 where
  pub address : ℕ
  pub id : ℕ
  pub min_read_bytes : ℕ
  pub min_space : ℕ

-- A slot of `codecs`, with that of `priority` beside it; `none` is NULL.
abbrev pub Slot : Type 0
Slot = Option (ℕ × Codec)

-- `sort_codecs` from slot `i` on; a codec that is pushed past the last slot is lost.
unfoldable pub sort_codecs : ℕ → Codec → List Slot → List Slot
sort_codecs pry ptr [] = []
sort_codecs pry ptr (none ∷ slots) = some (pry, ptr) ∷ slots
sort_codecs pry ptr (some (q, c) ∷ slots) =
    let pushed = sort_codecs q c slots in
    let passed = sort_codecs pry ptr slots in
    if ltb pry q then some (pry, ptr) ∷ pushed else some (q, c) ∷ passed

-- The calls that decode.c makes of a codec.
pub data Call : Type 0 where
  opened closed : Codec → Call

-- `decode` and `codec`, and the calls made so far.
pub record Decoding : Type 0 where
  pub new_stream : Bool
  pub direct : Bool
  pub state : DecodeState
  pub codec : Option Codec
  pub calls : List Call

-- `if (codec && codec != codecs[i]) codec->close();`
abbrev pub closing : Option Codec → Codec → List Call
closing none c = []
closing (some old) c = if old.address == c.address then [] else closed old ∷ []

-- The loop of `codec_open`.
unfoldable pub open_from : ℕ → List Slot → Decoding → Decoding
open_from format [] d = d
open_from format (none ∷ slots) d = open_from format slots d
open_from format (some (q, c) ∷ slots) d =
    let rest = open_from format slots d in
    if c.id == format
    then record d {
      codec = some c;
      state = ready;
      calls = d.calls ++ (closing d.codec c ++ (opened c ∷ []));
    }
    else rest

-- `codec_open`
unfoldable pub codec_open : ℕ → List Slot → Decoding → Decoding
unfolding open_from
codec_open format slots d =
    open_from format slots (record d { new_stream = true; state = stopped; direct = true })
