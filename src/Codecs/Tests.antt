-- ===== src/Codecs/Tests.antt =====
-- Runs of the codec table, and its properties at concrete tables.
use apple_squeezer.Prelude.{◌≡◌, refl, true, false, List, [], ◌∷◌, none, some, arith}
use apple_squeezer.Pcm.Decode.{stopped, ready}
use apple_squeezer.Codecs.{Codec, Slot, Decoding, codec_open, opened, closed, open_from}
use apple_squeezer.Codecs.Order.{IsOrdered, Opens, codec_open_lem}

abbrev flac : Codec
flac = record { address = 100; id = b'f'; min_read_bytes = 16384; min_space = 204800 }

abbrev pcm : Codec
pcm = record { address = 200; id = b'p'; min_read_bytes = 4096; min_space = 102400 }

abbrev mad : Codec
mad = record { address = 300; id = b'm'; min_read_bytes = 4096; min_space = 9216 }

abbrev two : List Slot
two = some (0, flac) ∷ some (4, mad) ∷ none ∷ none ∷ []

two-IsOrdered : IsOrdered two
two-IsOrdered = ((omega arith, tt), (tt, tt))

abbrev playing : Decoding
playing = record {
  new_stream = false;
  direct = false;
  state = stopped;
  codec = some mad;
  calls = [];
}

opens_flac : codec_open b'f' two playing ≡ record {
  new_stream = true;
  direct = true;
  state = ready;
  codec = some flac;
  calls = closed mad ∷ opened flac ∷ [];
}
unfolding codec_open open_from
opens_flac = refl

codec_open_lem_example :
    Opens b'f' two
      (record playing { new_stream = true; state = stopped; direct = true })
      (codec_open b'f' two playing)
codec_open_lem_example = codec_open_lem b'f' two playing two-IsOrdered
