-- ===== src/Pcm/Decode/Tests.antt =====
-- `pcm_decode` on a frame that goes round the end of the stream buffer.
use apple_squeezer.Prelude.{
  ℕ, ◌∷◌, [], ◌++◌, ◌≡◌, ◌≤◌, ◌+◌, ◌*◌, refl, true, false, inl, inr, arith, List, drop,
}
use apple_squeezer.Buffer.{Buffer, used, space, cont_read, cont_write, inc_readp, inc_writep}
use apple_squeezer.Buffer.Memory.{blit}
use apple_squeezer.Pcm.Convert.{pcm_read_s32}
use apple_squeezer.Buffer.Inv.{IsValid}
use apple_squeezer.Buffer.Queue.{contents}
use apple_squeezer.Pcm.Chunks.{PcmState}
use apple_squeezer.Pcm.Header.Rounds.{IsUsable}
use apple_squeezer.Pcm.Decode.{running, Decoder, pcm_decode, pack_samples, decoded_frames}
use apple_squeezer.Pcm.Decode.Laws.{pcm_decode_running}
use apple_squeezer.Pcm.Decode.Limit.{pcm_decode_limit, pcm_decode_stalls, pcm_decode_progress}

-- Two channels of 16 bits, without a length.
abbrev stereo : PcmState
stereo = record {
  sample_rate = 44100;
  sample_size = 2;
  channels = 2;
  bigendian = false;
  limit = false;
  format_error = false;
  unsigned_8bit = false;
  audio_left = 0;
  bytes_per_frame = 4;
}

-- Its frame is 7 8 1 2.
abbrev wrapped : Buffer
wrapped = record {
  allocated = true;
  mem = 1 ∷ 2 ∷ 0 ∷ 0 ∷ 0 ∷ 0 ∷ 7 ∷ 8 ∷ [];
  readp = 6;
  writep = 2;
  wrap = 8;
  size = 8;
  base_size = 8;
}

abbrev zeros : List ℕ
zeros = 0 ∷ 0 ∷ 0 ∷ 0 ∷ 0 ∷ 0 ∷ 0 ∷ 0 ∷ 0 ∷ 0 ∷ 0 ∷ 0 ∷ 0 ∷ 0 ∷ 0 ∷ 0 ∷ []

abbrev empty : Buffer
empty = record {
  allocated = true;
  mem = zeros;
  readp = 0;
  writep = 0;
  wrap = 16;
  size = 16;
  base_size = 16;
}

abbrev with_format : PcmState → Decoder
with_format s = record { pcm = s; streambuf = wrapped; outputbuf = empty }

-- The same with a length of `n` bytes.
abbrev limited : ℕ → Decoder
limited n = with_format (record stereo { limit = true; audio_left = n })

wrapped-IsValid : IsValid wrapped
wrapped-IsValid = ground arith

empty-IsValid : IsValid empty
empty-IsValid = ground arith

stereo-IsUsable : IsUsable stereo
unfolding IsUsable
stereo-IsUsable = inr (inr refl, omega arith, omega arith, omega arith, refl)

decoded :
    (contents (pcm_decode false (with_format stereo)).1.outputbuf)
    ≡ 0 ∷ 0 ∷ 7 ∷ 8 ∷ 0 ∷ 0 ∷ 1 ∷ 2 ∷ []
unfolding pcm_decode used space cont_read cont_write inc_readp inc_writep blit pack_samples
    pcm_read_s32
decoded = refl

pcm_decode_running_example :
    let d = with_format stereo in
    let d' = (pcm_decode false d).1 in
    (contents d'.streambuf ≡ drop (decoded_frames d * 4) (contents wrapped))
    × (contents d'.outputbuf
        ≡ contents empty ++ pack_samples stereo (decoded_frames d * 2) (contents wrapped))
    × IsValid d'.streambuf
    × IsValid d'.outputbuf
unfolding pcm_decode
pcm_decode_running_example =
    pcm_decode_running false (with_format stereo) wrapped-IsValid empty-IsValid stereo-IsUsable refl

pcm_decode_limit_example :
    (pcm_decode false (limited 4)).1.pcm.audio_left + decoded_frames (limited 4) * 4 ≡ 4
unfolding pcm_decode
pcm_decode_limit_example = pcm_decode_limit false (limited 4) refl (omega arith) refl

pcm_decode_stalls_example : pcm_decode false (limited 2) ≡ (running, limited 2)
pcm_decode_stalls_example =
    pcm_decode_stalls false (limited 2) wrapped-IsValid empty-IsValid refl refl (omega arith)
      (omega arith) (inl refl)

pcm_decode_progress_example :
    ((pcm_decode false (limited 4)).0 ≡ running) × (1 ≤ decoded_frames (limited 4))
unfolding used space cont_write
pcm_decode_progress_example =
    pcm_decode_progress false (limited 4) wrapped-IsValid refl (omega arith) (omega arith)
      (inr (omega arith)) (inl refl)
