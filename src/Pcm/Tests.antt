-- ===== src/Pcm/Tests.antt =====
-- Runs of the PCM reader, and its properties at concrete inputs.
use apple_squeezer.Prelude.{ℕ, ◌∷◌, [], ◌++◌, ◌≡◌, refl, true, false, inr, arith, List}
use apple_squeezer.Sample.{fixed_one}
use apple_squeezer.Pack.{scale_and_pack_frames}
use apple_squeezer.Pcm.Convert.Laws.{format_of}
use apple_squeezer.Pcm.Convert.Perfect.{read_frames, scale_and_pack_frames-pcm_read_s32}
use apple_squeezer.Pcm.Chunks.{PcmState}
use apple_squeezer.Pcm.Header.{checked, check_header}
use apple_squeezer.Pcm.Header.Safe.{IsSafe}
use apple_squeezer.Pcm.Header.Wav.{wav_header, check_header-wav_header}
use apple_squeezer.Pcm.Open.{pcm_open, check_header-pcm_open}

abbrev opened : PcmState
opened = record {
  sample_rate = 0;
  sample_size = 0;
  channels = 0;
  bigendian = false;
  limit = false;
  format_error = false;
  unsigned_8bit = false;
  audio_left = 0;
  bytes_per_frame = 0;
}

abbrev frames : List ℕ
frames = 1 ∷ 2 ∷ 3 ∷ 4 ∷ []

check_header-wav_header_example :
    check_header true 48 opened (wav_header 2 44100 2 4 ++ frames)
    ≡ checked true
        (record {
          sample_rate = 44100;
          sample_size = 2;
          channels = 2;
          bigendian = false;
          limit = true;
          format_error = false;
          unsigned_8bit = false;
          audio_left = 4;
          bytes_per_frame = 4;
        })
        44
check_header-wav_header_example =
    check_header-wav_header true 48 opened 2 44100 2 4 frames (inr refl) (omega arith) (omega arith)
      (omega arith) (omega arith) (omega arith)

check_header-pcm_open_example :
    IsSafe 48 (
      check_header true 48 (pcm_open b'1' b'3' b'2' b'1' opened) (wav_header 2 44100 2 4 ++ frames))
check_header-pcm_open_example =
    check_header-pcm_open b'1' b'3' b'2' b'1' opened true 48 (wav_header 2 44100 2 4 ++ frames)

-- A frame of 24 bits from an address that is no multiple of 4, and one more.
abbrev in_pairs : List (List ℕ × List ℕ)
in_pairs = (1 ∷ 2 ∷ 0xff ∷ [], 4 ∷ 5 ∷ 6 ∷ []) ∷ (7 ∷ 8 ∷ 0x80 ∷ [], 10 ∷ 11 ∷ 0x7f ∷ []) ∷ []

scale_and_pack_frames-pcm_read_s32_example :
    (scale_and_pack_frames 2 (read_frames 3 in_pairs) fixed_one fixed_one 0 (format_of 3)).1
    ≡ 1 ∷ 2 ∷ 0xff ∷ 4 ∷ 5 ∷ 6 ∷ 7 ∷ 8 ∷ 0x80 ∷ 10 ∷ 11 ∷ 0x7f ∷ []
scale_and_pack_frames-pcm_read_s32_example =
    scale_and_pack_frames-pcm_read_s32 2 3 in_pairs (omega arith) (omega arith) (omega arith)
