-- ===== src/Dsd/Header/Tests.antt =====
-- dsd.c: `_read_header` on a small file.
use apple_squeezer.Prelude.{ℕ, ◌≡◌, refl, true, false, List, [], ◌∷◌, ◌++◌, some, arith}
use apple_squeezer.Dsd.{Dsd, unknown, dsdiff}
use apple_squeezer.Dsd.Header.{found, read_dsd_header}
use apple_squeezer.Dsd.Header.Reads.{IsGiven}
use apple_squeezer.Dsd.Safe.{IsSafe, read_dsd_header-IsSafe}
use apple_squeezer.Dsd.Header.Written.{dsdiff_header}
use apple_squeezer.Dsd.RoundTrip.{read_dsd_header-dsdiff_header}

abbrev empty : Dsd
empty = record {
  type = unknown;
  consume = 0;
  sample_rate = 0;
  channels = 0;
  sample_bytes = 0;
  block_size = 0;
  lsb_first = false;
  is_ready = true;
}

-- FRM8, FVER, PROP, FS, CHNL, CMPR with its byte of padding, and the audio, of 8 bytes.
abbrev file : List ℕ
file =
    b'F' ∷ b'R' ∷ b'M' ∷ b'8' ∷ 0 ∷ 0 ∷ 0 ∷ 0 ∷ 0 ∷ 0 ∷ 0 ∷ 126 ∷ b'D' ∷ b'S' ∷ b'D' ∷ b' ' ∷ b'F'
    ∷ b'V' ∷ b'E' ∷ b'R' ∷ 0 ∷ 0 ∷ 0 ∷ 0 ∷ 0 ∷ 0 ∷ 0 ∷ 4 ∷ 1 ∷ 5 ∷ 0 ∷ 0 ∷ b'P' ∷ b'R' ∷ b'O' ∷ b'P'
    ∷ 0 ∷ 0 ∷ 0 ∷ 0 ∷ 0 ∷ 0 ∷ 0 ∷ 74 ∷ b'S' ∷ b'N' ∷ b'D' ∷ b' ' ∷ b'F' ∷ b'S' ∷ b' ' ∷ b' ' ∷ 0 ∷ 0
    ∷ 0 ∷ 0 ∷ 0 ∷ 0 ∷ 0 ∷ 4 ∷ 0 ∷ 0x2b ∷ 0x11 ∷ 0 ∷ b'C' ∷ b'H' ∷ b'N' ∷ b'L' ∷ 0 ∷ 0 ∷ 0 ∷ 0 ∷ 0
    ∷ 0 ∷ 0 ∷ 10 ∷ 0 ∷ 2 ∷ b'S' ∷ b'L' ∷ b'F' ∷ b'T' ∷ b'S' ∷ b'R' ∷ b'G' ∷ b'T' ∷ b'C' ∷ b'M'
    ∷ b'P' ∷ b'R' ∷ 0 ∷ 0 ∷ 0 ∷ 0 ∷ 0 ∷ 0 ∷ 0 ∷ 19 ∷ b'D' ∷ b'S' ∷ b'D' ∷ b' ' ∷ 14 ∷ 110 ∷ 111
    ∷ 116 ∷ 32 ∷ 99 ∷ 111 ∷ 109 ∷ 112 ∷ 114 ∷ 101 ∷ 115 ∷ 115 ∷ 101 ∷ 100 ∷ 0 ∷ b'D' ∷ b'S' ∷ b'D'
    ∷ b' ' ∷ 0 ∷ 0 ∷ 0 ∷ 0 ∷ 0 ∷ 0 ∷ 0 ∷ 8 ∷ 1 ∷ 2 ∷ 3 ∷ 4 ∷ 5 ∷ 6 ∷ 7 ∷ 8 ∷ []

-- "not compressed"
abbrev not_compressed : List ℕ
not_compressed =
    110 ∷ 111 ∷ 116 ∷ 32 ∷ 99 ∷ 111 ∷ 109 ∷ 112 ∷ 114 ∷ 101 ∷ 115 ∷ 115 ∷ 101 ∷ 100 ∷ []

header_found :
    read_dsd_header 100 file empty
    ≡ some (
        found
          (record empty { type = dsdiff; sample_rate = 2822400; channels = 2; sample_bytes = 8 })
          130)
unfolding read_dsd_header
header_found = refl

read_dsd_header-IsSafe_example : IsGiven (IsSafe 100 138) (read_dsd_header 100 file empty)
read_dsd_header-IsSafe_example = read_dsd_header-IsSafe 100 file empty

read_dsd_header-dsdiff_header_example :
    read_dsd_header 100 (dsdiff_header true 2822400 not_compressed 8 ++ (1 ∷ 2 ∷ 3 ∷ 4 ∷ [])) empty
    ≡ some (
        found
          (record empty { type = dsdiff; sample_rate = 2822400; channels = 2; sample_bytes = 8 })
          130)
read_dsd_header-dsdiff_header_example =
    read_dsd_header-dsdiff_header true 100 2822400 not_compressed 8 1 2 3 4 [] empty refl
      (omega arith) (omega arith) (omega arith) (omega arith)

-- A file is what the header says.
file_written :
    file ≡ dsdiff_header true 2822400 not_compressed 8 ++ (1 ∷ 2 ∷ 3 ∷ 4 ∷ 5 ∷ 6 ∷ 7 ∷ 8 ∷ [])
file_written = refl
