-- ===== src/Process/Tests.antt =====
-- A run of `_write_samples`, and the theorem about it there.
use apple_squeezer.Prelude.{refl, [], ◌∷◌, true, arith}
use apple_squeezer.Buffer.Inv.{IsValid}
use apple_squeezer.Process.{Writing, write_samples}
use apple_squeezer.Process.Write.{IsWriting, Ends, write_samples_lem}

-- Two frames, for an outputbuf in which one fits.
abbrev two_frames : Writing
two_frames = record {
  samples = 1 ∷ 2 ∷ 3 ∷ 4 ∷ 5 ∷ 6 ∷ 7 ∷ 8 ∷ 9 ∷ 10 ∷ 11 ∷ 12 ∷ 13 ∷ 14 ∷ 15 ∷ 16 ∷ [];
  outputbuf = record {
    allocated = true;
    mem = 0 ∷ 0 ∷ 0 ∷ 0 ∷ 0 ∷ 0 ∷ 0 ∷ 0 ∷ 0 ∷ 0 ∷ 0 ∷ 0 ∷ 0 ∷ 0 ∷ 0 ∷ 0 ∷ [];
    readp = 0;
    writep = 0;
    wrap = 16;
    size = 16;
    base_size = 16;
  };
  cnt = 10;
  taken = [];
}

two_frames-outputbuf-IsValid : IsValid two_frames.outputbuf
two_frames-outputbuf-IsValid = ground arith

two_frames-IsWriting : IsWriting two_frames
two_frames-IsWriting = record { valid = two_frames-outputbuf-IsValid; whole = refl }

-- The output thread takes the first frame in the first wait.
write_samples_lem_example : Ends two_frames (write_samples 13 (λ _. 8) two_frames)
write_samples_lem_example =
    write_samples_lem 13 (λ _. 8) two_frames two_frames-IsWriting (omega arith)
