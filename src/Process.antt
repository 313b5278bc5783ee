-- ===== src/Process.antt =====
-- process.c: `_write_samples`, which moves the processed frames to outputbuf. While it waits for
-- space the output thread takes bytes off outputbuf: how many, in each wait, is an argument.
pub mod Write
pub mod Start
mod Tests
use apple_squeezer.Prelude.{
  ℕ, zero, suc, ◌+◌, ◌-◌, ◌*◌, ◌/◌, Bool, true, false, not, List, [], ◌∷◌, ◌++◌, length, take, drop,
  ◌==◌, if◌then◌else◌, min,
}
use apple_squeezer.Buffer.{Buffer, used, space, cont_write, inc_readp}
use apple_squeezer.Buffer.Queue.{contents, append_bytes}

-- `BYTES_PER_FRAME`
abbrev pub bytes_per_frame : ℕ
bytes_per_frame = 8

-- The bytes at `iptr` that are still to be written, outputbuf, `cnt`, and what the output thread
-- took so far.
pub record Writing : Type 0 where
  pub samples : List ℕ
  pub outputbuf : Buffer
  pub cnt : ℕ
  pub taken : List ℕ

-- The frames that fit in one piece.
abbrev pub frames_free : Buffer → ℕ
frames_free b = min (space b) (cont_write b) / bytes_per_frame

-- How a round goes on: the loop ends, gives up, or has another round.
pub data Round : Type 0 where
  finished given_up again : Writing → Round

-- A piece of the frames is copied.
unfoldable pub copy_frames : Writing → Writing
unfolding append_bytes
copy_frames w =
    let n = min (frames_free w.outputbuf) (length w.samples / bytes_per_frame) * bytes_per_frame in
    record w { samples = drop n w.samples; outputbuf = append_bytes w.outputbuf (take n w.samples) }

-- A wait, in which `n` bytes are taken, or as many as there are.
unfoldable pub wait_for_space : ℕ → Writing → Writing
unfolding inc_readp
wait_for_space n w =
    let k = min n (used w.outputbuf) in
    record w {
      cnt = w.cnt - 1;
      outputbuf = inc_readp w.outputbuf k;
      taken = w.taken ++ take k (contents w.outputbuf);
    }

-- A round of the loop; `waits` says what is taken when so much is left of `cnt`.
unfoldable pub write_step : (ℕ → ℕ) → Writing → Round
unfolding copy_frames wait_for_space
write_step waits w =
    if length w.samples / bytes_per_frame == 0
    then finished w
    else if not (frames_free w.outputbuf == 0)
    then again (copy_frames w)
    else if not (w.cnt == 0)
    then again (wait_for_space (waits w.cnt) w)
    else given_up w

-- The loop, with `fuel` rounds at most; `again` is left where they are not enough.
unfoldable pub write_samples : ℕ → (ℕ → ℕ) → Writing → Round
unfolding write_step
write_samples zero waits w = again w
write_samples (suc fuel) waits w = elim (write_step waits w) [
  | finished w' ↦ finished w'
  | given_up w' ↦ given_up w'
  | again w' ↦ write_samples fuel waits w'
]
