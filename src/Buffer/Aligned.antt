-- ===== src/Buffer/Aligned.antt =====
-- A buffer that is read and written in whole frames, as outputbuf is in frames of 8 bytes.
use apple_squeezer.Prelude.{ℕ, ◌+◌, ◌*◌, ◌%◌, ◌≤◌, ◌<◌, ◌≡◌, arith}
use native.Mathlib.Nat.{mod-eq_of_lt}
use apple_squeezer.Buffer.{Buffer, used, space, cont_read, cont_write, inc_readp, inc_writep}
use apple_squeezer.Buffer.Inv.{IsValid, measures, cont_read_pos}
use apple_squeezer.Buffer.Queue.{inc_readp_moves, inc_readp_keeps, mod_cases}

-- Both pointers stand between frames, and the size is a number of frames.
pub record IsAligned (b : Buffer) : Type 0 where
  pub size_even : b.size % 8 ≡ 0
  pub read_even : b.readp % 8 ≡ 0
  pub write_even : b.writep % 8 ≡ 0

pub used-IsWhole : {b : Buffer} → IsValid b → IsAligned b → used b % 8 ≡ 0
unfolding used
used-IsWhole v a = ground arith

pub cont_read-IsWhole : {b : Buffer} → IsValid b → IsAligned b → cont_read b % 8 ≡ 0
unfolding cont_read
cont_read-IsWhole v a = ground arith

pub inc_readp-IsAligned :
    {b : Buffer} (n : ℕ)
    → IsValid b
    → IsAligned b
    → n * 8 ≤ used b
    → IsAligned (inc_readp b (n * 8))
inc_readp-IsAligned {b} n v a h =
    let keeps = inc_readp_keeps b (n * 8) in
    let moves = inc_readp_moves (n * 8) v h in
    let turn = mod_cases (b.readp + n * 8) b.size (omega (arith, measures v, v.read_in)) in
    record {
      size_even = rw (keeps.1) a.size_even;
      read_even = omega (arith, moves.0, turn, a.read_even, a.size_even);
      write_even = rw (keeps.2) a.write_even;
    }

-- A frame that is held can be read in one piece.
pub frame-IsReadable : {b : Buffer} → IsValid b → IsAligned b → 0 < used b → 8 ≤ cont_read b
frame-IsReadable v a h = omega (arith, cont_read_pos v h, cont_read-IsWhole v a)

pub inc_writep-IsAligned :
    {b : Buffer} (n : ℕ)
    → IsValid b
    → IsAligned b
    → n * 8 ≤ space b
    → IsAligned (inc_writep b (n * 8))
unfolding inc_writep space used
inc_writep-IsAligned {b} n v a h =
    let turn = mod_cases (b.writep + n * 8) b.size (ground arith) in
    let whole = mod-eq_of_lt {n = n * 8} {m = b.size} (ground arith) in
    record {
      size_even = ground (arith, a.size_even);
      read_even = ground (arith, a.read_even);
      write_even = ground (arith, a, turn, whole);
    }

-- There is room for a frame in one piece.
pub frame-IsWritable : {b : Buffer} → IsValid b → IsAligned b → 8 ≤ space b → 8 ≤ cont_write b
unfolding space used cont_write
frame-IsWritable v a h = ground arith
