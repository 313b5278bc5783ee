-- ===== src/Buffer/Inv.antt =====
-- The representation invariant of `struct buffer`: what every operation of buffer.c keeps, and
-- what the four measures say of a buffer that has it.
use apple_squeezer.Prelude.{
  ℕ, ◌+◌, ◌-◌, ◌*◌, ◌/◌, ◌^◌, ◌≤◌, ◌<◌, ◌≡◌, refl, ◌≢◌, true, List, Option, none, some, arith,
  length, min, u64, ◌%◌, ◌==◌, false, ◌⊎◌, inl, inr,
}
use native.Mathlib.Nat.{mod-lt, mod-eq_of_lt, div-add-mod'}
use apple_squeezer.Buffer.{
  Buffer, used, space, cont_read, cont_write, inc_readp, inc_writep, flush, adjusted_size, adjust,
  resize, init, destroy,
}

-- A live buffer: the storage covers it, and both pointers lie inside `[buf, wrap)`.
pub record IsValid (b : Buffer) : Type 0 where
  pub live : b.allocated ≡ true
  pub stored : b.base_size ≤ length b.mem
  pub within : b.size ≤ b.base_size
  pub ends : b.wrap ≡ b.size
  pub small : b.base_size < 2 ^ 32
  pub read_in : b.readp < b.size
  pub write_in : b.writep < b.size

-- A buffer without storage, as `buf_init` leaves it when there is no memory.
pub record IsDead (b : Buffer) : Type 0 where
  pub freed : b.allocated ≡ false
  pub no_size : b.size ≡ 0
  pub no_base : b.base_size ≡ 0

-- The measures as plain arithmetic.
pub measures :
    {b : Buffer}
    → IsValid b
    → (used b + space b + 1 ≡ b.size)
      × (cont_read b ≤ used b)
      × (b.readp + cont_read b ≤ b.size)
      × (b.writep + min (space b) (cont_write b) ≤ b.size)
unfolding space used cont_read cont_write
measures v = ground arith

pub inc_readp-IsValid : {b : Buffer} (n : ℕ) → IsValid b → IsValid (inc_readp b n)
unfolding inc_readp
inc_readp-IsValid n v = ground arith

pub inc_writep-IsValid : {b : Buffer} (n : ℕ) → IsValid b → IsValid (inc_writep b n)
unfolding inc_writep
inc_writep-IsValid n v = ground arith

pub flush-IsValid : {b : Buffer} → IsValid b → IsValid (flush b) × (used (flush b) ≡ 0)
unfolding flush used
flush-IsValid v = ground arith

pub adjusted_size_le : (base m : ℕ) → 0 < m → adjusted_size base m ≤ base
adjusted_size_le base m h = ground arith

adjusted_size_pos : (base m : ℕ) → 0 < base → 0 < adjusted_size base m
adjusted_size_pos base m h = ground arith

-- `buf_adjust` leaves a valid buffer valid; it is then empty, and its size is a multiple of the
-- alignment as soon as one fits.
pub adjust-IsValid :
    {b : Buffer} (m : ℕ)
    → IsValid b
    → 0 < m
    → IsValid (adjust b m)
      × (used (adjust b m) ≡ 0)
      × ((b.base_size < m) ⊎ ((adjust b m).size ≡ b.base_size / m * m))
unfolding adjust used
adjust-IsValid {b} m v h =
    ground (
      arith,
      adjusted_size_le b.base_size m h,
      adjusted_size_pos b.base_size m (omega arith),
      whole,
    )
  where
    whole : (b.base_size < m) ⊎ (b.base_size / m * m ≢ 0)
    whole = omega (arith, div-add-mod' b.base_size m, mod-lt b.base_size h)

-- `buf_init` of two bytes or more gives a valid and empty buffer when malloc returns storage of
-- the size asked for, and a dead one otherwise.
pub init-IsValid :
    (size : ℕ) (storage : Option (List ℕ))
    → size < 2 ^ 32
    → ((m : List ℕ) → storage ≡ some m → length m ≡ size)
    → (IsValid (init size storage) × (used (init size storage) ≡ 0) × (2 ≤ size))
      ⊎ (IsDead (init size storage) × ((size < 2) ⊎ (storage ≡ none)))
unfolding init used
init-IsValid size none h a = ground arith
init-IsValid size (some m) h a = ground (arith, a m refl)

-- `_buf_resize` keeps a valid buffer valid, and empties it unless the size asked for is 0. When
-- malloc fails the old size stays.
pub resize-IsValid :
    {b : Buffer} (size : ℕ) (replacement : Option (List ℕ))
    → IsValid b
    → 0 < size
    → size < 2 ^ 32
    → ((m : List ℕ) → replacement ≡ some m → length m ≡ size)
    → IsValid (resize b size replacement)
      × (used (resize b size replacement) ≡ 0)
      × (((replacement ≡ none) × ((resize b size replacement).size ≡ b.size))
          ⊎ ((m : List ℕ) × (replacement ≡ some m)
              × ((resize b size replacement).mem ≡ m)
              × ((resize b size replacement).size ≡ size)))
unfolding resize used
resize-IsValid size none v p h a = (ground arith, ground arith, inl (refl, ground arith))
resize-IsValid size (some m) v p h a =
    (ground (arith, a m refl), ground arith, inr (m, refl, ground arith, ground arith))

-- After `buf_destroy` nothing is held or can be read, but `_buf_space`, whose subtraction wraps,
-- reports 2 ^ 32 - 1 bytes of room.
pub destroy-IsDead :
    {b : Buffer} → IsValid b → IsDead (destroy b) × (space (destroy (flush b)) ≡ 2 ^ 32 - 1)
unfolding destroy flush space used
destroy-IsDead v = ground arith

-- A buffer that can be read in one piece only in part goes round at its end.
pub parted : {b : Buffer} → IsValid b → cont_read b < used b → b.readp + cont_read b ≡ b.size
unfolding used cont_read
parted v h = ground arith

-- Advancing by nothing changes nothing.
pub inc_readp_zero : {b : Buffer} → IsValid b → inc_readp b 0 ≡ b
unfolding inc_readp
inc_readp_zero {b} v =
    let e : u64 (b.readp + 0 % b.size) % b.size ≡ b.readp = ground (
      arith,
      mod-eq_of_lt {n = 0} {m = b.size} (ground arith),
      mod-eq_of_lt {n = b.readp} {m = b.size} v.read_in,
    ) in
    let z : (b.size == 0) ≡ false = ground arith in rw (z, e) refl

pub inc_writep_zero : {b : Buffer} → IsValid b → inc_writep b 0 ≡ b
unfolding inc_writep
inc_writep_zero {b} v =
    let e : u64 (b.writep + 0 % b.size) % b.size ≡ b.writep = ground (
      arith,
      mod-eq_of_lt {n = 0} {m = b.size} (ground arith),
      mod-eq_of_lt {n = b.writep} {m = b.size} v.write_in,
    ) in
    let z : (b.size == 0) ≡ false = ground arith in rw (z, e) refl

-- A buffer that holds something can be read.
pub cont_read_pos : {b : Buffer} → IsValid b → 0 < used b → 0 < cont_read b
unfolding used cont_read
cont_read_pos v h = ground arith
