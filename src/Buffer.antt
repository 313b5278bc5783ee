-- ===== src/Buffer.antt =====
-- buffer.c: the byte FIFO between the stream, decode and output threads.
-- A pointer into the storage is its offset from `buf->buf`; `allocated` says that `buf->buf` is
-- not NULL. The mutex is held by the caller of every `_` function, and the others take it for
-- their whole body, so each function is one atomic step. malloc's answer is an argument.
pub mod Memory
pub mod Inv
pub mod Queue
pub mod Aligned
pub mod Unwrap
mod Tests
use apple_squeezer.Prelude.{
  ℕ, zero, suc, ◌+◌, ◌-◌, ◌*◌, ◌/◌, ◌%◌, ◌^◌, Bool, true, false, List, [], ◌∷◌, Option, none, some,
  ltb, leb, ◌==◌, if◌then◌else◌, u32, u64, sub64, min, ◌||◌, not,
}
use Memory.{blit, transfer}

-- `struct buffer`
pub record Buffer : Type 0 where
  pub allocated : Bool
  pub mem : List ℕ
  pub readp : ℕ
  pub writep : ℕ
  pub wrap : ℕ
  pub size : ℕ
  pub base_size : ℕ

-- `_buf_used`, a `size_t` returned as `unsigned`
unfoldable pub used : Buffer → ℕ
used b =
    u32 (if leb b.readp b.writep then b.writep - b.readp else sub64 b.size (b.readp - b.writep))

-- `_buf_space`
unfoldable pub space : Buffer → ℕ
unfolding used
space b = u32 (sub64 (sub64 b.size (used b)) 1)

-- `_buf_cont_read`: `wrap` is past `readp` whenever the branch is taken on a live buffer
unfoldable pub cont_read : Buffer → ℕ
cont_read b = u32 (if leb b.readp b.writep then b.writep - b.readp else sub64 b.wrap b.readp)

-- `_buf_cont_write`
unfoldable pub cont_write : Buffer → ℕ
cont_write b = u32 (if leb b.readp b.writep then sub64 b.wrap b.writep else b.readp - b.writep)

-- `_buf_inc_readp`
unfoldable pub inc_readp : Buffer → ℕ → Buffer
inc_readp b by =
    if b.size == 0 then b else record b { readp = u64 (b.readp + by % b.size) % b.size }

-- `_buf_inc_writep`
unfoldable pub inc_writep : Buffer → ℕ → Buffer
inc_writep b by =
    if b.size == 0 then b else record b { writep = u64 (b.writep + by % b.size) % b.size }

-- `buf_flush`
unfoldable pub flush : Buffer → Buffer
flush b = record b { readp = 0; writep = 0 }

-- `size = (base_size / mod) * mod; if (!size) size = base_size;`
abbrev pub adjusted_size : ℕ → ℕ → ℕ
adjusted_size base modulus =
    let whole = base / modulus * modulus in if whole == 0 then base else whole

-- `buf_adjust`
pub adjust : Buffer → ℕ → Buffer
adjust b modulus = if modulus == 0 || not b.allocated || b.base_size == 0 then b else record b {
  readp = 0;
  writep = 0;
  wrap = adjusted_size b.base_size modulus;
  size = adjusted_size b.base_size modulus;
}

-- `_buf_resize`; `replacement` is what `malloc(size)` returns.
unfoldable pub resize : Buffer → ℕ → Option (List ℕ) → Buffer
resize b size replacement = if size == 0 then b else elim replacement [
  | none ↦ record b { readp = 0; writep = 0 }
  | some m ↦ record {
    allocated = true;
    mem = m;
    readp = 0;
    writep = 0;
    wrap = size;
    size = size;
    base_size = size;
  }
]

-- a buffer whose storage is NULL
abbrev null_buffer : Buffer
null_buffer = record {
  allocated = false;
  mem = [];
  readp = 0;
  writep = 0;
  wrap = 0;
  size = 0;
  base_size = 0;
}

-- `buf_init`; `storage` is what `malloc(size)` returns.
pub init : ℕ → Option (List ℕ) → Buffer
init size storage = if ltb size 2 then null_buffer else elim storage [
  | none ↦ null_buffer
  | some m ↦ record {
    allocated = true;
    mem = m;
    readp = 0;
    writep = 0;
    wrap = size;
    size = size;
    base_size = size;
  }
]

-- `buf_destroy`; the pointers keep their values.
pub destroy : Buffer → Buffer
destroy b =
    if b.allocated then record b { allocated = false; mem = []; size = 0; base_size = 0 } else b
