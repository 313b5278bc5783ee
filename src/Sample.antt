-- ===== src/Sample.antt =====
-- Samples and gains of output_pack.c: signed 32-bit values as integers, their bit patterns, and
-- `gain`. A frame is a left and a right sample.
pub mod Laws
mod Tests
use apple_squeezer.Prelude.{
  ℕ, ◌+◌, ◌-◌, ◌*◌, ◌/◌, ◌%◌, ◌^◌, ◌≤◌, ◌<◌, Bool, ltb, if◌then◌else◌, List, [], ◌∷◌,
}
use apple_squeezer.Prelude.Int.{ℤ, pos, negsuc, pos_part, neg_part, ◌*ℤ◌, ltb_ℤ}

-- The integers that `s32_t` holds.
abbrev pub IsS32 : ℤ → Type 0
IsS32 z = (pos_part z < 2 ^ 31) × (neg_part z ≤ 2 ^ 31)

-- `(u32_t) z`
abbrev pub pattern32 : ℤ → ℕ
pattern32 (pos n) = n % 2 ^ 32
pattern32 (negsuc n) = 2 ^ 32 - 1 - n % 2 ^ 32

-- `(s32_t) u` for a 32-bit pattern
abbrev pub signed32 : ℕ → ℤ
signed32 u = if ltb u (2 ^ 31) then pos u else negsuc (2 ^ 32 - 1 - u)

-- `(s32_t) z` of a wider integer
abbrev pub to_s32 : ℤ → ℤ
to_s32 z = signed32 (pattern32 z)

-- `z >> k`, which rounds down
abbrev pub asr : ℤ → ℕ → ℤ
asr (pos n) k = pos (n / 2 ^ k)
asr (negsuc n) k = negsuc (n / 2 ^ k)

abbrev pub clamp : ℤ → ℤ → ℤ → ℤ
clamp low high z = if ltb_ℤ high z then high else if ltb_ℤ z low then low else z

-- `MAX_SCALESAMPLE` and `MIN_SCALESAMPLE`
abbrev pub max_scalesample : ℤ
max_scalesample = pos 0x7fffffffffff

abbrev pub min_scalesample : ℤ
min_scalesample = negsuc (0x7fffffffffff - 1)

-- `FIXED_ONE`
abbrev pub fixed_one : ℤ
fixed_one = pos 0x10000

-- `gain`: a 16.16 fixed-point product that saturates. The product of two `s32_t` fits an `s64_t`.
unfoldable pub gain : ℤ → ℤ → ℤ
unfolding ◌*ℤ◌
gain factor sample = to_s32 (asr (clamp min_scalesample max_scalesample (factor *ℤ sample)) 16)

-- Two interleaved samples.
pub record Frame : Type 0 where
  pub left : ℤ
  pub right : ℤ
