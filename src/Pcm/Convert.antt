-- ===== src/Pcm/Convert.antt =====
-- pcm_convert.h: `pcm_read_s32`, one sample from its bytes to a left-aligned 32-bit pattern.
pub mod Laws
pub mod Perfect
use apple_squeezer.Prelude.{
  ℕ, ◌+◌, ◌-◌, ◌*◌, ◌^◌, Bool, true, false, List, get_or, not, bit_and, bit_or, bit_xor, ◌==◌,
  if◌then◌else◌, u8, u32,
}

-- The four ways to put bytes together, with C's shifts and `|`.
abbrev pub join2 : ℕ → ℕ → ℕ
join2 low high = bit_or low (high * 2 ^ 8)

abbrev pub join3 : ℕ → ℕ → ℕ → ℕ
join3 a b c = bit_or (bit_or a (b * 2 ^ 8)) (c * 2 ^ 16)

abbrev pub join4 : ℕ → ℕ → ℕ → ℕ → ℕ
join4 a b c d = bit_or (bit_or (bit_or a (b * 2 ^ 8)) (c * 2 ^ 16)) (d * 2 ^ 24)

-- `if (raw & 0x00800000) raw |= 0xff000000;`
abbrev pub sign_extend24 : ℕ → ℕ
sign_extend24 raw = if bit_and raw 0x00800000 == 0 then raw else bit_or raw 0xff000000

-- `pcm_read_s32`; `p` holds `sample_size` bytes at least.
unfoldable pub pcm_read_s32 : List ℕ → ℕ → Bool → Bool → ℕ
pcm_read_s32 p sample_size bigendian unsigned_8bit =
    let p0 = get_or p 0 0 in
    let p1 = get_or p 1 0 in
    let p2 = get_or p 2 0 in
    let p3 = get_or p 3 0 in
    if sample_size == 1
    then u32 ((if unsigned_8bit then bit_xor p0 0x80 else p0) * 2 ^ 24)
    else if sample_size == 2
    then u32 ((if bigendian then join2 p1 p0 else join2 p0 p1) * 2 ^ 16)
    else if sample_size == 3
    then u32 (sign_extend24 (if bigendian then join3 p2 p1 p0 else join3 p0 p1 p2) * 2 ^ 8)
    else if not (sample_size == 4)
    then 0
    else if bigendian
    then join4 p3 p2 p1 p0
    else join4 p0 p1 p2 p3
