-- ===== src/Pack/Words.antt =====
-- The words that `_scale_and_pack_frames` assembles from the bit patterns of a frame, with C's
-- masks and shifts, and how a little-endian machine stores them.
use apple_squeezer.Prelude.{ℕ, ◌*◌, ◌/◌, ◌^◌, List, [], ◌∷◌, bit_and, bit_or, u8, u16, u32}
use apple_squeezer.Sample.{Frame, pattern32, asr}

abbrev pub store32 : ℕ → List ℕ
store32 w = u8 w ∷ u8 (w / 2 ^ 8) ∷ u8 (w / 2 ^ 16) ∷ u8 (w / 2 ^ 24) ∷ []

abbrev pub store16 : ℕ → List ℕ
store16 w = u8 w ∷ u8 (w / 2 ^ 8) ∷ []

-- U16_LE and S16_LE: `(l >> 16 & 0x0000ffff) | (r & 0xffff0000)`
unfoldable pub word16 : Frame → ℕ
word16 f =
    bit_or (bit_and (pattern32 (asr f.left 16)) 0x0000ffff) (bit_and (pattern32 f.right) 0xffff0000)

-- U16_BE
unfoldable pub word16_swapped : Frame → ℕ
word16_swapped f =
    let l = pattern32 f.left in
    let r = pattern32 f.right in
    bit_or (bit_and l 0xff000000 / 2 ^ 24) (
      bit_or (bit_and l 0x00ff0000 / 2 ^ 8)
        (bit_or (bit_and r 0xff000000 / 2 ^ 8) (u32 (bit_and r 0x00ff0000 * 2 ^ 8))))

-- U8: `(l >> 24 & 0x000000ff) | (r >> 16 & 0x0000ff00)`
unfoldable pub word8 : Frame → ℕ
word8 f = u16 (
    bit_or (bit_and (pattern32 (asr f.left 24)) 0x000000ff)
      (bit_and (pattern32 (asr f.right 16)) 0x0000ff00))

-- U32_BE: the four bytes in reverse
unfoldable pub swap32 : ℕ → ℕ
swap32 x = bit_or (bit_and x 0xff000000 / 2 ^ 24) (
    bit_or (bit_and x 0x00ff0000 / 2 ^ 8)
      (bit_or (u32 (bit_and x 0x0000ff00 * 2 ^ 8)) (u32 (bit_and x 0x000000ff * 2 ^ 24))))

-- S24_3LE, two frames as three words.
unfoldable pub pair0 : Frame → Frame → ℕ
pair0 f g =
    bit_or (bit_and (pattern32 f.left) 0xffffff00 / 2 ^ 8)
      (u32 (bit_and (pattern32 f.right) 0x0000ff00 * 2 ^ 16))

unfoldable pub pair1 : Frame → Frame → ℕ
pair1 f g =
    bit_or (bit_and (pattern32 f.right) 0xffff0000 / 2 ^ 16)
      (u32 (bit_and (pattern32 g.left) 0x00ffff00 * 2 ^ 8))

unfoldable pub pair2 : Frame → Frame → ℕ
pair2 f g =
    bit_or (bit_and (pattern32 g.left) 0xff000000 / 2 ^ 24) (bit_and (pattern32 g.right) 0xffffff00)

-- One frame byte by byte.
unfoldable pub single : Frame → List ℕ
single f =
    let l = pattern32 f.left in
    let r = pattern32 f.right in
    u8 (bit_and l 0x0000ff00 / 2 ^ 8)
    ∷ u8 (bit_and l 0x00ff0000 / 2 ^ 16)
    ∷ u8 (bit_and l 0xff000000 / 2 ^ 24)
    ∷ u8 (bit_and r 0x0000ff00 / 2 ^ 8)
    ∷ u8 (bit_and r 0x00ff0000 / 2 ^ 16)
    ∷ u8 (bit_and r 0xff000000 / 2 ^ 24)
    ∷ []
