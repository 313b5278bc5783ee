-- ===== src/Pack/Bytes.antt =====
-- What the packed words hold, byte by byte.
use apple_squeezer.Prelude.{
  ℕ, ◌+◌, ◌*◌, ◌/◌, ◌%◌, ◌^◌, ◌<◌, ◌≡◌, ap, ap₂, ◌∙◌, [], ◌∷◌, arith, bit_and, bit_or, u8, u32,
}
use apple_squeezer.Prelude.{and_mask, or_sum_low}
use apple_squeezer.Prelude.Int.{ℤ, pos, negsuc}
use apple_squeezer.Sample.{Frame, pattern32, asr, IsS32}
use apple_squeezer.Pack.Words.{store32, store16, word16, word16_swapped, word8, swap32}

pub pattern32-lt : (z : ℤ) → pattern32 z < 2 ^ 32
pattern32-lt (pos n) = omega arith
pattern32-lt (negsuc n) = omega arith

-- Shifting right keeps the upper bits of the pattern, below the copies of the sign.
asr_pattern :
    (z : ℤ)
    → IsS32 z
    → (pattern32 (asr z 16) % 2 ^ 16 ≡ pattern32 z / 2 ^ 16)
      × (pattern32 (asr z 24) % 2 ^ 8 ≡ pattern32 z / 2 ^ 24)
      × (pattern32 (asr z 8) % 2 ^ 24 ≡ pattern32 z / 2 ^ 8)
asr_pattern (pos n) h = omega arith
asr_pattern (negsuc n) h = omega arith

-- The bytes of a pattern, the lowest first.
abbrev pub byte_of : ℕ → ℕ → ℕ
byte_of i x = u8 (x / 2 ^ (8 * i))

-- The words as sums of fields.
word16_sum :
    (f : Frame)
    → word16 f ≡ pattern32 f.right / 2 ^ 16 % 2 ^ 16 * 2 ^ 16 + pattern32 (asr f.left 16) % 2 ^ 16
unfolding word16
word16_sum f =
    let low : bit_and (pattern32 (asr f.left 16)) 0xffff ≡ pattern32 (asr f.left 16) % 2 ^ 16 =
      and_mask 0 16 (pattern32 (asr f.left 16)) ∙ omega arith in
    ap₂ bit_or low (and_mask 16 16 (pattern32 f.right)) ∙ or_sum_low 16 _ _ (omega arith)

pub word16-bytes :
    (f : Frame)
    → IsS32 f.left
    → store32 (word16 f)
      ≡ byte_of 2 (pattern32 f.left)
        ∷ byte_of 3 (pattern32 f.left)
        ∷ byte_of 2 (pattern32 f.right)
        ∷ byte_of 3 (pattern32 f.right)
        ∷ []
word16-bytes f h =
    ground
      (arith, word16_sum f, (asr_pattern f.left h).0, pattern32-lt f.right, pattern32-lt f.left)

word8_sum :
    (f : Frame)
    → word8 f
      ≡ pattern32 (asr f.right 16) / 2 ^ 8 % 2 ^ 8 * 2 ^ 8 + pattern32 (asr f.left 24) % 2 ^ 8
unfolding word8
word8_sum f =
    let low : bit_and (pattern32 (asr f.left 24)) 0xff ≡ pattern32 (asr f.left 24) % 2 ^ 8 =
      and_mask 0 8 (pattern32 (asr f.left 24)) ∙ omega arith in
    ap (λ t. t % 2 ^ 16)
      (ap₂ bit_or low (and_mask 8 8 (pattern32 (asr f.right 16)))
        ∙ or_sum_low 8 (pattern32 (asr f.right 16) / 2 ^ 8 % 2 ^ 8)
            (pattern32 (asr f.left 24) % 2 ^ 8) (omega arith))
    ∙ omega arith

pub word8-bytes :
    (f : Frame)
    → IsS32 f.left
    → IsS32 f.right
    → store16 (word8 f) ≡ byte_of 3 (pattern32 f.left) ∷ byte_of 3 (pattern32 f.right) ∷ []
word8-bytes f h k = ground (
  arith,
  word8_sum f,
  asr_pattern f.left h,
  asr_pattern f.right k,
  pattern32-lt f.right,
  pattern32-lt f.left,
)

-- The four byte masks.
mask0 : (x : ℕ) → bit_and x 0x000000ff ≡ byte_of 0 x
mask0 x = and_mask 0 8 x ∙ omega arith

pub mask1 : (x : ℕ) → bit_and x 0x0000ff00 ≡ byte_of 1 x * 2 ^ 8
mask1 x = and_mask 8 8 x

pub mask2 : (x : ℕ) → bit_and x 0x00ff0000 ≡ byte_of 2 x * 2 ^ 16
mask2 x = and_mask 16 8 x

pub mask3 : (x : ℕ) → bit_and x 0xff000000 ≡ byte_of 3 x * 2 ^ 24
mask3 x = and_mask 24 8 x

-- Four bytes put side by side by `|`, the lowest first.
or_bytes :
    (a b c d : ℕ)
    → a < 2 ^ 8
    → b < 2 ^ 8
    → c < 2 ^ 8
    → bit_or a (bit_or (b * 2 ^ 8) (bit_or (c * 2 ^ 16) (d * 2 ^ 24)))
      ≡ a + b * 2 ^ 8 + c * 2 ^ 16 + d * 2 ^ 24
or_bytes a b c d ha hb hc =
    let e1 : bit_or (c * 2 ^ 16) (d * 2 ^ 24) ≡ (d * 2 ^ 8 + c) * 2 ^ 16 =
      or_sum_low 24 d (c * 2 ^ 16) (omega arith) ∙ omega arith in
    let e2 : bit_or (b * 2 ^ 8) ((d * 2 ^ 8 + c) * 2 ^ 16) ≡ ((d * 2 ^ 8 + c) * 2 ^ 8 + b) * 2 ^ 8 =
      or_sum_low 16 (d * 2 ^ 8 + c) (b * 2 ^ 8) (omega arith) ∙ omega arith in
    rw (e1, e2) (or_sum_low 8 ((d * 2 ^ 8 + c) * 2 ^ 8 + b) a ha ∙ omega arith)

swap32_sum :
    (x : ℕ)
    → swap32 x ≡ byte_of 3 x + byte_of 2 x * 2 ^ 8 + byte_of 1 x * 2 ^ 16 + byte_of 0 x * 2 ^ 24
unfolding swap32
swap32_sum x =
    let e3 : byte_of 3 x * 2 ^ 24 / 2 ^ 24 ≡ byte_of 3 x = omega arith in
    let e2 : byte_of 2 x * 2 ^ 16 / 2 ^ 8 ≡ byte_of 2 x * 2 ^ 8 = omega arith in
    let e1 : u32 (byte_of 1 x * 2 ^ 8 * 2 ^ 8) ≡ byte_of 1 x * 2 ^ 16 = omega arith in
    let e0 : u32 (byte_of 0 x * 2 ^ 24) ≡ byte_of 0 x * 2 ^ 24 = omega arith in
    rw (mask0 x, mask1 x, mask2 x, mask3 x, e3, e2, e1, e0)
      (or_bytes (byte_of 3 x) (byte_of 2 x) (byte_of 1 x) (byte_of 0 x) (omega arith) (omega arith)
        (omega arith))

pub swap32-bytes :
    (x : ℕ) → store32 (swap32 x) ≡ byte_of 3 x ∷ byte_of 2 x ∷ byte_of 1 x ∷ byte_of 0 x ∷ []
swap32-bytes x = ground (arith, swap32_sum x)

word16_swapped_sum :
    (f : Frame)
    → word16_swapped f
      ≡ byte_of 3 (pattern32 f.left)
        + byte_of 2 (pattern32 f.left) * 2 ^ 8
        + byte_of 3 (pattern32 f.right) * 2 ^ 16
        + byte_of 2 (pattern32 f.right) * 2 ^ 24
unfolding word16_swapped
word16_swapped_sum f =
    let l = pattern32 f.left in
    let r = pattern32 f.right in
    let e3 : byte_of 3 l * 2 ^ 24 / 2 ^ 24 ≡ byte_of 3 l = omega arith in
    let e2 : byte_of 2 l * 2 ^ 16 / 2 ^ 8 ≡ byte_of 2 l * 2 ^ 8 = omega arith in
    let e1 : byte_of 3 r * 2 ^ 24 / 2 ^ 8 ≡ byte_of 3 r * 2 ^ 16 = omega arith in
    let e0 : u32 (byte_of 2 r * 2 ^ 16 * 2 ^ 8) ≡ byte_of 2 r * 2 ^ 24 = omega arith in
    rw (mask2 l, mask3 l, mask2 r, mask3 r, e3, e2, e1, e0)
      (or_bytes (byte_of 3 l) (byte_of 2 l) (byte_of 3 r) (byte_of 2 r) (omega arith) (omega arith)
        (omega arith))

pub word16_swapped-bytes :
    (f : Frame)
    → store32 (word16_swapped f)
      ≡ byte_of 3 (pattern32 f.left)
        ∷ byte_of 2 (pattern32 f.left)
        ∷ byte_of 3 (pattern32 f.right)
        ∷ byte_of 2 (pattern32 f.right)
        ∷ []
word16_swapped-bytes f = ground (arith, word16_swapped_sum f)
