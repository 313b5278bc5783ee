-- ===== src/Pack/Pairs.antt =====
-- S24_3LE: two frames packed as three words hold the bytes of the two frames.
use apple_squeezer.Prelude.{
  ℕ, ◌+◌, ◌*◌, ◌/◌, ◌%◌, ◌^◌, ◌≡◌, refl, sym, ap, ◌∙◌, List, [], ◌∷◌, ◌++◌, arith, bit_and, u32,
  and_mask, or_sum_low, Bool-cases, inl, inr, ◌==◌, append-nil,
}
use apple_squeezer.Sample.{Frame, pattern32}
use apple_squeezer.Pack.{each, pack24}
use apple_squeezer.Pack.Words.{store32, pair0, pair1, pair2, single}
use apple_squeezer.Pack.Bytes.{byte_of, mask1, mask2, mask3, pattern32-lt}

-- One frame of S24_3LE: the upper three bytes of each sample.
abbrev pub frame24 : Frame → List ℕ
frame24 f =
    byte_of 1 (pattern32 f.left)
    ∷ byte_of 2 (pattern32 f.left)
    ∷ byte_of 3 (pattern32 f.left)
    ∷ byte_of 1 (pattern32 f.right)
    ∷ byte_of 2 (pattern32 f.right)
    ∷ byte_of 3 (pattern32 f.right)
    ∷ []

pub single-bytes : (f : Frame) → single f ≡ frame24 f
unfolding single
single-bytes f = ground (
  arith,
  mask1 (pattern32 f.left),
  mask2 (pattern32 f.left),
  mask3 (pattern32 f.left),
  mask1 (pattern32 f.right),
  mask2 (pattern32 f.right),
  mask3 (pattern32 f.right),
)

pair0_sum :
    (f g : Frame) → pair0 f g ≡ byte_of 1 (pattern32 f.right) * 2 ^ 24 + pattern32 f.left / 2 ^ 8
unfolding pair0
pair0_sum f g =
    let l = pattern32 f.left in
    let r = pattern32 f.right in
    let e : u32 (byte_of 1 r * 2 ^ 8 * 2 ^ 16) ≡ byte_of 1 r * 2 ^ 24 = omega arith in
    let e' : l / 2 ^ 8 % 2 ^ 24 * 2 ^ 8 / 2 ^ 8 ≡ l / 2 ^ 8 = omega (arith, pattern32-lt f.left) in
    rw (and_mask 8 24 l, mask1 r, e, e')
      (or_sum_low 24 (byte_of 1 r) (l / 2 ^ 8) (omega (arith, pattern32-lt f.left)))

pair1_sum :
    (f g : Frame)
    → pair1 f g ≡ pattern32 g.left / 2 ^ 8 % 2 ^ 16 * 2 ^ 16 + pattern32 f.right / 2 ^ 16
unfolding pair1
pair1_sum f g =
    let l = pattern32 g.left in
    let r = pattern32 f.right in
    let e : u32 (l / 2 ^ 8 % 2 ^ 16 * 2 ^ 8 * 2 ^ 8) ≡ l / 2 ^ 8 % 2 ^ 16 * 2 ^ 16 = omega arith in
    let e' : r / 2 ^ 16 % 2 ^ 16 * 2 ^ 16 / 2 ^ 16 ≡ r / 2 ^ 16 =
      omega (arith, pattern32-lt f.right) in
    rw (and_mask 16 16 r, and_mask 8 16 l, e, e')
      (or_sum_low 16 (l / 2 ^ 8 % 2 ^ 16) (r / 2 ^ 16) (omega (arith, pattern32-lt f.right)))

pair2_sum :
    (f g : Frame) → pair2 f g ≡ pattern32 g.right / 2 ^ 8 * 2 ^ 8 + byte_of 3 (pattern32 g.left)
unfolding pair2
pair2_sum f g =
    let l = pattern32 g.left in
    let r = pattern32 g.right in
    let e : byte_of 3 l * 2 ^ 24 / 2 ^ 24 ≡ byte_of 3 l = omega arith in
    let e' : r / 2 ^ 8 % 2 ^ 24 * 2 ^ 8 ≡ r / 2 ^ 8 * 2 ^ 8 = omega (arith, pattern32-lt g.right) in
    rw (mask3 l, and_mask 8 24 r, e, e') (or_sum_low 8 (r / 2 ^ 8) (byte_of 3 l) (omega arith))

pub pair-bytes :
    (f g : Frame)
    → store32 (pair0 f g) ++ (store32 (pair1 f g) ++ store32 (pair2 f g)) ≡ frame24 f ++ frame24 g
pair-bytes f g = ground (
  arith,
  pair0_sum f g,
  pair1_sum f g,
  pair2_sum f g,
  pattern32-lt f.left,
  pattern32-lt f.right,
  pattern32-lt g.left,
  pattern32-lt g.right,
)

-- Wherever the output starts, the loop writes the frames byte for byte.
pub pack24-eq-each : (addr : ℕ) (fs : List Frame) → pack24 addr fs ≡ each frame24 fs
unfolding pack24 each
pack24-eq-each addr [] = refl
pack24-eq-each addr (f ∷ []) = single-bytes f ∙ sym (append-nil (frame24 f))
pack24-eq-each addr (f ∷ g ∷ rest) =
    let wide = pack24-eq-each (addr + 12) rest in
    let narrow = pack24-eq-each (addr + 6) (g ∷ rest) in
    elim (Bool-cases (bit_and addr 0x3 == 0)) [
      | inl aligned ↦ rw (aligned, wide) (ap (λ t. t ++ each frame24 rest) (pair-bytes f g))
      | inr odd ↦ rw (odd, narrow) (ap (λ t. t ++ each frame24 (g ∷ rest)) (single-bytes f))
    ]
