-- ===== src/Pcm/Convert/Laws.antt =====
-- pcm_convert.h: what `pcm_read_s32` reads.
use apple_squeezer.Prelude.{
  ℕ, zero, suc, ◌+◌, ◌-◌, ◌*◌, ◌%◌, ◌^◌, ◌≤◌, ◌<◌, ◌≡◌, refl, ◌∙◌, Bool, true, false, List, [], ◌∷◌,
  arith, bit_and, bit_xor, or_sum_low, ◌==◌, if◌then◌else◌, u32, ◌&&◌, length, Bool-cases, inl, inr,
  ltb, ==_iff, reverse, IsBytes,
}
use apple_squeezer.Sample.{signed32, pattern32}
use apple_squeezer.Pack.{OutputFormat, s16_le, s24_3le, s32_le}
use apple_squeezer.Pack.Refine.{encode}
use apple_squeezer.Pcm.Convert.{join2, join3, join4, sign_extend24, pcm_read_s32}

pub join2_sum : (a b : ℕ) → a < 2 ^ 8 → join2 a b ≡ a + b * 2 ^ 8
join2_sum a b h = or_sum_low 8 b a h ∙ omega arith

pub join3_sum : (a b c : ℕ) → a < 2 ^ 8 → b < 2 ^ 8 → join3 a b c ≡ a + b * 2 ^ 8 + c * 2 ^ 16
join3_sum a b c h k =
    rw (join2_sum a b h) (or_sum_low 16 c (a + b * 2 ^ 8) (omega arith) ∙ omega arith)

pub join4_sum :
    (a b c d : ℕ)
    → a < 2 ^ 8
    → b < 2 ^ 8
    → c < 2 ^ 8
    → join4 a b c d ≡ a + b * 2 ^ 8 + c * 2 ^ 16 + d * 2 ^ 24
join4_sum a b c d h k l =
    rw (join3_sum a b c h k)
      (or_sum_low 24 d (a + b * 2 ^ 8 + c * 2 ^ 16) (omega arith) ∙ omega arith)

sign_extend24_low : (raw : ℕ) → raw < 2 ^ 24 → u32 (sign_extend24 raw * 2 ^ 8) ≡ raw * 2 ^ 8
sign_extend24_low raw h = elim (Bool-cases (bit_and raw 0x00800000 == 0)) [
  | inl e ↦ rw e (omega arith)
  | inr e ↦ rw (e, or_sum_low 24 0xff raw h) (omega arith)
]

-- A check of every value below `n`.
every : ℕ → (ℕ → Bool) → Bool
every zero p = true
every (suc n) p = every n p && p n

every_sound : (n : ℕ) (p : ℕ → Bool) (x : ℕ) → x < n → every n p ≡ true → p x ≡ true
unfolding every
every_sound zero p x h e = absurd (omega arith)
every_sound (suc n) p x h e = ground (arith, every_sound n p x)

flips : every 256 (λ x. bit_xor x 0x80 == (x + 128) % 2 ^ 8) ≡ true
unfolding every
flips = refl

-- `x ^ 0x80` over a byte.
flip_byte : (x : ℕ) → x < 2 ^ 8 → bit_xor x 0x80 ≡ (x + 128) % 2 ^ 8
flip_byte x h = (==_iff (bit_xor x 0x80) ((x + 128) % 2 ^ 8)).0 (every_sound 256 _ x h flips)

-- The number that bytes stand for, the lowest first.
abbrev pub number_of : List ℕ → ℕ
number_of [] = 0
number_of (x ∷ xs) = x + 2 ^ 8 * number_of xs

abbrev pub in_order : Bool → List ℕ → List ℕ
in_order true p = reverse p
in_order false p = p

-- A sample of one to four bytes is read as the number that its bytes stand for in the stream's
-- order, moved to the top of 32 bits.
pub pcm_read_s32_lem :
    (p : List ℕ) (bigendian : Bool)
    → IsBytes p
    → 0 < length p
    → length p ≤ 4
    → pcm_read_s32 p (length p) bigendian false
      ≡ number_of (in_order bigendian p) * 2 ^ (32 - 8 * length p)
unfolding pcm_read_s32
pcm_read_s32_lem [] be h l u = absurd (omega arith)
pcm_read_s32_lem (a ∷ []) true (ha, _) l u = omega arith
pcm_read_s32_lem (a ∷ []) false (ha, _) l u = omega arith
pcm_read_s32_lem (a ∷ b ∷ []) true (ha, (hb, _)) l u = ground (arith, join2_sum b a hb)
pcm_read_s32_lem (a ∷ b ∷ []) false (ha, (hb, _)) l u = ground (arith, join2_sum a b ha)
pcm_read_s32_lem (a ∷ b ∷ c ∷ []) true (ha, (hb, (hc, _))) l u =
    sign_extend24_low (join3 c b a) (omega (arith, join3_sum c b a hc hb))
    ∙ omega (arith, join3_sum c b a hc hb)
pcm_read_s32_lem (a ∷ b ∷ c ∷ []) false (ha, (hb, (hc, _))) l u =
    sign_extend24_low (join3 a b c) (omega (arith, join3_sum a b c ha hb))
    ∙ omega (arith, join3_sum a b c ha hb)
pcm_read_s32_lem (a ∷ b ∷ c ∷ d ∷ []) true (ha, (hb, (hc, (hd, _)))) l u =
    omega (arith, join4_sum d c b a hd hc hb)
pcm_read_s32_lem (a ∷ b ∷ c ∷ d ∷ []) false (ha, (hb, (hc, (hd, _)))) l u =
    omega (arith, join4_sum a b c d ha hb hc)
pcm_read_s32_lem (a ∷ b ∷ c ∷ d ∷ e ∷ xs) be h l u = absurd (omega arith)

-- An unsigned 8-bit sample is read as its distance from the middle of its range.
pub pcm_read_s32-unsigned :
    (a : ℕ) (bigendian : Bool)
    → a < 2 ^ 8
    → pcm_read_s32 (a ∷ []) 1 bigendian true ≡ (a + 128) % 2 ^ 8 * 2 ^ 24
unfolding pcm_read_s32
pcm_read_s32-unsigned a be h = rw (flip_byte a h) (omega arith)

pattern32-signed32 : (u : ℕ) → u < 2 ^ 32 → pattern32 (signed32 u) ≡ u
pattern32-signed32 u h = elim (Bool-cases (ltb u (2 ^ 31))) [
  | inl e ↦ rw e (ground arith)
  | inr e ↦ rw e (ground arith)
]

-- The format of a device that has as many bytes to a sample.
pub format_of : ℕ → OutputFormat
format_of n = if n == 2 then s16_le else if n == 3 then s24_3le else s32_le

-- A little-endian sample of two to four bytes is read into the top of the 32-bit word: its encoding
-- for a device with as many bytes to a sample, as the specification of the output formats gives it,
-- is the bytes that were read.
pub encode-pcm_read_s32 :
    (p : List ℕ)
    → IsBytes p
    → 1 < length p
    → length p ≤ 4
    → encode (format_of (length p)) (signed32 (pcm_read_s32 p (length p) false false)) ≡ p
unfolding encode format_of
encode-pcm_read_s32 [] h l u = absurd (omega arith)
encode-pcm_read_s32 (a ∷ []) h l u = absurd (omega arith)
encode-pcm_read_s32 (a ∷ b ∷ []) h l u =
    let e = pcm_read_s32_lem (a ∷ b ∷ []) false h (omega arith) u in
    rw (e, pattern32-signed32 ((a + 2 ^ 8 * (b + 2 ^ 8 * 0)) * 2 ^ 16) (omega arith)) (ground arith)
encode-pcm_read_s32 (a ∷ b ∷ c ∷ []) h l u =
    let e = pcm_read_s32_lem (a ∷ b ∷ c ∷ []) false h (omega arith) u in
    rw (e, pattern32-signed32 ((a + 2 ^ 8 * (b + 2 ^ 8 * (c + 2 ^ 8 * 0))) * 2 ^ 8) (omega arith))
      (ground arith)
encode-pcm_read_s32 (a ∷ b ∷ c ∷ d ∷ []) h l u =
    let e = pcm_read_s32_lem (a ∷ b ∷ c ∷ d ∷ []) false h (omega arith) u in
    rw (e, pattern32-signed32 (number_of (a ∷ b ∷ c ∷ d ∷ []) * 1) (omega arith)) (ground arith)
encode-pcm_read_s32 (a ∷ b ∷ c ∷ d ∷ f ∷ xs) h l u = absurd (omega arith)
