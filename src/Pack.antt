-- ===== src/Pack.antt =====
-- output_pack.c: mixing to mono, scaling by the gains and packing into the device's format, as
-- compiled for a little-endian machine. The `cnt` frames at `inputptr` are a list; what is written
-- to `outputptr` is a list of bytes, and the address of `outputptr` a number.
pub mod Words
pub mod Bytes
pub mod Pairs
pub mod Refine
mod Tests
use apple_squeezer.Prelude.{
  ℕ, suc, ◌+◌, ◌-◌, ◌*◌, ◌/◌, ◌%◌, ◌^◌, Bool, true, false, ◌&&◌, not, List, [], ◌∷◌, ◌++◌, map,
  ◌==◌, leb, ltb, if◌then◌else◌, bit_and, bit_or,
}
use apple_squeezer.Prelude.Int.{ℤ, pos, negsuc, pos_part, neg_part, ◌+ℤ◌, ltb_ℤ}
use apple_squeezer.Sample.{Frame, gain, fixed_one, pattern32, to_s32, asr}
use Words.{store32, store16, word16, word16_swapped, word8, swap32, pair0, pair1, pair2, single}

-- `output_format`
pub data OutputFormat : Type 0 where
  s32_le s24_le s24_3le s16_le u8 u16_le u16_be u32_le u32_be : OutputFormat

-- `flags & MONO_LEFT` and `flags & MONO_RIGHT`
abbrev pub mono_left : ℕ → Bool
mono_left flags = not (bit_and flags 0x01 == 0)

abbrev pub mono_right : ℕ → Bool
mono_right flags = not (bit_and flags 0x02 == 0)

-- `z / 2` of C, which rounds towards 0
abbrev pub half : ℤ → ℤ
half (pos n) = pos (n / 2)
half (negsuc n) = if ltb n 1 then pos 0 else negsuc (suc n / 2 - 1)

-- What the loops before the `switch` do to one frame.
pub mixed : ℕ → Frame → Frame
unfolding ◌+ℤ◌
mixed flags f =
    if mono_left flags && mono_right flags
    then (let m = to_s32 (half (f.left +ℤ f.right)) in record { left = m; right = m })
    else if mono_right flags
    then record { left = f.right; right = f.right }
    else if mono_left flags
    then record { left = f.left; right = f.left }
    else f

abbrev pub is_fixed_one : ℤ → Bool
is_fixed_one (pos n) = n == 0x10000
is_fixed_one (negsuc n) = false

-- The frame that a branch of the `switch` packs: as it is for two unit gains, else scaled.
pub scaled : ℤ → ℤ → Frame → Frame
unfolding gain
scaled gain_l gain_r f =
    if is_fixed_one gain_l && is_fixed_one gain_r
    then f
    else record { left = gain gain_l f.left; right = gain gain_r f.right }

-- The loop over one frame per round.
pub each : (Frame → List ℕ) → List Frame → List ℕ
each f [] = []
each f (x ∷ xs) = f x ++ each f xs

-- The loop of S24_3LE: two frames at a time as three words where `optr` is aligned.
pub pack24 : ℕ → List Frame → List ℕ
unfolding single pair0 pair1 pair2
pack24 addr [] = []
pack24 addr (f ∷ []) = single f
pack24 addr (f ∷ g ∷ rest) =
    let words =
      store32 (pair0 f g)
      ++ (store32 (pair1 f g) ++ (store32 (pair2 f g) ++ pack24 (addr + 12) rest)) in
    let bytes = single f ++ pack24 (addr + 6) (g ∷ rest) in
    if bit_and addr 0x3 == 0 then words else bytes

-- The `switch` over the frames that the mono mixing left.
pub packed : OutputFormat → ℕ → ℤ → ℤ → List Frame → List ℕ
unfolding each pack24 scaled word16 word16_swapped word8 swap32
packed u32_le addr gl gr fs =
    each (λ f. store32 (pattern32 f.left) ++ store32 (pattern32 f.right)) fs
packed u32_be addr gl gr fs =
    each (λ f. store32 (swap32 (pattern32 f.left)) ++ store32 (swap32 (pattern32 f.right))) fs
packed u16_le addr gl gr fs = each (λ f. store32 (word16 f)) fs
packed u16_be addr gl gr fs = each (λ f. store32 (word16_swapped f)) fs
packed u8 addr gl gr fs = each (λ f. store16 (word8 f)) fs
packed s16_le addr gl gr fs = each (λ f. store32 (word16 (scaled gl gr f))) fs
packed s24_le addr gl gr fs =
    each
      (λ f.
        let s = scaled gl gr f in
        store32 (pattern32 (asr s.left 8)) ++ store32 (pattern32 (asr s.right 8)))
      fs
packed s24_3le addr gl gr fs = pack24 addr (map (scaled gl gr) fs)
packed s32_le addr gl gr fs =
    each (λ f. let s = scaled gl gr f in store32 (pattern32 s.left) ++ store32 (pattern32 s.right))
      fs

-- `_scale_and_pack_frames`: the input as the mono mixing leaves it, and the bytes written.
pub scale_and_pack_frames : ℕ → List Frame → ℤ → ℤ → ℕ → OutputFormat → List Frame × List ℕ
unfolding packed mixed
scale_and_pack_frames addr frames gain_l gain_r flags format =
    let input = map (mixed flags) frames in (input, packed format addr gain_l gain_r input)
