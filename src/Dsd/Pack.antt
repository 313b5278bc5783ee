-- ===== src/Dsd/Pack.antt =====
-- dsd.c: what `_decode_dsdiff` and `_decode_dsf` write for the bytes they read.
pub mod Laws
pub mod Bytes
use apple_squeezer.Prelude.{
  ℕ, zero, suc, ◌+◌, ◌*◌, ◌^◌, Bool, List, [], ◌∷◌, ◌++◌, get_or, drop, Option, none, some, bit_or,
  ◌==◌, if◌then◌else◌,
}
use apple_squeezer.Pack.Words.{store32}
use apple_squeezer.Dsd.{
  DsdFormat, pcm, dop, dsd_u8, dsd_u16_le, dsd_u32_le, dsd_u16_be, dsd_u32_be, dop_s24_le,
  dop_s24_3le,
}

-- The groups of formats that are packed alike, other than PCM.
pub data Layout : Type 0 where
  words halves bytes dop_halves : Layout

abbrev pub layout : DsdFormat → Option Layout
layout pcm = none
layout dop = some dop_halves
layout dop_s24_le = some dop_halves
layout dop_s24_3le = some dop_halves
layout dsd_u8 = some bytes
layout dsd_u16_le = some halves
layout dsd_u16_be = some halves
layout dsd_u32_le = some words
layout dsd_u32_be = some words

-- The bytes of a channel in a frame.
abbrev pub width : Layout → ℕ
width words = 4
width halves = 2
width dop_halves = 2
width bytes = 1

abbrev pub width_of : Option Layout → ℕ
width_of none = 1
width_of (some l) = width l

-- One word of output, of bytes that lie `stride` apart.
unfoldable pub word : Layout → ℕ → List ℕ → ℕ
word words stride p =
    bit_or
      (bit_or (bit_or (get_or p 0 0 * 2 ^ 24) (get_or p stride 0 * 2 ^ 16))
        (get_or p (2 * stride) 0 * 2 ^ 8))
      (get_or p (3 * stride) 0)
word halves stride p = bit_or (get_or p 0 0 * 2 ^ 24) (get_or p stride 0 * 2 ^ 16)
word bytes stride p = get_or p 0 0 * 2 ^ 24
word dop_halves stride p = bit_or (get_or p 0 0 * 2 ^ 16) (get_or p stride 0 * 2 ^ 8)

-- A frame of DSDIFF; one channel is written twice.
unfoldable pub frame_words : Layout → ℕ → List ℕ → List ℕ
unfolding word
frame_words l channels p =
    store32 (word l channels p) ++ store32 (word l channels (if channels == 1 then p else drop 1 p))

-- The loop `while (count--)` over the frames of DSDIFF.
unfoldable pub pack_frames : Layout → ℕ → ℕ → List ℕ → List ℕ
unfolding frame_words
pack_frames l channels zero p = []
pack_frames l channels (suc count) p =
    frame_words l channels p ++ pack_frames l channels count (drop (channels * width l) p)

-- The bytes that `dsd2pcm_translate` reads: `count` of them, `stride` apart.
unfoldable pub strided : ℕ → ℕ → List ℕ → List ℕ
strided zero stride p = []
strided (suc count) stride p = get_or p 0 0 ∷ strided count stride (drop stride p)

-- The two loops that write PCM.
unfoldable pub interleave : List ℕ → List ℕ → List ℕ
interleave [] rs = []
interleave (l ∷ ls) [] = []
interleave (l ∷ ls) (r ∷ rs) = store32 l ++ (store32 r ++ interleave ls rs)

-- The state of dsd2pcm for the two channels.
pub record Filters {ℓ} (F : Type ℓ) : Type ℓ where
  pub left : F
  pub right : F

-- `translate` is `dsd2pcm_translate`, for bytes with the most significant bit first, and `_pcm32` of
-- what it gives.
module _ {ℓ} {F : Type ℓ} (translate : F → List ℕ → List ℕ × F) where
  unfoldable pub pack_pcm : ℕ → ℕ → List ℕ → Filters F → List ℕ × Filters F
  unfolding strided interleave
  pack_pcm channels count p filters =
      let (ls, left) = translate filters.left (strided count channels p) in
      let (rs, right) = translate filters.right (strided count channels (drop 1 p)) in
      if channels == 1
      then (interleave ls ls, record { left = left; right = filters.right })
      else (interleave ls rs, record { left = left; right = right })

  -- The `switch (outfmt)` of `_decode_dsdiff`.
  unfoldable pub pack_dsdiff : Option Layout → ℕ → ℕ → List ℕ → Filters F → List ℕ × Filters F
  unfolding pack_frames pack_pcm
  pack_dsdiff none channels count p filters = pack_pcm channels count p filters
  pack_dsdiff (some l) channels count p filters = (pack_frames l channels count p, filters)
