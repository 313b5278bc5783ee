-- ===== src/Dop.antt =====
-- dop.c: DSD carried in 24-bit PCM frames. Every frame has a marker byte above 16 bits of DSD, and
-- the marker alternates between 0x05 and 0xFA.
pub mod Detect
pub mod Update
mod Tests
use apple_squeezer.Prelude.{
  ℕ, zero, suc, ◌+◌, ◌-◌, ◌*◌, ◌^◌, Bool, true, false, ◌&&◌, ◌||◌, List, [], ◌∷◌, bit_and, bit_or,
  if◌then◌else◌, ◌==◌, sub32, u32,
}

-- The marker bytes of one frame, as `*lptr` and `*rptr` read them.
pub record Markers : Type 0 where
  pub left : ℕ
  pub right : ℕ

abbrev pub marks : Markers → Bool
marks m = m.left == 0x05 && m.right == 0x05 || (m.left == 0xFA && m.right == 0xFA)

-- The loop of `is_stream_dop`: `next` is the marker expected, `matched` the run so far.
pub scan : List Markers → ℕ → ℕ → Bool
scan [] next matched = false
scan (m ∷ ms) next matched =
    let matched' = if m.left == next then matched + 1 else 1 in
    let next' = sub32 (0x05 + 0xFA) (if m.left == next then next else m.left) in
    let rest = scan ms next' matched' in
    if marks m then (if matched' == 32 then true else rest) else false

-- `is_stream_dop`
pub is_stream_dop : List Markers → Bool
unfolding scan
is_stream_dop ms = scan ms 0 0

-- One sample of `update_dop`: the marker goes above the 16 bits of DSD, inverted or not.
pub mark : Bool → ℕ → ℕ → ℕ
mark invert marker sample =
    bit_or (bit_and (if invert then 2 ^ 32 - 1 - sample else sample) 0x00FFFF00)
      (u32 (marker * 2 ^ 24))

-- `update_dop` on the frames at `ptr`, with the marker that the static variable holds; it returns
-- the marker that is then left in it.
unfoldable pub update_dop : Bool → ℕ → List (ℕ × ℕ) → List (ℕ × ℕ) × ℕ
unfolding mark
update_dop invert marker [] = ([], marker)
update_dop invert marker ((l, r) ∷ frames) =
    let (done, last) = update_dop invert (sub32 (0x05 + 0xFA) marker) frames in
    ((mark invert marker l, mark invert marker r) ∷ done, last)
