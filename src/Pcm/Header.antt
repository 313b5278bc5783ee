-- ===== src/Pcm/Header.antt =====
-- pcm.c: `_check_header`, which finds the samples of a WAV or AIFF file.

pub mod Rounds
pub mod Safe
pub mod Wav
use apple_squeezer.Prelude.{
  ℕ, zero, suc, ◌+◌, ◌-◌, Bool, true, false, ◌&&◌, ◌||◌, List, drop, length, ltb, leb,
  if◌then◌else◌,
}
use apple_squeezer.Pcm.Chunks.{PcmState, HeaderFormat, wave, aiff, Round, stop, next, is_tag, chunk}

-- What `_check_header` returns, the state it leaves, and what it takes off the stream buffer.
-- `unfinished` means that the fuel ran out.
pub data Checked : Type 0 where
  checked : (returns : Bool) (state : PcmState) (consumed : ℕ) → Checked
  unfinished : Checked

-- The loop over the chunks: `bytes` is what stands at `ptr`, `pos` the offset of `ptr`.
unfoldable pub walk : ℕ → HeaderFormat → Bool → Bool → ℕ → Bool → PcmState → List ℕ → ℕ → Checked
unfolding chunk
walk zero format aifc from_file used have_format s bytes pos = unfinished
walk (suc fuel) format aifc from_file used have_format s bytes pos =
    let avail = length bytes in
    let round = chunk format aifc from_file used have_format s bytes avail pos in
    if ltb avail 8 then checked false s 0 else elim round [
      | stop returns s' consumed ↦ checked returns s' consumed
      | next have' s' advance ↦
          let rest =
            walk fuel format aifc from_file used have' s' (drop advance bytes) (pos + advance) in
          if leb 8 advance && leb advance avail then rest else checked false s' 0
    ]

-- `_check_header` on the bytes that can be read in one piece, of `used` in the buffer.
unfoldable pub check_header : Bool → ℕ → PcmState → List ℕ → Checked
unfolding walk
check_header from_file used s view =
    let bytes = length view in
    let riff = is_tag view 0 b'R' b'I' b'F' b'F' in
    let form = is_tag view 0 b'F' b'O' b'R' b'M' in
    let aifc = is_tag view 8 b'A' b'I' b'F' b'C' in
    if leb 12 bytes && riff && is_tag view 8 b'W' b'A' b'V' b'E'
    then walk bytes wave false from_file used false s (drop 12 view) 12
    else if leb 12 bytes && form && (is_tag view 8 b'A' b'I' b'F' b'F' || aifc)
    then walk bytes aiff aifc from_file used false s (drop 12 view) 12
    else if ltb bytes 12 && leb 4 bytes && (riff || form)
    then checked false s 0
    else checked true s 0
