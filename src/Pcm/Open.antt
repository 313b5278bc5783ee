-- ===== src/Pcm/Open.antt =====
-- pcm.c: `pcm_open`, which takes the format from the four letters of the server's "strm" packet.
use apple_squeezer.Prelude.{
  ℕ, ◌+◌, ◌-◌, ◌*◌, ◌≡◌, ◌⊎◌, inl, inr, Bool-cases, ◌≤◌, Bool, false, ◌&&◌, ◌||◌, not, List, [],
  ◌∷◌, get_or, length, ltb, leb, ◌==◌, if◌then◌else◌, arith,
}
use apple_squeezer.Pcm.Chunks.{PcmState}
use apple_squeezer.Pcm.Header.Rounds.{IsUsable}
use apple_squeezer.Pcm.Header.Safe.{IsSafe, check_header-IsSafe}
use apple_squeezer.Pcm.Header.{check_header}

abbrev pub sample_rates : List ℕ
sample_rates =
    11025 ∷ 22050 ∷ 32000 ∷ 44100 ∷ 48000 ∷ 8000 ∷ 12000 ∷ 16000 ∷ 24000 ∷ 96000 ∷ 88200 ∷ 176400
    ∷ 192000 ∷ 352800 ∷ 384000 ∷ 0 ∷ 705600 ∷ 768000 ∷ 1411200 ∷ 1536000 ∷ []

-- The test of the arguments; `SIZE_MAX`, for a rate below '0', is past the end of the table.
abbrev pub bad_arguments : ℕ → ℕ → ℕ → ℕ → Bool
bad_arguments size rate chan endianness =
    ltb size b'0'
    || ltb b'3' size
    || ltb rate b'0'
    || leb (length sample_rates) (rate - b'0')
    || get_or sample_rates (rate - b'0') 0 == 0
    || not (chan == b'1') && not (chan == b'2')
    || not (endianness == b'0') && not (endianness == b'1')

-- `pcm_open`, but for the `buf_adjust` at its end.
unfoldable pub pcm_open : ℕ → ℕ → ℕ → ℕ → PcmState → PcmState
pcm_open size rate chan endianness s =
    let bad = bad_arguments size rate chan endianness in
    let bytes = if bad then 0 else size - b'0' + 1 in
    let n = if bad then 0 else chan - b'0' in
    record s {
      format_error = bad;
      sample_size = bytes;
      sample_rate = if bad then 0 else get_or sample_rates (rate - b'0') 0;
      channels = n;
      bigendian = not bad && endianness == b'0';
      unsigned_8bit = false;
      limit = false;
      bytes_per_frame = bytes * n;
    }

module _ (size rate chan endianness : ℕ) (e : bad_arguments size rate chan endianness ≡ false) where
  accepted_channels : chan - b'0' ≡ 1 ⊎ chan - b'0' ≡ 2
  accepted_channels = ground (arith, e)

  accepted_size : size - b'0' + 1 ≤ 4
  accepted_size = ground (arith, e)

  accepted_rate : 1 ≤ get_or sample_rates (rate - b'0') 0
  accepted_rate = ground (arith, e)

pcm_open-IsUsable :
    (size rate chan endianness : ℕ) (s : PcmState) → IsUsable (pcm_open size rate chan endianness s)
unfolding pcm_open IsUsable
pcm_open-IsUsable size rate chan endianness s =
    elim (Bool-cases (bad_arguments size rate chan endianness)) [
      | inl e ↦ inl e
      | inr e ↦ inr (
        rw e (accepted_channels size rate chan endianness e),
        rw e (omega arith),
        rw e (accepted_size size rate chan endianness e),
        rw e (accepted_rate size rate chan endianness e),
        omega arith,
      )
    ]

-- Whatever four letters the server sends and whatever bytes the stream starts with, `pcm_open`
-- followed by `_check_header` comes to an end, leaves either an error or one or two channels of
-- samples of 1 to 4 bytes at a rate other than 0 with the frame size that belongs to them, and
-- takes no more off the stream than there is in one piece.
pub check_header-pcm_open :
    (size rate chan endianness : ℕ) (s : PcmState) (from_file : Bool) (used : ℕ) (view : List ℕ)
    → IsSafe (length view) (check_header from_file used (pcm_open size rate chan endianness s) view)
check_header-pcm_open size rate chan endianness s from_file used view =
    check_header-IsSafe from_file used (pcm_open size rate chan endianness s) view
      (pcm_open-IsUsable size rate chan endianness s)
