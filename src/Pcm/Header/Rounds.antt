-- ===== src/Pcm/Header/Rounds.antt =====
-- A round of the loop of `_check_header` leaves a format that can be played, or an error.
use apple_squeezer.Prelude.{
  ℕ, ◌+◌, ◌-◌, ◌*◌, ◌/◌, ◌≤◌, ◌≡◌, ◌⊎◌, refl, Bool, true, false, ◌||◌, not, bit_and, List, ltb,
  ◌==◌, if◌then◌else◌, inl, inr, arith,
}
use apple_squeezer.Pcm.Chunks.{
  PcmState, HeaderFormat, wave, aiff, Round, stop, next, fail, data_chunk, ssnd_chunk, fmt_chunk,
  comm_format, comm_chunk, chunk, chunk_advance, bad_bits, bad_channels, little16, little32, big16,
  big32, at, aiff_rate,
}
use apple_squeezer.Pcm.Convert.{join2}

-- A format that `pcm_decode` can step through.
abbrev pub IsPlayable : PcmState → Type 0
IsPlayable s =
    (s.channels ≡ 1 ⊎ s.channels ≡ 2)
    × 1 ≤ s.sample_size
    × s.sample_size ≤ 4
    × 1 ≤ s.sample_rate
    × s.bytes_per_frame ≡ s.channels * s.sample_size

unfoldable pub IsUsable : PcmState → Type 0
IsUsable s = s.format_error ≡ true ⊎ IsPlayable s

-- A usable state, and no more taken off the stream than `limit` bytes.
unfoldable pub IsSafeRound : ℕ → Round → Type 0
IsSafeRound limit (stop returns s consumed) = IsUsable s × consumed ≤ limit
IsSafeRound limit (next have_format s advance) = IsUsable s

pub split_if {ℓ m} :
    {A : Type ℓ} (P : A → Type m) (b : Bool) {x y : A}
    → (b ≡ true → P x)
    → (b ≡ false → P y)
    → P (if b then x else y)
split_if P true f g = f refl
split_if P false f g = g refl

stop-IsSafe :
    (limit : ℕ) (returns : Bool) (s : PcmState) (consumed : ℕ)
    → IsUsable s
    → consumed ≤ limit
    → IsSafeRound limit (stop returns s consumed)
unfolding IsSafeRound
stop-IsSafe limit returns s consumed u h = (u, h)

next-IsSafe :
    (limit : ℕ) (have_format : Bool) (s : PcmState) (advance : ℕ)
    → IsUsable s
    → IsSafeRound limit (next have_format s advance)
unfolding IsSafeRound
next-IsSafe limit have_format s advance u = u

IsPlayable-IsUsable : (s : PcmState) → IsPlayable s → IsUsable s
unfolding IsUsable
IsPlayable-IsUsable s p = inr p

fail-IsUsable : (s : PcmState) → IsUsable (fail s)
unfolding IsUsable
fail-IsUsable s = inl refl

failed : (limit : ℕ) (s : PcmState) → IsSafeRound limit (stop true (fail s) 0)
failed limit s = stop-IsSafe _ _ _ _ (fail-IsUsable s) (omega arith)

bits-IsWhole : (bits : ℕ) → bad_bits bits ≡ false → (1 ≤ bits / 8) × bits / 8 ≤ 4
bits-IsWhole bits h = ground arith

channels-IsFew : (n : ℕ) → bad_channels n ≡ false → n ≡ 1 ⊎ n ≡ 2
channels-IsFew n h = ground arith

-- The limit and what is left do not matter.
limit_change :
    (s : PcmState) (left : ℕ) (limited : Bool)
    → IsUsable s
    → IsUsable (record s { audio_left = left; limit = limited })
unfolding IsUsable
limit_change s left limited u = u

data_chunk-IsSafe :
    (have_format : Bool) (s : PcmState) (pos avail len : ℕ)
    → IsUsable s
    → 8 ≤ avail
    → IsSafeRound (pos + avail) (data_chunk have_format s pos len)
unfolding data_chunk
data_chunk-IsSafe true s pos avail len u h =
    stop-IsSafe _ _ _ _ (limit_change _ _ _ u) (omega arith)
data_chunk-IsSafe false s pos avail len u h = failed _ s

ssnd_chunk-IsSafe :
    (have_format from_file : Bool) (used : ℕ) (s : PcmState) (bytes : List ℕ) (avail pos len : ℕ)
    → IsUsable s
    → IsSafeRound (pos + avail) (ssnd_chunk have_format from_file used s bytes avail pos len)
unfolding ssnd_chunk
ssnd_chunk-IsSafe false from_file used s bytes avail pos len u = failed _ s
ssnd_chunk-IsSafe true from_file used s bytes avail pos len u = ground (
  arith,
  failed (pos + avail) s,
  stop-IsSafe (pos + avail) true s (pos + 16 + big32 bytes 8) u,
  stop-IsSafe (pos + avail) true (record s { audio_left = len - 8 - big32 bytes 8; limit = true })
      (pos + 16 + big32 bytes 8) (limit_change _ _ _ u),
)

fmt_chunk-IsSafe :
    (limit : ℕ) (s : PcmState) (bytes : List ℕ) (len : ℕ)
    → IsSafeRound limit (fmt_chunk s bytes len)
unfolding fmt_chunk
fmt_chunk-IsSafe limit s bytes len =
    split_if (IsSafeRound limit)
      (not (little16 bytes 8 == 1)
        || bad_channels (little16 bytes 10)
        || little32 bytes 12 == 0
        || bad_bits (little16 bytes 22))
      (λ _. failed _ s)
      (λ e.
        let bits = bits-IsWhole (little16 bytes 22) (ground (arith, e)) in
        next-IsSafe _ _ _ _ (
          IsPlayable-IsUsable _ (
            channels-IsFew (little16 bytes 10) (ground (arith, e)),
            bits.0,
            bits.1,
            ground (arith, e),
            refl,
          )))

comm_format-IsSafe :
    (limit : ℕ) (s : PcmState) (bytes : List ℕ) (len : ℕ) (big : Bool)
    → IsSafeRound limit (comm_format s bytes len big)
unfolding comm_format
comm_format-IsSafe limit s bytes len big =
    let biased = join2 (at bytes 17) (bit_and (at bytes 16) 0x7f) in
    let s' = record s {
      channels = big16 bytes 8;
      sample_size = big16 bytes 14 / 8;
      bigendian = big;
      unsigned_8bit = false;
    } in
    split_if (IsSafeRound limit)
      (bad_channels (big16 bytes 8)
        || bad_bits (big16 bytes 14)
        || ltb biased 16383
        || ltb 16445 biased)
      (λ _. failed _ s')
      (λ e.
        split_if (IsSafeRound limit) (aiff_rate biased (big32 bytes 18) == 0)
          (λ _. failed _ (record s' { sample_rate = aiff_rate biased (big32 bytes 18) }))
          (λ e'.
            let bits = bits-IsWhole (big16 bytes 14) (ground (arith, e)) in
            next-IsSafe _ _ _ _ (
              IsPlayable-IsUsable _ (
                channels-IsFew (big16 bytes 8) (ground (arith, e)),
                bits.0,
                bits.1,
                ground (arith, e'),
                refl,
              ))))

comm_chunk-IsSafe :
    (limit : ℕ) (aifc : Bool) (s : PcmState) (bytes : List ℕ) (avail len : ℕ)
    → IsUsable s
    → IsSafeRound limit (comm_chunk aifc s bytes avail len)
unfolding comm_chunk
comm_chunk-IsSafe limit aifc s bytes avail len u = ground (
  arith,
  comm_format-IsSafe limit s bytes len true,
  comm_format-IsSafe limit s bytes len false,
  failed limit s,
  stop-IsSafe limit false s 0 u,
)

pub chunk-IsSafe :
    (format : HeaderFormat) (aifc from_file : Bool) (used : ℕ) (have_format : Bool) (s : PcmState)
    (bytes : List ℕ) (avail pos : ℕ)
    → IsUsable s
    → 8 ≤ avail
    → IsSafeRound (pos + avail) (chunk format aifc from_file used have_format s bytes avail pos)
unfolding chunk
chunk-IsSafe wave aifc from_file used have_format s bytes avail pos u h =
    let len = little32 bytes 4 in
    ground (
      data_chunk-IsSafe have_format s pos avail len u h,
      fmt_chunk-IsSafe (pos + avail) s bytes len,
      next-IsSafe (pos + avail) have_format s (chunk_advance len) u,
      arith,
    )
chunk-IsSafe aiff aifc from_file used have_format s bytes avail pos u h =
    let len = big32 bytes 4 in
    ground (
      ssnd_chunk-IsSafe have_format from_file used s bytes avail pos len u,
      comm_chunk-IsSafe (pos + avail) aifc s bytes avail len u,
      next-IsSafe (pos + avail) have_format s (chunk_advance len) u,
      arith,
    )
