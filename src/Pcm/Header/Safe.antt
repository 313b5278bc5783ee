-- ===== src/Pcm/Header/Safe.antt =====
-- `_check_header` ends, and whatever bytes it is given it leaves a format that can be played.
use apple_squeezer.Prelude.{
  ℕ, zero, suc, ◌+◌, ◌≤◌, ◌<◌, Bool, true, false, ◌&&◌, ◌||◌, List, drop, length, ltb, leb,
  if◌then◌else◌, arith, length-drop,
}
use apple_squeezer.Pcm.Chunks.{PcmState, HeaderFormat, wave, aiff, Round, stop, next, chunk, is_tag}
use apple_squeezer.Pcm.Header.{Checked, checked, unfinished, walk, check_header}
use apple_squeezer.Pcm.Header.Rounds.{IsUsable, IsSafeRound, split_if, chunk-IsSafe}

-- An end, and there a usable state, and no more taken off the stream than `limit` bytes.
unfoldable pub IsSafe : ℕ → Checked → Type 0
IsSafe limit (checked returns s consumed) = IsUsable s × consumed ≤ limit
IsSafe limit unfinished = ⊥

checked-IsSafe :
    (limit : ℕ) (returns : Bool) (s : PcmState) (consumed : ℕ)
    → IsUsable s
    → consumed ≤ limit
    → IsSafe limit (checked returns s consumed)
unfolding IsSafe
checked-IsSafe limit returns s consumed u h = (u, h)

step-IsSafe :
    (limit bound : ℕ)
    → bound ≤ limit
    → (round : Round) (go_on : Bool → PcmState → ℕ → Checked) → IsSafeRound bound round
    → ((have_format : Bool) (s : PcmState) (advance : ℕ)
        → IsUsable s
        → IsSafe limit (go_on have_format s advance))
    → IsSafe limit (elim round [
      | stop returns s consumed ↦ checked returns s consumed
      | next have_format s advance ↦ go_on have_format s advance
    ])
unfolding IsSafeRound IsSafe
step-IsSafe limit bound h (stop returns s consumed) go_on p f = (p.0, omega (arith, p.1))
step-IsSafe limit bound h (next have_format s advance) go_on p f = f have_format s advance p

walk-IsSafe :
    (limit fuel : ℕ) (format : HeaderFormat) (aifc from_file : Bool) (used : ℕ) (have_format : Bool)
    (s : PcmState) (bytes : List ℕ) (pos : ℕ)
    → IsUsable s
    → pos + length bytes ≤ limit
    → length bytes < fuel
    → IsSafe limit (walk fuel format aifc from_file used have_format s bytes pos)
unfolding walk
walk-IsSafe limit zero format aifc from_file used have_format s bytes pos u h k =
    absurd (omega arith)
walk-IsSafe limit (suc fuel) format aifc from_file used have_format s bytes pos u h k =
    split_if (IsSafe limit) (ltb (length bytes) 8)
      (λ _. checked-IsSafe limit false s 0 u (omega arith))
      (λ e.
        step-IsSafe limit (pos + length bytes) h
          (chunk format aifc from_file used have_format s bytes (length bytes) pos)
          (λ have' s' advance.
            if leb 8 advance && leb advance (length bytes)
            then walk fuel format aifc from_file used have' s' (drop advance bytes) (pos + advance)
            else checked false s' 0)
          (chunk-IsSafe format aifc from_file used have_format s bytes _ pos u (ground (arith, e)))
          (λ have' s' advance u'.
            split_if (IsSafe limit) (leb 8 advance && leb advance (length bytes))
              (λ e'.
                walk-IsSafe limit fuel format aifc from_file used have' s' (drop advance bytes)
                  (pos + advance) u' (ground (arith, e', length-drop advance bytes))
                  (ground (arith, e', length-drop advance bytes)))
              (λ _. checked-IsSafe limit false s' 0 u' (omega arith))))

-- From a usable state it ends in one, and takes no more off the stream than there is.
pub check_header-IsSafe :
    (from_file : Bool) (used : ℕ) (s : PcmState) (view : List ℕ)
    → IsUsable s
    → IsSafe (length view) (check_header from_file used s view)
unfolding check_header
check_header-IsSafe from_file used s view u =
    let n = length view in
    let aifc = is_tag view 8 b'A' b'I' b'F' b'C' in
    let riff = is_tag view 0 b'R' b'I' b'F' b'F' in
    let form = is_tag view 0 b'F' b'O' b'R' b'M' in
    let enter : (format : HeaderFormat) (aifc : Bool)
        → 12 ≤ n
        → IsSafe n (walk n format aifc from_file used false s (drop 12 view) 12) =
      λ format aifc h.
        walk-IsSafe n n format aifc from_file used false s (drop 12 view) 12 u
          (omega (arith, h, length-drop 12 view)) (omega (arith, h, length-drop 12 view)) in
    split_if (IsSafe n) (leb 12 n && riff && is_tag view 8 b'W' b'A' b'V' b'E')
      (λ e. enter wave false (ground (arith, e)))
      (λ _.
        split_if (IsSafe n) (leb 12 n && form && (is_tag view 8 b'A' b'I' b'F' b'F' || aifc))
          (λ e. enter aiff aifc (ground (arith, e)))
          (λ _.
            split_if (IsSafe n) (ltb n 12 && leb 4 n && (riff || form))
              (λ _. checked-IsSafe n false s 0 u (omega arith))
              (λ _. checked-IsSafe n true s 0 u (omega arith))))
