-- ===== src/Dsd/Safe.antt =====
-- dsd.c: `_read_header` reads no byte that is not there, ends, and finds valid formats only.
use apple_squeezer.Prelude.{
  ℕ, zero, suc, ◌+◌, ◌-◌, ◌≤◌, ◌<◌, ◌≡◌, ◌∙◌, refl, ap, subst, true, ◌&&◌, List, length, drop,
  length-drop, Option, none, some, ◌==◌, ltb, leb, if◌then◌else◌, if_both, arith,
}
use apple_squeezer.Network.{◌>>=◌}
use apple_squeezer.Network.Reads.{IsRead}
use apple_squeezer.Dsd.{dsf, dsdiff, Dsd, is_unknown, valid_stream_format}
use apple_squeezer.Dsd.Header.{
  tag, read_tag, HeaderChunk, bad, audio, holds, passes, chunk_of, step, Header, invalid,
  unfinished, found, more, header_chunks, kind, of_kind, read_dsd_header,
}
use apple_squeezer.Dsd.Header.Reads.{IsGiven, bind-IsGiven, read_tag-IsRead}
use apple_squeezer.Dsd.Header.Rounds.{GoodChunk, chunk_of-Good}

-- What `_read_header` may come to, with so many bytes before it.
unfoldable pub IsSafe : ℕ → ℕ → Header → Type 0
IsSafe size n (invalid d consumed) = consumed ≤ n
IsSafe size n unfinished = ⊥
IsSafe size n (found d consumed) = (valid_stream_format size d ≡ true) × (consumed ≤ n)
IsSafe size n (more d consumed) = consumed ≤ n

-- The end of a round, from what the rounds behind it come to.
step-IsSafe :
    (next : ℕ → Dsd → Option Header) (size n consumed : ℕ) (c : HeaderChunk)
    → 16 ≤ n
    → GoodChunk size c
    → ((k : ℕ) (d : Dsd) → 0 < k → k ≤ n → IsGiven (IsSafe size (consumed + n)) (next k d))
    → IsGiven (IsSafe size (consumed + n)) (step next n consumed c)
unfolding step IsSafe GoodChunk
step-IsSafe next size n consumed (bad d) h g safe = (invalid d consumed, refl, omega arith)
step-IsSafe next size n consumed (audio d) h g safe =
    (found d (consumed + 12), refl, (g, omega arith))
step-IsSafe next size n consumed (holds d) h g safe = (more d consumed, refl, omega arith)
step-IsSafe next size n consumed (passes k d) h g safe =
    let d' : Dsd = record d { consume = k - n } in
    if_both (IsGiven (IsSafe size (consumed + n))) (leb k n) (next k d)
      (some (more d' (consumed + n))) (λ e. safe k d (g.0) (ground (arith, e)))
      (λ _. (more d' (consumed + n), refl, omega arith))

header_chunks-IsSafe :
    (fuel size : ℕ) (bytes : List ℕ) (consumed : ℕ) (d : Dsd)
    → length bytes < fuel
    → IsGiven (IsSafe size (consumed + length bytes)) (header_chunks fuel size bytes consumed d)
unfolding header_chunks IsSafe
header_chunks-IsSafe zero size bytes consumed d h = absurd (omega arith)
header_chunks-IsSafe (suc fuel) size bytes consumed d h =
    let n : ℕ = length bytes in
    let next : ℕ → Dsd → Option Header =
      λ k d'. header_chunks fuel size (drop k bytes) (consumed + k) d' in
    let safe : (k : ℕ) (d : Dsd) → 0 < k → k ≤ n → IsGiven (IsSafe size (consumed + n)) (next k d) =
      λ k d p q.
        let l = length-drop k bytes in
        subst
          (λ m. IsGiven (IsSafe size m) (header_chunks fuel size (drop k bytes) (consumed + k) d))
          (omega (arith, l))
          (header_chunks-IsSafe fuel size (drop k bytes) (consumed + k) d (omega (arith, l))) in
    if_both (IsGiven (IsSafe size (consumed + n))) (ltb n 16) (some (more d consumed))
      (chunk_of d.type size bytes d >>= step next n consumed)
      (λ _. (more d consumed, refl, omega arith))
      (λ e.
        let h' : 16 ≤ n = ground (arith, e) in
        let (c, r, g) = chunk_of-Good d.type size bytes d h' in
        let (x, r', s) = step-IsSafe next size n consumed c h' g safe in
        (x, ap (λ t. t >>= step next n consumed) r ∙ r', s))

kind-IsRead : (bytes : List ℕ) (d : Dsd) → IsRead (kind bytes d)
unfolding kind
kind-IsRead bytes d =
    let of_tag : ℕ → Option Dsd = λ id.
      if id == tag b'F' b'R' b'M' b'8'
      then some (record d { type = dsdiff })
      else if id == tag b'D' b'S' b'D' b' '
      then some (record d { type = dsf })
      else none in
    if_both IsRead (is_unknown d.type && leb 4 (length bytes))
      (read_tag bytes 0 >>= λ id. some (of_tag id)) (some (some d))
      (λ e.
        let (id, r) = read_tag-IsRead bytes 0 (ground (arith, e)) in
        (of_tag id, ap (λ t. t >>= λ id. some (of_tag id)) r))
      (λ _. (some d, refl))

of_kind-IsSafe :
    (size : ℕ) (bytes : List ℕ) (d : Dsd) (k : Option Dsd)
    → IsGiven (IsSafe size (length bytes)) (of_kind size bytes d k)
unfolding of_kind IsSafe
of_kind-IsSafe size bytes d none = (invalid d 0, refl, omega arith)
of_kind-IsSafe size bytes d₀ (some d) =
    subst (λ n. IsGiven (IsSafe size n) (header_chunks (length bytes + 1) size bytes 0 d))
      (omega arith) (header_chunks-IsSafe (length bytes + 1) size bytes 0 d (omega arith))

-- `_read_header` reads no byte past the ones that are there and goes over them in a bounded number
-- of rounds; it takes at most these bytes off streambuf, and when it says that the audio follows, the
-- format it found is valid.
pub read_dsd_header-IsSafe :
    (size : ℕ) (bytes : List ℕ) (d : Dsd)
    → IsGiven (IsSafe size (length bytes)) (read_dsd_header size bytes d)
unfolding read_dsd_header
read_dsd_header-IsSafe size bytes d =
    bind-IsGiven (kind-IsRead bytes d) (of_kind-IsSafe size bytes d)
