-- ===== src/Dsd/NewStream.antt =====
-- dsd.c: the part of `dsd_decode` for a new stream.
use apple_squeezer.Prelude.{
  ℕ, ◌≤◌, ◌≡◌, ◌⊎◌, refl, ap, ◌∙◌, inl, inr, true, false, drop, length, length-take, arith,
}
use apple_squeezer.Network.{◌>>=◌}
use apple_squeezer.Buffer.{Buffer, used, inc_readp}
use apple_squeezer.Buffer.Inv.{IsValid, inc_readp-IsValid}
use apple_squeezer.Buffer.Queue.{contents, contents-inc_readp}
use apple_squeezer.Pcm.Decode.{running, error, readable}
use apple_squeezer.Dsd.{valid_stream_format}
use apple_squeezer.Dsd.Header.{Header, invalid, unfinished, found, more}
use apple_squeezer.Dsd.Header.Reads.{IsGiven}
use apple_squeezer.Dsd.Safe.{IsSafe, read_dsd_header-IsSafe}
use apple_squeezer.Dsd.Decode.{
  Settings, DsdPlayer, view, Stage, ends, goes, start_track, behind_header, on_header,
  decode_header,
}

-- The stream buffer is valid, and what was taken off it are its first bytes.
abbrev pub Advanced : Buffer → Buffer → Type 0
Advanced before b =
    IsValid b × ((n : ℕ) × (n ≤ used before) × (contents b ≡ drop n (contents before)))

module _ {F : Type 0} (before : Buffer) where
  -- What reading the header comes to.
  pub IsStarted : Stage F → Type 0
  IsStarted (ends r q) =
      (r ≡ running ⊎ r ≡ error) × (q.new_stream ≡ true) × Advanced before q.decoder.streambuf
  IsStarted (goes q) =
      (q.new_stream ≡ false)
      × (valid_stream_format before.size q.decoder.dsd ≡ true)
      × Advanced before q.decoder.streambuf

length-view : (b : Buffer) → length (view b) ≤ used b
length-view b = omega (arith, length-take (readable b) (drop b.readp b.mem))

module _ {F : Type 0} (s : Settings) (p : DsdPlayer F) (new : p.new_stream ≡ true)
    (v : IsValid p.decoder.streambuf) where
  advanced :
      (n : ℕ)
      → n ≤ length (view p.decoder.streambuf)
      → Advanced p.decoder.streambuf (inc_readp p.decoder.streambuf n)
  advanced n h =
      let fits : n ≤ used p.decoder.streambuf = omega (arith, h, length-view p.decoder.streambuf) in
      (inc_readp-IsValid n v, (n, fits, contents-inc_readp n v fits))

  on_header-IsStarted :
      (h : Header)
      → IsSafe p.decoder.streambuf.size (length (view p.decoder.streambuf)) h
      → IsGiven (IsStarted p.decoder.streambuf) (on_header s p h)
  unfolding on_header IsSafe start_track IsStarted
  on_header-IsStarted unfinished safe = absurd safe
  on_header-IsStarted (invalid d n) safe =
      (ends error (behind_header p d n), refl, (inr refl, new, advanced n safe))
  on_header-IsStarted (more d n) safe =
      (ends running (behind_header p d n), refl, (inl refl, new, advanced n safe))
  on_header-IsStarted (found d n) safe =
      (goes (start_track s (behind_header p d n)), refl, (refl, safe.0, advanced n (safe.1)))

  -- On a new stream in a valid buffer, whatever it holds, `dsd_decode` reads the header without a read
  -- past what is there: it returns DECODE_RUNNING or DECODE_ERROR with the stream still new, or goes on
  -- with a stream that is no longer new and a valid format. What it takes are the first bytes that the
  -- buffer held, and the buffer stays valid.
  pub decode_header-IsStarted : IsGiven (IsStarted p.decoder.streambuf) (decode_header s p)
  unfolding decode_header
  decode_header-IsStarted =
      let b = p.decoder.streambuf in
      let (h, e, safe) = read_dsd_header-IsSafe b.size (view b) p.decoder.dsd in
      let (stage, e', started) = on_header-IsStarted h safe in
      (stage, ap (λ t. t >>= on_header s p) e ∙ e', started)
