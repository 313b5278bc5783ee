-- ===== src/Dsd/Start.antt =====
-- dsd.c: the start of a track in `dsd_decode`.
use apple_squeezer.Prelude.{
  ℕ, ◌≤◌, ◌<◌, ◌≡◌, ◌⊎◌, refl, inl, inr, false, Bool-cases, some, ltb, arith,
}
use apple_squeezer.Buffer.{Buffer}
use apple_squeezer.Output.{Output, inactive}
use apple_squeezer.Dsd.{
  DsdFormat, pcm, dop, dsd_u8, dsd_u16_le, dsd_u32_le, dsd_u16_be, dsd_u32_be, dop_s24_le,
  dop_s24_3le,
}
use apple_squeezer.Dsd.Decode.{
  Settings, DsdPlayer, format_number, dsd_rate, start_format, start_track,
}

-- A format of DSD output leaves the rate, has no fade, and keeps what is buffered.
abbrev Plays : Settings → DsdFormat → ℕ → Output → Buffer → Type 0
Plays s f rate o b =
    let started = start_format s f rate o b in
    (f ≡ pcm)
    ⊎ (((started.0).next_sample_rate ≤ s.highest_rate)
        × ((started.0).fade ≡ inactive)
        × (started.1 ≡ b))

start_format-Plays :
    (s : Settings) (f : DsdFormat) (rate old : ℕ) (o : Output) (b : Buffer)
    → dsd_rate f 0 rate ≤ s.highest_rate
    → o.next_sample_rate ≡ dsd_rate f old rate
    → Plays s f rate o b
unfolding start_format
start_format-Plays s pcm rate old o b h e = inl refl
start_format-Plays s dop rate old o b h e = inr (rw e h, refl, refl)
start_format-Plays s dsd_u8 rate old o b h e = inr (rw e h, refl, refl)
start_format-Plays s dsd_u16_le rate old o b h e = inr (rw e h, refl, refl)
start_format-Plays s dsd_u32_le rate old o b h e = inr (rw e h, refl, refl)
start_format-Plays s dsd_u16_be rate old o b h e = inr (rw e h, refl, refl)
start_format-Plays s dsd_u32_be rate old o b h e = inr (rw e h, refl, refl)
start_format-Plays s dop_s24_le rate old o b h e = inr (rw e h, refl, refl)
start_format-Plays s dop_s24_3le rate old o b h e = inr (rw e h, refl, refl)

-- A track starts with the format that the output thread is told, as a stream that is no longer new.
-- It is PCM, only where the settings ask for PCM or the rate of their DSD format is above
-- supported_rates[0]; or it is the format of the settings, at a rate no higher than
-- supported_rates[0], without a fade and with the output buffer unchanged.
pub start_track-Plays {ℓ} :
    {F : Type ℓ} (s : Settings) (p : DsdPlayer F)
    → let q = start_track s p in
      (q.new_stream ≡ false)
      × (q.output.next_fmt ≡ format_number q.outfmt)
      × (((q.outfmt ≡ pcm)
            × ((s.dsdfmt ≡ pcm) ⊎ (s.highest_rate < dsd_rate s.dsdfmt 0 p.decoder.dsd.sample_rate)))
          ⊎ ((q.outfmt ≡ s.dsdfmt)
              × (q.output.next_sample_rate ≤ s.highest_rate)
              × (q.output.fade ≡ inactive)
              × (q.decoder.outputbuf ≡ p.decoder.outputbuf)))
unfolding start_track
start_track-Plays s p =
    let rate = p.decoder.dsd.sample_rate in
    let old = p.output.next_sample_rate in
    let b = p.decoder.outputbuf in
    let o : Output = record p.output {
      track_start = some b.writep;
      next_sample_rate = dsd_rate s.dsdfmt old rate;
    } in
    elim (Bool-cases (ltb s.highest_rate (dsd_rate s.dsdfmt 0 rate))) [
      | inl e ↦ rw e (refl, refl, inl (refl, inr (ground (arith, e))))
      | inr e ↦
          let plays : Plays s s.dsdfmt rate o b =
            start_format-Plays s s.dsdfmt rate old o b (ground (arith, e)) refl in
          rw e
            (refl, refl, elim plays [ inl f ↦ inl (f, inl f) | inr q ↦ inr (refl, q.0, q.1, q.2) ])
    ]
