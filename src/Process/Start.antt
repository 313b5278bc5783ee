-- ===== src/Process/Start.antt =====
-- process.c: `process_newstream`, in a build with resampling, DSP and DSD. What `resample_newstream`
-- and `dsp_newstream` answer, and malloc, are in `Setup`.
use apple_squeezer.Prelude.{
  ℕ, ◌+◌, ◌-◌, ◌*◌, ◌/◌, ◌%◌, ◌^◌, Bool, true, false, ◌&&◌, ◌||◌, not, Option, none, some, ◌==◌,
  ltb, if◌then◌else◌, u32, u64,
}
use apple_squeezer.Process.{bytes_per_frame}

-- `resampled` are the two rates that `resample_newstream` sets, if it can; `dsp_starts` is
-- `dsp_newstream`, `min_space` that of the codec.
pub record Setup : Type 0 where
  pub is_pcm : Bool
  pub resample_enabled : Bool
  pub dsp_enabled : Bool
  pub resampled : Option (ℕ × ℕ)
  pub dsp_starts : ℕ → Bool
  pub min_space : ℕ
  pub has_inbuf : Bool
  pub has_outbuf : Bool

-- `struct processstate`, a buffer by the size it was allocated with, the static variables, and
-- `*direct`.
pub record Processing : Type 0 where
  pub inbuf : Option ℕ
  pub outbuf : Option ℕ
  pub max_in_frames : ℕ
  pub max_out_frames : ℕ
  pub in_frames : ℕ
  pub out_frames : ℕ
  pub in_sample_rate : ℕ
  pub out_sample_rate : ℕ
  pub total_in : ℕ
  pub total_out : ℕ
  pub resample_active : Bool
  pub native_dsp_active : Bool
  pub direct : Bool

-- `scaled_frames`: the frames that come of `frames`, with a tenth more where the ratio of the rates
-- is not whole.
unfoldable pub scaled_frames : ℕ → ℕ → ℕ → ℕ
scaled_frames frames from to =
    let scaled = u64 (frames * to) in
    if to % from == 0 then scaled / from else u64 (scaled * 11 + from * 10 - 1) / (from * 10)

-- `resample_active`, and the rates.
unfoldable pub start_resampler : Option (ℕ × ℕ) → ℕ → Processing → Processing
start_resampler none raw p = record p {
  resample_active = false;
  in_sample_rate = raw;
  out_sample_rate = raw;
}
start_resampler (some rates) raw p = record p {
  resample_active = true;
  in_sample_rate = rates.0;
  out_sample_rate = rates.1;
}

abbrev pub start_dsp : Setup → ℕ → Processing → Processing
start_dsp h raw p =
    if h.dsp_enabled && h.is_pcm
    then record p {
      native_dsp_active = h.dsp_starts (if p.resample_active then p.out_sample_rate else raw);
    }
    else p

-- Without buffers the stream is played directly.
abbrev pub directly : Processing → Processing
directly p = record p { direct = true }

-- The output buffer, then the check of both.
unfoldable pub make_outbuf : Setup → ℕ → ℕ → Processing → Processing × ℕ
make_outbuf h raw n p =
    if p.max_out_frames == n
    then (elim p.outbuf [ none ↦ (directly p, raw) | some size ↦ (p, p.out_sample_rate) ])
    else if h.has_outbuf
    then (let p' : Processing = record p {
      outbuf = some (u32 (n * bytes_per_frame));
      max_out_frames = n;
    } in
        (p', p.out_sample_rate))
    else (directly p, raw)

-- The input buffer.
unfoldable pub make_buffers : Setup → ℕ → ℕ → ℕ → Processing → Processing × ℕ
unfolding make_outbuf
make_buffers h raw m n p =
    if p.max_in_frames == m
    then (elim p.inbuf [
      | none ↦ ((directly (make_outbuf h raw n p).0), raw)
      | some size ↦ make_outbuf h raw n p
    ])
    else if h.has_inbuf
    then make_outbuf h raw n
        (record p { inbuf = some (u32 (m * bytes_per_frame)); max_in_frames = m })
    else (directly p, raw)

-- The frames that the buffers are for.
unfoldable pub size_buffers : Setup → ℕ → Processing → Processing × ℕ
unfolding make_buffers scaled_frames
size_buffers h raw p =
    let m = h.min_space / bytes_per_frame in
    let n = scaled_frames m p.in_sample_rate p.out_sample_rate in
    if n == 0 || ltb (2 ^ 32 - 1) n || ltb ((2 ^ 64 - 1) / bytes_per_frame) n
    then (directly p, raw)
    else make_buffers h raw m n p

-- `process_newstream`, and the rate it returns.
unfoldable pub process_newstream : Setup → ℕ → Processing → Processing × ℕ
unfolding start_resampler size_buffers
process_newstream h raw p =
    let r =
      start_dsp h raw
        (start_resampler (if h.is_pcm && h.resample_enabled then h.resampled else none) raw p) in
    let active = r.resample_active || h.dsp_enabled && h.is_pcm && r.native_dsp_active in
    let s : Processing = record r { direct = not active } in
    if not active
    then (s, raw)
    else if s.in_sample_rate == 0 || s.out_sample_rate == 0
    then (record s { resample_active = false; native_dsp_active = false; direct = true }, raw)
    else size_buffers h raw
        (record s { in_frames = 0; out_frames = 0; total_in = 0; total_out = 0 })
