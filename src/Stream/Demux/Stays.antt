-- ===== src/Stream/Demux/Stays.antt =====
-- stream.c: what a round leaves alone.
use apple_squeezer.Prelude.{
  ℕ, none, ◌-◌, ◌*◌, ◌≡◌, refl, Bool, true, false, ◌&&◌, [], ◌∷◌, ◌++◌, length, ◌==◌, ltb,
  if◌then◌else◌,
}
use apple_squeezer.Buffer.{Buffer}
use apple_squeezer.Stream.{
  StreamState, stopped, disconnected, streaming_wait, streaming_buffering, streaming_file,
  streaming_http, send_headers, recv_headers, Stream, Recv, failed, would_block, received,
  meta_done, meta_bytes, meta_text, meta_length, read_meta, read_body, start_http, is_buffering,
}
use apple_squeezer.Stream.Demux.Meta.{counted}

-- The states in which the thread reads the stream, or has ended.
abbrev pub in_body : StreamState → Bool
in_body stopped = true
in_body disconnected = true
in_body streaming_wait = true
in_body streaming_buffering = true
in_body streaming_http = true
in_body streaming_file = false
in_body send_headers = false
in_body recv_headers = false

-- What a round leaves alone: the interval, and being in the body.
abbrev pub Stays : Stream → Stream → Type 0
Stays s s' = (s'.meta_interval ≡ s.meta_interval) × (in_body s'.state ≡ true)

-- A property of both branches.
pub if_both : (P : Stream → Type 0) (t : Bool) (x y : Stream) → P x → P y → P (if t then x else y)
if_both P true x y p q = p
if_both P false x y p q = q

pub meta_done-Stays : (s : Stream) → in_body s.state ≡ true → Stays s (meta_done s)
unfolding meta_done
meta_done-Stays s h = if_both (Stays s) (s.meta_left == 0) _ s (refl, h) (refl, h)

pub meta_bytes-Stays : (a : Recv) (s : Stream) → in_body s.state ≡ true → Stays s (meta_bytes a s)
unfolding meta_bytes
meta_bytes-Stays failed s h = (refl, refl)
meta_bytes-Stays would_block s h = (refl, h)
meta_bytes-Stays (received []) s h = (refl, refl)
meta_bytes-Stays (received (x ∷ xs)) s h =
    meta_done-Stays
      (record s { meta_left = s.meta_left - length (x ∷ xs); header = s.header ++ (x ∷ xs) }) h

pub meta_text-Stays :
    (many : ℕ → Recv) (s : Stream) → in_body s.state ≡ true → Stays s (meta_text many s)
unfolding meta_text
meta_text-Stays many s h =
    if_both (Stays s) (s.meta_left == 0) (meta_done s) (meta_bytes (many s.meta_left) s)
      (meta_done-Stays s h) (meta_bytes-Stays (many s.meta_left) s h)

pub meta_length-Stays :
    (one : Recv) (many : ℕ → Recv) (s : Stream)
    → in_body s.state ≡ true
    → Stays s (meta_length one many s)
unfolding meta_length
meta_length-Stays failed many s h = (refl, refl)
meta_length-Stays would_block many s h = (refl, h)
meta_length-Stays (received []) many s h = (refl, refl)
meta_length-Stays (received (c ∷ xs)) many s h =
    meta_text-Stays many (record s { meta_left = 16 * c; header = [] }) h

pub read_meta-Stays :
    (one : Recv) (many : ℕ → Recv) (s : Stream)
    → in_body s.state ≡ true
    → Stays s (read_meta one many s)
unfolding read_meta
read_meta-Stays one many s h =
    if_both (Stays s) (s.meta_left == 0) (meta_length one many s) (meta_text many s)
      (meta_length-Stays one many s h) (meta_text-Stays many s h)

pub start_http-Stays : (s : Stream) → in_body s.state ≡ true → Stays s (start_http s)
start_http-Stays s h =
    if_both (Stays s) (is_buffering s.state && ltb s.threshold s.bytes) _ s (refl, refl) (refl, h)

pub read_body-Stays :
    (a : Recv) (s : Stream) (b : Buffer) → in_body s.state ≡ true → Stays s (read_body none a s b).0
unfolding read_body
read_body-Stays failed s b h = (refl, refl)
read_body-Stays would_block s b h = (refl, h)
read_body-Stays (received []) s b h = (refl, refl)
read_body-Stays (received (x ∷ xs)) s b h = start_http-Stays (counted (x ∷ xs) s) h
