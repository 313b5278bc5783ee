-- ===== src/Stream/Bounds.antt =====
-- stream.c: what a round of the thread leaves in the header buffer `stream.header`.
use apple_squeezer.Prelude.{
  ℕ, ◌+◌, ◌-◌, ◌*◌, ◌≤◌, ◌<◌, ◌≡◌, ◌⊎◌, refl, sym, ap, ◌∙◌, Bool, true, false, ◌&&◌, ◌||◌, not, [],
  ◌∷◌, ◌++◌, length, length-append, ◌==◌, leb, ltb, u8, u64, sub32, List, Option, none, some, ◌/◌,
  ◌^◌, if◌then◌else◌, if_both, arith, inl, inr,
}
use apple_squeezer.Buffer.{Buffer}
use apple_squeezer.Stream.Demux.Reader.{IsWithin}
use apple_squeezer.Stream.{
  StreamState, stopped, disconnected, streaming_wait, streaming_buffering, streaming_file,
  streaming_http, send_headers, recv_headers, Stream, Recv, failed, would_block, received, Input,
  meta_done, meta_bytes, meta_text, meta_length, read_meta, room, body_space, read_file,
  read_header, header_byte, read_body, read_socket, sent_header, add_comments, stream_ogg, is_idle,
  is_file, sends, stream_round, start_http, is_buffering, max_header,
}

-- The response header is still to come.
abbrev pub early : StreamState → Bool
early send_headers = true
early recv_headers = true
early stopped = false
early disconnected = false
early streaming_wait = false
early streaming_buffering = false
early streaming_file = false
early streaming_http = false

-- No metadata is expected.
abbrev pub HasNoMeta : Stream → Type 0
HasNoMeta s = (s.meta_left ≡ 0) × (s.meta_interval ≡ 0)

-- What is in the header buffer, and the metadata that is still to be read into it, leave room for
-- the final 0.
pub record IsBounded (s : Stream) : Type 0 where
  pub fits : length s.header + s.meta_left ≤ max_header - 1
  pub early_none : (early s.state ≡ false) ⊎ HasNoMeta s

-- A byte as the socket gives it.
abbrev IsByte : Recv → Type 0
IsByte failed = Unit
IsByte would_block = Unit
IsByte (received []) = Unit
IsByte (received (x ∷ xs)) = x < 256

meta_done-IsBounded : (s : Stream) → IsBounded s → IsBounded (meta_done s)
unfolding meta_done
meta_done-IsBounded s v =
    if_both IsBounded (s.meta_left == 0) _ s
      (λ _. record { fits = v.fits; early_none = v.early_none }) (λ _. v)

-- A disconnect keeps what the header buffer holds.
pub same_header :
    (s : Stream) {s' : Stream}
    → IsBounded s
    → s'.header ≡ s.header
    → s'.meta_left ≡ s.meta_left
    → s'.meta_interval ≡ s.meta_interval
    → (early s'.state ≡ false) ⊎ (early s'.state ≡ early s.state)
    → IsBounded s'
same_header s {s'} v h l m k = record {
  fits = omega (arith, v.fits, ap length h, l);
  early_none = early_of k v.early_none;
}
  where
    early_of :
        (early s'.state ≡ false) ⊎ (early s'.state ≡ early s.state)
        → (early s.state ≡ false) ⊎ HasNoMeta s
        → (early s'.state ≡ false) ⊎ HasNoMeta s'
    early_of (inl e) q = inl e
    early_of (inr e) (inl f) = inl (e ∙ f)
    early_of (inr e) (inr f) = inr (l ∙ f.0, m ∙ f.1)

meta_bytes-IsBounded :
    (a : Recv) (s : Stream) → IsWithin s.meta_left a → IsBounded s → IsBounded (meta_bytes a s)
unfolding meta_bytes
meta_bytes-IsBounded failed s w v = same_header s v refl refl refl (inl refl)
meta_bytes-IsBounded would_block s w v = v
meta_bytes-IsBounded (received []) s w v = same_header s v refl refl refl (inl refl)
meta_bytes-IsBounded (received (x ∷ xs)) s w v =
    meta_done-IsBounded
      (record s { meta_left = s.meta_left - length (x ∷ xs); header = s.header ++ (x ∷ xs) })
      (record {
        fits = omega (arith, v.fits, w, length-append s.header (x ∷ xs));
        early_none = none_left v.early_none;
      })
  where
    none_left :
        (early s.state ≡ false) ⊎ HasNoMeta s
        → (early s.state ≡ false)
          ⊎ HasNoMeta (record s { meta_left = s.meta_left - length (x ∷ xs) })
    none_left (inl e) = inl e
    none_left (inr e) = inr (omega (arith, e.0), e.1)

meta_text-IsBounded :
    (many : ℕ → Recv) (s : Stream)
    → ((n : ℕ) → IsWithin n (many n))
    → IsBounded s
    → IsBounded (meta_text many s)
unfolding meta_text
meta_text-IsBounded many s w v =
    if_both IsBounded (s.meta_left == 0) (meta_done s) (meta_bytes (many s.meta_left) s)
      (λ _. meta_done-IsBounded s v)
      (λ _. meta_bytes-IsBounded (many s.meta_left) s (w s.meta_left) v)

meta_length-IsBounded :
    (one : Recv) (many : ℕ → Recv) (s : Stream)
    → IsByte one
    → ((n : ℕ) → IsWithin n (many n))
    → early s.state ≡ false
    → IsBounded s
    → IsBounded (meta_length one many s)
unfolding meta_length
meta_length-IsBounded failed many s c w k v = same_header s v refl refl refl (inl refl)
meta_length-IsBounded would_block many s c w k v = v
meta_length-IsBounded (received []) many s c w k v = same_header s v refl refl refl (inl refl)
meta_length-IsBounded (received (x ∷ xs)) many s c w k v =
    meta_text-IsBounded many (record s { meta_left = 16 * x; header = [] }) w
      (record { fits = omega (arith, c); early_none = inl k })

read_meta-IsBounded :
    (one : Recv) (many : ℕ → Recv) (s : Stream)
    → IsByte one
    → ((n : ℕ) → IsWithin n (many n))
    → early s.state ≡ false
    → IsBounded s
    → IsBounded (read_meta one many s)
unfolding read_meta
read_meta-IsBounded one many s c w k v =
    if_both IsBounded (s.meta_left == 0) (meta_length one many s) (meta_text many s)
      (λ _. meta_length-IsBounded one many s c w k v) (λ _. meta_text-IsBounded many s w v)

start_http-IsBounded : (s : Stream) → IsBounded s → IsBounded (start_http s)
start_http-IsBounded s v =
    if_both IsBounded (is_buffering s.state && ltb s.threshold s.bytes) _ s
      (λ _. same_header s v refl refl refl (inl refl)) (λ _. v)

-- The bytes that comments take with their lengths.
pub written : List (List ℕ) → ℕ
written [] = 0
written (c ∷ cs) = 2 + length c + written cs

length-add_comments :
    (cs : List (List ℕ)) (header : List ℕ)
    → length (add_comments cs header) ≤ length header + written cs
unfolding add_comments written
length-add_comments [] header = omega arith
length-add_comments (c ∷ cs) header =
    let grown = header ++ (u8 (length c / 2 ^ 8) ∷ u8 (length c) ∷ c) in
    let rest = length-add_comments cs grown in
    let long = length-append header (u8 (length c / 2 ^ 8) ∷ u8 (length c) ∷ c) in
    if_both (λ h. length h ≤ length header + (2 + length c + written cs))
      (ltb (2 ^ 16 - 1) (length c) || ltb (sub32 (sub32 max_header (length header)) 2) (length c))
      header (add_comments cs grown) (λ _. omega arith) (λ _. omega (arith, rest, long))

-- A round finds no Ogg comments, or the stream has no other metadata left to read and the block of
-- comments, with "Ogg" in front, leaves room for a final 0.
unfoldable pub IsSmall : Option (List (List ℕ)) → Stream → Type 0
IsSmall none s = Unit
IsSmall (some cs) s = (s.meta_left ≡ 0) × (3 + written cs ≤ max_header - 1)

stream_ogg-IsBounded :
    (o : Option (List (List ℕ))) (s : Stream)
    → IsSmall o s
    → IsBounded s
    → IsBounded (stream_ogg o s)
unfolding stream_ogg IsSmall
stream_ogg-IsBounded none s w v = v
stream_ogg-IsBounded (some cs) s w v = record {
  fits = omega (arith, w.0, w.1, length-add_comments cs (b'O' ∷ b'g' ∷ b'g' ∷ []));
  early_none = v.early_none;
}

read_body-IsBounded :
    (o : Option (List (List ℕ))) (a : Recv) (s : Stream) (b : Buffer)
    → IsSmall o s
    → IsBounded s
    → IsBounded (read_body o a s b).0
unfolding read_body
read_body-IsBounded o failed s b w v = same_header s v refl refl refl (inl refl)
read_body-IsBounded o would_block s b w v = v
read_body-IsBounded o (received []) s b w v = same_header s v refl refl refl (inl refl)
read_body-IsBounded o (received (x ∷ xs)) s b w v =
    let v' = stream_ogg-IsBounded o s w v in
    start_http-IsBounded
      (record (stream_ogg o s) {
        bytes = u64 (s.bytes + length (x ∷ xs));
        meta_next = if s.meta_interval == 0 then s.meta_next else s.meta_next - length (x ∷ xs);
      })
      (same_header (stream_ogg o s) v' refl refl refl (inr refl))

read_file-IsBounded :
    (a : Recv) (s : Stream) (b : Buffer) → IsBounded s → IsBounded (read_file a s b).0
unfolding read_file
read_file-IsBounded failed s b v = same_header s v refl refl refl (inl refl)
read_file-IsBounded would_block s b v = same_header s v refl refl refl (inl refl)
read_file-IsBounded (received []) s b v = same_header s v refl refl refl (inl refl)
read_file-IsBounded (received (x ∷ xs)) s b v = same_header s v refl refl refl (inr refl)

-- A byte of the header: it is dropped where it would leave no room.
header_byte-IsBounded :
    (c : ℕ) (s : Stream) → HasNoMeta s → IsBounded s → IsBounded (header_byte c s)
unfolding header_byte
header_byte-IsBounded c s l v =
    if_both IsBounded (leb (max_header - 1) (length s.header)) _ _
      (λ _. same_header s v refl refl refl (inl refl))
      (λ e.
        let grown : length (s.header ++ (c ∷ [])) + s.meta_left ≤ max_header - 1 =
          ground (arith, e, l.0, length-append s.header (c ∷ [])) in
        if_both IsBounded (ltb 1 (length (s.header ++ (c ∷ []))) && (c == b'\r' || c == b'\n')) _ _
          (λ _. record { fits = grown; early_none = inr l })
          (λ _. record { fits = grown; early_none = inr l }))

read_header-IsBounded :
    (a : Recv) (s : Stream) → HasNoMeta s → IsBounded s → IsBounded (read_header a s)
unfolding read_header
read_header-IsBounded failed s l v = same_header s v refl refl refl (inl refl)
read_header-IsBounded would_block s l v = v
read_header-IsBounded (received []) s l v = same_header s v refl refl refl (inl refl)
read_header-IsBounded (received (c ∷ xs)) s l v = header_byte-IsBounded c s l v

-- A result whose stream is bounded.
abbrev ResultIsBounded : Stream × Buffer → Type 0
ResultIsBounded r = IsBounded r.0

-- What is asked of the answers: no more than was asked for, and bytes.
abbrev pub IsHonest : Input → Type 0
IsHonest i = IsByte i.one × ((n : ℕ) → IsWithin n (i.many n))

false≢true : ¬ (false ≡ true)
false≢true e = ground arith

none_early :
    {s : Stream} (state : StreamState)
    → s.state ≡ state
    → early state ≡ true
    → IsBounded s
    → HasNoMeta s
none_early {s} state e k v = none_in v.early_none
  where
    none_in : (early s.state ≡ false) ⊎ HasNoMeta s → HasNoMeta s
    none_in (inl f) = absurd (false≢true (sym f ∙ ap early e ∙ k))
    none_in (inr f) = f

read_content-IsBounded :
    (i : Input) (s : Stream) (b : Buffer)
    → IsHonest i
    → IsSmall i.comments s
    → IsBounded s
    → ResultIsBounded (
        if not (s.meta_interval == 0) && s.meta_next == 0
        then (read_meta i.one i.many s, b)
        else read_body i.comments (i.many (body_space s b)) s b)
read_content-IsBounded i s b w o v =
    if_both ResultIsBounded (not (s.meta_interval == 0) && s.meta_next == 0)
      (read_meta i.one i.many s, b) (read_body i.comments (i.many (body_space s b)) s b)
      (λ e. read_meta-IsBounded i.one i.many s w.0 w.1 (has_meta e v.early_none) v)
      (λ _. read_body-IsBounded i.comments (i.many (body_space s b)) s b o v)
  where
    has_meta :
        (not (s.meta_interval == 0) && s.meta_next == 0) ≡ true
        → (early s.state ≡ false) ⊎ HasNoMeta s
        → early s.state ≡ false
    has_meta e (inl f) = f
    has_meta e (inr f) = absurd (ground (arith, e, f.1))

read_socket-IsBounded :
    (i : Input) (state : StreamState) (s : Stream) (b : Buffer)
    → s.state ≡ state
    → IsHonest i
    → IsSmall i.comments s
    → IsBounded s
    → ResultIsBounded (read_socket i state s b)
unfolding read_socket
read_socket-IsBounded i recv_headers s b e w o v =
    read_header-IsBounded i.one s (none_early recv_headers e refl v) v
read_socket-IsBounded i stopped s b e w o v = read_content-IsBounded i s b w o v
read_socket-IsBounded i disconnected s b e w o v = read_content-IsBounded i s b w o v
read_socket-IsBounded i streaming_wait s b e w o v = read_content-IsBounded i s b w o v
read_socket-IsBounded i streaming_buffering s b e w o v = read_content-IsBounded i s b w o v
read_socket-IsBounded i streaming_file s b e w o v = read_content-IsBounded i s b w o v
read_socket-IsBounded i streaming_http s b e w o v = read_content-IsBounded i s b w o v
read_socket-IsBounded i send_headers s b e w o v = read_content-IsBounded i s b w o v

-- The header is taken for sent, or given up.
sent_header-IsBounded :
    (t : Bool) (s : Stream) → HasNoMeta s → IsBounded s → IsBounded (sent_header t s)
unfolding sent_header
sent_header-IsBounded true s k v = record { fits = omega (arith, v.fits); early_none = inr k }
sent_header-IsBounded false s k v = record { fits = omega (arith, v.fits); early_none = inl refl }

sends_only : (state : StreamState) → sends state ≡ true → early state ≡ true
sends_only send_headers h = refl
sends_only recv_headers h = absurd (false≢true h)
sends_only stopped h = absurd (false≢true h)
sends_only disconnected h = absurd (false≢true h)
sends_only streaming_wait h = absurd (false≢true h)
sends_only streaming_buffering h = absurd (false≢true h)
sends_only streaming_file h = absurd (false≢true h)
sends_only streaming_http h = absurd (false≢true h)

both_true : (t u : Bool) → (t && u) ≡ true → u ≡ true
both_true true u h = h
both_true false u h = absurd (false≢true h)

pub stream_round-IsBounded :
    (i : Input) (s : Stream) (b : Buffer)
    → IsHonest i
    → IsSmall i.comments s
    → IsBounded s
    → IsBounded (stream_round i s b).0
unfolding stream_round
stream_round-IsBounded i s b w o v =
    if_both ResultIsBounded (not s.connected || room b == 0 || is_idle s.state) (s, b) _ (λ _. v)
      (λ _.
        if_both ResultIsBounded (is_file s.state) (read_file (i.many (room b)) s b) _
          (λ _. read_file-IsBounded (i.many (room b)) s b v)
          (λ _.
            if_both ResultIsBounded (i.can_send && sends s.state) (sent_header i.sent s, b) _
              (λ e.
                let k = sends_only s.state (both_true i.can_send (sends s.state) e) in
                sent_header-IsBounded i.sent s (none_early s.state refl k v) v)
              (λ _.
                if_both ResultIsBounded i.can_read (read_socket i s.state s b) (s, b)
                  (λ _. read_socket-IsBounded i s.state s b refl w o v) (λ _. v))))
