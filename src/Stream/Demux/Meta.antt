-- ===== src/Stream/Demux/Meta.antt =====
-- stream.c: a round of metadata, and one of audio, as the reader takes their bytes.
use apple_squeezer.Prelude.{
  ℕ, zero, suc, ◌+◌, ◌-◌, ◌*◌, ◌≤◌, ◌<◌, ◌≡◌, ◌∙◌, ◌⊎◌, refl, sym, ap, true, false, ◌&&◌, ◌||◌, not,
  none, List, [], ◌∷◌, ◌++◌, length, ◌==◌, ltb, if◌then◌else◌, u64, arith, Bool-cases, inl, inr,
}
use apple_squeezer.Buffer.{Buffer}
use apple_squeezer.Buffer.Inv.{IsValid}
use apple_squeezer.Buffer.Queue.{append_bytes, append_bytes_lem}
use apple_squeezer.Stream.{
  Stream, Recv, failed, would_block, received, meta_done, meta_bytes, meta_text, meta_length,
  read_meta, room, body_space, read_body, is_empty, start_http, is_buffering,
}
use apple_squeezer.Stream.Demux.Reader.{
  Reader, take_byte, take_all, reader, take_all-audio, after_text, take_all-text, bytes_of,
  text_wire, length_wire, IsWithin,
}

pub is_empty-append : (xs : List ℕ) (y : ℕ) (ys : List ℕ) → is_empty (xs ++ (y ∷ ys)) ≡ false
is_empty-append [] y ys = refl
is_empty-append (x ∷ xs) y ys = refl

pub meta_bytes-take :
    (a : Recv) (s : Stream) (b : Buffer)
    → 0 < s.meta_interval
    → s.meta_next ≡ 0
    → 0 < s.meta_left
    → IsWithin s.meta_left a
    → reader (meta_bytes a s) b ≡ take_all s.meta_interval (bytes_of a) (reader s b)
unfolding meta_bytes meta_done take_all
meta_bytes-take failed s b p n l w = refl
meta_bytes-take would_block s b p n l w = refl
meta_bytes-take (received []) s b p n l w = refl
meta_bytes-take (received (x ∷ xs)) s b p n l w =
    let k : ℕ = suc (length xs) in
    let some_text : not (is_empty (s.header ++ (x ∷ xs))) ≡ true =
      rw (is_empty-append s.header x xs) refl in
    let same : (s.meta_left - k == 0) ≡ (s.meta_left == k) = ground (arith, w) in
    let goal : reader
          (meta_done (record s { meta_left = s.meta_left - k; header = s.header ++ (x ∷ xs) })) b
        ≡ after_text s.meta_interval (x ∷ xs) (reader s b) =
      elim (Bool-cases (s.meta_left == k)) [
        | inl e ↦ rw (same, e, some_text) refl
        | inr e ↦
            rw (same, e)
              (ap
                (λ m. record (reader s b) {
                  next = m;
                  left = s.meta_left - k;
                  text = s.header ++ (x ∷ xs);
                })
                n)
      ] in
    goal ∙ sym (take_all-text s.meta_interval x xs (reader s b) p n w)

pub meta_text-take :
    (many : ℕ → Recv) (s : Stream) (b : Buffer)
    → 0 < s.meta_interval
    → s.meta_next ≡ 0
    → 0 < s.meta_left
    → IsWithin s.meta_left (many s.meta_left)
    → reader (meta_text many s) b
      ≡ take_all s.meta_interval (text_wire many s.meta_left) (reader s b)
unfolding meta_text
meta_text-take many s b p n l w =
    let t : (s.meta_left == 0) ≡ false = ground (arith, l) in
    rw t (meta_bytes-take (many s.meta_left) s b p n l w)

-- A byte that is the length of a text.
pub take_byte-length :
    (interval c : ℕ) (r : Reader)
    → 0 < interval
    → r.next ≡ 0
    → r.left ≡ 0
    → take_byte interval c r
      ≡ record r { left = 16 * c; text = []; next = if c == 0 then interval else 0 }
unfolding take_byte
take_byte-length interval c r p n l =
    let t : (interval == 0 || not (r.next == 0)) ≡ false = ground (arith, p, n) in
    let t' : (r.left == 0) ≡ true = ground (arith, l) in rw (t, t') refl

-- The text is asked for where its length is not 0.
abbrev pub IsWithinText : (ℕ → Recv) → ℕ → Type 0
IsWithinText many left = (0 < left) → IsWithin left (many left)

pub meta_text-start :
    (c : ℕ) (many : ℕ → Recv) (s : Stream) (b : Buffer)
    → 0 < s.meta_interval
    → s.meta_next ≡ 0
    → IsWithinText many (16 * c)
    → reader (meta_text many (record s { meta_left = 16 * c; header = [] })) b
      ≡ take_all s.meta_interval (text_wire many (16 * c)) (record (reader s b) {
        left = 16 * c;
        text = [];
        next = if c == 0 then s.meta_interval else 0;
      })
unfolding meta_text meta_done take_all
meta_text-start zero many s b p n w = refl
meta_text-start (suc c) many s b p n w =
    let s' : Stream = record s { meta_left = 16 * suc c; header = [] } in
    let l : 0 < 16 * suc c = omega arith in
    let t : (suc c == 0) ≡ false = ground arith in
    rw t (
      meta_text-take many s' b p n l (w l)
      ∙ ap
          (λ m.
            take_all s.meta_interval (text_wire many (16 * suc c))
              (record (reader s' b) { next = m }))
          n)

pub meta_length-take :
    (one : Recv) (many : ℕ → Recv) (s : Stream) (b : Buffer)
    → 0 < s.meta_interval
    → s.meta_next ≡ 0
    → s.meta_left ≡ 0
    → ((left : ℕ) → IsWithin left (many left))
    → reader (meta_length one many s) b
      ≡ take_all s.meta_interval (length_wire one many) (reader s b)
unfolding meta_length take_all length_wire
meta_length-take failed many s b p n l w = refl
meta_length-take would_block many s b p n l w = refl
meta_length-take (received []) many s b p n l w = refl
meta_length-take (received (c ∷ xs)) many s b p n l w =
    meta_text-start c many s b p n (λ _. w (16 * c))
    ∙ ap (take_all s.meta_interval (text_wire many (16 * c)))
        (sym (take_byte-length s.meta_interval c (reader s b) p n l))

-- What a round of metadata reads.
unfoldable pub meta_wire : Recv → (ℕ → Recv) → ℕ → List ℕ
meta_wire one many left = if left == 0 then length_wire one many else text_wire many left

pub read_meta-length :
    (one : Recv) (many : ℕ → Recv) (s : Stream)
    → (s.meta_left == 0) ≡ true
    → (read_meta one many s ≡ meta_length one many s)
      × (meta_wire one many s.meta_left ≡ length_wire one many)
unfolding read_meta meta_wire
read_meta-length one many s e = (rw e refl, rw e refl)

pub read_meta-text :
    (one : Recv) (many : ℕ → Recv) (s : Stream)
    → (s.meta_left == 0) ≡ false
    → (read_meta one many s ≡ meta_text many s)
      × (meta_wire one many s.meta_left ≡ text_wire many s.meta_left)
unfolding read_meta meta_wire meta_text
read_meta-text one many s e = (rw e refl, rw e refl)

pub read_meta-take :
    (one : Recv) (many : ℕ → Recv) (s : Stream) (b : Buffer)
    → 0 < s.meta_interval
    → s.meta_next ≡ 0
    → ((left : ℕ) → IsWithin left (many left))
    → reader (read_meta one many s) b
      ≡ take_all s.meta_interval (meta_wire one many s.meta_left) (reader s b)
read_meta-take one many s b p n w = elim (Bool-cases (s.meta_left == 0)) [
  | inl e ↦
      let same = read_meta-length one many s e in
      ap (λ t. reader t b) same.0
      ∙ meta_length-take one many s b p n (ground (arith, e)) w
      ∙ ap (λ t. take_all s.meta_interval t (reader s b)) (sym same.1)
  | inr e ↦
      let same = read_meta-text one many s e in
      ap (λ t. reader t b) same.0
      ∙ meta_text-take many s b p n (ground (arith, e)) (w s.meta_left)
      ∙ ap (λ t. take_all s.meta_interval t (reader s b)) (sym same.1)
]

-- What a round of audio needs to know: the space is within the interval.
pub body_space_le :
    (s : Stream) (b : Buffer)
    → (body_space s b ≤ room b) × ((s.meta_interval ≡ 0) ⊎ (body_space s b ≤ s.meta_next))
body_space_le s b = elim (Bool-cases (s.meta_interval == 0)) [
  | inl e ↦ rw e (omega arith, inl (ground (arith, e)))
  | inr e ↦ rw e (ground arith, inr (ground arith))
]

-- `start_http` changes the state only.
pub start_http-reader : (s : Stream) (b : Buffer) → reader (start_http s) b ≡ reader s b
start_http-reader s b = elim (Bool-cases (is_buffering s.state && ltb s.threshold s.bytes)) [
  | inl e ↦ rw e refl
  | inr e ↦ rw e refl
]

-- What `read_body` does to the variables, with bytes that came.
abbrev pub counted : List ℕ → Stream → Stream
counted xs s = record s {
  bytes = u64 (s.bytes + length xs);
  meta_next = if s.meta_interval == 0 then s.meta_next else s.meta_next - length xs;
}

pub read_body-take :
    (a : Recv) (s : Stream) (b : Buffer)
    → IsValid b
    → IsWithin (body_space s b) a
    → let (s', b') = read_body none a s b in
      (reader s' b' ≡ take_all s.meta_interval (bytes_of a) (reader s b)) × IsValid b'
unfolding read_body take_all
read_body-take failed s b v w = (refl, v)
read_body-take would_block s b v w = (refl, v)
read_body-take (received []) s b v w = (refl, v)
read_body-take (received (x ∷ xs)) s b v w =
    let within = body_space_le s b in
    let fits : length (x ∷ xs) ≤ room b = omega (arith, within.0) in
    let within_audio : (s.meta_interval ≡ 0) ⊎ (length (x ∷ xs) ≤ s.meta_next) =
      ground (arith, within.1, w) in
    let grown = append_bytes_lem (x ∷ xs) v fits in
    (
      start_http-reader (counted (x ∷ xs) s) (append_bytes b (x ∷ xs))
          ∙ ap
              (λ t. record (reader s b) {
                next = if s.meta_interval == 0 then s.meta_next else s.meta_next - length (x ∷ xs);
                audio = t;
              })
              grown.0
          ∙ sym (take_all-audio s.meta_interval (x ∷ xs) (reader s b) within_audio),
      grown.1,
    )
