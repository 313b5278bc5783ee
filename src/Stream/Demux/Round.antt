-- ===== src/Stream/Demux/Round.antt =====
-- stream.c: a round of the thread, and a run of rounds between which the decoder takes bytes.
use apple_squeezer.Prelude.{
  ℕ, ◌≡◌, refl, sym, subst, Bool, true, false, ◌&&◌, ◌||◌, not, List, [], none, ◌==◌, if◌then◌else◌,
  arith,
}
use apple_squeezer.Buffer.{Buffer}
use apple_squeezer.Buffer.Inv.{IsValid}
use apple_squeezer.Stream.{
  StreamState, stopped, disconnected, streaming_wait, streaming_buffering, streaming_file,
  streaming_http, send_headers, recv_headers, Stream, Input, read_meta, room, body_space, read_body,
  read_socket, is_idle, is_file, sends, stream_round,
}
use apple_squeezer.Stream.Demux.Reader.{take_all, reader, bytes_of, IsWithin}
use apple_squeezer.Stream.Demux.Meta.{meta_wire, read_meta-take, read_body-take}
use apple_squeezer.Stream.Demux.Stays.{in_body, Stays, read_meta-Stays, read_body-Stays}

-- What a round reads of the wire.
unfoldable pub round_wire : Input → Stream → Buffer → List ℕ
round_wire i s b =
    if not s.connected || room b == 0 || is_idle s.state
    then []
    else if i.can_read
    then if not (s.meta_interval == 0) && s.meta_next == 0
      then meta_wire i.one i.many s.meta_left
      else bytes_of (i.many (body_space s b))
    else []

-- A result is right for the bytes read.
abbrev pub IsRead : Stream → Buffer → List ℕ → Stream × Buffer → Type 0
IsRead s b xs (s', b') =
    (reader s' b' ≡ take_all s.meta_interval xs (reader s b)) × IsValid b' × Stays s s'

pub if_reads :
    (P : List ℕ → Stream × Buffer → Type 0) (t : Bool) (xs ys : List ℕ) (x y : Stream × Buffer)
    → (t ≡ true → P xs x)
    → (t ≡ false → P ys y)
    → P (if t then xs else ys) (if t then x else y)
if_reads P true xs ys x y p q = p refl
if_reads P false xs ys x y p q = q refl

pub read_socket_body :
    (i : Input) (state : StreamState) (s : Stream) (b : Buffer)
    → in_body state ≡ true
    → read_socket i state s b ≡ (
        if not (s.meta_interval == 0) && s.meta_next == 0
        then (read_meta i.one i.many s, b)
        else read_body i.comments (i.many (body_space s b)) s b)
unfolding read_socket
read_socket_body i stopped s b h = refl
read_socket_body i disconnected s b h = refl
read_socket_body i streaming_wait s b h = refl
read_socket_body i streaming_buffering s b h = refl
read_socket_body i streaming_http s b h = refl
read_socket_body i streaming_file s b h = ground arith
read_socket_body i send_headers s b h = ground arith
read_socket_body i recv_headers s b h = ground arith

pub read_socket-IsRead :
    (i : Input) (s : Stream) (b : Buffer)
    → IsValid b
    → in_body s.state ≡ true
    → ((n : ℕ) → IsWithin n (i.many n))
    → i.comments ≡ none
    → IsRead s b
        (if not (s.meta_interval == 0) && s.meta_next == 0
          then meta_wire i.one i.many s.meta_left
          else bytes_of (i.many (body_space s b)))
        (read_socket i s.state s b)
read_socket-IsRead i s b v h w o =
    let text : List ℕ = meta_wire i.one i.many s.meta_left in
    let audio : List ℕ = bytes_of (i.many (body_space s b)) in
    let t : Bool = not (s.meta_interval == 0) && s.meta_next == 0 in
    subst (IsRead s b (if t then text else audio)) (sym (read_socket_body i s.state s b h)) (
      if_reads (IsRead s b) t text audio (read_meta i.one i.many s, b)
        (read_body i.comments (i.many (body_space s b)) s b)
        (λ e. (
          read_meta-take i.one i.many s b (ground (arith, e)) (ground (arith, e)) w,
          v,
          read_meta-Stays i.one i.many s h,
        ))
        (λ e.
          let body = read_body-take (i.many (body_space s b)) s b v (w (body_space s b)) in
          subst
            (λ c.
              IsRead s b (bytes_of (i.many (body_space s b)))
                (read_body c (i.many (body_space s b)) s b))
            (sym o) (body.0, body.1, read_body-Stays (i.many (body_space s b)) s b h)))

pub in_body_alone :
    (state : StreamState) → in_body state ≡ true → (is_file state ≡ false) × (sends state ≡ false)
in_body_alone stopped h = (refl, refl)
in_body_alone disconnected h = (refl, refl)
in_body_alone streaming_wait h = (refl, refl)
in_body_alone streaming_buffering h = (refl, refl)
in_body_alone streaming_http h = (refl, refl)
in_body_alone streaming_file h = ground arith
in_body_alone send_headers h = ground arith
in_body_alone recv_headers h = ground arith

-- A round of the thread in the body takes what it reads of the wire as the reader does.
pub stream_round-IsRead :
    (i : Input) (s : Stream) (b : Buffer)
    → IsValid b
    → in_body s.state ≡ true
    → ((n : ℕ) → IsWithin n (i.many n))
    → i.comments ≡ none
    → IsRead s b (round_wire i s b) (stream_round i s b)
unfolding stream_round round_wire take_all
stream_round-IsRead i s b v h w o =
    let alone = in_body_alone s.state h in
    let no_write : (i.can_send && sends s.state) ≡ false = rw alone.1 (ground arith) in
    let unread : IsRead s b [] (s, b) = (refl, v, (refl, h)) in
    if_reads (IsRead s b) (not s.connected || room b == 0 || is_idle s.state) [] _ (s, b) _
      (λ _. unread)
      (λ _.
        rw (alone.0, no_write)
          (if_reads (IsRead s b) i.can_read _ [] (read_socket i s.state s b) (s, b)
            (λ _. read_socket-IsRead i s b v h w o) (λ _. unread)))
