-- ===== src/Stream/Reach.antt =====
-- stream.c: all that changes the stream, in any order.
use apple_squeezer.Prelude.{
  if_both, ℕ, ◌-◌, ◌≤◌, refl, Bool, true, false, List, length, arith, inl, inr, ◌≡◌, subst, Option,
  none, some,
}
use mathlib.Core.Option.{none-ne-some, some-injective}
use apple_squeezer.Buffer.{Buffer}
use apple_squeezer.Network.{◌>>=◌}
use apple_squeezer.Stream.Host.{find_host}
use apple_squeezer.Stream.{
  Stream, Input, stream_round, max_header, is_waiting, stream_cont, stream_file, stream_sock,
  start_sock, stream_disconnect,
}
use apple_squeezer.Stream.Bounds.{IsBounded, same_header, IsHonest, IsSmall, stream_round-IsBounded}

-- What changes the stream: a round of the thread, the two ways to start a stream, with a header
-- that fits, a disconnection, and the metadata's interval that the server sends.
pub data Change : Stream → Stream → Type 0 where
  by_round :
      (i : Input) (s : Stream) (b : Buffer)
      → IsHonest i
      → IsSmall i.comments s
      → Change s (stream_round i s b).0
  by_file :
      (opens : Bool) (header : List ℕ) (threshold : ℕ) (s : Stream) (b : Buffer)
      → length header ≤ max_header - 1
      → Change s (stream_file opens header threshold s b).0
  by_sock :
      (connects : Bool) (header : List ℕ) (threshold : ℕ) (wait : Bool) (s : Stream) (b : Buffer)
      → length header ≤ max_header - 1
      → (r : Stream × Buffer) → stream_sock connects header threshold wait s b ≡ some r
      → Change s r.0
  by_disconnect : (s : Stream) → Change s (stream_disconnect s).1
  by_cont : (interval : ℕ) (s : Stream) → Change s (stream_cont interval s)

pub data Reaches : Stream → Stream → Type 0 where
  here : (s : Stream) → Reaches s s
  then_by : (s s' s'' : Stream) → Reaches s s' → Change s' s'' → Reaches s s''

stream_cont-IsBounded :
    (interval : ℕ) (s : Stream) → IsBounded s → IsBounded (stream_cont interval s)
unfolding stream_cont
stream_cont-IsBounded interval s v =
    if_both IsBounded (is_waiting s.state) _ s
      (λ _. record { fits = v.fits; early_none = inl refl }) (λ _. v)

stream_file-IsBounded :
    (opens : Bool) (header : List ℕ) (threshold : ℕ) (s : Stream) (b : Buffer)
    → length header ≤ max_header - 1
    → IsBounded (stream_file opens header threshold s b).0
unfolding stream_file
stream_file-IsBounded opens header threshold s b h = record {
  fits = omega (arith, h);
  early_none = inr (refl, refl);
}

start_sock-IsBounded :
    (connects : Bool) (header : List ℕ) (threshold : ℕ) (wait : Bool) (s : Stream) (b : Buffer)
    → length header ≤ max_header - 1
    → IsBounded s
    → IsBounded (start_sock connects header threshold wait s b).0
unfolding start_sock
start_sock-IsBounded true header threshold wait s b h v = record {
  fits = omega (arith, h);
  early_none = inr (refl, refl);
}
start_sock-IsBounded false header threshold wait s b h v = same_header s v refl refl refl (inl refl)

stream_sock-IsBounded :
    (connects : Bool) (header : List ℕ) (threshold : ℕ) (wait : Bool) (s : Stream) (b : Buffer)
    → length header ≤ max_header - 1
    → (r : Stream × Buffer) → stream_sock connects header threshold wait s b ≡ some r
    → IsBounded s
    → IsBounded r.0
unfolding stream_sock
stream_sock-IsBounded connects header threshold wait s b h r e v = found_host (find_host header) e
  where
    found_host :
        (m : Option (List ℕ))
        → (m >>= λ host. some (start_sock connects header threshold wait s b)) ≡ some r
        → IsBounded r.0
    found_host none q = absurd (none-ne-some r q)
    found_host (some host) q =
        subst (λ x. IsBounded x.0)
          (some-injective (start_sock connects header threshold wait s b) r q)
          (start_sock-IsBounded connects header threshold wait s b h v)

Change-IsBounded : {s s' : Stream} → Change s s' → IsBounded s → IsBounded s'
unfolding stream_disconnect
Change-IsBounded (by_round i s b w o) v = stream_round-IsBounded i s b w o v
Change-IsBounded (by_file opens header threshold s b h) v =
    stream_file-IsBounded opens header threshold s b h
Change-IsBounded (by_sock connects header threshold wait s b h r e) v =
    stream_sock-IsBounded connects header threshold wait s b h r e v
Change-IsBounded (by_disconnect s) v = same_header s v refl refl refl (inl refl)
Change-IsBounded (by_cont interval s) v = stream_cont-IsBounded interval s v

-- Through any sequence of rounds of the thread, starts, disconnections and `cont` packets: what is in
-- the header buffer and the metadata that is still to be read into it stay within the buffer, with a
-- byte left for the final 0, and no metadata is expected before the response header is there, when
-- this was so at the start. A header that is given to `stream_file` or `stream_sock` fits, the
-- answers of the socket are bytes, no more than were asked for, and in each round that reads the
-- body either no Ogg comments are found, or none of other metadata is left to read and the comments
-- with their lengths take no more than MAX_HEADER - 4 bytes. Without that last condition
-- `add_comments` overruns the header.
pub Reaches-IsBounded : {s s' : Stream} → Reaches s s' → IsBounded s → IsBounded s'
Reaches-IsBounded (here s) v = v
Reaches-IsBounded (then_by s s' s'' r c) v = Change-IsBounded c (Reaches-IsBounded r v)
