-- ===== src/Stream/Tests.antt =====
-- Runs of stream.c, and the theorems about it at concrete streams.
use apple_squeezer.Prelude.{
  ℕ, zero, suc, ◌≡◌, refl, inl, List, [], ◌∷◌, none, some, length, replicate, true, false, arith,
  take,
}
use apple_squeezer.Buffer.{Buffer}
use apple_squeezer.Buffer.Inv.{IsValid}
use apple_squeezer.Stream.{
  Stream, stopped, recv_headers, streaming_buffering, streaming_http, disconnect_ok, Recv, received,
  would_block, Input, stream_round, stream_sock, start_sock, add_comments,
}
use apple_squeezer.Stream.Host.{find_host}
use apple_squeezer.Stream.Demux.Reader.{IsWithin, take_all, reader}
use apple_squeezer.Stream.Demux.Run.{
  Event, round, decode, stream_run, run_wire, behind, AreWithin, stream_run_lem,
}
use apple_squeezer.Stream.Bounds.{IsBounded, IsHonest, IsSmall}
use apple_squeezer.Stream.Reach.{Reaches, here, then_by, by_sock, by_round, Reaches-IsBounded}

abbrev empty_buffer : Buffer
empty_buffer = record {
  allocated = true;
  mem = 0 ∷ 0 ∷ 0 ∷ 0 ∷ 0 ∷ 0 ∷ 0 ∷ 0 ∷ [];
  readp = 6;
  writep = 6;
  wrap = 8;
  size = 8;
  base_size = 8;
}

empty_buffer-IsValid : IsValid empty_buffer
empty_buffer-IsValid = record {
  live = refl;
  stored = omega arith;
  within = omega arith;
  ends = refl;
  small = omega arith;
  read_in = omega arith;
  write_in = omega arith;
}

-- Metadata stands behind every three bytes.
abbrev every_three : Stream
every_three = record {
  state = streaming_buffering;
  disconnect = disconnect_ok;
  header = [];
  sent_headers = true;
  cont_wait = false;
  bytes = 0;
  threshold = 100;
  meta_interval = 3;
  meta_next = 3;
  meta_left = 0;
  meta_send = false;
  connected = true;
  endtok = 0;
}

-- The socket has one byte where one is asked for, and up to two where more are, all alike.
abbrev gives : ℕ → Input
gives c = record {
  can_read = true;
  can_send = true;
  sent = true;
  one = received (c ∷ []);
  many = λ n. received (take n (c ∷ c ∷ []));
  comments = none;
}

gives-IsWithin : (c n : ℕ) → IsWithin n ((gives c).many n)
gives-IsWithin c zero = omega arith
gives-IsWithin c (suc zero) = omega arith
gives-IsWithin c (suc (suc zero)) = omega arith
gives-IsWithin c (suc (suc (suc n))) = omega arith

abbrev events : List Event
events =
    round (gives 7) ∷ decode 1 ∷ round (gives 8) ∷ round (gives 0) ∷ decode 9 ∷ round (gives 9) ∷ []

-- The first round takes two bytes, the second one, the third the length of the metadata, the
-- fourth two.
events_wire : run_wire events every_three empty_buffer ≡ 7 ∷ 7 ∷ 8 ∷ 0 ∷ 9 ∷ 9 ∷ []
unfolding run_wire apple_squeezer.Buffer.space apple_squeezer.Buffer.cont_write stream_round
    apple_squeezer.Buffer.Queue.append_bytes apple_squeezer.Buffer.inc_writep
    apple_squeezer.Stream.Demux.Meta.meta_wire apple_squeezer.Stream.Demux.Reader.length_wire
events_wire = refl

events-AreWithin : AreWithin events
unfolding AreWithin
events-AreWithin = (
  gives-IsWithin 7,
  refl,
  (gives-IsWithin 8, refl, (gives-IsWithin 0, refl, (gives-IsWithin 9, refl, tt))),
)

stream_run_lem_example :
    let (s', b', got') = stream_run events every_three empty_buffer [] in
    (behind got' (reader s' b')
      ≡ take_all 3
          (run_wire events every_three empty_buffer)
          (behind [] (reader every_three empty_buffer)))
    × IsValid b'
stream_run_lem_example =
    stream_run_lem events every_three [] empty_buffer-IsValid refl events-AreWithin

-- A stream before it is started.
abbrev idle_stream : Stream
idle_stream = record every_three {
  state = stopped;
  meta_interval = 0;
  meta_next = 0;
  connected = false;
}

idle_stream-IsBounded : IsBounded idle_stream
idle_stream-IsBounded = record { fits = omega arith; early_none = inl refl }

-- It is started with a header of eleven bytes, which is sent; then comes a byte of the response.
abbrev get : List ℕ
get = b'H' ∷ b'o' ∷ b's' ∷ b't' ∷ b':' ∷ b' ' ∷ b'a' ∷ b':' ∷ b'9' ∷ b'\r' ∷ b'\n' ∷ []

get_host : find_host get ≡ some (b'a' ∷ [])
unfolding find_host
get_host = refl

-- Without "Host:", or with nothing behind it, the search reads past the end of the header.
cut_host : (find_host (b'G' ∷ b'E' ∷ b'T' ∷ []) ≡ none) × (find_host (take 9 get) ≡ none)
unfolding find_host
cut_host = (refl, refl)

abbrev started : Stream
unfolding start_sock
started = (start_sock true get 100 true idle_stream empty_buffer).0

abbrev sent_off : Stream
sent_off = (stream_round (gives 72) started empty_buffer).0

abbrev answered : Stream
answered = (stream_round (gives 72) sent_off empty_buffer).0

answered_header : answered.header ≡ 72 ∷ []
unfolding stream_round started apple_squeezer.Buffer.space apple_squeezer.Buffer.cont_write
answered_header = refl

answered_reached : Reaches idle_stream answered
unfolding IsSmall stream_sock start_sock find_host started
answered_reached =
    let honest : IsHonest (gives 72) = (omega arith, gives-IsWithin 72) in
    then_by idle_stream sent_off answered
      (then_by idle_stream started sent_off
        (then_by idle_stream idle_stream started (here idle_stream) (
          by_sock true get 100 true idle_stream empty_buffer (omega arith)
            (start_sock true get 100 true idle_stream empty_buffer) refl))
        (by_round (gives 72) started empty_buffer honest tt))
      (by_round (gives 72) sent_off empty_buffer honest tt)

Reaches-IsBounded_example : IsBounded answered
Reaches-IsBounded_example = Reaches-IsBounded answered_reached idle_stream-IsBounded

-- A comment that leaves a byte of the header free, and another one behind it: the test for the room
-- wraps, and 4100 bytes are written to the 4096 of the header.
comments_overrun :
    length (add_comments (replicate 4090 0 ∷ (1 ∷ 2 ∷ 3 ∷ []) ∷ []) (b'O' ∷ b'g' ∷ b'g' ∷ []))
    ≡ 4100
unfolding add_comments
comments_overrun = refl
