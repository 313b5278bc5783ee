-- ===== src/Stream.antt =====
-- stream.c and `struct streamstate`: the thread that reads the stream, in a build without SSL. Of an
-- Ogg stream the writing of its comments to the header buffer is here; how they are found in the
-- pages is an argument. A round of the thread is one step; the socket's answers, what
-- poll reports and whether a connection is made are arguments. No other thread changes the stream
-- while a round waits in poll.
pub mod Host
pub mod Demux
pub mod Bounds
pub mod Reach
mod Tests
use apple_squeezer.Prelude.{
  ℕ, suc, ◌+◌, ◌-◌, ◌*◌, Bool, true, false, ◌&&◌, ◌||◌, not, List, [], ◌∷◌, ◌++◌, length, ◌==◌, ltb,
  leb, if◌then◌else◌, min, u8, u64, sub32, Option, none, some, ◌/◌, ◌^◌,
}
use apple_squeezer.Buffer.{Buffer, space, cont_write, flush}
use apple_squeezer.Buffer.Queue.{append_bytes}
use apple_squeezer.Network.{◌>>=◌}
use apple_squeezer.Stream.Host.{find_host}

-- `stream_state`
pub data StreamState : Type 0 where
  stopped disconnected streaming_wait streaming_buffering : StreamState
  streaming_file streaming_http send_headers recv_headers : StreamState

-- `disconnect_code`
pub data DisconnectCode : Type 0 where
  disconnect_ok local_disconnect remote_disconnect unreachable timeout : DisconnectCode

-- `struct streamstate`, with the static `endtok` of the thread; `header` holds `header_len` bytes,
-- and `connected` says that `fd` is not -1.
pub record Stream : Type 0 where
  pub state : StreamState
  pub disconnect : DisconnectCode
  pub header : List ℕ
  pub sent_headers : Bool
  pub cont_wait : Bool
  pub bytes : ℕ
  pub threshold : ℕ
  pub meta_interval : ℕ
  pub meta_next : ℕ
  pub meta_left : ℕ
  pub meta_send : Bool
  pub connected : Bool
  pub endtok : ℕ

-- What read or recv answers: an error, an error that is ERROR_WOULDBLOCK, or bytes, none of them at
-- the end of the stream.
pub data Recv : Type 0 where
  failed would_block : Recv
  received : List ℕ → Recv

-- What a round gets from outside: whether poll reports POLLIN or POLLHUP, and POLLOUT, whether the
-- header could be sent, what is answered when one byte is asked for, and when more are; and the
-- comments of the last block of comments that `stream_ogg` finds in the bytes of the body, if any: those
-- that begin with TITLE=, ARTIST= or ALBUM=. Where Ogg is off, or its pages hold none, there is no
-- block.
pub record Input : Type 0 where
  pub can_read : Bool
  pub can_send : Bool
  pub sent : Bool
  pub one : Recv
  pub many : ℕ → Recv
  pub comments : Option (List (List ℕ))

-- `_disconnect`
abbrev pub disconnect_to : StreamState → DisconnectCode → Stream → Stream
disconnect_to state code s = record s { state = state; disconnect = code; connected = false }

-- `STREAMING_FILE`
unfoldable pub read_file : Recv → Stream → Buffer → Stream × Buffer
read_file failed s b = (disconnect_to disconnected remote_disconnect s, b)
read_file would_block s b = (disconnect_to disconnected remote_disconnect s, b)
read_file (received []) s b = (disconnect_to disconnected disconnect_ok s, b)
read_file (received (x ∷ xs)) s b =
    (record s { bytes = u64 (s.bytes + length (x ∷ xs)) }, append_bytes b (x ∷ xs))

-- `MAX_HEADER`
abbrev pub max_header : ℕ
max_header = 4096

-- A byte of the response header: four line ends in a row close it.
unfoldable pub header_byte : ℕ → Stream → Stream
header_byte c s =
    let s' = record s { header = s.header ++ (c ∷ []) } in
    if leb (max_header - 1) (length s.header)
    then record (disconnect_to disconnected local_disconnect s) { endtok = 0 }
    else if ltb 1 (length s'.header) && (c == b'\r' || c == b'\n')
    then record s' {
      endtok = s.endtok + 1;
      state =
          if s.endtok + 1 == 4
          then (if s.cont_wait then streaming_wait else streaming_buffering)
          else s.state;
    }
    else record s' { endtok = 0 }

-- `RECV_HEADERS`
unfoldable pub read_header : Recv → Stream → Stream
unfolding header_byte
read_header would_block s = s
read_header failed s = disconnect_to stopped local_disconnect s
read_header (received []) s = disconnect_to stopped local_disconnect s
read_header (received (c ∷ xs)) s = header_byte c s

abbrev pub is_empty : List ℕ → Bool
is_empty [] = true
is_empty (x ∷ xs) = false

-- The end of a round of metadata: with none left, a text that came is to be sent on.
unfoldable pub meta_done : Stream → Stream
meta_done s =
    if s.meta_left == 0
    then record s {
      meta_send = not (is_empty s.header) || s.meta_send;
      meta_next = s.meta_interval;
    }
    else s

-- The bytes of the metadata.
unfoldable pub meta_bytes : Recv → Stream → Stream
unfolding meta_done
meta_bytes would_block s = s
meta_bytes failed s = disconnect_to stopped local_disconnect s
meta_bytes (received []) s = disconnect_to stopped local_disconnect s
meta_bytes (received (x ∷ xs)) s =
    meta_done
      (record s { meta_left = s.meta_left - length (x ∷ xs); header = s.header ++ (x ∷ xs) })

unfoldable pub meta_text : (ℕ → Recv) → Stream → Stream
unfolding meta_bytes meta_done
meta_text many s = if s.meta_left == 0 then meta_done s else meta_bytes (many s.meta_left) s

-- The length of the metadata, and what is there of them.
unfoldable pub meta_length : Recv → (ℕ → Recv) → Stream → Stream
unfolding meta_text
meta_length would_block many s = s
meta_length failed many s = disconnect_to stopped local_disconnect s
meta_length (received []) many s = disconnect_to stopped local_disconnect s
meta_length (received (c ∷ xs)) many s =
    meta_text many (record s { meta_left = 16 * c; header = [] })

-- `stream.meta_interval && stream.meta_next == 0`
unfoldable pub read_meta : Recv → (ℕ → Recv) → Stream → Stream
unfolding meta_length meta_text
read_meta one many s = if s.meta_left == 0 then meta_length one many s else meta_text many s

-- `space` of the body
abbrev pub room : Buffer → ℕ
room b = min (space b) (cont_write b)

abbrev pub body_space : Stream → Buffer → ℕ
body_space s b = if s.meta_interval == 0 then room b else min (room b) s.meta_next

abbrev pub is_buffering : StreamState → Bool
is_buffering streaming_buffering = true
is_buffering stopped = false
is_buffering disconnected = false
is_buffering streaming_wait = false
is_buffering streaming_file = false
is_buffering streaming_http = false
is_buffering send_headers = false
is_buffering recv_headers = false

-- `STREAMING_BUFFERING` ends where the threshold is passed.
abbrev pub start_http : Stream → Stream
start_http s =
    if is_buffering s.state && ltb s.threshold s.bytes
    then record s { state = streaming_http }
    else s

-- The comments as they are written to the header, each behind its length of two bytes. The test for
-- the room is that of unsigned numbers: with `MAX_HEADER` - 1 bytes or more there it wraps, and the
-- header grows past its end.
unfoldable pub add_comments : List (List ℕ) → List ℕ → List ℕ
add_comments [] header = header
add_comments (c ∷ cs) header =
    let rest = add_comments cs (header ++ (u8 (length c / 2 ^ 8) ∷ u8 (length c) ∷ c)) in
    if ltb (2 ^ 16 - 1) (length c) || ltb (sub32 (sub32 max_header (length header)) 2) (length c)
    then header
    else rest

-- The end of `stream_ogg`, from `memcpy(stream.header, "Ogg", 3)` on.
unfoldable pub stream_ogg : Option (List (List ℕ)) → Stream → Stream
unfolding add_comments
stream_ogg none s = s
stream_ogg (some cs) s = record s {
  header = add_comments cs (b'O' ∷ b'g' ∷ b'g' ∷ []);
  meta_send = true;
}

-- The body of the stream.
unfoldable pub read_body : Option (List (List ℕ)) → Recv → Stream → Buffer → Stream × Buffer
unfolding stream_ogg
read_body comments would_block s b = (s, b)
read_body comments failed s b = (disconnect_to disconnected remote_disconnect s, b)
read_body comments (received []) s b = (disconnect_to disconnected disconnect_ok s, b)
read_body comments (received (x ∷ xs)) s b =
    let n = length (x ∷ xs) in
    (
      start_http (record (stream_ogg comments s) {
        bytes = u64 (s.bytes + n);
        meta_next = if s.meta_interval == 0 then s.meta_next else s.meta_next - n;
      }),
      append_bytes b (x ∷ xs),
    )

-- `send_header` and what follows it; a failure leaves `fd` open.
unfoldable pub sent_header : Bool → Stream → Stream
sent_header true s = record s { state = recv_headers; header = [] }
sent_header false s = record s { state = disconnected; disconnect = local_disconnect; header = [] }

-- What is read in a state that polls.
unfoldable pub read_socket : Input → StreamState → Stream → Buffer → Stream × Buffer
unfolding read_header read_meta read_body
read_socket i recv_headers s b = (read_header i.one s, b)
read_socket i state s b =
    if not (s.meta_interval == 0) && s.meta_next == 0
    then (read_meta i.one i.many s, b)
    else read_body i.comments (i.many (body_space s b)) s b

-- The states up to STREAMING_WAIT, in which nothing is read.
abbrev pub is_idle : StreamState → Bool
is_idle stopped = true
is_idle disconnected = true
is_idle streaming_wait = true
is_idle streaming_buffering = false
is_idle streaming_file = false
is_idle streaming_http = false
is_idle send_headers = false
is_idle recv_headers = false

abbrev pub sends : StreamState → Bool
sends send_headers = true
sends stopped = false
sends disconnected = false
sends streaming_wait = false
sends streaming_buffering = false
sends streaming_file = false
sends streaming_http = false
sends recv_headers = false

abbrev pub is_file : StreamState → Bool
is_file streaming_file = true
is_file stopped = false
is_file disconnected = false
is_file streaming_wait = false
is_file streaming_buffering = false
is_file streaming_http = false
is_file send_headers = false
is_file recv_headers = false

-- A round of `stream_thread`.
unfoldable pub stream_round : Input → Stream → Buffer → Stream × Buffer
unfolding read_file read_socket sent_header
stream_round i s b =
    if not s.connected || room b == 0 || is_idle s.state
    then (s, b)
    else if is_file s.state
    then read_file (i.many (room b)) s b
    else if i.can_send && sends s.state
    then (sent_header i.sent s, b)
    else if i.can_read
    then read_socket i s.state s b
    else (s, b)

-- What both ways to start a stream reset.
abbrev pub fresh : List ℕ → ℕ → Stream → Stream
fresh header threshold s = record s {
  header = header;
  meta_interval = 0;
  meta_next = 0;
  meta_left = 0;
  meta_send = false;
  sent_headers = false;
  bytes = 0;
  threshold = threshold;
}

-- `stream_file`; `opens` says whether the file could be opened.
unfoldable pub stream_file : Bool → List ℕ → ℕ → Stream → Buffer → Stream × Buffer
unfolding flush
stream_file opens header threshold s b = (
  record (fresh header threshold s) {
    state = if opens then streaming_file else disconnected;
    cont_wait = false;
    connected = opens;
  },
  flush b,
)

-- `stream_sock` from the connection on.
unfoldable pub start_sock : Bool → List ℕ → ℕ → Bool → Stream → Buffer → Stream × Buffer
unfolding flush
start_sock connects header threshold cont_wait s b =
    if connects
    then (
      record (fresh header threshold s) {
        state = send_headers;
        cont_wait = cont_wait;
        connected = true;
      },
      flush b,
    )
    else (record s { state = disconnected; disconnect = unreachable }, b)

-- `stream_sock`; `connects` says whether one of the attempts gave a socket. The name of the host only
-- serves the connection. `none` says that the search for it reads past the end of the header.
unfoldable pub stream_sock : Bool → List ℕ → ℕ → Bool → Stream → Buffer → Option (Stream × Buffer)
unfolding find_host start_sock
stream_sock connects header threshold cont_wait s b = do
  host ← find_host header
  some (start_sock connects header threshold cont_wait s b)

-- `stream_disconnect`: whether there was a connection, and what is left.
unfoldable pub stream_disconnect : Stream → Bool × Stream
stream_disconnect s = (s.connected, record s { connected = false; state = stopped })

abbrev pub is_waiting : StreamState → Bool
is_waiting streaming_wait = true
is_waiting stopped = false
is_waiting disconnected = false
is_waiting streaming_buffering = false
is_waiting streaming_file = false
is_waiting streaming_http = false
is_waiting send_headers = false
is_waiting recv_headers = false

-- What a `cont` packet of the server does to the stream.
unfoldable pub stream_cont : ℕ → Stream → Stream
stream_cont interval s =
    if is_waiting s.state
    then record s { state = streaming_buffering; meta_interval = interval; meta_next = interval }
    else s
