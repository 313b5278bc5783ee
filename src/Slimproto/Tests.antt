-- ===== src/Slimproto/Tests.antt =====
-- Runs of slimproto.c, and the theorems about it at concrete packets.
use apple_squeezer.Prelude.{
  ℕ, zero, suc, ◌^◌, ◌<◌, ◌≡◌, inl, inr, refl, List, [], ◌∷◌, ◌++◌, length, take, drop, true, false,
  none, some, IsBytes, arith,
}
use apple_squeezer.Prelude.Int.{pos}
use apple_squeezer.Buffer.{Buffer}
use apple_squeezer.Stream.{StreamState, disconnect_ok, Recv, received}
use apple_squeezer.Stream.Host.{find_host}
use apple_squeezer.Stream.Demux.Reader.{IsWithin, bytes_of}
use apple_squeezer.Output.{Output, OutputState, inactive, undirected, fade_none}
use apple_squeezer.Pcm.Decode.{DecodeState}
use apple_squeezer.Network.{◌>>=◌}
use apple_squeezer.Slimproto.Receive.{Receiver, receive_all}
use apple_squeezer.Slimproto.Framing.{partial, wire, AreHonest, IsSplit, receive_all_lem}
use apple_squeezer.Slimproto.Message.{resp, body}
use apple_squeezer.Slimproto.State.{Player, Session}
use apple_squeezer.Slimproto.Once.{passes, IsCounted, passes-IsCounted}
use apple_squeezer.Slimproto.Strm.{Connection, World}
use apple_squeezer.Slimproto.Process.{process}

small_body : length (body (resp (72 ∷ 84 ∷ []))) < 2 ^ 32
unfolding body
small_body = omega arith

-- The socket gives the bytes of a packet of four one at a time.
abbrev byte : ℕ → ℕ → Recv
byte x n = received (take n (x ∷ []))

byte-IsWithin : (x n : ℕ) → IsWithin n (byte x n)
byte-IsWithin x zero = omega arith
byte-IsWithin x (suc zero) = omega arith
byte-IsWithin x (suc (suc n)) = omega arith

byte-IsBytes : (x n : ℕ) → x < 2 ^ 8 → IsBytes (bytes_of (byte x n))
byte-IsBytes x zero h = tt
byte-IsBytes x (suc zero) h = (h, tt)
byte-IsBytes x (suc (suc n)) h = (h, tt)

abbrev arriving : List (ℕ → Recv)
arriving = byte 0 ∷ byte 4 ∷ byte b'v' ∷ byte b'e' ∷ byte b'r' ∷ byte b's' ∷ byte 0 ∷ []

arriving-AreHonest : AreHonest arriving
unfolding AreHonest
arriving-AreHonest = (
  at 0 (omega arith),
  (
    at 4 (omega arith),
    (
      at b'v' (omega arith),
      (
        at b'e' (omega arith),
        (at b'r' (omega arith), (at b's' (omega arith), (at 0 (omega arith), tt))),
      ),
    ),
  ),
)
  where
    at : (x : ℕ) → x < 2 ^ 8 → (n : ℕ) → IsWithin n (byte x n) × IsBytes (bytes_of (byte x n))
    at x h n = (byte-IsWithin x n, byte-IsBytes x n h)

abbrev at_start : Receiver
at_start = record { expect = 0; got = [] }

arriving_packets : (receive_all arriving (some at_start)).0 ≡ (b'v' ∷ b'e' ∷ b'r' ∷ b's' ∷ []) ∷ []
unfolding receive_all
arriving_packets = refl

receive_all_lem_example :
    IsSplit
      (receive_all arriving (some at_start))
      (partial at_start ++ wire arriving (some at_start))
receive_all_lem_example =
    receive_all_lem arriving at_start arriving-AreHonest
      (record { of_length = inr (omega arith); framed = inl refl; are_bytes = tt })

abbrev no_bytes : Buffer
no_bytes = record {
  allocated = true;
  mem = 0 ∷ 0 ∷ 0 ∷ 0 ∷ 0 ∷ 0 ∷ 0 ∷ 0 ∷ [];
  readp = 0;
  writep = 0;
  wrap = 8;
  size = 8;
  base_size = 8;
}

-- The end of a stream: all is decoded and played.
abbrev played : Player
played = record {
  stream = record {
    state = StreamState.disconnected;
    disconnect = disconnect_ok;
    header = [];
    sent_headers = true;
    cont_wait = false;
    bytes = 100;
    threshold = 0;
    meta_interval = 0;
    meta_next = 0;
    meta_left = 0;
    meta_send = false;
    connected = false;
    endtok = 0;
  };
  streambuf = no_bytes;
  decode = record {
    new_stream = false;
    direct = true;
    state = DecodeState.stopped;
    codec = none;
    calls = [];
  };
  output = record {
    state = OutputState.running;
    channels = 0;
    track_started = false;
    start_frames = 0;
    frames_played = 0;
    current_sample_rate = 44100;
    default_sample_rate = 44100;
    error_opening = false;
    track_start_time = 0;
    current_replay_gain = 0;
    waiting = 0;
    next_sample_rate = 44100;
    track_start = none;
    gain_l = 65536;
    gain_r = 65536;
    invert = false;
    next_replay_gain = 0;
    threshold = 0;
    fade = inactive;
    fade_start = 0;
    fade_end = 0;
    fade_dir = undirected;
    fade_mode = fade_none;
    fade_secs = 0;
    rate_delay = 0;
    delay_active = false;
    stop_time = 0;
    outfmt = 0;
    next_fmt = 0;
    dsd_delay = 0;
  };
  outputbuf = no_bytes;
  device = record {
    frames_played_dmp = 0;
    updated = 0;
    device_frames = 0;
    idle_to = 0;
    coreaudio_reopen = false;
  };
}

abbrev session : Session
session = record {
  status = record {
    updated = 0;
    stream_start = 0;
    stream_full = 0;
    stream_size = 0;
    stream_bytes = 0;
    output_full = 0;
    output_size = 0;
    frames_played = 0;
    device_frames = 0;
    current_sample_rate = 0;
    last = 0;
    stream_state = StreamState.stopped;
  };
  autostart = pos 1;
  sent_stmu = false;
  sent_stmo = false;
  sent_stml = true;
}

-- Two passes that find the player as it was.
passes-IsCounted_example :
    let (end, ms) = passes ((100, played) ∷ (201, played) ∷ []) session in IsCounted session ms end
passes-IsCounted_example = passes-IsCounted ((100, played) ∷ (201, played) ∷ []) session

abbrev connection : Connection
connection = record {
  session = session;
  player = played;
  slimproto_ip = 0x0100007f;
  new_server = 0;
  new_server_cap = none;
  player_name = [];
  sent = [];
}

abbrev world : World
world = record {
  now = 100;
  slots = [];
  opens = true;
  connects = false;
  server_addr = 0;
  has_memory = true;
  set_volume = λ l r o. record o { gain_l = l; gain_r = r };
}

-- The server sets the player's name.
abbrev named : List ℕ
named = b's' ∷ b'e' ∷ b't' ∷ b'd' ∷ 0 ∷ b'a' ∷ 7 ∷ b'c' ∷ 0 ∷ b'd' ∷ []

named_name :
    (process world named connection >>= λ c. some c.player_name) ≡ some (b'a' ∷ b' ' ∷ b'c' ∷ [])
unfolding process
named_name = refl

-- `strm s` for a stream at 9000 of the server itself, with a header that names the host.
abbrev starting : List ℕ
starting =
    b's' ∷ b't' ∷ b'r' ∷ b'm' ∷ b's' ∷ b'1' ∷ b'p' ∷ b'1' ∷ b'3' ∷ b'2' ∷ b'0' ∷ 255 ∷ 0 ∷ 0 ∷ b'0'
    ∷ 0 ∷ 0 ∷ 0 ∷ 0 ∷ 0 ∷ 0 ∷ 0 ∷ 35 ∷ 40 ∷ 0 ∷ 0 ∷ 0 ∷ 0 ∷ b'H' ∷ b'o' ∷ b's' ∷ b't' ∷ b':' ∷ b'a'
    ∷ b'\r' ∷ b'\n' ∷ []

-- The same header cut behind "Host:a" is read past its end.
cut_start : find_host (drop 28 (take 34 starting)) ≡ none
unfolding find_host
cut_start = refl

-- A threshold of 25.5 seconds, for an outputbuf of 3528000 bytes.
abbrev patient : Output
patient = record played.output { threshold = 255 }

abbrev ten_seconds : Buffer
ten_seconds = record no_bytes { size = 3528000 }
