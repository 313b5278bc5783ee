-- ===== src/Slimproto/Packets.antt =====
-- slimproto.h: the packets that the server sends, as the handlers read them.
use apple_squeezer.Prelude.{ℕ, ◌+◌, ◌*◌, ◌^◌, List, Option, some, get_elem?}
use apple_squeezer.Network.{read_u32, ◌>>=◌}

-- `struct strm_packet`; the address and the port are as they stand in memory, the four bytes of
-- `replay_gain` as they came.
pub record Strm : Type 0 where
  pub command : ℕ
  pub autostart : ℕ
  pub format : ℕ
  pub pcm_sample_size : ℕ
  pub threshold : ℕ
  pub transition_period : ℕ
  pub transition_type : ℕ
  pub flags : ℕ
  pub output_threshold : ℕ
  pub gain0 : ℕ
  pub gain1 : ℕ
  pub gain2 : ℕ
  pub gain3 : ℕ
  pub server_port : ℕ
  pub server_ip : ℕ

-- Numbers as a little-endian machine reads them.
unfoldable pub raw_u16 : List ℕ → ℕ → Option ℕ
raw_u16 packet i = do a ← get_elem? packet i; b ← get_elem? packet (i + 1); some (a + b * 2 ^ 8)

unfoldable pub raw_u32 : List ℕ → ℕ → Option ℕ
unfolding raw_u16
raw_u32 packet i = do
  low ← raw_u16 packet i
  high ← raw_u16 packet (i + 2)
  some (low + high * 2 ^ 16)

unfoldable pub read_strm : List ℕ → Option Strm
unfolding raw_u16 raw_u32
read_strm packet = do
  command ← get_elem? packet 4
  autostart ← get_elem? packet 5
  format ← get_elem? packet 6
  pcm_sample_size ← get_elem? packet 7
  threshold ← get_elem? packet 11
  transition_period ← get_elem? packet 13
  transition_type ← get_elem? packet 14
  flags ← get_elem? packet 15
  output_threshold ← get_elem? packet 16
  gain0 ← get_elem? packet 18
  gain1 ← get_elem? packet 19
  gain2 ← get_elem? packet 20
  gain3 ← get_elem? packet 21
  server_port ← raw_u16 packet 22
  server_ip ← raw_u32 packet 24
  some (record {
    command = command;
    autostart = autostart;
    format = format;
    pcm_sample_size = pcm_sample_size;
    threshold = threshold;
    transition_period = transition_period;
    transition_type = transition_type;
    flags = flags;
    output_threshold = output_threshold;
    gain0 = gain0;
    gain1 = gain1;
    gain2 = gain2;
    gain3 = gain3;
    server_port = server_port;
    server_ip = server_ip;
  })

-- `struct audg_packet`
pub record Audg : Type 0 where
  pub adjusts : ℕ
  pub gain_l : ℕ
  pub gain_r : ℕ

unfoldable pub read_audg : List ℕ → Option Audg
unfolding read_u32
read_audg packet = do
  adjusts ← get_elem? packet 12
  gain_l ← read_u32 packet 14
  gain_r ← read_u32 packet 18
  some (record { adjusts = adjusts; gain_l = gain_l; gain_r = gain_r })

-- `struct serv_packet`, with the four bytes that `process_serv` looks at.
pub record Serv : Type 0 where
  pub byte0 : ℕ
  pub byte1 : ℕ
  pub byte2 : ℕ
  pub byte3 : ℕ
  pub server : ℕ

unfoldable pub read_serv : List ℕ → Option Serv
unfolding raw_u32
read_serv packet = do
  byte0 ← get_elem? packet 4
  byte1 ← get_elem? packet 5
  byte2 ← get_elem? packet 6
  byte3 ← get_elem? packet 7
  server ← raw_u32 packet 4
  some (record { byte0 = byte0; byte1 = byte1; byte2 = byte2; byte3 = byte3; server = server })
