-- ===== src/Slimproto/Message.antt =====
-- slimproto.c and slimproto.h: the packets that the player sends, in a build for LMS without IR.
pub mod Laws
use apple_squeezer.Prelude.{
  ℕ, ◌+◌, ◌-◌, ◌*◌, ◌/◌, ◌%◌, ◌^◌, Bool, ◌&&◌, not, List, [], ◌∷◌, ◌++◌, length, ◌==◌, ltb,
  if◌then◌else◌, u8, u32, u64,
}
use apple_squeezer.Network.{pack_u32, pack_u16}
use apple_squeezer.Stream.{
  StreamState, DisconnectCode, disconnect_ok, local_disconnect, remote_disconnect, unreachable,
  timeout,
}

-- The static `status`
pub record Status : Type 0 where
  pub updated : ℕ
  pub stream_start : ℕ
  pub stream_full : ℕ
  pub stream_size : ℕ
  pub stream_bytes : ℕ
  pub output_full : ℕ
  pub output_size : ℕ
  pub frames_played : ℕ
  pub device_frames : ℕ
  pub current_sample_rate : ℕ
  pub last : ℕ
  pub stream_state : StreamState

-- The events of `sendSTAT`
pub data Stat : Type 0 where
  stmc stmd stmf stml stmn stmo stmp stmr stms stmt stmu : Stat

-- What is sent; the four numbers of `stat` are the bytes of `server_timestamp`, as they came.
pub data Message : Type 0 where
  stat : Stat → Status → ℕ → ℕ → ℕ → ℕ → ℕ → Message
  dsco : DisconnectCode → Message
  resp meta setd : List ℕ → Message

-- The last letter of the event.
abbrev pub letter : Stat → ℕ
letter stmc = b'c'
letter stmd = b'd'
letter stmf = b'f'
letter stml = b'l'
letter stmn = b'n'
letter stmo = b'o'
letter stmp = b'p'
letter stmr = b'r'
letter stms = b's'
letter stmt = b't'
letter stmu = b'u'

-- `disconnect_code`, as a number.
abbrev pub reason : DisconnectCode → ℕ
reason disconnect_ok = 0
reason local_disconnect = 1
reason remote_disconnect = 2
reason unreachable = 3
reason timeout = 4

-- `ms_played` of `sendSTAT`
unfoldable pub ms_played : Status → ℕ → ℕ
ms_played s now =
    if not (s.current_sample_rate == 0)
      && not (s.frames_played == 0)
      && ltb s.device_frames s.frames_played
    then (let played =
          u32 (u64 ((s.frames_played - s.device_frames) * 1000) / s.current_sample_rate) in
        if ltb s.updated now then u32 (played + (now - s.updated)) else played)
    else if not (s.frames_played == 0) && ltb s.stream_start now
    then now - s.stream_start
    else 0

-- `struct STAT_packet`, behind its length.
abbrev stat_body : Stat → Status → ℕ → ℕ → ℕ → ℕ → ℕ → List ℕ
stat_body e s now t0 t1 t2 t3 =
    (b'S' ∷ b'T' ∷ b'M' ∷ letter e ∷ 0 ∷ 0 ∷ 0 ∷ [])
    ++ (pack_u32 s.stream_size
        ++ (pack_u32 s.stream_full
            ++ (pack_u32 (s.stream_bytes / 2 ^ 32)
                ++ (pack_u32 (s.stream_bytes % 2 ^ 32)
                    ++ ((0xff ∷ 0xff ∷ [])
                        ++ (pack_u32 now
                            ++ (pack_u32 s.output_size
                                ++ (pack_u32 s.output_full
                                    ++ (pack_u32 (ms_played s now / 1000)
                                        ++ ((0 ∷ 0 ∷ [])
                                            ++ (pack_u32 (ms_played s now)
                                                ++ (t0 ∷ t1 ∷ t2 ∷ t3 ∷ 0 ∷ 0 ∷ []))))))))))))

-- What stands behind the length.
unfoldable pub body : Message → List ℕ
unfolding ms_played pack_u32
body (stat e s now t0 t1 t2 t3) = stat_body e s now t0 t1 t2 t3
body (dsco code) = u8 (reason code) ∷ []
body (resp header) = header
body (meta text) = text
body (setd name) = 0 ∷ (name ++ (0 ∷ []))

abbrev opcode : Message → List ℕ
opcode (stat e s now t0 t1 t2 t3) = b'S' ∷ b'T' ∷ b'A' ∷ b'T' ∷ []
opcode (dsco code) = b'D' ∷ b'S' ∷ b'C' ∷ b'O' ∷ []
opcode (resp header) = b'R' ∷ b'E' ∷ b'S' ∷ b'P' ∷ []
opcode (meta text) = b'M' ∷ b'E' ∷ b'T' ∷ b'A' ∷ []
opcode (setd name) = b'S' ∷ b'E' ∷ b'T' ∷ b'D' ∷ []

-- The length that the packet says it has: the sizes of the structs of slimproto.h, less 8, with
-- what is sent behind them.
abbrev pub said_length : Message → ℕ
said_length (stat e s now t0 t1 t2 t3) = 61 - 8
said_length (dsco code) = 9 - 8
said_length (resp header) = 8 + length header - 8
said_length (meta text) = 8 + length text - 8
said_length (setd name) = 9 + length name + 1 - 8

-- The bytes that `send_packet` is given.
unfoldable pub packet_bytes : Message → List ℕ
unfolding body
packet_bytes m = opcode m ++ (pack_u32 (said_length m) ++ body m)
