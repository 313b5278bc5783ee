-- ===== src/Slimproto/Receive.antt =====
-- slimproto.c: how `slimproto_run` cuts what it receives into packets.
use apple_squeezer.Prelude.{
  ℕ, ◌-◌, ◌||◌, List, [], ◌∷◌, ◌++◌, length, Option, none, some, ◌==◌, ltb, if◌then◌else◌,
}
use apple_squeezer.Network.{unpack_u16}
use apple_squeezer.Stream.{Recv, failed, would_block, received}

-- `MAXBUF`
abbrev pub maxbuf : ℕ
maxbuf = 4096

-- `expect`, and the `got` first bytes of `buffer`.
pub record Receiver : Type 0 where
  pub expect : ℕ
  pub got : List ℕ

-- What a read leads to: there is more to come, a packet for `process`, or the end of the connection.
pub data Receipt : Type 0 where
  waits : Receiver → Receipt
  packet : List ℕ → Receiver → Receipt
  stops : Receipt

-- How many bytes are asked for.
abbrev pub wanted : Receiver → ℕ
wanted r = if r.expect == 0 then 2 - length r.got else r.expect

-- The length of the packet, when its two bytes are there.
unfoldable pub read_length : List ℕ → Receipt
unfolding unpack_u16
read_length (a ∷ b ∷ []) =
    let expect = unpack_u16 a b in
    if ltb expect 4 || ltb maxbuf expect
    then stops
    else waits (record { expect = expect; got = [] })
read_length got = waits (record { expect = 0; got = got })

-- Bytes of the packet.
unfoldable pub read_packet : ℕ → List ℕ → Receipt
read_packet expect got =
    if expect == 0
    then packet got (record { expect = 0; got = [] })
    else waits (record { expect = expect; got = got })

-- `EVENT_READ`, of what is answered.
unfoldable pub receive : Recv → Receiver → Receipt
unfolding read_length read_packet
receive failed r = stops
receive would_block r = waits r
receive (received []) r = stops
receive (received (x ∷ xs)) r =
    if r.expect == 0
    then read_length (r.got ++ (x ∷ xs))
    else read_packet (r.expect - length (x ∷ xs)) (r.got ++ (x ∷ xs))

-- What a read leaves: the packets for `process`, and the receiver if it goes on.
abbrev pub packets : Receipt → List (List ℕ)
packets (waits r) = []
packets (packet p r) = p ∷ []
packets stops = []

abbrev pub left : Receipt → Option Receiver
left (waits r) = some r
left (packet p r) = some r
left stops = none

-- Reads in a row, each asking for as much as is wanted.
unfoldable pub receive_all : List (ℕ → Recv) → Option Receiver → List (List ℕ) × Option Receiver
unfolding receive
receive_all answers none = ([], none)
receive_all [] (some r) = ([], some r)
receive_all (a ∷ answers) (some r) =
    let t = receive (a (wanted r)) r in
    let (ps, end) = receive_all answers (left t) in (packets t ++ ps, end)
