-- ===== src/Slimproto/Safe.antt =====
-- slimproto.c: where the handlers read a packet.
use apple_squeezer.Prelude.{ℕ, ◌-◌, drop, ◌≤◌, ◌≡◌, List, [], ◌∷◌, length, Option, some}
use apple_squeezer.Slimproto.Packets.{Strm, read_strm}
use apple_squeezer.Stream.{max_header}
use apple_squeezer.Stream.Host.{find_host}
use apple_squeezer.Slimproto.Process.{
  Handler, on_strm, on_cont, on_codc, on_aude, on_audg, on_setd, on_serv, Entry,
}
use apple_squeezer.Network.Reads.{IsRead}

-- What `stream_sock` reads of a packet that starts a stream, up to the longest header that is
-- accepted: the search for "Host:" ends before the packet does.
pub FindsHost : List ℕ → Type 0
FindsHost packet =
    (m : Strm)
    → read_strm packet ≡ some m
    → m.command ≡ b's'
    → length (drop 28 packet) ≤ max_header - 1
    → IsRead (find_host (drop 28 packet))

-- What a handler needs of a packet.
abbrev pub least : Handler → ℕ
least on_strm = 28
least on_cont = 8
least on_codc = 9
least on_aude = 5
least on_audg = 22
least on_setd = 5
least on_serv = 8

-- An entry whose least length is enough for its handler.
pub IsEnough : Entry → Type 0
IsEnough e = least e.handler ≤ e.min_len

pub AreEnough : List Entry → Type 0
AreEnough [] = Unit
AreEnough (e ∷ es) = IsEnough e × AreEnough es
