-- ===== src/Slimproto/Handlers.antt =====
-- slimproto.c: the handlers of the server's other packets.
use apple_squeezer.Prelude.{
  ℕ, zero, suc, ◌&&◌, ◌||◌, not, List, [], ◌∷◌, map, length, take, drop, Option, none, some, ◌==◌,
  ltb, if◌then◌else◌, get_elem?,
}
use apple_squeezer.Prelude.Int.{pos, ◌-ℤ◌, ltb_ℤ}
use apple_squeezer.Stream.{stream_cont}
use apple_squeezer.Output.{OutputState}
use apple_squeezer.Codecs.{codec_open}
use apple_squeezer.Network.{read_u32, ◌>>=◌}
use apple_squeezer.Slimproto.Message.{setd}
use apple_squeezer.Slimproto.Pass.{output_is}
use apple_squeezer.Slimproto.Packets.{Serv, read_audg, read_serv}
use apple_squeezer.Slimproto.Strm.{
  Connection, World, send_packet, with_output, with_autostart, open_codec,
}

-- `process_cont`
abbrev pub cont : ℕ → Connection → Connection
cont metaint c =
    if ltb_ℤ (pos 1) c.session.autostart
    then with_autostart (λ a. a -ℤ pos 2)
        (record c { player = record c.player { stream = stream_cont metaint c.player.stream } })
    else c

unfoldable pub process_cont : List ℕ → Connection → Option Connection
unfolding read_u32 stream_cont ◌-ℤ◌
process_cont packet c = do metaint ← read_u32 packet 4; some (cont metaint c)

-- `process_codc`; what it reads between the two bytes is only handed on to the codec.
unfoldable pub process_codc : World → List ℕ → Connection → Option Connection
unfolding codec_open
process_codc w packet c = do
  format ← get_elem? packet 4
  pcm_endianness ← get_elem? packet 8
  some (open_codec w format c)

-- The outputs are switched off and on.
unfoldable pub enable : World → ℕ → Connection → Connection
enable w spdif c =
    let o = c.player.output in
    if spdif == 0
    then with_output (λ o. record o { state = OutputState.off }) c
    else if output_is o.state OutputState.off && c.player.device.idle_to == 0
    then with_output (λ o. record o { state = OutputState.stopped; stop_time = w.now }) c
    else c

unfoldable pub process_aude : World → List ℕ → Connection → Option Connection
unfolding enable
process_aude w packet c = do spdif ← get_elem? packet 4; some (enable w spdif c)

-- `FIXED_ONE`
abbrev pub full_volume : ℕ
full_volume = 65536

unfoldable pub process_audg : World → List ℕ → Connection → Option Connection
unfolding read_audg
process_audg w packet c = do
  m ← read_audg packet
  some (
      with_output
        (w.set_volume (if m.adjusts == 0 then full_volume else m.gain_l)
          (if m.adjusts == 0 then full_volume else m.gain_r))
        c)

-- The bytes in front of the first 0, and control characters as blanks.
abbrev pub c_string : List ℕ → List ℕ
c_string [] = []
c_string (zero ∷ xs) = []
c_string (suc x ∷ xs) = suc x ∷ c_string xs

abbrev pub printable : ℕ → ℕ
printable x = if ltb x 0x20 || x == 0x7f then b' ' else x

abbrev pub player_name_len : ℕ
player_name_len = 64

-- `process_setd`, without the file that the name is stored in.
abbrev pub set_name : List ℕ → Connection → Connection
set_name name c = send_packet (setd name) (record c { player_name = name })

abbrev pub ask_name : Connection → Connection
ask_name c = if length c.player_name == 0 then c else send_packet (setd c.player_name) c

unfoldable pub process_setd : List ℕ → Connection → Option Connection
process_setd packet c = do
  id ← get_elem? packet 4
  some (
      if not (id == 0)
      then c
      else if length packet == 5
      then ask_name c
      else set_name (map printable (take player_name_len (c_string (drop 5 packet)))) c)

-- `process_serv`: the server, and the group to join there.
abbrev pub sync_cap : List ℕ → List ℕ
sync_cap group =
    b','
    ∷ b'S'
    ∷ b'y'
    ∷ b'n'
    ∷ b'c'
    ∷ b'g'
    ∷ b'r'
    ∷ b'o'
    ∷ b'u'
    ∷ b'p'
    ∷ b'I'
    ∷ b'D'
    ∷ b'='
    ∷ c_string group

abbrev pub join_group : World → List ℕ → Connection → Connection
join_group w group c = elim c.new_server_cap [
  | some cap ↦ record c { new_server_cap = some (sync_cap group) }
  | none ↦ if w.has_memory then record c { new_server_cap = some (sync_cap group) } else c
]

abbrev pub switch_server : World → Serv → List ℕ → Connection → Connection
switch_server w m group c =
    let named = m.byte0 == 0 && m.byte1 == 0 && m.byte2 == 0 && m.byte3 == 1 in
    let c' : Connection = record c { new_server = if named then w.server_addr else m.server } in
    if length group == 10 then join_group w group c' else record c' { new_server_cap = none }

unfoldable pub process_serv : World → List ℕ → Connection → Option Connection
unfolding read_serv
process_serv w packet c = do m ← read_serv packet; some (switch_server w m (drop 8 packet) c)
