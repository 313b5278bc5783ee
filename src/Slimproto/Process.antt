-- ===== src/Slimproto/Process.antt =====
-- slimproto.c: `process`, which finds the handler of a packet.
use apple_squeezer.Prelude.{
  ℕ, Bool, true, false, ◌&&◌, List, [], ◌∷◌, length, Option, none, some, ◌==◌, ltb, if◌then◌else◌,
}
use apple_squeezer.Slimproto.Strm.{Connection, World, process_strm}
use apple_squeezer.Slimproto.Handlers.{
  process_cont, process_codc, process_aude, process_audg, process_setd, process_serv,
}

-- The functions that `handlers` names
pub data Handler : Type 0 where
  on_strm on_cont on_codc on_aude on_audg on_setd on_serv : Handler

unfoldable pub handle : Handler → World → List ℕ → Connection → Option Connection
unfolding process_strm process_cont process_codc process_aude process_audg process_setd process_serv
handle on_strm w packet c = process_strm w packet c
handle on_cont w packet c = process_cont packet c
handle on_codc w packet c = process_codc w packet c
handle on_aude w packet c = process_aude w packet c
handle on_audg w packet c = process_audg w packet c
handle on_setd w packet c = process_setd packet c
handle on_serv w packet c = process_serv w packet c

-- `struct handler`
pub record Entry : Type 0 where
  pub opcode : List ℕ
  pub handler : Handler
  pub min_len : ℕ

-- `handlers`; the least lengths are the sizes of the packets' structs.
abbrev pub handlers : List Entry
handlers =
    record { opcode = b's' ∷ b't' ∷ b'r' ∷ b'm' ∷ []; handler = on_strm; min_len = 28 }
    ∷ record { opcode = b'c' ∷ b'o' ∷ b'n' ∷ b't' ∷ []; handler = on_cont; min_len = 9 }
    ∷ record { opcode = b'c' ∷ b'o' ∷ b'd' ∷ b'c' ∷ []; handler = on_codc; min_len = 9 }
    ∷ record { opcode = b'a' ∷ b'u' ∷ b'd' ∷ b'e' ∷ []; handler = on_aude; min_len = 6 }
    ∷ record { opcode = b'a' ∷ b'u' ∷ b'd' ∷ b'g' ∷ []; handler = on_audg; min_len = 22 }
    ∷ record { opcode = b's' ∷ b'e' ∷ b't' ∷ b'd' ∷ []; handler = on_setd; min_len = 5 }
    ∷ record { opcode = b's' ∷ b'e' ∷ b'r' ∷ b'v' ∷ []; handler = on_serv; min_len = 8 }
    ∷ []

-- `!strncmp(pack, opcode, 4)`, for an opcode of four letters.
abbrev pub starts_with : List ℕ → List ℕ → Bool
starts_with packet [] = true
starts_with [] (o ∷ os) = false
starts_with (x ∷ xs) (o ∷ os) = x == o && starts_with xs os

-- The loop over the handlers
unfoldable pub find : List ℕ → List Entry → Option Entry
find packet [] = none
find packet (e ∷ entries) =
    let rest = find packet entries in if starts_with packet e.opcode then some e else rest

-- The handler that was found, if the packet is not too short for it.
unfoldable pub dispatch : Option Entry → World → List ℕ → Connection → Option Connection
unfolding handle
dispatch none w packet c = some c
dispatch (some e) w packet c =
    if ltb (length packet) e.min_len then some c else handle e.handler w packet c

-- `process`
unfoldable pub process : World → List ℕ → Connection → Option Connection
unfolding find dispatch
process w packet c =
    if ltb (length packet) 4 then some c else dispatch (find packet handlers) w packet c
