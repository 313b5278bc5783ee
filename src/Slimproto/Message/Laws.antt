-- ===== src/Slimproto/Message/Laws.antt =====
-- slimproto.c: the lengths of the packets that the player sends.
use apple_squeezer.Prelude.{
  ℕ, ◌+◌, ◌^◌, ◌<◌, ◌≡◌, ◌∙◌, refl, sym, ap, [], ◌∷◌, ◌++◌, length, length-append, some, arith,
}
use apple_squeezer.Network.{pack_u32, read_u32}
use apple_squeezer.Network.Laws.{read_u32-pack_u32}
use apple_squeezer.Slimproto.Message.{
  Message, stat, dsco, resp, meta, setd, body, opcode, said_length, packet_bytes,
}

length-body : (m : Message) → said_length m ≡ length (body m)
unfolding body pack_u32
length-body (stat e s now t0 t1 t2 t3) = refl
length-body (dsco code) = refl
length-body (resp header) = omega arith
length-body (meta text) = omega arith
length-body (setd name) = omega (arith, length-append name (0 ∷ []))

length-opcode : (m : Message) → length (opcode m) ≡ 4
length-opcode (stat e s now t0 t1 t2 t3) = refl
length-opcode (dsco code) = refl
length-opcode (resp header) = refl
length-opcode (meta text) = refl
length-opcode (setd name) = refl

length-pack_u32 : (v : ℕ) → length (pack_u32 v) ≡ 4
unfolding pack_u32
length-pack_u32 v = refl

-- In each packet that the player sends, the number behind the opcode is the number of the bytes
-- that follow it, where these are fewer than 2 ^ 32.
pub packet_bytes_lem :
    (m : Message)
    → length (body m) < 2 ^ 32
    → (read_u32 (packet_bytes m) 4 ≡ some (length (body m)))
      × (length (packet_bytes m) ≡ 8 + length (body m))
unfolding packet_bytes
packet_bytes_lem m h =
    let same = length-body m in
    let sizes = length-append (opcode m) (pack_u32 (said_length m) ++ body m) in
    (
      ap (read_u32 (packet_bytes m)) (sym (length-opcode m))
          ∙ read_u32-pack_u32 (opcode m) (body m) (said_length m) (omega (arith, same))
          ∙ ap some same,
      omega (
        arith,
        sizes,
        length-opcode m,
        length-append (pack_u32 (said_length m)) (body m),
        length-pack_u32 (said_length m),
      ),
    )
