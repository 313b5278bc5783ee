-- ===== src/Network.antt =====
-- utils.c: numbers in network byte order, as they stand in packets. A packet is the list of its
-- bytes; a read past its end gives `none`.
pub mod Laws
pub mod Reads
use apple_squeezer.Prelude.{
  ℕ, ◌+◌, ◌*◌, ◌/◌, ◌^◌, Bool, true, false, List, [], ◌∷◌, Option, none, some, bit_or, u8,
  get_elem?,
}

-- `packN`
unfoldable pub pack_u32 : ℕ → List ℕ
pack_u32 v = u8 (v / 2 ^ 24) ∷ u8 (v / 2 ^ 16) ∷ u8 (v / 2 ^ 8) ∷ u8 v ∷ []

-- `packn`
unfoldable pub pack_u16 : ℕ → List ℕ
pack_u16 v = u8 (v / 2 ^ 8) ∷ u8 v ∷ []

-- `unpackN`, of the four bytes.
unfoldable pub unpack_u32 : ℕ → ℕ → ℕ → ℕ → ℕ
unpack_u32 a b c d = bit_or (bit_or (bit_or (a * 2 ^ 24) (b * 2 ^ 16)) (c * 2 ^ 8)) d

-- `unpackn`, of the two bytes.
unfoldable pub unpack_u16 : ℕ → ℕ → ℕ
unpack_u16 a b = bit_or (a * 2 ^ 8) b

-- What is read may be missing.
infixl 5 ◌>>=◌
abbrev pub ◌>>=◌ {ℓ κ} : {A : Type ℓ} {B : Type κ} → Option A → (A → Option B) → Option B
none >>= f = none
some a >>= f = f a

-- `unpackN` at an offset of a packet.
unfoldable pub read_u32 : List ℕ → ℕ → Option ℕ
unfolding unpack_u32
read_u32 packet i = do
  a ← get_elem? packet i
  b ← get_elem? packet (i + 1)
  c ← get_elem? packet (i + 2)
  d ← get_elem? packet (i + 3)
  some (unpack_u32 a b c d)

-- `unpackn` at an offset of a packet.
unfoldable pub read_u16 : List ℕ → ℕ → Option ℕ
unfolding unpack_u16
read_u16 packet i = do a ← get_elem? packet i; b ← get_elem? packet (i + 1); some (unpack_u16 a b)
