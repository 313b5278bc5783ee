-- ===== src/Network/Laws.antt =====
-- utils.c: what is packed is unpacked.
use apple_squeezer.Prelude.{
  ℕ, suc, ◌+◌, ◌*◌, ◌/◌, ◌^◌, ◌<◌, ◌≡◌, ◌∙◌, refl, ap, List, [], ◌∷◌, ◌++◌, length, some, bit_or,
  u8, get_elem?, or_sum, arith,
}
use apple_squeezer.Network.{pack_u32, unpack_u32, unpack_u16, read_u32}

pub unpack_u16_sum : (a b : ℕ) → b < 256 → unpack_u16 a b ≡ a * 256 + b
unfolding unpack_u16
unpack_u16_sum a b h = or_sum 8 a b h

pub unpack_u32_sum :
    (a b c d : ℕ)
    → b < 256
    → c < 256
    → d < 256
    → unpack_u32 a b c d ≡ a * 2 ^ 24 + b * 2 ^ 16 + c * 2 ^ 8 + d
unfolding unpack_u32
unpack_u32_sum a b c d hb hc hd =
    let two : bit_or (a * 2 ^ 24) (b * 2 ^ 16) ≡ (a * 256 + b) * 2 ^ 16 =
      or_sum 24 a (b * 2 ^ 16) (omega arith) ∙ omega arith in
    let three : bit_or ((a * 256 + b) * 2 ^ 16) (c * 2 ^ 8) ≡ (a * 65536 + b * 256 + c) * 2 ^ 8 =
      or_sum 16 (a * 256 + b) (c * 2 ^ 8) (omega arith) ∙ omega arith in
    ap (λ t. bit_or (bit_or t (c * 2 ^ 8)) d) two
    ∙ ap (λ t. bit_or t d) three
    ∙ or_sum 8 (a * 65536 + b * 256 + c) d (omega arith)
    ∙ omega arith

pub get_elem?-append {ℓ} :
    {A : Type ℓ} (xs ys : List A) (k : ℕ) → get_elem? (xs ++ ys) (length xs + k) ≡ get_elem? ys k
get_elem?-append [] ys k = let e : 0 + k ≡ k = omega arith in rw e refl
get_elem?-append (x ∷ xs) ys k =
    let e : suc (length xs) + k ≡ suc (length xs + k) = omega arith in
    rw e (get_elem?-append xs ys k)

-- What `packN` writes anywhere in a packet, `unpackN` reads back there, for a number of 32 bits.
pub read_u32-pack_u32 :
    (xs ys : List ℕ) (v : ℕ) → v < 2 ^ 32 → read_u32 (xs ++ (pack_u32 v ++ ys)) (length xs) ≡ some v
unfolding read_u32 pack_u32
read_u32-pack_u32 xs ys v h =
    let at = get_elem?-append xs (pack_u32 v ++ ys) in
    let first : get_elem? (xs ++ (pack_u32 v ++ ys)) (length xs) ≡ some (u8 (v / 2 ^ 24)) =
      let e : length xs ≡ length xs + 0 = omega arith in
      ap (get_elem? (xs ++ (pack_u32 v ++ ys))) e ∙ at 0 in
    rw (first, at 1, at 2, at 3)
      (ap some (
        unpack_u32_sum (u8 (v / 2 ^ 24)) (u8 (v / 2 ^ 16)) (u8 (v / 2 ^ 8)) (u8 v) (omega arith)
          (omega arith) (omega arith)
        ∙ omega arith))
