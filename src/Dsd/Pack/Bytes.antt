-- ===== src/Dsd/Pack/Bytes.antt =====
-- dsd.c: the bits of a channel come through the packing unchanged.
use apple_squeezer.Prelude.{
  ℕ, ◌+◌, ◌*◌, ◌/◌, ◌^◌, ◌<◌, ◌≡◌, refl, ap, ap₂, ◌∙◌, List, [], ◌∷◌, get_or, drop, arith, or_sum,
  u8,
}
use apple_squeezer.Buffer.Memory.{get_or-drop}
use apple_squeezer.Network.{unpack_u32}
use apple_squeezer.Network.Laws.{unpack_u32_sum}
use apple_squeezer.Dsd.Pack.{Layout, words, halves, bytes, dop_halves, width, word, strided}

-- The bytes that a word carries, the first in time first: from the top of the word, but for DoP, whose
-- marker goes to the top byte.
abbrev pub payload : Layout → ℕ → List ℕ
payload words w = w / 2 ^ 24 ∷ u8 (w / 2 ^ 16) ∷ u8 (w / 2 ^ 8) ∷ u8 w ∷ []
payload halves w = w / 2 ^ 24 ∷ u8 (w / 2 ^ 16) ∷ []
payload bytes w = w / 2 ^ 24 ∷ []
payload dop_halves w = u8 (w / 2 ^ 16) ∷ u8 (w / 2 ^ 8) ∷ []

split4 :
    (a b c d : ℕ)
    → a < 2 ^ 8
    → b < 2 ^ 8
    → c < 2 ^ 8
    → d < 2 ^ 8
    → let w : ℕ = a * 2 ^ 24 + b * 2 ^ 16 + c * 2 ^ 8 + d in
      (payload words w ≡ a ∷ b ∷ c ∷ d ∷ []) × w < 2 ^ 32
split4 a b c d ha hb hc hd = (
  ap₂ ◌∷◌ (omega arith)
      (ap₂ ◌∷◌ (omega arith) (ap₂ ◌∷◌ (omega arith) (ap₂ ◌∷◌ (omega arith) refl))),
  omega arith,
)

split2 :
    (a b : ℕ)
    → a < 2 ^ 8
    → b < 2 ^ 8
    → (payload halves (a * 2 ^ 24 + b * 2 ^ 16) ≡ a ∷ b ∷ []) × a * 2 ^ 24 + b * 2 ^ 16 < 2 ^ 32
split2 a b ha hb = (ap₂ ◌∷◌ (omega arith) (ap₂ ◌∷◌ (omega arith) refl), omega arith)

split_dop :
    (a b : ℕ)
    → a < 2 ^ 8
    → b < 2 ^ 8
    → (payload dop_halves (a * 2 ^ 16 + b * 2 ^ 8) ≡ a ∷ b ∷ []) × a * 2 ^ 16 + b * 2 ^ 8 < 2 ^ 32
split_dop a b ha hb = (ap₂ ◌∷◌ (omega arith) (ap₂ ◌∷◌ (omega arith) refl), omega arith)

-- Step by step, or at once.
second : (s : ℕ) (p : List ℕ) → get_or (drop s p) 0 0 ≡ get_or p s 0
second s p = get_or-drop s p 0 ∙ ap (λ i. get_or p i 0) (omega arith)

third : (s : ℕ) (p : List ℕ) → get_or (drop s (drop s p)) 0 0 ≡ get_or p (2 * s) 0
third s p = second s (drop s p) ∙ get_or-drop s p s ∙ ap (λ i. get_or p i 0) (omega arith)

fourth : (s : ℕ) (p : List ℕ) → get_or (drop s (drop s (drop s p))) 0 0 ≡ get_or p (3 * s) 0
fourth s p = third s (drop s p) ∙ get_or-drop s p (2 * s) ∙ ap (λ i. get_or p i 0) (omega arith)

-- A word of each layout carries the bytes of its channel, each below 2 ^ 8, in their order, and is
-- below 2 ^ 32.
pub payload-word :
    (l : Layout) (stride : ℕ) (p : List ℕ)
    → ((k : ℕ) → get_or p k 0 < 2 ^ 8)
    → (payload l (word l stride p) ≡ strided (width l) stride p) × word l stride p < 2 ^ 32
unfolding word strided unpack_u32
payload-word words stride p h =
    let s =
      unpack_u32_sum (get_or p 0 0) (get_or p stride 0) (get_or p (2 * stride) 0)
        (get_or p (3 * stride) 0) (h stride) (h (2 * stride)) (h (3 * stride)) in
    rw (second stride p, third stride p, fourth stride p, s)
      (split4 (get_or p 0 0) (get_or p stride 0) (get_or p (2 * stride) 0) (get_or p (3 * stride) 0)
        (h 0) (h stride) (h (2 * stride)) (h (3 * stride)))
payload-word halves stride p h =
    let s = or_sum 24 (get_or p 0 0) (get_or p stride 0 * 2 ^ 16) (omega (arith, h stride)) in
    rw (second stride p, s) (split2 (get_or p 0 0) (get_or p stride 0) (h 0) (h stride))
payload-word dop_halves stride p h =
    let s = or_sum 16 (get_or p 0 0) (get_or p stride 0 * 2 ^ 8) (omega (arith, h stride)) in
    rw (second stride p, s) (split_dop (get_or p 0 0) (get_or p stride 0) (h 0) (h stride))
payload-word bytes stride p h = (ap (λ x. x ∷ []) (omega arith), omega (arith, h 0))
