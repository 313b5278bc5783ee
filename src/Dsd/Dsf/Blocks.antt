-- ===== src/Dsd/Dsf/Blocks.antt =====
-- dsd.c: the blocks of `_decode_dsf` in the stream buffer, and what is written for them.
use apple_squeezer.Prelude.{
  ℕ, zero, suc, ◌+◌, ◌-◌, ◌*◌, ◌%◌, ◌≤◌, ◌<◌, ◌≡◌, refl, sym, ap, ap₂, ◌∙◌, subst, inl, inr, Bool,
  Bool-cases, List, [], ◌∷◌, ◌++◌, take, drop, length, length-drop, get_or, Option, none, some, leb,
  ◌==◌, if◌then◌else◌, arith,
}
use native.Mathlib.Nat.{mod-eq_of_lt}
use apple_squeezer.Buffer.{Buffer, used}
use apple_squeezer.Buffer.Memory.{Agree, drop-Agree, get_or-drop}
use apple_squeezer.Buffer.Inv.{IsValid, measures}
use apple_squeezer.Buffer.Queue.{contents, length-window, mod_cases}
use apple_squeezer.Pack.Words.{store32}
use apple_squeezer.Pcm.Decode.Input.{get_or-window}
use apple_squeezer.Dsd.{Dsd}
use apple_squeezer.Dsd.Pack.{Layout, width, width_of, word, Filters, strided}
use apple_squeezer.Dsd.Pack.Laws.{strided_ext, length-strided, length-interleave}
use apple_squeezer.Dsd.Dsf.{right_of, as_packed, pack_blocks, block_pcm, pack_dsf}

-- Two lists that have `n` bytes at least, the same ones.
abbrev pub Same : ℕ → List ℕ → List ℕ → Type 0
Same n p q = (n ≤ length p) × (n ≤ length q) × Agree n p q

take-Same : (n : ℕ) (p q : List ℕ) → Same n p q → take n p ≡ take n q
take-Same zero p q h = refl
take-Same (suc n) [] q h = absurd (omega (arith, h.0))
take-Same (suc n) (x ∷ p) [] h = absurd (omega (arith, h.1))
take-Same (suc n) (x ∷ p) (y ∷ q) h =
    ap₂ ◌∷◌ (h.2 0 (omega arith))
      (take-Same n p q (omega (arith, h.0), omega (arith, h.1), λ k i. h.2 (suc k) (omega arith)))

drop-Same : (n m : ℕ) (p q : List ℕ) → Same (n + m) p q → Same m (drop n p) (drop n q)
drop-Same n m p q h = (
  omega (arith, h.0, length-drop n p),
  omega (arith, h.1, length-drop n q),
  drop-Agree n m p q (h.2),
)

less-Same : (n m : ℕ) (p q : List ℕ) → n ≤ m → Same m p q → Same n p q
less-Same n m p q l h =
    (omega (arith, h.0, l), omega (arith, h.1, l), λ k i. h.2 k (omega (arith, l, i)))

module _ {ℓ} {F : Type ℓ} (bitreverse : ℕ → ℕ) (translate : Bool → F → List ℕ → List ℕ × F)
    (one_each : (b : Bool) (f : F) (xs : List ℕ) → length ((translate b f xs).0) ≡ length xs) where
  pack_blocks_ext :
      (l : Layout) (lsb_first : Bool) (count : ℕ) (p q p' q' : List ℕ)
      → Same (count * width l) p p'
      → Same (count * width l) q q'
      → pack_blocks bitreverse translate l lsb_first count p q
        ≡ pack_blocks bitreverse translate l lsb_first count p' q'
  unfolding pack_blocks
  pack_blocks_ext l lsb_first zero p q p' q' h k = refl
  pack_blocks_ext l lsb_first (suc count) p q p' q' h k =
      let w = width l in
      let e : suc count * w ≡ w + count * w = omega arith in
      let h' : Same (w + count * w) p p' = subst (λ n. Same n p p') e h in
      let k' : Same (w + count * w) q q' = subst (λ n. Same n q q') e k in
      let left = take-Same w p p' (less-Same w (w + count * w) p p' (omega arith) h') in
      let right = take-Same w q q' (less-Same w (w + count * w) q q' (omega arith) k') in
      ap₂ ◌++◌ (ap (λ t. store32 (word l 1 (as_packed bitreverse lsb_first t))) left) (
        ap₂ ◌++◌ (ap (λ t. store32 (word l 1 (as_packed bitreverse lsb_first t))) right) (
          pack_blocks_ext l lsb_first count (drop w p) (drop w q) (drop w p') (drop w q')
            (drop-Same w (count * w) p p' h') (drop-Same w (count * w) q q' k')))

  length-pack_blocks :
      (l : Layout) (lsb_first : Bool) (count : ℕ) (p q : List ℕ)
      → length (pack_blocks bitreverse translate l lsb_first count p q) ≡ count * 8
  unfolding pack_blocks
  length-pack_blocks l lsb_first zero p q = omega arith
  length-pack_blocks l lsb_first (suc count) p q =
      omega (arith, length-pack_blocks l lsb_first count (drop (width l) p) (drop (width l) q))

  pub pack_dsf_ext :
      (l : Option Layout) (d : Dsd) (count : ℕ) (p q p' q' : List ℕ) (filters : Filters F)
      → Same (count * width_of l) p p'
      → Same (count * width_of l) q q'
      → pack_dsf bitreverse translate l d count p q filters
        ≡ pack_dsf bitreverse translate l d count p' q' filters
  unfolding pack_dsf block_pcm
  pack_dsf_ext (some l) d count p q p' q' filters h k = elim (Bool-cases (d.channels == 1)) [
    | inl e ↦ rw e (ap (λ t. (t, filters)) (pack_blocks_ext l d.lsb_first count p p p' p' h h))
    | inr e ↦ rw e (ap (λ t. (t, filters)) (pack_blocks_ext l d.lsb_first count p q p' q' h k))
  ]
  pack_dsf_ext none d count p q p' q' filters h k =
      let left = strided_ext count 1 count p p' (omega arith) (λ j i. h.2 j (omega arith)) in
      let right = strided_ext count 1 count q q' (omega arith) (λ j i. k.2 j (omega arith)) in
      rw (left, right) refl

  pub length-pack_dsf :
      (l : Option Layout) (d : Dsd) (count : ℕ) (p q : List ℕ) (filters : Filters F)
      → length ((pack_dsf bitreverse translate l d count p q filters).0) ≡ count * 8
  unfolding pack_dsf block_pcm
  length-pack_dsf (some l) d count p q filters =
      length-pack_blocks l d.lsb_first count p (if d.channels == 1 then p else q)
  length-pack_dsf none d count p q filters =
      let left = one_each d.lsb_first filters.left (strided count 1 p) ∙ length-strided count 1 p in
      let right =
        one_each d.lsb_first filters.right (strided count 1 q) ∙ length-strided count 1 q in
      elim (Bool-cases (d.channels == 1)) [
        | inl e ↦ rw e (length-interleave count _ _ left left)
        | inr e ↦ rw e (length-interleave count _ _ left right)
      ]

-- What stands at the two pointers is what the buffer holds, up to the end of the storage.
pub left-Same :
    {b : Buffer} (t : ℕ)
    → IsValid b
    → t ≤ b.wrap - b.readp
    → t ≤ used b
    → Same t (drop b.readp b.mem) (contents b)
left-Same {b} t v h u = (
  omega (arith, length-drop b.readp b.mem, h, v.ends, v.stored, v.within),
  omega (arith, length-window b.mem b.size b.readp (used b), u),
  λ k i.
      get_or-drop b.readp b.mem k
      ∙ sym (
          get_or-window b.mem b.size b.readp (used b) k (omega (arith, u))
          ∙ ap (λ j. get_or b.mem j 0)
              (mod-eq_of_lt {n = b.readp + k} {m = b.size} (omega (arith, h, v.ends)))),
)

right_at :
    {b : Buffer} (block k : ℕ)
    → IsValid b
    → block + k < used b
    → k < b.wrap - right_of b block
    → (b.readp + (block + k)) % b.size ≡ right_of b block + k
right_at {b} block k v u h =
    let m = measures v in
    let turn = mod_cases (b.readp + (block + k)) b.size (omega (arith, m, v.read_in, u)) in
    elim (Bool-cases (leb b.wrap (b.readp + block))) [
      | inl e ↦
          let h' : k < b.wrap - (b.readp + block - b.size) =
            subst (λ c. k < b.wrap - (if c then b.readp + block - b.size else b.readp + block)) e
              h in
          rw e (ground (arith, turn, e, v.ends, v.read_in, m, u, h'))
      | inr e ↦
          let h' : k < b.wrap - (b.readp + block) =
            subst (λ c. k < b.wrap - (if c then b.readp + block - b.size else b.readp + block)) e
              h in
          rw e (ground (arith, turn, e, v.ends, h'))
    ]

pub right-Same :
    {b : Buffer} (block t : ℕ)
    → IsValid b
    → t ≤ b.wrap - right_of b block
    → block + t ≤ used b
    → Same t (drop (right_of b block) b.mem) (drop block (contents b))
right-Same {b} block t v h u = (
  omega (arith, length-drop (right_of b block) b.mem, h, v.ends, v.stored, v.within),
  omega (arith, length-drop block (contents b), length-window b.mem b.size b.readp (used b), u),
  λ k i.
      get_or-drop (right_of b block) b.mem k
      ∙ sym (
          get_or-drop block (contents b) k
          ∙ get_or-window b.mem b.size b.readp (used b) (block + k) (omega (arith, u))
          ∙ ap (λ j. get_or b.mem j 0) (right_at block k v (omega (arith, u)) (omega (arith, h)))),
)
