-- ===== src/Dsd/Diff/Source.antt =====
-- dsd.c: the bytes that `_decode_dsdiff` reads are those it takes, with silence behind them.
use apple_squeezer.Prelude.{
  ℕ, zero, suc, ◌-◌, ◌*◌, ◌/◌, ◌≤◌, ◌<◌, ◌≡◌, refl, sym, ap, ◌∙◌, subst, inl, inr, Bool, true,
  false, Bool-cases, if_both, List, ◌++◌, append_assoc, take, drop, length, length-append,
  length-take, replicate, get_or, min, leb, if◌then◌else◌, arith,
}
use native.Mathlib.Nat.{div-mul-le_self, mul-le-mul_right}
use native.Mathlib.Decide.{dec_lt}
use apple_squeezer.Buffer.{Buffer, used}
use apple_squeezer.Buffer.Memory.{Agree, get_or-take}
use apple_squeezer.Buffer.Inv.{IsValid, measures}
use apple_squeezer.Buffer.Queue.{contents, length-window}
use apple_squeezer.Pcm.Decode.{readable}
use apple_squeezer.Pcm.Decode.Input.{get_or-append, straight, length-tail, round_end}
use apple_squeezer.Dsd.Diff.{whole_in, is_partial, patched, source, frames_read, bytes_read}

-- What is taken off the stream buffer, with silence behind it.
abbrev pub padded : ℕ → List ℕ → List ℕ
padded n held = take n held ++ replicate 32 0x69

padded_at :
    (n k : ℕ) (held : List ℕ)
    → n ≤ length held
    → k < n
    → get_or (padded n held) k 0 ≡ get_or held k 0
padded_at n k held h i =
    let l = length-take n held in
    (get_or-append (take n held) (replicate 32 0x69) k).0 (omega (arith, l))
    ∙ get_or-take n held k i

get_or-replicate : (n k a : ℕ) → k < n → get_or (replicate n a) k 0 ≡ a
get_or-replicate zero k a h = absurd (omega arith)
get_or-replicate (suc n) zero a h = refl
get_or-replicate (suc n) (suc k) a h = get_or-replicate n k a (omega arith)

-- Behind what is taken, both are silent.
padded_behind :
    (n k m : ℕ) (xs : List ℕ)
    → n ≤ k
    → k < 32
    → length xs ≡ n
    → 32 - n ≤ m
    → get_or (xs ++ replicate m 0x69) k 0 ≡ 0x69
padded_behind n k m xs h i l e =
    (get_or-append xs (replicate m 0x69) k).1 (omega (arith, l))
    ∙ get_or-replicate m (k - length xs) 0x69 (omega (arith, l, e))

pub length-contents : (b : Buffer) → length (contents b) ≡ used b
length-contents b = length-window b.mem b.size b.readp (used b)

-- A frame that goes round the end of the storage.
patched_round :
    {b : Buffer} (frame : ℕ)
    → IsValid b
    → readable b < frame
    → frame ≤ used b
    → Agree frame (patched frame b) (padded frame (contents b))
patched_round {b} frame v hr hu k i =
    let t : leb frame (used b) ≡ true = ground arith in
    let tail : List ℕ = take (readable b) (drop b.readp b.mem) in
    let head : List ℕ = take (frame - readable b) b.mem in
    let fill : List ℕ = replicate (32 - frame) 0x69 in
    let n : length (tail ++ head) ≡ frame = omega (
      arith,
      measures v,
      v.stored,
      v.within,
      length-append tail head,
      length-tail v,
      length-take (frame - readable b) b.mem,
    ) in
    rw t (
      ap (λ xs. get_or xs k 0) (sym (append_assoc tail head fill))
      ∙ (get_or-append (tail ++ head) fill k).0 (omega (arith, n))
      ∙ round_end frame k v hr hu i
      ∙ sym (padded_at frame k (contents b) (omega (arith, length-contents b)) i))

-- The last bytes of a stream, short of a frame.
patched_short :
    {b : Buffer} (frame : ℕ)
    → IsValid b
    → used b < frame
    → frame ≤ 32
    → Agree frame (patched frame b) (padded (readable b) (contents b))
patched_short {b} frame v hu h k i =
    let t : leb frame (used b) ≡ false = ground arith in
    let r : ℕ = readable b in
    let tail : List ℕ = take r (drop b.readp b.mem) in
    let l = length-tail v in
    let m = measures v in
    let c = length-contents b in
    rw t (elim (dec_lt k r) [
      | yes p ↦
          (get_or-append tail (replicate (32 - r) 0x69) k).0 (omega (arith, l))
          ∙ get_or-take r (drop b.readp b.mem) k p
          ∙ straight k v p
          ∙ sym (padded_at r k (contents b) (omega (arith, c, m)) p)
      | no p ↦
          padded_behind r k (32 - r) tail (omega (arith, p)) (omega arith) l (omega arith)
          ∙ sym (
              padded_behind r k 32 (take r (contents b)) (omega (arith, p)) (omega arith)
                (omega (arith, c, m, length-take r (contents b))) (omega arith))
    ])

patched-Agree :
    {b : Buffer} (frame : ℕ)
    → IsValid b
    → readable b < frame
    → frame ≤ 32
    → Agree frame
        (patched frame b)
        (padded (if leb frame (used b) then frame else readable b) (contents b))
patched-Agree {b} frame v hr h =
    let goal : Bool → Type 0 =
      λ c. Agree frame (patched frame b) (padded (if c then frame else readable b) (contents b)) in
    elim (Bool-cases (leb frame (used b))) [
      | inl t ↦ subst goal (sym t) (patched_round frame v hr (ground (arith, t)))
      | inr t ↦ subst goal (sym t) (patched_short frame v (ground (arith, t)) h)
    ]

module _ {b : Buffer} (frame out n : ℕ) (v : IsValid b) where
  abbrev is_part : Bool
  is_part = is_partial frame out b n

  abbrev steps : ℕ
  steps = whole_in frame out b n

  -- Whole frames can be read in one piece.
  whole_le : steps * frame ≤ readable b
  whole_le =
      let held = min (readable b) n in
      let less : steps ≤ held / frame = omega arith in
      omega (arith, mul-le-mul_right frame less, div-mul-le_self held frame)

  pub taken_le : bytes_read frame out b n ≤ used b
  taken_le =
      if_both (λ t. t ≤ used b) is_part (if leb frame (used b) then frame else readable b)
        (steps * frame)
        (λ _.
          if_both (λ t. t ≤ used b) (leb frame (used b)) frame (readable b) (λ e. ground (arith, e))
            (λ _. omega arith))
        (λ _. omega (arith, whole_le))

  pub frames_le : 1 ≤ out → frames_read frame out b n ≤ out
  frames_le h = if_both (λ t. t ≤ out) is_part 1 steps (λ _. h) (λ _. omega arith)

  -- What is read is what is taken, with silence behind it where that is less than a frame.
  pub source-Agree :
      frame ≤ 32
      → Agree
          (frames_read frame out b n * frame)
          (source frame out b n)
          (padded (bytes_read frame out b n) (contents b))
  source-Agree h = elim (Bool-cases is_part) [
    | inl e ↦
        let short : readable b < frame = ground (arith, e) in
        let patch : Agree frame (patched frame b)
            (padded (if leb frame (used b) then frame else readable b) (contents b)) =
          patched-Agree frame v short h in
        rw e (λ k i. patch k (omega (arith, i)))
    | inr e ↦ rw e (λ k i.
        let l = whole_le in
        straight k v (omega (arith, l, i))
        ∙ sym (padded_at (steps * frame) k (contents b) (omega (arith, l, length-contents b)) i))
  ]
