-- ===== src/Dsd/Dsf/Steps.antt =====
-- dsd.c: the counts that a round of `_decode_dsf` goes by.
use apple_squeezer.Prelude.{
  ℕ, zero, suc, ◌+◌, ◌-◌, ◌*◌, ◌/◌, ◌≤◌, ◌<◌, ◌≡◌, refl, ◌∙◌, subst, inl, inr, Bool, true, false,
  Bool-cases, if_both, List, length, get_or, Option, none, some, min, leb, ◌==◌, ◌&&◌, not, arith,
  replicate,
}
use native.Mathlib.Nat.{div-mul-le_self, lt-mul-div-succ, mul-le-mul_right, mul_comm}
use apple_squeezer.Buffer.{Buffer, used, space}
use apple_squeezer.Buffer.Memory.{blit, length-blit}
use apple_squeezer.Buffer.Inv.{IsValid}
use apple_squeezer.Dsd.Pack.{Layout, words, halves, bytes, dop_halves, width_of}
use apple_squeezer.Dsd.Dsf.{turned, zero_padding, silence_rest, frames_there, is_filled, fills_past}

-- Other storage of the same length.
pub stored-IsValid :
    {b : Buffer} (m : List ℕ) → IsValid b → length m ≡ length b.mem → IsValid (record b { mem = m })
stored-IsValid m v h = ground (arith, h)

pub used-stored : (b : Buffer) (m : List ℕ) → used (record b { mem = m }) ≡ used b
unfolding used
used-stored b m = refl

pub space-stored : (b : Buffer) (m : List ℕ) → space (record b { mem = m }) ≡ space b
unfolding space used
space-stored b m = refl

pub length-silence_rest :
    (frame n : ℕ) (mem : List ℕ) (l r : ℕ) → length (silence_rest frame n mem l r) ≡ length mem
length-silence_rest frame n mem l r =
    let silence = replicate (frame - n) 0x69 in
    length-blit silence (blit mem (l + n) silence) (r + n) ∙ length-blit silence mem (l + n)

pub zero_padding_le : (b : Buffer) (l r i : ℕ) → zero_padding b l r i ≤ i
unfolding zero_padding
zero_padding_le b l r zero = omega arith
zero_padding_le b l r (suc i) =
    if_both (λ t. t ≤ suc i)
      (get_or b.mem (turned b (l + suc i)) 0 == 0 && get_or b.mem (turned b (r + suc i)) 0 == 0)
      (zero_padding b l r i + 1) 0 (λ _. omega (arith, zero_padding_le b l r i)) (λ _. omega arith)

pub width_pos : (l : Option Layout) → 0 < width_of l
width_pos none = omega arith
width_pos (some words) = omega arith
width_pos (some halves) = omega arith
width_pos (some dop_halves) = omega arith
width_pos (some bytes) = omega arith

pub le_times : (f w : ℕ) → 0 < w → f ≤ f * w
le_times f w h =
    let l : 1 * f ≤ w * f = mul-le-mul_right f h in
    let e : w * f ≡ f * w = mul_comm w f in omega (arith, l, e)

-- The frames there are come out of the bytes and the samples that are left, or one is to be filled.
pub data There (avail n w t : ℕ) : Type 0 where
  nothing : t ≡ 0 → There avail n w t
  plain : is_filled avail n w ≡ false → t * w ≤ avail → t * w ≤ n → There avail n w t
  filled : is_filled avail n w ≡ true → t ≡ 1 → n < w → There avail n w t

pub there_lem : (avail n w : ℕ) → 0 < w → There avail n w (frames_there avail n w)
there_lem avail n w h =
    let q : ℕ = min avail n / w in
    let le : q * w ≤ min avail n = div-mul-le_self (min avail n) w in
    let is_rest : Bool = not (n == 0) && leb (2 * n) avail in
    elim (Bool-cases (q == 0)) [
      | inr e ↦ rw e (plain e (omega (arith, le)) (omega (arith, le)))
      | inl e ↦ rw e (
          if_both (There avail n w) is_rest 1 0
            (λ r.
              let z : q ≡ 0 = ground (arith, e) in
              let small : min avail n < w * (q + 1) = lt-mul-div-succ (min avail n) h in
              let one : w * (0 + 1) ≡ w = omega arith in
              let small' : min avail n < w =
                subst (λ t. min avail n < t) one (subst (λ q. min avail n < w * (q + 1)) z small) in
              filled e refl (ground (arith, r, small')))
            (λ _. nothing refl))
    ]

-- Silence is stored behind the end of the storage only in frames of 4 bytes, for the last byte of the
-- track: a shorter frame does not reach further than the bytes that have to be there.
pub past_wide :
    (l : Option Layout) (avail n : ℕ) (b : Buffer) (r : ℕ)
    → (is_filled avail n (width_of l) && fills_past b r (width_of l)) ≡ true
    → 0 < frames_there avail n (width_of l)
    → avail ≤ b.wrap - b.readp
    → avail ≤ b.wrap - r
    → (width_of l ≡ 4) × (n ≡ 1)
past_wide none avail n b r q t h k = absurd (ground (arith, q, t))
past_wide (some words) avail n b r q t h k = (refl, ground (arith, q, t, h, k))
past_wide (some halves) avail n b r q t h k = absurd (ground (arith, q, t, h, k))
past_wide (some dop_halves) avail n b r q t h k = absurd (ground (arith, q, t, h, k))
past_wide (some bytes) avail n b r q t h k = absurd (ground (arith, q, t))
