-- ===== src/Mix/Cross.antt =====
-- `_apply_cross` against the sum that it is to play.
use apple_squeezer.Prelude.{
  ℕ, zero, suc, ◌+◌, ◌%◌, ◌≤◌, ◌<◌, ◌≡◌, ◌⊎◌, refl, sym, ap, ap₂, ◌∙◌, List, arith, get_or, set,
  length, length-set,
}
use apple_squeezer.Prelude.Int.{ℤ, ◌+ℤ◌}
use apple_squeezer.Sample.{gain}
use apple_squeezer.Sample.Laws.{saturate32}
use apple_squeezer.Mix.{cross_loop}
use apple_squeezer.Buffer.Memory.{get_or-set}
use native.Mathlib.Nat.{mod-add-mod, mod-lt, mod-eq_of_lt}

-- The sample at an index.
abbrev pub sample_at : List ℤ → ℕ → ℤ
sample_at mem i = get_or mem i (ℤ.pos 0)

-- Both tracks at one point of the crossfade.
abbrev pub blend : ℤ → ℤ → ℤ → ℤ → ℤ
blend gain_in gain_out new old = saturate32 (gain gain_out old +ℤ gain gain_in new)

-- The first `n` samples from `offset` on, round a buffer of `len`, avoid the run at `at`.
abbrev pub IsApart : ℕ → ℕ → ℕ → ℕ → Type 0
IsApart len n offset at =
    (k : ℕ) → k < n → ((offset + k) % len < at) ⊎ (at + n ≤ (offset + k) % len)

module _ (gain_in gain_out : ℤ) (len : ℕ) where
  abbrev after : List ℤ → ℕ → ℕ → List ℤ
  after mem at offset =
      set mem at (blend gain_in gain_out (sample_at mem offset) (sample_at mem at))

  cross_loop-suc :
      (count : ℕ) (mem : List ℤ) (at offset : ℕ)
      → length mem ≡ len
      → cross_loop gain_in gain_out (suc count) mem at offset
        ≡ cross_loop gain_in gain_out count (after mem at offset) (at + 1) ((offset + 1) % len)
  unfolding cross_loop
  cross_loop-suc count mem at offset e =
      ap (λ n. cross_loop gain_in gain_out count (after mem at offset) (at + 1) ((offset + 1) % n))
        e

  -- Outside the run at `at` nothing is written.
  pub cross_outside :
      (count : ℕ) (mem : List ℤ) (at offset i : ℕ)
      → length mem ≡ len
      → at + count ≤ len
      → (i < at) ⊎ (at + count ≤ i)
      → sample_at (cross_loop gain_in gain_out count mem at offset).0 i ≡ sample_at mem i
  cross_outside zero mem at offset i e h p = unfold cross_loop in refl
  cross_outside (suc count) mem at offset i e h p =
      let v = blend gain_in gain_out (sample_at mem offset) (sample_at mem at) in
      rw (cross_loop-suc count mem at offset e) (
        cross_outside count (after mem at offset) (at + 1) ((offset + 1) % len) i
          (length-set mem at v ∙ e) (omega arith) (omega arith)
        ∙ (get_or-set mem at i v (ℤ.pos 0) (omega arith)).1 (omega arith))

  later-IsApart :
      (count at offset : ℕ)
      → IsApart len (suc count) offset at
      → IsApart len count ((offset + 1) % len) (at + 1)
  later-IsApart count at offset apart k p =
      let e : offset + 1 + k ≡ offset + suc k = omega arith in
      omega
        (arith, apart (suc k) (omega arith), mod-add-mod (offset + 1) len k, ap (λ t. t % len) e)

  -- Inside the run each sample becomes the blend of what stood there and what the other track has.
  pub cross_inside :
      (count : ℕ) (mem : List ℤ) (at offset i : ℕ)
      → length mem ≡ len
      → at + count ≤ len
      → i < count
      → offset < len
      → IsApart len count offset at
      → sample_at (cross_loop gain_in gain_out count mem at offset).0 (at + i)
        ≡ blend gain_in gain_out (sample_at mem ((offset + i) % len)) (sample_at mem (at + i))
  cross_inside zero mem at offset i e h p o apart = absurd (omega arith)
  cross_inside (suc count) mem at offset zero e h p o apart =
      let v = blend gain_in gain_out (sample_at mem offset) (sample_at mem at) in
      let e0 : at + 0 ≡ at = omega arith in
      let e1 : (offset + 0) % len ≡ offset = ap (λ t. t % len) (omega arith) ∙ mod-eq_of_lt o in
      rw (cross_loop-suc count mem at offset e, e1, e0)
        (cross_outside count (after mem at offset) (at + 1) ((offset + 1) % len) at
            (length-set mem at v ∙ e) (omega arith) (omega arith)
          ∙ (get_or-set mem at at v (ℤ.pos 0) (omega arith)).0 refl)
  cross_inside (suc count) mem at offset (suc i) e h p o apart =
      let v = blend gain_in gain_out (sample_at mem offset) (sample_at mem at) in
      let e0 : at + suc i ≡ at + 1 + i = omega arith in
      let e1 : (offset + suc i) % len ≡ ((offset + 1) % len + i) % len =
        ap (λ t. t % len) (omega arith) ∙ sym (mod-add-mod (offset + 1) len i) in
      let far = apart (suc i) p in
      rw (cross_loop-suc count mem at offset e, e0, e1)
        (cross_inside count (after mem at offset) (at + 1) ((offset + 1) % len) i
            (length-set mem at v ∙ e) (omega arith) (omega arith)
            (mod-lt (offset + 1) (omega arith)) (later-IsApart count at offset apart)
          ∙ ap₂ (blend gain_in gain_out)
              ((get_or-set mem at (((offset + 1) % len + i) % len) v (ℤ.pos 0) (omega arith)).1
                (omega (arith, e1)))
              ((get_or-set mem at (at + 1 + i) v (ℤ.pos 0) (omega arith)).1 (omega arith)))
