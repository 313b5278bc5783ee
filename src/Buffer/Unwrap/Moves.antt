-- ===== src/Buffer/Unwrap/Moves.antt =====
-- The byte moves of `_buf_unwrap` keep what the buffer holds, byte for byte.
use apple_squeezer.Prelude.{
  ℕ, ◌+◌, ◌-◌, ◌%◌, ◌≤◌, ◌<◌, ◌≡◌, refl, ap, ◌∙◌, List, arith, min, length, get_or, take, drop,
  length-take, length-drop, inl, inr, ltb, Bool-cases, ltb→lt,
}
use native.Mathlib.Nat.{mod-eq_of_lt}
use native.Mathlib.Decide.{dec_lt}
use apple_squeezer.Buffer.{Buffer, used}
use apple_squeezer.Buffer.Memory.{
  blit, transfer, length-transfer, transfer_inside, transfer_below, transfer_above, blit_inside,
  blit_outside, get_or-take, get_or-drop,
}
use apple_squeezer.Buffer.Inv.{IsValid}
use apple_squeezer.Buffer.Queue.{mod_cases}
use apple_squeezer.Buffer.Unwrap.{move_down, close_gap, scratched}

-- The `k`-th byte from `readp` on.
abbrev pub byte_at : Buffer → ℕ → ℕ
byte_at b k = get_or b.mem ((b.readp + k) % b.size) 0

module _ {b : Buffer} (by k : ℕ) (v : IsValid b) (held : k < used b) where
  -- In one piece.
  pub move_down_byte : b.readp ≤ b.writep → by ≤ b.readp → byte_at (move_down b by) k ≡ byte_at b k
  unfolding move_down used
  move_down_byte one down = ground (
    arith,
    mod_cases (b.readp + k) b.size (ground arith),
    mod_cases (b.readp - by + k) b.size (ground arith),
    transfer_inside b.mem (b.readp - by) b.readp (b.writep - b.readp) (omega arith) (omega arith)
        (b.readp - by + k) k (ground arith) refl,
  )

-- Wrapped: the tail goes down by `by` bytes, and the first bytes of the head follow it.
module _ {b : Buffer} (by k : ℕ) (v : IsValid b) (held : k < used b) (wrapped : b.writep < b.readp)
    (down : by ≤ b.readp) where
  abbrev tail : ℕ
  tail = b.wrap - b.readp

  abbrev lowered : List ℕ
  lowered = transfer b.mem (b.readp - by) b.readp tail

  abbrev joined : List ℕ
  joined = transfer lowered (b.wrap - by) 0 (min b.writep by)

  length-lowered : length lowered ≡ length b.mem
  length-lowered = length-transfer b.mem (b.readp - by) b.readp tail

  length-joined : length joined ≡ length b.mem
  length-joined = length-transfer lowered (b.wrap - by) 0 (min b.writep by) ∙ length-lowered

  -- The tail as the first two moves leave it.
  tail_byte : k < tail → get_or joined (b.readp - by + k) 0 ≡ get_or b.mem (b.readp + k) 0
  tail_byte p =
      transfer_below lowered (b.wrap - by) 0 (min b.writep by) (omega (arith, length-lowered))
        (omega (arith, length-lowered)) (b.readp - by + k) (omega arith)
      ∙ transfer_inside b.mem (b.readp - by) b.readp tail (omega arith) (omega arith)
          (b.readp - by + k) k p refl

  -- The first bytes of the head, now behind the tail.
  moved_byte :
      (i : ℕ)
      → i < min b.writep by
      → i < b.readp - by
      → get_or joined (b.wrap - by + i) 0 ≡ get_or b.mem i 0
  moved_byte i p q =
      transfer_inside lowered (b.wrap - by) 0 (min b.writep by) (omega (arith, length-lowered))
        (omega (arith, length-lowered)) (b.wrap - by + i) i p refl
      ∙ ap (λ j. get_or lowered j 0) (omega arith)
      ∙ transfer_below b.mem (b.readp - by) b.readp tail (omega arith) (omega arith) i (omega arith)

  -- The rest of the head.
  head_byte : (i : ℕ) → i < b.readp - by → get_or joined i 0 ≡ get_or b.mem i 0
  head_byte i p =
      transfer_below lowered (b.wrap - by) 0 (min b.writep by) (omega (arith, length-lowered))
        (omega (arith, length-lowered)) i (omega arith)
      ∙ transfer_below b.mem (b.readp - by) b.readp tail (omega arith) (omega arith) i (omega arith)

  -- Where the `k`-th byte lies before and after.
  old_low : k < tail → (b.readp + k) % b.size ≡ b.readp + k
  old_low p = mod-eq_of_lt (omega arith)

  held_in_head : b.writep ≤ b.size × (k < tail + b.writep)
  unfolding used
  held_in_head = ground arith

  old_high : tail ≤ k → (b.readp + k) % b.size ≡ k - tail
  old_high p = ground (arith, mod_cases (b.readp + k) b.size (omega (arith, held_in_head)))

  new_low : k < tail + by → (b.readp - by + k) % b.size ≡ b.readp - by + k
  new_low p = mod-eq_of_lt (omega arith)

  new_high : tail + by ≤ k → (b.readp - by + k) % b.size ≡ k - tail - by
  new_high p = ground (arith, mod_cases (b.readp - by + k) b.size (omega (arith, held_in_head)))

  abbrev final : List ℕ
  final = transfer joined 0 by (b.writep - by)

  -- The last move takes the rest of the head to the front, and leaves all else.
  final_low :
      (i : ℕ) → by ≤ b.writep → i < b.writep - by → get_or final i 0 ≡ get_or joined (by + i) 0
  final_low i q p =
      transfer_inside joined 0 by (b.writep - by) (omega (arith, length-joined))
        (omega (arith, length-joined)) i i p (omega arith)

  final_high : (i : ℕ) → by ≤ b.writep → b.writep - by ≤ i → get_or final i 0 ≡ get_or joined i 0
  final_high i q p =
      transfer_above joined 0 by (b.writep - by) (omega (arith, length-joined))
        (omega (arith, length-joined)) i (omega arith)

  -- The bytes up to the end of the storage, which the last move does not reach.
  joined_byte :
      k < tail + min b.writep by
      → min b.writep by ≤ b.readp - by
      → get_or joined ((b.readp - by + k) % b.size) 0 ≡ get_or b.mem ((b.readp + k) % b.size) 0
  joined_byte p gap = elim (dec_lt k tail) [
    | yes q ↦ rw (old_low q, new_low (omega arith)) (tail_byte q)
    | no q ↦
        rw (old_high (omega arith), new_low (omega arith))
          (ap (λ i. get_or joined i 0) (omega arith)
            ∙ moved_byte (k - tail) (omega arith) (omega arith))
  ]

  final_byte :
      by < b.writep
      → by ≤ b.readp - b.writep
      → get_or final ((b.readp - by + k) % b.size) 0 ≡ get_or b.mem ((b.readp + k) % b.size) 0
  final_byte p room = elim (dec_lt k (tail + by)) [
    | yes q ↦
        final_high ((b.readp - by + k) % b.size) (omega arith) (omega (arith, new_low q))
        ∙ joined_byte (omega arith) (omega arith)
    | no q ↦
        rw (new_high (omega arith), old_high (omega arith))
          (final_low (k - tail - by) (omega arith) (omega (arith, held_in_head))
            ∙ ap (λ i. get_or joined i 0) (omega arith)
            ∙ head_byte (k - tail) (omega (arith, held_in_head)))
  ]

  pub close_gap_byte : by ≤ b.readp - b.writep → byte_at (close_gap b by) k ≡ byte_at b k
  unfolding close_gap
  close_gap_byte room = elim (Bool-cases (ltb by b.writep)) [
    | inl e ↦ rw e (final_byte (ltb→lt _ _ e) room)
    | inr e ↦ rw e (joined_byte (ground (arith, held_in_head)) (omega arith))
  ]

  -- Through the scratch zone: `overlap` is what the tail covers of the head.
  module _ (overlap : ℕ) (covers : overlap + (b.readp - b.writep) ≡ by)
      (fits : by + overlap ≤ b.writep) where
    abbrev shifted : List ℕ
    shifted = transfer joined 0 by (b.writep - by - overlap)

    abbrev scratch : List ℕ
    scratch = take overlap (drop (b.writep - overlap) b.mem)

    abbrev restored : List ℕ
    restored = blit shifted (b.writep - by - overlap) scratch

    length-scratch : length scratch ≡ overlap
    length-scratch = omega (
      arith,
      length-take overlap (drop (b.writep - overlap) b.mem),
      length-drop (b.writep - overlap) b.mem,
    )

    length-shifted : length shifted ≡ length b.mem
    length-shifted = length-transfer joined 0 by (b.writep - by - overlap) ∙ length-joined

    restored_outside :
        (i : ℕ)
        → (i < b.writep - by - overlap → get_or restored i 0 ≡ get_or shifted i 0)
          × (b.writep - by ≤ i → get_or restored i 0 ≡ get_or shifted i 0)
    restored_outside i =
        let outside =
          blit_outside scratch shifted (b.writep - by - overlap) i
            (omega (arith, length-scratch, length-shifted)) in
        (outside.0, λ p. outside.1 (omega (arith, length-scratch)))

    restored_inside :
        (i : ℕ)
        → i < overlap
        → get_or restored (b.writep - by - overlap + i) 0 ≡ get_or b.mem (b.writep - overlap + i) 0
    restored_inside i p =
        blit_inside scratch shifted (b.writep - by - overlap) i
          (omega (arith, length-scratch, length-shifted)) (omega (arith, length-scratch))
        ∙ get_or-take overlap (drop (b.writep - overlap) b.mem) i p
        ∙ get_or-drop (b.writep - overlap) b.mem i

    shifted_low :
        (i : ℕ) → i < b.writep - by - overlap → get_or shifted i 0 ≡ get_or joined (by + i) 0
    shifted_low i p =
        transfer_inside joined 0 by (b.writep - by - overlap) (omega (arith, length-joined))
          (omega (arith, length-joined)) i i p (omega arith)

    shifted_high : (i : ℕ) → b.writep - by - overlap ≤ i → get_or shifted i 0 ≡ get_or joined i 0
    shifted_high i p =
        transfer_above joined 0 by (b.writep - by - overlap) (omega (arith, length-joined))
          (omega (arith, length-joined)) i (omega arith)

    restored_byte :
        get_or restored ((b.readp - by + k) % b.size) 0 ≡ get_or b.mem ((b.readp + k) % b.size) 0
    restored_byte = elim (dec_lt k (tail + by)) [
      | yes q ↦
          (restored_outside ((b.readp - by + k) % b.size)).1 (omega (arith, new_low q))
          ∙ shifted_high ((b.readp - by + k) % b.size) (omega (arith, new_low q))
          ∙ joined_byte (omega arith) (omega arith)
      | no q ↦
          rw (new_high (omega arith), old_high (omega arith))
            (elim (dec_lt (k - tail) (b.writep - overlap)) [
              | yes low ↦
                  (restored_outside (k - tail - by)).0 (omega arith)
                  ∙ shifted_low (k - tail - by) (omega arith)
                  ∙ ap (λ i. get_or joined i 0) (omega arith)
                  ∙ head_byte (k - tail) (omega arith)
              | no high ↦
                  ap (λ i. get_or restored i 0) (omega arith)
                  ∙ restored_inside (k - tail - (b.writep - overlap)) (omega (arith, held_in_head))
                  ∙ ap (λ i. get_or b.mem i 0) (omega arith)
            ])
    ]

    pub scratched_byte : byte_at (scratched b by overlap) k ≡ byte_at b k
    unfolding scratched
    scratched_byte = let e : min b.writep by ≡ by = omega arith in rw e at restored_byte
