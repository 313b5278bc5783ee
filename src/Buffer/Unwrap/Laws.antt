-- ===== src/Buffer/Unwrap/Laws.antt =====
-- What `_buf_unwrap` achieves, and where it fails.
use apple_squeezer.Prelude.{
  ℕ, suc, ◌+◌, ◌-◌, ◌*◌, ◌^◌, ◌≤◌, ◌<◌, ◌≡◌, ◌≢◌, refl, ◌∙◌, [], arith, min, length, inl, inr, ◌⊎◌,
}
use native.Mathlib.Nat.{mod-eq_of_lt, mod_self}
use native.Mathlib.Decide.{dec_le, ℕ_discrete}
use apple_squeezer.Buffer.{Buffer, used, cont_read, inc_readp}
use apple_squeezer.Buffer.Inv.{IsValid}
use apple_squeezer.Buffer.Queue.{contents, window_ext}
use apple_squeezer.Buffer.Memory.{transfer, length-transfer, length-blit}
use apple_squeezer.Buffer.Unwrap.{move_down, close_gap, scratched, through_scratch, done, unwrap}
use apple_squeezer.Buffer.Unwrap.Moves.{byte_at, move_down_byte, close_gap_byte, scratched_byte}

-- `b'` holds the bytes of `b`, at least `cont` of them, or all, in one piece.
pub record Unwraps (b : Buffer) (cont : ℕ) (b' : Buffer) : Type 0 where
  pub same_used : used b' ≡ used b
  pub same_bytes : contents b' ≡ contents b
  pub one_piece : min cont (used b) ≤ cont_read b'
  pub valid : IsValid b' ⊎ (cont ≡ used b)

contents_kept :
    (b b' : Buffer)
    → used b' ≡ used b
    → b'.size ≡ b.size
    → ((k : ℕ) → k < used b → byte_at b' k ≡ byte_at b k)
    → contents b' ≡ contents b
contents_kept b b' e s h = rw e (window_ext b'.mem b.mem b'.size b.size b'.readp b.readp (used b) h)

length-close_gap : (b : Buffer) (n : ℕ) → length (close_gap b n).mem ≡ length b.mem
unfolding close_gap
length-close_gap b n =
    let lowered = transfer b.mem (b.readp - n) b.readp (b.wrap - b.readp) in
    let joined = transfer lowered (b.wrap - n) 0 (min b.writep n) in
    ground (
      arith,
      length-transfer b.mem (b.readp - n) b.readp (b.wrap - b.readp),
      length-transfer lowered (b.wrap - n) 0 (min b.writep n),
      length-transfer joined 0 n (b.writep - n),
    )

length-scratched : (b : Buffer) (n overlap : ℕ) → length (scratched b n overlap).mem ≡ length b.mem
unfolding scratched
length-scratched b n overlap =
    length-blit _ _ _
    ∙ length-transfer _ 0 n _
    ∙ length-transfer _ _ 0 n
    ∙ length-transfer b.mem _ b.readp _

module _ {b : Buffer} (cont : ℕ) (v : IsValid b) (short : b.wrap - b.readp < cont)
    (inside : cont < b.size) where
  abbrev by : ℕ
  by = cont - (b.wrap - b.readp)

  move_down-Unwraps : b.readp ≤ b.writep → Unwraps b cont (move_down b by)
  move_down-Unwraps one = record {
    same_used = same;
    same_bytes =
        contents_kept b (move_down b by) same (unfold move_down in refl)
          (λ k p. move_down_byte by k v p one (omega arith));
    one_piece = unfold move_down cont_read used in ground arith;
    valid = inl (
        unfold move_down in
        ground (arith, length-transfer b.mem (b.readp - by) b.readp (b.writep - b.readp)));
  }
    where
      same : used (move_down b by) ≡ used b
      same = unfold move_down used in ground arith

  module _ (wrapped : b.writep < b.readp) where
    down : by ≤ b.readp
    down = omega arith

    used-close_gap : by ≤ b.readp - b.writep → used (close_gap b by) ≡ used b
    unfolding close_gap used
    used-close_gap room = ground arith

    close_gap-IsValid : by ≤ b.readp - b.writep → cont ≢ used b → IsValid (close_gap b by)
    unfolding close_gap used
    close_gap-IsValid room ne = ground (arith, length-close_gap b by)

    close_gap-Unwraps : by ≤ b.readp - b.writep → Unwraps b cont (close_gap b by)
    close_gap-Unwraps room = record {
      same_used = used-close_gap room;
      same_bytes =
          contents_kept b (close_gap b by) (used-close_gap room) (unfold close_gap in ground arith)
            (λ k p. close_gap_byte by k v p wrapped down room);
      one_piece = unfold close_gap cont_read used in ground arith;
      valid = elim (ℕ_discrete cont (used b)) [
        | yes e ↦ inr e
        | no ne ↦ inl (close_gap-IsValid room ne)
      ];
    }

    module _ (covers : b.readp - b.writep < by)
        (fits : 2 * cont ≤ b.size + (b.wrap - b.readp)) where
      abbrev overlap : ℕ
      overlap = by - (b.readp - b.writep)

      used-scratched : used (scratched b by overlap) ≡ used b
      unfolding scratched used
      used-scratched = ground arith

      scratched-Unwraps : Unwraps b cont (scratched b by overlap)
      scratched-Unwraps = record {
        same_used = used-scratched;
        same_bytes =
            contents_kept b (scratched b by overlap) used-scratched (unfold scratched in refl)
              (λ k p. scratched_byte by k v p wrapped down overlap (omega arith) (omega arith));
        one_piece = unfold scratched cont_read used in ground arith;
        valid = inl (unfold scratched in ground (arith, length-scratched b by overlap));
      }

idle-Unwraps : {b : Buffer} (cont : ℕ) → IsValid b → cont ≤ b.wrap - b.readp → Unwraps b cont b
idle-Unwraps cont v h = record {
  same_used = refl;
  same_bytes = refl;
  one_piece = unfold cont_read used in ground arith;
  valid = inl v;
}

-- With its scratch zone granted and `2 * cont` at most the size and the bytes from `readp` to the
-- end of the storage, `_buf_unwrap` returns a buffer that holds the same bytes, at least `cont` of
-- them, or all, in one piece, and that is valid unless `cont` is all it holds.
pub unwrap_lem :
    {b : Buffer} (fuel cont : ℕ)
    → IsValid b
    → 2 * cont ≤ b.size + (b.wrap - b.readp)
    → (b' : Buffer) × (unwrap (suc fuel) b cont [] ≡ done b' []) × Unwraps b cont b'
unfolding unwrap through_scratch
unwrap_lem {b} fuel cont v fits = elim (dec_le cont (b.wrap - b.readp)) [
  | yes idle ↦ (b, ground arith, idle-Unwraps cont v idle)
  | no far ↦ elim (dec_le b.readp b.writep) [
    | yes one ↦ (
      move_down b (cont - (b.wrap - b.readp)),
      ground arith,
      move_down-Unwraps cont v (omega arith) (omega arith) one,
    )
    | no apart ↦ elim (dec_le (cont - (b.wrap - b.readp)) (b.readp - b.writep)) [
      | yes room ↦ (
        close_gap b (cont - (b.wrap - b.readp)),
        ground arith,
        close_gap-Unwraps cont v (omega arith) (omega arith) (omega arith) room,
      )
      | no tight ↦ (
        scratched b (cont - (b.wrap - b.readp)) (cont - (b.wrap - b.readp) - (b.readp - b.writep)),
        ground arith,
        scratched-Unwraps cont v (omega arith) (omega arith) (omega arith) (omega arith) fits,
      )
    ]
  ]
]

past_the_end :
    (b : Buffer) (n : ℕ)
    → b.writep ≡ b.size
    → b.readp + n ≡ b.size
    → 0 < n
    → 0 < b.readp
    → b.size < 2 ^ 32
    → used (inc_readp b n) ≡ b.size
unfolding inc_readp used
past_the_end b n w e p q s =
    ground (arith, mod-eq_of_lt {n = n} {m = b.size} (omega arith), mod_self b.size)

-- In a valid, wrapped buffer that holds exactly `cont` bytes, where `writep` is not 0 and twice
-- `writep` is at most `readp`, `writep` is left at `wrap`, outside the storage, and once the bytes
-- are consumed the buffer counts as full.
pub unwrap-writep :
    {b : Buffer} (fuel : ℕ)
    → IsValid b
    → b.writep < b.readp
    → 0 < b.writep
    → 2 * b.writep ≤ b.readp
    → (b' : Buffer) × (unwrap (suc fuel) b (used b) [] ≡ done b' [])
      × (b'.writep ≡ b'.wrap)
      × (used (inc_readp b' (used b)) ≡ b.size)
unfolding unwrap close_gap used inc_readp
unwrap-writep {b} fuel v w p r =
    (close_gap b (used b - (b.wrap - b.readp)), ground arith, ground arith, last)
  where
    last : used (inc_readp (close_gap b (used b - (b.wrap - b.readp))) (used b)) ≡ b.size
    last =
        past_the_end (close_gap b (used b - (b.wrap - b.readp))) (used b) (ground arith)
          (ground arith) (ground arith) (ground arith) (ground arith)
        ∙ unfold close_gap in ground arith
