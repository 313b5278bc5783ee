-- ===== src/Output/Check.antt =====
-- output.c: where `_checkfade` puts a fade.
use apple_squeezer.Prelude.{
  ℕ, ◌-◌, ◌*◌, ◌/◌, ◌%◌, ◌≤◌, ◌<◌, ◌≡◌, ◌∙◌, ◌⊎◌, refl, sym, ap, Bool, true, false, Option, ◌==◌,
  min, u32, List, inl, inr, arith, Bool-cases,
}
use native.Mathlib.Nat.{mul_assoc, mul_comm}
use apple_squeezer.Buffer.{Buffer, used}
use apple_squeezer.Buffer.Inv.{IsValid, measures}
use apple_squeezer.Buffer.Aligned.{IsAligned, used-IsWhole}
use apple_squeezer.Output.{
  Output, inactive, due, FadeMode, fade_none, crossfade, fade_in, fade_out, fade_inout, fade_bytes,
  back, forward, fade_up, fade_down, fade_cross, start_fade, end_fade, checkfade, is_inout,
}
use apple_squeezer.Output.Fade.{frames_between}

-- A fade that is due: it lies between frames of outputbuf, lasts no longer than the settings say,
-- and either starts at the write pointer, or ends there and lies within what the buffer holds.
pub record IsMarked (o : Output) (b : Buffer) (o' : Output) : Type 0 where
  pub is_due : o'.fade ≡ due
  pub start_in : o'.fade_start < b.size
  pub end_in : o'.fade_end < b.size
  pub start_even : o'.fade_start % 8 ≡ 0
  pub end_even : o'.fade_end % 8 ≡ 0
  pub short : frames_between b o'.fade_start o'.fade_end * 8 ≤ fade_bytes o
  pub placed :
      (o'.fade_start ≡ b.writep)
      ⊎ ((o'.fade_end ≡ b.writep) × frames_between b o'.fade_start o'.fade_end * 8 ≤ used b)

bytes-IsWhole : (rate secs : ℕ) → u32 (rate * 8 * secs) % 8 ≡ 0
bytes-IsWhole rate secs =
    let e : rate * 8 * secs ≡ rate * secs * 8 =
      mul_assoc rate 8 secs ∙ ap (λ t. rate * t) (mul_comm 8 secs) ∙ sym (mul_assoc rate secs 8) in
    rw e (omega arith)

fade_bytes-IsWhole : (o : Output) → fade_bytes o % 8 ≡ 0
fade_bytes-IsWhole o = elim (Bool-cases (is_inout o.fade_mode)) [
  | inl e ↦ rw e (omega arith)
  | inr e ↦ rw e (bytes-IsWhole o.next_sample_rate o.fade_secs)
]

-- Stepping back from the write pointer, and forward.
back_lem :
    {b : Buffer} (n : ℕ)
    → IsValid b
    → IsAligned b
    → n < b.size
    → n % 8 ≡ 0
    → (back b n < b.size) × (back b n % 8 ≡ 0) × (frames_between b (back b n) b.writep * 8 ≡ n)
back_lem {b} n v a h e = ground arith

forward_lem :
    {b : Buffer} (n : ℕ)
    → IsValid b
    → IsAligned b
    → n < b.size
    → n % 8 ≡ 0
    → (forward b n < b.size)
      × (forward b n % 8 ≡ 0)
      × (frames_between b b.writep (forward b n) * 8 ≡ n)
forward_lem {b} n v a h e = ground arith

module _ {b : Buffer} (o : Output) (v : IsValid b) (a : IsAligned b) where
  fade_up-IsMarked : IsMarked o b (fade_up o b (fade_bytes o))
  fade_up-IsMarked =
      let n = min (fade_bytes o) (b.size - 8) in
      let e = fade_bytes-IsWhole o in
      let f =
        forward_lem n v a (omega (arith, v.read_in, a.size_even)) (omega (arith, e, a.size_even)) in
      record {
        is_due = refl;
        start_in = v.write_in;
        end_in = f.0;
        start_even = a.write_even;
        end_even = f.1;
        short = omega (arith, f.2);
        placed = inl refl;
      }

  fade_back-IsMarked :
      (o' : Output) (n : ℕ)
      → o'.fade ≡ due
      → o'.fade_start ≡ back b n
      → o'.fade_end ≡ b.writep
      → n ≤ fade_bytes o
      → n ≤ used b
      → n % 8 ≡ 0
      → IsMarked o b o'
  fade_back-IsMarked o' n d es ee h k e =
      let f = back_lem n v a (omega (arith, measures v, k)) e in
      record {
        is_due = d;
        start_in = rw es f.0;
        end_in = rw ee v.write_in;
        start_even = rw es f.1;
        end_even = rw ee a.write_even;
        short = rw (es, ee) (omega (arith, f.2, h));
        placed = inr (ee, rw (es, ee) (omega (arith, f.2, k)));
      }

  fade_down-IsMarked : IsMarked o b (fade_down o b (fade_bytes o))
  fade_down-IsMarked =
      fade_back-IsMarked (fade_down o b (fade_bytes o)) (min (used b) (fade_bytes o)) refl refl refl
        (omega arith) (omega arith) (omega (arith, used-IsWhole v a, fade_bytes-IsWhole o))

  fade_cross-IsMarked : b.size % 80 ≡ 0 → IsMarked o b (fade_cross o b (fade_bytes o))
  fade_cross-IsMarked h =
      fade_back-IsMarked (fade_cross o b (fade_bytes o))
        (min (min (fade_bytes o) (used b)) (b.size * 9 / 10)) refl refl refl (omega arith)
        (omega arith) (omega (arith, used-IsWhole v a, fade_bytes-IsWhole o, h))

  -- Either nothing changes, or the fade is switched off, or it is marked.
  abbrev pub Checks : Output → Type 0
  Checks o' = (o' ≡ o) ⊎ (o' ≡ record o { fade = inactive }) ⊎ IsMarked o b o'

  start_fade-Checks :
      (storage : Option (List ℕ)) (mode : FadeMode)
      → b.size % 80 ≡ 0
      → Checks (start_fade storage mode o b (fade_bytes o)).0
  unfolding start_fade
  start_fade-Checks storage fade_none h = inl refl
  start_fade-Checks storage crossfade h = elim (Bool-cases (used b == 0)) [
    | inl e ↦ ground (arith, e)
    | inr e ↦ elim (Bool-cases (o.next_sample_rate == o.current_sample_rate)) [
      | inl e' ↦ rw (e, e') (inr (inr (fade_cross-IsMarked h)))
      | inr e' ↦ rw (e, e') (inl refl)
    ]
  ]
  start_fade-Checks storage fade_in h = inr (inr fade_up-IsMarked)
  start_fade-Checks storage fade_out h = inl refl
  start_fade-Checks storage fade_inout h = elim (Bool-cases (used b == 0)) [
    | inl e ↦ rw e (inr (inr fade_up-IsMarked))
    | inr e ↦ rw e (inl refl)
  ]

  end_fade-Checks : (mode : FadeMode) → Checks (end_fade mode o b (fade_bytes o))
  unfolding end_fade
  end_fade-Checks fade_none = inl refl
  end_fade-Checks crossfade = inl refl
  end_fade-Checks fade_in = inl refl
  end_fade-Checks fade_out = inr (inr fade_down-IsMarked)
  end_fade-Checks fade_inout = inr (inr fade_down-IsMarked)

-- On a valid buffer that is aligned on frames and whose size is a multiple of 80 bytes,
-- `_checkfade` leaves the output as it is, or only switches the fade off, or marks a fade: one that
-- is due, whose ends lie inside outputbuf and between frames, which is no longer than the
-- settings say, and which starts at the write pointer, or ends there and lies within the bytes
-- that outputbuf holds.
pub checkfade_lem :
    {b : Buffer} (storage : Option (List ℕ)) (start : Bool) (o : Output)
    → IsValid b
    → IsAligned b
    → b.size % 80 ≡ 0
    → let o' = (checkfade storage start o b).0 in
      (o' ≡ o) ⊎ (o' ≡ record o { fade = inactive }) ⊎ IsMarked o b o'
unfolding checkfade
checkfade_lem {b} storage true o v a h = elim (Bool-cases (fade_bytes o == 0)) [
  | inl e ↦ rw e (inr (inl refl))
  | inr e ↦ rw e (start_fade-Checks o v a storage o.fade_mode h)
]
checkfade_lem {b} storage false o v a h = elim (Bool-cases (fade_bytes o == 0)) [
  | inl e ↦ rw e (inr (inl refl))
  | inr e ↦ rw e (end_fade-Checks o v a o.fade_mode)
]
