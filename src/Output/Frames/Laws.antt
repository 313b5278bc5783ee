-- ===== src/Output/Frames/Laws.antt =====
-- The accounts of `_output_frames`: what it returns, writes and takes off outputbuf.
use apple_squeezer.Prelude.{
  ℕ, zero, suc, ◌+◌, ◌*◌, ◌/◌, ◌≤◌, ◌<◌, ◌≡◌, ◌∙◌, refl, sym, ap, subst, Bool, true, false, Option,
  none, some, ◌==◌, if◌then◌else◌, min, List, [], ◌∷◌, ◌++◌, length, arith, Bool-cases, inl, inr,
}
use apple_squeezer.Buffer.{Buffer, used, cont_read}
use apple_squeezer.Buffer.Inv.{IsValid, measures, inc_readp-IsValid}
use apple_squeezer.Buffer.Aligned.{IsAligned, inc_readp-IsAligned}
use apple_squeezer.Buffer.Queue.{inc_readp_moves}
use apple_squeezer.Output.{is_crossfade}
use apple_squeezer.Output.Fade.{Gains, Round, fade_step}
use apple_squeezer.Output.Fade.Keeps.{fade_step-Keeps}
use apple_squeezer.Output.Frames.{
  Chunk, Answer, Host, Loop, dsd_gains, dsd_flags, wrote, account, write_round, up_to_track,
  starts_track, round, Rendered, rendered, stuck, loop,
}

-- A back end that writes no more than it is asked for, and scales outputbuf in its place.
pub record IsHonest (host : Host) : Type 0 where
  pub no_more : (c : Chunk) (mem : List ℕ) → (host.write_cb c mem).frames ≤ c.out_frames
  pub in_place : (c : Chunk) (mem : List ℕ) → length (host.write_cb c mem).mem ≡ length mem

-- The frames that the back end wrote, and those of them that were no silence.
abbrev pub total : List (ℕ × Bool) → ℕ
total [] = 0
total ((n, silence) ∷ rest) = n + total rest

abbrev pub played : List (ℕ × Bool) → ℕ
played [] = 0
played ((n, silence) ∷ rest) = (if silence then 0 else n) + played rest

total-append :
    (xs : List (ℕ × Bool)) (n : ℕ) (s : Bool) → total (xs ++ ((n, s) ∷ [])) ≡ total xs + n
total-append [] n s = omega arith
total-append ((m, t) ∷ xs) n s = omega (arith, total-append xs n s)

played-append :
    (xs : List (ℕ × Bool)) (n : ℕ) (s : Bool)
    → played (xs ++ ((n, s) ∷ [])) ≡ played xs + (if s then 0 else n)
played-append [] n s = omega arith
played-append ((m, t) ∷ xs) n s = omega (arith, played-append xs n s)

-- The loop's accounts, from `start` bytes in the buffer on.
pub record IsGoing (start : ℕ) (l : Loop) : Type 0 where
  pub valid : IsValid l.outputbuf
  pub aligned : IsAligned l.outputbuf
  pub shared : l.frames ≡ l.size + total l.written
  pub taken : used l.outputbuf + 8 * played l.written ≡ start
  pub no_cross : is_crossfade l.output.fade_mode ≡ false

-- And behind it.
pub record IsDone (start : ℕ) (l : Loop) : Type 0 where
  pub valid : IsValid l.outputbuf
  pub aligned : IsAligned l.outputbuf
  pub all_written : l.frames ≡ total l.written
  pub taken : used l.outputbuf + 8 * played l.written ≡ start

After : ℕ → Loop → Bool × Loop → Type 0
After start l (true, l') = IsDone start l' × l'.frames ≤ l.frames
After start l (false, l') = IsGoing start l' × (l'.size < l.size) × l'.frames ≤ l.frames

scaled-IsValid :
    {b : Buffer} (mem : List ℕ)
    → IsValid b
    → length mem ≡ length b.mem
    → IsValid (record b { mem = mem })
scaled-IsValid mem v h = ground arith

scaled-IsAligned : {b : Buffer} (mem : List ℕ) → IsAligned b → IsAligned (record b { mem = mem })
scaled-IsAligned mem a = ground arith

used-scaled : (b : Buffer) (mem : List ℕ) → used (record b { mem = mem }) ≡ used b
unfolding used
used-scaled b mem = refl

after_write :
    (start : ℕ) (silence : Bool) (l : Loop) (r : Round) (gains : Gains) (answer : Answer)
    → IsGoing start l
    → IsValid r.outputbuf
    → IsAligned r.outputbuf
    → IsValid (record r.outputbuf { mem = answer.mem })
    → used r.outputbuf + 8 * played l.written ≡ start
    → is_crossfade r.output.fade_mode ≡ false
    → answer.frames ≤ l.size
    → answer.frames ≤ (if silence then l.size else r.cont_frames)
    → r.cont_frames * 8 ≤ cont_read r.outputbuf
    → IsGoing start (wrote silence l r gains answer)
unfolding wrote
after_write start true l r gains answer g v a v' taken mode fits short cont = record {
  valid = v';
  aligned = scaled-IsAligned answer.mem a;
  shared = omega (arith, g.shared, total-append l.written answer.frames true);
  taken = omega (
    arith,
    taken,
    used-scaled r.outputbuf answer.mem,
    played-append l.written answer.frames true,
  );
  no_cross = mode;
}
after_write start false l r gains answer g v a v' taken mode fits short cont =
    let n = answer.frames * 8 in
    let b : Buffer = record r.outputbuf { mem = answer.mem } in
    let moves =
      inc_readp_moves {b = b} n v'
        (omega (arith, short, cont, measures v, used-scaled r.outputbuf answer.mem)) in
    record {
      valid = inc_readp-IsValid n v';
      aligned =
          inc_readp-IsAligned answer.frames v' (scaled-IsAligned answer.mem a)
            (omega (arith, short, cont, measures v, used-scaled r.outputbuf answer.mem));
      shared = omega (arith, g.shared, total-append l.written answer.frames false);
      taken = omega (
        arith,
        taken,
        moves.1,
        short,
        cont,
        measures v,
        used-scaled r.outputbuf answer.mem,
        played-append l.written answer.frames false,
      );
      no_cross = mode;
    }

account-After :
    (start : ℕ) (silence : Bool) (l : Loop) (r : Round) (gains : Gains) (answer : Answer)
    → IsGoing start l
    → IsValid r.outputbuf
    → IsAligned r.outputbuf
    → used r.outputbuf + 8 * played l.written ≡ start
    → is_crossfade r.output.fade_mode ≡ false
    → answer.frames ≤ l.size
    → answer.frames ≤ (if silence then l.size else r.cont_frames)
    → r.cont_frames * 8 ≤ cont_read r.outputbuf
    → length answer.mem ≡ length r.outputbuf.mem
    → After start l (account silence l r gains answer)
unfolding account After
account-After start silence l r gains answer g v a taken mode fits short cont len =
    let b : Buffer = record r.outputbuf { mem = answer.mem } in
    let v' : IsValid b = scaled-IsValid answer.mem v len in
    elim (Bool-cases (answer.frames == 0)) [
      | inl e ↦ rw e (
        record {
          valid = v';
          aligned = scaled-IsAligned answer.mem a;
          all_written = omega (arith, g.shared);
          taken = ap (λ u. u + 8 * played l.written) (used-scaled r.outputbuf answer.mem) ∙ taken;
        },
        omega arith,
      )
      | inr e ↦
          let pos : 0 < answer.frames = ground (arith, e) in
          rw e (
            after_write start silence l r gains answer g v a v' taken mode fits short cont,
            omega (arith, pos, fits),
            omega arith,
          )
    ]

module _ (start : ℕ) (host : Host) (honest : IsHonest host) where
  write_round-After :
      (silence : Bool) (l : Loop) (r : Round)
      → IsGoing start l
      → r.outputbuf ≡ l.outputbuf
      → is_crossfade r.output.fade_mode ≡ false
      → r.cont_frames * 8 ≤ cont_read l.outputbuf
      → After start l (write_round host silence l r)
  unfolding write_round
  write_round-After true l r g same mode cont =
      let chunk : Chunk = record {
        out_frames = l.size;
        silence = true;
        gains = dsd_flags r.output r.gains;
      } in
      let mem = r.outputbuf.mem in
      account-After start true l r (dsd_flags r.output r.gains) (host.write_cb chunk mem) g
        (subst IsValid (sym same) g.valid) (subst IsAligned (sym same) g.aligned)
        (ap (λ b. used b + 8 * played l.written) same ∙ g.taken) mode (honest.no_more chunk mem)
        (honest.no_more chunk mem) (subst (λ b. r.cont_frames * 8 ≤ cont_read b) (sym same) cont)
        (honest.in_place chunk mem)
  write_round-After false l r g same mode cont =
      let chunk : Chunk = record {
        out_frames = min l.size r.cont_frames;
        silence = false;
        gains = dsd_flags r.output r.gains;
      } in
      let mem = r.outputbuf.mem in
      let most = honest.no_more chunk mem in
      account-After start false l r (dsd_flags r.output r.gains) (host.write_cb chunk mem) g
        (subst IsValid (sym same) g.valid) (subst IsAligned (sym same) g.aligned)
        (ap (λ b. used b + 8 * played l.written) same ∙ g.taken) mode (omega (arith, most))
        (omega (arith, most)) (subst (λ b. r.cont_frames * 8 ≤ cont_read b) (sym same) cont)
        (honest.in_place chunk mem)

  up_to_track_le : (p : Option ℕ) (readp cont : ℕ) → up_to_track p readp cont ≤ cont
  up_to_track_le none readp cont = omega arith
  up_to_track_le (some p) readp cont = ground arith

  round-After : (silence : Bool) (l : Loop) → IsGoing start l → After start l (round host silence l)
  unfolding round After
  round-After true l g =
      write_round-After true l
        (record {
          output = l.output;
          outputbuf = l.outputbuf;
          cont_frames = cont_read l.outputbuf / 8;
          gains = dsd_gains l.output l.gains;
        })
        g refl g.no_cross (omega arith)
  round-After false l g =
      let o = l.output in
      let cont = up_to_track o.track_start l.outputbuf.readp (cont_read l.outputbuf / 8) in
      let r : Round = record {
        output = o;
        outputbuf = l.outputbuf;
        cont_frames = cont;
        gains = dsd_gains o l.gains;
      } in
      let keeps = fade_step-Keeps host.ratio_gain l.size o.fade r g.no_cross in
      elim (Bool-cases (starts_track o.track_start l.outputbuf.readp)) [
        | inl e ↦ rw e (
          record {
            valid = g.valid;
            aligned = g.aligned;
            all_written = omega (arith, g.shared);
            taken = g.taken;
          },
          omega arith,
        )
        | inr e ↦ rw e (
            write_round-After false l (fade_step host.ratio_gain l.size o.fade r) g
              keeps.same_buffer (ap is_crossfade keeps.same_mode ∙ g.no_cross)
              (omega (
                arith,
                keeps.shorter,
                up_to_track_le o.track_start l.outputbuf.readp (cont_read l.outputbuf / 8),
              )))
      ]

  -- With as much fuel as there are frames to write, the loop ends, and its accounts are closed.
  abbrev pub Closed : ℕ → Rendered → Type 0
  Closed most (rendered l) = IsDone start l × l.frames ≤ most
  Closed most stuck = ⊥

  finished : (l : Loop) → IsGoing start l → l.size ≡ 0 → IsDone start l
  finished l g e = record {
    valid = g.valid;
    aligned = g.aligned;
    all_written = omega (arith, g.shared, e);
    taken = g.taken;
  }

  turn :
      (fuel most : ℕ) (silence : Bool) (l : Loop) (next : Bool × Loop)
      → After start l next
      → l.frames ≤ most
      → l.size ≤ suc fuel
      → ((l' : Loop)
          → IsGoing start l'
          → l'.size ≤ fuel
          → l'.frames ≤ most
          → Closed most (loop fuel host silence l'))
      → Closed most (if next.0 then rendered next.1 else loop fuel host silence next.1)
  unfolding After
  turn fuel most silence l (true, l') a m h rest = (a.0, omega (arith, a.1))
  turn fuel most silence l (false, l') a m h rest =
      rest l' a.0 (omega (arith, a.1)) (omega (arith, a.2))

  pub loop-Closed :
      (fuel most : ℕ) (silence : Bool) (l : Loop)
      → IsGoing start l
      → l.size ≤ fuel
      → l.frames ≤ most
      → Closed most (loop fuel host silence l)
  unfolding loop
  loop-Closed zero most silence l g h m =
      let e : l.size ≡ 0 = omega arith in
      let t : (l.size == 0) ≡ true = ground arith in rw t (finished l g e, m)
  loop-Closed (suc fuel) most silence l g h m = elim (Bool-cases (l.size == 0)) [
    | inl e ↦ rw e (finished l g (ground (arith, e)), m)
    | inr e ↦ rw e (
        turn fuel most silence l (round host silence l) (round-After silence l g) m h
          (loop-Closed fuel most silence))
  ]
