-- ===== src/Process/Write.antt =====
-- process.c: `_write_samples` loses no frame, and ends.
use apple_squeezer.Prelude.{
  ℕ, zero, suc, ◌+◌, ◌*◌, ◌/◌, ◌%◌, ◌≤◌, ◌<◌, ◌≡◌, ◌∙◌, refl, sym, ap, subst, List, [], ◌∷◌, ◌++◌,
  length, take, drop, take-append-drop, append_assoc, length-take, length-drop, not, ◌==◌, if_both,
  min, arith,
}
use apple_squeezer.Buffer.{used, inc_readp, space, cont_write}
use apple_squeezer.Buffer.Inv.{IsValid, inc_readp-IsValid}
use apple_squeezer.Buffer.Queue.{contents, append_bytes_lem, contents-inc_readp}
use apple_squeezer.Process.{
  bytes_per_frame, Writing, frames_free, Round, finished, given_up, again, copy_frames,
  wait_for_space, write_step, write_samples,
}

-- All bytes, those that were taken first.
abbrev pub stream_of : Writing → List ℕ
stream_of w = w.taken ++ (contents w.outputbuf ++ w.samples)

-- Whole frames are left, and outputbuf is valid.
pub record IsWriting (w : Writing) : Type 0 where
  pub valid : IsValid w.outputbuf
  pub whole : length w.samples % bytes_per_frame ≡ 0

-- How many rounds there can be.
abbrev pub rounds_left : Writing → ℕ
rounds_left w = length w.samples / bytes_per_frame + w.cnt

-- What a round keeps, and what it leads to.
Goes : Writing → Round → Type 0
Goes w (finished w') = (w' ≡ w) × (w.samples ≡ [])
Goes w (given_up w') = (w' ≡ w) × (w.cnt ≡ 0) × (frames_free w.outputbuf ≡ 0)
Goes w (again w') = (stream_of w' ≡ stream_of w) × IsWriting w' × (rounds_left w' < rounds_left w)

no_samples : (xs : List ℕ) → length xs ≡ 0 → xs ≡ []
no_samples [] h = refl
no_samples (x ∷ xs) h = absurd (omega arith)

copy_frames-Goes :
    (w : Writing)
    → IsWriting w
    → 0 < length w.samples / bytes_per_frame
    → 0 < frames_free w.outputbuf
    → Goes w (again (copy_frames w))
unfolding copy_frames Goes
copy_frames-Goes w v some_left some_free =
    let n : ℕ =
      min (frames_free w.outputbuf) (length w.samples / bytes_per_frame) * bytes_per_frame in
    let size = length-take n w.samples in
    let fits : length (take n w.samples) ≤ min (space w.outputbuf) (cont_write w.outputbuf) =
      omega (arith, size) in
    let grown = append_bytes_lem (take n w.samples) v.valid fits in
    (
      ap (λ t. w.taken ++ t)
          (ap (λ t. t ++ drop n w.samples) grown.0
            ∙ append_assoc (contents w.outputbuf) (take n w.samples) (drop n w.samples)
            ∙ ap (λ t. contents w.outputbuf ++ t) (take-append-drop n w.samples)),
      record { valid = grown.1; whole = omega (arith, v.whole, length-drop n w.samples) },
      omega (arith, v.whole, length-drop n w.samples),
    )

wait_for_space-Goes :
    (n : ℕ) (w : Writing) → IsWriting w → 0 < w.cnt → Goes w (again (wait_for_space n w))
unfolding wait_for_space Goes
wait_for_space-Goes n w v h =
    let k : ℕ = min n (used w.outputbuf) in
    (
      append_assoc w.taken (take k (contents w.outputbuf)) _
          ∙ ap (λ t. w.taken ++ t)
              (sym (
                  append_assoc (take k (contents w.outputbuf)) (contents (inc_readp w.outputbuf k))
                    w.samples)
                ∙ ap (λ t. t ++ w.samples)
                    (ap (λ t. take k (contents w.outputbuf) ++ t)
                        (contents-inc_readp k v.valid (omega arith))
                      ∙ take-append-drop k (contents w.outputbuf))),
      record { valid = inc_readp-IsValid k v.valid; whole = v.whole },
      omega (arith, h),
    )

write_step-Goes : (waits : ℕ → ℕ) (w : Writing) → IsWriting w → Goes w (write_step waits w)
unfolding write_step Goes
write_step-Goes waits w v =
    if_both (Goes w) (length w.samples / bytes_per_frame == 0) (finished w) _
      (λ e. (refl, no_samples w.samples (ground (arith, e, v.whole))))
      (λ e.
        if_both (Goes w) (not (frames_free w.outputbuf == 0)) (again (copy_frames w)) _
          (λ f. copy_frames-Goes w v (ground (arith, e)) (ground (arith, f)))
          (λ f.
            if_both (Goes w) (not (w.cnt == 0)) (again (wait_for_space (waits w.cnt) w))
              (given_up w) (λ g. wait_for_space-Goes (waits w.cnt) w v (ground (arith, g)))
              (λ g. (refl, ground (arith, g), ground (arith, f)))))

-- What the loop comes to.
pub Ends : Writing → Round → Type 0
Ends w (finished w') = (stream_of w' ≡ stream_of w) × IsWriting w' × (w'.samples ≡ [])
Ends w (given_up w') =
    (stream_of w' ≡ stream_of w) × IsWriting w' × (w'.cnt ≡ 0) × (frames_free w'.outputbuf ≡ 0)
Ends w (again w') = ⊥

-- From one round to the end.
goes_on : (w w' : Writing) (r : Round) → stream_of w' ≡ stream_of w → Ends w' r → Ends w r
unfolding Ends
goes_on w w' (finished w'') e h = (h.0 ∙ e, h.1, h.2)
goes_on w w' (given_up w'') e h = (h.0 ∙ e, h.1, h.2, h.3)
goes_on w w' (again w'') e h = h

-- `_write_samples` ends, whatever the output thread does: with all frames in outputbuf, or giving
-- up after the last wait with no space for a frame. Either way no byte is lost or changes its
-- place: what the output thread took, what is in outputbuf and what was not written are, in this
-- order, what they were; outputbuf stays valid. There are whole frames to write, and more rounds
-- than frames and waits.
pub write_samples_lem :
    (fuel : ℕ) (waits : ℕ → ℕ) (w : Writing)
    → IsWriting w
    → rounds_left w < fuel
    → Ends w (write_samples fuel waits w)
unfolding write_samples Goes Ends
write_samples_lem zero waits w v h = absurd (omega arith)
write_samples_lem (suc fuel) waits w v h =
    next (write_step waits w) (write_step-Goes waits w v)
      (λ w' g. write_samples_lem fuel waits w' g.1 (omega (arith, g.2, h)))
  where
    next :
        (r : Round)
        → Goes w r
        → ((w' : Writing) → Goes w (again w') → Ends w' (write_samples fuel waits w'))
        → Ends w (elim r [
          | finished w' ↦ finished w'
          | given_up w' ↦ given_up w'
          | again w' ↦ write_samples fuel waits w'
        ])
    next (finished w') g rest =
        (ap stream_of g.0, subst IsWriting (sym g.0) v, ap Writing.samples g.0 ∙ g.1)
    next (given_up w') g rest = (
      ap stream_of g.0,
      subst IsWriting (sym g.0) v,
      ap Writing.cnt g.0 ∙ g.1,
      ap (λ t. frames_free t.outputbuf) g.0 ∙ g.2,
    )
    next (again w') g rest = goes_on w w' (write_samples fuel waits w') g.0 (rest w' g)
