-- ===== src/Output/Fade/Keeps.antt =====
-- A fade that is no crossfade changes neither outputbuf nor the mode, and only shortens a round.
use apple_squeezer.Prelude.{
  ℕ, ◌≤◌, ◌≡◌, ◌∙◌, refl, ap, false, ◌||◌, ◌==◌, leb, arith, Bool-cases, inl, inr,
}
use apple_squeezer.Prelude.Int.{ℤ}
use apple_squeezer.Output.{
  FadeState, inactive, due, active, FadeDir, undirected, up, down, cross, is_crossfade, is_inactive,
}
use apple_squeezer.Output.Fade.{
  Round, fade_reached, fade_over, up_to_end, fade_on, fade_active, fade_step, is_active, settled,
  frames_between,
}

-- What a step of the fade keeps.
pub record Keeps (r r' : Round) : Type 0 where
  pub same_buffer : r'.outputbuf ≡ r.outputbuf
  pub shorter : r'.cont_frames ≤ r.cont_frames
  pub same_mode : r'.output.fade_mode ≡ r.output.fade_mode

Keeps-trans : {r s t : Round} → Keeps r s → Keeps s t → Keeps r t
Keeps-trans h k = record {
  same_buffer = k.same_buffer ∙ h.same_buffer;
  shorter = omega (arith, h.shorter, k.shorter);
  same_mode = k.same_mode ∙ h.same_mode;
}

Keeps-refl : (r : Round) → Keeps r r
Keeps-refl r = record { same_buffer = refl; shorter = omega arith; same_mode = refl }

fade_reached-Keeps : (r : Round) → Keeps r (fade_reached r)
unfolding fade_reached
fade_reached-Keeps r = ground arith

fade_over-Keeps :
    (dur : ℕ) (r : Round) → is_crossfade r.output.fade_mode ≡ false → Keeps r (fade_over dur r)
unfolding fade_over
fade_over-Keeps dur r h = ground (arith, h)

settled-Keeps :
    (cur dur : ℕ) (r : Round)
    → is_crossfade r.output.fade_mode ≡ false
    → Keeps r (settled cur dur r)
unfolding settled
settled-Keeps cur dur r h = elim (Bool-cases (leb dur cur)) [
  | inl e ↦ rw e (fade_over-Keeps dur r h)
  | inr e ↦ rw e (Keeps-refl r)
]

up_to_end-Keeps : (r : Round) → Keeps r (up_to_end r)
unfolding up_to_end
up_to_end-Keeps r = ground arith

fade_on-Keeps :
    (ratio_gain : ℕ → ℕ → ℤ) (size cur dur : ℕ) (dir : FadeDir) (r : Round)
    → Keeps r (fade_on ratio_gain size cur dur dir r)
unfolding fade_on
fade_on-Keeps g size cur dur undirected r = Keeps-refl r
fade_on-Keeps g size cur dur up r = ground arith
fade_on-Keeps g size cur dur down r = ground arith
fade_on-Keeps g size cur dur cross r = ground arith

fade_active-Keeps :
    (ratio_gain : ℕ → ℕ → ℤ) (size : ℕ) (r : Round)
    → is_crossfade r.output.fade_mode ≡ false
    → Keeps r (fade_active ratio_gain size r)
unfolding fade_active
fade_active-Keeps g size r h =
    let cur = frames_between r.outputbuf r.output.fade_start r.outputbuf.readp in
    let dur = frames_between r.outputbuf r.output.fade_start r.output.fade_end in
    let k = settled-Keeps cur dur r h in
    elim (Bool-cases (is_inactive (settled cur dur r).output.fade || dur == 0)) [
      | inl e ↦ rw e k
      | inr e ↦ rw e (
          Keeps-trans k
            (Keeps-trans (up_to_end-Keeps (settled cur dur r)) (fade_on-Keeps g size _ dur _ _)))
    ]

pub fade_step-Keeps :
    (ratio_gain : ℕ → ℕ → ℤ) (size : ℕ) (fade : FadeState) (r : Round)
    → is_crossfade r.output.fade_mode ≡ false
    → Keeps r (fade_step ratio_gain size fade r)
unfolding fade_step
fade_step-Keeps g size inactive r h = Keeps-refl r
fade_step-Keeps g size active r h = fade_active-Keeps g size r h
fade_step-Keeps g size due r h =
    let reached = fade_reached-Keeps r in
    elim (Bool-cases (is_active (fade_reached r).output.fade)) [
      | inl e ↦ rw e (
          Keeps-trans reached
            (fade_active-Keeps g size (fade_reached r) (ap is_crossfade reached.same_mode ∙ h)))
      | inr e ↦ rw e reached
    ]
