-- ===== src/Dsd/Pack/Laws.antt =====
-- dsd.c: what is written depends on the bytes of the frames alone, and is 8 bytes for each frame.
use apple_squeezer.Prelude.{
  ℕ, zero, suc, ◌+◌, ◌-◌, ◌*◌, ◌<◌, ◌≤◌, ◌≡◌, ◌⊎◌, refl, sym, ap, ap₂, ◌∙◌, subst, inl, inr,
  Bool-cases, List, [], ◌∷◌, ◌++◌, length, drop, Option, none, some, arith, ◌==◌,
}
use apple_squeezer.Pack.Words.{store32}
use apple_squeezer.Buffer.Memory.{Agree, drop-Agree, get_or-drop}
use apple_squeezer.Dsd.Pack.{
  Layout, words, halves, bytes, dop_halves, width, width_of, word, frame_words, pack_frames,
  strided, interleave, Filters, pack_pcm, pack_dsdiff,
}

width_pos : (l : Layout) → 0 < width l
width_pos words = omega arith
width_pos halves = omega arith
width_pos dop_halves = omega arith
width_pos bytes = omega arith

word_ext :
    (l : Layout) (stride : ℕ) (p q : List ℕ)
    → Agree ((width l - 1) * stride + 1) p q
    → word l stride p ≡ word l stride q
unfolding word
word_ext words stride p q h =
    rw
      (
        h 0 (omega arith),
        h stride (omega arith),
        h (2 * stride) (omega arith),
        h (3 * stride) (omega arith),
      )
      refl
word_ext halves stride p q h = rw (h 0 (omega arith), h stride (omega arith)) refl
word_ext dop_halves stride p q h = rw (h 0 (omega arith), h stride (omega arith)) refl
word_ext bytes stride p q h = rw (h 0 (omega arith)) refl

frame_words_ext :
    (l : Layout) (channels : ℕ) (p q : List ℕ)
    → channels ≡ 1 ⊎ channels ≡ 2
    → Agree (channels * width l) p q
    → frame_words l channels p ≡ frame_words l channels q
unfolding frame_words
frame_words_ext l channels p q (inl e) =
    subst (λ c. Agree (c * width l) p q → frame_words l c p ≡ frame_words l c q) (sym e)
      (λ h.
        ap (λ w. store32 w ++ store32 w)
          (word_ext l 1 p q (λ k i. h k (omega (arith, width_pos l)))))
frame_words_ext l channels p q (inr e) =
    subst (λ c. Agree (c * width l) p q → frame_words l c p ≡ frame_words l c q) (sym e)
      (λ h.
        let n : ℕ = (width l - 1) * 2 + 1 in
        rw
          (
            word_ext l 2 p q (λ k i. h k (omega (arith, width_pos l))),
            word_ext l 2 (drop 1 p) (drop 1 q)
                (drop-Agree 1 n p q (λ k i. h k (omega (arith, width_pos l)))),
          )
          refl)

pack_frames_ext :
    (l : Layout) (channels count : ℕ) (p q : List ℕ)
    → channels ≡ 1 ⊎ channels ≡ 2
    → Agree (count * (channels * width l)) p q
    → pack_frames l channels count p ≡ pack_frames l channels count q
unfolding pack_frames
pack_frames_ext l channels zero p q c h = refl
pack_frames_ext l channels (suc count) p q c h =
    let frame : ℕ = channels * width l in
    let e : suc count * frame ≡ frame + count * frame = omega arith in
    let h' : Agree (frame + count * frame) p q = subst (λ n. Agree n p q) e h in
    ap₂ ◌++◌ (frame_words_ext l channels p q c (λ k i. h' k (omega arith))) (
      pack_frames_ext l channels count (drop frame p) (drop frame q) c
        (drop-Agree frame (count * frame) p q h'))

length-pack_frames :
    (l : Layout) (channels count : ℕ) (p : List ℕ)
    → length (pack_frames l channels count p) ≡ count * 8
unfolding pack_frames frame_words
length-pack_frames l channels zero p = omega arith
length-pack_frames l channels (suc count) p =
    omega (arith, length-pack_frames l channels count (drop (channels * width l) p))

-- One channel: `n` bytes cover the `count` that are read.
pub strided_ext :
    (count stride n : ℕ) (p q : List ℕ)
    → count * stride < n + stride
    → Agree n p q
    → strided count stride p ≡ strided count stride q
unfolding strided
strided_ext zero stride n p q c h = refl
strided_ext (suc zero) stride n p q c h = ap (λ x. x ∷ []) (h 0 (omega arith))
strided_ext (suc (suc count)) stride n p q c h =
    let m : ℕ = n - stride in
    let long : suc (suc count) * stride ≡ suc count * stride + stride = omega arith in
    let more : stride ≤ suc count * stride = omega arith in
    ap₂ ◌∷◌ (h 0 (omega (arith, long, more, c))) (
      strided_ext (suc count) stride m (drop stride p) (drop stride q)
        (omega (arith, long, more, c))
        (drop-Agree stride m p q (λ k i. h k (omega (arith, long, more, c)))))

pub length-strided : (count stride : ℕ) (p : List ℕ) → length (strided count stride p) ≡ count
unfolding strided
length-strided zero stride p = refl
length-strided (suc count) stride p = ap suc (length-strided count stride (drop stride p))

pub length-interleave :
    (n : ℕ) (ls rs : List ℕ) → length ls ≡ n → length rs ≡ n → length (interleave ls rs) ≡ n * 8
unfolding interleave
length-interleave zero [] rs h k = omega arith
length-interleave zero (l ∷ ls) rs h k = absurd (omega (arith, h))
length-interleave (suc n) [] rs h k = absurd (omega (arith, h))
length-interleave (suc n) (l ∷ ls) [] h k = absurd (omega (arith, k))
length-interleave (suc n) (l ∷ ls) (r ∷ rs) h k =
    omega (arith, length-interleave n ls rs (omega (arith, h)) (omega (arith, k)))

module _ {ℓ} {F : Type ℓ} (translate : F → List ℕ → List ℕ × F)
    (one_each : (f : F) (xs : List ℕ) → length ((translate f xs).0) ≡ length xs) where
  pub length-pack_dsdiff :
      (l : Option Layout) (channels count : ℕ) (p : List ℕ) (filters : Filters F)
      → length ((pack_dsdiff translate l channels count p filters).0) ≡ count * 8
  unfolding pack_dsdiff pack_pcm
  length-pack_dsdiff (some l) channels count p filters = length-pack_frames l channels count p
  length-pack_dsdiff none channels count p filters =
      let l = strided count channels p in
      let r = strided count channels (drop 1 p) in
      let left = one_each filters.left l ∙ length-strided count channels p in
      let right = one_each filters.right r ∙ length-strided count channels (drop 1 p) in
      elim (Bool-cases (channels == 1)) [
        | inl e ↦ rw e (length-interleave count _ _ left left)
        | inr e ↦ rw e (length-interleave count _ _ left right)
      ]

  pub pack_dsdiff_ext :
      (l : Option Layout) (channels count : ℕ) (p q : List ℕ) (filters : Filters F)
      → channels ≡ 1 ⊎ channels ≡ 2
      → Agree (count * (channels * width_of l)) p q
      → pack_dsdiff translate l channels count p filters
        ≡ pack_dsdiff translate l channels count q filters
  unfolding pack_dsdiff pack_pcm
  pack_dsdiff_ext (some l) channels count p q filters c h =
      ap (λ t. (t, filters)) (pack_frames_ext l channels count p q c h)
  pack_dsdiff_ext none channels count p q filters (inl e) h =
      let h' : Agree (count * (1 * 1)) p q = subst (λ c. Agree (count * (c * 1)) p q) e h in
      let same = strided_ext count 1 count p q (omega arith) (λ k i. h' k (omega arith)) in
      rw e (rw same refl)
  pack_dsdiff_ext none channels count p q filters (inr e) h =
      let h' : Agree (count * (2 * 1)) p q = subst (λ c. Agree (count * (c * 1)) p q) e h in
      let right : Agree (count * 2 - 1) (drop 1 p) (drop 1 q) =
        λ k i. get_or-drop 1 p k ∙ h' (1 + k) (omega arith) ∙ sym (get_or-drop 1 q k) in
      rw e (
        rw
          (
            strided_ext count 2 (count * 2) p q (omega arith) (λ k i. h' k (omega arith)),
            strided_ext count 2 (count * 2 - 1) (drop 1 p) (drop 1 q) (omega arith) right,
          )
          refl)
