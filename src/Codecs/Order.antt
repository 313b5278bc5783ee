-- ===== src/Codecs/Order.antt =====
-- The table of codecs stays in order, loses none while a slot is free, and `codec_open` picks the
-- first codec of a format.
use apple_squeezer.Prelude.{
  ℕ, ◌+◌, ◌≤◌, ◌≡◌, ◌≢◌, ◌⊎◌, refl, ◌∙◌, Bool, true, false, List, [], ◌∷◌, ◌++◌, none, some, ◌==◌,
  ==_iff, ltb, if◌then◌else◌, inl, inr, arith, Bool-cases,
}
use apple_squeezer.Pcm.Decode.{stopped, ready}
use apple_squeezer.Codecs.{
  Codec, Slot, opened, closing, sort_codecs, Decoding, open_from, codec_open,
}

abbrev IsAtLeast : ℕ → List Slot → Type 0
IsAtLeast p [] = Unit
IsAtLeast p (none ∷ slots) = IsAtLeast p slots
IsAtLeast p (some (q, c) ∷ slots) = (p ≤ q) × IsAtLeast p slots

abbrev IsFree : List Slot → Type 0
IsFree [] = Unit
IsFree (none ∷ slots) = IsFree slots
IsFree (some x ∷ slots) = ⊥

-- Priorities ascend, and the free slots are the last.
abbrev pub IsOrdered : List Slot → Type 0
IsOrdered [] = Unit
IsOrdered (none ∷ slots) = IsFree slots
IsOrdered (some (q, c) ∷ slots) = IsAtLeast q slots × IsOrdered slots

IsFree-IsAtLeast : (p : ℕ) (slots : List Slot) → IsFree slots → IsAtLeast p slots
IsFree-IsAtLeast p [] f = tt
IsFree-IsAtLeast p (none ∷ slots) f = IsFree-IsAtLeast p slots f
IsFree-IsAtLeast p (some x ∷ slots) f = absurd f

IsFree-IsOrdered : (slots : List Slot) → IsFree slots → IsOrdered slots
IsFree-IsOrdered [] f = tt
IsFree-IsOrdered (none ∷ slots) f = f
IsFree-IsOrdered (some x ∷ slots) f = absurd f

lower : (p q : ℕ) (slots : List Slot) → p ≤ q → IsAtLeast q slots → IsAtLeast p slots
lower p q [] h a = tt
lower p q (none ∷ slots) h a = lower p q slots h a
lower p q (some (r, c) ∷ slots) h a = (omega (arith, a.0), lower p q slots h a.1)

sort_codecs-IsAtLeast :
    (p pry : ℕ) (ptr : Codec) (slots : List Slot)
    → p ≤ pry
    → IsAtLeast p slots
    → IsAtLeast p (sort_codecs pry ptr slots)
unfolding sort_codecs
sort_codecs-IsAtLeast p pry ptr [] h a = tt
sort_codecs-IsAtLeast p pry ptr (none ∷ slots) h a = (h, a)
sort_codecs-IsAtLeast p pry ptr (some (q, c) ∷ slots) h a = elim (Bool-cases (ltb pry q)) [
  | inl e ↦ rw e (h, sort_codecs-IsAtLeast p q c slots a.0 a.1)
  | inr e ↦ rw e (a.0, sort_codecs-IsAtLeast p pry ptr slots h a.1)
]

-- `sort_codecs` keeps the priorities ascending and the free slots last.
pub sort_codecs-IsOrdered :
    (pry : ℕ) (ptr : Codec) (slots : List Slot)
    → IsOrdered slots
    → IsOrdered (sort_codecs pry ptr slots)
unfolding sort_codecs
sort_codecs-IsOrdered pry ptr [] o = tt
sort_codecs-IsOrdered pry ptr (none ∷ slots) o =
    (IsFree-IsAtLeast pry slots o, IsFree-IsOrdered slots o)
sort_codecs-IsOrdered pry ptr (some (q, c) ∷ slots) o = elim (Bool-cases (ltb pry q)) [
  | inl e ↦
      let le : pry ≤ q = ground (arith, e) in
      rw e (
        sort_codecs-IsAtLeast pry q c slots le (lower pry q slots le o.0),
        sort_codecs-IsOrdered q c slots o.1,
      )
  | inr e ↦ rw e (
    sort_codecs-IsAtLeast q pry ptr slots (ground (arith, e)) o.0,
    sort_codecs-IsOrdered pry ptr slots o.1,
  )
]

-- How many codecs of the table pass a test, with their priorities.
abbrev pub count : (ℕ → Codec → Bool) → List Slot → ℕ
count p [] = 0
count p (none ∷ slots) = count p slots
count p (some (q, c) ∷ slots) = (if p q c then 1 else 0) + count p slots

abbrev pub has_free : List Slot → Bool
has_free [] = false
has_free (none ∷ slots) = true
has_free (some x ∷ slots) = has_free slots

-- While a slot is free `sort_codecs` adds the codec with its priority, and loses none and changes
-- none: for any test, just as many pass as before, and the new codec if it does.
pub count-sort_codecs :
    (p : ℕ → Codec → Bool) (pry : ℕ) (ptr : Codec) (slots : List Slot)
    → has_free slots ≡ true
    → count p (sort_codecs pry ptr slots) ≡ (if p pry ptr then 1 else 0) + count p slots
unfolding sort_codecs
count-sort_codecs p pry ptr [] h = ground (arith, h)
count-sort_codecs p pry ptr (none ∷ slots) h = refl
count-sort_codecs p pry ptr (some (q, c) ∷ slots) h = elim (Bool-cases (ltb pry q)) [
  | inl e ↦ rw e (omega (arith, count-sort_codecs p q c slots h))
  | inr e ↦ rw e (omega (arith, count-sort_codecs p pry ptr slots h))
]

-- No codec of the format.
abbrev pub IsUnknown : ℕ → List Slot → Type 0
IsUnknown format [] = Unit
IsUnknown format (none ∷ slots) = IsUnknown format slots
IsUnknown format (some (q, c) ∷ slots) = (c.id ≢ format) × IsUnknown format slots

-- The codec stands in the table with that priority, and no codec of its format has a smaller one.
abbrev pub IsFirst : ℕ → Codec → List Slot → Type 0
IsFirst q c [] = ⊥
IsFirst q c (none ∷ slots) = IsFirst q c slots
IsFirst q c (some (r, e) ∷ slots) =
    ((r ≡ q) × (e ≡ c) × IsAtLeast q slots) ⊎ ((e.id ≢ c.id) × IsFirst q c slots)

-- What `open_from` does to the state.
abbrev pub Opens : ℕ → List Slot → Decoding → Decoding → Type 0
Opens format slots d d' =
    (IsUnknown format slots × (d' ≡ d))
    ⊎ ((q : ℕ) × (c : Codec) × (c.id ≡ format)
        × IsFirst q c slots
        × (d' ≡ record d {
          codec = some c;
          state = ready;
          calls = d.calls ++ (closing d.codec c ++ (opened c ∷ []));
        }))

open_from_lem :
    (format : ℕ) (slots : List Slot) (d : Decoding)
    → IsOrdered slots
    → Opens format slots d (open_from format slots d)
unfolding open_from
open_from_lem format [] d o = inl (tt, refl)
open_from_lem format (none ∷ slots) d o = open_from_lem format slots d (IsFree-IsOrdered slots o)
open_from_lem format (some (q, c) ∷ slots) d o = elim (Bool-cases (c.id == format)) [
  | inl e ↦ rw e (inr (q, c, (==_iff c.id format).0 e, inl (refl, refl, o.0), refl))
  | inr e ↦
      let other : c.id ≢ format = λ eq. absurd (ground (arith, e, eq)) in
      rw e (elim (open_from_lem format slots d o.1) [
        | inl u ↦ inl ((other, u.0), u.1)
        | inr (r, c', i, f, s) ↦ inr (r, c', i, inr ((λ eq. other (eq ∙ i)), f), s)
      ])
]

-- On an ordered table `codec_open` either knows no codec of the format, and leaves the decoder
-- stopped with the codec it had; or it makes the decoder ready with a codec of that format that no
-- other of that format precedes in priority, closes the codec before it where that was another
-- one, and opens the new one after that. Either way the stream counts as new and direct.
pub codec_open_lem :
    (format : ℕ) (slots : List Slot) (d : Decoding)
    → IsOrdered slots
    → Opens format slots
        (record d { new_stream = true; state = stopped; direct = true })
        (codec_open format slots d)
unfolding codec_open
codec_open_lem format slots d o =
    open_from_lem format slots (record d { new_stream = true; state = stopped; direct = true }) o
