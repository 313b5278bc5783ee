-- ===== src/Buffer/Memory.antt =====
-- The storage of a buffer as a list of bytes: memcpy and memmove within it and into it, byte by
-- byte.
use apple_squeezer.Prelude.{
  ℕ, zero, suc, ◌+◌, ◌≤◌, ◌<◌, ◌≡◌, refl, sym, ap, ◌∙◌, List, [], ◌∷◌, arith, length, get_or, set,
  take, drop, length-set, length-take, length-drop, ◌≢◌,
}

-- `memcpy(mem + at, bytes, length bytes)`; a byte past the end is not stored.
unfoldable pub blit : List ℕ → ℕ → List ℕ → List ℕ
blit mem at [] = mem
blit mem at (x ∷ xs) = blit (set mem at x) (at + 1) xs

-- `memmove(mem + to, mem + from, n)`: the source is read before anything is written.
unfoldable pub transfer : List ℕ → ℕ → ℕ → ℕ → List ℕ
unfolding blit
transfer mem to from n = blit mem to (take n (drop from mem))

pub get_or-set {ℓ} :
    {A : Type ℓ} (xs : List A) (i j : ℕ) (v d : A)
    → i < length xs
    → (i ≡ j → get_or (set xs i v) j d ≡ v) × (i ≢ j → get_or (set xs i v) j d ≡ get_or xs j d)
get_or-set [] i j v d h = absurd (omega arith)
get_or-set (x ∷ xs) zero zero v d h = (λ e. refl, λ ne. absurd (ne refl))
get_or-set (x ∷ xs) zero (suc j) v d h = (λ e. absurd (omega arith), λ ne. refl)
get_or-set (x ∷ xs) (suc i) zero v d h = (λ e. absurd (omega arith), λ ne. refl)
get_or-set (x ∷ xs) (suc i) (suc j) v d h =
    let rest = get_or-set xs i j v d (omega arith) in
    (λ e. rest.0 (omega arith), λ ne. rest.1 (λ e. ne (ap suc e)))

pub length-blit : (bytes mem : List ℕ) (at : ℕ) → length (blit mem at bytes) ≡ length mem
unfolding blit
length-blit [] mem at = refl
length-blit (x ∷ xs) mem at =
    omega (arith, length-blit xs (set mem at x) (at + 1), length-set mem at x)

pub blit_outside :
    (bytes mem : List ℕ) (at j : ℕ)
    → at + length bytes ≤ length mem
    → (j < at → get_or (blit mem at bytes) j 0 ≡ get_or mem j 0)
      × (at + length bytes ≤ j → get_or (blit mem at bytes) j 0 ≡ get_or mem j 0)
unfolding blit
blit_outside [] mem at j h = (λ p. refl, λ p. refl)
blit_outside (x ∷ xs) mem at j h =
    let fits : at + 1 + length xs ≤ length (set mem at x) = omega (arith, length-set mem at x) in
    let rest = blit_outside xs (set mem at x) (at + 1) j fits in
    let here = get_or-set mem at j x 0 (omega arith) in
    (
      λ p. rest.0 (omega arith) ∙ here.1 (omega arith),
      λ p. rest.1 (omega arith) ∙ here.1 (omega arith),
    )

pub blit_inside :
    (bytes mem : List ℕ) (at k : ℕ)
    → at + length bytes ≤ length mem
    → k < length bytes
    → get_or (blit mem at bytes) (at + k) 0 ≡ get_or bytes k 0
unfolding blit
blit_inside [] mem at k h p = absurd (omega arith)
blit_inside (x ∷ xs) mem at zero h p =
    let fits : at + 1 + length xs ≤ length (set mem at x) = omega (arith, length-set mem at x) in
    (blit_outside xs (set mem at x) (at + 1) (at + 0) fits).0 (omega arith)
    ∙ (get_or-set mem at (at + 0) x 0 (omega arith)).0 (omega arith)
blit_inside (x ∷ xs) mem at (suc k) h p =
    let fits : at + 1 + length xs ≤ length (set mem at x) = omega (arith, length-set mem at x) in
    let e : at + suc k ≡ at + 1 + k = omega arith in
    rw e (blit_inside xs (set mem at x) (at + 1) k fits (omega arith))

pub get_or-drop : (n : ℕ) (xs : List ℕ) (k : ℕ) → get_or (drop n xs) k 0 ≡ get_or xs (n + k) 0
get_or-drop zero xs k = ap (λ i. get_or xs i 0) (omega arith)
get_or-drop (suc n) [] k = refl
get_or-drop (suc n) (x ∷ xs) k =
    let e : suc n + k ≡ suc (n + k) = omega arith in rw e (get_or-drop n xs k)

pub get_or-take : (n : ℕ) (xs : List ℕ) (k : ℕ) → k < n → get_or (take n xs) k 0 ≡ get_or xs k 0
get_or-take zero xs k h = absurd (omega arith)
get_or-take (suc n) [] k h = refl
get_or-take (suc n) (x ∷ xs) zero h = refl
get_or-take (suc n) (x ∷ xs) (suc k) h = get_or-take n xs k (omega arith)

pub length-transfer : (mem : List ℕ) (to from n : ℕ) → length (transfer mem to from n) ≡ length mem
unfolding transfer
length-transfer mem to from n = length-blit (take n (drop from mem)) mem to

module _ (mem : List ℕ) (to from n : ℕ) (hf : from + n ≤ length mem)
    (ht : to + n ≤ length mem) where
  length_source : length (take n (drop from mem)) ≡ n
  length_source = omega (arith, length-take n (drop from mem), length-drop from mem)

  fits : to + length (take n (drop from mem)) ≤ length mem
  fits = omega (arith, length_source)

  -- A byte that is moved.
  pub transfer_inside :
      (j k : ℕ) → k < n → j ≡ to + k → get_or (transfer mem to from n) j 0 ≡ get_or mem (from + k) 0
  unfolding transfer
  transfer_inside j k h e = rw e (
      blit_inside (take n (drop from mem)) mem to k fits (omega (arith, length_source))
      ∙ get_or-take n (drop from mem) k h
      ∙ get_or-drop from mem k)

  -- A byte that stays.
  pub transfer_below : (j : ℕ) → j < to → get_or (transfer mem to from n) j 0 ≡ get_or mem j 0
  unfolding transfer
  transfer_below j h = (blit_outside (take n (drop from mem)) mem to j fits).0 h

  pub transfer_above : (j : ℕ) → to + n ≤ j → get_or (transfer mem to from n) j 0 ≡ get_or mem j 0
  unfolding transfer
  transfer_above j h =
      (blit_outside (take n (drop from mem)) mem to j fits).1 (omega (arith, length_source))

-- The same bytes at the front.
abbrev pub Agree : ℕ → List ℕ → List ℕ → Type 0
Agree n p q = (k : ℕ) → k < n → get_or p k 0 ≡ get_or q k 0

pub drop-Agree : (n m : ℕ) (p q : List ℕ) → Agree (n + m) p q → Agree m (drop n p) (drop n q)
drop-Agree n m p q h k l = get_or-drop n p k ∙ h (n + k) (omega arith) ∙ sym (get_or-drop n q k)
