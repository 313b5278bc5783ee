-- ===== src/Buffer/Queue.antt =====
-- A live buffer refines a FIFO of bytes: what the consumers read from `readp` on, what
-- `_buf_inc_readp` drops, and what a producer adds that copies to `writep` and calls
-- `_buf_inc_writep` (stream.c, process.c and every decoder).
use apple_squeezer.Prelude.{
  ℕ, zero, suc, ◌+◌, ◌-◌, ◌%◌, ◌≤◌, ◌<◌, ◌≡◌, refl, sym, ap, ap₂, ◌∙◌, List, [], ◌∷◌, ◌++◌, arith,
  length, get_or, drop, min, ◌⊎◌, inl, inr,
}
use native.Mathlib.Decide.{dec_lt}
use native.Mathlib.Nat.{mod-eq_of_lt, mod-add-mod, mod-eq-sub-mod}
use apple_squeezer.Buffer.{Buffer, used, space, cont_write, inc_readp, inc_writep}
use apple_squeezer.Buffer.Memory.{blit, length-blit, blit_inside, blit_outside}
use apple_squeezer.Buffer.Inv.{IsValid, measures, inc_writep-IsValid}

-- The `n` bytes from offset `from` on, going round at `size`.
abbrev pub window : List ℕ → ℕ → ℕ → ℕ → List ℕ
window mem size from zero = []
window mem size from (suc n) = get_or mem (from % size) 0 ∷ window mem size (from + 1) n

-- What the buffer holds, the oldest byte first.
abbrev pub contents : Buffer → List ℕ
contents b = window b.mem b.size b.readp (used b)

pub length-window : (mem : List ℕ) (size from n : ℕ) → length (window mem size from n) ≡ n
length-window mem size from zero = refl
length-window mem size from (suc n) = ap suc (length-window mem size (from + 1) n)

-- Windows that agree byte for byte are equal.
pub window_ext :
    (mem mem' : List ℕ) (size size' from from' n : ℕ)
    → ((k : ℕ) → k < n → get_or mem ((from + k) % size) 0 ≡ get_or mem' ((from' + k) % size') 0)
    → window mem size from n ≡ window mem' size' from' n
window_ext mem mem' size size' from from' zero h = refl
window_ext mem mem' size size' from from' (suc n) h =
    ap₂ ◌∷◌ head (window_ext mem mem' size size' (from + 1) (from' + 1) n tail)
  where
    head : get_or mem (from % size) 0 ≡ get_or mem' (from' % size') 0
    head =
        ap (λ i. get_or mem (i % size) 0) (omega arith)
        ∙ h 0 (omega arith)
        ∙ ap (λ i. get_or mem' (i % size') 0) (omega arith)

    tail :
        (k : ℕ)
        → k < n
        → get_or mem ((from + 1 + k) % size) 0 ≡ get_or mem' ((from' + 1 + k) % size') 0
    tail k p =
        let e : from + 1 + k ≡ from + suc k = omega arith in
        let e' : from' + 1 + k ≡ from' + suc k = omega arith in rw (e, e') (h (suc k) (omega arith))

-- The start of a window matters only up to the size.
pub window_mod :
    (mem : List ℕ) (size from n : ℕ) → window mem size (from % size) n ≡ window mem size from n
window_mod mem size from n =
    window_ext mem mem size size (from % size) from n
      (λ k p. ap (λ i. get_or mem i 0) (mod-add-mod from size k))

pub window-append :
    (mem : List ℕ) (size from n m : ℕ)
    → window mem size from (n + m) ≡ window mem size from n ++ window mem size (from + n) m
window-append mem size from zero m =
    let e : zero + m ≡ m = omega arith in let e' : from + zero ≡ from = omega arith in rw (e, e')
window-append mem size from (suc n) m =
    let e : suc n + m ≡ suc (n + m) = omega arith in
    let e' : from + suc n ≡ from + 1 + n = omega arith in
    rw (e, e', window-append mem size (from + 1) n m)

pub drop-window :
    (mem : List ℕ) (size from n m : ℕ)
    → n ≤ m
    → drop n (window mem size from m) ≡ window mem size (from + n) (m - n)
drop-window mem size from zero m h =
    let e : from + zero ≡ from = omega arith in let e' : m - zero ≡ m = omega arith in rw (e, e')
drop-window mem size from (suc n) zero h = absurd (omega arith)
drop-window mem size from (suc n) (suc m) h =
    let e : from + suc n ≡ from + 1 + n = omega arith in
    let e' : suc m - suc n ≡ m - n = omega arith in
    rw (e, e') (drop-window mem size (from + 1) n m (omega arith))

-- A pointer goes round at most once.
pub mod_cases : (a s : ℕ) → a < s + s → ((a < s) × (a % s ≡ a)) ⊎ ((s ≤ a) × (a % s ≡ a - s))
mod_cases a s h = elim (dec_lt a s) [
  | yes p ↦ inl (p, mod-eq_of_lt p)
  | no p ↦ inr (
    omega arith,
    mod-eq-sub-mod {n = a} {m = s} (omega arith) ∙ mod-eq_of_lt {n = a - s} {m = s} (omega arith),
  )
]

-- How the pointers move, and what is then left.
pub inc_readp_moves :
    {b : Buffer} (n : ℕ)
    → IsValid b
    → n ≤ used b
    → ((inc_readp b n).readp ≡ (b.readp + n) % b.size) × (used (inc_readp b n) ≡ used b - n)
unfolding inc_readp used
inc_readp_moves {b} n v h = ground (
  arith,
  mod-eq_of_lt {n = n} {m = b.size} (ground arith),
  mod_cases (b.readp + n) b.size (ground arith),
)

pub inc_writep_moves :
    {b : Buffer} (n : ℕ) → IsValid b → n ≤ space b → used (inc_writep b n) ≡ used b + n
unfolding inc_writep used space
inc_writep_moves {b} n v h = ground (
  arith,
  mod-eq_of_lt {n = n} {m = b.size} (ground arith),
  mod_cases (b.writep + n) b.size (ground arith),
)

-- A window that reads as a list is that list.
window_of_bytes :
    (mem : List ℕ) (size from : ℕ) (bytes : List ℕ)
    → ((k : ℕ) → k < length bytes → get_or mem ((from + k) % size) 0 ≡ get_or bytes k 0)
    → window mem size from (length bytes) ≡ bytes
window_of_bytes mem size from [] h = refl
window_of_bytes mem size from (x ∷ xs) h =
    ap₂ ◌∷◌ (ap (λ i. get_or mem (i % size) 0) (omega arith) ∙ h 0 (omega arith)) (
      window_of_bytes mem size (from + 1) xs
        λ k p. ap (λ i. get_or mem (i % size) 0) (omega arith) ∙ h (suc k) (omega arith))

pub inc_readp_keeps :
    (b : Buffer) (n : ℕ)
    → ((inc_readp b n).mem ≡ b.mem)
      × ((inc_readp b n).size ≡ b.size)
      × ((inc_readp b n).writep ≡ b.writep)
unfolding inc_readp
inc_readp_keeps b n = ground arith

-- Dropping bytes: `_buf_inc_readp` by what the buffer holds at most takes them off the front.
pub contents-inc_readp :
    {b : Buffer} (n : ℕ) → IsValid b → n ≤ used b → contents (inc_readp b n) ≡ drop n (contents b)
contents-inc_readp {b} n v h =
    let moves = inc_readp_moves n v h in
    let keeps = inc_readp_keeps b n in
    rw (moves.1, moves.0, keeps.0, keeps.1)
      (window_mod b.mem b.size (b.readp + n) (used b - n)
        ∙ sym (drop-window b.mem b.size b.readp n (used b) h))

-- Copy `bytes` to `writep` and advance it: how every producer adds to a buffer.
unfoldable pub append_bytes : Buffer → List ℕ → Buffer
append_bytes b bytes = inc_writep (record b { mem = blit b.mem b.writep bytes }) (length bytes)

pub inc_writep_keeps :
    (b : Buffer) (n : ℕ)
    → ((inc_writep b n).mem ≡ b.mem)
      × ((inc_writep b n).size ≡ b.size)
      × ((inc_writep b n).readp ≡ b.readp)
unfolding inc_writep
inc_writep_keeps b n = ground arith

-- Where the bytes of a valid buffer lie: the held ones outside the free run at `writep`.
held_outside :
    {b : Buffer} (k n : ℕ)
    → IsValid b
    → k < used b
    → n ≤ min (space b) (cont_write b)
    → ((b.readp + k) % b.size < b.writep) ⊎ (b.writep + n ≤ (b.readp + k) % b.size)
unfolding used space cont_write
held_outside {b} k n v h f = ground (arith, mod_cases (b.readp + k) b.size (ground arith))

free_at :
    {b : Buffer} (k n : ℕ)
    → IsValid b
    → k < n
    → n ≤ min (space b) (cont_write b)
    → (b.readp + used b + k) % b.size ≡ b.writep + k
unfolding used space cont_write
free_at {b} k n v h f = ground (arith, mod_cases (b.readp + used b + k) b.size (ground arith))

module _ {b : Buffer} (bytes : List ℕ) (v : IsValid b)
    (fits : length bytes ≤ min (space b) (cont_write b)) where
  abbrev stored : Buffer
  stored = record b { mem = blit b.mem b.writep bytes }

  in_storage : b.writep + length bytes ≤ length b.mem
  in_storage = omega (arith, measures v)

  stored-IsValid : IsValid stored
  stored-IsValid = ground (arith, length-blit bytes b.mem b.writep)

  old_window : window stored.mem b.size b.readp (used b) ≡ contents b
  old_window = window_ext stored.mem b.mem b.size b.size b.readp b.readp (used b) λ k p. ground (
    arith,
    held_outside k (length bytes) v p fits,
    blit_outside bytes b.mem b.writep ((b.readp + k) % b.size) in_storage,
  )

  new_window : window stored.mem b.size (b.readp + used b) (length bytes) ≡ bytes
  new_window = window_of_bytes stored.mem b.size (b.readp + used b) bytes λ k p.
      ap (λ i. get_or stored.mem i 0) (free_at k (length bytes) v p fits)
      ∙ blit_inside bytes b.mem b.writep k in_storage p

  used-stored : used stored ≡ used b
  unfolding used
  used-stored = refl

  space-stored : space stored ≡ space b
  unfolding space used
  space-stored = refl

  -- A producer that stays within `_buf_space` and `_buf_cont_write` adds its bytes at the back.
  pub append_bytes_lem :
      (contents (append_bytes b bytes) ≡ contents b ++ bytes) × IsValid (append_bytes b bytes)
  unfolding append_bytes
  append_bytes_lem =
      let keeps = inc_writep_keeps stored (length bytes) in
      let grown = inc_writep_moves (length bytes) stored-IsValid (omega (arith, space-stored)) in
      (
        rw (grown, keeps.0, keeps.1, keeps.2, used-stored)
            (window-append stored.mem b.size b.readp (used b) (length bytes)
              ∙ ap₂ ◌++◌ old_window new_window),
        inc_writep-IsValid (length bytes) stored-IsValid,
      )
