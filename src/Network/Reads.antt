-- ===== src/Network/Reads.antt =====
-- Reads that may miss: within a packet they do not.
use apple_squeezer.Prelude.{
  ℕ, zero, suc, ◌+◌, ◌<◌, ◌≡◌, ◌∙◌, refl, ap, List, [], ◌∷◌, length, Option, some, get_elem?, arith,
}
use apple_squeezer.Network.{read_u16, read_u32, ◌>>=◌}

-- A read that gives something.
abbrev pub IsRead : {A : Type 0} → Option A → Type 0
IsRead {A} m = (a : A) × (m ≡ some a)

pub bind-IsRead :
    {A B : Type 0} {m : Option A} {f : A → Option B}
    → IsRead m
    → ((a : A) → IsRead (f a))
    → IsRead (m >>= f)
bind-IsRead {f = f} (a, e) k = let (b, e') = k a in (b, ap (λ t. t >>= f) e ∙ e')

pub byte-IsRead : (xs : List ℕ) (i : ℕ) → i < length xs → IsRead (get_elem? xs i)
byte-IsRead [] i h = absurd (omega arith)
byte-IsRead (x ∷ xs) zero h = (x, refl)
byte-IsRead (x ∷ xs) (suc i) h = byte-IsRead xs i (omega arith)

pub read_u32-IsRead : (xs : List ℕ) (i : ℕ) → i + 3 < length xs → IsRead (read_u32 xs i)
unfolding read_u32
read_u32-IsRead xs i h = bind-IsRead (byte-IsRead xs i (omega arith)) (λ a.
    bind-IsRead (byte-IsRead xs (i + 1) (omega arith)) (λ b.
      bind-IsRead (byte-IsRead xs (i + 2) (omega arith))
        (λ c. bind-IsRead (byte-IsRead xs (i + 3) (omega arith)) (λ d. (_, refl)))))

pub read_u16-IsRead : (xs : List ℕ) (i : ℕ) → i + 1 < length xs → IsRead (read_u16 xs i)
unfolding read_u16
read_u16-IsRead xs i h =
    bind-IsRead (byte-IsRead xs i (omega arith))
      (λ a. bind-IsRead (byte-IsRead xs (i + 1) (omega arith)) (λ b. (_, refl)))
