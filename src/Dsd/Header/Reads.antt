-- ===== src/Dsd/Header/Reads.antt =====
-- dsd.c: the reading of numbers and tags where their bytes are there.
use apple_squeezer.Prelude.{ℕ, ◌+◌, ◌<◌, ◌≡◌, ◌∙◌, refl, ap, List, length, Option, some, arith}
use apple_squeezer.Network.{◌>>=◌}
use apple_squeezer.Network.Reads.{IsRead, bind-IsRead, byte-IsRead, read_u32-IsRead}
use apple_squeezer.Dsd.Header.{read_u32_le, read_u64_be, read_u64_le, read_tag}

-- A read that gives something of which `P` holds.
abbrev pub IsGiven : {A : Type 0} → (A → Type 0) → Option A → Type 0
IsGiven {A} P m = (a : A) × (m ≡ some a) × P a

pub bind-IsGiven :
    {A B : Type 0} {P : B → Type 0} {m : Option A} {f : A → Option B}
    → IsRead m
    → ((a : A) → IsGiven P (f a))
    → IsGiven P (m >>= f)
bind-IsGiven {f = f} (a, e) k = let (b, e', p) = k a in (b, ap (λ t. t >>= f) e ∙ e', p)

pub read_u32_le-IsRead : (xs : List ℕ) (i : ℕ) → i + 3 < length xs → IsRead (read_u32_le xs i)
unfolding read_u32_le
read_u32_le-IsRead xs i h = bind-IsRead (byte-IsRead xs i (omega arith)) (λ a.
    bind-IsRead (byte-IsRead xs (i + 1) (omega arith)) (λ b.
      bind-IsRead (byte-IsRead xs (i + 2) (omega arith))
        (λ c. bind-IsRead (byte-IsRead xs (i + 3) (omega arith)) (λ d. (_, refl)))))

pub read_tag-IsRead : (xs : List ℕ) (i : ℕ) → i + 3 < length xs → IsRead (read_tag xs i)
unfolding read_tag
read_tag-IsRead xs i h = bind-IsRead (byte-IsRead xs i (omega arith)) (λ a.
    bind-IsRead (byte-IsRead xs (i + 1) (omega arith)) (λ b.
      bind-IsRead (byte-IsRead xs (i + 2) (omega arith))
        (λ c. bind-IsRead (byte-IsRead xs (i + 3) (omega arith)) (λ d. (_, refl)))))

pub read_u64_be-IsRead : (xs : List ℕ) (i : ℕ) → i + 7 < length xs → IsRead (read_u64_be xs i)
unfolding read_u64_be
read_u64_be-IsRead xs i h =
    bind-IsRead (read_u32-IsRead xs i (omega arith))
      (λ a. bind-IsRead (read_u32-IsRead xs (i + 4) (omega arith)) (λ b. (_, refl)))

pub read_u64_le-IsRead : (xs : List ℕ) (i : ℕ) → i + 7 < length xs → IsRead (read_u64_le xs i)
unfolding read_u64_le
read_u64_le-IsRead xs i h =
    bind-IsRead (read_u32_le-IsRead xs i (omega arith))
      (λ a. bind-IsRead (read_u32_le-IsRead xs (i + 4) (omega arith)) (λ b. (_, refl)))
