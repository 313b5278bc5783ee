-- ===== src/Prelude/Bits.antt =====
-- `&` and `|` of C on numbers of any width, as arithmetic on fields of binary digits.
use Prim.Native.Nat.{
  ℕ, zero, suc, ◌+◌, ◌-◌, ◌*◌, ◌/◌, ◌%◌, ◌^◌, ◌≤◌, ◌<◌, min, max, bit_and, bit_or, digits,
  bit_and-bitwise, bit_or-bitwise,
}
use mathlib.Core.Path.{◌≡◌, refl, sym, ap, ap₂, ◌∙◌}
use native.Mathlib.Nat.{pow-suc, mod-lt, div-add-mod'}
use native.Mathlib.Omega.{arith}

-- Any two counts of rounds that cover the first number give the same digits.
rounds_agree :
    (z : ℕ → ℕ) (f : ℕ → ℕ → ℕ) (k l a b : ℕ) → a ≤ k → a ≤ l → digits z f k a b ≡ digits z f l a b
rounds_agree z f zero zero a b hk hl = refl
rounds_agree z f zero (suc l) zero b hk hl = refl
rounds_agree z f zero (suc l) (suc a) b hk hl = absurd (omega arith)
rounds_agree z f (suc k) zero zero b hk hl = refl
rounds_agree z f (suc k) zero (suc a) b hk hl = absurd (omega arith)
rounds_agree z f (suc k) (suc l) zero b hk hl = refl
rounds_agree z f (suc k) (suc l) (suc a) b hk hl =
    ap (λ t. t * 2 + f (suc a % 2) (b % 2))
      (rounds_agree z f k l (suc a / 2) (b / 2) (omega arith) (omega arith))

-- The lowest digit split off.
and_digit : (a b : ℕ) → bit_and a b ≡ bit_and (a / 2) (b / 2) * 2 + min (a % 2) (b % 2)
and_digit zero b = simp bit_and-bitwise (omega arith)
and_digit (suc a) b = simp bit_and-bitwise (
    ap (λ t. t * 2 + min (suc a % 2) (b % 2))
      (rounds_agree (λ _. 0) min a (suc a / 2) (suc a / 2) (b / 2) (omega arith) (omega arith)))

or_digit : (a b : ℕ) → bit_or a b ≡ bit_or (a / 2) (b / 2) * 2 + max (a % 2) (b % 2)
or_digit zero b = simp bit_or-bitwise (omega arith)
or_digit (suc a) b = simp bit_or-bitwise (
    ap (λ t. t * 2 + max (suc a % 2) (b % 2))
      (rounds_agree (λ t. t) max a (suc a / 2) (suc a / 2) (b / 2) (omega arith) (omega arith)))

double : (q k : ℕ) → q * 2 ^ suc k ≡ 2 * (q * 2 ^ k)
double q k = omega (arith, ap (λ (t : ℕ). q * t) (pow-suc 2 k))

-- `&` and `|` work on the fields above and below bit `k` apart.
pub and_fields :
    (k q p r s : ℕ)
    → r < 2 ^ k
    → s < 2 ^ k
    → bit_and (q * 2 ^ k + r) (p * 2 ^ k + s) ≡ bit_and q p * 2 ^ k + bit_and r s
and_fields zero q p r s hr hs =
    let er : r ≡ 0 = omega arith in
    let es : s ≡ 0 = omega arith in
    let eq : q * 2 ^ 0 + 0 ≡ q = omega arith in
    let ep : p * 2 ^ 0 + 0 ≡ p = omega arith in rw (er, es) (rw (eq, ep) (omega arith))
and_fields (suc k) q p r s hr hs = ground (
  arith,
  and_digit (q * 2 ^ suc k + r) (p * 2 ^ suc k + s),
  and_digit r s,
  double q k,
  double p k,
  double (bit_and q p) k,
  pow-suc 2 k,
  and_fields k q p (r / 2) (s / 2) (omega (arith, pow-suc 2 k)) (omega (arith, pow-suc 2 k)),
)

pub or_fields :
    (k q p r s : ℕ)
    → r < 2 ^ k
    → s < 2 ^ k
    → bit_or (q * 2 ^ k + r) (p * 2 ^ k + s) ≡ bit_or q p * 2 ^ k + bit_or r s
or_fields zero q p r s hr hs =
    let er : r ≡ 0 = omega arith in
    let es : s ≡ 0 = omega arith in
    let eq : q * 2 ^ 0 + 0 ≡ q = omega arith in
    let ep : p * 2 ^ 0 + 0 ≡ p = omega arith in rw (er, es) (rw (eq, ep) (omega arith))
or_fields (suc k) q p r s hr hs = ground (
  arith,
  or_digit (q * 2 ^ suc k + r) (p * 2 ^ suc k + s),
  or_digit r s,
  double q k,
  double p k,
  double (bit_or q p) k,
  pow-suc 2 k,
  or_fields k q p (r / 2) (s / 2) (omega (arith, pow-suc 2 k)) (omega (arith, pow-suc 2 k)),
)

pub and-zero : (b : ℕ) → bit_and 0 b ≡ 0
and-zero b = simp bit_and-bitwise

pub or-zero : (b : ℕ) → bit_or 0 b ≡ b
or-zero b = simp bit_or-bitwise

lt-two-pow : (a : ℕ) → a < 2 ^ a
lt-two-pow zero = omega arith
lt-two-pow (suc a) = omega (arith, lt-two-pow a, pow-suc 2 a)

-- What 0 and a mask of `k` ones do to a number of `k` digits.
record NeutralAt (k a : ℕ) : Type 0 where
  and_none : bit_and a 0 ≡ 0
  or_none : bit_or a 0 ≡ a
  and_ones : bit_and a (2 ^ k - 1) ≡ a

neutral : (k a : ℕ) → a < 2 ^ k → NeutralAt k a
neutral zero a h =
    let e : a ≡ 0 = omega arith in
    rw e (record { and_none = and-zero 0; or_none = or-zero 0; and_ones = and-zero (2 ^ 0 - 1) })
neutral (suc k) a h =
    let half = neutral k (a / 2) (omega (arith, pow-suc 2 k)) in
    record {
      and_none = ground (arith, half, and_digit a 0);
      or_none = ground (arith, half, or_digit a 0);
      and_ones =
          let e : (2 ^ suc k - 1) / 2 ≡ 2 ^ k - 1 = omega (arith, pow-suc 2 k) in
          let one : (2 ^ suc k - 1) % 2 ≡ 1 = omega (arith, pow-suc 2 k, lt-two-pow k) in
          and_digit a (2 ^ suc k - 1) ∙ rw (e, one, half.and_ones) (omega arith);
    }

pub and-zero_right : (a : ℕ) → bit_and a 0 ≡ 0
and-zero_right a = (neutral a a (lt-two-pow a)).and_none

pub or-zero_right : (a : ℕ) → bit_or a 0 ≡ a
or-zero_right a = (neutral a a (lt-two-pow a)).or_none

pub and_ones : (k a : ℕ) → a < 2 ^ k → bit_and a (2 ^ k - 1) ≡ a
and_ones k a h = (neutral k a h).and_ones

-- `|` of fields that do not meet is their sum.
pub or_sum : (k q r : ℕ) → r < 2 ^ k → bit_or (q * 2 ^ k) r ≡ q * 2 ^ k + r
or_sum k q r h =
    let e : q * 2 ^ k ≡ q * 2 ^ k + 0 = omega arith in
    let e' : r ≡ 0 * 2 ^ k + r = omega arith in
    ap₂ bit_or e e'
    ∙ or_fields k q 0 0 r (omega (arith, lt-two-pow k)) h
    ∙ rw (or-zero_right q, or-zero r)

-- A mask of `k` ones keeps the field below bit `k`.
pub and_low : (k q r : ℕ) → r < 2 ^ k → bit_and (q * 2 ^ k + r) (2 ^ k - 1) ≡ r
and_low k q r h =
    let e : 2 ^ k - 1 ≡ 0 * 2 ^ k + (2 ^ k - 1) = omega arith in
    ap (bit_and (q * 2 ^ k + r)) e
    ∙ and_fields k q 0 r (2 ^ k - 1) h (omega (arith, lt-two-pow k))
    ∙ rw (and-zero_right q, and_ones k r h) (omega arith)

-- A mask of ones above bit `k` keeps what lies there.
pub and_high :
    (k n q r : ℕ)
    → r < 2 ^ k
    → q < 2 ^ n
    → bit_and (q * 2 ^ k + r) ((2 ^ n - 1) * 2 ^ k) ≡ q * 2 ^ k
and_high k n q r hr hq =
    let e : (2 ^ n - 1) * 2 ^ k ≡ (2 ^ n - 1) * 2 ^ k + 0 = omega arith in
    ap (bit_and (q * 2 ^ k + r)) e
    ∙ and_fields k q (2 ^ n - 1) r 0 hr (omega (arith, lt-two-pow k))
    ∙ rw (and_ones n q hq, and-zero_right r) (omega arith)

-- A mask of `n` ones above bit `k` keeps that field.
and_field :
    (k n q m r : ℕ)
    → r < 2 ^ k
    → m < 2 ^ n
    → bit_and ((q * 2 ^ n + m) * 2 ^ k + r) ((2 ^ n - 1) * 2 ^ k) ≡ m * 2 ^ k
and_field k n q m r hr hm =
    let e : (2 ^ n - 1) * 2 ^ k ≡ (2 ^ n - 1) * 2 ^ k + 0 = omega arith in
    ap (bit_and ((q * 2 ^ n + m) * 2 ^ k + r)) e
    ∙ and_fields k (q * 2 ^ n + m) (2 ^ n - 1) r 0 hr (omega (arith, lt-two-pow k))
    ∙ rw (and_low n q m hm, and-zero_right r) (omega arith)

-- `x & mask` for a mask of `n` ones above bit `k`.
pub and_mask : (k n x : ℕ) → bit_and x ((2 ^ n - 1) * 2 ^ k) ≡ x / 2 ^ k % 2 ^ n * 2 ^ k
and_mask k n x =
    let e : x ≡ (x / 2 ^ k / 2 ^ n * 2 ^ n + x / 2 ^ k % 2 ^ n) * 2 ^ k + x % 2 ^ k = sym (
      ap (λ t. t * 2 ^ k + x % 2 ^ k) (div-add-mod' (x / 2 ^ k) (2 ^ n))
      ∙ div-add-mod' x (2 ^ k)) in
    ap (λ t. bit_and t ((2 ^ n - 1) * 2 ^ k)) e
    ∙ and_field k n (x / 2 ^ k / 2 ^ n) (x / 2 ^ k % 2 ^ n) (x % 2 ^ k)
        (mod-lt x (omega (arith, lt-two-pow k))) (mod-lt (x / 2 ^ k) (omega (arith, lt-two-pow n)))

pub or_sum_low : (k q r : ℕ) → r < 2 ^ k → bit_or r (q * 2 ^ k) ≡ q * 2 ^ k + r
or_sum_low k q r h =
    let e : q * 2 ^ k ≡ q * 2 ^ k + 0 = omega arith in
    let e' : r ≡ 0 * 2 ^ k + r = omega arith in
    ap₂ bit_or e' e
    ∙ or_fields k 0 q r 0 h (omega (arith, lt-two-pow k))
    ∙ rw (or-zero_right r, or-zero q)
