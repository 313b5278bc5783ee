-- ===== src/Buffer/Unwrap/Ends.antt =====
-- `_buf_unwrap` ends, whatever malloc answers.
use apple_squeezer.Prelude.{
  ℕ, zero, suc, ◌-◌, ◌/◌, ◌<◌, ◌≡◌, ◌≢◌, refl, Bool, true, false, List, [], ◌∷◌, arith,
}
use apple_squeezer.Buffer.{Buffer}
use apple_squeezer.Buffer.Unwrap.{
  through_scratch, Unwrapped, done, overrun, stuck, with_scratch, unwrap, and_then, attempt,
}

-- A call that ended with `readp` before `wrap`, or in the overrun.
abbrev Ends : Unwrapped → Type 0
Ends (done b answers) = b.readp < b.wrap
Ends overrun = Unit
Ends stuck = ⊥

with_scratch-Ends :
    (b : Buffer) (n : ℕ) (answers : List Bool) → b.readp < b.wrap → Ends (with_scratch b n answers)
unfolding through_scratch
with_scratch-Ends b n answers h = ground arith

and_then-Ends :
    (r : Unwrapped) (f : Buffer → List Bool → Unwrapped)
    → Ends r
    → ((b : Buffer) (answers : List Bool) → b.readp < b.wrap → Ends (f b answers))
    → Ends (and_then r f)
and_then-Ends (done b answers) f h k = k b answers h
and_then-Ends overrun f h k = h
and_then-Ends stuck f h k = h

attempt-Ends :
    (b : Buffer) (cont : ℕ) (answers : List Bool) (halves : List Bool → Unwrapped)
    → b.readp < b.wrap
    → ((rest : List Bool) → 1 < cont → Ends (halves rest))
    → Ends (attempt b cont answers halves)
unfolding attempt through_scratch
attempt-Ends b cont [] halves h k = ground arith
attempt-Ends b cont (true ∷ rest) halves h k = ground arith
attempt-Ends b cont (false ∷ rest) halves h k = ground (arith, k rest)

abbrev halves_of : ℕ → Buffer → ℕ → List Bool → Unwrapped
halves_of fuel b cont rest =
    and_then (unwrap fuel b (cont / 2) rest) (λ b' rest'. unwrap fuel b' (cont - cont / 2) rest')

unwrap-suc :
    (fuel : ℕ) (b : Buffer) (cont : ℕ) (answers : List Bool)
    → unwrap (suc fuel) b cont answers ≡ attempt b cont answers (halves_of fuel b cont)
unfolding unwrap
unwrap-suc fuel b cont answers = refl

unwrap-Ends :
    (fuel : ℕ) (b : Buffer) (cont : ℕ) (answers : List Bool)
    → b.readp < b.wrap
    → cont < fuel
    → Ends (unwrap fuel b cont answers)
unwrap-Ends zero b cont answers h f = absurd (omega arith)
unwrap-Ends (suc fuel) b cont answers h f = rw (unwrap-suc fuel b cont answers) (
    attempt-Ends b cont answers (halves_of fuel b cont) h λ rest p.
      and_then-Ends (unwrap fuel b (cont / 2) rest)
        (λ b' rest'. unwrap fuel b' (cont - cont / 2) rest')
        (unwrap-Ends fuel b (cont / 2) rest h (omega arith))
        (λ b' rest' h'. unwrap-Ends fuel b' (cont - cont / 2) rest' h' (omega arith)))

-- The two calls that replace a failed malloc end: `cont` rounds are enough, whatever malloc
-- answers.
pub unwrap-ne-stuck :
    (fuel : ℕ) (b : Buffer) (cont : ℕ) (answers : List Bool)
    → b.readp < b.wrap
    → cont < fuel
    → unwrap fuel b cont answers ≢ stuck
unwrap-ne-stuck fuel b cont answers h f e = rw e at (unwrap-Ends fuel b cont answers h f)
