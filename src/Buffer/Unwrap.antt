-- ===== src/Buffer/Unwrap.antt =====
-- `_buf_unwrap`: moves the held bytes down so that `cont` of them can be read in one piece.
pub mod Moves
pub mod Laws
pub mod Ends
use apple_squeezer.Prelude.{
  ℕ, zero, suc, ◌+◌, ◌-◌, ◌/◌, ◌^◌, ◌≤◌, ◌<◌, ◌≡◌, refl, Bool, true, false, List, [], ◌∷◌, arith,
  min, ltb, leb, if◌then◌else◌, take, drop, ◌||◌, Option, none, some,
}
use apple_squeezer.Buffer.{Buffer}
use apple_squeezer.Buffer.Memory.{blit, transfer}

-- The buffer is already in one piece: it is moved down by `by`.
pub move_down : Buffer → ℕ → Buffer
move_down b by = record b {
  mem = transfer b.mem (b.readp - by) b.readp (b.writep - b.readp);
  readp = b.readp - by;
  writep = b.writep - by;
}

-- The held bytes wrap and the gap before `readp` takes `by` bytes: the tail is moved down, and the
-- first bytes of the head are copied behind it. `len` is `writep - buf`, what the head holds.
pub close_gap : Buffer → ℕ → Buffer
close_gap b by =
    let len = b.writep in
    let lowered = transfer b.mem (b.readp - by) b.readp (b.wrap - b.readp) in
    let joined = transfer lowered (b.wrap - by) 0 (min len by) in
    if ltb by len
    then record b {
      mem = transfer joined 0 by (len - by);
      readp = b.readp - by;
      writep = b.writep - by;
    }
    else record b { mem = joined; readp = b.readp - by; writep = b.writep + (b.size - by) }

-- The same where the tail runs into the last `overlap` bytes of the head, which go through a
-- scratch zone: the moves for `len - by - overlap` at least 0.
pub scratched : Buffer → ℕ → ℕ → Buffer
scratched b by overlap =
    let len = b.writep in
    let scratch = take overlap (drop (b.writep - overlap) b.mem) in
    let lowered = transfer b.mem (b.readp - by) b.readp (b.wrap - b.readp) in
    let joined = transfer lowered (b.wrap - by) 0 by in
    let shifted = transfer joined 0 by (len - by - overlap) in
    record b {
      mem = blit shifted (b.writep - by - overlap) scratch;
      readp = b.readp - by;
      writep = b.writep - by;
    }

-- `none` stands for a `len - by - overlap` below 0: the memmove gets almost 2 ^ 64 bytes.
pub through_scratch : Buffer → ℕ → ℕ → Option Buffer
unfolding scratched
through_scratch b by overlap =
    if ltb b.writep (by + overlap) then none else some (scratched b by overlap)

-- What a call leaves. `overrun` is the memmove of `through_scratch` that leaves the storage;
-- `stuck` means that the fuel ran out.
pub data Unwrapped : Type 0 where
  done : Buffer → List Bool → Unwrapped
  overrun stuck : Unwrapped

abbrev pub and_then : Unwrapped → (Buffer → List Bool → Unwrapped) → Unwrapped
and_then (done b answers) f = f b answers
and_then overrun f = overrun
and_then stuck f = stuck

-- The call with its scratch zone allocated.
abbrev pub with_scratch : Buffer → ℕ → List Bool → Unwrapped
with_scratch b by answers = elim (through_scratch b by (by - (b.readp - b.writep))) [
  | none ↦ overrun
  | some b' ↦ done b' answers
]

-- The call with the malloc of a scratch zone, which takes its success from the front of
-- `answers` and succeeds when the list is empty; `halves` is what it does where malloc fails.
abbrev pub scratch_or : Buffer → ℕ → List Bool → (List Bool → Unwrapped) → Unwrapped
scratch_or b by [] halves = with_scratch b by []
scratch_or b by (true ∷ rest) halves = with_scratch b by rest
scratch_or b by (false ∷ rest) halves = halves rest

-- One call of `_buf_unwrap`, up to its two calls of itself.
pub attempt : Buffer → ℕ → List Bool → (List Bool → Unwrapped) → Unwrapped
unfolding move_down close_gap through_scratch
attempt b cont answers halves =
    let by = cont - (b.wrap - b.readp) in
    if leb cont (b.wrap - b.readp) || leb b.size cont
    then done b answers
    else if leb b.readp b.writep
    then done (move_down b by) answers
    else if leb by (b.readp - b.writep)
    then done (close_gap b by) answers
    else scratch_or b by answers halves

-- `_buf_unwrap`: where malloc fails, the two halves of `cont` are tried.
unfoldable pub unwrap : ℕ → Buffer → ℕ → List Bool → Unwrapped
unfolding attempt
unwrap zero b cont answers = stuck
unwrap (suc fuel) b cont answers = attempt b cont answers λ rest.
    and_then (unwrap fuel b (cont / 2) rest) (λ b' rest'. unwrap fuel b' (cont - cont / 2) rest')
