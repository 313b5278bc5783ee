-- ===== src/Pcm/Decode/Input.antt =====
-- What `pcm_decode` reads is what the stream buffer holds, also where a frame goes round the end.
use apple_squeezer.Prelude.{
  ℕ, zero, suc, ◌+◌, ◌-◌, ◌*◌, ◌/◌, ◌%◌, ◌≤◌, ◌<◌, ◌≡◌, refl, sym, ap, ◌∙◌, true, List, [], ◌∷◌,
  ◌++◌, take, drop, length, length-take, length-drop, subst, get_or, if◌then◌else◌, arith,
  Bool-cases, inl, inr,
}
use native.Mathlib.Nat.{mod-eq_of_lt, div-mul-le_self, lt-mul-div-succ}
use native.Mathlib.Decide.{dec_lt}
use apple_squeezer.Buffer.{Buffer, used}
use apple_squeezer.Buffer.Memory.{get_or-drop, get_or-take}
use apple_squeezer.Buffer.Inv.{IsValid, measures, parted}
use apple_squeezer.Buffer.Queue.{window, contents, mod_cases}
use apple_squeezer.Pcm.Decode.{goes_round, input, whole_frames, readable}

pub get_or-window :
    (mem : List ℕ) (size from n k : ℕ)
    → k < n
    → get_or (window mem size from n) k 0 ≡ get_or mem ((from + k) % size) 0
get_or-window mem size from zero k h = absurd (omega arith)
get_or-window mem size from (suc n) zero h = ap (λ i. get_or mem (i % size) 0) (omega arith)
get_or-window mem size from (suc n) (suc k) h =
    let e : from + suc k ≡ from + 1 + k = omega arith in
    rw e (get_or-window mem size (from + 1) n k (omega arith))

pub get_or-append :
    (xs ys : List ℕ) (k : ℕ)
    → (k < length xs → get_or (xs ++ ys) k 0 ≡ get_or xs k 0)
      × (length xs ≤ k → get_or (xs ++ ys) k 0 ≡ get_or ys (k - length xs) 0)
get_or-append [] ys k = (λ h. absurd (omega arith), λ h. ap (λ i. get_or ys i 0) (omega arith))
get_or-append (x ∷ xs) ys zero = (λ h. refl, λ h. absurd (omega arith))
get_or-append (x ∷ xs) ys (suc k) =
    let rest = get_or-append xs ys k in
    (λ h. rest.0 (omega arith), λ h. rest.1 (omega arith) ∙ ap (λ i. get_or ys i 0) (omega arith))

-- Reading on from `readp` agrees with the contents up to the end of the storage.
pub straight :
    {b : Buffer} (k : ℕ)
    → IsValid b
    → k < readable b
    → get_or (drop b.readp b.mem) k 0 ≡ get_or (contents b) k 0
straight {b} k v h =
    let m = measures v in
    get_or-drop b.readp b.mem k
    ∙ sym (
        get_or-window b.mem b.size b.readp (used b) k (omega arith)
        ∙ ap (λ i. get_or b.mem i 0)
            (mod-eq_of_lt {n = b.readp + k} {m = b.size} (omega (arith, m))))

pub length-tail :
    {b : Buffer} → IsValid b → length (take (readable b) (drop b.readp b.mem)) ≡ readable b
length-tail {b} v = omega (
  arith,
  measures v,
  v.stored,
  v.within,
  length-take (readable b) (drop b.readp b.mem),
  length-drop b.readp b.mem,
)

round_at :
    {b : Buffer} (frame k : ℕ)
    → IsValid b
    → frame ≤ used b
    → readable b ≤ k
    → k < frame
    → (b.readp + k) % b.size ≡ k - readable b
round_at {b} frame k v hu h h' =
    let m = measures v in
    ground (
      arith,
      m,
      v.read_in,
      parted v (omega (arith, m)),
      mod_cases (b.readp + k) b.size (omega (arith, m, v.read_in)),
    )

-- The bytes of a frame that goes round the end.
pub round_end :
    {b : Buffer} (frame k : ℕ)
    → IsValid b
    → readable b < frame
    → frame ≤ used b
    → k < frame
    → get_or (take (readable b) (drop b.readp b.mem) ++ take (frame - readable b) b.mem) k 0
      ≡ get_or (contents b) k 0
round_end {b} frame k v hr hu h =
    let tail = take (readable b) (drop b.readp b.mem) in
    let parts = get_or-append tail (take (frame - readable b) b.mem) k in
    let n = length-tail v in
    let part = parted v (omega arith) in
    elim (dec_lt k (readable b)) [
      | yes p ↦
          parts.0 (omega (arith, n))
          ∙ get_or-take (readable b) (drop b.readp b.mem) k p
          ∙ straight k v p
      | no p ↦
          parts.1 (omega (arith, n))
          ∙ get_or-take (frame - readable b) b.mem (k - length tail) (omega (arith, n))
          ∙ ap (λ i. get_or b.mem i 0)
              (omega (arith, n) ∙ sym (round_at frame k v hu (omega (arith, p)) h))
          ∙ sym (get_or-window b.mem b.size b.readp (used b) k (omega arith))
    ]

-- Within the whole frames the input is what the buffer holds.
pub input-contents :
    {b : Buffer} (frame k : ℕ)
    → IsValid b
    → 0 < frame
    → k < whole_frames (readable b) frame b * frame
    → get_or (input (readable b) frame b) k 0 ≡ get_or (contents b) k 0
input-contents {b} frame k v hf h =
    let short : goes_round (readable b) frame b ≡ true → readable b < frame = λ e.
      let z : readable b / frame ≡ 0 = ground (arith, e) in
      let l : readable b < frame * (readable b / frame + 1) = lt-mul-div-succ (readable b) hf in
      let one : frame * (0 + 1) ≡ frame = omega arith in
      subst (λ t. readable b < t) one (subst (λ q. readable b < frame * (q + 1)) z l) in
    elim (Bool-cases (goes_round (readable b) frame b)) [
      | inl e ↦
          let h' : k < 1 * frame =
            subst (λ c. k < (if c then 1 else readable b / frame) * frame) e h in
          rw e (round_end frame k v (short e) (ground (arith, e)) (omega (arith, h')))
      | inr e ↦
          let h' : k < readable b / frame * frame =
            subst (λ c. k < (if c then 1 else readable b / frame) * frame) e h in
          rw e (straight k v (omega (arith, h', div-mul-le_self (readable b) frame)))
    ]
