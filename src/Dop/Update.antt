-- ===== src/Dop/Update.antt =====
-- What `update_dop` writes.
use apple_squeezer.Prelude.{
  ℕ, zero, suc, ◌+◌, ◌-◌, ◌*◌, ◌/◌, ◌%◌, ◌^◌, ◌<◌, ◌++◌, ◌≡◌, ◌⊎◌, refl, sym, ap, Bool, true, false,
  List, [], ◌∷◌, arith, if◌then◌else◌, u32, sub32, and_mask, or_sum_low, length,
}
use apple_squeezer.Dop.{Markers, mark, update_dop}

-- The two halves of a 32-bit sample that `update_dop` tells apart.
abbrev pub marker_of : ℕ → ℕ
marker_of w = w / 2 ^ 24

abbrev pub payload_of : ℕ → ℕ
payload_of w = w / 2 ^ 8 % 2 ^ 16

abbrev pub IsMarker : ℕ → Type 0
IsMarker m = (m ≡ 0x05) ⊎ (m ≡ 0xFA)

abbrev pub flipped : Bool → ℕ → ℕ
flipped invert p = if invert then 2 ^ 16 - 1 - p else p

mark_sum :
    (invert : Bool) (m w : ℕ)
    → m < 2 ^ 8
    → w < 2 ^ 32
    → mark invert m w ≡ m * 2 ^ 24 + flipped invert (payload_of w) * 2 ^ 8
unfolding mark
mark_sum true m w h k =
    let e : u32 (m * 2 ^ 24) ≡ m * 2 ^ 24 = omega arith in
    let e' : (2 ^ 32 - 1 - w) / 2 ^ 8 % 2 ^ 16 ≡ 2 ^ 16 - 1 - payload_of w = omega arith in
    rw (and_mask 8 16 (2 ^ 32 - 1 - w), e, e')
      (or_sum_low 24 m ((2 ^ 16 - 1 - payload_of w) * 2 ^ 8) (omega arith))
mark_sum false m w h k =
    let e : u32 (m * 2 ^ 24) ≡ m * 2 ^ 24 = omega arith in
    rw (and_mask 8 16 w, e) (or_sum_low 24 m (payload_of w * 2 ^ 8) (omega arith))

-- A marked sample has the marker on top, the 16 bits of DSD below it (inverted when asked), and
-- nothing in the lowest byte.
pub mark_lem :
    (invert : Bool) (m w : ℕ)
    → m < 2 ^ 8
    → w < 2 ^ 32
    → (marker_of (mark invert m w) ≡ m)
      × (payload_of (mark invert m w) ≡ flipped invert (payload_of w))
      × (mark invert m w % 2 ^ 8 ≡ 0)
mark_lem true m w h k = ground (arith, mark_sum true m w h k)
mark_lem false m w h k = ground (arith, mark_sum false m w h k)

abbrev pub other : ℕ → ℕ
other m = 0x05 + 0xFA - m

pub other-IsMarker :
    (m : ℕ)
    → IsMarker m
    → IsMarker (other m) × (sub32 (0x05 + 0xFA) m ≡ other m) × (other (other m) ≡ m)
other-IsMarker m h = ground arith

-- The markers of the frames that `update_dop` leaves, and those that are due from `m` on.
unfoldable pub markers_of : List (ℕ × ℕ) → List Markers
markers_of [] = []
markers_of ((l, r) ∷ fs) = record { left = marker_of l; right = marker_of r } ∷ markers_of fs

unfoldable pub due : ℕ → ℕ → List Markers
due zero m = []
due (suc n) m = record { left = m; right = m } ∷ due n (other m)

abbrev pub AllWords : List (ℕ × ℕ) → Type 0
AllWords [] = Unit
AllWords ((l, r) ∷ fs) = (l < 2 ^ 32) × (r < 2 ^ 32) × AllWords fs

pub payloads : List (ℕ × ℕ) → List (ℕ × ℕ)
payloads [] = []
payloads ((l, r) ∷ fs) = (payload_of l, payload_of r) ∷ payloads fs

pub flip_all : Bool → List (ℕ × ℕ) → List (ℕ × ℕ)
flip_all invert [] = []
flip_all invert ((l, r) ∷ fs) = (flipped invert l, flipped invert r) ∷ flip_all invert fs

abbrev pub marker_after : ℕ → ℕ → ℕ
marker_after zero m = m
marker_after (suc n) m = marker_after n (other m)

-- `update_dop` alternates the markers from the one it holds, in both channels, keeps or inverts
-- the DSD bits, and holds the next marker when it is done.
pub update_dop_lem :
    (invert : Bool) (m : ℕ) (fs : List (ℕ × ℕ))
    → IsMarker m
    → AllWords fs
    → (markers_of (update_dop invert m fs).0 ≡ due (length fs) m)
      × (payloads (update_dop invert m fs).0 ≡ flip_all invert (payloads fs))
      × ((update_dop invert m fs).1 ≡ marker_after (length fs) m)
unfolding update_dop markers_of due payloads flip_all
update_dop_lem invert m [] h a = (refl, refl, refl)
update_dop_lem invert m ((l, r) ∷ fs) h (hl, hr, a) = ground (
  arith,
  other-IsMarker m h,
  mark_lem invert m l (omega arith) hl,
  mark_lem invert m r (omega arith) hr,
  update_dop_lem invert (other m) fs (other-IsMarker m h).0 a,
)

due-append : (n k m : ℕ) → due (n + k) m ≡ due n m ++ due k (marker_after n m)
unfolding due
due-append zero k m = ap (λ i. due i m) (omega arith)
due-append (suc n) k m =
    let e : suc n + k ≡ suc (n + k) = omega arith in
    rw e (ap (λ t. record { left = m; right = m } ∷ t) (due-append n k (other m)))

marker_after-IsMarker : (n m : ℕ) → IsMarker m → IsMarker (marker_after n m)
marker_after-IsMarker zero m h = h
marker_after-IsMarker (suc n) m h = marker_after-IsMarker n (other m) (other-IsMarker m h).0

-- The marker phase runs on from one call to the next, whatever polarity each call has.
pub update_dop_phase :
    (i j : Bool) (m : ℕ) (fs gs : List (ℕ × ℕ))
    → IsMarker m
    → AllWords fs
    → AllWords gs
    → markers_of (update_dop i m fs).0 ++ markers_of (update_dop j (update_dop i m fs).1 gs).0
      ≡ due (length fs + length gs) m
update_dop_phase i j m fs gs h a b =
    let first = update_dop_lem i m fs h a in
    let second =
      update_dop_lem j (marker_after (length fs) m) gs (marker_after-IsMarker (length fs) m h) b in
    rw (first.2, first.0, second.0) (sym (due-append (length fs) (length gs) m))
