-- ===== src/Dop/Detect.antt =====
-- What `is_stream_dop` accepts.
use apple_squeezer.Prelude.{
  ℕ, zero, suc, ◌+◌, ◌-◌, ◌≤◌, ◌<◌, ◌≡◌, ◌≢◌, ◌↔◌, sym, ap, ◌∙◌, Bool, true, List, [], ◌∷◌, ◌++◌,
  arith, ◌==◌, if◌then◌else◌, length, append-nil, subst,
}
use native.Mathlib.Decide.{ℕ_discrete}
use apple_squeezer.Dop.{Markers, marks, scan, is_stream_dop, update_dop}
use apple_squeezer.Dop.Update.{
  IsMarker, other, other-IsMarker, due, markers_of, AllWords, update_dop_lem,
}

abbrev pub AllMarked : List Markers → Type 0
AllMarked [] = Unit
AllMarked (m ∷ ms) = (marks m ≡ true) × AllMarked ms

-- 32 frames with alternating markers, after frames that all bear some marker.
pub record HasRun (ms : List Markers) : Type 0 where
  pub before : List Markers
  pub marker : ℕ
  pub after : List Markers
  pub splits : ms ≡ before ++ (due 32 marker ++ after)
  pub valid : IsMarker marker
  pub marked : AllMarked before

marks_sound : (m : Markers) → marks m ≡ true → IsMarker m.left × (m.right ≡ m.left)
marks_sound m h = ground arith

-- A marked frame, by whether it bears the marker that is due.
scan_due :
    (m : Markers) (ms : List Markers) (matched : ℕ)
    → marks m ≡ true
    → scan (m ∷ ms) m.left matched
      ≡ (if matched + 1 == 32 then true else scan ms (other m.left) (matched + 1))
unfolding scan
scan_due m ms matched h = ground (arith, (other-IsMarker m.left (marks_sound m h).0).1)

scan-other :
    (m : Markers) (ms : List Markers) (next matched : ℕ)
    → marks m ≡ true
    → m.left ≢ next
    → scan (m ∷ ms) next matched ≡ scan ms (other m.left) 1
unfolding scan
scan-other m ms next matched h ne = ground (arith, (other-IsMarker m.left (marks_sound m h).0).1)

scan_unmarked :
    (m : Markers) (ms : List Markers) (next matched : ℕ)
    → scan (m ∷ ms) next matched ≡ true
    → marks m ≡ true
unfolding scan
scan_unmarked m ms next matched h = ground arith

-- A run that is due to go on, `matched` frames of it being over.
scan_run :
    (k m matched : ℕ) (rest : List Markers)
    → IsMarker m
    → matched < 32
    → 32 ≤ matched + k
    → scan (due k m ++ rest) m matched ≡ true
unfolding due
scan_run zero m matched rest v p q = absurd (omega arith)
scan_run (suc k) m matched rest v p q =
    let frame : Markers = record { left = m; right = m } in
    rw (scan_due frame (due k (other m) ++ rest) matched (ground arith))
      (ground (arith, scan_run k (other m) (matched + 1) rest (other-IsMarker m v).0))

scan_found :
    (before : List Markers) (m : ℕ) (after : List Markers) (next matched : ℕ)
    → IsMarker m
    → AllMarked before
    → matched < 32
    → scan (before ++ (due 32 m ++ after)) next matched ≡ true
scan_found [] m after next matched v a p = elim (ℕ_discrete m next) [
  | yes e ↦ rw (← e) (scan_run 32 m matched after v p (omega arith))
  | no ne ↦
      let frame : Markers = record { left = m; right = m } in
      unfold due in
      (scan-other frame (due 31 (other m) ++ after) next matched (ground arith) ne
        ∙ scan_run 31 (other m) 1 after (other-IsMarker m v).0 (omega arith) (omega arith))
]
scan_found (f ∷ before) m after next matched v (marked, a) p = elim (ℕ_discrete f.left next) [
  | yes e ↦
      rw (← e, scan_due f (before ++ (due 32 m ++ after)) matched marked)
        (ground (arith, scan_found before m after (other f.left) (matched + 1) v a))
  | no ne ↦
      scan-other f (before ++ (due 32 m ++ after)) next matched marked ne
      ∙ scan_found before m after (other f.left) 1 v a (omega arith)
]

still :
    (f : Markers) (ms : List Markers) (left : ℕ)
    → suc left < 32
    → (if 31 - suc left + 1 == 32 then true else scan ms (other f.left) (31 - suc left + 1)) ≡ true
    → scan ms (other f.left) (31 - left) ≡ true
still f ms left p h =
    let e : 31 - suc left + 1 ≡ 31 - left = omega arith in
    let h' : (if 31 - left == 32 then true else scan ms (other f.left) (31 - left)) ≡ true =
      subst (λ n. (if n == 32 then true else scan ms (other f.left) n) ≡ true) e h in
    ground arith

-- How a scan that accepts came to it: by the run that it was in, or by a later one.
data Accepts (ms : List Markers) (next left : ℕ) : Type 0 where
  goes_on : (after : List Markers) → ms ≡ due left next ++ after → Accepts ms next left
  later : HasRun ms → Accepts ms next left

HasRun-cons : (f : Markers) {ms : List Markers} → marks f ≡ true → HasRun ms → HasRun (f ∷ ms)
HasRun-cons f h r = record {
  before = f ∷ r.before;
  marker = r.marker;
  after = r.after;
  splits = ap (λ t. f ∷ t) r.splits;
  valid = r.valid;
  marked = (h, r.marked);
}

due-cons :
    (f : Markers) (k : ℕ) (after : List Markers)
    → f.right ≡ f.left
    → f ∷ (due k (other f.left) ++ after) ≡ due (suc k) f.left ++ after
unfolding due
due-cons f k after e = ground arith

starts_run :
    (f : Markers) {ms : List Markers}
    → marks f ≡ true
    → Accepts ms (other f.left) 31
    → HasRun (f ∷ ms)
starts_run f h (goes_on after e) = record {
  before = [];
  marker = f.left;
  after = after;
  splits = ap (λ t. f ∷ t) e ∙ due-cons f 31 after (marks_sound f h).1;
  valid = (marks_sound f h).0;
  marked = tt;
}
starts_run f h (later r) = HasRun-cons f h r

goes_on_by :
    (f : Markers) {ms : List Markers} (left : ℕ)
    → marks f ≡ true
    → Accepts ms (other f.left) left
    → Accepts (f ∷ ms) f.left (suc left)
goes_on_by f left h (goes_on after e) =
    goes_on after (ap (λ t. f ∷ t) e ∙ due-cons f left after (marks_sound f h).1)
goes_on_by f left h (later r) = later (HasRun-cons f h r)

scan-Accepts :
    (ms : List Markers) (next left : ℕ)
    → left < 32
    → scan ms next (31 - left) ≡ true
    → Accepts ms next (suc left)
scan-Accepts [] next left p h = unfold scan in cc
scan-Accepts (f ∷ ms) next zero p h =
    let marked = scan_unmarked f ms next 31 h in
    elim (ℕ_discrete f.left next) [
      | yes e ↦ rw (← e) (goes_on ms (unfold due in (due-cons f 0 ms (marks_sound f marked).1)))
      | no ne ↦ later (
          starts_run f marked (
            scan-Accepts ms (other f.left) 30 (omega arith)
              (sym (scan-other f ms next 31 marked ne) ∙ h)))
    ]
scan-Accepts (f ∷ ms) next (suc left) p h =
    let marked = scan_unmarked f ms next (31 - suc left) h in
    elim (ℕ_discrete f.left next) [
      | yes e ↦
          let same : scan (f ∷ ms) f.left (31 - suc left) ≡ true =
            subst (λ n. scan (f ∷ ms) n (31 - suc left) ≡ true) (sym e) h in
          let more : scan ms (other f.left) (31 - left) ≡ true =
            still f ms left p (sym (scan_due f ms (31 - suc left) marked) ∙ same) in
          rw (← e) (
            goes_on_by f (suc left) marked (scan-Accepts ms (other f.left) left (omega arith) more))
      | no ne ↦ later (
          starts_run f marked (
            scan-Accepts ms (other f.left) 30 (omega arith)
              (sym (scan-other f ms next (31 - suc left) marked ne) ∙ h)))
    ]

-- `is_stream_dop` accepts a stream exactly if 32 of its frames, after none but marked frames, bear
-- alternating markers in both channels.
pub is_stream_dop_iff : (ms : List Markers) → (is_stream_dop ms ≡ true) ↔ HasRun ms
unfolding is_stream_dop
is_stream_dop_iff ms = (to_run ms, from_run)
  where
    from_run : HasRun ms → scan ms 0 0 ≡ true
    from_run r =
        rw r.splits (scan_found r.before r.marker r.after 0 0 r.valid r.marked (omega arith))

    to_run : (ms : List Markers) → scan ms 0 0 ≡ true → HasRun ms
    to_run [] h = unfold scan in cc
    to_run (f ∷ ms) h =
        let marked = scan_unmarked f ms 0 0 h in
        starts_run f marked (
          scan-Accepts ms (other f.left) 30 (omega arith)
            (sym (scan-other f ms 0 0 marked (omega (arith, (marks_sound f marked).0))) ∙ h))

-- What `update_dop` writes is detected, as soon as it is 32 frames or more.
pub update_dop_detected :
    (invert : Bool) (m : ℕ) (fs : List (ℕ × ℕ))
    → IsMarker m
    → AllWords fs
    → 32 ≤ length fs
    → is_stream_dop (markers_of (update_dop invert m fs).0) ≡ true
unfolding is_stream_dop
update_dop_detected invert m fs v a p =
    rw (update_dop_lem invert m fs v a).0 (first_frame (length fs) m v p)
  where
    first_frame : (n m : ℕ) → IsMarker m → 32 ≤ n → scan (due n m) 0 0 ≡ true
    first_frame zero m v p = absurd (omega arith)
    first_frame (suc n) m v p =
        let frame : Markers = record { left = m; right = m } in
        unfold due in
        (scan-other frame (due n (other m)) 0 0 (ground arith) (omega arith)
          ∙ rw (← append-nil (due n (other m)))
              (scan_run n (other m) 1 [] (other-IsMarker m v).0 (omega arith) (omega arith)))
