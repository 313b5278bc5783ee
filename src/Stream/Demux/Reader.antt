-- ===== src/Stream/Demux/Reader.antt =====
-- The reader that takes one byte at a time.
use apple_squeezer.Prelude.{
  ℕ, suc, ◌-◌, ◌*◌, ◌≤◌, ◌<◌, ◌≡◌, ◌∙◌, ◌⊎◌, refl, sym, ap, ap₂, Bool, true, false, ◌||◌, not, List,
  [], ◌∷◌, ◌++◌, length, append-nil, append_assoc, ◌==◌, if◌then◌else◌, arith,
}
use apple_squeezer.Buffer.{Buffer}
use apple_squeezer.Buffer.Queue.{contents}
use apple_squeezer.Stream.{Stream, Recv, failed, would_block, received}

-- The reader's state: the stream's four variables, and the audio so far.
pub record Reader : Type 0 where
  pub next : ℕ
  pub left : ℕ
  pub text : List ℕ
  pub send : Bool
  pub audio : List ℕ

-- One byte of the wire: audio up to the interval, then 16 times the length of the text, then the
-- text, which is sent on where it is complete.
unfoldable pub take_byte : ℕ → ℕ → Reader → Reader
take_byte interval c r =
    if interval == 0 || not (r.next == 0)
    then record r {
      next = (if interval == 0 then r.next else r.next - 1);
      audio = r.audio ++ (c ∷ []);
    }
    else if r.left == 0
    then record r { left = 16 * c; text = []; next = if c == 0 then interval else 0 }
    else record r {
      left = r.left - 1;
      text = r.text ++ (c ∷ []);
      send = r.left == 1 || r.send;
      next = if r.left == 1 then interval else 0;
    }

unfoldable pub take_all : ℕ → List ℕ → Reader → Reader
unfolding take_byte
take_all interval [] r = r
take_all interval (c ∷ cs) r = take_all interval cs (take_byte interval c r)

-- What the thread's variables and the buffer hold, as a reader.
abbrev pub reader : Stream → Buffer → Reader
reader s b = record {
  next = s.meta_next;
  left = s.meta_left;
  text = s.header;
  send = s.meta_send;
  audio = contents b;
}

pub take_all-append :
    (interval : ℕ) (xs ys : List ℕ) (r : Reader)
    → take_all interval (xs ++ ys) r ≡ take_all interval ys (take_all interval xs r)
unfolding take_all
take_all-append interval [] ys r = refl
take_all-append interval (x ∷ xs) ys r = take_all-append interval xs ys (take_byte interval x r)

-- Audio behind a reader, and `n` bytes of it taken off the interval.
abbrev pub after_audio : ℕ → List ℕ → Reader → Reader
after_audio interval xs r = record r {
  next = if interval == 0 then r.next else r.next - length xs;
  audio = r.audio ++ xs;
}

pub take_byte-audio :
    (interval c : ℕ) (r : Reader)
    → (interval == 0 || not (r.next == 0)) ≡ true
    → take_byte interval c r ≡ after_audio interval (c ∷ []) r
unfolding take_byte
take_byte-audio interval c r t = rw t refl

-- A piece of audio.
pub take_all-audio :
    (interval : ℕ) (xs : List ℕ) (r : Reader)
    → (interval ≡ 0) ⊎ (length xs ≤ r.next)
    → take_all interval xs r ≡ after_audio interval xs r
unfolding take_all
take_all-audio interval [] r h =
    let e : r.next ≡ (if interval == 0 then r.next else r.next - 0) = ground arith in
    ap₂ (λ n a. record r { next = n; audio = a }) e (sym (append-nil r.audio))
take_all-audio interval (x ∷ xs) r h =
    let t : (interval == 0 || not (r.next == 0)) ≡ true = ground (arith, h) in
    let r' : Reader = after_audio interval (x ∷ []) r in
    let h' : (interval ≡ 0) ⊎ (length xs ≤ r'.next) = ground (arith, h) in
    let e : (if interval == 0 then r'.next else r'.next - length xs)
        ≡ (if interval == 0 then r.next else r.next - suc (length xs)) =
      ground arith in
    ap (take_all interval xs) (take_byte-audio interval x r t)
    ∙ take_all-audio interval xs r' h'
    ∙ ap₂ (λ n a. record r { next = n; audio = a }) e (append_assoc r.audio (x ∷ []) xs)

-- The text behind a reader.
abbrev pub after_text : ℕ → List ℕ → Reader → Reader
after_text interval xs r = record r {
  left = r.left - length xs;
  text = r.text ++ xs;
  send = r.left == length xs || r.send;
  next = if r.left == length xs then interval else 0;
}

pub take_byte-text :
    (interval c : ℕ) (r : Reader)
    → 0 < interval
    → r.next ≡ 0
    → 0 < r.left
    → take_byte interval c r ≡ after_text interval (c ∷ []) r
unfolding take_byte
take_byte-text interval c r p n l =
    let t : (interval == 0 || not (r.next == 0)) ≡ false = ground (arith, p, n) in
    let t' : (r.left == 0) ≡ false = ground (arith, l) in rw (t, t') refl

-- A piece of a text.
pub take_all-text :
    (interval x : ℕ) (xs : List ℕ) (r : Reader)
    → 0 < interval
    → r.next ≡ 0
    → suc (length xs) ≤ r.left
    → take_all interval (x ∷ xs) r ≡ after_text interval (x ∷ xs) r
unfolding take_all
take_all-text interval x [] r p n h = take_byte-text interval x r p n (omega arith)
take_all-text interval x (y ∷ ys) r p n h =
    let r' : Reader = after_text interval (x ∷ []) r in
    let more : (r.left == 1) ≡ false = ground (arith, h) in
    let n' : r'.next ≡ 0 = rw more refl in
    let count : (r.left - 1 == suc (length ys)) ≡ (r.left == suc (suc (length ys))) =
      ground (arith, h) in
    ap (take_all interval (y ∷ ys)) (take_byte-text interval x r p n (omega arith))
    ∙ take_all-text interval y ys r' p n' (omega arith)
    ∙ ap₂
        (λ e l. record r' {
          next = (if e then interval else 0);
          left = l;
          text = r'.text ++ (y ∷ ys);
          send = e || r'.send;
        })
        count (omega arith)
    ∙ ap₂
        (λ t e. record r {
          next = if r.left == suc (suc (length ys)) then interval else 0;
          left = r.left - suc (suc (length ys));
          text = t;
          send = r.left == suc (suc (length ys)) || (e || r.send);
        })
        (append_assoc r.text (x ∷ []) (y ∷ ys)) more

-- The bytes that the socket gave in a round.
abbrev pub bytes_of : Recv → List ℕ
bytes_of failed = []
bytes_of would_block = []
bytes_of (received xs) = xs

-- Those of a round of metadata: behind a length of 0 nothing more is read.
abbrev pub text_wire : (ℕ → Recv) → ℕ → List ℕ
text_wire many left = if left == 0 then [] else bytes_of (many left)

unfoldable pub length_wire : Recv → (ℕ → Recv) → List ℕ
length_wire failed many = []
length_wire would_block many = []
length_wire (received []) many = []
length_wire (received (c ∷ xs)) many = c ∷ text_wire many (16 * c)

-- An answer is no longer than what was asked for.
abbrev pub IsWithin : ℕ → Recv → Type 0
IsWithin n failed = Unit
IsWithin n would_block = Unit
IsWithin n (received xs) = length xs ≤ n
