-- ===== src/Slimproto/Framing.antt =====
-- slimproto.c: the packets that `slimproto_run` processes are those that the server framed.
use apple_squeezer.Prelude.{
  ℕ, suc, ◌+◌, ◌-◌, ◌*◌, ◌/◌, ◌^◌, ◌≤◌, ◌<◌, ◌≡◌, ◌∙◌, ◌⊎◌, inl, inr, refl, sym, ap, subst, false,
  ◌||◌, List, [], ◌∷◌, ◌++◌, length, length-append, append-nil, append_assoc, Option, none, some,
  u8, IsBytes, IsBytes-append, arith, ◌==◌, ltb, if◌then◌else◌, Bool-cases,
}
use apple_squeezer.Network.{unpack_u16}
use apple_squeezer.Network.Laws.{unpack_u16_sum}
use apple_squeezer.Stream.{Recv, failed, would_block, received}
use apple_squeezer.Stream.Demux.Reader.{bytes_of, IsWithin}
use apple_squeezer.Slimproto.Receive.{
  maxbuf, Receiver, Receipt, waits, packet, stops, wanted, read_length, read_packet, receive,
  receive_all, packets, left,
}

-- A packet as the server sends it: its length in two bytes, then its bytes.
pub encode : List ℕ → List ℕ
encode p = u8 (length p / 2 ^ 8) ∷ u8 (length p) ∷ p

pub encode_all : List (List ℕ) → List ℕ
unfolding encode
encode_all [] = []
encode_all (p ∷ ps) = encode p ++ encode_all ps

-- What a receiver has of the next packet.
abbrev pub partial : Receiver → List ℕ
partial r =
    if r.expect == 0
    then r.got
    else u8 ((r.expect + length r.got) / 2 ^ 8) ∷ u8 (r.expect + length r.got) ∷ r.got

-- A packet whose length is allowed.
abbrev pub IsFramed : ℕ → Type 0
IsFramed n = (4 ≤ n) × (n ≤ maxbuf)

pub record IsReceiving (r : Receiver) : Type 0 where
  pub of_length : (0 < r.expect) ⊎ (length r.got ≤ 1)
  pub framed : (r.expect ≡ 0) ⊎ IsFramed (r.expect + length r.got)
  pub are_bytes : IsBytes r.got

-- What a read may lead to, when the bytes are those of the partial packet.
Receives : Receipt → List ℕ → Type 0
Receives stops bytes = Unit
Receives (waits r) bytes = (partial r ≡ bytes) × IsReceiving r
Receives (packet p r) bytes = (encode p ++ partial r ≡ bytes) × IsReceiving r × IsFramed (length p)

read_length-Receives :
    (got : List ℕ) → length got ≤ 2 → IsBytes got → Receives (read_length got) got
unfolding read_length Receives
read_length-Receives [] h k =
    (refl, record { of_length = inr (omega arith); framed = inl refl; are_bytes = tt })
read_length-Receives (a ∷ []) h k =
    (refl, record { of_length = inr (omega arith); framed = inl refl; are_bytes = k })
read_length-Receives (a ∷ b ∷ []) h k =
    elim (Bool-cases (ltb (unpack_u16 a b) 4 || ltb maxbuf (unpack_u16 a b))) [
      | inl e ↦ rw e tt
      | inr e ↦
          let n : ℕ = unpack_u16 a b in
          let sum : n ≡ a * 256 + b = unpack_u16_sum a b k.1.0 in
          let bounds : IsFramed n = ground (arith, e) in
          let some_left : (n == 0) ≡ false = ground (arith, e) in
          let high : u8 ((n + 0) / 2 ^ 8) ≡ a = omega (arith, sum, bounds.1, k.1.0) in
          let low : u8 (n + 0) ≡ b = omega (arith, sum, k.1.0) in
          rw e (
            rw (some_left, high, low) refl,
            record {
              of_length = inl (ground (arith, e));
              framed = inr (ground (arith, e));
              are_bytes = tt;
            },
          )
    ]
read_length-Receives (a ∷ b ∷ c ∷ xs) h k = absurd (omega arith)

read_packet-Receives :
    (expect : ℕ) (got : List ℕ)
    → IsFramed (expect + length got)
    → IsBytes got
    → Receives
        (read_packet expect got)
        (u8 ((expect + length got) / 2 ^ 8) ∷ u8 (expect + length got) ∷ got)
unfolding read_packet Receives encode
read_packet-Receives expect got h k = elim (Bool-cases (expect == 0)) [
  | inl e ↦
      let none_left : expect + length got ≡ length got = ground (arith, e) in
      rw (e, none_left)
        (
          append-nil (encode got),
          record { of_length = inr (omega arith); framed = inl refl; are_bytes = tt },
          (omega (arith, h, none_left), omega (arith, h, none_left)),
        )
  | inr e ↦
      rw e
        (rw e refl, record { of_length = inl (ground (arith, e)); framed = inr h; are_bytes = k })
]

-- A read, when no more was answered than was wanted.
receive-Receives :
    (a : Recv) (r : Receiver)
    → IsReceiving r
    → IsWithin (wanted r) a
    → IsBytes (bytes_of a)
    → Receives (receive a r) (partial r ++ bytes_of a)
unfolding receive Receives
receive-Receives failed r v w k = tt
receive-Receives would_block r v w k = (sym (append-nil (partial r)), v)
receive-Receives (received []) r v w k = tt
receive-Receives (received (x ∷ xs)) r v w k = elim (Bool-cases (r.expect == 0)) [
  | inl e ↦
      let short : length (r.got ++ (x ∷ xs)) ≤ 2 =
        ground (arith, e, w, v.of_length, length-append r.got (x ∷ xs)) in
      rw e (
        read_length-Receives (r.got ++ (x ∷ xs)) short
          (IsBytes-append r.got (x ∷ xs) v.are_bytes k))
  | inr e ↦
      let n : ℕ = suc (length xs) in
      let total : r.expect - n + length (r.got ++ (x ∷ xs)) ≡ r.expect + length r.got =
        ground (arith, e, w, length-append r.got (x ∷ xs)) in
      let allowed : IsFramed (r.expect + length r.got) = allowed_in e v.framed in
      rw e (
        subst
          (λ t.
            Receives (read_packet (r.expect - n) (r.got ++ (x ∷ xs)))
              (u8 (t / 2 ^ 8) ∷ u8 t ∷ (r.got ++ (x ∷ xs))))
          total
          (read_packet-Receives (r.expect - n) (r.got ++ (x ∷ xs))
            (subst IsFramed (sym total) allowed) (IsBytes-append r.got (x ∷ xs) v.are_bytes k)))
]
  where
    allowed_in :
        (r.expect == 0) ≡ false
        → (r.expect ≡ 0) ⊎ IsFramed (r.expect + length r.got)
        → IsFramed (r.expect + length r.got)
    allowed_in e (inl z) = absurd (ground (arith, e, z))
    allowed_in e (inr f) = f

-- What is received by reads in a row.
unfoldable pub wire : List (ℕ → Recv) → Option Receiver → List ℕ
unfolding receive
wire answers none = []
wire [] (some r) = []
wire (a ∷ answers) (some r) =
    bytes_of (a (wanted r)) ++ wire answers (left (receive (a (wanted r)) r))

-- The answers are bytes, and no more than were wanted.
unfoldable pub AreHonest : List (ℕ → Recv) → Type 0
AreHonest [] = Unit
AreHonest (a ∷ answers) =
    ((n : ℕ) → IsWithin n (a n) × IsBytes (bytes_of (a n))) × AreHonest answers

pub AreFramed : List (List ℕ) → Type 0
AreFramed [] = Unit
AreFramed (p ∷ ps) = IsFramed (length p) × AreFramed ps

-- What is there behind the packets: the partial one, or anything if the connection ended.
pub IsRest : Option Receiver → List ℕ → Type 0
IsRest none rest = Unit
IsRest (some r) rest = (rest ≡ partial r) × IsReceiving r

-- What is right of packets and a receiver for bytes.
abbrev pub IsSplit : List (List ℕ) × Option Receiver → List ℕ → Type 0
IsSplit (ps, end) bytes =
    (rest : List ℕ) × (encode_all ps ++ rest ≡ bytes) × IsRest end rest × AreFramed ps

-- The packets of one read in front of those of the next.
receipt-IsSplit :
    (t : Receipt) (bytes : List ℕ) (more : Option Receiver → List ℕ)
    (next : Option Receiver → List (List ℕ) × Option Receiver)
    → Receives t bytes
    → next none ≡ ([], none)
    → ((r : Receiver) → IsReceiving r → IsSplit (next (some r)) (partial r ++ more (some r)))
    → IsSplit (packets t ++ (next (left t)).0, (next (left t)).1) (bytes ++ more (left t))
unfolding Receives IsRest AreFramed encode_all
receipt-IsSplit stops bytes more next h z f = rw z (bytes ++ more none, refl, tt, tt)
receipt-IsSplit (waits r) bytes more next h z f =
    let (rest, e, k, l) = f r h.1 in (rest, e ∙ ap (λ t. t ++ more (some r)) h.0, k, l)
receipt-IsSplit (packet p r) bytes more next h z f =
    let (rest, e, k, l) = f r h.1 in
    (
      rest,
      append_assoc (encode p) (encode_all (next (some r)).0) rest
          ∙ ap (λ t. encode p ++ t) e
          ∙ sym (append_assoc (encode p) (partial r) (more (some r)))
          ∙ ap (λ t. t ++ more (some r)) h.0,
      k,
      (h.2, l),
    )

-- However the server's bytes arrive, the packets processed, with their lengths in front, and what
-- there is of the next one, are just the bytes that were received; each packet is of an allowed
-- length, between 4 and MAXBUF; and the receiver that is left never has more in its buffer than MAXBUF, where
-- the answers of the socket are bytes, no more than were asked for.
pub receive_all_lem :
    (answers : List (ℕ → Recv)) (r : Receiver)
    → AreHonest answers
    → IsReceiving r
    → IsSplit (receive_all answers (some r)) (partial r ++ wire answers (some r))
unfolding receive_all wire AreHonest IsRest AreFramed encode_all
receive_all_lem [] r h v = (partial r, sym (append-nil (partial r)), (refl, v), tt)
receive_all_lem (a ∷ answers) r h v =
    let t : Receipt = receive (a (wanted r)) r in
    let honest = h.0 (wanted r) in
    let split =
      receipt-IsSplit t (partial r ++ bytes_of (a (wanted r))) (wire answers) (receive_all answers)
        (receive-Receives (a (wanted r)) r v honest.0 honest.1) refl
        (λ r' v'. receive_all_lem answers r' h.1 v') in
    (
      split.0,
      split.1 ∙ append_assoc (partial r) (bytes_of (a (wanted r))) (wire answers (left t)),
      split.2,
      split.3,
    )
