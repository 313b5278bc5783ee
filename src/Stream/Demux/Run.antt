-- ===== src/Stream/Demux/Run.antt =====
-- stream.c: rounds of the thread, between which the decoder takes bytes from streambuf.
use apple_squeezer.Prelude.{
  ℕ, take, take-append-drop, ◌-◌, ◌≡◌, ◌∙◌, refl, sym, ap, true, none, ◌||◌, not, List, [], ◌∷◌,
  ◌++◌, append_assoc, ◌==◌, if◌then◌else◌, min, arith, Bool-cases, inl, inr,
}
use apple_squeezer.Buffer.{Buffer, used, inc_readp}
use apple_squeezer.Buffer.Inv.{IsValid, inc_readp-IsValid}
use apple_squeezer.Buffer.Queue.{contents, contents-inc_readp}
use apple_squeezer.Stream.{Stream, Input, stream_round}
use apple_squeezer.Stream.Demux.Reader.{
  Reader, take_byte, take_all, reader, take_all-append, IsWithin,
}
use apple_squeezer.Stream.Demux.Stays.{in_body}
use apple_squeezer.Stream.Demux.Round.{round_wire, stream_round-IsRead}

-- What happens to streambuf: a round of the thread, or bytes that the decoder takes, as many as
-- there are at most.
pub data Event : Type 0 where
  round : Input → Event
  decode : ℕ → Event

-- The decoder takes bytes off the front.
abbrev pub decoded : ℕ → Buffer → Buffer × List ℕ
decoded n b = (inc_readp b (min n (used b)), take (min n (used b)) (contents b))

-- The events, with what the decoder got so far.
unfoldable pub stream_run : List Event → Stream → Buffer → List ℕ → Stream × Buffer × List ℕ
unfolding inc_readp
stream_run [] s b got = (s, b, got)
stream_run (round i ∷ es) s b got = let (s', b') = stream_round i s b in stream_run es s' b' got
stream_run (decode n ∷ es) s b got = let (b', xs) = decoded n b in stream_run es s b' (got ++ xs)

-- All that the rounds read.
unfoldable pub run_wire : List Event → Stream → Buffer → List ℕ
unfolding inc_readp round_wire
run_wire [] s b = []
run_wire (round i ∷ es) s b =
    let (s', b') = stream_round i s b in round_wire i s b ++ run_wire es s' b'
run_wire (decode n ∷ es) s b = run_wire es s (decoded n b).0

-- No answer of the socket is longer than what was asked for, and no round finds Ogg comments.
unfoldable pub AreWithin : List Event → Type 0
AreWithin [] = Unit
AreWithin (round i ∷ es) = ((n : ℕ) → IsWithin n (i.many n)) × (i.comments ≡ none) × AreWithin es
AreWithin (decode n ∷ es) = AreWithin es

-- A reader behind audio that was taken away already.
abbrev pub behind : List ℕ → Reader → Reader
behind got r = record r { audio = got ++ r.audio }

take_byte-behind :
    (interval c : ℕ) (got : List ℕ) (r : Reader)
    → take_byte interval c (behind got r) ≡ behind got (take_byte interval c r)
unfolding take_byte
take_byte-behind interval c got r = elim (Bool-cases (interval == 0 || not (r.next == 0))) [
  | inl e ↦ rw e (
      ap (λ a. record r { next = if interval == 0 then r.next else r.next - 1; audio = a })
        (append_assoc got r.audio (c ∷ [])))
  | inr e ↦ elim (Bool-cases (r.left == 0)) [ inl z ↦ rw (e, z) refl | inr z ↦ rw (e, z) refl ]
]

take_all-behind :
    (interval : ℕ) (xs : List ℕ) (got : List ℕ) (r : Reader)
    → take_all interval xs (behind got r) ≡ behind got (take_all interval xs r)
unfolding take_all
take_all-behind interval [] got r = refl
take_all-behind interval (x ∷ xs) got r =
    ap (take_all interval xs) (take_byte-behind interval x got r)
    ∙ take_all-behind interval xs got (take_byte interval x r)

decoded_lem :
    (n : ℕ) {b : Buffer}
    → IsValid b
    → let (b', xs) = decoded n b in (xs ++ contents b' ≡ contents b) × IsValid b'
decoded_lem n {b} v =
    let k : ℕ = min n (used b) in
    (
      ap (λ t. take k (contents b) ++ t) (contents-inc_readp k v (omega arith))
          ∙ take-append-drop k (contents b),
      inc_readp-IsValid k v,
    )

-- However the socket cuts the stream into pieces, and whatever the decoder takes between the
-- rounds: the metadata's variables, and the bytes that the decoder got with those that wait in
-- streambuf, are what the reader of single bytes makes of all that was read. The answers are no
-- longer than asked for, no Ogg comments are found, streambuf is valid and the thread in the body of the stream, or behind
-- it; streambuf stays valid.
pub stream_run_lem :
    (es : List Event) (s : Stream) {b : Buffer} (got : List ℕ)
    → IsValid b
    → in_body s.state ≡ true
    → AreWithin es
    → let (s', b', got') = stream_run es s b got in
      (behind got' (reader s' b')
        ≡ take_all s.meta_interval (run_wire es s b) (behind got (reader s b)))
      × IsValid b'
unfolding stream_run run_wire take_all AreWithin
stream_run_lem [] s got v h w = (refl, v)
stream_run_lem (round i ∷ es) s {b} got v h w =
    let (s', b') = stream_round i s b in
    let read = stream_round-IsRead i s b v h w.0 w.1 in
    let rest = stream_run_lem es s' got read.1 read.2.1 w.2 in
    (
      rest.0
          ∙ ap (λ k. take_all k (run_wire es s' b') (behind got (reader s' b'))) read.2.0
          ∙ ap (λ r. take_all s.meta_interval (run_wire es s' b') (behind got r)) read.0
          ∙ ap (take_all s.meta_interval (run_wire es s' b'))
              (sym (take_all-behind s.meta_interval (round_wire i s b) got (reader s b)))
          ∙ sym (
              take_all-append s.meta_interval (round_wire i s b) (run_wire es s' b')
                (behind got (reader s b))),
      rest.1,
    )
stream_run_lem (decode n ∷ es) s {b} got v h w =
    let (b', xs) = decoded n b in
    let taken = decoded_lem n v in
    let rest = stream_run_lem es s (got ++ xs) taken.1 h w in
    (
      rest.0
          ∙ ap
              (λ a.
                take_all s.meta_interval (run_wire es s b') (record (reader s b') { audio = a }))
              (append_assoc got xs (contents b') ∙ ap (λ t. got ++ t) taken.0),
      rest.1,
    )
