-- ===== src/Slimproto/Once.antt =====
-- slimproto.c: the messages that the connection sends once for a stream.
use apple_squeezer.Prelude.{
  ℕ, ◌+◌, ◌≡◌, refl, ap, Bool, true, false, ◌&&◌, not, List, [], ◌∷◌, ◌++◌, Option, none, some,
  ◌==◌, if_both, arith,
}
use apple_squeezer.Prelude.Int.{ℤ, pos, negsuc}
use apple_squeezer.Stream.{DisconnectCode}
use apple_squeezer.Slimproto.Message.{
  Status, Stat, Message, stms, stmd, stmt, stml, stmu, stmo, stmn, stat, dsco, resp, meta, setd,
  letter,
}
use apple_squeezer.Slimproto.State.{Player, Session}
use apple_squeezer.Slimproto.Pass.{
  Notes, no_notes, Pass, note_disconnect, note_headers, note_meta, can_start, start_by,
  start_decoder, note_decoded, stream_status,
}
use apple_squeezer.Slimproto.Update.{
  note_track, start_output, is_played, note_played, note_underrun, note_idle, note_time,
  disconnect_noted, when, when_some, noted, on_stream, on_decoder, on_output, pass, output_status,
}

abbrev pub number : Bool → ℕ
number true = 1
number false = 0

-- How many of the messages are the event with this letter.
pub count : ℕ → List Message → ℕ
count c [] = 0
count c (stat e s now t0 t1 t2 t3 ∷ ms) = number (letter e == c) + count c ms
count c (dsco code ∷ ms) = count c ms
count c (resp header ∷ ms) = count c ms
count c (meta text ∷ ms) = count c ms
count c (setd name ∷ ms) = count c ms

count-append : (c : ℕ) (ms ns : List Message) → count c (ms ++ ns) ≡ count c ms + count c ns
unfolding count
count-append c [] ns = omega arith
count-append c (stat e s now t0 t1 t2 t3 ∷ ms) ns = omega (arith, count-append c ms ns)
count-append c (dsco code ∷ ms) ns = count-append c ms ns
count-append c (resp header ∷ ms) ns = count-append c ms ns
count-append c (meta text ∷ ms) ns = count-append c ms ns
count-append c (setd name ∷ ms) ns = count-append c ms ns

-- What a flag adds.
count-when :
    (c : ℕ) (b : Bool) (e : Stat) (s : Status) (now : ℕ) (ms : List Message)
    → count c (when b (stat e s now 0 0 0 0) ++ ms) ≡ number (b && letter e == c) + count c ms
unfolding count
count-when c true e s now ms = refl
count-when c false e s now ms = omega arith

count-others :
    (c : ℕ) (n : Notes)
    → count c (when n.send_resp (resp n.header) ++ when n.send_meta (meta n.header)) ≡ 0
unfolding count
count-others c n = go n.send_resp n.send_meta
  where
    go : (r m : Bool) → count c (when r (resp n.header) ++ when m (meta n.header)) ≡ 0
    go true true = refl
    go true false = refl
    go false true = refl
    go false false = refl

count-when_some :
    (c : ℕ) (o : Option DisconnectCode) (ms : List Message)
    → count c (when_some o ++ ms) ≡ count c ms
unfolding count
count-when_some c none ms = refl
count-when_some c (some code) ms = refl

-- The flags of a stream, in the order STMl, STMu, STMo, after what a pass has noted for it.
abbrev pub Tallies : Session → Pass → Type 0
Tallies s t =
    (number t.notes.send_stml + number s.sent_stml ≡ number t.session.sent_stml)
    × (number t.notes.send_stmu + number s.sent_stmu ≡ number t.session.sent_stmu)
    × (number t.notes.send_stmo + number s.sent_stmo ≡ number t.session.sent_stmo)

both_true : {a b : Bool} → (a && b) ≡ true → (a ≡ true) × (b ≡ true)
both_true {a = true} h = (refl, h)
both_true {a = false} h = ground arith

is_false : {b : Bool} → not b ≡ true → b ≡ false
is_false {b = true} h = ground arith
is_false {b = false} h = refl

-- A flag that is not set is set now.
set_now :
    (note sent start : Bool)
    → number note + number start ≡ number sent
    → sent ≡ false
    → 1 + number start ≡ 1
set_now note sent start h e = omega (arith, h, ap number e)

unset_stml : (t : Pass) → can_start t ≡ true → t.session.sent_stml ≡ false
unset_stml t e = is_false (both_true (both_true e).0).1

start_decoder-Tallies : (s : Session) (t : Pass) → Tallies s t → Tallies s (start_decoder t)
unfolding start_decoder
start_decoder-Tallies s t h =
    if_both (Tallies s) (can_start t) (start_by t.session.autostart t) t
      (λ e. by_autostart e t.session.autostart) (λ _. h)
  where
    unset : can_start t ≡ true → t.session.sent_stml ≡ false
    unset e = unset_stml t e

    by_autostart : can_start t ≡ true → (a : ℤ) → Tallies s (start_by a t)
    by_autostart e (negsuc n) = h
    by_autostart e (pos n) =
        if_both (Tallies s) (n == 0) _ _
          (λ _. (set_now t.notes.send_stml t.session.sent_stml s.sent_stml h.0 (unset e), h.1, h.2))
          (λ _. if_both (Tallies s) (n == 1) _ t (λ _. h) (λ _. h))

note_played-Tallies :
    (now : ℕ) (s : Session) (t : Pass) → Tallies s t → Tallies s (note_played now t)
unfolding note_played
note_played-Tallies now s t h =
    if_both (Tallies s) (is_played t) _ t
      (λ e.
        let unset : t.session.sent_stmu ≡ false =
          is_false (both_true (both_true (both_true (both_true e).0).0).0).1 in
        (h.0, set_now t.notes.send_stmu t.session.sent_stmu s.sent_stmu h.1 unset, h.2))
      (λ _. h)

note_underrun-Tallies : (s : Session) (t : Pass) → Tallies s t → Tallies s (note_underrun t)
unfolding note_underrun
note_underrun-Tallies s t h =
    if_both (Tallies s) _ _ t
      (λ e.
        let unset : t.session.sent_stmo ≡ false =
          is_false (both_true (both_true (both_true e).0).0).1 in
        (h.0, h.1, set_now t.notes.send_stmo t.session.sent_stmo s.sent_stmo h.2 unset))
      (λ _. h)

-- The other steps leave these flags alone.
on_stream-Tallies : (s : Session) (t : Pass) → Tallies s t → Tallies s (on_stream t)
unfolding on_stream note_disconnect note_headers note_meta
on_stream-Tallies s t h =
    let t1 : Pass = note_disconnect (stream_status t) in
    let t2 : Pass = note_headers t1 in
    let h1 : Tallies s t1 = if_both (Tallies s) _ _ (stream_status t) (λ _. h) (λ _. h) in
    let h2 : Tallies s t2 = if_both (Tallies s) _ _ t1 (λ _. h1) (λ _. h1) in
    if_both (Tallies s) _ _ t2 (λ _. h2) (λ _. h2)

on_decoder-Tallies : (s : Session) (t : Pass) → Tallies s t → Tallies s (on_decoder t)
unfolding on_decoder note_decoded
on_decoder-Tallies s t h =
    let t1 : Pass = start_decoder t in
    let h1 : Tallies s t1 = start_decoder-Tallies s t h in
    if_both (Tallies s) _ _ t1 (λ _. h1) (λ _. h1)

on_output-Tallies : (now : ℕ) (s : Session) (t : Pass) → Tallies s t → Tallies s (on_output now t)
unfolding on_output note_track start_output note_idle note_time
on_output-Tallies now s t h =
    let t1 : Pass = note_track (output_status t) in
    let t2 : Pass = start_output t1 in
    let t3 : Pass = note_played now t2 in
    let t4 : Pass = note_underrun t3 in
    let t5 : Pass = note_idle now t4 in
    let h1 : Tallies s t1 = if_both (Tallies s) _ _ (output_status t) (λ _. h) (λ _. h) in
    let h2 : Tallies s t2 = if_both (Tallies s) _ _ t1 (λ _. h1) (λ _. h1) in
    let h4 : Tallies s t4 = note_underrun-Tallies s t3 (note_played-Tallies now s t2 h2) in
    let h5 : Tallies s t5 = if_both (Tallies s) _ _ t4 (λ _. h4) (λ _. h4) in
    if_both (Tallies s) _ _ t5 (λ _. h5) (λ _. h5)

disconnect_noted-Tallies : (s : Session) (t : Pass) → Tallies s t → Tallies s (disconnect_noted t)
unfolding disconnect_noted
disconnect_noted-Tallies s t h = if_both (Tallies s) _ _ t (λ _. h) (λ _. h)

-- What is sent of an event is what was noted.
noted_sum :
    (c now : ℕ) (s : Status) (n : Notes)
    → count c (noted now s n)
      ≡ number (n.send_stms && letter stms == c)
        + (number (n.send_stmd && letter stmd == c)
            + (number (n.send_stmt && letter stmt == c)
                + (number (n.send_stml && letter stml == c)
                    + (number (n.send_stmu && letter stmu == c)
                        + (number (n.send_stmo && letter stmo == c)
                            + (number (n.send_stmn && letter stmn == c) + 0))))))
unfolding noted
noted_sum c now s n = simp (count-when_some, count-when, count-others)

-- What is sent is what was noted.
noted-count :
    (now : ℕ) (s : Status) (n : Notes)
    → (count b'l' (noted now s n) ≡ number n.send_stml)
      × (count b'u' (noted now s n) ≡ number n.send_stmu)
      × (count b'o' (noted now s n) ≡ number n.send_stmo)
unfolding noted
noted-count now s n = (
  omega (arith, noted_sum b'l' now s n, none_of n, always n.send_stml),
  omega (arith, noted_sum b'u' now s n, none_of n, always n.send_stmu),
  omega (arith, noted_sum b'o' now s n, none_of n, always n.send_stmo),
)
  where
    never : (b : Bool) → number (b && false) ≡ 0
    never true = refl
    never false = refl

    none_of :
        (n : Notes)
        → (number (n.send_stms && false) ≡ 0)
          × (number (n.send_stmd && false) ≡ 0)
          × (number (n.send_stmt && false) ≡ 0)
          × (number (n.send_stml && false) ≡ 0)
          × (number (n.send_stmu && false) ≡ 0)
          × (number (n.send_stmo && false) ≡ 0)
          × (number (n.send_stmn && false) ≡ 0)
    none_of n = (
      never n.send_stms,
      never n.send_stmd,
      never n.send_stmt,
      never n.send_stml,
      never n.send_stmu,
      never n.send_stmo,
      never n.send_stmn,
    )

    always : (b : Bool) → number (b && true) ≡ number b
    always true = refl
    always false = refl

-- A pass: what it sends of the three events is what its flags have more.
abbrev pub IsCounted : Session → List Message → Session → Type 0
IsCounted s ms s' =
    (count b'l' ms + number s.sent_stml ≡ number s'.sent_stml)
    × (count b'u' ms + number s.sent_stmu ≡ number s'.sent_stmu)
    × (count b'o' ms + number s.sent_stmo ≡ number s'.sent_stmo)

pass-IsCounted :
    (now : ℕ) (s : Session) (p : Player) → let (s', p', ms) = pass now s p in IsCounted s ms s'
unfolding pass
pass-IsCounted now s p =
    let t0 : Pass = record { session = s; player = p; notes = no_notes } in
    let t1 : Pass = on_output now (on_decoder (on_stream t0)) in
    let t : Pass = disconnect_noted t1 in
    let start : Tallies s t0 = (omega arith, omega arith, omega arith) in
    let h : Tallies s t = disconnect_noted-Tallies s t1 (
      on_output-Tallies now s (on_decoder (on_stream t0))
        (on_decoder-Tallies s (on_stream t0) (on_stream-Tallies s t0 start))) in
    let sent = noted-count now t.session.status t.notes in
    (omega (arith, h.0, sent.0), omega (arith, h.1, sent.1), omega (arith, h.2, sent.2))

-- Passes in a row, each at its time and with what the other threads have made of the player.
unfoldable pub passes : List (ℕ × Player) → Session → Session × List Message
unfolding pass
passes [] s = (s, [])
passes ((now, p) ∷ more) s =
    let (s', p', ms) = pass now s p in let (end, rest) = passes more s' in (end, ms ++ rest)

-- In any run of passes, whatever the other threads do between them: STMl, STMu and STMo are each
-- sent as often as their flag has changed, so once at most, and never again where the flag is set
-- at the start.
pub passes-IsCounted :
    (ps : List (ℕ × Player)) (s : Session) → let (end, ms) = passes ps s in IsCounted s ms end
unfolding passes count
passes-IsCounted [] s = (omega arith, omega arith, omega arith)
passes-IsCounted ((now, p) ∷ more) s =
    let (s', p', ms) = pass now s p in
    let (end, rest) = passes more s' in
    let one = pass-IsCounted now s p in
    let others = passes-IsCounted more s' in
    (
      omega (arith, one.0, others.0, count-append b'l' ms rest),
      omega (arith, one.1, others.1, count-append b'u' ms rest),
      omega (arith, one.2, others.2, count-append b'o' ms rest),
    )
