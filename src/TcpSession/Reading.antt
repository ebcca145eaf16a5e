-- ===== src/TcpSession/Reading.antt =====
-- internal/transport/tcp.go, `readLoop`: whatever bytes arrive, it ends, and only sent payloads were received, in order.
use unknowntunnel.Prelude.{
  ℕ, zero, suc, ◌+◌, ◌-◌, ◌^◌, ◌≤◌, ◌<◌, ◌≡◌, ◌⊎◌, ◌∙◌, sym, ap, ap₂, refl, inl, inr, subst, Bool,
  true, false, not, ◌||◌, List, [], ◌∷◌, ◌++◌, append_assoc, Bytes, none, some, ltb, ◌==◌, length,
  take, drop, slice, put_be, get_be, length-drop, take-append-drop, inc_u64, arith, Option-cases,
  if◌then◌else◌, numbered, ok,
}
use unknowntunnel.Keys.{Crypto, nonce_for, overhead}
use unknowntunnel.Reorder.{Outcome, and_then}
use unknowntunnel.Writer.{Conn}
use unknowntunnel.TcpSession.{
  TcpSession, Error, max_tcp_frame, read_failed, invalid_frame_length, unexpected_sequence, finish,
  read_full, open_frame, read_body, read_frame, read_loop, keyed_session, new_tcp_session,
  new_tcp_session-eq-ok,
}

read_full-shorter :
    (n : ℕ) (input front back : Bytes)
    → read_full n input ≡ some (front, back)
    → length back + n ≤ length input
unfolding read_full
read_full-shorter n input front back h =
    let fits : n ≤ length input = ground arith in
    let same : drop n input ≡ back = ground (arith, fits) in
    omega (arith, fits, length-drop n input, ap length same)

read_full-append :
    (n : ℕ) (input front back : Bytes)
    → read_full n input ≡ some (front, back)
    → input ≡ front ++ back
unfolding read_full
read_full-append n input front back h =
    let first : take n input ≡ front = ground (arith, h) in
    let same : drop n input ≡ back = ground (arith, h) in
    sym (take-append-drop n input) ∙ ap₂ (λ x y. x ++ y) first same

guard-eq-none :
    {E S : Type 0} (bad : Bool) (x : S) (e : E) (y : Outcome E S) {s : S}
    → (if bad then (x, some e) else y) ≡ (s, none)
    → (bad ≡ false) × (y ≡ (s, none))
guard-eq-none true x e y h = absurd (cc h)
guard-eq-none false x e y h = (refl, h)

and_then-err :
    {E S : Type 0} (r : Outcome E S) (k : S → Outcome E S) {e : E} → r.1 ≡ some e → and_then r k ≡ r
unfolding and_then
and_then-err (s, none) k h = absurd (cc h)
and_then-err (s, some x) k h = refl

and_then-ok :
    {E S : Type 0} (r : Outcome E S) (k : S → Outcome E S) → r.1 ≡ none → and_then r k ≡ k r.0
unfolding and_then
and_then-ok (s, none) k h = refl
and_then-ok (s, some x) k h = absurd (cc h)

module _ {C E : Type 0} (c : Crypto) (conn : Conn C E) where
  -- What a round that goes on has done: one frame with the expected number was opened.
  pub record Opened (s s' : TcpSession C) : Type 0 where
    pub ciphertext : Bytes
    pub plaintext : Bytes
    pub opens :
        c.open_sealed s.recv_key (nonce_for s.recv_seq) ciphertext (put_be 8 s.recv_seq)
        ≡ some plaintext
    pub received : s'.received ≡ s.received ++ (plaintext ∷ [])
    pub counted : s'.recv_seq ≡ inc_u64 s.recv_seq
    pub same_key : s'.recv_key ≡ s.recv_key
    pub shorter : length s'.input ≤ length s.input
    pub reads : s.input ≡ ciphertext ++ s'.input

  open_frame-Opened :
      (s s' : TcpSession C) (ct rest : Bytes)
      → length rest ≤ length s.input
      → s.input ≡ ct ++ rest
      → open_frame c conn s.recv_seq (ct, rest) s ≡ (s', none)
      → Opened s s'
  unfolding open_frame
  open_frame-Opened s s' ct rest short whole h =
      elim (Option-cases
        (c.open_sealed s.recv_key (nonce_for s.recv_seq) ct (put_be 8 s.recv_seq))) [
          | inl e ↦ absurd (ground (arith, e, h))
          | inr (plaintext, e) ↦
              let q : record s {
                input = rest;
                recv_seq = inc_u64 s.recv_seq;
                received = s.received ++ (plaintext ∷ []);
              }
                  ≡ s' =
                ground (arith, e, h) in
              subst (Opened s) q (record {
                ciphertext = ct;
                plaintext = plaintext;
                opens = e;
                received = refl;
                counted = refl;
                same_key = refl;
                shorter = short;
                reads = whole;
              })
        ]

  -- The round after its checks.
  read_rest : ℕ → ℕ → TcpSession C → Outcome (Error E) (TcpSession C)
  read_rest frame_len seq s = elim (read_full (frame_len - 8) s.input) [
    | none ↦ (finish (record s { input = [] }), some read_failed)
    | some (ciphertext, rest) ↦ open_frame c conn seq (ciphertext, rest) s
  ]

  read_rest-Opened :
      (frame_len : ℕ) (s s' : TcpSession C)
      → read_rest frame_len s.recv_seq s ≡ (s', none)
      → Opened s s'
  unfolding read_rest
  read_rest-Opened frame_len s s' h = elim (Option-cases (read_full (frame_len - 8) s.input)) [
    | inl e ↦ absurd (ground (arith, e, h))
    | inr ((ct, rest), e) ↦
        let step : read_rest frame_len s.recv_seq s ≡ open_frame c conn s.recv_seq (ct, rest) s =
          rw (e, read_rest) refl in
        open_frame-Opened s s' ct rest
          (omega (arith, read_full-shorter (frame_len - 8) s.input ct rest e))
          (read_full-append (frame_len - 8) s.input ct rest e) (sym step ∙ h)
  ]

  read_body-Opened :
      (frame_len seq : ℕ) (s s' : TcpSession C)
      → read_body c conn frame_len seq s ≡ (s', none)
      → Opened s s'
  unfolding read_body read_rest
  read_body-Opened frame_len seq s s' h =
      let body = read_rest frame_len seq s in
      let (_, h1) =
        guard-eq-none (ltb frame_len (8 + overhead) || ltb (max_tcp_frame + overhead + 8) frame_len)
          (finish s) invalid_frame_length
          (if not (seq == s.recv_seq) then (finish s, some unexpected_sequence) else body) h in
      let (same, h2) =
        guard-eq-none (not (seq == s.recv_seq)) (finish s) unexpected_sequence body h1 in
      let at : seq ≡ s.recv_seq = ground (arith, same) in
      read_rest-Opened frame_len s s' (subst (λ q. read_rest frame_len q s ≡ (s', none)) at h2)

  read_frame-Opened :
      (s s' : TcpSession C)
      → read_frame c conn s ≡ (s', none)
      → (header : Bytes) × (rest : Bytes) × (s.input ≡ header ++ rest)
        × (length rest < length s.input)
        × Opened (record s { input = rest }) s'
  unfolding read_frame
  read_frame-Opened s s' h = elim (Option-cases (read_full 12 s.input)) [
    | inl e ↦ absurd (ground (arith, e, h))
    | inr ((header, rest), e) ↦
        let h' : read_body c conn (get_be (slice header 0 4)) (get_be (slice header 4 12))
              (record s { input = rest })
            ≡ (s', none) =
          sym (rw (e, read_frame) refl) ∙ h in
        (
          header,
          rest,
          read_full-append 12 s.input header rest e,
          omega (arith, read_full-shorter 12 s.input header rest e),
          read_body-Opened (get_be (slice header 0 4)) (get_be (slice header 4 12))
              (record s { input = rest }) s' h',
        )
  ]

  read_loop_more :
      (fuel : ℕ) (s s1 : TcpSession C)
      → read_frame c conn s ≡ (s1, none)
      → (read_loop c conn (suc fuel) s).1 ≡ (read_loop c conn fuel s1).1
  unfolding read_loop and_then
  read_loop_more fuel s s1 h = rw (h, read_loop) refl

  read_loop_done :
      (fuel : ℕ) (s : TcpSession C) (e : Error E)
      → (read_frame c conn s).1 ≡ some e
      → (read_loop c conn (suc fuel) s).1 ≡ some e
  unfolding read_loop and_then
  read_loop_done fuel s e h =
      ap (λ r. r.1) (and_then-err (read_frame c conn s) (read_loop c conn fuel) h) ∙ h

  -- Whatever bytes are on the stream, with more rounds than there are bytes the read loop
  -- ends, with an error.
  pub read_loop_ends :
      (fuel : ℕ) (s : TcpSession C)
      → length s.input < fuel
      → (e : Error E) × ((read_loop c conn fuel s).1 ≡ some e)
  unfolding read_loop and_then
  read_loop_ends zero s h = absurd (omega (arith, h))
  read_loop_ends (suc fuel) s h = elim (Option-cases (read_frame c conn s).1) [
    | inl fine ↦
        let s1 = (read_frame c conn s).0 in
        let (header, rest, whole, less, o) = read_frame-Opened s s1 (λ i. (s1, fine i)) in
        let (e, ends) = read_loop_ends fuel s1 (omega (arith, h, less, o.shorter)) in
        (e, read_loop_more fuel s s1 (λ i. (s1, fine i)) ∙ ends)
    | inr (e, bad) ↦ (e, read_loop_done fuel s e bad)
  ]

  -- No forgery stands in a stream: what opens under a number, of all pieces of these bytes, is
  -- what was sent under that number.
  abbrev pub IsAuthentic : Bytes → (ℕ → Bytes) → Bytes → Type 0
  IsAuthentic key sent input =
      (seq : ℕ) (front ciphertext behind plaintext : Bytes)
      → input ≡ front ++ (ciphertext ++ behind)
      → c.open_sealed key (nonce_for seq) ciphertext (put_be 8 seq) ≡ some plaintext
      → plaintext ≡ sent seq

  IsAuthentic-suffix :
      (key : Bytes) (sent : ℕ → Bytes) (input before rest : Bytes)
      → input ≡ before ++ rest
      → IsAuthentic key sent input
      → IsAuthentic key sent rest
  IsAuthentic-suffix key sent input before rest e genuine seq front ct behind plaintext piece =
      genuine seq (before ++ front) ct behind plaintext
        (e ∙ ap (λ x. before ++ x) piece ∙ sym (append_assoc before front (ct ++ behind)))

  abbrev Front : (ℕ → Bytes) → TcpSession C → Type 0
  Front sent s = (m : ℕ) × (s.recv_seq ≡ suc m) × (s.received ≡ numbered sent m)

  -- A round that fails receives nothing.
  abbrev Kept : List Bytes → Outcome (Error E) (TcpSession C) → Type 0
  Kept before r = (r.0.received ≡ before) ⊎ (r.1 ≡ none)

  branch-Kept :
      (before : List Bytes) (bad : Bool) (x y : Outcome (Error E) (TcpSession C))
      → Kept before x
      → Kept before y
      → Kept before (if bad then x else y)
  branch-Kept before true x y v w = v
  branch-Kept before false x y v w = w

  open_frame-Kept :
      (seq : ℕ) (ct rest : Bytes) (s : TcpSession C)
      → Kept s.received (open_frame c conn seq (ct, rest) s)
  unfolding open_frame finish
  open_frame-Kept seq ct rest s =
      elim (Option-cases (c.open_sealed s.recv_key (nonce_for seq) ct (put_be 8 seq))) [
        | inl e ↦ rw (e, open_frame) (inl refl)
        | inr (plaintext, e) ↦ rw (e, open_frame) (inr refl)
      ]

  read_rest-Kept :
      (frame_len seq : ℕ) (s : TcpSession C) → Kept s.received (read_rest frame_len seq s)
  unfolding read_rest finish
  read_rest-Kept frame_len seq s = elim (Option-cases (read_full (frame_len - 8) s.input)) [
    | inl e ↦ rw (e, read_rest) (inl refl)
    | inr ((ct, rest), e) ↦ rw (e, read_rest) (open_frame-Kept seq ct rest s)
  ]

  read_body-Kept :
      (frame_len seq : ℕ) (s : TcpSession C) → Kept s.received (read_body c conn frame_len seq s)
  unfolding read_body read_rest finish
  read_body-Kept frame_len seq s =
      branch-Kept s.received
        (ltb frame_len (8 + overhead) || ltb (max_tcp_frame + overhead + 8) frame_len)
        (finish s, some invalid_frame_length)
        (if not (seq == s.recv_seq)
          then (finish s, some unexpected_sequence)
          else read_rest frame_len seq s)
        (inl refl)
        (branch-Kept s.received (not (seq == s.recv_seq)) (finish s, some unexpected_sequence)
          (read_rest frame_len seq s) (inl refl) (read_rest-Kept frame_len seq s))

  read_frame-Kept : (s : TcpSession C) → Kept s.received (read_frame c conn s)
  unfolding read_frame finish
  read_frame-Kept s = elim (Option-cases (read_full 12 s.input)) [
    | inl e ↦ rw (e, read_frame) (inl refl)
    | inr ((header, rest), e) ↦
        rw (e, read_frame)
          (read_body-Kept (get_be (slice header 0 4)) (get_be (slice header 4 12))
            (record s { input = rest }))
  ]

  Front-Opened :
      (sent : ℕ → Bytes) (s s' : TcpSession C)
      → IsAuthentic s.recv_key sent s.input
      → s.recv_seq + 1 < 2 ^ 64
      → Opened s s'
      → Front sent s
      → Front sent s'
  Front-Opened sent s s' genuine room o (m, e, h) = (
    suc m,
    o.counted ∙ omega (arith, room, e),
    o.received
        ∙ ap₂ (λ x y. x ++ (y ∷ [])) h
            (genuine s.recv_seq [] o.ciphertext s'.input o.plaintext o.reads o.opens ∙ ap sent e),
  )

  read_loop-numbered :
      (sent : ℕ → Bytes) (fuel : ℕ) (s : TcpSession C)
      → IsAuthentic s.recv_key sent s.input
      → s.recv_seq + fuel < 2 ^ 64
      → Front sent s
      → (m : ℕ) × ((read_loop c conn fuel s).0.received ≡ numbered sent m)
  unfolding read_loop
  read_loop-numbered sent zero s genuine room (m, e, h) = (m, h)
  read_loop-numbered sent (suc fuel) s genuine room (m, e, h) =
      elim (Option-cases (read_frame c conn s).1) [
        | inl fine ↦
            let s1 = (read_frame c conn s).0 in
            let (header, rest, whole, less, o) = read_frame-Opened s s1 (λ i. (s1, fine i)) in
            let genuine_rest =
              IsAuthentic-suffix s.recv_key sent s.input header rest whole genuine in
            let front =
              Front-Opened sent (record s { input = rest }) s1 genuine_rest (omega (arith, room)) o
                (m, e, h) in
            let (k, got) =
              read_loop-numbered sent fuel s1
                (subst (λ x. IsAuthentic x sent s1.input) (sym o.same_key)
                  (IsAuthentic-suffix s.recv_key sent rest o.ciphertext s1.input o.reads
                    genuine_rest))
                (omega (arith, room, o.counted)) front in
            (
              k,
              ap (λ r. r.0.received)
                    (and_then-ok (read_frame c conn s) (read_loop c conn fuel) fine)
                  ∙ got,
            )
        | inr (x, bad) ↦ (
          m,
          ap (λ r. r.0.received) (and_then-err (read_frame c conn s) (read_loop c conn fuel) bad)
              ∙ elim (read_frame-Kept s) [ inl same ↦ same | inr fine ↦ absurd (cc (fine, bad)) ]
              ∙ h,
        )
      ]

  abbrev Received : (ℕ → Bytes) → Bytes → TcpSession C → Type 0
  Received sent input s =
      let r = read_loop c conn (length input + 1) s in
      ((e : Error E) × (r.1 ≡ some e)) × ((m : ℕ) × (r.0.received ≡ numbered sent m))

  keyed_session-Received :
      (sent : ℕ → Bytes) (w : C) (input key other : Bytes)
      → IsAuthentic other sent input
      → length input + 2 < 2 ^ 64
      → Received sent input (keyed_session w input key other)
  unfolding keyed_session
  keyed_session-Received sent w input key other genuine small =
      let s = keyed_session w input key other in
      (
        read_loop_ends (length input + 1) s (omega arith),
        read_loop-numbered sent (length input + 1) s genuine (omega (arith, small)) (0, refl, refl),
      )

  -- For an input shorter than 2^64 - 2 bytes in which no forgery stands, that is, where each
  -- piece of it that opens under a number is the payload sent under that number: the read loop
  -- of a new session ends with an error, and what it has received is the payloads 1 to m in
  -- order, for some m.
  pub read_loop_front :
      (sent : ℕ → Bytes) (w : C) (input key other : Bytes) (s : TcpSession C)
      → new_tcp_session w input key other ≡ ok s
      → IsAuthentic other sent input
      → length input + 2 < 2 ^ 64
      → let r = read_loop c conn (length input + 1) s in
        ((e : Error E) × (r.1 ≡ some e)) × ((m : ℕ) × (r.0.received ≡ numbered sent m))
  read_loop_front sent w input key other s made genuine small =
      subst (λ x. Received sent input x) (sym (new_tcp_session-eq-ok w input key other s made))
        (keyed_session-Received sent w input key other genuine small)
