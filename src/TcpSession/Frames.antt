-- ===== src/TcpSession/Frames.antt =====
-- internal/transport/tcp.go, `Send` and `readLoop`: what one side sends the other receives.
use unknowntunnel.Prelude.{
  ℕ, zero, suc, ◌+◌, ◌-◌, ◌^◌, ◌≤◌, ◌<◌, ◌≡◌, ◌∙◌, sym, ap, ap₂, refl, inl, inr, subst, true, List,
  All, [], ◌∷◌, ◌++◌, Bytes, Option, none, some, length, slice, put_be, get_be, get_be-put_be,
  length-append, take-append, drop-append, append_assoc, append-nil, inc_u64, arith, Option-cases,
  ok,
}
use unknowntunnel.Keys.{Crypto, IsCrypto, nonce_for, overhead}
use unknowntunnel.Reorder.{Outcome, and_then}
use unknowntunnel.Writer.{Conn, IsWriter, WriteError, write_all, written-write_all}
use unknowntunnel.TcpSession.{
  TcpSession, Error, max_tcp_frame, read_failed, keyed_session, new_tcp_session,
  new_tcp_session-eq-ok, finish, read_full, frame_header, wrote, and_write, send, open_frame,
  read_body, read_frame, read_loop,
}

-- The bytes of one frame, and of the frames of payloads that are numbered from `seq`.
pub frame : Crypto → Bytes → ℕ → Bytes → Bytes
frame c key seq payload =
    let ciphertext = c.seal key (nonce_for seq) payload (put_be 8 seq) in
    frame_header seq (length ciphertext) ++ ciphertext

pub frames : Crypto → Bytes → ℕ → List Bytes → Bytes
frames c key seq [] = []
frames c key seq (payload ∷ rest) = frame c key seq payload ++ frames c key (seq + 1) rest

pub read_full_exact :
    (front back : Bytes) (n : ℕ)
    → length front ≡ n
    → read_full n (front ++ back) ≡ some (front, back)
unfolding read_full
read_full_exact front back n e =
    rw (take-append n front back e, drop-append n front back e)
      (ground (arith, e, length-append front back))

module _ {C E : Type 0} (c : Crypto) (conn : Conn C E) where
  -- Payloads sent one after the other, up to the first failure.
  unfoldable pub send_all : List Bytes → TcpSession C → Outcome (Error E) (TcpSession C)
  send_all [] s = (s, none)
  send_all (payload ∷ rest) s =
      let (s', failure) = send c conn true payload s in
      elim failure [ none ↦ send_all rest s' | some e ↦ (s', some e) ]

  send_all_ok :
      (payload : Bytes) (rest : List Bytes) (s : TcpSession C)
      → (send c conn true payload s).1 ≡ none
      → send_all (payload ∷ rest) s ≡ send_all rest (send c conn true payload s).0
  unfolding send_all
  send_all_ok payload rest s fine = rw (fine, send_all) refl

  send_all_err :
      (payload : Bytes) (rest : List Bytes) (s : TcpSession C) (e : Error E)
      → (send c conn true payload s).1 ≡ some e
      → send_all (payload ∷ rest) s ≡ ((send c conn true payload s).0, some e)
  unfolding send_all
  send_all_err payload rest s e bad = rw (bad, send_all) refl

  module _ (ok_w : IsWriter conn) where
    wrote-eq-none :
        (s s' : TcpSession C) (r : C × Option (WriteError E))
        → wrote c conn s r ≡ (s', none)
        → (r.1 ≡ none) × (s' ≡ record s { conn = r.0 })
    unfolding wrote
    wrote-eq-none s s' (w, none) h = (refl, ap (λ x. x.0) (sym h))
    wrote-eq-none s s' (w, some e) h = absurd (cc h)

    and_write-eq-none :
        (bytes : Bytes) (r : Outcome (Error E) (TcpSession C)) (s' : TcpSession C)
        → and_write c conn bytes r ≡ (s', none)
        → (r.1 ≡ none)
          × (conn.written s'.conn ≡ conn.written r.0.conn ++ bytes)
          × (s' ≡ record r.0 { conn = s'.conn })
    unfolding and_write
    and_write-eq-none bytes (s, some e) s' h = absurd (cc h)
    and_write-eq-none bytes (s, none) s' h =
        let (fine, same) = wrote-eq-none s s' (write_all conn bytes s.conn) h in
        let at : s'.conn ≡ (write_all conn bytes s.conn).0 = ap (λ x. x.conn) same in
        (
          refl,
          ap conn.written at
              ∙ written-write_all conn ok_w bytes s.conn (write_all conn bytes s.conn).0
                  (λ i. ((write_all conn bytes s.conn).0, fine i)),
          same ∙ ap (λ w. record s { conn = w }) (sym at),
        )

    sealed : TcpSession C → ℕ → Bytes → Bytes
    sealed s seq payload = c.seal s.send_key (nonce_for seq) payload (put_be 8 seq)

    send-written :
        (payload : Bytes) (s s' : TcpSession C)
        → send c conn true payload s ≡ (s', none)
        → (length payload ≤ max_tcp_frame)
          × (and_write c conn (sealed s (inc_u64 s.send_seq) payload) (
                and_write c conn
                  (frame_header
                    (inc_u64 s.send_seq)
                    (length (sealed s (inc_u64 s.send_seq) payload)))
                  (record s { send_seq = inc_u64 s.send_seq }, none))
              ≡ (s', none))
    unfolding send sealed
    send-written payload s s' h = (ground arith, ground arith)

    send-frame :
        (payload : Bytes) (s s' : TcpSession C)
        → s.send_seq + 1 < 2 ^ 64
        → send c conn true payload s ≡ (s', none)
        → (length payload ≤ max_tcp_frame)
          × (conn.written s'.conn
              ≡ conn.written s.conn ++ frame c s.send_key (s.send_seq + 1) payload)
          × (s' ≡ record s { conn = s'.conn; send_seq = s.send_seq + 1 })
    unfolding sealed frame
    send-frame payload s s' room h =
        let (small, both) = send-written payload s s' h in
        let inc : inc_u64 s.send_seq ≡ s.send_seq + 1 = omega (arith, room) in
        let ct = sealed s (s.send_seq + 1) payload in
        let started : TcpSession C = record s { send_seq = s.send_seq + 1 } in
        let first = and_write c conn (frame_header (s.send_seq + 1) (length ct)) (started, none) in
        let both' : and_write c conn ct first ≡ (s', none) =
          subst
            (λ q.
              and_write c conn (sealed s q payload) (
                and_write c conn (frame_header q (length (sealed s q payload)))
                  (record s { send_seq = q }, none))
              ≡ (s', none))
            inc both in
        let (ok1, w2, same2) = and_write-eq-none ct first s' both' in
        let (_, w1, same1) =
          and_write-eq-none (frame_header (s.send_seq + 1) (length ct)) (started, none) first.0
            (λ i. (first.0, ok1 i)) in
        (
          small,
          w2
              ∙ ap (λ x. x ++ ct) w1
              ∙ append_assoc (conn.written s.conn) (frame_header (s.send_seq + 1) (length ct)) ct,
          same2 ∙ ap (λ (x : TcpSession C). record x { conn = s'.conn }) same1,
        )

    send_all-frames :
        (payloads : List Bytes) (s s' : TcpSession C)
        → s.send_seq + length payloads < 2 ^ 64
        → send_all payloads s ≡ (s', none)
        → All (λ p. length p ≤ max_tcp_frame) payloads
          × (conn.written s'.conn
              ≡ conn.written s.conn ++ frames c s.send_key (s.send_seq + 1) payloads)
    unfolding send_all frames
    send_all-frames [] s s' room h =
        (tt, ap (λ x. conn.written x.0.conn) (sym h) ∙ sym (append-nil _))
    send_all-frames (payload ∷ rest) s s' room h =
        elim (Option-cases (send c conn true payload s).1) [
          | inr (e, bad) ↦ absurd (cc (send_all_err payload rest s e bad, h))
          | inl fine ↦
              let s1 = (send c conn true payload s).0 in
              let (small, w1, same) =
                send-frame payload s s1 (omega (arith, room)) (λ i. (s1, fine i)) in
              let seq1 : s1.send_seq ≡ s.send_seq + 1 = ap (λ x. x.send_seq) same in
              let key1 : s1.send_key ≡ s.send_key = ap (λ x. x.send_key) same in
              let (smalls, w) =
                send_all-frames rest s1 s' (omega (arith, room, seq1))
                  (sym (send_all_ok payload rest s fine) ∙ h) in
              (
                (small, smalls),
                w
                    ∙ ap₂ (λ k q. conn.written s1.conn ++ frames c k (q + 1) rest) key1 seq1
                    ∙ ap (λ x. x ++ frames c s.send_key (s.send_seq + 1 + 1) rest) w1
                    ∙ append_assoc (conn.written s.conn)
                        (frame c s.send_key (s.send_seq + 1) payload)
                        (frames c s.send_key (s.send_seq + 1 + 1) rest),
              )
        ]

  length-frame_header : (seq size : ℕ) → length (frame_header seq size) ≡ 12
  unfolding frame_header put_be
  length-frame_header seq size = refl

  size-frame_header :
      (seq size : ℕ) → 8 + size < 2 ^ 32 → get_be (slice (frame_header seq size) 0 4) ≡ 8 + size
  unfolding frame_header put_be
  size-frame_header seq size h = get_be-put_be 4 (8 + size) h

  seq-frame_header :
      (seq size : ℕ) → seq < 2 ^ 64 → get_be (slice (frame_header seq size) 4 12) ≡ seq
  unfolding frame_header put_be
  seq-frame_header seq size h = get_be-put_be 8 seq h

  read_frame_header :
      (header rest : Bytes) (s : TcpSession C)
      → read_full 12 s.input ≡ some (header, rest)
      → read_frame c conn s
        ≡ read_body c conn
            (get_be (slice header 0 4))
            (get_be (slice header 4 12))
            (record s { input = rest })
  unfolding read_frame
  read_frame_header header rest s got = rw (got, read_frame) refl

  read_body_genuine :
      (size : ℕ) (ct rest payload : Bytes) (s : TcpSession C)
      → overhead ≤ size
      → size ≤ max_tcp_frame + overhead
      → read_full size s.input ≡ some (ct, rest)
      → c.open_sealed s.recv_key (nonce_for s.recv_seq) ct (put_be 8 s.recv_seq) ≡ some payload
      → read_body c conn (8 + size) s.recv_seq s ≡ (
        record s {
          input = rest;
          recv_seq = inc_u64 s.recv_seq;
          received = s.received ++ (payload ∷ []);
        },
        none,
      )
  unfolding read_body open_frame
  read_body_genuine size ct rest payload s low high got opens =
      let same : 8 + size - 8 ≡ size = omega arith in
      let got' : read_full (8 + size - 8) s.input ≡ some (ct, rest) =
        ap (λ n. read_full n s.input) same ∙ got in
      ground (arith, low, high, got', opens)

  -- A frame at the head of the input, with the expected number, is received.
  read_frame-frame :
      (ok_c : IsCrypto c) (payload rest : Bytes) (s : TcpSession C)
      → s.recv_seq + 1 < 2 ^ 64
      → length payload ≤ max_tcp_frame
      → s.input ≡ frame c s.recv_key s.recv_seq payload ++ rest
      → read_frame c conn s ≡ (
        record s {
          input = rest;
          recv_seq = s.recv_seq + 1;
          received = s.received ++ (payload ∷ []);
        },
        none,
      )
  unfolding read_frame frame
  read_frame-frame ok_c payload rest s room small e =
      let ct = c.seal s.recv_key (nonce_for s.recv_seq) payload (put_be 8 s.recv_seq) in
      let header = frame_header s.recv_seq (length ct) in
      let size : length ct ≡ length payload + overhead =
        ok_c.length-seal s.recv_key (nonce_for s.recv_seq) payload (put_be 8 s.recv_seq) in
      let regroup : s.input ≡ header ++ (ct ++ rest) = e ∙ append_assoc header ct rest in
      let got : read_full 12 s.input ≡ some (header, ct ++ rest) =
        ap (read_full 12) regroup
        ∙ read_full_exact header (ct ++ rest) 12 (length-frame_header s.recv_seq (length ct)) in
      let same_size = size-frame_header s.recv_seq (length ct) (omega (arith, size, small)) in
      let same_seq = seq-frame_header s.recv_seq (length ct) (omega (arith, room)) in
      let inc : inc_u64 s.recv_seq ≡ s.recv_seq + 1 = omega (arith, room) in
      read_frame_header header (ct ++ rest) s got
      ∙ ap₂ (λ n q. read_body c conn n q (record s { input = ct ++ rest })) same_size same_seq
      ∙ read_body_genuine (length ct) ct rest payload (record s { input = ct ++ rest })
          (omega (arith, size)) (omega (arith, size, small))
          (read_full_exact ct rest (length ct) refl)
          (ok_c.open-seal s.recv_key (nonce_for s.recv_seq) payload (put_be 8 s.recv_seq))
      ∙ ap
          (λ q. (
            record s { input = rest; recv_seq = q; received = s.received ++ (payload ∷ []) },
            none,
          ))
          inc

  read_frame_end :
      (s : TcpSession C)
      → s.input ≡ []
      → read_frame c conn s ≡ (finish (record s { input = [] }), some read_failed)
  unfolding read_frame read_full
  read_frame_end s e = rw (e, read_frame) refl

  read_loop_ok :
      (fuel : ℕ) (s s' : TcpSession C)
      → read_frame c conn s ≡ (s', none)
      → read_loop c conn (suc fuel) s ≡ read_loop c conn fuel s'
  unfolding read_loop and_then
  read_loop_ok fuel s s' h = rw (h, read_loop) refl

  read_loop_err :
      (fuel : ℕ) (s s' : TcpSession C) (e : Error E)
      → read_frame c conn s ≡ (s', some e)
      → read_loop c conn (suc fuel) s ≡ (s', some e)
  unfolding read_loop and_then
  read_loop_err fuel s s' e h = rw (h, read_loop) refl

  -- Frames and then the end of the stream.
  read_loop-frames :
      (ok_c : IsCrypto c) (payloads : List Bytes) (fuel : ℕ) (s : TcpSession C)
      → s.recv_seq + length payloads < 2 ^ 64
      → All (λ p. length p ≤ max_tcp_frame) payloads
      → length payloads < fuel
      → s.input ≡ frames c s.recv_key s.recv_seq payloads
      → ((read_loop c conn fuel s).1 ≡ some read_failed)
        × ((read_loop c conn fuel s).0.received ≡ s.received ++ payloads)
  unfolding frames finish
  read_loop-frames ok_c payloads zero s room small enough e = absurd (omega (arith, enough))
  read_loop-frames ok_c [] (suc fuel) s room small enough e =
      rw (read_loop_err fuel s (finish (record s { input = [] })) read_failed (read_frame_end s e))
        (refl, sym (append-nil _))
  read_loop-frames ok_c (payload ∷ rest) (suc fuel) s room (small, smalls) enough e =
      let s1 : TcpSession C = record s {
        input = frames c s.recv_key (s.recv_seq + 1) rest;
        recv_seq = s.recv_seq + 1;
        received = s.received ++ (payload ∷ []);
      } in
      let got =
        read_frame-frame ok_c payload (frames c s.recv_key (s.recv_seq + 1) rest) s
          (omega (arith, room)) small e in
      let (ended, all) =
        read_loop-frames ok_c rest fuel s1 (omega (arith, room)) smalls (omega (arith, enough))
          refl in
      rw (read_loop_ok fuel s s1 got) (ended, all ∙ append_assoc s.received (payload ∷ []) rest)

  read_loop-send_all_keyed :
      (ok_c : IsCrypto c) (ok_w : IsWriter conn) (payloads : List Bytes) (w : C)
      (key other input : Bytes) (s : TcpSession C) (fuel : ℕ)
      → conn.written w ≡ []
      → 1 + length payloads < 2 ^ 64
      → length payloads < fuel
      → send_all payloads (keyed_session w input key other) ≡ (s, none)
      → let r = read_loop c conn fuel (keyed_session w (conn.written s.conn) other key) in
        (r.1 ≡ some read_failed) × (r.0.received ≡ payloads)
  unfolding keyed_session
  read_loop-send_all_keyed ok_c ok_w payloads w key other input s fuel fresh room enough sent =
      let (small, written) =
        send_all-frames ok_w payloads (keyed_session w input key other) s (omega (arith, room))
          sent in
      read_loop-frames ok_c payloads fuel (keyed_session w (conn.written s.conn) other key) room
        small enough (written ∙ ap (λ x. x ++ frames c key 1 payloads) fresh)

  -- With a cipher that opens what it sealed and a connection that keeps the contract of
  -- io.Writer: if payloads, fewer than 2^64 - 1, are sent without an error on a new session
  -- over an empty connection, the peer's read loop over the bytes that were written receives
  -- these payloads in order, and then fails because the stream has ended.
  pub read_loop-send_all :
      (ok_c : IsCrypto c) (ok_w : IsWriter conn) (payloads : List Bytes) (w : C)
      (key other input : Bytes) (a b s : TcpSession C) (fuel : ℕ)
      → new_tcp_session w input key other ≡ ok a
      → new_tcp_session w (conn.written s.conn) other key ≡ ok b
      → conn.written w ≡ []
      → 1 + length payloads < 2 ^ 64
      → length payloads < fuel
      → send_all payloads a ≡ (s, none)
      → let r = read_loop c conn fuel b in (r.1 ≡ some read_failed) × (r.0.received ≡ payloads)
  read_loop-send_all ok_c ok_w payloads w key other input a b s fuel ma mb fresh room enough sent =
      subst
        (λ x.
          let r = read_loop c conn fuel x in (r.1 ≡ some read_failed) × (r.0.received ≡ payloads))
        (sym (new_tcp_session-eq-ok w (conn.written s.conn) other key b mb))
        (read_loop-send_all_keyed ok_c ok_w payloads w key other input s fuel fresh room enough (
          subst (λ x. send_all payloads x ≡ (s, none))
            (new_tcp_session-eq-ok w input key other a ma) sent))
