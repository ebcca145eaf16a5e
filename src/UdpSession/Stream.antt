-- ===== src/UdpSession/Stream.antt =====
-- internal/transport/udp.go: what the reader of `Receive` gets, whatever packets arrive.
use unknowntunnel.Prelude.{
  ℕ, ok, suc, ◌+◌, ◌-◌, ◌^◌, ◌<◌, ◌≡◌, ◌∙◌, ◌⊎◌, inl, inr, sym, ap, refl, subst, Bool, true, false,
  not, ◌||◌, ltb, ◌==◌, List, [], ◌∷◌, ◌++◌, Bytes, length, Option, none, some, append_assoc, slice,
  byte_at, get_be, bytes_eq, lookup, nat_key, arith, if◌then◌else◌, Option-cases, List-cases,
  numbered,
}
use unknowntunnel.Keys.{Crypto, nonce_for, overhead}
use unknowntunnel.Reorder.{Order, Outcome, accept}
use unknowntunnel.Reorder.Safety.{IsSettled, accept-IsSettled, start-IsSettled}
use unknowntunnel.UdpSession.{
  UdpSession, Error, udp_header_len, udp_data_magic, udp_data_version, udp_packet_ack,
  udp_packet_data, publish, accept_ordered, send_ack, write_datagram, take_in, handle_ack,
  handle_data, handle_packet, acknowledge, receive, keyed_session, new_udp_session,
  new_udp_session-eq-ok,
}

abbrev pub opened : Crypto → Bytes → Bytes → Option Bytes
opened c key packet =
    c.open_sealed key (nonce_for (get_be (slice packet 16 24)))
      (slice packet udp_header_len (length packet)) (slice packet 0 udp_header_len)

-- A packet leaves the order alone, or its plaintext is accepted.
abbrev Ordered : Crypto → Bytes → UdpSession → Outcome Error UdpSession → Type 0
Ordered c packet s r =
    (r.0.recv_key ≡ s.recv_key)
    × ((r.1 ≡ none)
        → (r.0.order ≡ s.order)
          ⊎ ((plaintext : Bytes) × (opened c s.recv_key packet ≡ some plaintext)
              × (accept_ordered (get_be (slice packet 16 24)) plaintext s.order
                  ≡ (r.0.order, none))))

module _ (c : Crypto) (packet : Bytes) (s : UdpSession) where
  branch-Ordered :
      (bad : Bool) (x y : Outcome Error UdpSession)
      → Ordered c packet s x
      → Ordered c packet s y
      → Ordered c packet s (if bad then x else y)
  branch-Ordered true x y v w = v
  branch-Ordered false x y v w = w

  same-Ordered : Ordered c packet s (s, none)
  same-Ordered = (refl, λ _. inl refl)

  ack-Ordered : (seq size : ℕ) → Ordered c packet s (handle_ack c packet seq size s, none)
  unfolding handle_ack acknowledge
  ack-Ordered seq size = elim (Option-cases (lookup seq s.pending)) [
    | inl e ↦ ground (arith, e)
    | inr (x, e) ↦ ground (arith, e)
  ]

  taken-Ordered :
      (can_write : Bool) (plaintext : Bytes)
      → opened c s.recv_key packet ≡ some plaintext
      → Ordered c packet s (
          take_in c
            (get_be (slice packet 16 24))
            plaintext
            (send_ack c can_write (get_be (slice packet 16 24)) s))
  unfolding take_in send_ack write_datagram
  taken-Ordered true plaintext e = (
    refl,
    λ n. inr (
      plaintext,
      e,
      λ i. ((accept_ordered (get_be (slice packet 16 24)) plaintext s.order).0, n i),
    ),
  )
  taken-Ordered false plaintext e = (refl, λ n. absurd (cc n))

  opened-Ordered :
      (can_write : Bool) (o : Option Bytes)
      → opened c s.recv_key packet ≡ o
      → Ordered c packet s (elim o as (λ x. Outcome Error UdpSession) [
        | none ↦ (s, none)
        | some plaintext ↦
            take_in c
              (get_be (slice packet 16 24))
              plaintext
              (send_ack c can_write (get_be (slice packet 16 24)) s)
      ])
  opened-Ordered can_write none e = same-Ordered
  opened-Ordered can_write (some plaintext) e = taken-Ordered can_write plaintext e

  data-Ordered :
      (can_write : Bool) (size : ℕ)
      → Ordered c packet s (handle_data c can_write packet (get_be (slice packet 16 24)) size s)
  unfolding handle_data
  data-Ordered can_write size =
      branch-Ordered (ltb size overhead) (s, none)
        (elim (opened c s.recv_key packet) as (λ x. Outcome Error UdpSession) [
          | none ↦ (s, none)
          | some plaintext ↦
              take_in c (get_be (slice packet 16 24)) plaintext
                (send_ack c can_write (get_be (slice packet 16 24)) s)
        ])
        same-Ordered (opened-Ordered can_write (opened c s.recv_key packet) refl)

  handle_packet-Ordered :
      (can_write : Bool) → Ordered c packet s (handle_packet c can_write packet s)
  unfolding handle_packet
  handle_packet-Ordered can_write =
      let seq = get_be (slice packet 16 24) in
      let size = get_be (slice packet 24 26) in
      let on_data : Outcome Error UdpSession =
        if byte_at packet 5 == udp_packet_data
        then handle_data c can_write packet seq size s
        else (s, none) in
      let on_kind : Outcome Error UdpSession =
        if byte_at packet 5 == udp_packet_ack
        then (handle_ack c packet seq size s, none)
        else on_data in
      let on_session : Outcome Error UdpSession =
        if not (get_be (slice packet 8 16) == s.session_id)
          || not (size == length packet - udp_header_len)
        then (s, none)
        else on_kind in
      let on_magic : Outcome Error UdpSession =
        if not (bytes_eq (slice packet 0 4) udp_data_magic)
          || not (byte_at packet 4 == udp_data_version)
        then (s, none)
        else on_session in
      branch-Ordered (ltb (length packet) udp_header_len) (s, none) on_magic same-Ordered
        (branch-Ordered
          (not (bytes_eq (slice packet 0 4) udp_data_magic)
            || not (byte_at packet 4 == udp_data_version))
          (s, none) on_session same-Ordered
          (branch-Ordered
            (not (get_be (slice packet 8 16) == s.session_id)
              || not (size == length packet - udp_header_len))
            (s, none) on_kind same-Ordered
            (branch-Ordered (byte_at packet 5 == udp_packet_ack)
              (handle_ack c packet seq size s, none) on_data (ack-Ordered seq size)
              (branch-Ordered (byte_at packet 5 == udp_packet_data)
                (handle_data c can_write packet seq size s) (s, none) (data-Ordered can_write size)
                same-Ordered))))

-- What happens at a receiver: a packet arrives, whose answer may or may not go out, or its reader takes a payload.
pub data Arrival : Type 0 where
  arrives : Bool → Bytes → Arrival
  takes : Arrival

-- A run up to the first failure, with the payloads that the reader took.
unfoldable pub take_next : List Bytes → UdpSession × Option Bytes → List Bytes × UdpSession
take_next taken (s, none) = (taken, s)
take_next taken (s, some payload) = (taken ++ (payload ∷ []), s)

unfoldable pub receive_all :
    Crypto → List Arrival → List Bytes → UdpSession → Outcome Error (List Bytes × UdpSession)
unfolding take_next
receive_all c [] taken s = ((taken, s), none)
receive_all c (arrives can_write packet ∷ rest) taken s =
    let (s', failure) = handle_packet c can_write packet s in
    elim failure [ none ↦ receive_all c rest taken s' | some e ↦ ((taken, s'), some e) ]
receive_all c (takes ∷ rest) taken s =
    let (taken', s') = take_next taken (receive s) in receive_all c rest taken' s'

receive_all_ok :
    (c : Crypto) (can_write : Bool) (packet : Bytes) (rest : List Arrival) (taken : List Bytes)
    (s : UdpSession)
    → (handle_packet c can_write packet s).1 ≡ none
    → receive_all c (arrives can_write packet ∷ rest) taken s
      ≡ receive_all c rest taken (handle_packet c can_write packet s).0
unfolding receive_all
receive_all_ok c can_write packet rest taken s fine = rw (fine, receive_all) refl

receive_all_err :
    (c : Crypto) (can_write : Bool) (packet : Bytes) (rest : List Arrival) (taken : List Bytes)
    (s : UdpSession) (e : Error)
    → (handle_packet c can_write packet s).1 ≡ some e
    → receive_all c (arrives can_write packet ∷ rest) taken s
      ≡ ((taken, (handle_packet c can_write packet s).0), some e)
unfolding receive_all
receive_all_err c can_write packet rest taken s e bad = rw (bad, receive_all) refl

-- What the authenticated encryption promises of a packet under a key: where it opens, it is one that was sent.
abbrev pub IsGenuine : Crypto → Bytes → (ℕ → Bytes) → Bytes → Type 0
IsGenuine c key sent packet =
    (plaintext : Bytes)
    → opened c key packet ≡ some plaintext
    → (plaintext ≡ sent (get_be (slice packet 16 24))) × (get_be (slice packet 16 24) + 1 < 2 ^ 64)

abbrev pub AllGenuine : Crypto → Bytes → (ℕ → Bytes) → List Arrival → Type 0
AllGenuine c key sent [] = Unit
AllGenuine c key sent (arrives can_write packet ∷ rest) =
    IsGenuine c key sent packet × AllGenuine c key sent rest
AllGenuine c key sent (takes ∷ rest) = AllGenuine c key sent rest

module _ (sent : ℕ → Bytes) where
  -- With `taken` read and `queue` published, the payloads below `n` were published in order.
  abbrev Sent : List Bytes → ℕ → List Bytes → Type 0
  Sent taken n queue = (m : ℕ) × (n ≡ suc m) × (taken ++ queue ≡ numbered sent m)

  publish-Sent :
      (taken : List Bytes) (n : ℕ) (q q' : List Bytes)
      → Sent taken n q
      → publish (sent n) q ≡ (q', none)
      → Sent taken (n + 1) q'
  unfolding publish
  publish-Sent taken n q q' (m, e, h) p =
      let grown : q' ≡ q ++ (sent n ∷ []) = ground (arith, p) in
      (
        suc m,
        omega (arith, e),
        ap (λ x. taken ++ x) grown
            ∙ sym (append_assoc taken q (sent n ∷ []))
            ∙ ap (λ x. x ++ (sent n ∷ [])) h
            ∙ ap (λ k. numbered sent m ++ (sent k ∷ [])) e,
      )

  abbrev Settled : List Bytes → Order (List Bytes) → Type 0
  Settled taken o = IsSettled publish sent (Sent taken) (publish-Sent taken) o

  -- The reader takes one payload more.
  taken-Settled :
      (taken q : List Bytes) (payload : Bytes) (o : Order (List Bytes))
      → o.out ≡ payload ∷ q
      → Settled taken o
      → Settled (taken ++ (payload ∷ [])) (record o { out = q })
  taken-Settled taken q payload o e (v, fresh) =
      let (m, en, h) = v.given in
      (
        record {
          given = (m, en, append_assoc taken (payload ∷ []) q ∙ ap (λ x. taken ++ x) (sym e) ∙ h);
          in_range = v.in_range;
          held = v.held;
        },
        fresh,
      )

  receive-Settled :
      (taken : List Bytes) (s : UdpSession)
      → Settled taken s.order
      → Settled (take_next taken (receive s)).0 (take_next taken (receive s)).1.order
        × ((take_next taken (receive s)).1.recv_key ≡ s.recv_key)
  unfolding receive take_next
  receive-Settled taken s v = elim (List-cases s.order.out) [
    | inl e ↦ rw (e, receive) (v, refl)
    | inr (payload, q, e) ↦ rw (e, receive) (taken-Settled taken q payload s.order e v, refl)
  ]

  packet-Settled :
      (c : Crypto) (taken : List Bytes) (packet : Bytes) (can_write : Bool) (s s' : UdpSession)
      → IsGenuine c s.recv_key sent packet
      → handle_packet c can_write packet s ≡ (s', none)
      → Settled taken s.order
      → Settled taken s'.order × (s'.recv_key ≡ s.recv_key)
  unfolding accept_ordered
  packet-Settled c taken packet can_write s s' genuine e v =
      let seq = get_be (slice packet 16 24) in
      let (key, step) = subst (Ordered c packet s) e (handle_packet-Ordered c packet s can_write) in
      (
        elim (step refl) [
          | inl same ↦ subst (Settled taken) (sym same) v
          | inr (plaintext, o, a) ↦
              let (p, fits) = genuine plaintext o in
              accept-IsSettled publish sent (Sent taken) (publish-Sent taken) none seq s.order
                s'.order v fits
                (subst (λ x. accept publish none seq x s.order ≡ (s'.order, none)) p a)
        ],
        key,
      )

  receive_all-Settled :
      (c : Crypto) (key : Bytes) (arrivals : List Arrival) (taken taken' : List Bytes)
      (s s' : UdpSession)
      → s.recv_key ≡ key
      → AllGenuine c key sent arrivals
      → Settled taken s.order
      → receive_all c arrivals taken s ≡ ((taken', s'), none)
      → Settled taken' s'.order
  unfolding receive_all
  receive_all-Settled c key [] taken taken' s s' k g v e =
      subst (λ x. Settled x.0.0 x.0.1.order) e v
  receive_all-Settled c key (arrives can_write packet ∷ rest) taken taken' s s' k g v e =
      elim (Option-cases (handle_packet c can_write packet s).1) [
        | inl fine ↦
            let s1 = (handle_packet c can_write packet s).0 in
            let (v1, k1) =
              packet-Settled c taken packet can_write s s1
                (subst (λ x. IsGenuine c x sent packet) (sym k) g.0) (λ i. (s1, fine i)) v in
            receive_all-Settled c key rest taken taken' s1 s' (k1 ∙ k) g.1 v1
              (sym (receive_all_ok c can_write packet rest taken s fine) ∙ e)
        | inr (x, bad) ↦ absurd (cc (receive_all_err c can_write packet rest taken s x bad, e))
      ]
  receive_all-Settled c key (takes ∷ rest) taken taken' s s' k g v e =
      let (v1, k1) = receive-Settled taken s v in
      receive_all-Settled c key rest (take_next taken (receive s)).0 taken'
        (take_next taken (receive s)).1 s' (k1 ∙ k) g v1 e

  keyed_session-stream :
      (c : Crypto) (arrivals : List Arrival) (taken : List Bytes) (id : ℕ)
      (send_key recv_key send_ack recv_ack : Bytes) (s : UdpSession)
      → AllGenuine c recv_key sent arrivals
      → receive_all c arrivals [] (keyed_session id send_key recv_key send_ack recv_ack)
        ≡ ((taken, s), none)
      → (m : ℕ) × (s.order.expected ≡ suc m) × (taken ++ s.order.out ≡ numbered sent m)
  unfolding keyed_session
  keyed_session-stream c arrivals taken id send_key recv_key send_ack recv_ack s g e =
      (receive_all-Settled c recv_key arrivals [] taken
        (keyed_session id send_key recv_key send_ack recv_ack) s refl g
        (start-IsSettled publish sent (Sent []) (publish-Sent []) [] (0, refl, refl)) e).0.given

  -- For packets that, where they open under the receiver's key, carry the payload that was
  -- sent under their number, which is below 2^64 - 1: after any arrivals without an error, in
  -- any order and with any repetition, and any reads in between, at a new session, what the
  -- reader took and what waits for it together are the payloads 1 to m in order, and m + 1 is
  -- expected.
  pub receive_all-stream :
      (c : Crypto) (arrivals : List Arrival) (taken : List Bytes) (id : ℕ)
      (send_key recv_key send_ack recv_ack : Bytes) (fresh s : UdpSession)
      → new_udp_session id send_key recv_key send_ack recv_ack ≡ ok fresh
      → AllGenuine c recv_key sent arrivals
      → receive_all c arrivals [] fresh ≡ ((taken, s), none)
      → (m : ℕ) × (s.order.expected ≡ suc m) × (taken ++ s.order.out ≡ numbered sent m)
  receive_all-stream c arrivals taken id send_key recv_key send_ack recv_ack fresh s made g e =
      keyed_session-stream c arrivals taken id send_key recv_key send_ack recv_ack s g (
        subst (λ x. receive_all c arrivals [] x ≡ ((taken, s), none))
          (new_udp_session-eq-ok id send_key recv_key send_ack recv_ack fresh made) e)
