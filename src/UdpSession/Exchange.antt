-- ===== src/UdpSession/Exchange.antt =====
-- internal/transport/udp.go: a datagram, its arrival at the peer, and the acknowledgement that comes back.
use unknowntunnel.Prelude.{
  ℕ, ◌+◌, ◌-◌, ◌^◌, ◌≤◌, ◌<◌, ◌≡◌, ◌∙◌, sym, ap, ap₂, refl, subst, true, false, [], ◌∷◌, ◌++◌,
  Bytes, length, Option, none, some, lookup, insert, remove, nat_key, lookup-insert, lookup-remove,
  inc_u64, arith,
}
use unknowntunnel.Keys.{Crypto, IsCrypto}
use unknowntunnel.Reorder.{Order, Outcome, window, accept}
use unknowntunnel.UdpSession.{
  UdpSession, PendingDatagram, data_packet, ack_packet, send, send_ack, write_datagram, acknowledge,
  take_in, handle_packet, accept_ordered, publish, receive_capacity, max_udp_plaintext,
  max_udp_pending,
}
use unknowntunnel.UdpSession.Ordered.{Extends, accept_ordered-next, accept_ordered-early}
use unknowntunnel.UdpSession.Wire.{handle_packet-data_packet, handle_packet-ack_packet}

-- The two ends of a session: what one seals the other opens, and takes its acknowledgements.
pub record ArePeers (s r : UdpSession) : Type 0 where
  pub same_id : s.session_id ≡ r.session_id
  pub same_key : s.send_key ≡ r.recv_key
  pub same_ack_key : r.send_ack_key ≡ s.recv_ack_key
  pub id_fits : s.session_id < 2 ^ 64

-- A session that has room for one more datagram.
pub record CanSend (s : UdpSession) : Type 0 where
  pub opened : s.closed ≡ false
  pub room : s.slots < max_udp_pending
  pub more : s.send_seq + 1 < 2 ^ 64

accept_far :
    {E S : Type 0} (sink : Bytes → S → Outcome E S) (refusal : Option E) (seq : ℕ) (payload : Bytes)
    (o : Order S)
    → o.expected + window < seq
    → (accept sink refusal seq payload o).0 ≡ o
unfolding accept
accept_far sink refusal seq payload o far = ground (arith, far)

module _ (c : Crypto) (ok_c : IsCrypto c) (now : ℕ) (payload : Bytes) (s r : UdpSession)
    (small : length payload ≤ max_udp_plaintext) (peers : ArePeers s r) (can : CanSend s) where
  abbrev pub seq : ℕ
  seq = s.send_seq + 1

  abbrev pub packet : Bytes
  packet = data_packet c s.send_key s.session_id seq payload

  abbrev pub ack : Bytes
  ack = ack_packet c r.send_ack_key r.session_id seq

  abbrev entry : PendingDatagram
  entry = record { packet = packet; last = now; retries = 0 }

  abbrev after_send_state : UdpSession
  after_send_state = record s {
    slots = s.slots + 1;
    send_seq = seq;
    pending = insert seq entry s.pending;
    network = s.network ++ (packet ∷ []);
  }

  send_lem : send c true now payload s ≡ (after_send_state, none)
  unfolding send
  send_lem =
      let small' : inc_u64 s.send_seq ≡ seq = omega (arith, can.more) in
      ground (arith, small', can.opened, can.room, small)

  arrival_lem : handle_packet c true packet r ≡ take_in c seq payload (send_ack c true seq r)
  arrival_lem =
      ap (λ p. handle_packet c true p r)
        (ap₂ (λ k i. data_packet c k i seq payload) peers.same_key peers.same_id)
      ∙ handle_packet-data_packet c ok_c true r seq
          (subst (λ i. i < 2 ^ 64) peers.same_id peers.id_fits) can.more payload
          (omega (arith, small))

  ack_lem : handle_packet c true ack after_send_state ≡ (acknowledge c seq after_send_state, none)
  ack_lem =
      ap (λ p. handle_packet c true p after_send_state)
        (ap₂ (λ k i. ack_packet c k i seq) peers.same_ack_key (sym peers.same_id))
      ∙ handle_packet-ack_packet c ok_c true after_send_state seq peers.id_fits can.more

  -- What a datagram and its acknowledgement leave: `s1` has sent, `r1` was sent to, and `s2` took the acknowledgement.
  pub record Exchanged (s1 r1 s2 : UdpSession) : Type 0 where
    pub goes_out : s1.network ≡ s.network ++ (packet ∷ [])
    pub waits : lookup seq s1.pending ≡ some entry
    pub answered : r1.network ≡ r.network ++ (ack ∷ [])
    pub ordered : r1.order ≡ (accept_ordered seq payload r.order).0
    pub published :
        seq ≡ r.order.expected
        → length r.order.out < receive_capacity
        → Extends (r.order.out ++ (payload ∷ [])) r1.order.out
    pub held :
        r.order.expected < seq
        → seq ≤ r.order.expected + window
        → lookup seq r.order.reorder ≡ none
        → lookup seq r1.order.reorder ≡ some payload
    pub forgotten : lookup seq s2.pending ≡ none
    pub freed : s2.slots ≡ s.slots

  take_in_lem : (take_in c seq payload (send_ack c true seq r)).0 ≡ record r {
    network = r.network ++ (ack ∷ []);
    order = (accept_ordered seq payload r.order).0;
  }
  unfolding take_in send_ack write_datagram
  take_in_lem = refl

  acknowledge_lem : acknowledge c seq after_send_state ≡ record after_send_state {
    pending = remove seq after_send_state.pending;
    slots = after_send_state.slots - 1;
  }
  unfolding acknowledge
  acknowledge_lem =
      let found : lookup seq after_send_state.pending ≡ some entry =
        ground (arith, lookup-insert seq seq entry s.pending) in
      rw (found, acknowledge) refl

  -- Between the two ends of a session under a cipher that opens what it sealed, with room and
  -- a fitting payload: a send puts one packet on the network and keeps it; the peer answers
  -- the packet with one acknowledgement; a payload that the peer expects next is published
  -- right behind what its reader has not taken, where there is room, and one that comes early,
  -- within the window, under a number that holds nothing yet, is held under it; and the
  -- acknowledgement makes the sender forget the datagram and gives its slot back.
  pub send-Exchanged :
      Exchanged
        (send c true now payload s).0
        (handle_packet c true packet r).0
        (handle_packet c true ack (send c true now payload s).0).0
  send-Exchanged =
      let sent = ap (λ x. x.0) send_lem in
      let arrived = ap (λ x. x.0) arrival_lem ∙ take_in_lem in
      let acked =
        ap (λ x. (handle_packet c true ack x.0).0) send_lem
        ∙ ap (λ x. x.0) ack_lem
        ∙ acknowledge_lem in
      record {
        goes_out = ap (λ x. x.network) sent;
        waits =
            ap (λ x. lookup seq x.pending) sent
            ∙ ground (arith, lookup-insert seq seq entry s.pending);
        answered = ap (λ x. x.network) arrived;
        ordered = ap (λ x. x.order) arrived;
        published = λ next room.
            subst (λ o. Extends (r.order.out ++ (payload ∷ [])) o.out)
              (sym (ap (λ x. x.order) arrived)) (accept_ordered-next seq payload r.order next room);
        held = λ early near free.
            ap (λ x. lookup seq x.order.reorder) arrived
            ∙ accept_ordered-early seq payload r.order early near free;
        forgotten =
            ap (λ x. lookup seq x.pending) acked
            ∙ ground (arith, lookup-remove seq seq after_send_state.pending);
        freed = ap (λ x. x.slots) acked ∙ omega arith;
      }

  -- Between the two ends of a session under a cipher that opens what it sealed, with room and
  -- a fitting payload: where the new number is more than the window above the one that the
  -- receiver expects, the receiver's order stays as it was, and yet it answers the packet with
  -- one packet that makes the sender forget the datagram.
  pub beyond_window :
      r.order.expected + window < seq
      → let r1 = (handle_packet c true packet r).0 in
        (r1.order ≡ r.order)
        × (answer : Bytes) × (r1.network ≡ r.network ++ (answer ∷ []))
        × (lookup seq (handle_packet c true answer (send c true now payload s).0).0.pending ≡ none)
  unfolding accept_ordered
  beyond_window far = (
    send-Exchanged.ordered ∙ accept_far publish none seq payload r.order far,
    ack,
    send-Exchanged.answered,
    send-Exchanged.forgotten,
  )
