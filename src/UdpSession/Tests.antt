-- ===== src/UdpSession/Tests.antt =====
-- internal/transport/udp.go: a session that has just been made, and its first datagram.
use unknowntunnel.Prelude.{
  ℕ, ◌≡◌, refl, ap, sym, ◌∙◌, Option, insert, remove, put_be, true, List, [], ◌∷◌, ◌++◌, Bytes,
  arith, none, some, suc, numbered, bytes_eq, replicate, ok, lookup, nat_key, get_be,
}
use unknowntunnel.Keys.{Crypto, new_aead}
use unknowntunnel.Tests.{toy, toy-IsCrypto}
use unknowntunnel.UdpSession.{
  UdpSession, keyed_session, new_udp_session, step, sending, send, handle_packet, data_packet,
  make_udp_header, handle_data, handle_ack, take_in, send_ack, write_datagram, accept_ordered,
  publish, receive, ack_packet,
}
use unknowntunnel.Reorder.{accept, drain, deliver, hold, and_then}
use unknowntunnel.UdpSession.Exchange.{
  ArePeers, CanSend, Exchanged, packet, ack, send-Exchanged, beyond_window,
}
use unknowntunnel.UdpSession.Stream.{
  Arrival, arrives, takes, opened, IsGenuine, take_next, receive_all, receive_all-stream,
}
use unknowntunnel.UdpSession.Accounts.{IsAccounted, keyed_session-IsAccounted, step-IsAccounted}

abbrev key_a : Bytes
key_a = replicate 32 1

abbrev key_b : Bytes
key_b = replicate 32 2

abbrev plain : Crypto
plain = record {
  sha256 = λ t. t;
  hmac = λ key t. t;
  seal = λ key nonce t aad. t;
  open_sealed = λ key nonce t aad. none;
}

step-IsAccounted_example :
    IsAccounted
      (step plain (sending true 0 (1 ∷ [])) (keyed_session 3 key_a key_b (3 ∷ []) (4 ∷ [])))
unfolding keyed_session
step-IsAccounted_example =
    step-IsAccounted plain (sending true 0 (1 ∷ [])) (keyed_session 3 key_a key_b (3 ∷ []) (4 ∷ []))
      (omega arith) (keyed_session-IsAccounted 3 key_a key_b (3 ∷ []) (4 ∷ []))

-- The two ends of session 3; the sender has sent so many datagrams.
abbrev sender : ℕ → UdpSession
sender count = record (keyed_session 3 key_a key_b (3 ∷ []) (4 ∷ [])) { send_seq = count }

abbrev receiver : UdpSession
receiver = keyed_session 3 key_b key_a (4 ∷ []) (3 ∷ [])

peers : (count : ℕ) → ArePeers (sender count) receiver
unfolding keyed_session
peers count = record { same_id = refl; same_key = refl; same_ack_key = refl; id_fits = omega arith }

can_send_first : CanSend (sender 0)
unfolding keyed_session
can_send_first = record { opened = refl; room = omega arith; more = omega arith }

can_send_late : CanSend (sender 5000)
unfolding keyed_session
can_send_late = record { opened = refl; room = omega arith; more = omega arith }

abbrev small_payload : Bytes
small_payload = 7 ∷ []

send-Exchanged_example :
    Exchanged toy toy-IsCrypto 0 small_payload
      (sender 0)
      receiver
      (omega arith)
      (peers 0)
      can_send_first
      (send toy true 0 small_payload (sender 0)).0
      (handle_packet toy true
        (packet toy toy-IsCrypto 0 small_payload
          (sender 0)
          receiver
          (omega arith)
          (peers 0)
          can_send_first)
        receiver).0
      (handle_packet toy true
        (ack toy toy-IsCrypto 0 small_payload
          (sender 0)
          receiver
          (omega arith)
          (peers 0)
          can_send_first)
        (send toy true 0 small_payload (sender 0)).0).0
send-Exchanged_example =
    send-Exchanged toy toy-IsCrypto 0 small_payload (sender 0) receiver (omega arith) (peers 0)
      can_send_first

abbrev late_arrival : UdpSession
late_arrival =
    (handle_packet toy true
      (packet toy toy-IsCrypto 0 small_payload (sender 5000) receiver (omega arith) (peers 5000)
        can_send_late)
      receiver).0

beyond_window_example :
    (late_arrival.order ≡ receiver.order)
    × (answer : Bytes) × (late_arrival.network ≡ [] ++ (answer ∷ []))
    × (lookup 5001
          (handle_packet toy true answer (send toy true 0 small_payload (sender 5000)).0).0.pending
        ≡ none)
unfolding keyed_session
beyond_window_example =
    beyond_window toy toy-IsCrypto 0 small_payload (sender 5000) receiver (omega arith) (peers 5000)
      can_send_late (omega arith)

abbrev value_or_nil : Option Bytes → Bytes
value_or_nil none = []
value_or_nil (some b) = b

-- One packet, which is then taken.
abbrev first_packet : Bytes
first_packet = data_packet toy key_a 3 1 small_payload

abbrev sevens : ℕ → Bytes
sevens n = small_payload

abbrev arrive_and_take : List Arrival
arrive_and_take = arrives true first_packet ∷ takes ∷ []

abbrev taken_state : UdpSession
taken_state = (receive_all toy arrive_and_take [] receiver).0.1

opens_first : opened toy key_a first_packet ≡ some small_payload
unfolding data_packet make_udp_header put_be get_be
opens_first = refl

IsGenuine-first : IsGenuine toy key_a sevens first_packet
unfolding data_packet make_udp_header put_be get_be
IsGenuine-first plaintext h = (ap (value_or_nil) (sym h ∙ opens_first), omega arith)

take_first :
    receive_all toy arrive_and_take [] (keyed_session 3 key_b key_a (4 ∷ []) (3 ∷ []))
    ≡ ((small_payload ∷ [], taken_state), none)
unfolding receive_all keyed_session data_packet make_udp_header put_be get_be take_next bytes_eq
    handle_packet handle_data handle_ack take_in send_ack write_datagram accept_ordered publish
    receive accept drain deliver hold and_then ack_packet lookup insert remove
take_first = refl

makes_receiver : new_udp_session 3 key_b key_a (4 ∷ []) (3 ∷ []) ≡ ok receiver
unfolding new_udp_session new_aead
makes_receiver = refl

receive_all-stream_example :
    (m : ℕ) × (taken_state.order.expected ≡ suc m)
    × ((small_payload ∷ []) ++ taken_state.order.out ≡ numbered sevens m)
receive_all-stream_example =
    receive_all-stream sevens toy arrive_and_take (small_payload ∷ []) 3 key_b key_a (4 ∷ [])
      (3 ∷ []) receiver taken_state makes_receiver (IsGenuine-first, tt) take_first
