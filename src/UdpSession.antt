-- ===== src/UdpSession.antt =====
-- internal/transport/udp.go, `udpSession`: the reliable ordered channel over UDP. A call is one
-- step; a time is a number of nanoseconds; whether a write to the socket succeeds is an argument.
pub mod Accounts
pub mod Wire
pub mod Stream
pub mod Ordered
pub mod Exchange
pub mod Tests
use unknowntunnel.Prelude.{
  ℕ, zero, suc, ◌+◌, ◌-◌, ◌*◌, Bool, true, false, not, ◌&&◌, ◌||◌, List, [], ◌∷◌, ◌++◌, Bytes,
  Option, none, some, ltb, leb, ◌==◌, bytes_eq, if◌then◌else◌, length, slice, byte_at, take, codes,
  put_be, get_be, inc_u64, Result, ok, ◌>>=◌, >>=-eq-ok, same_result, refl, ◌≡◌, sym, ◌∙◌, ap₂,
  NatMap, nat_key, lookup, insert, remove,
}
use unknowntunnel.Keys.{Crypto, KeyError, new_aead, new_aead-eq-ok, nonce_for, overhead}
use unknowntunnel.Reorder.{Order, Outcome, start, accept}

abbrev pub udp_data_magic : Bytes
udp_data_magic = codes "UKD1"

abbrev pub udp_data_version : ℕ
udp_data_version = 1

abbrev pub udp_packet_data : ℕ
udp_packet_data = 1

abbrev pub udp_packet_ack : ℕ
udp_packet_ack = 2

abbrev pub udp_header_len : ℕ
udp_header_len = 28

abbrev pub max_udp_plaintext : ℕ
max_udp_plaintext = 1400

abbrev pub max_udp_pending : ℕ
max_udp_pending = 8192

abbrev pub udp_retransmit_after : ℕ
udp_retransmit_after = 350 * 1_000_000

abbrev pub udp_max_retries : ℕ
udp_max_retries = 18

-- The capacity of `recvCh`.
abbrev pub receive_capacity : ℕ
receive_capacity = 256

pub record PendingDatagram : Type 0 where
  pub packet : Bytes
  pub last : ℕ
  pub retries : ℕ

pub data Error : Type 0 where
  session_closed message_too_large queue_full : Error
  write_failed receive_blocked peer_silent : Error

-- `order` holds `expected`, `reorder` and, as its `out`, what `recvCh` holds; `slots` counts the
-- tokens in the channel of that name; `network` is what was written to the socket, oldest first.
pub record UdpSession : Type 0 where
  pub session_id : ℕ
  pub send_key : Bytes
  pub recv_key : Bytes
  pub send_ack_key : Bytes
  pub recv_ack_key : Bytes
  pub send_seq : ℕ
  pub pending : NatMap PendingDatagram
  pub slots : ℕ
  pub order : Order (List Bytes)
  pub network : List Bytes
  pub closed : Bool

pub keyed_session : ℕ → Bytes → Bytes → Bytes → Bytes → UdpSession
keyed_session session_id send_key recv_key send_ack_key recv_ack_key = record {
  session_id = session_id;
  send_key = send_key;
  recv_key = recv_key;
  send_ack_key = send_ack_key;
  recv_ack_key = recv_ack_key;
  send_seq = 0;
  pending = [];
  slots = 0;
  order = start [];
  network = [];
  closed = false;
}

-- `newUDPSession`.
unfoldable pub new_udp_session : ℕ → Bytes → Bytes → Bytes → Bytes → Result KeyError UdpSession
unfolding keyed_session
new_udp_session session_id send_key recv_key send_ack_key recv_ack_key = do
  send_aead ← new_aead send_key
  recv_aead ← new_aead recv_key
  ok (keyed_session session_id send_aead recv_aead send_ack_key recv_ack_key)

-- A session that was made has the keys that were given.
pub new_udp_session-eq-ok :
    (id : ℕ) (send_key recv_key send_ack recv_ack : Bytes) (s : UdpSession)
    → new_udp_session id send_key recv_key send_ack recv_ack ≡ ok s
    → s ≡ keyed_session id send_key recv_key send_ack recv_ack
unfolding new_udp_session
new_udp_session-eq-ok id send_key recv_key send_ack recv_ack s h =
    let (a, e, h1) = >>=-eq-ok (new_aead send_key) _ h in
    let (b, f, h2) = >>=-eq-ok (new_aead recv_key) _ h1 in
    sym (same_result (ok (keyed_session id a b send_ack recv_ack)) refl h2)
    ∙ ap₂ (λ x y. keyed_session id x y send_ack recv_ack) (new_aead-eq-ok send_key a e)
        (new_aead-eq-ok recv_key b f)

pub make_udp_header : ℕ → ℕ → ℕ → ℕ → Bytes
make_udp_header kind session_id seq payload_len =
    udp_data_magic
    ++ (udp_data_version ∷ kind ∷ 0 ∷ 0 ∷ [])
    ++ put_be 8 session_id
    ++ put_be 8 seq
    ++ put_be 2 payload_len
    ++ (0 ∷ 0 ∷ [])

pub finish : UdpSession → UdpSession
finish s = record s { closed = true }

-- A payload goes into `recvCh`, or fails where the channel is full to the end of its ten seconds.
-- A reader that takes something in these seconds comes before the call in the order of the steps.
pub publish : Bytes → List Bytes → Outcome Error (List Bytes)
publish payload queue =
    if leb receive_capacity (length queue)
    then (queue, some receive_blocked)
    else (queue ++ (payload ∷ []), none)

pub accept_ordered : ℕ → Bytes → Order (List Bytes) → Outcome Error (Order (List Bytes))
accept_ordered seq plaintext o = accept publish none seq plaintext o

-- `writeFn`: a datagram goes out, or the socket refuses it.
pub write_datagram : Bool → Bytes → UdpSession → Outcome Error UdpSession
write_datagram true packet s = (record s { network = s.network ++ (packet ∷ []) }, none)
write_datagram false packet s = (s, some write_failed)

module _ (c : Crypto) where
  pub data_packet : Bytes → ℕ → ℕ → Bytes → Bytes
  data_packet key session_id seq payload =
      let header = make_udp_header udp_packet_data session_id seq (length payload + overhead) in
      header ++ c.seal key (nonce_for seq) payload header

  pub ack_packet : Bytes → ℕ → ℕ → Bytes
  ack_packet key session_id seq =
      let header = make_udp_header udp_packet_ack session_id seq 16 in
      header ++ take 16 (c.hmac key header)

  -- The entry of a datagram is dropped again, with its slot, when the write fails.
  pub after_send : ℕ → Outcome Error UdpSession → Outcome Error UdpSession
  after_send seq (s, none) = (s, none)
  after_send seq (s, some e) =
      (finish (record s { pending = remove seq s.pending; slots = s.slots - 1 }), some e)

  -- `Send`. A call that waits five seconds for a slot in vain fails.
  pub send : Bool → ℕ → Bytes → UdpSession → Outcome Error UdpSession
  unfolding after_send write_datagram
  send can_write now payload s =
      if s.closed
      then (s, some session_closed)
      else if ltb max_udp_plaintext (length payload)
      then (s, some message_too_large)
      else if leb max_udp_pending s.slots
      then (s, some queue_full)
      else let seq = inc_u64 s.send_seq in
        let packet = data_packet s.send_key s.session_id seq payload in
        let entry : PendingDatagram = record { packet = packet; last = now; retries = 0 } in
        after_send seq (
          write_datagram can_write packet (record s {
            slots = s.slots + 1;
            send_seq = seq;
            pending = insert seq entry s.pending;
          }))

  pub send_ack : Bool → ℕ → UdpSession → Outcome Error UdpSession
  unfolding write_datagram
  send_ack can_write seq s = write_datagram can_write (ack_packet s.send_ack_key s.session_id seq) s

  -- An acknowledged datagram is forgotten, and its slot is free again.
  pub acknowledge : ℕ → UdpSession → UdpSession
  acknowledge seq s = elim (lookup seq s.pending) [
    | none ↦ s
    | some _ ↦ record s { pending = remove seq s.pending; slots = s.slots - 1 }
  ]

  pub handle_ack : Bytes → ℕ → ℕ → UdpSession → UdpSession
  unfolding acknowledge
  handle_ack packet seq payload_len s =
      if not (payload_len == 16)
      then s
      else if not (
          bytes_eq (slice packet udp_header_len (length packet))
            (take 16 (c.hmac s.recv_ack_key (slice packet 0 udp_header_len))))
      then s
      else acknowledge seq s

  pub take_in : ℕ → Bytes → Outcome Error UdpSession → Outcome Error UdpSession
  take_in seq plaintext (s, some e) = (s, some e)
  take_in seq plaintext (s, none) =
      let (o, failure) = accept_ordered seq plaintext s.order in (record s { order = o }, failure)

  -- A datagram that opens is acknowledged first, and then ordered.
  pub handle_data : Bool → Bytes → ℕ → ℕ → UdpSession → Outcome Error UdpSession
  unfolding take_in
  handle_data can_write packet seq payload_len s =
      if ltb payload_len overhead
      then (s, none)
      else elim (c.open_sealed s.recv_key (nonce_for seq)
          (slice packet udp_header_len (length packet)) (slice packet 0 udp_header_len)) [
            | none ↦ (s, none)
            | some plaintext ↦ take_in seq plaintext (send_ack can_write seq s)
          ]

  pub handle_packet : Bool → Bytes → UdpSession → Outcome Error UdpSession
  unfolding handle_ack handle_data
  handle_packet can_write packet s =
      if ltb (length packet) udp_header_len
      then (s, none)
      else if not (bytes_eq (slice packet 0 4) udp_data_magic)
          || not (byte_at packet 4 == udp_data_version)
      then (s, none)
      else let kind = byte_at packet 5 in
        let seq = get_be (slice packet 16 24) in
        let payload_len = get_be (slice packet 24 26) in
        if not (get_be (slice packet 8 16) == s.session_id)
          || not (payload_len == length packet - udp_header_len)
        then (s, none)
        else if kind == udp_packet_ack
        then (handle_ack packet seq payload_len s, none)
        else if kind == udp_packet_data
        then handle_data can_write packet seq payload_len s
        else (s, none)

-- One pass over the pending datagrams, in the order in which the map yields them: the map with its
-- new counts and times, the packets that are due again, and whether the pass met a datagram that was
-- sent often enough. There it stops; what it has counted before stays counted.
pub due : ℕ → NatMap PendingDatagram → (NatMap PendingDatagram × List Bytes) × Bool
due now [] = (([], []), false)
due now ((seq, item) ∷ rest) =
    let later = due now rest in
    if ltb (now - item.last) udp_retransmit_after
    then (((seq, item) ∷ later.0.0, later.0.1), later.1)
    else if leb udp_max_retries item.retries
    then (((seq, item) ∷ rest, []), true)
    else (
      (
        (seq, record item { retries = item.retries + 1; last = now }) ∷ later.0.0,
        item.packet ∷ later.0.1,
      ),
      later.1,
    )

-- The writes that follow, of which the socket takes so many and then refuses one.
pub resend_all : ℕ → List Bytes → UdpSession → Outcome Error UdpSession
resend_all writes [] s = (s, none)
resend_all zero (packet ∷ packets) s = (finish s, some write_failed)
resend_all (suc writes) (packet ∷ packets) s =
    resend_all writes packets (record s { network = s.network ++ (packet ∷ []) })

-- One tick of `retransmitLoop`.
pub retransmit : ℕ → ℕ → UdpSession → Outcome Error UdpSession
unfolding resend_all
retransmit now writes s =
    let passed = due now s.pending in
    let counted = record s { pending = passed.0.0 } in
    if s.closed
    then (s, none)
    else if passed.1
    then (finish counted, some peer_silent)
    else resend_all writes passed.0.1 counted

-- A session that fails in `packetLoop` is finished.
pub packet_step : Crypto → Bool → Bytes → UdpSession → UdpSession
packet_step c can_write packet s =
    let (s', failure) = handle_packet c can_write packet s in
    elim failure [ none ↦ s' | some _ ↦ finish s' ]

-- What the reader of `Receive` finds: the oldest payload that was published, if there is one.
pub receive : UdpSession → UdpSession × Option Bytes
receive s = elim s.order.out [
  | [] ↦ (s, none)
  | payload ∷ rest ↦ (record s { order = record s.order { out = rest } }, some payload)
]

-- What happens to a session: a call of `Send`, a packet that arrives, a tick of `retransmitLoop`.
pub data Event : Type 0 where
  sending : Bool → ℕ → Bytes → Event
  arriving : Bool → Bytes → Event
  ticking : ℕ → ℕ → Event

pub step : Crypto → Event → UdpSession → UdpSession
step c (sending can_write now payload) s = (send c can_write now payload s).0
step c (arriving can_write packet) s = packet_step c can_write packet s
step c (ticking now writes) s = (retransmit now writes s).0
