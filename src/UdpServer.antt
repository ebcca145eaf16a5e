-- ===== src/UdpServer.antt =====
-- internal/transport/udp.go, `udpServer`: the sessions of the UDP listener, from a hello to its end.
-- Each goroutine that a session starts is an event of its own: its end, and its confirmation.
pub mod Tables
pub mod Endings
pub mod Events
pub mod Leak
pub mod Tests
use unknowntunnel.Prelude.{
  ℕ, zero, suc, ◌+◌, Bool, true, false, not, ◌&&◌, ◌||◌, ltb, leb, ◌==◌, List, [], ◌∷◌, ◌++◌, Bytes,
  bytes_eq, Option, none, some, if◌then◌else◌, length, slice, get_be, Map, NatMap, nat_key,
  bytes_key, lookup, insert, remove, Result, ok, err, ℤ,
}
use unknowntunnel.Keys.{Crypto, KeySet, derive_keys, new_aead}
use unknowntunnel.Handshake.{
  Handshake, handshake_magic, handshake_hello, handshake_welcome, encode_handshake,
  decode_handshake, validate_handshake,
}
use unknowntunnel.UdpSession.{
  UdpSession, new_udp_session, finish, packet_step, udp_header_len, udp_data_magic,
}

abbrev pub max_udp_sessions : ℕ
max_udp_sessions = 64

-- A session of the table. `handle` tells it from a later one with the same identifier; `watched` is
-- whether the goroutine that waits for its end was started, and `remote` the address that it holds.
pub record Entry : Type 0 where
  pub handle : ℕ
  pub session : UdpSession
  pub remote : Bytes
  pub watched : Bool

-- `next_handle` counts the sessions that were made; `written` is what was sent to which address, and
-- `announced` lists the handles that were passed to `onSession`, oldest first.
pub record Server : Type 0 where
  pub closed : Bool
  pub sessions : NatMap Entry
  pub session_remote : NatMap Bytes
  pub by_remote : Map Bytes ℕ
  pub next_handle : ℕ
  pub written : List (Bytes × Bytes)
  pub announced : List ℕ

-- `startUDPServer`, after the socket is open.
pub new_server : Server
new_server = record {
  closed = false;
  sessions = [];
  session_remote = [];
  by_remote = [];
  next_handle = 0;
  written = [];
  announced = [];
}

-- `Close` of a session of the table.
pub close_session : ℕ → Server → Server
close_session id s = elim (lookup id s.sessions) [
  | none ↦ s
  | some e ↦ record s { sessions = insert id (record e { session = finish e.session }) s.sessions }
]

-- `Close`.
pub close : Server → Server
close s =
    if s.closed
    then s
    else record s { closed = true; sessions = []; session_remote = []; by_remote = [] }

-- What the answer to a hello needs from outside: the clock, and what the random source returned.
pub record Chance : Type 0 where
  pub since : ℕ → ℤ
  pub now : ℕ
  pub session_id : Option ℕ
  pub nonce : Option Bytes

module _ (c : Crypto) (secret node_id peer_id : Bytes) where
  -- The hello of the peer, if the packet is one.
  pub read_hello : Chance → Bytes → Option Handshake
  read_hello chance packet = elim (decode_handshake c packet [] secret) [
    | err _ ↦ none
    | ok hello ↦ elim (validate_handshake chance.since hello handshake_hello peer_id node_id) [
      | err _ ↦ none
      | ok _ ↦ some hello
    ]
  ]

  pub welcome : Chance → ℕ → Bytes → Handshake
  welcome chance id nonce = record {
    kind = handshake_welcome;
    session_id = id;
    timestamp = chance.now;
    nonce = nonce;
    node_id = node_id;
    peer_id = peer_id;
  }

  pub open_session : ℕ → KeySet → Option UdpSession
  open_session id keys =
      elim (new_udp_session id keys.server_send keys.client_send keys.server_ack keys.client_ack) [
        | err _ ↦ none
        | ok session ↦ some session
      ]

  -- The session is entered before its welcome goes out. Where that write fails it is closed, and
  -- nothing waits for its end.
  pub register : Bool → Bytes → ℕ → UdpSession → Bytes → Server → Server
  register can_write remote id session bytes s =
      let entered = record s {
        session_remote = insert id remote s.session_remote;
        next_handle = s.next_handle + 1;
      } in
      if can_write
      then record entered {
        sessions =
            insert id
              (record {
                handle = s.next_handle;
                session = session;
                remote = remote;
                watched = true;
              })
              s.sessions;
        written = s.written ++ ((remote, bytes) ∷ []);
      }
      else record entered {
        sessions =
            insert id
              (record {
                handle = s.next_handle;
                session = finish session;
                remote = remote;
                watched = false;
              })
              s.sessions;
      }

  pub answer : Chance → Bool → Bytes → Handshake → ℕ → Bytes → Server → Server
  unfolding welcome open_session register
  answer chance can_write remote hello id nonce s =
      elim (encode_handshake c (welcome chance id nonce) hello.nonce secret) [
        | err _ ↦ s
        | ok bytes ↦
            elim (open_session id (derive_keys c secret hello.nonce nonce peer_id node_id)) [
              | none ↦ s
              | some session ↦ register can_write remote id session bytes s
            ]
      ]

  -- `handleHello`, up to the start of the goroutines.
  pub handle_hello : Chance → Bool → Bytes → Bytes → Server → Server
  unfolding read_hello answer
  handle_hello chance can_write remote packet s = elim (read_hello chance packet) [
    | none ↦ s
    | some hello ↦ if leb max_udp_sessions (length s.sessions) then s else elim chance.session_id [
      | none ↦ s
      | some id ↦ elim chance.nonce [
        | none ↦ s
        | some nonce ↦ answer chance can_write remote hello id nonce s
      ]
    ]
  ]

  -- `deliverPacket`, and its packet's turn in `packetLoop`: a packet that finds the queue full ends the session.
  pub deliver_packet : Bool → Bool → Bytes → UdpSession → UdpSession
  deliver_packet queue_full can_write packet u =
      if u.closed then u else if queue_full then finish u else packet_step c can_write packet u

  pub same_remote : Bytes → Option Bytes → Bool
  same_remote remote none = false
  same_remote remote (some r) = bytes_eq r remote

  pub route : Bool → Bool → Bytes → Bytes → Server → Server
  unfolding deliver_packet same_remote
  route queue_full can_write remote packet s =
      let id = get_be (slice packet 8 16) in
      elim (lookup id s.sessions) [
        | none ↦ s
        | some e ↦
            if same_remote remote (lookup id s.session_remote)
            then record s {
              sessions =
                  insert id
                    (record e { session = deliver_packet queue_full can_write packet e.session })
                    s.sessions;
            }
            else s
      ]

  -- One packet of `readLoop`.
  pub read_packet : Chance → Bool → Bool → Bytes → Bytes → Server → Server
  unfolding route
  read_packet chance queue_full can_write remote packet s =
      if leb 4 (length packet) && bytes_eq (slice packet 0 4) handshake_magic
      then handle_hello chance can_write remote packet s
      else if ltb (length packet) udp_header_len || not (bytes_eq (slice packet 0 4) udp_data_magic)
      then s
      else route queue_full can_write remote packet s

-- The first goroutine: a watched session that ended is taken out, unless another has its place.
pub drop_remote : Bytes → ℕ → Map Bytes ℕ → Map Bytes ℕ
drop_remote remote id m = elim (lookup remote m) [
  | none ↦ m
  | some j ↦ if j == id then remove remote m else m
]

pub session_ended : ℕ → ℕ → Server → Server
unfolding drop_remote
session_ended handle id s = elim (lookup id s.sessions) [
  | none ↦ s
  | some e ↦
      if ((e.handle == handle) && e.watched) && e.session.closed
      then record s {
        sessions = remove id s.sessions;
        session_remote = remove id s.session_remote;
        by_remote = drop_remote e.remote id s.by_remote;
      }
      else s
]

-- The session that a new one of its address replaces is closed.
pub close_old : Option ℕ → ℕ → Server → Server
unfolding close_session
close_old none id s = s
close_old (some old) id s = if (old == 0) || (old == id) then s else close_session old s

-- The second goroutine, which only a watched session has, with the result of `confirmSessionServer`.
pub session_confirmed : Bool → ℕ → ℕ → Server → Server
unfolding close_session close_old
session_confirmed confirmed handle id s = elim (lookup id s.sessions) [
  | none ↦ s
  | some e ↦
      if not ((e.handle == handle) && e.watched)
      then s
      else if not confirmed
      then close_session id s
      else let old = lookup e.remote s.by_remote in
        let t = close_old old id (record s { by_remote = insert e.remote id s.by_remote }) in
        record t { announced = t.announced ++ (handle ∷ []) }
]

-- What happens at the server.
pub data Event : Type 0 where
  packet_read : Chance → Bool → Bool → Bytes → Bytes → Event
  ended : ℕ → ℕ → Event
  confirmation : Bool → ℕ → ℕ → Event
  closing : Event

pub step : Crypto → Bytes → Bytes → Bytes → Event → Server → Server
step c secret node_id peer_id (packet_read chance queue_full can_write remote packet) s =
    read_packet c secret node_id peer_id chance queue_full can_write remote packet s
step c secret node_id peer_id (ended handle id) s = session_ended handle id s
step c secret node_id peer_id (confirmation confirmed handle id) s =
    session_confirmed confirmed handle id s
step c secret node_id peer_id closing s = close s
