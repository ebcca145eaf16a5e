-- ===== src/UdpServer/Events.antt =====
-- internal/transport/udp.go, `udpServer`: each event keeps the tables consistent.
use unknowntunnel.Prelude.{
  ℕ, ◌+◌, ◌<◌, ◌≡◌, refl, inl, inr, Bool, true, false, not, ◌&&◌, ◌||◌, ltb, leb, [], ◌∷◌, ◌++◌,
  Bytes, bytes_eq, Option, none, some, length, slice, get_be, nat_key, bytes_key, lookup, Result,
  ok, err, Bool-cases, arith,
}
use unknowntunnel.Keys.{Crypto, derive_keys}
use unknowntunnel.Handshake.{Handshake, encode_handshake, handshake_magic}
use unknowntunnel.UdpSession.{UdpSession, finish, udp_header_len, udp_data_magic}
use unknowntunnel.UdpServer.{
  Server, Chance, Event, packet_read, ended, confirmation, closing, max_udp_sessions, read_hello,
  welcome, open_session, register, answer, handle_hello, deliver_packet, same_remote, route,
  read_packet, step,
}
use unknowntunnel.UdpServer.Tables.{
  branch-IsConsistent, close-IsConsistent, changed-IsConsistent, entered-IsConsistent, IsConsistent,
}
use unknowntunnel.UdpServer.Endings.{session_ended-IsConsistent, session_confirmed-IsConsistent}

option-IsConsistent :
    {A : Type 0} (o : Option A) (s : Server) (f : A → Server)
    → IsConsistent s
    → ((a : A) → o ≡ some a → IsConsistent (f a))
    → IsConsistent (elim o [ none ↦ s | some a ↦ f a ])
option-IsConsistent none s f v h = v
option-IsConsistent (some a) s f v h = h a refl

result-IsConsistent :
    {E A : Type 0} (r : Result E A) (s : Server) (f : A → Server)
    → IsConsistent s
    → ((a : A) → IsConsistent (f a))
    → IsConsistent (elim r [ err _ ↦ s | ok a ↦ f a ])
result-IsConsistent (err _) s f v h = v
result-IsConsistent (ok a) s f v h = h a

-- The random source returned no identifier of the table.
unfoldable pub IsFresh : Chance → Server → Type 0
IsFresh chance s = (id : ℕ) → chance.session_id ≡ some id → lookup id s.sessions ≡ none

unfoldable pub IsFreshEvent : Event → Server → Type 0
IsFreshEvent (packet_read chance queue_full can_write remote packet) s = IsFresh chance s
IsFreshEvent (ended handle id) s = Unit
IsFreshEvent (confirmation confirmed handle id) s = Unit
IsFreshEvent closing s = Unit

module _ (c : Crypto) (secret node_id peer_id : Bytes) where
  register-IsConsistent :
      (can_write : Bool) (remote : Bytes) (id : ℕ) (session : UdpSession) (packet : Bytes)
      (s : Server)
      → length s.sessions < max_udp_sessions
      → lookup id s.sessions ≡ none
      → IsConsistent s
      → IsConsistent (register c secret node_id peer_id can_write remote id session packet s)
  unfolding register
  register-IsConsistent true remote id session packet s room new v =
      entered-IsConsistent s id
        (record { handle = s.next_handle; session = session; remote = remote; watched = true })
        (s.next_handle + 1) (s.written ++ ((remote, packet) ∷ [])) room new v
  register-IsConsistent false remote id session packet s room new v =
      entered-IsConsistent s id
        (record {
          handle = s.next_handle;
          session = finish session;
          remote = remote;
          watched = false;
        })
        (s.next_handle + 1) s.written room new v

  answer-IsConsistent :
      (chance : Chance) (can_write : Bool) (remote : Bytes) (hello : Handshake) (id : ℕ)
      (nonce : Bytes) (s : Server)
      → length s.sessions < max_udp_sessions
      → lookup id s.sessions ≡ none
      → IsConsistent s
      → IsConsistent (answer c secret node_id peer_id chance can_write remote hello id nonce s)
  unfolding answer
  answer-IsConsistent chance can_write remote hello id nonce s room new v =
      result-IsConsistent
        (encode_handshake c (welcome c secret node_id peer_id chance id nonce) hello.nonce secret) s
        _ v
        (λ packet.
          option-IsConsistent
            (open_session c secret node_id peer_id id
              (derive_keys c secret hello.nonce nonce peer_id node_id))
            s _ v
            (λ session _. register-IsConsistent can_write remote id session packet s room new v))

  handle_hello-IsConsistent :
      (chance : Chance) (can_write : Bool) (remote packet : Bytes) (s : Server)
      → IsFresh chance s
      → IsConsistent s
      → IsConsistent (handle_hello c secret node_id peer_id chance can_write remote packet s)
  unfolding handle_hello IsFresh
  handle_hello-IsConsistent chance can_write remote packet s fresh v =
      option-IsConsistent (read_hello c secret node_id peer_id chance packet) s _ v (λ hello _.
        elim (Bool-cases (leb max_udp_sessions (length s.sessions))) [
          | inl e ↦ rw e v
          | inr e ↦ rw e (
              option-IsConsistent chance.session_id s _ v (λ id drawn.
                option-IsConsistent chance.nonce s _ v (λ nonce _.
                  answer-IsConsistent chance can_write remote hello id nonce s (ground (arith, e))
                    (fresh id drawn) v)))
        ])

  route-IsConsistent :
      (queue_full can_write : Bool) (remote packet : Bytes) (s : Server)
      → IsConsistent s
      → IsConsistent (route c secret node_id peer_id queue_full can_write remote packet s)
  unfolding route
  route-IsConsistent queue_full can_write remote packet s v =
      let id = get_be (slice packet 8 16) in
      option-IsConsistent (lookup id s.sessions) s _ v (λ e found.
        branch-IsConsistent
          (same_remote c secret node_id peer_id remote (lookup id s.session_remote)) _ s
          (changed-IsConsistent s id e
            (record e {
              session =
                  deliver_packet c secret node_id peer_id queue_full can_write packet e.session;
            })
            found refl v)
          v)

  read_packet-IsConsistent :
      (chance : Chance) (queue_full can_write : Bool) (remote packet : Bytes) (s : Server)
      → IsFresh chance s
      → IsConsistent s
      → IsConsistent
          (read_packet c secret node_id peer_id chance queue_full can_write remote packet s)
  unfolding read_packet
  read_packet-IsConsistent chance queue_full can_write remote packet s fresh v =
      branch-IsConsistent (leb 4 (length packet) && bytes_eq (slice packet 0 4) handshake_magic) _ _
        (handle_hello-IsConsistent chance can_write remote packet s fresh v)
        (branch-IsConsistent
          (ltb (length packet) udp_header_len || not (bytes_eq (slice packet 0 4) udp_data_magic)) s
          _ v (route-IsConsistent queue_full can_write remote packet s v))

  -- Each event at the UDP server, where a hello draws an identifier that is not in the table,
  -- keeps its three tables consistent: at most 64 sessions, the address of each that its
  -- goroutines hold and no other addresses, and each address leads to a session with that
  -- address.
  pub step-IsConsistent :
      (event : Event) (s : Server)
      → IsFreshEvent event s
      → IsConsistent s
      → IsConsistent (step c secret node_id peer_id event s)
  unfolding step IsFreshEvent
  step-IsConsistent (packet_read chance queue_full can_write remote packet) s fresh v =
      read_packet-IsConsistent chance queue_full can_write remote packet s fresh v
  step-IsConsistent (ended handle id) s fresh v = session_ended-IsConsistent handle id s v
  step-IsConsistent (confirmation confirmed handle id) s fresh v =
      session_confirmed-IsConsistent confirmed handle id s v
  step-IsConsistent closing s fresh v = close-IsConsistent s v
