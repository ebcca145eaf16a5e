-- ===== src/UdpServer/Leak.antt =====
-- internal/transport/udp.go, `handleHello`: what becomes of the sessions whose welcome could not be written.
use unknowntunnel.Prelude.{
  ℕ, ◌≤◌, ◌≡◌, ◌∙◌, ap, refl, Bool, true, false, not, ◌&&◌, ◌||◌, ltb, leb, ◌==◌, ==_iff, List, [],
  ◌∷◌, Bytes, bytes_eq, Option, none, some, if◌then◌else◌, length, slice, get_be, nat_key, lookup,
  insert, lookup-insert, length-insert_old, All, arith,
}
use unknowntunnel.Keys.{Crypto}
use unknowntunnel.Handshake.{handshake_magic}
use unknowntunnel.UdpSession.{UdpSession, finish, udp_header_len, udp_data_magic}
use unknowntunnel.UdpServer.{
  Entry, Server, Chance, Event, packet_read, ended, confirmation, closing, max_udp_sessions,
  read_hello, handle_hello, register, deliver_packet, same_remote, route, read_packet,
  session_ended, session_confirmed, step,
}

-- The table is full of sessions that no goroutine watches.
pub record IsStuck (s : Server) : Type 0 where
  pub full : max_udp_sessions ≤ length s.sessions
  pub unwatched : (id : ℕ) (e : Entry) → lookup id s.sessions ≡ some e → e.watched ≡ false

-- What one event leaves: a stuck server that has written and announced nothing.
record Remains (s t : Server) : Type 0 where
  stuck : IsStuck t
  written : t.written ≡ s.written
  announced : t.announced ≡ s.announced

same-Remains : (s : Server) → IsStuck s → Remains s s
same-Remains s v = record { stuck = v; written = refl; announced = refl }

branch-Remains :
    (b : Bool) (s x y : Server) → Remains s x → Remains s y → Remains s (if b then x else y)
branch-Remains true s x y hx hy = hx
branch-Remains false s x y hx hy = hy

changed-Remains :
    (s : Server) (id : ℕ) (e : Entry) (u : UdpSession)
    → lookup id s.sessions ≡ some e
    → IsStuck s
    → Remains s (record s { sessions = insert id (record e { session = u }) s.sessions })
changed-Remains s id e u found v = record {
  stuck = record {
    full =
        omega (arith, v.full, length-insert_old id (record e { session = u }) e s.sessions found);
    unwatched = λ j x h. ground (
      arith,
      h,
      v.unwatched j x,
      v.unwatched id e found,
      lookup-insert id j (record e { session = u }) s.sessions,
    );
  };
  written = refl;
  announced = refl;
}

option-Remains :
    {A : Type 0} (o : Option A) (s : Server) (f : A → Server)
    → IsStuck s
    → ((a : A) → o ≡ some a → Remains s (f a))
    → Remains s (elim o [ none ↦ s | some a ↦ f a ])
option-Remains none s f v h = same-Remains s v
option-Remains (some a) s f v h = h a refl

refused-Remains :
    (b : Bool) (s x y : Server) → b ≡ false → Remains s y → Remains s (if b then x else y)
refused-Remains true s x y e h = absurd (cc e)
refused-Remains false s x y e h = h

skipped-Remains :
    (b : Bool) (s y : Server) → b ≡ false → IsStuck s → Remains s (if not b then s else y)
skipped-Remains true s y e v = absurd (cc e)
skipped-Remains false s y e v = same-Remains s v

and_false : (a b : Bool) → b ≡ false → (a && b) ≡ false
and_false a b e = ground (arith, e)

session_ended-Remains :
    (handle id : ℕ) (s : Server) → IsStuck s → Remains s (session_ended handle id s)
unfolding session_ended
session_ended-Remains handle id s v = option-Remains (lookup id s.sessions) s _ v (λ e found.
    refused-Remains (((e.handle == handle) && e.watched) && e.session.closed) s _ s
      (ap (λ b. b && e.session.closed)
        (and_false (e.handle == handle) e.watched (v.unwatched id e found)))
      (same-Remains s v))

session_confirmed-Remains :
    (confirmed : Bool) (handle id : ℕ) (s : Server)
    → IsStuck s
    → Remains s (session_confirmed confirmed handle id s)
unfolding session_confirmed
session_confirmed-Remains confirmed handle id s v =
    option-Remains (lookup id s.sessions) s _ v (λ e found.
      skipped-Remains ((e.handle == handle) && e.watched) s _
        (and_false (e.handle == handle) e.watched (v.unwatched id e found)) v)

-- Every event but the closing of the server.
unfoldable pub IsOpenEvent : Event → Type 0
IsOpenEvent closing = ⊥
IsOpenEvent (packet_read chance queue_full can_write remote packet) = Unit
IsOpenEvent (ended handle id) = Unit
IsOpenEvent (confirmation confirmed handle id) = Unit

module _ (c : Crypto) (secret node_id peer_id : Bytes) where
  handle_hello-Remains :
      (chance : Chance) (can_write : Bool) (remote packet : Bytes) (s : Server)
      → IsStuck s
      → Remains s (handle_hello c secret node_id peer_id chance can_write remote packet s)
  unfolding handle_hello
  handle_hello-Remains chance can_write remote packet s v =
      option-Remains (read_hello c secret node_id peer_id chance packet) s _ v (λ hello _.
        let full : leb max_udp_sessions (length s.sessions) ≡ true = ground (arith, v.full) in
        rw full (same-Remains s v))

  route-Remains :
      (queue_full can_write : Bool) (remote packet : Bytes) (s : Server)
      → IsStuck s
      → Remains s (route c secret node_id peer_id queue_full can_write remote packet s)
  unfolding route
  route-Remains queue_full can_write remote packet s v =
      let id = get_be (slice packet 8 16) in
      option-Remains (lookup id s.sessions) s _ v (λ e found.
        branch-Remains (same_remote c secret node_id peer_id remote (lookup id s.session_remote)) s
          _ s
          (changed-Remains s id e
            (deliver_packet c secret node_id peer_id queue_full can_write packet e.session) found v)
          (same-Remains s v))

  step-Remains :
      (event : Event) (s : Server)
      → IsOpenEvent event
      → IsStuck s
      → Remains s (step c secret node_id peer_id event s)
  unfolding step IsOpenEvent read_packet
  step-Remains (packet_read chance queue_full can_write remote packet) s going v =
      branch-Remains (leb 4 (length packet) && bytes_eq (slice packet 0 4) handshake_magic) s _ _
        (handle_hello-Remains chance can_write remote packet s v)
        (branch-Remains
          (ltb (length packet) udp_header_len || not (bytes_eq (slice packet 0 4) udp_data_magic)) s
          s _ (same-Remains s v) (route-Remains queue_full can_write remote packet s v))
  step-Remains (ended handle id) s going v = session_ended-Remains handle id s v
  step-Remains (confirmation confirmed handle id) s going v =
      session_confirmed-Remains confirmed handle id s v
  step-Remains closing s going v = absurd going

  abbrev pub run : List Event → Server → Server
  run [] s = s
  run (event ∷ events) s = run events (step c secret node_id peer_id event s)

  -- A server whose table has at least 64 sessions, none of them watched by the goroutine that
  -- waits for its end, writes no welcome and announces no session, whatever happens to it but
  -- its closing.
  pub run_stuck :
      (events : List Event) (s : Server)
      → All IsOpenEvent events
      → IsStuck s
      → ((run events s).written ≡ s.written) × ((run events s).announced ≡ s.announced)
  run_stuck [] s going v = (refl, refl)
  run_stuck (event ∷ events) s (o, rest) v =
      let r = step-Remains event s o v in
      let later = run_stuck events (step c secret node_id peer_id event s) rest r.stuck in
      (later.0 ∙ r.written, later.1 ∙ r.announced)

  -- A hello whose welcome cannot be written leaves such a session.
  pub register_unwritten :
      (remote : Bytes) (id : ℕ) (session : UdpSession) (welcome : Bytes) (s : Server)
      → lookup id (register c secret node_id peer_id false remote id session welcome s).sessions
        ≡ some (record {
          handle = s.next_handle;
          session = finish session;
          remote = remote;
          watched = false;
        })
  unfolding register
  register_unwritten remote id session welcome s = ground (
    arith,
    lookup-insert id id
        (record {
          handle = s.next_handle;
          session = finish session;
          remote = remote;
          watched = false;
        })
        s.sessions,
    ==_iff id id,
  )
