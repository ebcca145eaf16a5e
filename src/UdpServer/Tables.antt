-- ===== src/UdpServer/Tables.antt =====
-- internal/transport/udp.go, `udpServer`: its three tables fit together.
use unknowntunnel.Prelude.{
  ℕ, ◌≤◌, ◌<◌, ◌≡◌, ◌∙◌, sym, ap, refl, inl, inr, Bool, true, false, ◌==◌, List, [], Bytes, none,
  some, if◌then◌else◌, length, nat_key, bytes_key, lookup, insert, lookup-insert, length-insert_new,
  length-insert_old, Option-cases, Bool-cases, subst, arith,
}
use unknowntunnel.UdpSession.{finish}
use unknowntunnel.UdpServer.{Entry, Server, max_udp_sessions, new_server, close_session, close}

-- At most 64 sessions; each has the address that its goroutines hold, an address is kept only for a
-- session, and a session that an address leads to has that address.
pub record IsConsistent (s : Server) : Type 0 where
  pub full : length s.sessions ≤ max_udp_sessions
  pub remote_of :
      (id : ℕ) (e : Entry)
      → lookup id s.sessions ≡ some e
      → lookup id s.session_remote ≡ some e.remote
  pub session_of : (id : ℕ) → lookup id s.sessions ≡ none → lookup id s.session_remote ≡ none
  pub bound :
      (remote : Bytes) (id : ℕ)
      → lookup remote s.by_remote ≡ some id
      → lookup id s.session_remote ≡ some remote

pub new_server-IsConsistent : IsConsistent new_server
unfolding new_server lookup
new_server-IsConsistent = record {
  full = omega arith;
  remote_of = λ id e h. absurd (cc h);
  session_of = λ id h. refl;
  bound = λ remote id h. absurd (cc h);
}

pub branch-IsConsistent :
    (b : Bool) (x y : Server) → IsConsistent x → IsConsistent y → IsConsistent (if b then x else y)
branch-IsConsistent true x y hx hy = hx
branch-IsConsistent false x y hx hy = hy

pub emptied-IsConsistent :
    (s : Server)
    → IsConsistent (record s { closed = true; sessions = []; session_remote = []; by_remote = [] })
unfolding lookup
emptied-IsConsistent s = record {
  full = omega arith;
  remote_of = λ id x h. absurd (cc h);
  session_of = λ id h. refl;
  bound = λ remote id h. absurd (cc h);
}

pub close-IsConsistent : (s : Server) → IsConsistent s → IsConsistent (close s)
unfolding close
close-IsConsistent s v =
    branch-IsConsistent s.closed s
      (record s { closed = true; sessions = []; session_remote = []; by_remote = [] }) v
      (emptied-IsConsistent s)

-- A session of the table changes, with the address that it holds.
pub changed-IsConsistent :
    (s : Server) (id : ℕ) (e e' : Entry)
    → lookup id s.sessions ≡ some e
    → e'.remote ≡ e.remote
    → IsConsistent s
    → IsConsistent (record s { sessions = insert id e' s.sessions })
changed-IsConsistent s id e e' found same v = record {
  full = omega (arith, v.full, length-insert_old id e' e s.sessions found);
  remote_of = λ j x h. elim (Bool-cases (id == j)) [
    | inl q ↦
        let at : id ≡ j = ground (arith, q) in
        let is : e' ≡ x = ground (arith, q, h, lookup-insert id j e' s.sessions) in
        subst (λ k. lookup k s.session_remote ≡ some x.remote) at
          (v.remote_of id e found ∙ ap (λ r. some r) (sym same ∙ ap (λ y. y.remote) is))
    | inr q ↦ v.remote_of j x (ground (arith, q, h, lookup-insert id j e' s.sessions))
  ];
  session_of = λ j h. v.session_of j (ground (arith, h, lookup-insert id j e' s.sessions));
  bound = v.bound;
}

pub close_session-IsConsistent :
    (id : ℕ) (s : Server) → IsConsistent s → IsConsistent (close_session id s)
unfolding close_session
close_session-IsConsistent id s v = elim (Option-cases (lookup id s.sessions)) [
  | inl e ↦ rw (e, close_session) v
  | inr (x, e) ↦
      rw (e, close_session)
        (changed-IsConsistent s id x (record x { session = finish x.session }) e refl v)
]

-- A new identifier is entered with its address.
pub entered-IsConsistent :
    (s : Server) (id : ℕ) (e : Entry) (count : ℕ) (out : List (Bytes × Bytes))
    → length s.sessions < max_udp_sessions
    → lookup id s.sessions ≡ none
    → IsConsistent s
    → IsConsistent (record s {
      sessions = insert id e s.sessions;
      session_remote = insert id e.remote s.session_remote;
      next_handle = count;
      written = out;
    })
entered-IsConsistent s id e count out room new v = record {
  full = omega (arith, room, length-insert_new id e s.sessions new);
  remote_of = λ j x h. ground (
    arith,
    h,
    v.remote_of j x,
    lookup-insert id j e s.sessions,
    lookup-insert id j e.remote s.session_remote,
  );
  session_of = λ j h. ground (
    arith,
    h,
    v.session_of j,
    lookup-insert id j e s.sessions,
    lookup-insert id j e.remote s.session_remote,
  );
  bound = λ remote j h. ground (
    arith,
    h,
    v.bound remote j h,
    v.session_of id new,
    lookup-insert id j e.remote s.session_remote,
  );
}
