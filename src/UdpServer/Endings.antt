-- ===== src/UdpServer/Endings.antt =====
-- internal/transport/udp.go, `udpServer`: the tables after a session has ended or was confirmed.
use unknowntunnel.Prelude.{
  ℕ, ◌≡◌, ◌≢◌, inl, inr, Bool, not, ◌&&◌, ◌||◌, ◌==◌, List, [], ◌∷◌, ◌++◌, Bytes, bytes_eq_iff,
  Option, none, some, Map, nat_key, bytes_key, lookup, insert, remove, lookup-insert, lookup-remove,
  length-remove-le, Option-cases, arith,
}
use unknowntunnel.UdpServer.{
  Entry, Server, close_session, drop_remote, session_ended, close_old, session_confirmed,
}
use unknowntunnel.UdpServer.Tables.{branch-IsConsistent, close_session-IsConsistent, IsConsistent}

-- What `drop_remote` leaves was there, and it is not the pair that it drops.
pub drop_remote_keeps :
    (remote r : Bytes) (id j : ℕ) (m : Map Bytes ℕ)
    → lookup r (drop_remote remote id m) ≡ some j
    → lookup r m ≡ some j
unfolding drop_remote
drop_remote_keeps remote r id j m h = ground (arith, h, lookup-remove remote r m)

pub drop_remote_drops :
    (remote : Bytes) (id : ℕ) (m : Map Bytes ℕ) → lookup remote (drop_remote remote id m) ≢ some id
unfolding drop_remote
drop_remote_drops remote id m h =
    ground (arith, h, lookup-remove remote remote m, bytes_eq_iff remote remote)

pub kept_elsewhere :
    (s : Server) (id : ℕ) (e : Entry)
    → lookup id s.sessions ≡ some e
    → IsConsistent s
    → (remote : Bytes) (j : ℕ) → lookup remote (drop_remote e.remote id s.by_remote) ≡ some j
    → id ≢ j
kept_elsewhere s id e found v remote j h q =
    let was = v.bound remote j (drop_remote_keeps e.remote remote id j s.by_remote h) in
    let there = v.remote_of id e found in
    let same : e.remote ≡ remote = ground (arith, was, there, q) in
    drop_remote_drops e.remote id s.by_remote (cc (same, h, q))

pub removed-IsConsistent :
    (s : Server) (id : ℕ) (e : Entry)
    → lookup id s.sessions ≡ some e
    → IsConsistent s
    → IsConsistent (record s {
      sessions = remove id s.sessions;
      session_remote = remove id s.session_remote;
      by_remote = drop_remote e.remote id s.by_remote;
    })
removed-IsConsistent s id e found v = record {
  full = omega (arith, v.full, length-remove-le id s.sessions);
  remote_of = λ j x h. ground (
    arith,
    h,
    v.remote_of j x,
    lookup-remove id j s.sessions,
    lookup-remove id j s.session_remote,
  );
  session_of = λ j h. ground (
    arith,
    h,
    v.session_of j,
    lookup-remove id j s.sessions,
    lookup-remove id j s.session_remote,
  );
  bound = λ remote j h.
      let was = v.bound remote j (drop_remote_keeps e.remote remote id j s.by_remote h) in
      ground
        (arith, was, lookup-remove id j s.session_remote, kept_elsewhere s id e found v remote j h);
}

pub session_ended-IsConsistent :
    (handle id : ℕ) (s : Server) → IsConsistent s → IsConsistent (session_ended handle id s)
unfolding session_ended
session_ended-IsConsistent handle id s v = elim (Option-cases (lookup id s.sessions)) [
  | inl e ↦ rw (e, session_ended) v
  | inr (x, e) ↦
      rw (e, session_ended)
        (branch-IsConsistent (((x.handle == handle) && x.watched) && x.session.closed)
          (record s {
            sessions = remove id s.sessions;
            session_remote = remove id s.session_remote;
            by_remote = drop_remote x.remote id s.by_remote;
          })
          s (removed-IsConsistent s id x e v) v)
]

pub close_old-IsConsistent :
    (old : Option ℕ) (id : ℕ) (s : Server) → IsConsistent s → IsConsistent (close_old old id s)
unfolding close_old
close_old-IsConsistent none id s v = v
close_old-IsConsistent (some old) id s v =
    branch-IsConsistent ((old == 0) || (old == id)) s (close_session old s) v
      (close_session-IsConsistent old s v)

-- The address of a session leads to it.
pub bound-IsConsistent :
    (s : Server) (id : ℕ) (e : Entry)
    → lookup id s.sessions ≡ some e
    → IsConsistent s
    → IsConsistent (record s { by_remote = insert e.remote id s.by_remote })
bound-IsConsistent s id e found v = record {
  full = v.full;
  remote_of = v.remote_of;
  session_of = v.session_of;
  bound = λ remote j h. ground (
    arith,
    h,
    v.bound remote j,
    v.remote_of id e found,
    lookup-insert e.remote remote id s.by_remote,
    bytes_eq_iff e.remote remote,
  );
}

pub announced-IsConsistent :
    (s : Server) (more : List ℕ) → IsConsistent s → IsConsistent (record s { announced = more })
announced-IsConsistent s more v = record {
  full = v.full;
  remote_of = v.remote_of;
  session_of = v.session_of;
  bound = v.bound;
}

pub session_confirmed-IsConsistent :
    (confirmed : Bool) (handle id : ℕ) (s : Server)
    → IsConsistent s
    → IsConsistent (session_confirmed confirmed handle id s)
unfolding session_confirmed
session_confirmed-IsConsistent confirmed handle id s v =
    elim (Option-cases (lookup id s.sessions)) [
      | inl e ↦ rw (e, session_confirmed) v
      | inr (x, e) ↦
          let bound_to = record s { by_remote = insert x.remote id s.by_remote } in
          let t = close_old (lookup x.remote s.by_remote) id bound_to in
          let good = announced-IsConsistent t (t.announced ++ (handle ∷ [])) (
            close_old-IsConsistent (lookup x.remote s.by_remote) id bound_to
              (bound-IsConsistent s id x e v)) in
          rw (e, session_confirmed)
            (branch-IsConsistent (not ((x.handle == handle) && x.watched)) s _ v (
              branch-IsConsistent (not confirmed) (close_session id s) _
                (close_session-IsConsistent id s v) good))
    ]
