-- ===== src/Manager/Failover.antt =====
-- internal/transport/manager.go, `Send`: one carrier takes a message, the preferred one first.
use unknowntunnel.Prelude.{
  ℕ, ◌≡◌, ◌≢◌, ◌⊎◌, refl, inl, inr, true, List, All, ap, [], ◌∷◌, ◌++◌, Bytes, Option, none, some,
  bytes_key, lookup, lookup-remove, lookup-insert, bytes_eq_self, arith, Option-cases,
}
use unknowntunnel.Reorder.{Outcome}
use unknowntunnel.Manager.{
  Carriers, SendError, Manager, order, remove_session, add_session, try_each, send,
}

-- What a carrier promises of the messages it took: one that it sends is taken once, one that it
-- refuses not at all, and closing a session takes none.
pub record IsCarrier {W E : Type 0} (c : Carriers W E) : Type 0 where
  pub taken : W → List (ℕ × Bytes)
  pub taken-send :
      (s : ℕ) (message : Bytes) (w w' : W)
      → c.send_on s message w ≡ (w', none)
      → taken w' ≡ taken w ++ ((s, message) ∷ [])
  pub taken-fail :
      (s : ℕ) (message : Bytes) (w w' : W) (e : E)
      → c.send_on s message w ≡ (w', some e)
      → taken w' ≡ taken w
  pub taken-shut : (s : ℕ) (w : W) → taken (c.shut s w) ≡ taken w

module _ {W E : Type 0} (c : Carriers W E) (ok : IsCarrier c) where
  taken-remove_session :
      (kind : Bytes) (s : ℕ) (m : Manager W)
      → ok.taken (remove_session c kind s m).world ≡ ok.taken m.world
  unfolding remove_session
  taken-remove_session kind s m = ground (arith, ok.taken-shut s m.world)

  lookup-remove_session :
      (kind : Bytes) (s : ℕ) (m : Manager W)
      → lookup kind m.sessions ≡ some s
      → lookup kind (remove_session c kind s m).sessions ≡ none
  unfolding remove_session
  lookup-remove_session kind s m h =
      ground (arith, lookup-remove kind kind m.sessions, bytes_eq_self kind)

  lookup-remove_session-none :
      (kind k : Bytes) (s : ℕ) (m : Manager W)
      → lookup k m.sessions ≡ none
      → lookup k (remove_session c kind s m).sessions ≡ none
  unfolding remove_session
  lookup-remove_session-none kind k s m h = ground (arith, lookup-remove kind k m.sessions)

  lookup-remove_session-some :
      (kind k : Bytes) (s t : ℕ) (m : Manager W)
      → lookup k (remove_session c kind s m).sessions ≡ some t
      → lookup k m.sessions ≡ some t
  unfolding remove_session
  lookup-remove_session-some kind k s t m h = ground (arith, lookup-remove kind k m.sessions)

  abbrev pub Gone : Manager W → Bytes → Type 0
  Gone m k = lookup k m.sessions ≡ none

  try_each_none :
      (message : Bytes) (kind : Bytes) (kinds : List Bytes) (last : Option E) (m : Manager W)
      → Gone m kind
      → try_each c message (kind ∷ kinds) last m ≡ try_each c message kinds last m
  unfolding try_each
  try_each_none message kind kinds last m h = rw (h, try_each)

  try_each_ok :
      (message : Bytes) (kind : Bytes) (kinds : List Bytes) (last : Option E) (m : Manager W)
      (s : ℕ) (w : W)
      → lookup kind m.sessions ≡ some s
      → c.send_on s message m.world ≡ (w, none)
      → try_each c message (kind ∷ kinds) last m ≡ (record m { world = w }, none)
  unfolding try_each
  try_each_ok message kind kinds last m s w h e = rw (h, try_each, e)

  try_each_err :
      (message : Bytes) (kind : Bytes) (kinds : List Bytes) (last : Option E) (m : Manager W)
      (s : ℕ) (w : W) (x : E)
      → lookup kind m.sessions ≡ some s
      → c.send_on s message m.world ≡ (w, some x)
      → try_each c message (kind ∷ kinds) last m
        ≡ try_each c message kinds (some x) (remove_session c kind s (record m { world = w }))
  unfolding try_each
  try_each_err message kind kinds last m s w x h e = rw (h, try_each, e)

  send_on-cases :
      (s : ℕ) (message : Bytes) (w : W)
      → ((w' : W) × (c.send_on s message w ≡ (w', none)))
        ⊎ ((w' : W) × (x : E) × (c.send_on s message w ≡ (w', some x)))
  send_on-cases s message w = elim (Option-cases (c.send_on s message w).1) [
    | inl e ↦ inl ((c.send_on s message w).0, cc e)
    | inr (x, e) ↦ inr ((c.send_on s message w).0, x, cc e)
  ]

  try_each-Gone :
      (message : Bytes) (kinds : List Bytes) (last : Option E) (m : Manager W) (k : Bytes)
      → Gone m k
      → Gone (try_each c message kinds last m).0 k
  unfolding try_each
  try_each-Gone message [] last m k h = h
  try_each-Gone message (kind ∷ kinds) last m k h = elim (Option-cases (lookup kind m.sessions)) [
    | inl there ↦
        rw (try_each_none message kind kinds last m there) (try_each-Gone message kinds last m k h)
    | inr (s, there) ↦ elim (send_on-cases s message m.world) [
      | inl (w, e) ↦ rw (try_each_ok message kind kinds last m s w there e) h
      | inr (w, x, e) ↦ rw (try_each_err message kind kinds last m s w x there e) (
          try_each-Gone message kinds (some x) (remove_session c kind s (record m { world = w })) k
            (lookup-remove_session-none kind k s (record m { world = w }) h))
    ]
  ]

  -- What the loop of `Send` leaves, whatever the sessions answer.
  abbrev pub Settled : Bytes → List Bytes → Manager W → Outcome (SendError E) (Manager W) → Type 0
  Settled message kinds m (m', none) =
      (kind : Bytes) × (s : ℕ) × (lookup kind m.sessions ≡ some s)
      × (ok.taken m'.world ≡ ok.taken m.world ++ ((s, message) ∷ []))
      × (before : List Bytes) × (after : List Bytes) × (kinds ≡ before ++ (kind ∷ after))
      × All (Gone m') before
  Settled message kinds m (m', some e) =
      (ok.taken m'.world ≡ ok.taken m.world) × All (Gone m') kinds

  Settled-later :
      (message kind : Bytes) (kinds : List Bytes) (m n : Manager W)
      (r : Outcome (SendError E) (Manager W))
      → ok.taken n.world ≡ ok.taken m.world
      → ((k : Bytes) (t : ℕ) → lookup k n.sessions ≡ some t → lookup k m.sessions ≡ some t)
      → Gone r.0 kind
      → Settled message kinds n r
      → Settled message (kind ∷ kinds) m r
  Settled-later message kind kinds m n (m', none) same shrink gone
        (k, s, there, took, before, after, split, all) =
      (k, s, shrink k s there, cc, kind ∷ before, after, ap (λ x. kind ∷ x) split, (gone, all))
  Settled-later message kind kinds m n (m', some e) same shrink gone (took, all) = (cc, (gone, all))

  pub try_each-Settled :
      (message : Bytes) (kinds : List Bytes) (last : Option E) (m : Manager W)
      → Settled message kinds m (try_each c message kinds last m)
  unfolding try_each
  try_each-Settled message [] last m = (refl, tt)
  try_each-Settled message (kind ∷ kinds) last m = elim (Option-cases (lookup kind m.sessions)) [
    | inl there ↦ rw (try_each_none message kind kinds last m there) (
        Settled-later message kind kinds m m (try_each c message kinds last m) refl (λ k t h. h)
          (try_each-Gone message kinds last m kind there) (try_each-Settled message kinds last m))
    | inr (s, there) ↦ elim (send_on-cases s message m.world) [
      | inl (w, e) ↦
          rw (try_each_ok message kind kinds last m s w there e)
            (kind, s, there, ok.taken-send s message m.world w e, [], kinds, refl, tt)
      | inr (w, x, e) ↦
          let n : Manager W = remove_session c kind s (record m { world = w }) in
          rw (try_each_err message kind kinds last m s w x there e) (
            Settled-later message kind kinds m n (try_each c message kinds (some x) n)
              (cc (
                taken-remove_session kind s (record m { world = w }),
                ok.taken-fail s message m.world w x e,
              ))
              (λ k t h. lookup-remove_session-some kind k s t (record m { world = w }) h)
              (try_each-Gone message kinds (some x) n kind
                (lookup-remove_session kind s (record m { world = w }) there))
              (try_each-Settled message kinds (some x) n))
    ]
  ]

  -- For carriers that take a message they accept once and a refused one not at all, a call of
  -- Send that reports success put the message on exactly one session, which was registered for
  -- a carrier of the order, and every carrier before that one in the order has no session now;
  -- a call that reports an error put it on none, and no carrier of the order has a session
  -- now.
  pub send-Settled :
      (message : Bytes) (m : Manager W) → Settled message (order m) m (send c message m)
  unfolding send
  send-Settled message m = try_each-Settled message (order m) none m

-- While the manager runs, a session that replaced another one of its carrier stays registered
-- when the old session's end is handled afterwards, given that the two are different.
pub remove_session-add_session :
    {W E : Type 0} (c : Carriers W E) (old new : ℕ) (m : Manager W)
    → m.running ≡ true
    → old ≢ new
    → lookup (c.kind new) (remove_session c (c.kind new) old (add_session c new m)).sessions
      ≡ some new
unfolding remove_session add_session
remove_session-add_session c old new m running differ =
    ground
      (arith, bytes_eq_self (c.kind new), lookup-insert (c.kind new) (c.kind new) new m.sessions)
