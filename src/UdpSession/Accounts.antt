-- ===== src/UdpSession/Accounts.antt =====
-- internal/transport/udp.go, `udpSession`: the pending datagrams and the slots they hold.
use unknowntunnel.Prelude.{
  bytes_eq, if◌then◌else◌, inc_u64, get_be, slice, byte_at, ℕ, zero, suc, ◌+◌, ◌^◌, ◌≤◌, ◌<◌, ◌≡◌,
  ◌⊎◌, refl, inl, inr, Bool, true, false, not, ◌||◌, ltb, leb, ◌==◌, List, [], ◌∷◌, ◌++◌, Bytes,
  length, Option, none, some, NatMap, nat_key, lookup, insert, remove, lookup-insert, lookup-remove,
  length-insert_new, Option-cases, Bool-cases, arith, subst, sym, ◌-◌,
}
use unknowntunnel.Keys.{Crypto, nonce_for, overhead}
use unknowntunnel.Reorder.{Outcome}
use unknowntunnel.UdpSession.{
  PendingDatagram, UdpSession, keyed_session, Error, write_datagram, data_packet, after_send, send,
  send_ack, acknowledge, handle_ack, take_in, handle_data, handle_packet, due, resend_all,
  retransmit, finish, udp_retransmit_after, udp_header_len, udp_data_magic, udp_data_version,
  udp_packet_ack, udp_packet_data, max_udp_pending, max_udp_plaintext, udp_max_retries, packet_step,
  Event, step, sending, arriving, ticking,
}

-- No key occurs twice.
pub Unique : {V : Type 0} → NatMap V → Type 0
Unique [] = Unit
Unique ((k, v) ∷ m) = (lookup k m ≡ none) × Unique m

Unique-insert : {V : Type 0} (k : ℕ) (v : V) (m : NatMap V) → Unique m → Unique (insert k v m)
unfolding insert lookup Unique
Unique-insert k v [] u = (refl, tt)
Unique-insert k v ((j, w) ∷ m) u = elim (Bool-cases (j == k)) [
  | inl e ↦ rw (e, insert) (ground arith, u.1)
  | inr e ↦ rw (e, insert) (ground (arith, lookup-insert k j v m), Unique-insert k v m u.1)
]

Unique-remove : {V : Type 0} (k : ℕ) (m : NatMap V) → Unique m → Unique (remove k m)
unfolding remove lookup Unique
Unique-remove k [] u = tt
Unique-remove k ((j, w) ∷ m) u = elim (Bool-cases (j == k)) [
  | inl e ↦ rw (e, remove) (Unique-remove k m u.1)
  | inr e ↦ rw (e, remove) (ground (arith, lookup-remove k j m), Unique-remove k m u.1)
]

length-remove-none :
    {V : Type 0} (k : ℕ) (m : NatMap V) → lookup k m ≡ none → length (remove k m) ≡ length m
unfolding remove lookup
length-remove-none k [] h = refl
length-remove-none k ((j, w) ∷ m) h = ground (arith, length-remove-none k m)

length-remove-some :
    {V : Type 0} (k : ℕ) (v : V) (m : NatMap V)
    → Unique m
    → lookup k m ≡ some v
    → length (remove k m) + 1 ≡ length m
unfolding remove lookup Unique
length-remove-some k v [] u h = cc
length-remove-some k v ((j, w) ∷ m) u h = elim (Bool-cases (j == k)) [
  | inl e ↦
      let same : j ≡ k = ground arith in
      let gone : lookup k m ≡ none = subst (λ x. lookup x m ≡ none) same u.0 in
      rw (e, remove) (ground (arith, length-remove-none k m gone))
  | inr e ↦ rw (e, remove) (ground (arith, length-remove-some k v m u.1))
]

-- The accounts of a session: a slot for each pending datagram and at most 8192 of them, each under
-- a sequence number that was sent, and each sent again at most 18 times.
pub record IsAccounted (s : UdpSession) : Type 0 where
  pub unique : Unique s.pending
  pub held : s.slots ≡ length s.pending
  pub full : s.slots ≤ max_udp_pending
  pub sent :
      (k : ℕ) (e : PendingDatagram)
      → lookup k s.pending ≡ some e
      → (k ≤ s.send_seq) × (e.retries ≤ udp_max_retries)

pub keyed_session-IsAccounted : (id : ℕ) (a b c d : Bytes) → IsAccounted (keyed_session id a b c d)
unfolding keyed_session Unique lookup
keyed_session-IsAccounted id a b c d = record {
  unique = tt;
  held = refl;
  full = omega arith;
  sent = λ k e h. absurd (cc h);
}

-- A change that leaves the pending datagrams, the slots and the counter alone.
same_accounts :
    (s t : UdpSession)
    → t.pending ≡ s.pending
    → t.slots ≡ s.slots
    → t.send_seq ≡ s.send_seq
    → IsAccounted s
    → IsAccounted t
same_accounts s t p q r v = record {
  unique = subst Unique (sym p) v.unique;
  held = cc (v.held, p, q);
  full = omega (arith, q, v.full);
  sent = λ k e h. let (x, y) = v.sent k e (cc (p, h)) in (omega (arith, x, r), y);
}

without : UdpSession → ℕ → UdpSession
without s seq = record s { pending = remove seq s.pending; slots = s.slots - 1 }

without-IsAccounted :
    (s : UdpSession) (seq : ℕ) (e : PendingDatagram)
    → lookup seq s.pending ≡ some e
    → IsAccounted s
    → IsAccounted (without s seq)
unfolding without
without-IsAccounted s seq e h v = record {
  unique = Unique-remove seq s.pending v.unique;
  held = omega (arith, v.held, length-remove-some seq e s.pending v.unique h);
  full = omega (arith, v.full);
  sent = λ k x g. v.sent k x (ground (arith, lookup-remove seq k s.pending));
}

acknowledge-IsAccounted :
    (c : Crypto) (seq : ℕ) (s : UdpSession) → IsAccounted s → IsAccounted (acknowledge c seq s)
unfolding acknowledge without
acknowledge-IsAccounted c seq s v = elim (Option-cases (lookup seq s.pending)) [
  | inl h ↦ rw (h, acknowledge) v
  | inr (e, h) ↦ rw (h, acknowledge) (without-IsAccounted s seq e h v)
]

write_datagram-IsAccounted :
    (can_write : Bool) (packet : Bytes) (s : UdpSession)
    → IsAccounted s
    → IsAccounted (write_datagram can_write packet s).0
unfolding write_datagram
write_datagram-IsAccounted true packet s v = same_accounts s _ refl refl refl v
write_datagram-IsAccounted false packet s v = v

finish-IsAccounted : (s : UdpSession) → IsAccounted s → IsAccounted (finish s)
unfolding finish
finish-IsAccounted s v = same_accounts s _ refl refl refl v

insert-IsAccounted :
    (s : UdpSession) (e : PendingDatagram)
    → s.send_seq + 1 < 2 ^ 64
    → s.slots < max_udp_pending
    → e.retries ≤ udp_max_retries
    → IsAccounted s
    → IsAccounted (record s {
      slots = s.slots + 1;
      send_seq = s.send_seq + 1;
      pending = insert (s.send_seq + 1) e s.pending;
    })
insert-IsAccounted s e room free few v =
    let fresh : lookup (s.send_seq + 1) s.pending ≡ none =
      elim (Option-cases (lookup (s.send_seq + 1) s.pending)) [
        | inl h ↦ h
        | inr (x, h) ↦ absurd (omega (arith, (v.sent (s.send_seq + 1) x h).0))
      ] in
    record {
      unique = Unique-insert (s.send_seq + 1) e s.pending v.unique;
      held = omega (arith, v.held, length-insert_new (s.send_seq + 1) e s.pending fresh);
      full = omega arith;
      sent = λ k x g. elim (Bool-cases (s.send_seq + 1 == k)) [
        | inl q ↦ ground (arith, few, lookup-insert (s.send_seq + 1) k e s.pending)
        | inr q ↦
            let (a, b) =
              v.sent k x (ground (arith, lookup-insert (s.send_seq + 1) k e s.pending)) in
            (omega arith, b)
      ];
    }

after_send-IsAccounted :
    (c : Crypto) (s : UdpSession) (e : PendingDatagram) (can_write : Bool) (packet : Bytes)
    → lookup s.send_seq s.pending ≡ some e
    → IsAccounted s
    → IsAccounted (after_send c s.send_seq (write_datagram can_write packet s)).0
unfolding after_send write_datagram finish without
after_send-IsAccounted c s e true packet h v = same_accounts s _ refl refl refl v
after_send-IsAccounted c s e false packet h v =
    same_accounts (without s s.send_seq) _ refl refl refl (without-IsAccounted s s.send_seq e h v)

branch-IsAccounted :
    (bad : Bool) (x y : Outcome Error UdpSession)
    → IsAccounted x.0
    → (bad ≡ false → IsAccounted y.0)
    → IsAccounted (if bad then x else y).0
branch-IsAccounted true x y v w = v
branch-IsAccounted false x y v w = w refl

pub send-IsAccounted :
    (c : Crypto) (can_write : Bool) (now : ℕ) (payload : Bytes) (s : UdpSession)
    → s.send_seq + 1 < 2 ^ 64
    → IsAccounted s
    → IsAccounted (send c can_write now payload s).0
unfolding send
send-IsAccounted c can_write now payload s room v = branch-IsAccounted s.closed _ _ v (λ _.
    branch-IsAccounted (ltb max_udp_plaintext (length payload)) _ _ v (λ _.
      branch-IsAccounted (leb max_udp_pending s.slots) _ _ v (λ free.
        let entry : ℕ → PendingDatagram = λ q. record {
          packet = data_packet c s.send_key s.session_id q payload;
          last = now;
          retries = 0;
        } in
        let after : ℕ → UdpSession = λ q. record s {
          slots = s.slots + 1;
          send_seq = q;
          pending = insert q (entry q) s.pending;
        } in
        let small : inc_u64 s.send_seq ≡ s.send_seq + 1 = omega arith in
        let good =
          insert-IsAccounted s (entry (s.send_seq + 1)) room (ground (arith, free)) (omega arith)
            v in
        let found : lookup (s.send_seq + 1) (after (s.send_seq + 1)).pending
            ≡ some (entry (s.send_seq + 1)) =
          ground (
            arith,
            lookup-insert (s.send_seq + 1) (s.send_seq + 1) (entry (s.send_seq + 1)) s.pending,
          ) in
        subst
          (λ q.
            IsAccounted (after_send c q (write_datagram can_write (entry q).packet (after q))).0)
          (sym small)
          (after_send-IsAccounted c (after (s.send_seq + 1)) (entry (s.send_seq + 1)) can_write
            (entry (s.send_seq + 1)).packet found good))))

handle_ack-IsAccounted :
    (c : Crypto) (packet : Bytes) (seq payload_len : ℕ) (s : UdpSession)
    → IsAccounted s
    → IsAccounted (handle_ack c packet seq payload_len s)
unfolding handle_ack
handle_ack-IsAccounted c packet seq payload_len s v =
    ground (arith, v, acknowledge-IsAccounted c seq s v)

take_in-IsAccounted :
    (c : Crypto) (seq : ℕ) (plaintext : Bytes) (r : Outcome Error UdpSession)
    → IsAccounted r.0
    → IsAccounted (take_in c seq plaintext r).0
unfolding take_in
take_in-IsAccounted c seq plaintext (s, none) v = same_accounts s _ refl refl refl v
take_in-IsAccounted c seq plaintext (s, some e) v = v

opened-IsAccounted :
    (c : Crypto) (can_write : Bool) (seq : ℕ) (o : Option Bytes) (s : UdpSession)
    → IsAccounted s
    → IsAccounted
        (elim o as (λ x. Outcome Error UdpSession) [
          | none ↦ (s, none)
          | some plaintext ↦ take_in c seq plaintext (send_ack c can_write seq s)
        ]).0
unfolding send_ack
opened-IsAccounted c can_write seq none s v = v
opened-IsAccounted c can_write seq (some plaintext) s v =
    take_in-IsAccounted c seq plaintext _ (write_datagram-IsAccounted can_write _ s v)

handle_data-IsAccounted :
    (c : Crypto) (can_write : Bool) (packet : Bytes) (seq payload_len : ℕ) (s : UdpSession)
    → IsAccounted s
    → IsAccounted (handle_data c can_write packet seq payload_len s).0
unfolding handle_data
handle_data-IsAccounted c can_write packet seq payload_len s v =
    let opened =
      c.open_sealed s.recv_key (nonce_for seq) (slice packet udp_header_len (length packet))
        (slice packet 0 udp_header_len) in
    branch-IsAccounted (ltb payload_len overhead) (s, none)
      (elim opened as (λ x. Outcome Error UdpSession) [
        | none ↦ (s, none)
        | some plaintext ↦ take_in c seq plaintext (send_ack c can_write seq s)
      ])
      v (λ _. opened-IsAccounted c can_write seq opened s v)

pub handle_packet-IsAccounted :
    (c : Crypto) (can_write : Bool) (packet : Bytes) (s : UdpSession)
    → IsAccounted s
    → IsAccounted (handle_packet c can_write packet s).0
unfolding handle_packet
handle_packet-IsAccounted c can_write packet s v =
    let seq = get_be (slice packet 16 24) in
    let payload_len = get_be (slice packet 24 26) in
    let on_data : Outcome Error UdpSession =
      if byte_at packet 5 == udp_packet_data
      then handle_data c can_write packet seq payload_len s
      else (s, none) in
    let on_kind : Outcome Error UdpSession =
      if byte_at packet 5 == udp_packet_ack
      then (handle_ack c packet seq payload_len s, none)
      else on_data in
    let on_session : Outcome Error UdpSession =
      if not (get_be (slice packet 8 16) == s.session_id)
        || not (payload_len == length packet - udp_header_len)
      then (s, none)
      else on_kind in
    let on_magic : Outcome Error UdpSession =
      if not (bytes_eq (slice packet 0 4) udp_data_magic)
        || not (byte_at packet 4 == udp_data_version)
      then (s, none)
      else on_session in
    branch-IsAccounted (ltb (length packet) udp_header_len) (s, none) on_magic v
      (λ _.
        branch-IsAccounted
          (not (bytes_eq (slice packet 0 4) udp_data_magic)
            || not (byte_at packet 4 == udp_data_version))
          (s, none) on_session v
          (λ _.
            branch-IsAccounted
              (not (get_be (slice packet 8 16) == s.session_id)
                || not (payload_len == length packet - udp_header_len))
              (s, none) on_kind v
              (λ _.
                branch-IsAccounted (byte_at packet 5 == udp_packet_ack)
                  (handle_ack c packet seq payload_len s, none) on_data
                  (handle_ack-IsAccounted c packet seq payload_len s v)
                  (λ _.
                    branch-IsAccounted (byte_at packet 5 == udp_packet_data)
                      (handle_data c can_write packet seq payload_len s) (s, none)
                      (handle_data-IsAccounted c can_write packet seq payload_len s v) (λ _. v)))))

packet_step-IsAccounted :
    (c : Crypto) (can_write : Bool) (packet : Bytes) (s : UdpSession)
    → IsAccounted s
    → IsAccounted (packet_step c can_write packet s)
unfolding packet_step
packet_step-IsAccounted c can_write packet s v = ground (
  arith,
  handle_packet-IsAccounted c can_write packet s v,
  finish-IsAccounted (handle_packet c can_write packet s).0
      (handle_packet-IsAccounted c can_write packet s v),
)

-- Two maps with the same keys in the same order and the same packets, where no datagram of the
-- second has been sent again more often than in the first, or than is allowed.
pub Kept : NatMap PendingDatagram → NatMap PendingDatagram → Type 0
Kept [] [] = Unit
Kept [] (x ∷ m') = ⊥
Kept (x ∷ m) [] = ⊥
Kept ((k, e) ∷ m) ((k', e') ∷ m') =
    (k' ≡ k)
    × (e'.packet ≡ e.packet)
    × ((e'.retries ≤ e.retries) ⊎ (e'.retries ≤ udp_max_retries))
    × Kept m m'

Kept-refl : (m : NatMap PendingDatagram) → Kept m m
unfolding Kept
Kept-refl [] = tt
Kept-refl ((k, e) ∷ m) = (refl, refl, inl (omega arith), Kept-refl m)

branch-Kept :
    (m : NatMap PendingDatagram) (b : Bool) (x y : (NatMap PendingDatagram × List Bytes) × Bool)
    → Kept m x.0.0
    → (b ≡ false → Kept m y.0.0)
    → Kept m (if b then x else y).0.0
branch-Kept m true x y v w = v
branch-Kept m false x y v w = w refl

due-Kept : (now : ℕ) (m : NatMap PendingDatagram) → Kept m (due now m).0.0
unfolding due Kept
due-Kept now [] = tt
due-Kept now ((j, e) ∷ m) =
    branch-Kept ((j, e) ∷ m) (ltb (now - e.last) udp_retransmit_after) _ _
      (refl, refl, inl (omega arith), due-Kept now m)
      (λ _.
        branch-Kept ((j, e) ∷ m) (leb udp_max_retries e.retries) _ _ (Kept-refl ((j, e) ∷ m))
          (λ few. (refl, refl, inr (ground (arith, few)), due-Kept now m)))

Kept-length : (m m' : NatMap PendingDatagram) → Kept m m' → length m' ≡ length m
unfolding Kept
Kept-length [] [] k = refl
Kept-length [] (x ∷ m') k = absurd k
Kept-length (x ∷ m) [] k = absurd k
Kept-length (x ∷ m) (y ∷ m') (_, _, _, k) = omega (arith, Kept-length m m' k)

Kept-lookup :
    (m m' : NatMap PendingDatagram) (j : ℕ) (e' : PendingDatagram)
    → Kept m m'
    → lookup j m' ≡ some e'
    → (e : PendingDatagram) × (lookup j m ≡ some e)
      × ((e'.retries ≤ e.retries) ⊎ (e'.retries ≤ udp_max_retries))
unfolding Kept lookup
Kept-lookup [] [] j e' k h = absurd (cc h)
Kept-lookup [] (x ∷ m') j e' k h = absurd k
Kept-lookup (x ∷ m) [] j e' k h = absurd k
Kept-lookup ((i, e) ∷ m) ((i', d) ∷ m') j e' (same, _, few, k) h = elim (Bool-cases (i' == j)) [
  | inl here ↦
      let q : d ≡ e' = ground (arith, here, h) in
      (
        e,
        ground (arith, here, same),
        subst (λ x. (x.retries ≤ e.retries) ⊎ (x.retries ≤ udp_max_retries)) q few,
      )
  | inr there ↦
      let (old, found, bound) = Kept-lookup m m' j e' k (ground (arith, there, h)) in
      (old, ground (arith, there, same, found), bound)
]

Kept-Unique : (m m' : NatMap PendingDatagram) → Kept m m' → Unique m → Unique m'
unfolding Kept Unique
Kept-Unique [] [] k u = tt
Kept-Unique [] (x ∷ m') k u = absurd k
Kept-Unique (x ∷ m) [] k u = absurd k
Kept-Unique ((i, e) ∷ m) ((i', d) ∷ m') (same, _, _, k) (fresh, u) = (
  elim (Option-cases (lookup i' m')) [
    | inl none_there ↦ none_there
    | inr (x, there) ↦
        let (old, found, _) = Kept-lookup m m' i' x k there in absurd (cc (fresh, found, same))
  ],
  Kept-Unique m m' k u,
)

Kept-IsAccounted :
    (s : UdpSession) (m : NatMap PendingDatagram)
    → Kept s.pending m
    → IsAccounted s
    → IsAccounted (record s { pending = m })
Kept-IsAccounted s m kept v = record {
  unique = Kept-Unique s.pending m kept v.unique;
  held = omega (arith, v.held, Kept-length s.pending m kept);
  full = v.full;
  sent = λ k x h.
      let (old, found, bound) = Kept-lookup s.pending m k x kept h in
      let (low, few) = v.sent k old found in (low, ground (arith, bound, few));
}

resend_all-IsAccounted :
    (writes : ℕ) (packets : List Bytes) (s : UdpSession)
    → IsAccounted s
    → IsAccounted (resend_all writes packets s).0
unfolding resend_all
resend_all-IsAccounted writes [] s v = v
resend_all-IsAccounted zero (packet ∷ packets) s v = finish-IsAccounted s v
resend_all-IsAccounted (suc writes) (packet ∷ packets) s v =
    resend_all-IsAccounted writes packets (record s { network = s.network ++ (packet ∷ []) })
      (record { unique = v.unique; held = v.held; full = v.full; sent = v.sent })

pub retransmit-IsAccounted :
    (now writes : ℕ) (s : UdpSession) → IsAccounted s → IsAccounted (retransmit now writes s).0
unfolding retransmit
retransmit-IsAccounted now writes s v =
    let passed = due now s.pending in
    let counted = record s { pending = passed.0.0 } in
    let w = Kept-IsAccounted s passed.0.0 (due-Kept now s.pending) v in
    branch-IsAccounted s.closed _ _ v (λ _.
      branch-IsAccounted passed.1 _ _ (finish-IsAccounted counted w)
        (λ _. resend_all-IsAccounted writes passed.0.1 counted w))

-- Each event of a UDP session whose send counter is below 2^64 - 1, that is a send with or
-- without a failing write, a packet of any bytes, or a retransmission tick with or without a
-- failing write, keeps its accounts: pending datagrams have distinct numbers that were sent,
-- each was sent again at most 18 times, each holds exactly one slot, and at most 8192 slots
-- are held.
pub step-IsAccounted :
    (c : Crypto) (e : Event) (s : UdpSession)
    → s.send_seq + 1 < 2 ^ 64
    → IsAccounted s
    → IsAccounted (step c e s)
unfolding step
step-IsAccounted c (sending can_write now payload) s room v =
    send-IsAccounted c can_write now payload s room v
step-IsAccounted c (arriving can_write packet) s room v =
    packet_step-IsAccounted c can_write packet s v
step-IsAccounted c (ticking now writes) s room v = retransmit-IsAccounted now writes s v
