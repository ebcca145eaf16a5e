-- ===== src/Fragment/Bounds.antt =====
-- internal/app/app.go, `handleUDPChunk`: the memory that partial datagrams take is bounded, whatever
-- the peer sends.
use unknowntunnel.Prelude.{
  ℕ, ◌≤◌, ◌<◌, ◌≡◌, ◌∙◌, sym, inl, inr, [], Bytes, some, length, length-replicate, length-set,
  arith, Bool-cases, Option-cases, lookup, insert, remove, pair_key, lookup-insert, lookup-remove,
  length-insert_new, length-insert_old, length-remove-le, subst, ltb, leb, slice, get_be, ◌==◌,
  ◌||◌,
}
use unknowntunnel.Message.{Message}
use unknowntunnel.Fragment.{
  max_udp_assemblies, Assembly, Assemblies, new_assembly, fill_name, fill_chunk, settle, put_in,
  place, handle_udp_chunk,
}

-- An assembly has a slot for each of its 1 to 128 chunks, and waits for one at least.
pub record IsPartial (a : Assembly) : Type 0 where
  pub some_chunks : 1 ≤ a.total
  pub few_chunks : a.total ≤ 128
  pub slots : length a.chunks ≡ a.total
  pub waits : a.received < a.total

pub record IsBounded (m : Assemblies) : Type 0 where
  pub size : length m ≤ max_udp_assemblies
  pub partial : (key : ℕ × ℕ) (a : Assembly) → lookup key m ≡ some a → IsPartial a

remove-IsBounded : (key : ℕ × ℕ) (m : Assemblies) → IsBounded m → IsBounded (remove key m)
remove-IsBounded key m v = record {
  size = omega (arith, length-remove-le key m, v.size);
  partial = λ k a h. v.partial k a (ground (arith, lookup-remove key k m));
}

insert-IsBounded :
    (key : ℕ × ℕ) (a : Assembly) (m : Assemblies)
    → IsBounded m
    → IsPartial a
    → length (insert key a m) ≤ max_udp_assemblies
    → IsBounded (insert key a m)
insert-IsBounded key a m v p h = record {
  size = h;
  partial = λ k b e. elim (Bool-cases (pair_key.beq key k)) [
    | inl same ↦ let q : a ≡ b = ground (arith, lookup-insert key k a m) in subst IsPartial q p
    | inr other ↦ v.partial k b (ground (arith, lookup-insert key k a m))
  ];
}

-- Writing an assembly that is there does not grow the map.
length-insert_known :
    (key : ℕ × ℕ) (a b : Assembly) (m : Assemblies)
    → lookup key m ≡ some b
    → length m ≤ max_udp_assemblies
    → length (insert key a m) ≤ max_udp_assemblies
length-insert_known key a b m h le = omega (arith, length-insert_old key a b m h)

fill_lem :
    (part : ℕ) (name bytes : Bytes) (a : Assembly)
    → IsPartial a
    → ((fill_chunk part bytes (fill_name name a)).total ≡ a.total)
      × (length (fill_chunk part bytes (fill_name name a)).chunks ≡ a.total)
      × ((fill_chunk part bytes (fill_name name a)).received ≤ a.total)
unfolding fill_chunk fill_name
fill_lem part name bytes a v = ground (arith, length-set a.chunks part bytes, v.slots, v.waits)

settle-IsBounded :
    (key : ℕ × ℕ) (a b : Assembly) (m : Assemblies)
    → IsBounded m
    → lookup key m ≡ some b
    → 1 ≤ a.total
    → a.total ≤ 128
    → length a.chunks ≡ a.total
    → a.received ≤ a.total
    → IsBounded (settle key a m).0
unfolding settle
settle-IsBounded key a b m v found lo hi slots le = elim (Bool-cases (a.received == a.total)) [
  | inl full ↦ rw full (remove-IsBounded key m v)
  | inr waits ↦ rw waits (
      insert-IsBounded key a m v
        (record { some_chunks = lo; few_chunks = hi; slots = slots; waits = ground arith })
        (length-insert_known key a b m found v.size))
]

put_in-IsBounded :
    (key : ℕ × ℕ) (msg : Message) (part total : ℕ) (a b : Assembly) (m : Assemblies)
    → IsBounded m
    → IsPartial a
    → lookup key m ≡ some b
    → IsBounded (put_in key msg part total a m).0
unfolding put_in
put_in-IsBounded key msg part total a b m v p found = elim (Bool-cases (a.total == total)) [
  | inl same ↦
      let bytes = slice msg.payload 4 (length msg.payload) in
      let (et, el, er) = fill_lem part msg.name bytes a p in
      rw same (
        settle-IsBounded key (fill_chunk part bytes (fill_name msg.name a)) b m v found
          (omega arith) (omega arith) (el ∙ sym et) (omega arith))
  | inr other ↦ rw other (remove-IsBounded key m v)
]

new_assembly-IsPartial :
    (now : ℕ) (name : Bytes) (total : ℕ)
    → 1 ≤ total
    → total ≤ 128
    → IsPartial (new_assembly now name total)
unfolding new_assembly
new_assembly-IsPartial now name total lo hi = record {
  some_chunks = lo;
  few_chunks = hi;
  slots = length-replicate total [];
  waits = lo;
}

place-IsBounded :
    (now : ℕ) (key : ℕ × ℕ) (msg : Message) (part total : ℕ) (m : Assemblies)
    → 1 ≤ total
    → total ≤ 128
    → IsBounded m
    → IsBounded (place now key msg part total m).0
unfolding place
place-IsBounded now key msg part total m lo hi v = elim (Option-cases (lookup key m)) [
  | inr (a, e) ↦ rw (e, place) (put_in-IsBounded key msg part total a a m v (v.partial key a e) e)
  | inl e ↦
      rw (e, place)
        (elim (Bool-cases (leb max_udp_assemblies (length m))) [
          | inl full ↦ rw full v
          | inr room ↦
              let a = new_assembly now msg.name total in
              let p = new_assembly-IsPartial now msg.name total lo hi in
              rw room (
                put_in-IsBounded key msg part total a a (insert key a m)
                  (insert-IsBounded key a m v p (ground (arith, length-insert_new key a m e))) p
                  (ground (arith, lookup-insert key key a m)))
        ])
]

-- Any message keeps the assemblies bounded: at most 4096 of them, each with 1 to 128 slots, as
-- many as its total, and fewer fragments received than its total.
pub handle_udp_chunk-IsBounded :
    (now : ℕ) (msg : Message) (m : Assemblies)
    → IsBounded m
    → IsBounded (handle_udp_chunk now msg m).0
unfolding handle_udp_chunk
handle_udp_chunk-IsBounded now msg m v =
    let part = get_be (slice msg.payload 0 2) in
    let total = get_be (slice msg.payload 2 4) in
    elim (Bool-cases (ltb (length msg.payload) 4)) [
      | inl short ↦ rw short v
      | inr long ↦ rw long (elim (Bool-cases (ltb total 1 || (ltb 128 total || leb total part))) [
        | inl bad ↦ rw bad v
        | inr good ↦ rw good (
            place-IsBounded now (msg.conn_id, msg.seq) msg part total m (ground arith)
              (ground arith) v)
      ])
    ]

pub no_assemblies : IsBounded []
unfolding lookup
no_assemblies = record { size = omega arith; partial = λ key a h. absurd (cc h) }
