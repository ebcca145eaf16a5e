-- ===== src/UdpFlows/Cleanup.antt =====
-- internal/app/app.go, `getEntryUDPFlow` and `cleanup`: a client's key always leads to a flow.
use unknowntunnel.Prelude.{
  length, leb, ℕ, ◌≡◌, ◌≢◌, ◌⊎◌, refl, inl, inr, Bool, true, false, ◌==◌, List, [], ◌∷◌, Bytes,
  Option, none, if◌then◌else◌, NatMap, nat_key, bytes_key, bytes_eq, Map, lookup, insert,
  lookup-insert, Option-cases, Bool-cases, arith, subst, sym,
}
use unknowntunnel.UdpFlows.{
  EntryFlow, Flows, is_idle, forget_keys, clean_entries, cleanup, max_udp_flows, new_entry,
  pick_flow_id, get_entry_udp_flow,
}

-- An entry of the map of keys.
unfoldable pub Bound : Bytes → ℕ → Map Bytes ℕ → Type 0
Bound key id [] = ⊥
Bound key id ((k, i) ∷ keys) = ((k ≡ key) × (i ≡ id)) ⊎ Bound key id keys

-- Every key leads to a flow that is there.
unfoldable pub IsLinked : Flows → Type 0
IsLinked a = (key : Bytes) (id : ℕ) → Bound key id a.entry_udp_keys → lookup id a.entry_udp ≢ none

Bound-forget_keys :
    (key : Bytes) (id i : ℕ) (keys : Map Bytes ℕ)
    → Bound key id (forget_keys i keys)
    → Bound key id keys × (id ≢ i)
unfolding Bound forget_keys
Bound-forget_keys key id i [] b = absurd b
Bound-forget_keys key id i ((k, j) ∷ keys) b = elim (Bool-cases (j == i)) [
  | inl e ↦
      let (x, y) = Bound-forget_keys key id i keys (
        subst (λ q. Bound key id (if q then forget_keys i keys else (k, j) ∷ forget_keys i keys)) e
          b) in
      (inr x, y)
  | inr e ↦
      elim (subst
        (λ q. Bound key id (if q then forget_keys i keys else (k, j) ∷ forget_keys i keys)) e b) [
          | inl (same, at) ↦ (inl (same, at), λ n. ground (arith, at, n, e))
          | inr later ↦ let (x, y) = Bound-forget_keys key id i keys later in (inr x, y)
        ]
]

clean_entries_idle :
    (now i : ℕ) (flow : EntryFlow) (rest : NatMap EntryFlow) (keys : Map Bytes ℕ)
    → is_idle now flow.last ≡ true
    → clean_entries now ((i, flow) ∷ rest) keys ≡ clean_entries now rest (forget_keys i keys)
unfolding clean_entries
clean_entries_idle now i flow rest keys e = rw (e, clean_entries) refl

clean_entries_fresh :
    (now i : ℕ) (flow : EntryFlow) (rest : NatMap EntryFlow) (keys : Map Bytes ℕ)
    → is_idle now flow.last ≡ false
    → clean_entries now ((i, flow) ∷ rest) keys
      ≡ ((i, flow) ∷ (clean_entries now rest keys).0, (clean_entries now rest keys).1)
unfolding clean_entries
clean_entries_fresh now i flow rest keys e = rw (e, clean_entries) refl

lookup-cons_kept :
    (i id : ℕ) (flow : EntryFlow) (m m' : NatMap EntryFlow)
    → (lookup id m ≢ none → lookup id m' ≢ none)
    → lookup id ((i, flow) ∷ m) ≢ none
    → lookup id ((i, flow) ∷ m') ≢ none
unfolding lookup
lookup-cons_kept i id flow m m' k n = elim (Bool-cases (i == id)) [
  | inl e ↦ λ q. ground (arith, e, q)
  | inr e ↦ λ q. k (λ z. n (ground (arith, e, z))) (ground (arith, e, q))
]

lookup-cons_other :
    (i id : ℕ) (flow : EntryFlow) (m : NatMap EntryFlow)
    → id ≢ i
    → lookup id ((i, flow) ∷ m) ≡ lookup id m
unfolding lookup
lookup-cons_other i id flow m n = ground (arith, n)

-- What a cleaned map of keys holds was there before, and its flow stays.
abbrev StaysLinked :
    Bytes → ℕ → NatMap EntryFlow → Map Bytes ℕ → NatMap EntryFlow × Map Bytes ℕ → Type 0
StaysLinked key id m keys r =
    Bound key id r.1 → Bound key id keys × (lookup id m ≢ none → lookup id r.0 ≢ none)

clean_entries-StaysLinked :
    (now : ℕ) (m : NatMap EntryFlow) (keys : Map Bytes ℕ) (key : Bytes) (id : ℕ)
    → StaysLinked key id m keys (clean_entries now m keys)
unfolding clean_entries
clean_entries-StaysLinked now [] keys key id = λ b. (b, λ n. n)
clean_entries-StaysLinked now ((i, flow) ∷ rest) keys key id =
    elim (Bool-cases (is_idle now flow.last)) [
      | inl e ↦
          subst (StaysLinked key id ((i, flow) ∷ rest) keys)
            (sym (clean_entries_idle now i flow rest keys e))
            (λ b.
              let (x, y) = clean_entries-StaysLinked now rest (forget_keys i keys) key id b in
              let (z, differ) = Bound-forget_keys key id i keys x in
              (z, λ n. y (λ q. n (cc (lookup-cons_other i id flow rest differ, q)))))
      | inr e ↦
          subst (StaysLinked key id ((i, flow) ∷ rest) keys)
            (sym (clean_entries_fresh now i flow rest keys e))
            (λ b.
              let (x, y) = clean_entries-StaysLinked now rest keys key id b in
              (x, lookup-cons_kept i id flow rest (clean_entries now rest keys).0 y))
    ]

Bound-insert :
    (key k : Bytes) (id i : ℕ) (keys : Map Bytes ℕ)
    → Bound key id (insert k i keys)
    → (id ≡ i) ⊎ Bound key id keys
unfolding Bound insert
Bound-insert key k id i [] (inl (same, at)) = inl (sym at)
Bound-insert key k id i [] (inr b) = absurd b
Bound-insert key k id i ((j, w) ∷ keys) b = elim (Bool-cases (bytes_eq j k)) [
  | inl e ↦
      elim (subst (λ q. Bound key id (if q then (k, i) ∷ keys else (j, w) ∷ insert k i keys)) e b) [
        | inl (same, at) ↦ inl (sym at)
        | inr later ↦ inr (inr later)
      ]
  | inr e ↦
      elim (subst (λ q. Bound key id (if q then (k, i) ∷ keys else (j, w) ∷ insert k i keys)) e b) [
        | inl here ↦ inr (inl here)
        | inr later ↦ elim (Bound-insert key k id i keys later) [
          | inl q ↦ inl q
          | inr q ↦ inr (inr q)
        ]
      ]
]

lookup-insert_kept :
    (i j : ℕ) (flow : EntryFlow) (m : NatMap EntryFlow)
    → (j ≡ i) ⊎ (lookup j m ≢ none)
    → lookup j (insert i flow m) ≢ none
lookup-insert_kept i j flow m h n = ground (arith, h, n, lookup-insert i j flow m)

registered-IsLinked :
    (a : Flows) (id : ℕ) (flow : EntryFlow) (key : Bytes)
    → IsLinked a
    → IsLinked (record a {
      entry_udp = insert id flow a.entry_udp;
      entry_udp_keys = insert key id a.entry_udp_keys;
    })
unfolding IsLinked
registered-IsLinked a id flow key v k i b =
    lookup-insert_kept id i flow a.entry_udp
      (elim (Bound-insert k key i id a.entry_udp_keys b) [ inl q ↦ inl q | inr q ↦ inr (v k i q) ])

new_entry-IsLinked :
    (ids : List (Option ℕ)) (key service : Bytes) (pc : ℕ) (client : Bytes) (now : ℕ) (a : Flows)
    → IsLinked a
    → IsLinked (new_entry ids key service pc client now a).0
unfolding new_entry
new_entry-IsLinked ids key service pc client now a v =
    elim (Bool-cases (leb max_udp_flows (length a.entry_udp))) [
      | inl e ↦ rw (e, new_entry) v
      | inr e ↦ elim (Option-cases (pick_flow_id 10 ids a.entry_udp)) [
        | inl p ↦ rw (e, p, new_entry) v
        | inr (id, p) ↦
            rw (e, p, new_entry)
              (registered-IsLinked a id
                (record { pc = pc; client = client; service = service; last = now }) key v)
      ]
    ]

branch-IsLinked :
    (b : Bool) (x y : Flows × Option ℕ)
    → IsLinked x.0
    → IsLinked y.0
    → IsLinked (if b then x else y).0
branch-IsLinked true x y v w = v
branch-IsLinked false x y v w = w

touched-IsLinked :
    (a : Flows) (id : ℕ) (flow : EntryFlow)
    → IsLinked a
    → IsLinked (record a { entry_udp = insert id flow a.entry_udp })
unfolding IsLinked
touched-IsLinked a id flow v k i b = lookup-insert_kept id i flow a.entry_udp (inr (v k i b))

-- If every client key leads to an entry flow that is there, this holds again after
-- getEntryUDPFlow, whatever identifiers are drawn and on all its branches.
pub get_entry_udp_flow-IsLinked :
    (ids : List (Option ℕ)) (key service : Bytes) (pc : ℕ) (client : Bytes) (now : ℕ) (a : Flows)
    → IsLinked a
    → IsLinked (get_entry_udp_flow ids key service pc client now a).0
unfolding get_entry_udp_flow
get_entry_udp_flow-IsLinked ids key service pc client now a v =
    branch-IsLinked a.closed (a, none) _ v
      (elim (Option-cases (lookup key a.entry_udp_keys)) [
        | inl k ↦ rw k (new_entry-IsLinked ids key service pc client now a v)
        | inr (id, k) ↦ elim (Option-cases (lookup id a.entry_udp)) [
          | inl f ↦ rw (k, f) (new_entry-IsLinked ids key service pc client now a v)
          | inr (flow, f) ↦ rw (k, f) (touched-IsLinked a id (record flow { last = now }) v)
        ]
      ])

-- If every client key leads to an entry flow that is there, this holds again after a cleanup
-- at any time.
pub cleanup-IsLinked : (now : ℕ) (a : Flows) → IsLinked a → IsLinked (cleanup now a)
unfolding cleanup IsLinked
cleanup-IsLinked now a v key id b =
    let (x, y) = clean_entries-StaysLinked now a.entry_udp a.entry_udp_keys key id b in
    y (v key id x)
