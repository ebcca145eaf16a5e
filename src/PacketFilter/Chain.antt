-- ===== src/PacketFilter/Chain.antt =====
-- internal/tun/tun_linux.go: the IPv6 walk against the chain of headers that a packet holds.
use mathlib.Core.Path.{subst₂}
use unknowntunnel.Prelude.{
  ℕ, zero, suc, ◌+◌, ◌-◌, ◌*◌, ◌≤◌, ◌<◌, ◌≡◌, ◌⊎◌, ◌↔◌, ap, inl, inr, refl, Bytes, none, some,
  length, byte_at, arith, Bool-cases, ltb,
}
use unknowntunnel.PacketFilter.{
  Round, found, malformed, onward, round, walk, ipv6_upper_layer_protocol,
}

abbrev pub IsOptions : ℕ → Type 0
IsOptions next = (next ≡ 0) ⊎ ((next ≡ 43) ⊎ (next ≡ 60))

abbrev pub IsExtension : ℕ → Type 0
IsExtension next = IsOptions next ⊎ ((next ≡ 44) ⊎ (next ≡ 51))

-- An extension header of kind `next` lies whole in the packet from `offset` on, in `size` bytes.
abbrev pub Header : Bytes → ℕ → ℕ → ℕ → Type 0
Header packet next offset size =
    (offset + size ≤ length packet)
    × ((IsOptions next × (size ≡ (byte_at packet (offset + 1) + 1) * 8))
        ⊎ (((next ≡ 44) × (size ≡ 8))
            ⊎ ((next ≡ 51) × (size ≡ (byte_at packet (offset + 1) + 2) * 4))))

-- `Chain packet proto k next offset`: from `offset` on there are `k` extension headers, the first
-- of kind `next` and each naming the one after it, and then comes the protocol `proto`.
abbrev pub Chain : Bytes → ℕ → ℕ → ℕ → ℕ → Type 0
Chain packet proto zero next offset = (next ≡ proto) × (¬ IsExtension next)
Chain packet proto (suc k) next offset =
    (size : ℕ) × Header packet next offset size
    × Chain packet proto k (byte_at packet offset) (offset + size)

round-found :
    (packet : Bytes) (next offset proto : ℕ)
    → round packet next offset ≡ found proto
    → (next ≡ proto) × (¬ IsExtension next)
unfolding round
round-found packet next offset proto h = ground arith

round-onward :
    (packet : Bytes) (next offset next' offset' : ℕ)
    → round packet next offset ≡ onward next' offset'
    → Header packet next offset (offset' - offset)
      × (next' ≡ byte_at packet offset)
      × (offset' ≡ offset + (offset' - offset))
unfolding round
round-onward packet next offset next' offset' h = ground arith

found-round :
    (packet : Bytes) (next offset : ℕ) → ¬ IsExtension next → round packet next offset ≡ found next
unfolding round
found-round packet next offset h = ground arith

onward-round :
    (packet : Bytes) (next offset size : ℕ)
    → Header packet next offset size
    → round packet next offset ≡ onward (byte_at packet offset) (offset + size)
unfolding round
onward-round packet next offset size h = ground arith

Round-cases :
    (r : Round)
    → ((p : ℕ) × (r ≡ found p)) ⊎ ((r ≡ malformed) ⊎ ((n : ℕ) × (o : ℕ) × (r ≡ onward n o)))
Round-cases (found p) = inl (p, refl)
Round-cases malformed = inr (inl refl)
Round-cases (onward n o) = inr (inr (n, o, refl))

walk-Chain :
    (headers : ℕ) (packet : Bytes) (next offset proto : ℕ)
    → walk headers packet next offset ≡ some proto
    → (k : ℕ) × (k < headers) × Chain packet proto k next offset
unfolding walk
walk-Chain zero packet next offset proto h = cc
walk-Chain (suc headers) packet next offset proto h =
    elim (Round-cases (round packet next offset)) [
      | inl (p, e) ↦
          let q : some p ≡ some proto = rw (e, walk) at h in
          let c = round-found packet next offset p e in (0, omega arith, (ground arith, c.1))
      | inr (inl e) ↦ let q : none ≡ some proto = rw (e, walk) at h in cc
      | inr (inr (n, o, e)) ↦
          let q : walk headers packet n o ≡ some proto = rw (e, walk) at h in
          let (hd, en, eo) = round-onward packet next offset n o e in
          let (k, hk, c) = walk-Chain headers packet n o proto q in
          (suc k, omega arith, (o - offset, hd, subst₂ (Chain packet proto k) en eo c))
    ]

Chain-walk :
    (k headers : ℕ) (packet : Bytes) (next offset proto : ℕ)
    → k < headers
    → Chain packet proto k next offset
    → walk headers packet next offset ≡ some proto
unfolding walk
Chain-walk k zero packet next offset proto h c = absurd (omega arith)
Chain-walk zero (suc headers) packet next offset proto h (e, c) =
    rw (found-round packet next offset c, walk) (ap some e)
Chain-walk (suc k) (suc headers) packet next offset proto h (size, hd, c) =
    rw (onward-round packet next offset size hd, walk)
      (Chain-walk k headers packet _ _ proto (omega arith) c)

-- Fewer than 16 extension headers lead from the fixed header to `proto`.
pub record LeadsTo (packet : Bytes) (proto : ℕ) : Type 0 where
  pub fixed : 40 ≤ length packet
  pub headers : ℕ
  pub few : headers < 16
  pub chain : Chain packet proto headers (byte_at packet 6) 40

-- The IPv6 walk finds a protocol exactly if the packet has its fixed header and a chain of
-- fewer than 16 whole extension headers leads to that protocol.
pub ipv6_upper_layer_protocol_iff :
    (packet : Bytes) (proto : ℕ)
    → (ipv6_upper_layer_protocol packet ≡ some proto) ↔ LeadsTo packet proto
unfolding ipv6_upper_layer_protocol
ipv6_upper_layer_protocol_iff packet proto = elim (Bool-cases (ltb (length packet) 40)) [
  | inl short ↦ rw short (λ h. cc, λ c. absurd (ground (arith, c.fixed)))
  | inr long ↦ rw long (
    λ h.
        let (k, hk, c) = walk-Chain 16 packet _ _ proto h in
        record { fixed = ground arith; headers = k; few = hk; chain = c },
    λ c. Chain-walk c.headers 16 packet _ _ proto c.few c.chain,
  )
]
