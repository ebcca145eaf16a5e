-- ===== src/PacketFilter/Allowed.antt =====
-- internal/tun/tun_linux.go, `PacketAllowed`: which packets pass, for both versions of IP.
use unknowntunnel.Prelude.{
  ℕ, ◌*◌, ◌/◌, ◌%◌, ◌≤◌, ◌≡◌, ◌⊎◌, ◌↔◌, inl, inr, true, List, [], ◌∷◌, Bytes, some, length, byte_at,
  arith, Option-cases, codes, bytes_eq_iff, subst,
}
use unknowntunnel.PacketFilter.{ipv4_protocol, ip_protocol, names, any_names, packet_allowed}
use unknowntunnel.PacketFilter.Chain.{LeadsTo, ipv6_upper_layer_protocol_iff}

abbrev pub Listed : Bytes → List Bytes → Type 0
Listed name [] = ⊥
Listed name (x ∷ xs) = (x ≡ name) ⊎ Listed name xs

-- The configuration allows the protocol: 6 under the name "tcp", 17 under the name "udp".
abbrev pub Permits : List Bytes → ℕ → Type 0
Permits protocols proto =
    ((proto ≡ 6) × Listed (codes "tcp") protocols) ⊎ ((proto ≡ 17) × Listed (codes "udp") protocols)

-- The packet is IPv4 with a whole header of at least 20 bytes that names the protocol, or IPv6
-- with a chain of fewer than 16 extension headers that leads to it.
abbrev pub Carries : Bytes → ℕ → Type 0
Carries packet proto =
    ((byte_at packet 0 / 16 ≡ 4)
      × (20 ≤ length packet)
      × (20 ≤ byte_at packet 0 % 16 * 4)
      × (byte_at packet 0 % 16 * 4 ≤ length packet)
      × (byte_at packet 9 ≡ proto))
    ⊎ ((byte_at packet 0 / 16 ≡ 6) × LeadsTo packet proto)

tcp-ne-udp : (x : Bytes) → x ≡ codes "tcp" → x ≡ codes "udp" → ⊥
tcp-ne-udp x e f = ground arith

names_iff :
    (proto : ℕ) (x : Bytes)
    → (names proto x ≡ true)
      ↔ (((proto ≡ 6) × (x ≡ codes "tcp")) ⊎ ((proto ≡ 17) × (x ≡ codes "udp")))
unfolding names
names_iff proto x = ground (arith, bytes_eq_iff x (codes "tcp"), bytes_eq_iff x (codes "udp"))

any_names→Permits : (proto : ℕ) (ps : List Bytes) → any_names proto ps ≡ true → Permits ps proto
unfolding any_names
any_names→Permits proto [] h = cc
any_names→Permits proto (x ∷ xs) h = ground (arith, names_iff proto x, any_names→Permits proto xs)

Permits→any_names : (proto : ℕ) (ps : List Bytes) → Permits ps proto → any_names proto ps ≡ true
unfolding any_names
Permits→any_names proto [] h = ground arith
Permits→any_names proto (x ∷ xs) h = ground (arith, names_iff proto x, Permits→any_names proto xs)

ip_protocol_iff :
    (packet : Bytes) (proto : ℕ) → (ip_protocol packet ≡ some proto) ↔ Carries packet proto
unfolding ip_protocol ipv4_protocol
ip_protocol_iff [] proto = (λ h. cc, λ h. ground (arith, λ (v : LeadsTo [] proto). v.fixed))
ip_protocol_iff (b ∷ packet) proto = (
  λ h. ground (arith, (ipv6_upper_layer_protocol_iff (b ∷ packet) proto).0),
  λ h. ground (arith, (ipv6_upper_layer_protocol_iff (b ∷ packet) proto).1),
)

-- A packet passes the filter exactly if it carries, in an IPv4 header or behind a chain of
-- fewer than 16 IPv6 extension headers, a protocol that the configuration permits: 6 under the
-- name tcp, 17 under the name udp.
pub packet_allowed_iff :
    (packet : Bytes) (protocols : List Bytes)
    → (packet_allowed packet protocols ≡ true)
      ↔ ((proto : ℕ) × Carries packet proto × Permits protocols proto)
unfolding packet_allowed
packet_allowed_iff packet protocols = elim (Option-cases (ip_protocol packet)) [
  | inl e ↦
      rw (e, packet_allowed) (λ h. cc, λ (proto, c, _). cc ((ip_protocol_iff packet proto).1 c))
  | inr (proto, e) ↦
      rw (e, packet_allowed)
        (
          λ h. (proto, (ip_protocol_iff packet proto).0 e, any_names→Permits proto protocols h),
          λ (q, c, a).
              let w = (ip_protocol_iff packet q).1 c in
              let same : q ≡ proto = cc (w, e) in
              Permits→any_names proto protocols (subst (Permits protocols) same a),
        )
]
