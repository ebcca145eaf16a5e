-- ===== src/PacketFilter.antt =====
-- internal/tun/tun_linux.go: which IP packets may cross the tunnel.
pub mod Chain
pub mod Allowed
use unknowntunnel.Prelude.{
  ℕ, zero, suc, ◌+◌, ◌*◌, ◌/◌, ◌%◌, Bool, true, false, ◌||◌, List, [], ◌∷◌, Bytes, Option, none,
  some, ltb, ◌==◌, if◌then◌else◌, length, byte_at, bytes_eq, codes,
}

-- One round of `ipv6UpperLayerProtocol`: the protocol is found, the packet is cut short, or the
-- next header begins at a new offset.
pub data Round : Type 0 where
  found : ℕ → Round
  malformed : Round
  onward : ℕ → ℕ → Round

is_options : ℕ → Bool
is_options next = next == 0 || (next == 43 || next == 60)

-- Hop-by-Hop, Routing and Destination Options: eight bytes, and eight for each that is counted.
skip_options : Bytes → ℕ → Round
skip_options packet offset =
    if ltb (length packet) (offset + 2)
    then malformed
    else let header_len = (byte_at packet (offset + 1) + 1) * 8 in
      if ltb header_len 8 || ltb (length packet) (offset + header_len)
      then malformed
      else onward (byte_at packet offset) (offset + header_len)

skip_fragment : Bytes → ℕ → Round
skip_fragment packet offset =
    if ltb (length packet) (offset + 8)
    then malformed
    else onward (byte_at packet offset) (offset + 8)

skip_authentication : Bytes → ℕ → Round
skip_authentication packet offset =
    if ltb (length packet) (offset + 2)
    then malformed
    else let header_len = (byte_at packet (offset + 1) + 2) * 4 in
      if ltb header_len 8 || ltb (length packet) (offset + header_len)
      then malformed
      else onward (byte_at packet offset) (offset + header_len)

round : Bytes → ℕ → ℕ → Round
unfolding is_options skip_options skip_fragment skip_authentication
round packet next offset =
    if is_options next
    then skip_options packet offset
    else if next == 44
    then skip_fragment packet offset
    else if next == 51
    then skip_authentication packet offset
    else found next

-- What is left of `for headers := 0; headers < 16; headers++`.
walk : ℕ → Bytes → ℕ → ℕ → Option ℕ
walk zero packet next offset = none
walk (suc headers) packet next offset = elim (round packet next offset) [
  | found proto ↦ some proto
  | malformed ↦ none
  | onward next' offset' ↦ walk headers packet next' offset'
]

pub ipv6_upper_layer_protocol : Bytes → Option ℕ
ipv6_upper_layer_protocol packet =
    if ltb (length packet) 40 then none else walk 16 packet (byte_at packet 6) 40

ipv4_protocol : Bytes → Option ℕ
ipv4_protocol packet =
    if ltb (length packet) 20
    then none
    else let header_len = byte_at packet 0 % 16 * 4 in
      if ltb header_len 20 || ltb (length packet) header_len then none else some (byte_at packet 9)

pub ip_protocol : Bytes → Option ℕ
ip_protocol packet =
    if ltb (length packet) 1
    then none
    else if byte_at packet 0 / 16 == 4
    then ipv4_protocol packet
    else if byte_at packet 0 / 16 == 6
    then ipv6_upper_layer_protocol packet
    else none

-- A configured protocol is a text; any but "tcp" and "udp" allows nothing.
names : ℕ → Bytes → Bool
names proto allowed =
    if bytes_eq allowed (codes "tcp")
    then proto == 6
    else if bytes_eq allowed (codes "udp")
    then proto == 17
    else false

any_names : ℕ → List Bytes → Bool
any_names proto [] = false
any_names proto (allowed ∷ rest) = names proto allowed || any_names proto rest

pub packet_allowed : Bytes → List Bytes → Bool
packet_allowed packet protocols = elim (ip_protocol packet) [
  | none ↦ false
  | some proto ↦ any_names proto protocols
]
