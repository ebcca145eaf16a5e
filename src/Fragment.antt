-- ===== src/Fragment.antt =====
-- internal/app/app.go, `sendUDPDatagram` and `handleUDPChunk`: a UDP datagram crosses the tunnel in
-- numbered fragments and is put together at the other end.
pub mod Split
pub mod Marks
pub mod Steps
pub mod Reassembly
pub mod Bounds
use unknowntunnel.Prelude.{
  ℕ, zero, suc, ◌+◌, ◌-◌, ◌*◌, ◌/◌, Bool, true, false, not, ◌&&◌, ◌||◌, List, [], ◌∷◌, ◌++◌, Bytes,
  Option, none, some, ltb, leb, ◌==◌, if◌then◌else◌, length, get_or, set, replicate, slice, put_be,
  get_be, Result, ok, err, Map, pair_key, lookup, insert, remove,
}
use unknowntunnel.Message.{Message}

abbrev pub udp_chunk_size : ℕ
udp_chunk_size = 1200

abbrev pub max_udp_datagram : ℕ
max_udp_datagram = 65507

abbrev pub max_udp_assemblies : ℕ
max_udp_assemblies = 4096

pub data Error : Type 0 where
  datagram_too_large : Error

-- How many fragments a datagram takes: one at least.
unfoldable pub fragments : Bytes → ℕ
fragments bytes =
    let total = (length bytes + udp_chunk_size - 1) / udp_chunk_size in
    if total == 0 then 1 else total

-- `data[start:end]` of one round of the send loop.
pub chunk : Bytes → ℕ → Bytes
chunk bytes part =
    let start = part * udp_chunk_size in
    let end = start + udp_chunk_size in
    slice bytes start (if ltb (length bytes) end then length bytes else end)

pub fragment : Bytes → ℕ → ℕ → Bytes
fragment bytes total part = put_be 2 part ++ (put_be 2 total ++ chunk bytes part)

-- The rounds that are left, from `part` on.
fragments_from : ℕ → Bytes → ℕ → ℕ → List Bytes
fragments_from zero bytes total part = []
fragments_from (suc left) bytes total part =
    fragment bytes total part ∷ fragments_from left bytes total (part + 1)

-- The payloads that `sendUDPDatagram` sends, in order.
pub send_udp_datagram : Bytes → Result Error (List Bytes)
unfolding fragments_from
send_udp_datagram bytes =
    if ltb max_udp_datagram (length bytes)
    then err datagram_too_large
    else ok (fragments_from (fragments bytes) bytes (fragments bytes) 0)

-- A Go slice that is nil is an empty list here: `append([]byte(nil), c...)` of an empty `c` is nil.
pub record Assembly : Type 0 where
  pub created : ℕ
  pub name : Bytes
  pub total : ℕ
  pub received : ℕ
  pub chunks : List Bytes

-- The key is the flow and the datagram.
abbrev pub Assemblies : Type 0
Assemblies = Map (ℕ × ℕ) Assembly

pub is_nil : Bytes → Bool
is_nil [] = true
is_nil (b ∷ bs) = false

pub new_assembly : ℕ → Bytes → ℕ → Assembly
new_assembly now name total = record {
  created = now;
  name = name;
  total = total;
  received = 0;
  chunks = replicate total [];
}

-- `if assembly.name == "" && msg.Name != ""`.
pub fill_name : Bytes → Assembly → Assembly
fill_name name a = if is_nil a.name && not (is_nil name) then record a { name = name } else a

-- `if assembly.chunks[part] == nil`.
pub fill_chunk : ℕ → Bytes → Assembly → Assembly
fill_chunk part bytes a =
    if is_nil (get_or a.chunks part [])
    then record a { chunks = set a.chunks part bytes; received = a.received + 1 }
    else a

pub join : List Bytes → Bytes
join [] = []
join (c ∷ cs) = c ++ join cs

-- What is handed to `handleUDPDatagram`: the service's name and the datagram.
abbrev pub Delivery : Type 0
Delivery = Option (Bytes × Bytes)

-- The datagram of a complete assembly, unless it is too long.
pub deliver : Assembly → Delivery
deliver a =
    if ltb max_udp_datagram (length (join a.chunks)) then none else some (a.name, join a.chunks)

-- The assembly, which a Go map holds by reference, after the fragment was put in.
pub settle : ℕ × ℕ → Assembly → Assemblies → Assemblies × Delivery
settle key a m =
    if not (a.received == a.total) then (insert key a m, none) else (remove key m, deliver a)

pub put_in : ℕ × ℕ → Message → ℕ → ℕ → Assembly → Assemblies → Assemblies × Delivery
put_in key msg part total a m =
    if not (a.total == total)
    then (remove key m, none)
    else settle key
        (fill_chunk part (slice msg.payload 4 (length msg.payload)) (fill_name msg.name a)) m

-- An assembly is made if there is none and room for one.
pub place : ℕ → ℕ × ℕ → Message → ℕ → ℕ → Assemblies → Assemblies × Delivery
place now key msg part total m = elim (lookup key m) [
  | some a ↦ put_in key msg part total a m
  | none ↦
      if leb max_udp_assemblies (length m)
      then (m, none)
      else let a = new_assembly now msg.name total in put_in key msg part total a (insert key a m)
]

pub handle_udp_chunk : ℕ → Message → Assemblies → Assemblies × Delivery
handle_udp_chunk now msg m =
    if ltb (length msg.payload) 4
    then (m, none)
    else let part = get_be (slice msg.payload 0 2) in
      let total = get_be (slice msg.payload 2 4) in
      if ltb total 1 || (ltb 128 total || leb total part)
      then (m, none)
      else place now (msg.conn_id, msg.seq) msg part total m

-- The deliveries of the messages that arrive one after the other, each with its time.
pub handle_udp_chunks : List (ℕ × Message) → Assemblies → Assemblies × List (Bytes × Bytes)
handle_udp_chunks [] m = (m, [])
handle_udp_chunks ((now, msg) ∷ rest) m =
    let (m', delivery) = handle_udp_chunk now msg m in
    let (m'', later) = handle_udp_chunks rest m' in
    (m'', elim delivery [ none ↦ later | some d ↦ d ∷ later ])
