-- ===== src/Incoming.antt =====
-- internal/app/app.go: the messages that come out of the tunnel, and what is done with each.
pub mod Replayed
pub mod Tests
use unknowntunnel.Prelude.{
  ℕ, ◌+◌, ◌-◌, Bool, true, false, not, ◌&&◌, ◌||◌, ltb, leb, ◌==◌, List, [], ◌∷◌, ◌++◌, Bytes,
  Option, none, some, if◌then◌else◌, Map, Result, ok, err, length, take, drop, inc_u64,
}
use unknowntunnel.Message.{
  Message, decode, type_ip_packet, type_open_tcp, type_tcp_status, type_tcp_data, type_tcp_close,
  type_udp_data, type_ping, type_pong,
}
use unknowntunnel.Dedupe.{Dedupe, is_duplicate}
use unknowntunnel.PacketFilter.{packet_allowed}
use unknowntunnel.Writer.{Conn}
use unknowntunnel.Config.{Service, L3Config}
use unknowntunnel.Tunnel.{Outbox, blank, send}
use unknowntunnel.TcpTable.{Table, post, close_tcp, handle_tcp_status, handle_tcp_data}
use unknowntunnel.Fragment.{Assembly, Assemblies, Delivery, handle_udp_chunk}
use unknowntunnel.UdpFlows.{Flows, handle_udp_datagram, cleanup}

-- 30 seconds, in the clock's nanoseconds.
abbrev pub udp_assembly_lifetime : ℕ
udp_assembly_lifetime = 30000000000

-- What a message may change. `device` lists the packets written to the TUN device, if there is one;
-- `opening` the requests for which a goroutine was started. Both are oldest first.
pub record Work (C : Type 0) : Type 0 where
  pub table : Table C
  pub assemblies : Assemblies
  pub flows : Flows
  pub device : Option (List Bytes)
  pub opening : List Message

pub record App (C : Type 0) : Type 0 where
  pub seen : Dedupe
  pub work : Work C

-- The configuration, and what a message meets outside: the local connections, the tunnel, and the
-- local UDP sockets.
pub record World (C E : Type 0) : Type 0 where
  pub l3 : L3Config
  pub services : Map Bytes Service
  pub conn : Conn C E
  pub link : Message → Bool
  pub dial : Bytes → Option ℕ
  pub can_write : Bool

module _ {C E : Type 0} (w : World C E) where
  write_device : Bytes → Option (List Bytes) → Option (List Bytes)
  write_device packet none = none
  write_device packet (some packets) = some (packets ++ (packet ∷ []))

  -- `handleIPPacket`.
  pub handle_ip_packet : Bytes → Work C → Work C
  unfolding write_device
  handle_ip_packet packet a =
      if not w.l3.enabled || not (packet_allowed packet w.l3.allow_protocols)
      then a
      else record a { device = write_device packet a.device }

  handle_delivery : ℕ → ℕ → Delivery → Flows → Flows
  handle_delivery now flow_id none flows = flows
  handle_delivery now flow_id (some (name, bytes)) flows =
      handle_udp_datagram w.services w.dial w.can_write now flow_id name bytes flows

  -- `handleUDPChunk`, with the datagram that it completes.
  pub handle_udp : ℕ → Message → Work C → Work C
  unfolding handle_delivery
  handle_udp now msg a =
      let (assemblies, delivery) = handle_udp_chunk now msg a.assemblies in
      record a { assemblies = assemblies; flows = handle_delivery now msg.conn_id delivery a.flows }

  pub pong : Message → Message
  pong msg = record blank { type = type_pong; seq = msg.seq }

  -- `handleMessage`.
  pub handle_message : ℕ → Message → Work C → Work C
  unfolding handle_ip_packet handle_udp pong
  handle_message now msg a =
      if msg.type == type_ip_packet
      then handle_ip_packet msg.payload a
      else if msg.type == type_open_tcp
      then record a { opening = a.opening ++ (msg ∷ []) }
      else if msg.type == type_tcp_status
      then record a { table = handle_tcp_status w.conn w.link msg a.table }
      else if msg.type == type_tcp_data
      then record a { table = handle_tcp_data w.conn w.link msg a.table }
      else if msg.type == type_tcp_close
      then record a { table = close_tcp w.conn w.link msg.conn_id false a.table }
      else if msg.type == type_udp_data
      then handle_udp now msg a
      else if msg.type == type_ping
      then record a { table = post w.conn w.link (pong msg) a.table }
      else a

  pub unless_duplicate : Bool → ℕ → Message → Work C → Work C
  unless_duplicate true now msg a = a
  unless_duplicate false now msg a = handle_message now msg a

  -- One round of `incomingLoop`.
  pub incoming : ℕ → Bytes → App C → App C
  unfolding handle_message unless_duplicate
  incoming now raw a = elim (decode raw) [
    | err _ ↦ a
    | ok msg ↦
        let (duplicate, seen) = is_duplicate msg.id a.seen in
        record { seen = seen; work = unless_duplicate duplicate now msg a.work }
  ]

  -- The rounds for the arrivals of a list, each with its time.
  pub incoming_all : List (ℕ × Bytes) → App C → App C
  unfolding incoming
  incoming_all [] a = a
  incoming_all ((now, raw) ∷ rest) a = incoming_all rest (incoming now raw a)

-- `cleanup`, its three loops.
pub clean_assemblies : ℕ → Assemblies → Assemblies
clean_assemblies now [] = []
clean_assemblies now ((key, assembly) ∷ rest) =
    let kept = clean_assemblies now rest in
    if ltb udp_assembly_lifetime (now - assembly.created) then kept else (key, assembly) ∷ kept

pub clean : {C : Type 0} → ℕ → Work C → Work C
unfolding clean_assemblies
clean now a = record a {
  assemblies = clean_assemblies now a.assemblies;
  flows = cleanup now a.flows;
}

-- `randomID`, of the number that was drawn.
pub random_id : Option ℕ → Option ℕ
random_id none = none
random_id (some id) = some (if id == 0 then 1 else id)
