-- ===== src/UdpFlows.antt =====
-- internal/app/app.go, `entryUDP`, `entryUDPKeys` and `remoteUDP`: the UDP flows of one side. A
-- flow that a local client opened is an entry flow, one that the peer opened a remote flow.
pub mod Cleanup
pub mod Tests
use unknowntunnel.Prelude.{
  ℕ, zero, suc, ◌-◌, ◌*◌, Bool, true, false, not, ltb, leb, ◌==◌, List, [], ◌∷◌, ◌++◌, Bytes, codes,
  bytes_eq, length, Option, none, some, if◌then◌else◌, NatMap, nat_key, bytes_key, Map, lookup,
  insert, remove,
}
use unknowntunnel.Config.{Service}

abbrev pub max_udp_flows : ℕ
max_udp_flows = 65536

abbrev pub udp_flow_idle : ℕ
udp_flow_idle = 120 * 1_000_000_000

-- `pc` is the socket that the client's datagrams came in on.
pub record EntryFlow : Type 0 where
  pub pc : ℕ
  pub client : Bytes
  pub service : Bytes
  pub last : ℕ

-- `socket` is the connection to the service.
pub record RemoteFlow : Type 0 where
  pub socket : ℕ
  pub service : Bytes
  pub last : ℕ

-- What was written, oldest first: replies to local clients with their socket and address, and data to sockets.
pub record Flows : Type 0 where
  pub closed : Bool
  pub entry_udp : NatMap EntryFlow
  pub entry_udp_keys : Map Bytes ℕ
  pub remote_udp : NatMap RemoteFlow
  pub to_clients : List (ℕ × Bytes × Bytes)
  pub to_sockets : List (ℕ × Bytes)
  pub shut : List ℕ

-- The attempts to find a free flow ID, with the results of `randomID`.
pub pick_flow_id : {V : Type 0} → ℕ → List (Option ℕ) → NatMap V → Option ℕ
pick_flow_id zero ids m = none
pick_flow_id (suc attempts) [] m = none
pick_flow_id (suc attempts) (none ∷ ids) m = none
pick_flow_id (suc attempts) (some id ∷ ids) m = elim (lookup id m) [
  | none ↦ some id
  | some _ ↦ pick_flow_id attempts ids m
]

pub new_entry : List (Option ℕ) → Bytes → Bytes → ℕ → Bytes → ℕ → Flows → Flows × Option ℕ
new_entry ids key service pc client now a =
    if leb max_udp_flows (length a.entry_udp)
    then (a, none)
    else elim (pick_flow_id 10 ids a.entry_udp) [
      | none ↦ (a, none)
      | some id ↦
          let flow : EntryFlow = record {
            pc = pc;
            client = client;
            service = service;
            last = now;
          } in
          (
            record a {
              entry_udp = insert id flow a.entry_udp;
              entry_udp_keys = insert key id a.entry_udp_keys;
            },
            some id,
          )
    ]

-- `getEntryUDPFlow`, for the key made of the forward and the client: the flow's ID.
pub get_entry_udp_flow : List (Option ℕ) → Bytes → Bytes → ℕ → Bytes → ℕ → Flows → Flows × Option ℕ
get_entry_udp_flow ids key service pc client now a =
    if a.closed then (a, none) else elim (lookup key a.entry_udp_keys) [
      | none ↦ new_entry ids key service pc client now a
      | some id ↦ elim (lookup id a.entry_udp) [
        | none ↦ new_entry ids key service pc client now a
        | some flow ↦
            (record a { entry_udp = insert id (record flow { last = now }) a.entry_udp }, some id)
      ]
    ]

-- `deleteRemoteUDP`: a flow is taken out, and its socket closed, if it is the one registered now.
pub delete_remote_udp : ℕ → ℕ → Flows → Flows
delete_remote_udp flow_id socket a = elim (lookup flow_id a.remote_udp) [
  | none ↦ a
  | some flow ↦
      if flow.socket == socket
      then record a { remote_udp = remove flow_id a.remote_udp; shut = a.shut ++ (socket ∷ []) }
      else a
]

-- A write to the socket of a registered flow, which may fail.
write_remote : Bool → ℕ → ℕ → RemoteFlow → Bytes → Flows → Flows
write_remote can_write now flow_id flow bytes a =
    let b = record a { remote_udp = insert flow_id (record flow { last = now }) a.remote_udp } in
    if can_write
    then record b { to_sockets = b.to_sockets ++ ((flow.socket, bytes) ∷ []) }
    else delete_remote_udp flow_id flow.socket b

open_remote : Map Bytes Service → (Bytes → Option ℕ) → ℕ → Bytes → Flows → Option RemoteFlow
open_remote services dial now service a =
    if leb max_udp_flows (length a.remote_udp) then none else elim (lookup service services) [
      | none ↦ none
      | some svc ↦
          if not (bytes_eq svc.network (codes "udp")) then none else elim (dial svc.address) [
            | none ↦ none
            | some socket ↦ some (record { socket = socket; service = service; last = now })
          ]
    ]

-- `handleUDPDatagram`. `dial` resolves an address and opens a socket; a write to a local client
-- that fails is only logged.
pub handle_udp_datagram :
    Map Bytes Service → (Bytes → Option ℕ) → Bool → ℕ → ℕ → Bytes → Bytes → Flows → Flows
unfolding write_remote open_remote
handle_udp_datagram services dial can_write now flow_id service bytes a =
    if a.closed then a else elim (lookup flow_id a.entry_udp) [
      | some entry ↦
          let b = record a {
            entry_udp = insert flow_id (record entry { last = now }) a.entry_udp;
          } in
          if can_write
          then record b { to_clients = b.to_clients ++ ((entry.pc, entry.client, bytes) ∷ []) }
          else b
      | none ↦ elim (lookup flow_id a.remote_udp) [
        | some flow ↦ write_remote can_write now flow_id flow bytes a
        | none ↦ elim (open_remote services dial now service a) [
          | none ↦ a
          | some flow ↦ write_remote can_write now flow_id flow bytes a
        ]
      ]
    ]

pub is_idle : ℕ → ℕ → Bool
is_idle now last = ltb udp_flow_idle (now - last)

pub forget_keys : ℕ → Map Bytes ℕ → Map Bytes ℕ
forget_keys id [] = []
forget_keys id ((key, k) ∷ keys) =
    let rest = forget_keys id keys in if k == id then rest else (key, k) ∷ rest

pub clean_entries : ℕ → NatMap EntryFlow → Map Bytes ℕ → NatMap EntryFlow × Map Bytes ℕ
clean_entries now [] keys = ([], keys)
clean_entries now ((id, flow) ∷ rest) keys = elim (is_idle now flow.last) [
  | true ↦ clean_entries now rest (forget_keys id keys)
  | false ↦ let (kept, left) = clean_entries now rest keys in ((id, flow) ∷ kept, left)
]

-- The flows that stay, and the sockets to close.
pub clean_remotes : ℕ → NatMap RemoteFlow → NatMap RemoteFlow × List ℕ
clean_remotes now [] = ([], [])
clean_remotes now ((id, flow) ∷ rest) =
    let (kept, shut) = clean_remotes now rest in
    if is_idle now flow.last then (kept, flow.socket ∷ shut) else ((id, flow) ∷ kept, shut)

-- `cleanup`, less the assemblies.
pub cleanup : ℕ → Flows → Flows
cleanup now a =
    let (entries, keys) = clean_entries now a.entry_udp a.entry_udp_keys in
    let (remotes, shut) = clean_remotes now a.remote_udp in
    record a {
      entry_udp = entries;
      entry_udp_keys = keys;
      remote_udp = remotes;
      shut = a.shut ++ shut;
    }
