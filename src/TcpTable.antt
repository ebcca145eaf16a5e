-- ===== src/TcpTable.antt =====
-- internal/app/app.go, `tcpConns`: the tunnelled TCP connections of one side, from opening to
-- closing. A local connection is a state `C`; dialling a service is an argument.
pub mod Replies
pub mod Tests
use unknowntunnel.Prelude.{
  ℕ, zero, suc, Bool, true, false, not, ◌||◌, leb, List, [], ◌∷◌, ◌++◌, Bytes, codes, bytes_eq,
  length, Option, none, some, if◌then◌else◌, NatMap, nat_key, bytes_key, Map, lookup, insert,
  remove,
}
use unknowntunnel.Message.{Message, type_open_tcp, type_tcp_status, type_tcp_close, type_tcp_data}
use unknowntunnel.Reorder.{Order, Outcome}
use unknowntunnel.Writer.{Conn}
use unknowntunnel.Flow.{FlowError, new_flow, write_ordered}
use unknowntunnel.Config.{Service}
use unknowntunnel.Tunnel.{Outbox, blank, send}

abbrev pub max_tcp_connections : ℕ
max_tcp_connections = 65536

-- `awaiting`: the flow has a `ready` channel, which holds one answer; `answer` is what it holds, an
-- error text or success.
pub record TcpState (C : Type 0) : Type 0 where
  pub awaiting : Bool
  pub answer : Option (Option Bytes)
  pub order : Order C

-- `shut` lists the connections that were closed, oldest first.
pub record Table (C : Type 0) : Type 0 where
  pub closed : Bool
  pub tcp_conns : NatMap (TcpState C)
  pub outbox : Outbox
  pub shut : List C

-- How the wait for the answer to an opening ends.
pub data Wait : Type 0 where
  answered : Option Bytes → Wait
  timed_out : Wait
  cancelled : Wait

-- `newTCPState`.
pub new_tcp_state : {C E : Type 0} → Conn C E → C → Bool → TcpState C
new_tcp_state conn c pending = record { awaiting = pending; answer = none; order = new_flow conn c }

module _ {C E : Type 0} (conn : Conn C E) (link : Message → Bool) where
  -- `_ = a.send(…)`.
  pub post : Message → Table C → Table C
  post msg a = record a { outbox = (send link msg a.outbox).0 }

  pub hang_up : C → Table C → Table C
  hang_up c a = record a { shut = a.shut ++ (c ∷ []) }

  pub close_tcp : ℕ → Bool → Table C → Table C
  unfolding post hang_up
  close_tcp conn_id notify a = elim (lookup conn_id a.tcp_conns) [
    | none ↦ a
    | some state ↦
        let b = hang_up state.order.out (record a { tcp_conns = remove conn_id a.tcp_conns }) in
        if notify then post (record blank { type = type_tcp_close; conn_id = conn_id }) b else b
  ]

  -- The attempts of `uniqueTCPID`, with the results of `randomID`: `none` is a failed one.
  pub pick_id : ℕ → List (Option ℕ) → Table C → Option ℕ
  pick_id zero ids a = none
  pick_id (suc attempts) [] a = none
  pick_id (suc attempts) (none ∷ ids) a = none
  pick_id (suc attempts) (some id ∷ ids) a = elim (lookup id a.tcp_conns) [
    | none ↦ some id
    | some _ ↦ pick_id attempts ids a
  ]

  pub unique_tcp_id : List (Option ℕ) → Table C → Option ℕ
  unique_tcp_id ids a =
      if leb max_tcp_connections (length a.tcp_conns) then none else pick_id 10 ids a

  after_wait : ℕ → Wait → Table C → Table C × Bool
  after_wait conn_id (answered none) a = (a, true)
  after_wait conn_id (answered (some e)) a = (close_tcp conn_id false a, false)
  after_wait conn_id timed_out a = (close_tcp conn_id true a, false)
  after_wait conn_id cancelled a = (close_tcp conn_id false a, false)

  -- `openLocalTCP`: the table it leaves, and whether data is pumped from then on.
  pub open_local_tcp : C → Bytes → List (Option ℕ) → Wait → Table C → Table C × Bool
  unfolding after_wait
  open_local_tcp c service ids wait a =
      if a.closed then (hang_up c a, false) else elim (unique_tcp_id ids a) [
        | none ↦ (hang_up c a, false)
        | some conn_id ↦
            let opened = record a {
              tcp_conns = insert conn_id (new_tcp_state conn c true) a.tcp_conns;
            } in
            let msg = record blank { type = type_open_tcp; conn_id = conn_id; name = service } in
            let b = post msg opened in
            if (send link msg a.outbox).1
            then after_wait conn_id wait b
            else (close_tcp conn_id false b, false)
      ]

  pub status : ℕ → Bytes → Message
  status conn_id error = record blank { type = type_tcp_status; conn_id = conn_id; error = error }

  -- A connection to the service is there. It is kept unless the side has closed meanwhile or the
  -- id is in use.
  pub keep : ℕ → Bool → C → Table C → Table C × Bool
  unfolding status
  keep conn_id closed_meanwhile c a =
      if closed_meanwhile then (hang_up c a, false) else elim (lookup conn_id a.tcp_conns) [
        | some _ ↦ (hang_up c a, false)
        | none ↦
            let msg = status conn_id [] in
            let b =
              post msg (record a {
                tcp_conns = insert conn_id (new_tcp_state conn c false) a.tcp_conns;
              }) in
            if (send link msg a.outbox).1 then (b, true) else (close_tcp conn_id false b, false)
      ]

  -- `handleOpenTCP`: the table it leaves, and whether data is pumped from then on.
  pub handle_open_tcp :
      Map Bytes Service → (Bytes → Option C) → Bool → Message → Table C → Table C × Bool
  unfolding status
  handle_open_tcp services dial closed_meanwhile msg a =
      if a.closed
      then (a, false)
      else if leb max_tcp_connections (length a.tcp_conns)
      then (post (status msg.conn_id (codes "TCP connection limit reached")) a, false)
      else elim (lookup msg.name services) [
        | none ↦ (post (status msg.conn_id (codes "service is not allowed or is not TCP")) a, false)
        | some svc ↦
            if not (bytes_eq svc.network (codes "tcp"))
            then (post (status msg.conn_id (codes "service is not allowed or is not TCP")) a, false)
            else elim (dial svc.address) [
              | none ↦
                  (post (status msg.conn_id (codes "remote service connection failed")) a, false)
              | some c ↦ keep msg.conn_id closed_meanwhile c a
            ]
      ]

  offer : Option Bytes → TcpState C → TcpState C
  offer e state = elim state.answer [ none ↦ record state { answer = some e } | some _ ↦ state ]

  -- `handleTCPStatus`: an answer for a channel that holds one already is dropped.
  pub handle_tcp_status : Message → Table C → Table C
  unfolding offer
  handle_tcp_status msg a = elim (lookup msg.conn_id a.tcp_conns) [
    | none ↦ a
    | some state ↦
        if not state.awaiting
        then a
        else let e = if bytes_eq msg.error [] then none else some msg.error in
          record a { tcp_conns = insert msg.conn_id (offer e state) a.tcp_conns }
  ]

  written : ℕ → Outcome (FlowError E) (Order C) → TcpState C → Table C → Table C
  written conn_id (o, none) state a = record a {
    tcp_conns = insert conn_id (record state { order = o }) a.tcp_conns;
  }
  written conn_id (o, some e) state a =
      close_tcp conn_id true
        (record a { tcp_conns = insert conn_id (record state { order = o }) a.tcp_conns })

  -- `handleTCPData`.
  pub handle_tcp_data : Message → Table C → Table C
  unfolding written
  handle_tcp_data msg a = elim (lookup msg.conn_id a.tcp_conns) [
    | none ↦ post (record blank { type = type_tcp_close; conn_id = msg.conn_id }) a
    | some state ↦ written msg.conn_id (write_ordered conn msg.seq msg.payload state.order) state a
  ]
