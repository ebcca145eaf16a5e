-- ===== src/Flow.antt =====
-- internal/app/app.go, `tcpState`: one end of a tunnelled TCP flow. Payloads that arrive with a
-- sequence number are written to the local connection in order.
pub mod Stream
use unknowntunnel.Prelude.{ℕ, Bytes, Option, none, some, [], ◌∷◌, List}
use unknowntunnel.Reorder.{Order, Outcome, start, accept, accept_all}
use unknowntunnel.Writer.{Conn, WriteError, write_all}

pub data FlowError (E : Type 0) : Type 0 where
  write_error : WriteError E → FlowError E
  window_exceeded : FlowError E

-- The fields of a flow that ordering uses are `Order`'s: `expected`, `reorder`, and `out`, the connection.
module _ {C E : Type 0} (conn : Conn C E) where
  raise : C × Option (WriteError E) → Outcome (FlowError E) C
  raise (c, none) = (c, none)
  raise (c, some e) = (c, some (write_error e))

  -- `writeConnAll`.
  unfoldable pub write_conn_all : Bytes → C → Outcome (FlowError E) C
  unfolding raise
  write_conn_all payload c = raise (write_all conn payload c)

  unfoldable pub new_flow : C → Order C
  new_flow c = start c

  unfoldable pub write_ordered : ℕ → Bytes → Order C → Outcome (FlowError E) (Order C)
  write_ordered seq payload o = accept write_conn_all (some window_exceeded) seq payload o

  -- The data messages of a flow, one after the other, up to the first failure.
  unfoldable pub write_each : List (ℕ × Bytes) → Order C → Outcome (FlowError E) (Order C)
  write_each arrivals o = accept_all write_conn_all (some window_exceeded) arrivals o
