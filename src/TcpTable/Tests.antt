-- ===== src/TcpTable/Tests.antt =====
-- internal/app/app.go: a request to open a service that exists.
use unknowntunnel.Prelude.{
  ℕ, refl, true, false, List, [], ◌∷◌, ◌++◌, Bytes, codes, some, none, length, lookup, bytes_key,
  nat_key,
}
use unknowntunnel.Message.{Message}
use unknowntunnel.Writer.{Conn}
use unknowntunnel.Config.{Service}
use unknowntunnel.Tunnel.{blank}
use unknowntunnel.TcpTable.{Table, handle_open_tcp}
use unknowntunnel.TcpTable.Replies.{Answered, handle_open_tcp-Answered}

abbrev socket : Conn Bytes ℕ
socket = record { write = λ bytes c. (c ++ bytes, length bytes, none); written = λ c. c }

abbrev open_web : Message
open_web = record blank { type = 2; conn_id = 9; name = codes "web" }

abbrev services : List (Bytes × Service)
services = (codes "web", record { network = codes "tcp"; address = codes "h:80" }) ∷ []

abbrev no_flows : Table Bytes
no_flows = record {
  closed = false;
  tcp_conns = [];
  outbox = record { msg_id = 0; sent = [] };
  shut = [];
}

handle_open_tcp-Answered_example :
    Answered socket
      (λ m. true)
      9
      no_flows
      (handle_open_tcp socket (λ m. true) services (λ address. some []) false open_web no_flows)
unfolding lookup
handle_open_tcp-Answered_example =
    handle_open_tcp-Answered socket (λ m. true) (λ m. refl) services (λ address. some []) open_web
      no_flows refl refl
