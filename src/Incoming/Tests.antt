-- ===== src/Incoming/Tests.antt =====
-- internal/app/app.go: a ping that comes twice.
use unknowntunnel.Prelude.{ℕ, ◌≡◌, refl, true, false, [], ◌∷◌, Bytes, none, some, arith}
use unknowntunnel.Dedupe.{new_dedupe, is_duplicate, contains}
use unknowntunnel.Dedupe.Recent.{new_dedupe-IsWindow}
use unknowntunnel.Config.Tests.{client_config}
use unknowntunnel.Tests.{wire, ping, ping_bytes, ping_decodes}
use unknowntunnel.Incoming.{App, World, incoming, incoming_all}
use unknowntunnel.Incoming.Replayed.{incoming_again}

abbrev world : World Bytes ℕ
world = record {
  l3 = client_config.l3;
  services = client_config.services;
  conn = wire;
  link = λ msg. true;
  dial = λ address. none;
  can_write = true;
}

abbrev app : App Bytes
app = record {
  seen = new_dedupe 4;
  work = record {
    table = record {
      closed = false;
      tcp_conns = [];
      outbox = record { msg_id = 0; sent = [] };
      shut = [];
    };
    assemblies = [];
    flows = record {
      closed = false;
      entry_udp = [];
      entry_udp_keys = [];
      remote_udp = [];
      to_clients = [];
      to_sockets = [];
      shut = [];
    };
    device = some [];
    opening = [];
  };
}

incoming_again_example :
    incoming world 9 ping_bytes
      (incoming_all world ((5, 1 ∷ []) ∷ []) (incoming world 0 ping_bytes app))
    ≡ incoming_all world ((5, 1 ∷ []) ∷ []) (incoming world 0 ping_bytes app)
unfolding new_dedupe is_duplicate contains
incoming_again_example =
    incoming_again world ping_bytes 0 9 ping ((5, 1 ∷ []) ∷ []) app ping_decodes
      (new_dedupe-IsWindow 4 (omega arith)) refl (omega arith)
