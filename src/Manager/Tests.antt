-- ===== src/Manager/Tests.antt =====
-- internal/transport/manager.go: a manager whose UDP session fails and whose TCP session works.
use unknowntunnel.Prelude.{
  ℕ, ◌≡◌, refl, true, List, [], ◌∷◌, ◌++◌, Bytes, codes, some, none, ◌==◌, if◌then◌else◌, bytes_key,
  lookup, arith,
}
use unknowntunnel.Manager.{
  Carriers, Manager, tcp, udp, both, send, order, remove_session, add_session,
}
use unknowntunnel.Manager.Failover.{IsCarrier, Settled, send-Settled, remove_session-add_session}

-- Session 1 refuses every message, any other takes it.
abbrev lines : Carriers (List (ℕ × Bytes)) ℕ
lines = record {
  kind = λ s. if s == 1 then udp else tcp;
  send_on = λ s message w. if s == 1 then (w, some 5) else (w ++ ((s, message) ∷ []), none);
  shut = λ s w. w;
}

lines-IsCarrier : IsCarrier lines
lines-IsCarrier = record {
  taken = λ w. w;
  taken-send = λ s message w w' h. ground (arith, h);
  taken-fail = λ s message w w' e h. ground (arith, h);
  taken-shut = λ s w. refl;
}

abbrev connected : Manager (List (ℕ × Bytes))
connected = record {
  mode = both;
  prefer = udp;
  running = true;
  sessions = (udp, 1) ∷ (tcp, 2) ∷ [];
  world = [];
}

send-Settled_example :
    Settled lines lines-IsCarrier
      (codes "m")
      (order connected)
      connected
      (send lines (codes "m") connected)
send-Settled_example = send-Settled lines lines-IsCarrier (codes "m") connected

remove_session-add_session_example :
    lookup tcp (remove_session lines tcp 2 (add_session lines 3 connected)).sessions ≡ some 3
remove_session-add_session_example =
    remove_session-add_session lines 2 3 connected refl (λ e. omega arith)
