-- ===== src/UdpFlows/Tests.antt =====
-- internal/app/app.go: the UDP flows after a client came, and after it fell silent.
use unknowntunnel.Prelude.{◌≡◌, subst, false, [], ◌∷◌, codes, some, inl, inr, lookup, nat_key, none}
use unknowntunnel.UdpFlows.{Flows, cleanup, get_entry_udp_flow}
use unknowntunnel.UdpFlows.Cleanup.{IsLinked, Bound, cleanup-IsLinked, get_entry_udp_flow-IsLinked}

abbrev no_flows : Flows
no_flows = record {
  closed = false;
  entry_udp = [];
  entry_udp_keys = [];
  remote_udp = [];
  to_clients = [];
  to_sockets = [];
  shut = [];
}

no_flows-IsLinked : IsLinked no_flows
unfolding IsLinked Bound
no_flows-IsLinked key id b = absurd b

abbrev one_flow : Flows
one_flow = record no_flows {
  entry_udp = (7, record { pc = 1; client = codes "c"; service = codes "dns"; last = 0 }) ∷ [];
  entry_udp_keys = (codes "k", 7) ∷ [];
}

one_flow-IsLinked : IsLinked one_flow
unfolding IsLinked Bound lookup
one_flow-IsLinked key id (inl (same, at)) n =
    subst (λ i. lookup i one_flow.entry_udp ≡ none → ⊥) at (λ q. cc q) n
one_flow-IsLinked key id (inr b) n = absurd b

get_entry_udp_flow-IsLinked_example :
    IsLinked (get_entry_udp_flow (some 7 ∷ []) (codes "k") (codes "dns") 1 (codes "c") 5 no_flows).0
get_entry_udp_flow-IsLinked_example =
    get_entry_udp_flow-IsLinked (some 7 ∷ []) (codes "k") (codes "dns") 1 (codes "c") 5 no_flows
      no_flows-IsLinked

cleanup-IsLinked_example : IsLinked (cleanup 200000000000 one_flow)
cleanup-IsLinked_example = cleanup-IsLinked 200000000000 one_flow one_flow-IsLinked
