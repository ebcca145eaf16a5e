-- ===== src/UdpServer/Tests.antt =====
-- internal/transport/udp.go: a hello at a new server, and at one that is full.
use unknowntunnel.Prelude.{
  ℕ, zero, suc, ◌≡◌, refl, ap, true, false, [], ◌∷◌, codes, length, some, lookup, nat_key,
  replicate, arith, NatMap, ◌==◌, Bool-cases, inl, inr,
}
use unknowntunnel.Tests.{toy, hello_bytes, secret, fresh}
use unknowntunnel.UdpSession.{keyed_session}
use unknowntunnel.UdpServer.{Entry, Server, Chance, Event, packet_read, ended, new_server, step}
use unknowntunnel.UdpServer.Tables.{IsConsistent, new_server-IsConsistent}
use unknowntunnel.UdpServer.Events.{IsFresh, IsFreshEvent, step-IsConsistent}
use unknowntunnel.UdpServer.Leak.{IsStuck, IsOpenEvent, run, run_stuck}

abbrev chance : Chance
chance = record { since = fresh; now = 1001; session_id = some 77; nonce = some (replicate 32 2) }

abbrev hello_event : Event
hello_event = packet_read chance false true (codes "10.0.0.2:5000") hello_bytes

step-IsConsistent_example :
    IsConsistent (step toy secret (codes "b") (codes "a") hello_event new_server)
unfolding new_server lookup IsFreshEvent IsFresh
step-IsConsistent_example =
    step-IsConsistent toy secret (codes "b") (codes "a") hello_event new_server (λ id e. refl)
      new_server-IsConsistent

-- Sessions that nothing watches.
abbrev dead : Entry
dead = record { handle = 0; session = keyed_session 0 [] [] [] []; remote = []; watched = false }

abbrev dead_sessions : ℕ → NatMap Entry
dead_sessions zero = []
dead_sessions (suc n) = (n, dead) ∷ dead_sessions n

length-dead_sessions : (n : ℕ) → length (dead_sessions n) ≡ n
length-dead_sessions zero = refl
length-dead_sessions (suc n) = ap suc (length-dead_sessions n)

dead_unwatched : (n id : ℕ) (e : Entry) → lookup id (dead_sessions n) ≡ some e → e.watched ≡ false
unfolding lookup
dead_unwatched zero id e h = absurd (cc h)
dead_unwatched (suc n) id e h = elim (Bool-cases (n == id)) [
  | inl q ↦ ground (arith, h, q)
  | inr q ↦ dead_unwatched n id e (ground (arith, h, q))
]

abbrev full_server : Server
full_server = record new_server { sessions = dead_sessions 64 }

full_server-IsStuck : IsStuck full_server
full_server-IsStuck = record {
  full = omega (arith, length-dead_sessions 64);
  unwatched = dead_unwatched 64;
}

run_stuck_example :
    ((run toy secret (codes "b") (codes "a") (hello_event ∷ ended 0 3 ∷ []) full_server).written
      ≡ full_server.written)
    × ((run toy secret (codes "b") (codes "a") (hello_event ∷ ended 0 3 ∷ []) full_server).announced
        ≡ full_server.announced)
unfolding IsOpenEvent
run_stuck_example =
    run_stuck toy secret (codes "b") (codes "a") (hello_event ∷ ended 0 3 ∷ []) full_server
      (tt, (tt, tt)) full_server-IsStuck
