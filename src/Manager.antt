-- ===== src/Manager.antt =====
-- internal/transport/manager.go: the tunnel sessions by carrier, and which carrier a message takes.
-- A session is its identity; what sending on it and closing it do is an interface, `Carriers`.
pub mod Failover
pub mod Tests
use unknowntunnel.Prelude.{
  ℕ, Bool, true, false, ◌||◌, not, ◌==◌, List, [], ◌∷◌, Bytes, codes, bytes_eq, Option, none, some,
  if◌then◌else◌, Map, bytes_key, lookup, insert, remove,
}
use unknowntunnel.Reorder.{Outcome}

abbrev pub tcp : Bytes
tcp = codes "tcp"

abbrev pub udp : Bytes
udp = codes "udp"

abbrev pub both : Bytes
both = codes "both"

-- The methods of the `Session` interface that the manager calls, on the state of all sessions.
pub record Carriers (W E : Type 0) : Type 0 where
  pub kind : ℕ → Bytes
  pub send_on : ℕ → Bytes → W → Outcome E W
  pub shut : ℕ → W → W

pub data SendError (E : Type 0) : Type 0 where
  send_failed : E → SendError E
  no_session : SendError E

-- `running` is whether the context is there and not cancelled.
pub record Manager (W : Type 0) : Type 0 where
  pub mode : Bytes
  pub prefer : Bytes
  pub running : Bool
  pub sessions : Map Bytes ℕ
  pub world : W

pub uses : {W : Type 0} → Bytes → Manager W → Bool
uses kind m = bytes_eq m.mode kind || bytes_eq m.mode both

pub ready : {W : Type 0} → Bytes → Manager W → Bool
ready kind m = elim (lookup kind m.sessions) [ none ↦ false | some _ ↦ true ]

-- The carriers that `Send` tries.
pub order : {W : Type 0} → Manager W → List Bytes
order m =
    m.prefer
    ∷ (if bytes_eq m.mode both then (if bytes_eq m.prefer udp then tcp else udp) ∷ [] else [])

module _ {W E : Type 0} (c : Carriers W E) where
  -- Only the session that is registered now is taken out; the given one is closed in any case.
  pub remove_session : Bytes → ℕ → Manager W → Manager W
  remove_session kind session m = elim (lookup kind m.sessions) [
    | none ↦ record m { world = c.shut session m.world }
    | some s ↦
        if s == session
        then record m { sessions = remove kind m.sessions; world = c.shut session m.world }
        else record m { world = c.shut session m.world }
  ]

  -- Up to the start of the goroutine that watches the session.
  pub add_session : ℕ → Manager W → Manager W
  add_session session m =
      if not m.running
      then record m { world = c.shut session m.world }
      else elim (lookup (c.kind session) m.sessions) [
        | none ↦ record m { sessions = insert (c.kind session) session m.sessions }
        | some old ↦
            if old == session
            then record m { sessions = insert (c.kind session) session m.sessions }
            else record m {
              sessions = insert (c.kind session) session m.sessions;
              world = c.shut old m.world;
            }
      ]

  -- What follows a call of a session's `Send`.
  after_send :
      (Option E → Manager W → Outcome (SendError E) (Manager W))
      → Bytes
      → ℕ
      → Manager W
      → Outcome E W
      → Outcome (SendError E) (Manager W)
  after_send next kind session m (w, none) = (record m { world = w }, none)
  after_send next kind session m (w, some e) =
      next (some e) (remove_session kind session (record m { world = w }))

  send_error : Option E → SendError E
  send_error none = no_session
  send_error (some e) = send_failed e

  -- The loop of `Send`, with `lastErr`.
  pub try_each : Bytes → List Bytes → Option E → Manager W → Outcome (SendError E) (Manager W)
  unfolding after_send send_error
  try_each message [] last m = (m, some (send_error last))
  try_each message (kind ∷ kinds) last m = elim (lookup kind m.sessions) [
    | none ↦ try_each message kinds last m
    | some session ↦
        after_send (try_each message kinds) kind session m (c.send_on session message m.world)
  ]

  pub send : Bytes → Manager W → Outcome (SendError E) (Manager W)
  send message m = try_each message (order m) none m

  shut_all : Map Bytes ℕ → W → W
  shut_all [] w = w
  shut_all ((kind, session) ∷ rest) w = shut_all rest (c.shut session w)

  -- `Close`, less the listeners.
  pub close : Manager W → Manager W
  unfolding shut_all
  close m = record m { running = false; sessions = []; world = shut_all m.sessions m.world }
