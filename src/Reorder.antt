-- ===== src/Reorder.antt =====
-- The receive window that internal/app/app.go (`tcpState.writeOrdered`) and
-- internal/transport/udp.go (`udpSession.acceptOrdered`) both write out: the next sequence number,
-- the payloads that came too early, and the sink that takes payloads in order.
pub mod Steps
pub mod Safety
pub mod Progress
use unknowntunnel.Prelude.{
  ℕ, zero, suc, ◌-◌, Bytes, Option, none, some, ltb, if◌then◌else◌, length, inc_u64, NatMap,
  nat_key, lookup, insert, remove, List, [], ◌∷◌,
}

abbrev pub window : ℕ
window = 4096

pub record Order (S : Type 0) : Type 0 where
  pub expected : ℕ
  pub reorder : NatMap Bytes
  pub out : S

abbrev pub start : {S : Type 0} → S → Order S
start s = record { expected = 1; reorder = []; out = s }

-- What a sink, or a step that uses one, leaves: the new state, and its error if it failed.
abbrev pub Outcome : Type 0 → Type 0 → Type 0
Outcome E S = S × Option E

unfoldable pub and_then : {E S : Type 0} → Outcome E S → (S → Outcome E S) → Outcome E S
and_then (s, none) k = k s
and_then (s, some e) k = (s, some e)

-- `if _, ok := s.reorder[seq]; !ok { s.reorder[seq] = payload }`.
unfoldable pub hold : ℕ → Bytes → NatMap Bytes → NatMap Bytes
hold seq payload m = elim (lookup seq m) [ none ↦ insert seq payload m | some _ ↦ m ]

module _ {E S : Type 0} (sink : Bytes → S → Outcome E S) where
  advance : Order S → Outcome E S → Outcome E (Order S)
  advance o (s, none) = (record o { out = s; expected = inc_u64 o.expected }, none)
  advance o (s, some e) = (record o { out = s }, some e)

  -- One write, and `expected++` if it succeeded.
  unfoldable pub deliver : Bytes → Order S → Outcome E (Order S)
  unfolding advance
  deliver payload o = advance o (sink payload o.out)

  -- The loop that follows a delivery. Each round deletes a held payload, so as many rounds as
  -- there are held payloads are enough.
  unfoldable pub drain : ℕ → Order S → Outcome E (Order S)
  drain zero o = (o, none)
  drain (suc fuel) o = elim (lookup o.expected o.reorder) [
    | none ↦ (o, none)
    | some next ↦
        and_then (deliver next (record o { reorder = remove o.expected o.reorder })) (drain fuel)
  ]

  -- `refusal` is what a payload beyond the window returns: an error in app.go, none in udp.go.
  unfoldable pub accept : Option E → ℕ → Bytes → Order S → Outcome E (Order S)
  accept refusal seq payload o =
      if ltb seq o.expected
      then (o, none)
      else if ltb window (seq - o.expected)
      then (o, refusal)
      else if ltb o.expected seq
      then (record o { reorder = hold seq payload o.reorder }, none)
      else and_then (deliver payload o) (λ o'. drain (length o'.reorder) o')

  -- Calls one after the other, up to the first that fails.
  unfoldable pub accept_all : Option E → List (ℕ × Bytes) → Order S → Outcome E (Order S)
  accept_all refusal [] o = (o, none)
  accept_all refusal ((seq, payload) ∷ rest) o =
      and_then (accept refusal seq payload o) (accept_all refusal rest)
