-- ===== src/Console/Loops/Endings.antt =====
-- internal/admin/admin.go, the loops of the prompts: when they return.
use unknowntunnel.Prelude.{
  ℕ, zero, suc, ◌+◌, ◌<◌, ◌≡◌, ◌≢◌, inl, inr, ap, All, [], Option, none, some, length, arith,
}
use unknowntunnel.Site.{Host, Answer, done, failed, forever, Console}
use unknowntunnel.Console.{again, repeat}
use unknowntunnel.Console.Loops.{Reads, IsReading, round}

-- Only lines that can be read.
unfoldable pub IsReadable : Host → Type 0
IsReadable h = All (λ line. line ≢ none) h.input

-- A call that returns what `P` says, with an input that can be read.
unfoldable pub Succeeds : {A : Type 0} → (A → Type 0) → Answer A → Type 0
Succeeds P (done a h') = P a × IsReadable h'
Succeeds P (failed e h') = ⊥
Succeeds P forever = ⊥

unfoldable pub IsSome : {A : Type 0} → Option A → Type 0
IsSome none = ⊥
IsSome (some a) = Unit

module _ {A : Type 0} (body : Console (Option A)) (reading : IsReading body)
    (fine : (h : Host) → IsReadable h → Succeeds (λ _. Unit) (body h))
    (ends : (h : Host) → h.input ≡ [] → Succeeds IsSome (body h)) where
  round-Succeeds :
      (fuel : ℕ) (h : Host) (x : Answer (Option A))
      → length h.input < suc fuel
      → Reads h x
      → Succeeds (λ _. Unit) x
      → (h.input ≡ [] → Succeeds IsSome x)
      → ((h' : Host)
          → length h'.input < fuel
          → IsReadable h'
          → Succeeds (λ _. Unit) (again fuel body h'))
      → Succeeds (λ _. Unit) (round x (again fuel body))
  unfolding Succeeds round Reads IsSome
  round-Succeeds fuel h (done (some a) h') less r ok end go = ok
  round-Succeeds fuel h (done none h') less r ok end go = elim r.onward [
    | inl less' ↦ go h' (omega arith) ok.1
    | inr (nil, _) ↦ absurd (end nil).0
  ]
  round-Succeeds fuel h (failed e h') less r ok end go = ok
  round-Succeeds fuel h forever less r ok end go = ok

  again-Succeeds :
      (fuel : ℕ) (h : Host)
      → length h.input < fuel
      → IsReadable h
      → Succeeds (λ _. Unit) (again fuel body h)
  unfolding again round IsReading
  again-Succeeds zero h less ok = absurd (omega arith)
  again-Succeeds (suc fuel) h less ok =
      round-Succeeds fuel h (body h) less (reading h) (fine h ok) (ends h) (again-Succeeds fuel)

  -- Where a round returns at the end of the input, the loop ends.
  pub repeat-Succeeds : (h : Host) → IsReadable h → Succeeds (λ _. Unit) (repeat body h)
  unfolding repeat
  repeat-Succeeds h ok = again-Succeeds (length h.input + 1) h (omega arith) ok

at_least_one :
    {A : Type 0} (body : Console (Option A)) (h h' : Host) (a : A)
    → body h ≡ done (some a) h'
    → (fuel : ℕ) → 0 < fuel
    → again fuel body h ≡ done a h'
unfolding again round
at_least_one body h h' a e zero less = absurd (omega arith)
at_least_one body h h' a e (suc fuel) less = ap (λ x. round x (again fuel body)) e

-- A first round that returns is the loop.
pub repeat_now :
    {A : Type 0} (body : Console (Option A)) (h h' : Host) (a : A)
    → body h ≡ done (some a) h'
    → repeat body h ≡ done a h'
unfolding repeat again round
repeat_now body h h' a e = at_least_one body h h' a e (length h.input + 1) (omega arith)
