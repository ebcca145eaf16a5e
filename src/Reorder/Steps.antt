-- ===== src/Reorder/Steps.antt =====
-- The steps of the receive window: what each call does, branch by branch.
use unknowntunnel.Prelude.{
  ℕ, zero, suc, ◌+◌, ◌^◌, ◌≤◌, ◌<◌, ◌≡◌, ◌≢◌, ◌⊎◌, refl, Bytes, Option, none, some, length, NatMap,
  lookup, nat_key, remove, lookup-insert, arith, Option-cases, inl, inr,
}
use unknowntunnel.Reorder.{Order, Outcome, window, and_then, hold, deliver, drain, accept}

pub and_then-eq-none :
    {E S : Type 0} (r : Outcome E S) (k : S → Outcome E S) {s' : S}
    → and_then r k ≡ (s', none)
    → (s : S) × (r ≡ (s, none)) × (k s ≡ (s', none))
unfolding and_then
and_then-eq-none (s, none) k e = (s, refl, e)
and_then-eq-none (s, some x) k e = cc

pub lookup-hold :
    (seq j : ℕ) (payload p : Bytes) (m : NatMap Bytes)
    → lookup j (hold seq payload m) ≡ some p
    → (lookup j m ≡ some p) ⊎ ((j ≡ seq) × (p ≡ payload))
unfolding hold
lookup-hold seq j payload p m e = ground (arith, lookup-insert seq j payload m)

pub lookup-hold_ne :
    (seq j : ℕ) (payload : Bytes) (m : NatMap Bytes)
    → seq ≢ j
    → lookup j (hold seq payload m) ≡ lookup j m
unfolding hold
lookup-hold_ne seq j payload m h = ground (arith, lookup-insert seq j payload m)

pub lookup-hold_self :
    (seq : ℕ) (payload : Bytes) (m : NatMap Bytes) → lookup seq (hold seq payload m) ≢ none
unfolding hold
lookup-hold_self seq payload m = ground (arith, lookup-insert seq seq payload m)

module _ {E S : Type 0} (sink : Bytes → S → Outcome E S) where
  pub deliver_eq :
      (p : Bytes) (o o' : Order S)
      → deliver sink p o ≡ (o', none)
      → o.expected + 1 < 2 ^ 64
      → (s : S) × (sink p o.out ≡ (s, none))
        × (o' ≡ record o { out = s; expected = o.expected + 1 })
  unfolding deliver
  deliver_eq p o o' d h = elim (Option-cases (sink p o.out).1) [
    | inl e ↦ ((sink p o.out).0, ground arith, ground arith)
    | inr (x, e) ↦ ground arith
  ]

  pub drain-none :
      (fuel : ℕ) (o : Order S) → lookup o.expected o.reorder ≡ none → drain sink fuel o ≡ (o, none)
  unfolding drain
  drain-none zero o e = refl
  drain-none (suc fuel) o e = rw (e, drain)

  pub drain-some :
      (fuel : ℕ) (o : Order S) (next : Bytes)
      → lookup o.expected o.reorder ≡ some next
      → drain sink (suc fuel) o
        ≡ and_then
            (deliver sink next (record o { reorder = remove o.expected o.reorder }))
            (drain sink fuel)
  unfolding drain
  drain-some fuel o next e = rw (e, drain)

  -- The branches of an arrival that returns no error.
  pub accept_cases :
      (refusal : Option E) (seq : ℕ) (payload : Bytes) (o o' : Order S)
      → accept sink refusal seq payload o ≡ (o', none)
      → ((o ≡ o') × ((seq < o.expected) ⊎ ((o.expected + window < seq) × (refusal ≡ none))))
        ⊎ ((o.expected < seq)
            × (seq ≤ o.expected + window)
            × (o' ≡ record o { reorder = hold seq payload o.reorder }))
        ⊎ ((seq ≡ o.expected)
            × (and_then (deliver sink payload o) (λ x. drain sink (length x.reorder) x)
                ≡ (o', none)))
  unfolding accept
  accept_cases refusal seq payload o o' d = ground arith
