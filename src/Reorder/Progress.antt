-- ===== src/Reorder/Progress.antt =====
-- Every payload that arrives within the window is delivered once those before it have arrived.
use unknowntunnel.Prelude.{
  ℕ, zero, suc, ◌+◌, ◌^◌, ◌≤◌, ◌<◌, ◌≡◌, ◌≢◌, ◌⊎◌, ◌∙◌, sym, subst, refl, ap, Bytes, Option, none,
  some, length, lookup, nat_key, remove, lookup-remove, length-remove-lt, lookup-of_empty, arith,
  Option-cases, inl, inr, List, [], ◌∷◌, All,
}
use native.Mathlib.Decide.{dec_lt}
use unknowntunnel.Reorder.{Order, Outcome, window, start, deliver, drain, accept, accept_all}
use unknowntunnel.Reorder.Steps.{
  and_then-eq-none, lookup-hold, lookup-hold_ne, lookup-hold_self, deliver_eq, drain-none,
  drain-some, accept_cases,
}

-- Delivered already, or held until its turn.
abbrev pub Has : {S : Type 0} → ℕ → Order S → Type 0
Has k o = (k < o.expected) ⊎ (lookup k o.reorder ≢ none)

-- A payload numbered `k` is among the arrivals.
abbrev pub Occurs : ℕ → List (ℕ × Bytes) → Type 0
Occurs k [] = ⊥
Occurs k (a ∷ rest) = (a.0 ≡ k) ⊎ Occurs k rest

-- Nothing beyond `n` has come, and the next payload in turn is not among the held ones.
pub record IsWithin {S : Type 0} (n : ℕ) (o : Order S) : Type 0 where
  pub positive : 1 ≤ o.expected
  pub fits : o.expected ≤ n + 1
  pub below : (k : ℕ) (p : Bytes) → lookup k o.reorder ≡ some p → k ≤ n

module _ {E S : Type 0} (sink : Bytes → S → Outcome E S) (n : ℕ) (small : n + 1 < 2 ^ 64) where
  deliver-IsWithin :
      (p : Bytes) (o o' : Order S)
      → IsWithin n o
      → o.expected ≤ n
      → deliver sink p o ≡ (o', none)
      → IsWithin n o' × (o'.expected ≡ o.expected + 1) × (o'.reorder ≡ o.reorder)
  deliver-IsWithin p o o' v h d =
      let (s, es, eo) = deliver_eq sink p o o' d (omega arith) in
      rw eo (record { positive = omega arith; fits = omega arith; below = v.below }, refl, refl)

  -- The loop ends with the next payload absent, and forgets nothing.
  drain-IsWithin :
      (fuel : ℕ) (o o' : Order S)
      → IsWithin n o
      → length o.reorder ≤ fuel
      → drain sink fuel o ≡ (o', none)
      → IsWithin n o' × (lookup o'.expected o'.reorder ≡ none) × ((k : ℕ) → Has k o → Has k o')
  drain-IsWithin zero o o' v h d =
      let e = lookup-of_empty o.expected o.reorder h in
      let q : o ≡ o' = cc (drain-none sink 0 o e) in
      subst
        (λ x. IsWithin n x × (lookup x.expected x.reorder ≡ none) × ((k : ℕ) → Has k o → Has k x)) q
        (v, e, λ k r. r)
  drain-IsWithin (suc fuel) o o' v h d = elim (Option-cases (lookup o.expected o.reorder)) [
    | inl e ↦
        let q : o ≡ o' = cc (drain-none sink (suc fuel) o e) in
        subst
          (λ x. IsWithin n x × (lookup x.expected x.reorder ≡ none) × ((k : ℕ) → Has k o → Has k x))
          q (v, e, λ k r. r)
    | inr (next, e) ↦
        let (o1, d1, rest) =
          and_then-eq-none _ (drain sink fuel) (sym (drain-some sink fuel o next e) ∙ d) in
        let cut : Order S = record o { reorder = remove o.expected o.reorder } in
        let (v1, e1, r1) =
          deliver-IsWithin next cut o1
            (record {
              positive = v.positive;
              fits = v.fits;
              below = λ k p l. ground (arith, v.below k p, lookup-remove o.expected k o.reorder);
            })
            (v.below o.expected next e) d1 in
        let (v2, e2, has) =
          drain-IsWithin fuel o1 o' v1
            (omega (arith, ap length r1, length-remove-lt o.expected next o.reorder e)) rest in
        (v2, e2, λ k r. has k (ground (arith, lookup-remove o.expected k o.reorder)))
  ]

  -- A payload of the window is taken in, and nothing that was taken in is lost.
  accept-IsWithin :
      (refusal : Option E) (seq : ℕ) (p : Bytes) (o o' : Order S)
      → n ≤ window + 1
      → seq ≤ n
      → IsWithin n o
      → lookup o.expected o.reorder ≡ none
      → accept sink refusal seq p o ≡ (o', none)
      → IsWithin n o'
        × (lookup o'.expected o'.reorder ≡ none)
        × ((k : ℕ) → Has k o → Has k o')
        × Has seq o'
  accept-IsWithin refusal seq p o o' hw hs v e d = elim (accept_cases sink refusal seq p o o' d) [
    | inl (same, c) ↦
        subst
          (λ x.
            IsWithin n x
            × (lookup x.expected x.reorder ≡ none)
            × ((k : ℕ) → Has k o → Has k x)
            × Has seq x)
          same (v, e, λ k r. r, inl (omega (arith, v.positive)))
    | inr (inl (lo, hi, eo)) ↦ rw eo (
      record {
        positive = v.positive;
        fits = v.fits;
        below = λ k q l. ground (arith, v.below k q, lookup-hold seq k p q o.reorder l);
      },
      lookup-hold_ne seq o.expected p o.reorder (omega arith) ∙ e,
      λ k r. ground (arith, lookup-hold_ne seq k p o.reorder, lookup-hold_self seq p o.reorder),
      inr (lookup-hold_self seq p o.reorder),
    )
    | inr (inr (es, d')) ↦
        let (o1, d1, rest) = and_then-eq-none _ (λ x. drain sink (length x.reorder) x) d' in
        let (v1, e1, r1) = deliver-IsWithin p o o1 v (omega arith) d1 in
        let (v2, e2, has) = drain-IsWithin (length o1.reorder) o1 o' v1 (omega arith) rest in
        (v2, e2, λ k r. has k (ground arith), has seq (inl (omega arith)))
  ]

  accept_all-IsWithin :
      (refusal : Option E) (arrivals : List (ℕ × Bytes)) (o o' : Order S)
      → n ≤ window + 1
      → All (λ a. a.0 ≤ n) arrivals
      → IsWithin n o
      → lookup o.expected o.reorder ≡ none
      → accept_all sink refusal arrivals o ≡ (o', none)
      → IsWithin n o'
        × (lookup o'.expected o'.reorder ≡ none)
        × ((k : ℕ) → Has k o ⊎ Occurs k arrivals → Has k o')
  unfolding accept_all
  accept_all-IsWithin refusal [] o o' hw ha v e d =
      let q : o ≡ o' = cc in
      subst
        (λ x.
          IsWithin n x × (lookup x.expected x.reorder ≡ none) × ((k : ℕ) → Has k o ⊎ ⊥ → Has k x))
        q (v, e, λ k r. elim r [ inl a ↦ a | inr b ↦ absurd b ])
  accept_all-IsWithin refusal ((seq, p) ∷ rest) o o' hw (h, ha) v e d =
      let (o1, d1, d2) =
        and_then-eq-none (accept sink refusal seq p o) (accept_all sink refusal rest) d in
      let (v1, e1, keep1, now) = accept-IsWithin refusal seq p o o1 hw h v e d1 in
      let (v2, e2, keep2) = accept_all-IsWithin refusal rest o1 o' hw ha v1 e1 d2 in
      (
        v2,
        e2,
        λ k r. elim r [
          | inl a ↦ keep2 k (inl (keep1 k a))
          | inr (inl same) ↦ keep2 k (inl (subst (λ x. Has x o1) same now))
          | inr (inr b) ↦ keep2 k (inr b)
        ],
      )

  -- When 1 to `n` have all arrived, in any order, the window stands behind `n`.
  pub expected-accept_all :
      (refusal : Option E) (arrivals : List (ℕ × Bytes)) (s : S) (o' : Order S)
      → n ≤ window + 1
      → All (λ a. a.0 ≤ n) arrivals
      → ((k : ℕ) → 1 ≤ k → k ≤ n → Occurs k arrivals)
      → accept_all sink refusal arrivals (start s) ≡ (o', none)
      → o'.expected ≡ n + 1
  unfolding lookup
  expected-accept_all refusal arrivals s o' hw ha every d =
      let (v, e, has) =
        accept_all-IsWithin refusal arrivals (start s) o' hw ha
          (record { positive = omega arith; fits = omega arith; below = λ k p l. cc }) refl d in
      elim (dec_lt o'.expected (n + 1)) [
        | yes lt ↦
            absurd
              (ground (arith, has o'.expected (inr (every o'.expected v.positive (omega arith)))))
        | no ge ↦ omega (arith, v.fits)
      ]
