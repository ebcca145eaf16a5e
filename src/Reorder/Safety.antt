-- ===== src/Reorder/Safety.antt =====
-- Whatever arrives, the sink is given the sent payloads in order, each once.
use unknowntunnel.Prelude.{
  ℕ, zero, suc, ◌+◌, ◌^◌, ◌≤◌, ◌<◌, ◌≡◌, ◌∙◌, sym, subst, lookup-of_empty, refl, ap, Bytes, Option,
  none, some, length, lookup, nat_key, remove, lookup-remove, length-remove-lt, arith, Option-cases,
  inl, inr, List, [], ◌∷◌, All,
}
use unknowntunnel.Reorder.Steps.{
  and_then-eq-none, lookup-hold, lookup-hold_ne, deliver_eq, drain-none, drain-some, accept_cases,
}
use unknowntunnel.Reorder.{Order, Outcome, window, start, deliver, drain, accept, accept_all}

-- `Sent n s`: the sink in state `s` was given the payloads 1 to n - 1, in this order.
module _ {E S : Type 0} (sink : Bytes → S → Outcome E S) (sent : ℕ → Bytes) (Sent : ℕ → S → Type 0)
    (keeps : (n : ℕ) (s s' : S) → Sent n s → sink (sent n) s ≡ (s', none) → Sent (n + 1) s') where
  pub record IsInOrder (o : Order S) : Type 0 where
    pub given : Sent o.expected o.out
    pub in_range : o.expected < 2 ^ 64
    pub held :
        (k : ℕ) (p : Bytes)
        → lookup k o.reorder ≡ some p
        → (p ≡ sent k) × (o.expected ≤ k) × (k + 1 < 2 ^ 64) × (k ≤ o.expected + window)

  deliver-IsInOrder :
      (p : Bytes) (o o' : Order S)
      → IsInOrder o
      → p ≡ sent o.expected
      → o.expected + 1 < 2 ^ 64
      → lookup o.expected o.reorder ≡ none
      → deliver sink p o ≡ (o', none)
      → IsInOrder o' × (length o'.reorder ≡ length o.reorder)
  deliver-IsInOrder p o o' v e h fresh d =
      let (s, es, eo) = deliver_eq sink p o o' d h in
      rw eo (
        record {
          given = keeps o.expected o.out s v.given (rw (← e) es);
          in_range = h;
          held = λ k q l. grind (arith, v.held k q l);
        },
        refl,
      )

  remove-IsInOrder :
      (o : Order S) → IsInOrder o → IsInOrder (record o { reorder = remove o.expected o.reorder })
  remove-IsInOrder o v = record {
    given = v.given;
    in_range = v.in_range;
    held = λ k q l. ground (arith, v.held k q, lookup-remove o.expected k o.reorder);
  }

  drain-IsInOrder :
      (fuel : ℕ) (o o' : Order S)
      → IsInOrder o
      → length o.reorder ≤ fuel
      → drain sink fuel o ≡ (o', none)
      → IsInOrder o' × (lookup o'.expected o'.reorder ≡ none)
  drain-IsInOrder zero o o' v h d =
      let e = lookup-of_empty o.expected o.reorder h in
      let q : o ≡ o' = cc (drain-none sink 0 o e) in
      subst (λ x. IsInOrder x × (lookup x.expected x.reorder ≡ none)) q (v, e)
  drain-IsInOrder (suc fuel) o o' v h d = elim (Option-cases (lookup o.expected o.reorder)) [
    | inl e ↦
        let q : o ≡ o' = cc (drain-none sink (suc fuel) o e) in
        subst (λ x. IsInOrder x × (lookup x.expected x.reorder ≡ none)) q (v, e)
    | inr (next, e) ↦
        let (o1, d1, rest) =
          and_then-eq-none _ (drain sink fuel) (sym (drain-some sink fuel o next e) ∙ d) in
        let hn = v.held o.expected next e in
        let (v1, l1) =
          deliver-IsInOrder next (record o { reorder = remove o.expected o.reorder }) o1
            (remove-IsInOrder o v) hn.0 hn.2
            (ground (arith, lookup-remove o.expected o.expected o.reorder)) d1 in
        drain-IsInOrder fuel o1 o' v1 (omega (arith, length-remove-lt o.expected next o.reorder e))
          rest
  ]

  abbrev pub IsSettled : Order S → Type 0
  IsSettled o = IsInOrder o × (lookup o.expected o.reorder ≡ none)

  -- One arrival of a sent payload that returns no error.
  pub accept-IsSettled :
      (refusal : Option E) (seq : ℕ) (o o' : Order S)
      → IsSettled o
      → seq + 1 < 2 ^ 64
      → accept sink refusal seq (sent seq) o ≡ (o', none)
      → IsSettled o'
  accept-IsSettled refusal seq o o' (v, e) h d =
      elim (accept_cases sink refusal seq (sent seq) o o' d) [
        | inl (same, _) ↦
            subst (λ x. IsInOrder x × (lookup x.expected x.reorder ≡ none)) same (v, e)
        | inr (inl (lo, hi, eo)) ↦ rw eo (
          record {
            given = v.given;
            in_range = v.in_range;
            held = λ k q l. ground (arith, v.held k q, lookup-hold seq k (sent seq) q o.reorder l);
          },
          lookup-hold_ne seq o.expected (sent seq) o.reorder (omega arith) ∙ e,
        )
        | inr (inr (es, d')) ↦
            let (o1, d1, rest) = and_then-eq-none _ (λ x. drain sink (length x.reorder) x) d' in
            let (v1, l1) = deliver-IsInOrder (sent seq) o o1 v (ap sent es) (omega arith) e d1 in
            drain-IsInOrder (length o1.reorder) o1 o' v1 (omega arith) rest
      ]

  -- Any history of sent payloads, duplicated, reordered or with gaps.
  pub accept_all-IsSettled :
      (refusal : Option E) (arrivals : List (ℕ × Bytes)) (o o' : Order S)
      → IsSettled o
      → All (λ a. (a.1 ≡ sent a.0) × (a.0 + 1 < 2 ^ 64)) arrivals
      → accept_all sink refusal arrivals o ≡ (o', none)
      → IsSettled o'
  unfolding accept_all
  accept_all-IsSettled refusal [] o o' v h d = let q : o ≡ o' = cc in subst IsSettled q v
  accept_all-IsSettled refusal ((seq, payload) ∷ rest) o o' v ((same, fits), h) d =
      let (o1, d1, d2) =
        and_then-eq-none (accept sink refusal seq payload o) (accept_all sink refusal rest) d in
      accept_all-IsSettled refusal rest o1 o'
        (accept-IsSettled refusal seq o o1 v fits (rw (← same) d1)) h d2

  pub start-IsSettled : (s : S) → Sent 1 s → IsSettled (start s)
  unfolding lookup
  start-IsSettled s h = (record { given = h; in_range = omega arith; held = λ k p l. cc }, refl)
