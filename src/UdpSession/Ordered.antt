-- ===== src/UdpSession/Ordered.antt =====
-- internal/transport/udp.go, `acceptOrdered` and `publish`: what becomes of one payload.
use unknowntunnel.Prelude.{
  ℕ, zero, suc, ◌+◌, ◌≤◌, ◌<◌, ◌≡◌, inl, inr, refl, sym, ap, ◌∙◌, Bool, true, false, leb, List, [],
  ◌∷◌, ◌++◌, append-nil, append_assoc, Bytes, none, some, Option-cases, length, lookup,
  lookup-insert, nat_key, remove, if◌then◌else◌, arith,
}
use unknowntunnel.Reorder.{Order, Outcome, window, and_then, deliver, drain, accept, hold}
use unknowntunnel.UdpSession.{Error, publish, accept_ordered, receive_blocked, receive_capacity}

-- A queue that begins with another one.
abbrev pub Extends : List Bytes → List Bytes → Type 0
Extends queue queue' = (later : List Bytes) × (queue' ≡ queue ++ later)

Extends-refl : (queue : List Bytes) → Extends queue queue
Extends-refl queue = ([], sym (append-nil queue))

Extends-trans : (p q r : List Bytes) → Extends p q → Extends q r → Extends p r
Extends-trans p q r (a, e) (b, f) = (a ++ b, f ∙ ap (λ x. x ++ b) e ∙ append_assoc p a b)

branch-Extends :
    (queue : List Bytes) (full : Bool) (x y : Outcome Error (List Bytes))
    → Extends queue x.0
    → Extends queue y.0
    → Extends queue (if full then x else y).0
branch-Extends queue true x y h g = h
branch-Extends queue false x y h g = g

publish-Extends : (payload : Bytes) (queue : List Bytes) → Extends queue (publish payload queue).0
unfolding publish
publish-Extends payload queue =
    branch-Extends queue (leb receive_capacity (length queue)) (queue, some receive_blocked)
      (queue ++ (payload ∷ []), none) (Extends-refl queue) (payload ∷ [], refl)

deliver-out :
    (payload : Bytes) (o : Order (List Bytes))
    → (deliver publish payload o).0.out ≡ (publish payload o.out).0
unfolding deliver
deliver-out payload o = elim (Option-cases (publish payload o.out).1) [
  | inl e ↦ ground (arith, e)
  | inr (x, e) ↦ ground (arith, e)
]

and_then-Extends :
    (queue : List Bytes) (r : Outcome Error (Order (List Bytes)))
    (k : Order (List Bytes) → Outcome Error (Order (List Bytes)))
    → Extends queue r.0.out
    → ((o : Order (List Bytes)) → Extends o.out (k o).0.out)
    → Extends queue (and_then r k).0.out
unfolding and_then
and_then-Extends queue (o, none) k h g = Extends-trans queue o.out (k o).0.out h (g o)
and_then-Extends queue (o, some e) k h g = h

-- What the reader of the channel has not taken stays in front.
drain-Extends : (fuel : ℕ) (o : Order (List Bytes)) → Extends o.out (drain publish fuel o).0.out
unfolding drain
drain-Extends zero o = Extends-refl o.out
drain-Extends (suc fuel) o = elim (Option-cases (lookup o.expected o.reorder)) [
  | inl e ↦ rw (e, drain) (Extends-refl o.out)
  | inr (next, e) ↦
      let o' : Order (List Bytes) = record o { reorder = remove o.expected o.reorder } in
      rw (e, drain)
        (and_then-Extends o.out (deliver publish next o') (drain publish fuel)
          (rw (deliver-out next o') (publish-Extends next o.out)) (drain-Extends fuel))
]

-- The payload that is expected next goes into the channel, right behind what is there.
pub accept_ordered-next :
    (seq : ℕ) (payload : Bytes) (o : Order (List Bytes))
    → seq ≡ o.expected
    → length o.out < receive_capacity
    → Extends (o.out ++ (payload ∷ [])) (accept_ordered seq payload o).0.out
unfolding accept_ordered accept
accept_ordered-next seq payload o next room =
    let into : (publish payload o.out).0 ≡ o.out ++ (payload ∷ []) =
      unfold publish in ground (arith, room) in
    let step : accept_ordered seq payload o
        ≡ and_then (deliver publish payload o) (λ o'. drain publish (length o'.reorder) o') =
      ground (arith, next) in
    rw step (
      and_then-Extends (o.out ++ (payload ∷ [])) (deliver publish payload o)
        (λ o'. drain publish (length o'.reorder) o')
        ([], deliver-out payload o ∙ into ∙ sym (append-nil (o.out ++ (payload ∷ []))))
        (λ o'. drain-Extends (length o'.reorder) o'))

-- A payload that comes too early is held under its number.
pub accept_ordered-early :
    (seq : ℕ) (payload : Bytes) (o : Order (List Bytes))
    → o.expected < seq
    → seq ≤ o.expected + window
    → lookup seq o.reorder ≡ none
    → lookup seq (accept_ordered seq payload o).0.reorder ≡ some payload
unfolding accept_ordered accept hold
accept_ordered-early seq payload o early near free =
    ground (arith, early, near, free, lookup-insert seq seq payload o.reorder)
