-- ===== src/Dedupe/Recent.antt =====
-- The memory is the window of the last identifiers accepted.
use native.Mathlib.Numerals.{add-one}
use unknowntunnel.Prelude.{
  ℕ, zero, suc, ◌+◌, ◌≤◌, ◌<◌, ◌≡◌, ◌≢◌, ◌⊎◌, ◌∙◌, sym, ap, subst, refl, length-replicate, inl, inr,
  true, false, ◌||◌, ◌==◌, List, [], ◌∷◌, ◌++◌, if◌then◌else◌, length, get_or, set, take, drop,
  replicate, drop-get_or, drop-set, take-set, drop_all, length-set, length-append, length-drop,
  length-take, take_all, append_assoc, append-nil, arith, Bool-cases,
}
use unknowntunnel.Dedupe.{Dedupe, contains, delete, remember, new_dedupe}

-- The slots of the ring, from the oldest to the newest; 0 marks a slot that was never used.
pub view : Dedupe → List ℕ
view d = drop d.seen_next d.seen_ring ++ take d.seen_next d.seen_ring

pub length-view :
    (d : Dedupe) → d.seen_next < length d.seen_ring → length (view d) ≡ length d.seen_ring
unfolding view
length-view d h = omega (
  arith,
  length-append (drop d.seen_next d.seen_ring) (take d.seen_next d.seen_ring),
  length-drop d.seen_next d.seen_ring,
  length-take d.seen_next d.seen_ring,
)

view-cons :
    (d : Dedupe)
    → d.seen_next < length d.seen_ring
    → view d
      ≡ get_or d.seen_ring d.seen_next 0
        ∷ (drop (suc d.seen_next) d.seen_ring ++ take d.seen_next d.seen_ring)
unfolding view
view-cons d h =
    ap (λ x. x ++ take d.seen_next d.seen_ring) (drop-get_or d.seen_next d.seen_ring 0 h)

drop_one-view :
    (d : Dedupe)
    → d.seen_next < length d.seen_ring
    → drop 1 (view d) ≡ drop (suc d.seen_next) d.seen_ring ++ take d.seen_next d.seen_ring
drop_one-view d h = ap (drop 1) (view-cons d h)

-- A ring that was written at slot `n`, read from the slot behind it.
rotate-set :
    (n id : ℕ) (xs : List ℕ)
    → n < length xs
    → drop (suc n) (set xs n id) ++ take (suc n) (set xs n id)
      ≡ (drop (suc n) xs ++ take n xs) ++ (id ∷ [])
rotate-set n id xs h =
    rw (drop-set n xs id, take-set n xs id h)
      (sym (append_assoc (drop (suc n) xs) (take n xs) (id ∷ [])))

-- Behind the last slot comes the first.
rotate_all :
    (n : ℕ) (xs : List ℕ) → suc n ≡ length xs → xs ++ [] ≡ drop (suc n) xs ++ take (suc n) xs
rotate_all n xs h =
    append-nil xs
    ∙ sym (rw (drop_all (suc n) xs (omega arith), take_all (suc n) xs (omega arith)) refl)

-- The oldest slot goes and the new identifier comes last.
pub view-remember :
    (id : ℕ) (d : Dedupe)
    → d.seen_next < length d.seen_ring
    → view (remember id d) ≡ drop 1 (view d) ++ (id ∷ [])
unfolding view remember
view-remember id d h =
    let n = d.seen_next in
    let ring = set d.seen_ring n id in
    let goal = rotate-set n id d.seen_ring h ∙ sym (ap (λ x. x ++ (id ∷ [])) (drop_one-view d h)) in
    elim (Bool-cases (n + 1 == length d.seen_ring)) [
      | inl wraps ↦
          rw wraps (rotate_all n ring (ground (arith, length-set d.seen_ring n id)) ∙ goal)
      | inr stays ↦ rw (stays, add-one n) goal
    ]

-- Non-zero identifiers stand in one slot each.
abbrev pub Distinct : List ℕ → Type 0
Distinct [] = Unit
Distinct (x ∷ xs) = ((x ≡ 0) ⊎ (contains x xs ≡ false)) × Distinct xs

abbrev pub used : List ℕ → ℕ
used [] = 0
used (x ∷ xs) = (if x == 0 then 0 else 1) + used xs

pub record IsWindow (d : Dedupe) : Type 0 where
  pub next_in : d.seen_next < length d.seen_ring
  pub same : (id : ℕ) → id ≢ 0 → contains id d.seen ≡ contains id (view d)
  pub distinct : Distinct (view d)
  pub counted : length d.seen ≡ used (view d)
  pub once : Distinct d.seen
  pub no_zero : contains 0 d.seen ≡ false

pub contains-append :
    (id : ℕ) (xs ys : List ℕ) → contains id (xs ++ ys) ≡ contains id xs || contains id ys
unfolding contains
contains-append id [] ys = refl
contains-append id (x ∷ xs) ys = ground (arith, contains-append id xs ys)

contains-delete :
    (id x : ℕ) (xs : List ℕ)
    → contains id (delete x xs) ≡ (if id == x then false else contains id xs)
unfolding contains delete
contains-delete id x [] = ground arith
contains-delete id x (y ∷ ys) = ground (arith, contains-delete id x ys)

delete_absent : (x : ℕ) (xs : List ℕ) → contains x xs ≡ false → delete x xs ≡ xs
unfolding contains delete
delete_absent x [] h = refl
delete_absent x (y ∷ ys) h = ground (arith, delete_absent x ys)

length-delete :
    (x : ℕ) (xs : List ℕ)
    → x ≢ 0
    → Distinct xs
    → contains x xs ≡ true
    → length (delete x xs) + 1 ≡ length xs
unfolding contains delete
length-delete x [] z u h = cc
length-delete x (y ∷ ys) z u h = ground (arith, length-delete x ys, delete_absent x ys)

Distinct-delete : (x : ℕ) (xs : List ℕ) → Distinct xs → Distinct (delete x xs)
unfolding contains delete
Distinct-delete x [] u = tt
Distinct-delete x (y ∷ ys) u = ground (arith, Distinct-delete x ys, contains-delete y x ys)

Distinct-append :
    (id : ℕ) (xs : List ℕ) → Distinct xs → contains id xs ≡ false → Distinct (xs ++ (id ∷ []))
unfolding contains
Distinct-append id [] u h = (inr refl, tt)
Distinct-append id (x ∷ xs) u h =
    ground (arith, Distinct-append id xs, contains-append x xs (id ∷ []))

used-append : (id : ℕ) (xs : List ℕ) → id ≢ 0 → used (xs ++ (id ∷ [])) ≡ used xs + 1
used-append id [] h = ground arith
used-append id (x ∷ xs) h = ground (arith, used-append id xs h)

-- The bookkeeping of one acceptance, with the ring seen as the list `old ∷ rest`.
module _ (seen rest : List ℕ) (old id : ℕ) (id_nonzero : id ≢ 0) (fresh : contains id seen ≡ false)
    (same : (j : ℕ) → j ≢ 0 → contains j seen ≡ contains j (old ∷ rest))
    (distinct : Distinct (old ∷ rest)) (once : Distinct seen)
    (no_zero : contains 0 seen ≡ false) where
  abbrev kept : List ℕ
  kept = if old == 0 then seen else delete old seen

  same_after : (j : ℕ) → j ≢ 0 → contains j (id ∷ kept) ≡ contains j (rest ++ (id ∷ []))
  unfolding contains
  same_after j h =
      ground (arith, same j h, contains-append j rest (id ∷ []), contains-delete j old seen)

  Distinct-after : Distinct (rest ++ (id ∷ []))
  unfolding contains
  Distinct-after = Distinct-append id rest distinct.1 (ground (arith, same id id_nonzero))

  counted_after : length seen ≡ used (old ∷ rest) → length (id ∷ kept) ≡ used (rest ++ (id ∷ []))
  unfolding contains
  counted_after h = ground (arith, used-append id rest, length-delete old seen, same old)

  once_after : Distinct (id ∷ kept)
  unfolding contains
  once_after = ground (arith, Distinct-delete old seen once, contains-delete id old seen)

  no_zero_after : contains 0 (id ∷ kept) ≡ false
  unfolding contains
  no_zero_after = ground (arith, contains-delete 0 old seen)

pub remember-IsWindow :
    (id : ℕ) (d : Dedupe)
    → IsWindow d
    → id ≢ 0
    → contains id d.seen ≡ false
    → IsWindow (remember id d)
unfolding remember
remember-IsWindow id d v h fresh =
    let old = get_or d.seen_ring d.seen_next 0 in
    let rest = drop (suc d.seen_next) d.seen_ring ++ take d.seen_next d.seen_ring in
    let front : view d ≡ old ∷ rest = view-cons d v.next_in in
    let after : view (remember id d) ≡ rest ++ (id ∷ []) =
      view-remember id d v.next_in ∙ ap (λ x. x ++ (id ∷ [])) (drop_one-view d v.next_in) in
    let same : (j : ℕ) → j ≢ 0 → contains j d.seen ≡ contains j (old ∷ rest) =
      λ j hj. v.same j hj ∙ ap (contains j) front in
    let distinct : Distinct (old ∷ rest) = subst Distinct front v.distinct in
    record {
      next_in = ground (arith, length-set d.seen_ring d.seen_next id, v.next_in);
      same = λ j hj.
          same_after d.seen rest old id h fresh same distinct v.once v.no_zero j hj
          ∙ sym (ap (contains j) after);
      distinct =
          subst Distinct (sym after)
            (Distinct-after d.seen rest old id h fresh same distinct v.once v.no_zero);
      counted =
          counted_after d.seen rest old id h fresh same distinct v.once v.no_zero
            (v.counted ∙ ap used front)
          ∙ sym (ap used after);
      once = once_after d.seen rest old id h fresh same distinct v.once v.no_zero;
      no_zero = no_zero_after d.seen rest old id h fresh same distinct v.once v.no_zero;
    }

used-le : (xs : List ℕ) → used xs ≤ length xs
used-le [] = omega arith
used-le (x ∷ xs) = ground (arith, used-le xs)

-- The set never outgrows the ring.
pub length-seen : (d : Dedupe) → IsWindow d → length d.seen ≤ length d.seen_ring
length-seen d v = omega (arith, v.counted, used-le (view d), length-view d v.next_in)

contains-replicate : (id n : ℕ) → id ≢ 0 → contains id (replicate n 0) ≡ false
unfolding contains
contains-replicate id zero h = refl
contains-replicate id (suc n) h = ground (arith, contains-replicate id n h)

Distinct-replicate : (n : ℕ) → Distinct (replicate n 0)
Distinct-replicate zero = tt
Distinct-replicate (suc n) = (inl refl, Distinct-replicate n)

used-replicate : (n : ℕ) → used (replicate n 0) ≡ 0
used-replicate zero = refl
used-replicate (suc n) = ground (arith, used-replicate n)

-- The memory starts empty.
pub new_dedupe-IsWindow : (n : ℕ) → 0 < n → IsWindow (new_dedupe n)
unfolding new_dedupe view contains
new_dedupe-IsWindow n h =
    let e = append-nil (replicate n 0) in
    record {
      next_in = subst (λ k. 0 < k) (sym (length-replicate {A = ℕ} n 0)) h;
      same = λ j hj. sym (ap (contains j) e ∙ contains-replicate j n hj);
      distinct = subst Distinct (sym e) (Distinct-replicate n);
      counted = sym (ap used e ∙ used-replicate n);
      once = tt;
      no_zero = refl;
    }
