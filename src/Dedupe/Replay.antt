-- ===== src/Dedupe/Replay.antt =====
-- internal/app/app.go, `App.isDuplicate`: what is refused, for how long, and with how much memory.
use unknowntunnel.Prelude.{
  ℕ, zero, suc, ◌-◌, ◌≤◌, ◌<◌, ◌≡◌, ◌≢◌, ◌⊎◌, ◌∙◌, refl, inl, inr, true, false, ◌==◌, List, [], ◌∷◌,
  ◌++◌, length, drop, length-drop, length-replicate, length-set, arith, Bool-cases, drop-append_le,
  drop-drop_one, drop-append,
}
use mathlib.Core.Bool.{false≢true}
use unknowntunnel.Dedupe.{Dedupe, contains, remember, is_duplicate, is_duplicate_all, new_dedupe}
use unknowntunnel.Dedupe.Recent.{
  view, length-view, view-remember, IsWindow, remember-IsWindow, length-seen, new_dedupe-IsWindow,
  contains-append,
}

-- For a memory of identifiers that is a well-formed window: an identifier is refused, and the
-- memory left alone, exactly if it is 0 or stands in the window; any other is accepted, and
-- enters the window at its end while the oldest leaves it.
pub is_duplicate-view :
    (id : ℕ) (d : Dedupe)
    → IsWindow d
    → (((id ≡ 0) ⊎ (contains id (view d) ≡ true)) × (is_duplicate id d ≡ (true, d)))
      ⊎ ((id ≢ 0)
          × (contains id (view d) ≡ false)
          × ((is_duplicate id d).0 ≡ false)
          × (view (is_duplicate id d).1 ≡ drop 1 (view d) ++ (id ∷ [])))
unfolding is_duplicate
is_duplicate-view id d v = ground (arith, v.same id, view-remember id d v.next_in)

pub is_duplicate-IsWindow : (id : ℕ) (d : Dedupe) → IsWindow d → IsWindow (is_duplicate id d).1
unfolding is_duplicate
is_duplicate-IsWindow id d v = elim (Bool-cases (id == 0)) [
  | inl z ↦ rw z v
  | inr nz ↦ elim (Bool-cases (contains id d.seen)) [
    | inl old ↦ rw (nz, old) v
    | inr new ↦ rw (nz, new) (remember-IsWindow id d v (ground arith) new)
  ]
]

length-remember : (id : ℕ) (d : Dedupe) → length (remember id d).seen_ring ≡ length d.seen_ring
unfolding remember
length-remember id d = length-set d.seen_ring d.seen_next id

length-is_duplicate :
    (id : ℕ) (d : Dedupe) → length (is_duplicate id d).1.seen_ring ≡ length d.seen_ring
unfolding is_duplicate
length-is_duplicate id d = ground (arith, length-remember id d)

is_duplicate_all-IsWindow :
    (ids : List ℕ) (d : Dedupe)
    → IsWindow d
    → IsWindow (is_duplicate_all ids d)
      × (length (is_duplicate_all ids d).seen_ring ≡ length d.seen_ring)
unfolding is_duplicate_all
is_duplicate_all-IsWindow [] d v = (v, refl)
is_duplicate_all-IsWindow (id ∷ ids) d v =
    let (v', e) =
      is_duplicate_all-IsWindow ids (is_duplicate id d).1 (is_duplicate-IsWindow id d v) in
    (v', e ∙ length-is_duplicate id d)

length-new_dedupe : (size : ℕ) → length (new_dedupe size).seen_ring ≡ size
unfolding new_dedupe
length-new_dedupe size = length-replicate size 0

-- However many messages come, the set of seen identifiers of a memory made with a positive
-- number of slots never holds more identifiers than it has slots.
pub length-seen_bounded :
    (size : ℕ) (ids : List ℕ)
    → 0 < size
    → length (is_duplicate_all ids (new_dedupe size)).seen ≤ size
length-seen_bounded size ids h =
    let (v, e) = is_duplicate_all-IsWindow ids (new_dedupe size) (new_dedupe-IsWindow size h) in
    omega (arith, length-seen (is_duplicate_all ids (new_dedupe size)) v, length-new_dedupe size)

-- The identifier stands at position `j` of the window or behind it.
abbrev Late : ℕ → ℕ → Dedupe → Type 0
Late id j d = contains id (drop j (view d)) ≡ true

contains-drop : (id j : ℕ) (xs : List ℕ) → contains id (drop j xs) ≡ true → contains id xs ≡ true
unfolding contains
contains-drop id zero xs h = h
contains-drop id (suc j) [] h = h
contains-drop id (suc j) (x ∷ xs) h = ground (arith, contains-drop id j xs)

contains-drop-suc :
    (id j : ℕ) (xs : List ℕ) → contains id (drop (suc j) xs) ≡ true → contains id (drop j xs) ≡ true
unfolding contains
contains-drop-suc id j [] h = absurd (false≢true h)
contains-drop-suc id zero (x ∷ xs) h = ground arith
contains-drop-suc id (suc j) (x ∷ xs) h = contains-drop-suc id j xs h

-- One message moves an identifier down by one place at most.
Late-is_duplicate :
    (id j x : ℕ) (d : Dedupe)
    → IsWindow d
    → suc j < length d.seen_ring
    → Late id (suc j) d
    → Late id j (is_duplicate x d).1
Late-is_duplicate id j x d v hj late = elim (is_duplicate-view x d v) [
  | inl (_, e) ↦ rw e (contains-drop-suc id j (view d) late)
  | inr (_, _, _, e) ↦
      let len : j ≤ length (drop 1 (view d)) =
        omega (arith, length-drop 1 (view d), length-view d v.next_in) in
      rw
        (
          e,
          drop-append_le j (drop 1 (view d)) (x ∷ []) len,
          contains-append id (drop j (drop 1 (view d))) (x ∷ []),
          drop-drop_one j (view d),
          late,
        )
        refl
]

Late-is_duplicate_all :
    (id j : ℕ) (xs : List ℕ) (d : Dedupe)
    → IsWindow d
    → length xs ≤ j
    → j < length d.seen_ring
    → Late id j d
    → contains id (view (is_duplicate_all xs d)) ≡ true
unfolding is_duplicate_all
Late-is_duplicate_all id j [] d v h hj late = contains-drop id j (view d) late
Late-is_duplicate_all id zero (x ∷ xs) d v h hj late = absurd (omega arith)
Late-is_duplicate_all id (suc j) (x ∷ xs) d v h hj late =
    Late-is_duplicate_all id j xs (is_duplicate x d).1 (is_duplicate-IsWindow x d v) (omega arith)
      (omega (arith, length-is_duplicate x d)) (Late-is_duplicate id j x d v hj late)

contains_one : (id : ℕ) → contains id (id ∷ []) ≡ true
unfolding contains
contains_one id = ground arith

refused_of_view :
    (id : ℕ) (d : Dedupe) → IsWindow d → contains id (view d) ≡ true → (is_duplicate id d).0 ≡ true
refused_of_view id d v h = ground (arith, is_duplicate-view id d v)

-- For a memory that is a well-formed window: an identifier that was accepted is refused when
-- it comes again, as long as fewer messages came in between than the ring has slots.
pub is_duplicate_again :
    (id : ℕ) (between : List ℕ) (d : Dedupe)
    → IsWindow d
    → (is_duplicate id d).0 ≡ false
    → length between < length d.seen_ring
    → (is_duplicate id (is_duplicate_all between (is_duplicate id d).1)).0 ≡ true
is_duplicate_again id between d v accepted h = elim (is_duplicate-view id d v) [
  | inl (_, e) ↦ absurd (ground (arith, e))
  | inr (_, _, _, e) ↦
      let d1 = (is_duplicate id d).1 in
      let j = length d.seen_ring - 1 in
      let v1 = is_duplicate-IsWindow id d v in
      let len : length (drop 1 (view d)) ≡ j =
        omega (arith, length-drop 1 (view d), length-view d v.next_in) in
      let late : Late id j d1 =
        rw (e, drop-append j (drop 1 (view d)) (id ∷ []) len) (contains_one id) in
      let hj : j < length d1.seen_ring = omega (arith, length-is_duplicate id d) in
      let v2 = (is_duplicate_all-IsWindow between d1 v1).0 in
      let held = Late-is_duplicate_all id j between d1 v1 (omega arith) hj late in
      refused_of_view id (is_duplicate_all between d1) v2 held
]
