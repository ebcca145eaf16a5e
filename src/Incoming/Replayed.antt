-- ===== src/Incoming/Replayed.antt =====
-- internal/app/app.go, `incomingLoop`: a message that comes twice, as after a change of the carrier.
use unknowntunnel.Prelude.{
  ℕ, suc, ◌≤◌, ◌<◌, ◌≡◌, sym, ap, refl, ◌∙◌, Bool, true, false, List, [], ◌∷◌, Bytes, Result, ok,
  err, length, ◌==◌, Bool-cases, inl, inr, arith,
}
use unknowntunnel.Message.{Message, decode}
use unknowntunnel.Dedupe.{Dedupe, contains, is_duplicate, is_duplicate_all}
use unknowntunnel.Dedupe.Recent.{IsWindow}
use unknowntunnel.Dedupe.Replay.{is_duplicate_again}
use unknowntunnel.Incoming.{App, World, incoming, incoming_all, unless_duplicate}

-- The identifiers of the messages that decode.
id_of : {F : Type 0} → Result F Message → List ℕ → List ℕ
id_of (err _) ids = ids
id_of (ok msg) ids = msg.id ∷ ids

ids_of : List (ℕ × Bytes) → List ℕ
ids_of [] = []
ids_of ((now, raw) ∷ rest) = id_of (decode raw) (ids_of rest)

length-id_of :
    {F : Type 0} (r : Result F Message) (ids : List ℕ) → length (id_of r ids) ≤ suc (length ids)
unfolding id_of
length-id_of (err _) ids = omega arith
length-id_of (ok msg) ids = omega arith

length-ids_of : (raws : List (ℕ × Bytes)) → length (ids_of raws) ≤ length raws
unfolding ids_of
length-ids_of [] = omega arith
length-ids_of ((now, raw) ∷ rest) =
    omega (arith, length-id_of (decode raw) (ids_of rest), length-ids_of rest)

refused_unchanged :
    (id : ℕ) (d : Dedupe) → (is_duplicate id d).0 ≡ true → is_duplicate id d ≡ (true, d)
unfolding is_duplicate
refused_unchanged id d h = elim (Bool-cases (id == 0)) [
  | inl e ↦ rw (e, is_duplicate) refl
  | inr e ↦ elim (Bool-cases (contains id d.seen)) [
    | inl e' ↦ rw (e, e', is_duplicate) refl
    | inr e' ↦ absurd (ground (arith, h, e, e'))
  ]
]

module _ {C E : Type 0} (w : World C E) where
  -- A round, of what its bytes decode to.
  round : {F : Type 0} → Result F Message → ℕ → App C → App C
  round r now a = elim r [
    | err _ ↦ a
    | ok msg ↦
        let (duplicate, seen) = is_duplicate msg.id a.seen in
        record { seen = seen; work = unless_duplicate w duplicate now msg a.work }
  ]

  seen-round :
      {F : Type 0} (r : Result F Message) (now : ℕ) (ids : List ℕ) (a : App C)
      → is_duplicate_all (id_of r ids) a.seen ≡ is_duplicate_all ids (round r now a).seen
  unfolding id_of is_duplicate_all round
  seen-round (err _) now ids a = refl
  seen-round (ok msg) now ids a = refl

  seen-incoming_all :
      (raws : List (ℕ × Bytes)) (a : App C)
      → (incoming_all w raws a).seen ≡ is_duplicate_all (ids_of raws) a.seen
  unfolding incoming_all incoming ids_of is_duplicate_all round
  seen-incoming_all [] a = refl
  seen-incoming_all ((now, raw) ∷ rest) a =
      seen-incoming_all rest (incoming w now raw a)
      ∙ sym (seen-round (decode raw) now (ids_of rest) a)

  ignored :
      (raw : Bytes) (now : ℕ) (msg : Message) (a : App C)
      → decode raw ≡ ok msg
      → (is_duplicate msg.id a.seen).0 ≡ true
      → incoming w now raw a ≡ a
  unfolding incoming round unless_duplicate
  ignored raw now msg a e h =
      ap (λ r. round r now a) e
      ∙ ap
          (λ (p : Bool × Dedupe). record {
            seen = p.1;
            work = unless_duplicate w p.0 now msg a.work;
          })
          (refused_unchanged msg.id a.seen h)

  -- If a message decodes and its identifier is not a duplicate for a memory that is a
  -- well-formed window, then after it and fewer further arrivals than the memory has slots,
  -- the same bytes change nothing when they come again.
  pub incoming_again :
      (raw : Bytes) (now again : ℕ) (msg : Message) (between : List (ℕ × Bytes)) (a : App C)
      → decode raw ≡ ok msg
      → IsWindow a.seen
      → (is_duplicate msg.id a.seen).0 ≡ false
      → length between < length a.seen.seen_ring
      → incoming w again raw (incoming_all w between (incoming w now raw a))
        ≡ incoming_all w between (incoming w now raw a)
  unfolding incoming round
  incoming_again raw now again msg between a e window accepted few =
      let b = incoming w now raw a in
      let seen_b : b.seen ≡ (is_duplicate msg.id a.seen).1 = ap (λ r. (round r now a).seen) e in
      let seen_c = seen-incoming_all between b ∙ ap (is_duplicate_all (ids_of between)) seen_b in
      let refused =
        is_duplicate_again msg.id (ids_of between) a.seen window accepted
          (omega (arith, length-ids_of between, few)) in
      ignored raw again msg (incoming_all w between b) e
        (ap (λ d. (is_duplicate msg.id d).0) seen_c ∙ refused)
