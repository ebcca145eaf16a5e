-- ===== src/Fragment/Reassembly.antt =====
-- internal/app/app.go: what `sendUDPDatagram` cut up, `handleUDPChunk` puts together.
use unknowntunnel.Prelude.{
  ℕ, zero, suc, ◌≤◌, ◌<◌, ◌≡◌, ◌⊎◌, ◌∙◌, sym, ap, refl, inl, inr, Bool, true, false, List, [], ◌∷◌,
  ◌++◌, Bytes, none, some, length, get_or, set, replicate, length-replicate, length-set, arith,
  lookup, insert, remove, pair_key, lookup-insert, lookup-remove, slice, All,
}
use native.Mathlib.Decide.{dec_lt}
use unknowntunnel.Message.{Message}
use unknowntunnel.Fragment.{
  max_udp_datagram, max_udp_assemblies, fragments, fragment, Assembly, Assemblies, new_assembly,
  fill_name, fill_chunk, deliver, settle, put_in, place, handle_udp_chunk, handle_udp_chunks,
}
use unknowntunnel.Fragment.Split.{all_chunks, fragments_bounds, fragment_fields}
use unknowntunnel.Fragment.Marks.{
  marks-append_one, marks, Arrived, get_or-set_self, unmarked_before, marked_of_Arrived,
  unmarked_of_missing,
}
use unknowntunnel.Fragment.Steps.{
  count-lt, masked_all, length-chunks_from, built, total-built, received-built, deliver-built,
  new_assembly-built, fill_chunk-built,
}

put_in_same :
    (key : ℕ × ℕ) (msg : Message) (part total : ℕ) (a : Assembly) (m : Assemblies)
    → a.total ≡ total
    → put_in key msg part total a m
      ≡ settle key
          (fill_chunk part (slice msg.payload 4 (length msg.payload)) (fill_name msg.name a))
          m
unfolding put_in
put_in_same key msg part total a m h = ground arith

settle_partial :
    (key : ℕ × ℕ) (a : Assembly) (m : Assemblies)
    → a.received < a.total
    → settle key a m ≡ (insert key a m, none)
unfolding settle
settle_partial key a m h = ground arith

settle_complete :
    (key : ℕ × ℕ) (a : Assembly) (m : Assemblies)
    → a.received ≡ a.total
    → settle key a m ≡ (remove key m, deliver a)
unfolding settle
settle_complete key a m h = ground arith

place_known :
    (now : ℕ) (key : ℕ × ℕ) (msg : Message) (part total : ℕ) (m : Assemblies) (a : Assembly)
    → lookup key m ≡ some a
    → place now key msg part total m ≡ put_in key msg part total a m
unfolding place
place_known now key msg part total m a h = rw (h, place)

place_new :
    (now : ℕ) (key : ℕ × ℕ) (msg : Message) (part total : ℕ) (m : Assemblies)
    → lookup key m ≡ none
    → length m < max_udp_assemblies
    → place now key msg part total m
      ≡ put_in key msg part total
          (new_assembly now msg.name total)
          (insert key (new_assembly now msg.name total) m)
unfolding place
place_new now key msg part total m h room = rw (h, place) (ground arith)

chunks_none :
    (now : ℕ) (msg : Message) (rest : List (ℕ × Message)) (m m' m'' : Assemblies)
    (ds : List (Bytes × Bytes))
    → handle_udp_chunk now msg m ≡ (m', none)
    → handle_udp_chunks rest m' ≡ (m'', ds)
    → handle_udp_chunks ((now, msg) ∷ rest) m ≡ (m'', ds)
unfolding handle_udp_chunks
chunks_none now msg rest m m' m'' ds e r = ground (arith, e, r)

chunks_last :
    (now : ℕ) (msg : Message) (m m' : Assemblies) (d : Bytes × Bytes)
    → handle_udp_chunk now msg m ≡ (m', some d)
    → handle_udp_chunks ((now, msg) ∷ []) m ≡ (m', d ∷ [])
unfolding handle_udp_chunks
chunks_last now msg m m' d e = ground (arith, e)

module _ (bytes name : Bytes) (flow datagram : ℕ) (fits : length bytes ≤ max_udp_datagram) where
  -- The message of one fragment; its identifier is any.
  abbrev pub fragment_message : ℕ → ℕ → Message
  fragment_message id part = record {
    id = id;
    type = 6;
    conn_id = flow;
    seq = datagram;
    name = name;
    error = [];
    payload = fragment bytes (fragments bytes) part;
  }

  -- A fragment passes the checks and reaches its assembly.
  handle-place :
      (now id part : ℕ) (m : Assemblies)
      → part < fragments bytes
      → handle_udp_chunk now (fragment_message id part) m
        ≡ place now (flow, datagram) (fragment_message id part) part (fragments bytes) m
  unfolding handle_udp_chunk
  handle-place now id part m h =
      let (long, ep, et, _) =
        fragment_fields bytes (fragments bytes) part (omega (arith, fragments_bounds bytes fits))
          (omega (arith, fragments_bounds bytes fits)) in
      rw (ep, et) (ground (arith, fragments_bounds bytes fits))

  -- With the assembly at hand the chunk is put in.
  put_in-built :
      (created id part : ℕ) (got : List Bool) (m : Assemblies)
      → part < fragments bytes
      → length got ≡ fragments bytes
      → (2 ≤ fragments bytes) ⊎ (get_or got part false ≡ false)
      → put_in
          (flow, datagram)
          (fragment_message id part)
          part
          (fragments bytes)
          (built bytes name created got)
          m
        ≡ settle (flow, datagram) (built bytes name created (set got part true)) m
  put_in-built created id part got m h len ok =
      let (_, _, _, ec) =
        fragment_fields bytes (fragments bytes) part (omega (arith, fragments_bounds bytes fits))
          (omega (arith, fragments_bounds bytes fits)) in
      let key : ℕ × ℕ = (flow, datagram) in
      let a = built bytes name created got in
      put_in_same key (fragment_message id part) part (fragments bytes) a m
        (total-built bytes name created got)
      ∙ ap (λ c. settle key (fill_chunk part c (fill_name name a)) m) ec
      ∙ ap (λ x. settle key x m) (fill_chunk-built bytes name created part got h len ok)

  -- One fragment, with or without an assembly for its datagram.
  handle_known :
      (now id part created : ℕ) (got : List Bool) (m : Assemblies)
      → part < fragments bytes
      → length got ≡ fragments bytes
      → (2 ≤ fragments bytes) ⊎ (get_or got part false ≡ false)
      → lookup (flow, datagram) m ≡ some (built bytes name created got)
      → handle_udp_chunk now (fragment_message id part) m
        ≡ settle (flow, datagram) (built bytes name created (set got part true)) m
  handle_known now id part created got m h len ok found =
      handle-place now id part m h
      ∙ place_known now (flow, datagram) (fragment_message id part) part (fragments bytes) m
          (built bytes name created got) found
      ∙ put_in-built created id part got m h len ok

  abbrev none_yet : List Bool
  none_yet = replicate (fragments bytes) false

  get_or-replicate : (n i : ℕ) → get_or (replicate n false) i false ≡ false
  get_or-replicate zero i = refl
  get_or-replicate (suc n) zero = refl
  get_or-replicate (suc n) (suc i) = get_or-replicate n i

  handle_new :
      (now id part : ℕ) (m : Assemblies)
      → part < fragments bytes
      → lookup (flow, datagram) m ≡ none
      → length m < max_udp_assemblies
      → (m' : Assemblies) × (handle_udp_chunk now (fragment_message id part) m
          ≡ settle (flow, datagram) (built bytes name now (set none_yet part true)) m')
  handle_new now id part m h absent room =
      let key : ℕ × ℕ = (flow, datagram) in
      let e = new_assembly-built bytes name now in
      (
        insert key (built bytes name now none_yet) m,
        handle-place now id part m h
            ∙ place_new now key (fragment_message id part) part (fragments bytes) m absent room
            ∙ ap
                (λ a.
                  put_in key (fragment_message id part) part (fragments bytes) a (insert key a m))
                e
            ∙ put_in-built now id part none_yet (insert key (built bytes name now none_yet) m) h
                (length-replicate (fragments bytes) false)
                (inr (get_or-replicate (fragments bytes) part)),
      )

  -- What arrives, as messages.
  abbrev pub sent_as : List (ℕ × ℕ × ℕ) → List (ℕ × Message)
  sent_as [] = []
  sent_as ((now, id, part) ∷ rest) = (now, fragment_message id part) ∷ sent_as rest

  -- The whole datagram comes out, once, and nothing of it stays.
  abbrev pub Delivers : List (ℕ × ℕ × ℕ) → Assemblies → Type 0
  Delivers xs m =
      (m' : Assemblies) × (handle_udp_chunks (sent_as xs) m ≡ (m', (name, bytes) ∷ []))
      × (lookup (flow, datagram) m' ≡ none)

  Delivers-step :
      (now id part : ℕ) (rest : List (ℕ × ℕ × ℕ)) (m m' : Assemblies)
      → handle_udp_chunk now (fragment_message id part) m ≡ (m', none)
      → Delivers rest m'
      → Delivers ((now, id, part) ∷ rest) m
  Delivers-step now id part rest m m' e (m2, r, gone) = (
    m2,
    chunks_none now (fragment_message id part) (sent_as rest) m m' m2 ((name, bytes) ∷ []) e r,
    gone,
  )

  Delivers-last :
      (now id part created : ℕ) (got : List Bool) (m m' : Assemblies)
      → length got ≡ fragments bytes
      → ((i : ℕ) → i < length got → get_or got i false ≡ true)
      → handle_udp_chunk now (fragment_message id part) m
        ≡ settle (flow, datagram) (built bytes name created got) m'
      → Delivers ((now, id, part) ∷ []) m
  Delivers-last now id part created got m m' len every e =
      let key : ℕ × ℕ = (flow, datagram) in
      let a = built bytes name created got in
      let full : a.received ≡ a.total =
        received-built bytes name created got
        ∙ (masked_all got (all_chunks bytes)
            (len ∙ sym (length-chunks_from (fragments bytes) bytes 0)) every).1
        ∙ len
        ∙ sym (total-built bytes name created got) in
      let whole =
        e
        ∙ settle_complete key a m' full
        ∙ ap (λ d. (remove key m', d)) (deliver-built bytes name created got fits len every) in
      (
        remove key m',
        chunks_last now (fragment_message id part) m (remove key m') (name, bytes) whole,
        ground (arith, lookup-remove key key m'),
      )

  -- A fragment that does not complete the datagram is put in.
  partial-step :
      (now id part created : ℕ) (got : List Bool) (m m' : Assemblies) (i : ℕ)
      → length got ≡ fragments bytes
      → i < length got
      → get_or got i false ≡ false
      → handle_udp_chunk now (fragment_message id part) m
        ≡ settle (flow, datagram) (built bytes name created got) m'
      → (m2 : Assemblies) × (handle_udp_chunk now (fragment_message id part) m ≡ (m2, none))
        × (lookup (flow, datagram) m2 ≡ some (built bytes name created got))
  partial-step now id part created got m m' i len hi gap e =
      let key : ℕ × ℕ = (flow, datagram) in
      let a = built bytes name created got in
      (
        insert key a m',
        e
            ∙ settle_partial key a m' (
                omega (
                  arith,
                  received-built bytes name created got,
                  total-built bytes name created got,
                  count-lt got i hi gap,
                )),
        ground (arith, lookup-insert key key a m'),
      )

  run_known :
      (before : List (ℕ × ℕ × ℕ)) (now id last created i : ℕ) (got : List Bool) (m : Assemblies)
      → 2 ≤ fragments bytes
      → length got ≡ fragments bytes
      → lookup (flow, datagram) m ≡ some (built bytes name created got)
      → All (λ a. a.2 < fragments bytes) before
      → last < fragments bytes
      → i < fragments bytes
      → get_or (marks before got) i false ≡ false
      → ((j : ℕ) → j < fragments bytes → get_or (set (marks before got) last true) j false ≡ true)
      → Delivers (before ++ ((now, id, last) ∷ [])) m
  run_known [] now id last created i got m two len found ha hl hi gap every =
      Delivers-last now id last created (set got last true) m m (length-set got last true ∙ len)
        (λ j hj. every j (omega (arith, length-set got last true)))
        (handle_known now id last created got m hl len (inl two) found)
  run_known ((now', id', part) ∷ before) now id last created i got m two len found (h, ha) hl hi gap
        every =
      let len' = length-set got part true ∙ len in
      let (m2, e, found') =
        partial-step now' id' part created (set got part true) m m i len' (omega arith)
          (unmarked_before before (set got part true) i gap)
          (handle_known now' id' part created got m h len (inl two) found) in
      Delivers-step now' id' part (before ++ ((now, id, last) ∷ [])) m m2 e (
        run_known before now id last created i (set got part true) m2 two len' found' ha hl hi gap
          every)

  one_more :
      (i part : ℕ)
      → i < fragments bytes
      → part < fragments bytes
      → get_or (set none_yet part true) i false ≡ false
      → 2 ≤ fragments bytes
  one_more i part hi hp gap = elim (dec_lt 1 (fragments bytes)) [
    | yes two ↦ two
    | no one ↦
        let same : part ≡ i = omega arith in
        cc (
          get_or-set_self none_yet i (omega (arith, length-replicate (fragments bytes) false)),
          ap (λ p. get_or (set none_yet p true) i false) same,
        )
  ]

  -- A datagram of at most 65507 bytes, whose fragments arrive in any order and any number of
  -- times, all of them with the last arrival and not all before it, on a side with room for
  -- one more assembly and none under the key yet: over the whole run the datagram is delivered
  -- exactly once, with its bytes and its name, and its assembly is gone.
  pub handle-send-Delivers :
      (before : List (ℕ × ℕ × ℕ)) (now id last i : ℕ) (m : Assemblies)
      → lookup (flow, datagram) m ≡ none
      → length m < max_udp_assemblies
      → All (λ a. a.2 < fragments bytes) before
      → last < fragments bytes
      → i < fragments bytes
      → ¬ Arrived i before
      → ((j : ℕ) → j < fragments bytes → Arrived j (before ++ ((now, id, last) ∷ [])))
      → Delivers (before ++ ((now, id, last) ∷ [])) m
  handle-send-Delivers [] now id last i m absent room ha hl hi missing every =
      let (m', e) = handle_new now id last m hl absent room in
      let len = length-replicate (fragments bytes) false in
      Delivers-last now id last now (set none_yet last true) m m'
        (length-set none_yet last true ∙ len)
        (λ j hj.
          marked_of_Arrived ((now, id, last) ∷ []) none_yet j
            (omega (arith, length-set none_yet last true))
            (every j (omega (arith, length-set none_yet last true))))
        e
  handle-send-Delivers ((now', id', part) ∷ before) now id last i m absent room (h, ha) hl hi
        missing every =
      let (m', e) = handle_new now' id' part m h absent room in
      let len = length-replicate (fragments bytes) false in
      let got = set none_yet part true in
      let len' : length got ≡ fragments bytes = length-set none_yet part true ∙ len in
      let gap =
        unmarked_of_missing ((now', id', part) ∷ before) none_yet i missing
          (get_or-replicate (fragments bytes) i) in
      let gap' = unmarked_before before got i gap in
      let (m2, e2, found) = partial-step now' id' part now' got m m' i len' (omega arith) gap' e in
      let arrivals = before ++ ((now, id, last) ∷ []) in
      let rest =
        run_known before now id last now' i got m2 (one_more i part hi h gap') len' found ha hl hi
          gap
          (λ j hj.
            sym (ap (λ g. get_or g j false) (marks-append_one before got now id last))
            ∙ marked_of_Arrived ((now', id', part) ∷ arrivals) none_yet j (omega arith)
                (every j hj)) in
      Delivers-step now' id' part arrivals m m2 e2 rest
