-- ===== src/Fragment/Steps.antt =====
-- internal/app/app.go, `handleUDPChunk`: an assembly that holds some of the chunks of one datagram.
use unknowntunnel.Prelude.{
  ℕ, zero, suc, ◌+◌, ◌≤◌, ◌<◌, ◌≡◌, ◌⊎◌, ◌∙◌, sym, ap, refl, inl, inr, Bool, true, false, some,
  List, [], ◌∷◌, Bytes, length, get_or, set, replicate, if◌then◌else◌, arith, Bool-cases,
}
use unknowntunnel.Fragment.{
  fragments, chunk, is_nil, Assembly, fill_name, fill_chunk, new_assembly, max_udp_datagram,
  deliver, join,
}
use unknowntunnel.Fragment.Split.{chunks_from, all_chunks, chunk_nonempty, join-all_chunks}

-- The chunks of `cs` that `got` marks.
abbrev pub masked : List Bool → List Bytes → List Bytes
masked [] cs = []
masked (g ∷ gs) [] = []
masked (true ∷ gs) (c ∷ cs) = c ∷ masked gs cs
masked (false ∷ gs) (c ∷ cs) = [] ∷ masked gs cs

abbrev pub count : List Bool → ℕ
count [] = 0
count (true ∷ gs) = suc (count gs)
count (false ∷ gs) = count gs

get_or-masked :
    (gs : List Bool) (cs : List Bytes) (i : ℕ)
    → length gs ≡ length cs
    → get_or (masked gs cs) i [] ≡ (if get_or gs i false then get_or cs i [] else [])
get_or-masked [] [] i h = refl
get_or-masked [] (c ∷ cs) i h = absurd (omega arith)
get_or-masked (g ∷ gs) [] i h = absurd (omega arith)
get_or-masked (true ∷ gs) (c ∷ cs) zero h = refl
get_or-masked (false ∷ gs) (c ∷ cs) zero h = refl
get_or-masked (true ∷ gs) (c ∷ cs) (suc i) h = get_or-masked gs cs i (omega arith)
get_or-masked (false ∷ gs) (c ∷ cs) (suc i) h = get_or-masked gs cs i (omega arith)

set-masked :
    (gs : List Bool) (cs : List Bytes) (i : ℕ)
    → set (masked gs cs) i (get_or cs i []) ≡ masked (set gs i true) cs
set-masked [] cs i = refl
set-masked (g ∷ gs) [] zero = refl
set-masked (g ∷ gs) [] (suc i) = refl
set-masked (true ∷ gs) (c ∷ cs) zero = refl
set-masked (false ∷ gs) (c ∷ cs) zero = refl
set-masked (true ∷ gs) (c ∷ cs) (suc i) = ap (◌∷◌ c) (set-masked gs cs i)
set-masked (false ∷ gs) (c ∷ cs) (suc i) = ap (◌∷◌ []) (set-masked gs cs i)

set_same : (gs : List Bool) (i : ℕ) → get_or gs i false ≡ true → set gs i true ≡ gs
set_same [] i h = refl
set_same (g ∷ gs) zero h = ap (λ x. x ∷ gs) (sym h)
set_same (g ∷ gs) (suc i) h = ap (◌∷◌ g) (set_same gs i h)

count-set :
    (gs : List Bool) (i : ℕ)
    → i < length gs
    → get_or gs i false ≡ false
    → count (set gs i true) ≡ count gs + 1
count-set [] i h e = absurd (omega arith)
count-set (true ∷ gs) zero h e = cc
count-set (false ∷ gs) zero h e = omega arith
count-set (true ∷ gs) (suc i) h e = omega (arith, count-set gs i (omega arith) e)
count-set (false ∷ gs) (suc i) h e = omega (arith, count-set gs i (omega arith) e)

pub count-le : (gs : List Bool) → count gs ≤ length gs
count-le [] = omega arith
count-le (true ∷ gs) = omega (arith, count-le gs)
count-le (false ∷ gs) = omega (arith, count-le gs)

-- A mark that is missing shows in the count.
pub count-lt :
    (gs : List Bool) (i : ℕ) → i < length gs → get_or gs i false ≡ false → count gs < length gs
count-lt [] i h e = absurd (omega arith)
count-lt (true ∷ gs) zero h e = cc
count-lt (false ∷ gs) zero h e = omega (arith, count-le gs)
count-lt (true ∷ gs) (suc i) h e = omega (arith, count-lt gs i (omega arith) e)
count-lt (false ∷ gs) (suc i) h e = omega (arith, count-le gs)

pub masked_all :
    (gs : List Bool) (cs : List Bytes)
    → length gs ≡ length cs
    → ((i : ℕ) → i < length gs → get_or gs i false ≡ true)
    → (masked gs cs ≡ cs) × (count gs ≡ length gs)
masked_all [] [] h a = (refl, refl)
masked_all [] (c ∷ cs) h a = absurd (omega arith)
masked_all (g ∷ gs) [] h a = absurd (omega arith)
masked_all (true ∷ gs) (c ∷ cs) h a =
    let r = masked_all gs cs (omega arith) (λ i hi. a (suc i) (omega arith)) in
    (ap (◌∷◌ c) r.0, ap suc r.1)
masked_all (false ∷ gs) (c ∷ cs) h a = cc (a 0 (omega arith))

pub masked_none :
    (n : ℕ) (cs : List Bytes)
    → length cs ≡ n
    → (replicate n [] ≡ masked (replicate n false) cs) × (count (replicate n false) ≡ 0)
masked_none zero cs h = (refl, refl)
masked_none (suc n) [] h = absurd (omega arith)
masked_none (suc n) (c ∷ cs) h = let r = masked_none n cs (omega arith) in (ap (◌∷◌ []) r.0, r.1)

pub length-chunks_from :
    (left : ℕ) (bytes : Bytes) (part : ℕ) → length (chunks_from left bytes part) ≡ left
length-chunks_from zero bytes part = refl
length-chunks_from (suc left) bytes part = ap suc (length-chunks_from left bytes (part + 1))

get_or-chunks_from :
    (left : ℕ) (bytes : Bytes) (part i j : ℕ)
    → i < left
    → j ≡ part + i
    → get_or (chunks_from left bytes part) i [] ≡ chunk bytes j
get_or-chunks_from zero bytes part i j h e = absurd (omega arith)
get_or-chunks_from (suc left) bytes part zero j h e =
    let e' : part ≡ j = omega arith in ap (chunk bytes) e'
get_or-chunks_from (suc left) bytes part (suc i) j h e =
    get_or-chunks_from left bytes (part + 1) i j (omega arith) (omega arith)

-- What the assembly of a datagram is when it holds the chunks that `got` marks.
pub built : Bytes → Bytes → ℕ → List Bool → Assembly
built bytes name created got = record {
  created = created;
  name = name;
  total = fragments bytes;
  received = count got;
  chunks = masked got (all_chunks bytes);
}

pub new_assembly-built :
    (bytes name : Bytes) (now : ℕ)
    → new_assembly now name (fragments bytes)
      ≡ built bytes name now (replicate (fragments bytes) false)
unfolding new_assembly built
new_assembly-built bytes name now =
    let r =
      masked_none (fragments bytes) (all_chunks bytes)
        (length-chunks_from (fragments bytes) bytes 0) in
    λ i. record {
      created = now;
      name = name;
      total = fragments bytes;
      received = sym r.1 i;
      chunks = r.0 i;
    }

fill_name-built :
    (bytes name : Bytes) (created : ℕ) (got : List Bool)
    → fill_name name (built bytes name created got) ≡ built bytes name created got
unfolding fill_name built is_nil
fill_name-built bytes [] created got = refl
fill_name-built bytes (b ∷ bs) created got = refl

-- The chunk at a position: what came in, if it is marked.
get_or-built :
    (bytes name : Bytes) (created part : ℕ) (got : List Bool)
    → part < fragments bytes
    → length got ≡ fragments bytes
    → get_or (built bytes name created got).chunks part []
      ≡ (if get_or got part false then chunk bytes part else [])
unfolding built
get_or-built bytes name created part got h len =
    get_or-masked got (all_chunks bytes) part
      (len ∙ sym (length-chunks_from (fragments bytes) bytes 0))
    ∙ ap (λ c. if get_or got part false then c else [])
        (get_or-chunks_from (fragments bytes) bytes 0 part part h (omega arith))

set-built :
    (bytes name : Bytes) (created part : ℕ) (got : List Bool)
    → part < fragments bytes
    → length got ≡ fragments bytes
    → get_or got part false ≡ false
    → record (built bytes name created got) {
      chunks = set (built bytes name created got).chunks part (chunk bytes part);
      received = (built bytes name created got).received + 1;
    }
      ≡ built bytes name created (set got part true)
unfolding built
set-built bytes name created part got h len e = λ i. record {
  created = created;
  name = name;
  total = fragments bytes;
  received = sym (count-set got part (omega arith) e) i;
  chunks =
      (ap (set (masked got (all_chunks bytes)) part)
            (sym (get_or-chunks_from (fragments bytes) bytes 0 part part h (omega arith)))
          ∙ set-masked got (all_chunks bytes) part)
        i;
}

-- A chunk that comes in is marked; one that was there already changes nothing.
pub fill_chunk-built :
    (bytes name : Bytes) (created part : ℕ) (got : List Bool)
    → part < fragments bytes
    → length got ≡ fragments bytes
    → (2 ≤ fragments bytes) ⊎ (get_or got part false ≡ false)
    → fill_chunk part (chunk bytes part) (fill_name name (built bytes name created got))
      ≡ built bytes name created (set got part true)
unfolding fill_chunk is_nil
fill_chunk-built bytes name created part got h len ok =
    rw fill_name-built (elim (Bool-cases (get_or got part false)) [
      | inl there ↦
          let at =
            get_or-built bytes name created part got h len
            ∙ ap (λ g. if g then chunk bytes part else []) there in
          let full : is_nil (chunk bytes part) ≡ false =
            chunk_nonempty bytes part h (ground (arith, ok)) in
          rw (at, full) (ap (built bytes name created) (sym (set_same got part there)))
      | inr gap ↦
          let at =
            get_or-built bytes name created part got h len
            ∙ ap (λ g. if g then chunk bytes part else []) gap in
          rw at (set-built bytes name created part got h len gap)
    ])

pub total-built :
    (bytes name : Bytes) (created : ℕ) (got : List Bool)
    → (built bytes name created got).total ≡ fragments bytes
unfolding built
total-built bytes name created got = refl

pub received-built :
    (bytes name : Bytes) (created : ℕ) (got : List Bool)
    → (built bytes name created got).received ≡ count got
unfolding built
received-built bytes name created got = refl

pub deliver-built :
    (bytes name : Bytes) (created : ℕ) (got : List Bool)
    → length bytes ≤ max_udp_datagram
    → length got ≡ fragments bytes
    → ((i : ℕ) → i < length got → get_or got i false ≡ true)
    → deliver (built bytes name created got) ≡ some (name, bytes)
unfolding deliver built
deliver-built bytes name created got fits len every =
    let whole =
      ap join
        (masked_all got (all_chunks bytes)
          (len ∙ sym (length-chunks_from (fragments bytes) bytes 0)) every).0
      ∙ join-all_chunks bytes fits in
    rw whole (ground arith)
