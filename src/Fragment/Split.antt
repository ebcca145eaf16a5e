-- ===== src/Fragment/Split.antt =====
-- internal/app/app.go, `sendUDPDatagram`: the chunks of a datagram, joined, are the datagram.
use unknowntunnel.Prelude.{
  ℕ, zero, suc, ◌+◌, ◌-◌, ◌*◌, ◌≤◌, ◌<◌, ◌≡◌, ◌∙◌, sym, ap, refl, List, [], ◌∷◌, ◌++◌, Bytes,
  length, slice, take, drop, ltb, take-append-drop, take_all, drop_all, length-take, length-drop,
  arith, get_be, put_be, get_be-put_be, Bool-cases, inl, inr, false, drop-drop, ap₂, slice_last,
  ◌^◌,
}
use unknowntunnel.Fragment.{max_udp_datagram, fragments, chunk, fragment, join, is_nil}

is_nil-false : (b : Bytes) → 0 < length b → is_nil b ≡ false
unfolding is_nil
is_nil-false [] h = absurd (omega arith)
is_nil-false (x ∷ xs) h = refl

-- The chunks from `part` on, `left` of them.
abbrev pub chunks_from : ℕ → Bytes → ℕ → List Bytes
chunks_from zero bytes part = []
chunks_from (suc left) bytes part = chunk bytes part ∷ chunks_from left bytes (part + 1)

-- A chunk is the next 1200 bytes, or what is left.
chunk_lem : (bytes : Bytes) (part : ℕ) → chunk bytes part ≡ take 1200 (drop (part * 1200) bytes)
unfolding chunk
chunk_lem bytes part =
    let rest = drop (part * 1200) bytes in
    elim (Bool-cases (ltb (length bytes) (part * 1200 + 1200))) [
      | inl short ↦ rw short (
          take_all (length bytes - part * 1200) rest
            (omega (arith, length-drop (part * 1200) bytes))
          ∙ sym (take_all 1200 rest (ground (arith, length-drop (part * 1200) bytes))))
      | inr long ↦
          rw long (
            let e : part * 1200 + 1200 - part * 1200 ≡ 1200 = omega arith in
            ap (λ k. take k rest) e)
    ]

join-chunks_from :
    (left : ℕ) (bytes : Bytes) (part : ℕ)
    → length bytes ≤ (part + left) * 1200
    → join (chunks_from left bytes part) ≡ drop (part * 1200) bytes
unfolding join
join-chunks_from zero bytes part h = sym (drop_all (part * 1200) bytes (omega arith))
join-chunks_from (suc left) bytes part h =
    let rest = drop (part * 1200) bytes in
    ap₂ ◌++◌ (chunk_lem bytes part) (
      join-chunks_from left bytes (part + 1) (omega arith)
      ∙ sym (drop-drop 1200 (part * 1200) ((part + 1) * 1200) bytes (omega arith)))
    ∙ take-append-drop 1200 rest

pub fragments_bounds :
    (bytes : Bytes)
    → length bytes ≤ max_udp_datagram
    → (1 ≤ fragments bytes) × (fragments bytes ≤ 55) × (length bytes ≤ fragments bytes * 1200)
unfolding fragments
fragments_bounds bytes h = ground arith

-- All fragments of a datagram carry bytes, but the only one of an empty datagram.
pub chunk_nonempty :
    (bytes : Bytes) (part : ℕ)
    → part < fragments bytes
    → 2 ≤ fragments bytes
    → is_nil (chunk bytes part) ≡ false
unfolding fragments
chunk_nonempty bytes part h two = is_nil-false (chunk bytes part) (
    rw chunk_lem (
      ground (arith, length-take 1200 (drop (part * 1200) bytes), length-drop (part * 1200) bytes)))

-- The chunks of a datagram, in order.
abbrev pub all_chunks : Bytes → List Bytes
all_chunks bytes = chunks_from (fragments bytes) bytes 0

pub join-all_chunks :
    (bytes : Bytes) → length bytes ≤ max_udp_datagram → join (all_chunks bytes) ≡ bytes
join-all_chunks bytes h =
    join-chunks_from (fragments bytes) bytes 0 (omega (arith, fragments_bounds bytes h))

-- The header of a fragment gives its number and the count, and the chunk follows.
pub fragment_fields :
    (bytes : Bytes) (total part : ℕ)
    → total < 256 ^ 2
    → part < 256 ^ 2
    → (4 ≤ length (fragment bytes total part))
      × (get_be (slice (fragment bytes total part) 0 2) ≡ part)
      × (get_be (slice (fragment bytes total part) 2 4) ≡ total)
      × (slice (fragment bytes total part) 4 (length (fragment bytes total part))
          ≡ chunk bytes part)
unfolding fragment put_be
fragment_fields bytes total part ht hp = (
  omega arith,
  get_be-put_be 2 part hp,
  get_be-put_be 2 total ht,
  slice_last (put_be 2 part ++ put_be 2 total) (chunk bytes part) 4
      (length (fragment bytes total part)) refl (omega arith),
)
