-- ===== src/Dedupe.antt =====
-- internal/app/app.go, `App.isDuplicate`: the bounded memory of message identifiers.
pub mod Recent
pub mod Replay
use unknowntunnel.Prelude.{
  ℕ, zero, suc, ◌+◌, ◌^◌, Bool, true, false, not, List, [], ◌∷◌, ◌==◌, if◌then◌else◌, length,
  get_or, set, replicate,
}

abbrev pub dedupe_window : ℕ
dedupe_window = 2 ^ 20

-- `seen`, a Go set, is a list; `seen_ring` has a slot for each identifier that is remembered.
pub record Dedupe : Type 0 where
  pub seen : List ℕ
  pub seen_ring : List ℕ
  pub seen_next : ℕ

unfoldable pub contains : ℕ → List ℕ → Bool
contains id [] = false
contains id (x ∷ xs) = if x == id then true else contains id xs

pub delete : ℕ → List ℕ → List ℕ
delete id [] = []
delete id (x ∷ xs) = if x == id then delete id xs else x ∷ delete id xs

-- `New`, with a ring of `size` slots.
unfoldable pub new_dedupe : ℕ → Dedupe
new_dedupe size = record { seen = []; seen_ring = replicate size 0; seen_next = 0 }

-- The identifier takes the slot of the oldest one, which is forgotten.
unfoldable pub remember : ℕ → Dedupe → Dedupe
remember id d =
    let old = get_or d.seen_ring d.seen_next 0 in
    let kept = if old == 0 then d.seen else delete old d.seen in
    let next = d.seen_next + 1 in
    record {
      seen = id ∷ kept;
      seen_ring = set d.seen_ring d.seen_next id;
      seen_next = if next == length d.seen_ring then 0 else next;
    }

unfoldable pub is_duplicate : ℕ → Dedupe → Bool × Dedupe
is_duplicate id d =
    if id == 0 then (true, d) else if contains id d.seen then (true, d) else (false, remember id d)

-- The memory after the messages of a run.
unfoldable pub is_duplicate_all : List ℕ → Dedupe → Dedupe
is_duplicate_all [] d = d
is_duplicate_all (id ∷ ids) d = is_duplicate_all ids (is_duplicate id d).1
