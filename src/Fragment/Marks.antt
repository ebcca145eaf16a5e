-- ===== src/Fragment/Marks.antt =====
-- Which fragments of a datagram have arrived.
use unknowntunnel.Prelude.{
  ℕ, zero, suc, ◌<◌, ◌≡◌, ◌≢◌, ◌⊎◌, ◌∙◌, ap, refl, inl, inr, Bool, true, false, List, [], ◌∷◌, ◌++◌,
  length, get_or, set, length-set, arith, Bool-cases,
}

-- The marks after the arrivals, each with its time, identifier and part.
abbrev pub marks : List (ℕ × ℕ × ℕ) → List Bool → List Bool
marks [] got = got
marks ((now, id, part) ∷ rest) got = marks rest (set got part true)

abbrev pub Arrived : ℕ → List (ℕ × ℕ × ℕ) → Type 0
Arrived i [] = ⊥
Arrived i ((now, id, part) ∷ rest) = (part ≡ i) ⊎ Arrived i rest

pub get_or-set_self :
    (got : List Bool) (i : ℕ) → i < length got → get_or (set got i true) i false ≡ true
get_or-set_self [] i h = absurd (omega arith)
get_or-set_self (g ∷ gs) zero h = refl
get_or-set_self (g ∷ gs) (suc i) h = get_or-set_self gs i (omega arith)

pub get_or-set_ne :
    (got : List Bool) (i j : ℕ) → i ≢ j → get_or (set got i true) j false ≡ get_or got j false
get_or-set_ne [] i j h = refl
get_or-set_ne (g ∷ gs) zero zero h = absurd (h refl)
get_or-set_ne (g ∷ gs) zero (suc j) h = refl
get_or-set_ne (g ∷ gs) (suc i) zero h = refl
get_or-set_ne (g ∷ gs) (suc i) (suc j) h = get_or-set_ne gs i j (λ e. h (ap suc e))

get_or-set-true :
    (got : List Bool) (i j : ℕ) → get_or got j false ≡ true → get_or (set got i true) j false ≡ true
get_or-set-true [] i j h = h
get_or-set-true (g ∷ gs) zero zero h = refl
get_or-set-true (g ∷ gs) zero (suc j) h = h
get_or-set-true (g ∷ gs) (suc i) zero h = h
get_or-set-true (g ∷ gs) (suc i) (suc j) h = get_or-set-true gs i j h

pub length-marks : (xs : List (ℕ × ℕ × ℕ)) (got : List Bool) → length (marks xs got) ≡ length got
length-marks [] got = refl
length-marks ((now, id, part) ∷ rest) got =
    length-marks rest (set got part true) ∙ length-set got part true

marks_keep :
    (xs : List (ℕ × ℕ × ℕ)) (got : List Bool) (i : ℕ)
    → get_or got i false ≡ true
    → get_or (marks xs got) i false ≡ true
marks_keep [] got i h = h
marks_keep ((now, id, part) ∷ rest) got i h =
    marks_keep rest (set got part true) i (get_or-set-true got part i h)

-- A part that is not marked in the end never was.
pub unmarked_before :
    (xs : List (ℕ × ℕ × ℕ)) (got : List Bool) (i : ℕ)
    → get_or (marks xs got) i false ≡ false
    → get_or got i false ≡ false
unmarked_before xs got i h = elim (Bool-cases (get_or got i false)) [
  | inl t ↦ cc (marks_keep xs got i t)
  | inr f ↦ f
]

pub marked_of_Arrived :
    (xs : List (ℕ × ℕ × ℕ)) (got : List Bool) (i : ℕ)
    → i < length got
    → Arrived i xs
    → get_or (marks xs got) i false ≡ true
marked_of_Arrived [] got i h a = absurd a
marked_of_Arrived ((now, id, part) ∷ rest) got i h (inl e) =
    marks_keep rest (set got part true) i (rw e (get_or-set_self got i h))
marked_of_Arrived ((now, id, part) ∷ rest) got i h (inr a) =
    marked_of_Arrived rest (set got part true) i (omega (arith, length-set got part true)) a

pub unmarked_of_missing :
    (xs : List (ℕ × ℕ × ℕ)) (got : List Bool) (i : ℕ)
    → ¬ Arrived i xs
    → get_or got i false ≡ false
    → get_or (marks xs got) i false ≡ false
unmarked_of_missing [] got i a h = h
unmarked_of_missing ((now, id, part) ∷ rest) got i a h =
    unmarked_of_missing rest (set got part true) i (λ r. a (inr r))
      (get_or-set_ne got part i (λ e. a (inl e)) ∙ h)

pub marks-append_one :
    (xs : List (ℕ × ℕ × ℕ)) (got : List Bool) (now id part : ℕ)
    → marks (xs ++ ((now, id, part) ∷ [])) got ≡ set (marks xs got) part true
marks-append_one [] got now id part = refl
marks-append_one ((a, b, c) ∷ rest) got now id part =
    marks-append_one rest (set got c true) now id part
