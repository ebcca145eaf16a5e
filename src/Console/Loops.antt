-- ===== src/Console/Loops.antt =====
-- internal/admin/admin.go: the loops of the prompts, which read a line in each round.
pub mod Returns
pub mod Endings
pub mod Keeps
pub mod Prompts
use unknowntunnel.Prelude.{
  ℕ, zero, suc, ◌+◌, ◌≤◌, ◌<◌, ◌≡◌, ◌≢◌, ◌⊎◌, inl, inr, sym, ap, refl, ◌∙◌, All, subst, Bool, true,
  false, List, [], ◌∷◌, Bytes, Option, none, some, length, arith,
}
use unknowntunnel.Site.{
  Host, Answer, done, failed, forever, Console, bind, ◌>>=◌, ◌>>◌, pure, refuse_if, Error,
}
use unknowntunnel.Console.{again, repeat, take_line, read_line}

-- From one host to the next only lines are read: at least one, unless none is left.
pub record Moved (h h' : Host) : Type 0 where
  pub files : h'.files ≡ h.files
  pub calls : h'.calls ≡ h.calls
  pub onward : (length h'.input < length h.input) ⊎ ((h.input ≡ []) × (h'.input ≡ []))

unfoldable pub Reads : {A : Type 0} → Host → Answer A → Type 0
Reads h (done a h') = Moved h h'
Reads h (failed e h') = Moved h h'
Reads h forever = Unit

unfoldable pub IsReading : {A : Type 0} → Console A → Type 0
IsReading body = (h : Host) → Reads h (body h)

nothing_less : (xs ys : List (Option Bytes)) → xs ≡ [] → length ys < length xs → ⊥
nothing_less xs ys e less = absurd (omega (arith, ap (λ zs. length zs) e))

pub Moved-trans : (h h' h'' : Host) → Moved h h' → Moved h' h'' → Moved h h''
Moved-trans h h' h'' a b = record {
  files = b.files ∙ a.files;
  calls = b.calls ∙ a.calls;
  onward = elim a.onward [
    | inl less ↦ elim b.onward [
      | inl less' ↦ inl (omega arith)
      | inr (e, e') ↦ inl (subst (λ xs. length xs < length h.input) (e ∙ sym e') less)
    ]
    | inr (e, e') ↦ elim b.onward [
      | inl less' ↦ absurd (nothing_less h'.input h''.input e' less')
      | inr (_, e'') ↦ inr (e, e'')
    ]
  ];
}

pub Reads-trans : {A : Type 0} (h h' : Host) (a : Answer A) → Moved h h' → Reads h' a → Reads h a
unfolding Reads
Reads-trans h h' (done a h'') m r = Moved-trans h h' h'' m r
Reads-trans h h' (failed e h'') m r = Moved-trans h h' h'' m r
Reads-trans h h' forever m r = tt

take_line-Reads :
    (lines : List (Option Bytes)) (h : Host) → h.input ≡ lines → Reads h (take_line lines h)
unfolding Reads take_line
take_line-Reads [] h e = record { files = refl; calls = refl; onward = inr (e, e) }
take_line-Reads (none ∷ rest) h e = record {
  files = refl;
  calls = refl;
  onward = inl (omega (arith, ap (λ xs. length xs) e));
}
take_line-Reads (some line ∷ rest) h e = record {
  files = refl;
  calls = refl;
  onward = inl (omega (arith, ap (λ xs. length xs) e));
}

pub read_line-IsReading : IsReading read_line
unfolding IsReading read_line
read_line-IsReading = λ h. take_line-Reads h.input h refl

-- What follows a read without reading.
pure_after :
    {A B : Type 0} (f : A → B) (h : Host) (x : Answer A)
    → Reads h x
    → Reads h (bind x (λ a. pure (f a)))
unfolding Reads
pure_after f h (done a h') r = r
pure_after f h (failed e h') r = r
pure_after f h forever r = tt

pub pure_after-IsReading :
    {A B : Type 0} (m : Console A) (f : A → B) → IsReading m → IsReading (m >>= λ a. pure (f a))
unfolding IsReading
pure_after-IsReading m f r = λ h. pure_after f h (m h) (r h)

-- A round, and the rounds after it.
unfoldable pub round : {A : Type 0} → Answer (Option A) → (Host → Answer A) → Answer A
round x later = elim x [
  | done (some a) h' ↦ done a h'
  | done none h' ↦ later h'
  | failed e h' ↦ failed e h'
  | forever ↦ forever
]

pub round-Reads :
    {A : Type 0} (h : Host) (x : Answer (Option A)) (later : Host → Answer A)
    → Reads h x
    → ((h' : Host) → Reads h' (later h'))
    → Reads h (round x later)
unfolding Reads round
round-Reads h (done (some a) h') later r go = r
round-Reads h (done none h') later r go = Reads-trans h h' (later h') r (go h')
round-Reads h (failed e h') later r go = r
round-Reads h forever later r go = tt

module _ {A : Type 0} (body : Console (Option A)) (reading : IsReading body) where
  again-Reads : (fuel : ℕ) (h : Host) → Reads h (again fuel body h)
  unfolding again Reads IsReading round
  again-Reads zero h = tt
  again-Reads (suc fuel) h = round-Reads h (body h) (again fuel body) (reading h) (again-Reads fuel)

  pub repeat-IsReading : IsReading (repeat body)
  unfolding IsReading repeat
  repeat-IsReading = λ h. again-Reads (length h.input + 1) h

  -- At the end of the input a round that does not return is every round.
  pub again_forever : (h : Host) (fuel : ℕ) → body h ≡ done none h → again fuel body h ≡ forever
  unfolding again round
  again_forever h zero e = refl
  again_forever h (suc fuel) e = ap (λ x. round x (again fuel body)) e ∙ again_forever h fuel e

  same_later :
      (fuel more : ℕ) (h : Host) (x : Answer (Option A))
      → body h ≡ x
      → Reads h x
      → length h.input < suc fuel
      → length h.input < suc more
      → ((h' : Host)
          → length h'.input < fuel
          → length h'.input < more
          → again fuel body h' ≡ again more body h')
      → round x (again fuel body) ≡ round x (again more body)
  unfolding round Reads
  same_later fuel more h (done (some a) h') e r f m go = refl
  same_later fuel more h (failed fault h') e r f m go = refl
  same_later fuel more h forever e r f m go = refl
  same_later fuel more h (done none h') e r f m go = elim r.onward [
    | inl less ↦ go h' (omega arith) (omega arith)
    | inr (nil, nil') ↦
        let same : h' ≡ h =
          λ i. record { input = (nil' ∙ sym nil) i; files = r.files i; calls = r.calls i } in
        let back : body h' ≡ done none h' = ap body same ∙ e in
        again_forever h' fuel back ∙ sym (again_forever h' more back)
  ]

  same_rounds :
      (fuel more : ℕ) (h : Host)
      → length h.input < fuel
      → length h.input < more
      → again fuel body h ≡ again more body h
  unfolding again round IsReading
  same_rounds zero more h f m = absurd (omega arith)
  same_rounds fuel zero h f m = absurd (omega arith)
  same_rounds (suc fuel) (suc more) h f m =
      same_later fuel more h (body h) refl (reading h) f m (same_rounds fuel more)

  -- For a body that reads a line in each round, more rounds than there are lines make no
  -- difference.
  pub again-eq-repeat :
      (fuel : ℕ) (h : Host) → length h.input < fuel → again fuel body h ≡ repeat body h
  unfolding repeat
  again-eq-repeat fuel h f = same_rounds fuel (length h.input + 1) h f (omega arith)

pub reads : {A : Type 0} (m : Console A) → IsReading m → (h : Host) → Reads h (m h)
unfolding IsReading
reads m r h = r h
