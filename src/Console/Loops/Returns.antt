-- ===== src/Console/Loops/Returns.antt =====
-- internal/admin/admin.go, the loops of the prompts: what a call that returns has returned.
use unknowntunnel.Prelude.{ℕ, zero, suc, ◌+◌, ◌≡◌, refl, Option, none, some, length}
use unknowntunnel.Site.{Host, Answer, done, failed, forever, Console, bind, Error}
use unknowntunnel.Console.{again, repeat}
use unknowntunnel.Console.Loops.{round}

-- A call that returns: what, and where the input is then.
unfoldable pub Returns : {A : Type 0} → (A → Type 0) → Answer A → Type 0
Returns P (done a h') = P a
Returns P (failed e h') = Unit
Returns P forever = Unit

-- A chain returns what its last call returns.
pub bind-Returns :
    {A B : Type 0} (P : B → Type 0) (x : Answer A) (f : A → Console B)
    → ((a : A) (h : Host) → Returns P (f a h))
    → Returns P (bind x f)
unfolding Returns
bind-Returns P (done a h) f r = r a h
bind-Returns P (failed e h) f r = tt
bind-Returns P forever f r = tt

pub done-Returns : {A : Type 0} (P : A → Type 0) (a : A) (h : Host) → P a → Returns P (done a h)
unfolding Returns
done-Returns P a h p = p

pub failed-Returns : {A : Type 0} (P : A → Type 0) (e : Error) (h : Host) → Returns P (failed e h)
unfolding Returns
failed-Returns P e h = tt

pub Returns-done : {A : Type 0} (P : A → Type 0) (a : A) (h : Host) → Returns P (done a h) → P a
unfolding Returns
Returns-done P a h p = p

round-Returns :
    {A : Type 0} (P : A → Type 0) (x : Answer (Option A)) (later : Host → Answer A)
    → ((a : A) (h' : Host) → x ≡ done (some a) h' → P a)
    → ((h' : Host) → Returns P (later h'))
    → Returns P (round x later)
unfolding Returns round
round-Returns P (done (some a) h') later good go = good a h' refl
round-Returns P (done none h') later good go = go h'
round-Returns P (failed e h') later good go = tt
round-Returns P forever later good go = tt

again-Returns :
    {A : Type 0} (P : A → Type 0) (body : Console (Option A))
    → ((h h' : Host) (a : A) → body h ≡ done (some a) h' → P a)
    → (fuel : ℕ) (h : Host) → Returns P (again fuel body h)
unfolding again round Returns
again-Returns P body good zero h = tt
again-Returns P body good (suc fuel) h =
    round-Returns P (body h) (again fuel body) (λ a h'. good h h' a)
      (again-Returns P body good fuel)

-- What each round that returns gives, the loop gives.
pub repeat-Returns :
    {A : Type 0} (P : A → Type 0) (body : Console (Option A))
    → ((h h' : Host) (a : A) → body h ≡ done (some a) h' → P a)
    → (h : Host) → Returns P (repeat body h)
unfolding repeat
repeat-Returns P body good h = again-Returns P body good (length h.input + 1) h
