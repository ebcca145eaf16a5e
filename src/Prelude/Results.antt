-- ===== src/Prelude/Results.antt =====
-- Go's `(value, error)` pair: a value, or an error of the component's own kind.
use mathlib.Core.Path.{◌≡◌, refl, sym, ap, ◌∙◌}
use mathlib.Core.Bool.{Bool, true, false}

pub data Result {ℓ} (E A : Type ℓ) : Type ℓ where
  ok : A → Result E A
  err : E → Result E A

infixl 5 ◌>>=◌ ◌>>◌
abbrev pub ◌>>=◌ {ℓ} : {E A B : Type ℓ} → Result E A → (A → Result E B) → Result E B
ok a >>= f = f a
err e >>= f = err e

abbrev pub ◌>>◌ : {E B : Type 0} → Result E (Unit {0}) → Result E B → Result E B
m >> k = m >>= λ _. k

-- `if bad { return err }`.
abbrev pub reject_if : {E : Type 0} → Bool → E → Result E (Unit {0})
reject_if true e = err e
reject_if false e = ok tt

pub ok_or : {E A : Type 0} → A → Result E A → A
ok_or d (ok a) = a
ok_or d (err e) = d

-- Two results that are equal and succeed.
pub same_result : {E A : Type 0} {a b : A} (x : Result E A) → x ≡ ok a → x ≡ ok b → a ≡ b
unfolding ok_or
same_result {a} x p q = sym (ap (ok_or a) p) ∙ ap (ok_or a) q

-- A chain that succeeds: its first result, and the chain from there.
pub >>=-eq-ok :
    {E A B : Type 0} {last : B} (first : Result E A) (next : A → Result E B)
    → (first >>= next) ≡ ok last
    → (result : A) × (first ≡ ok result) × (next result ≡ ok last)
>>=-eq-ok (err fault) next chain = cc
>>=-eq-ok (ok result) next chain = (result, refl, chain)

-- A guard that let a result through.
pub reject_if-eq-ok :
    {E A : Type 0} (bad : Bool) (e : E) (rest : Result E A) {a : A}
    → (reject_if bad e >> rest) ≡ ok a
    → (bad ≡ false) × (rest ≡ ok a)
reject_if-eq-ok true e rest h = cc
reject_if-eq-ok false e rest h = (refl, h)
