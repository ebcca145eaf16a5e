-- ===== src/Prelude/Slices.antt =====
-- Byte slices as lists of numbers: indexing, slicing, comparison, and encoding/binary's big-endian
-- integers. A Go string is its bytes too.
use Prim.Native.Nat.{ℕ, zero, suc, ◌+◌, ◌-◌, ◌*◌, ◌/◌, ◌%◌, ◌^◌, ◌<◌}
use Prim.Native.Char.{code}
use Prim.Native.String.{String}
use mathlib.Core.Path.{◌≡◌, refl, ◌∙◌}
use mathlib.Core.Logic.{◌↔◌}
use mathlib.Core.Bool.{Bool, true, false, ◌&&◌}
use mathlib.Core.List.{List, [], ◌∷◌, ◌++◌}
use native.Mathlib.Omega.{arith}
use native.Mathlib.Nat.{pow-suc}
use unknowntunnel.Prelude.Tests.{◌==◌}
use unknowntunnel.Prelude.Lists.{
  length, take, drop, length-append, get_or, take-append, drop-append, take_all,
}

abbrev pub Bytes : Type 0
Bytes = List ℕ

abbrev pub IsByte : ℕ → Type 0
IsByte b = b < 256

-- The bytes of an ASCII literal.
abbrev pub codes : String → Bytes
codes String.[] = []
codes (String.◌∷◌ c s) = code c ∷ codes s

-- `data[lo:hi]`; every use stands behind the source's own length check.
abbrev pub slice : Bytes → ℕ → ℕ → Bytes
slice bytes lo hi = take (hi - lo) (drop lo bytes)

-- `data[i]`; every use stands behind the source's own length check.
abbrev pub byte_at : Bytes → ℕ → ℕ
byte_at bytes i = get_or bytes i 0

-- `a == b` on strings, `hmac.Equal` on slices.
unfoldable pub bytes_eq : Bytes → Bytes → Bool
bytes_eq [] [] = true
bytes_eq [] (b ∷ bs) = false
bytes_eq (a ∷ as') [] = false
bytes_eq (a ∷ as') (b ∷ bs) = (a == b) && bytes_eq as' bs

pub bytes_eq_self : (a : Bytes) → bytes_eq a a ≡ true
unfolding bytes_eq
bytes_eq_self [] = refl
bytes_eq_self (a ∷ as') = ground (arith, bytes_eq_self as')

pub bytes_eq→eq : (a b : Bytes) → bytes_eq a b ≡ true → a ≡ b
unfolding bytes_eq
bytes_eq→eq [] [] h = refl
bytes_eq→eq [] (b ∷ bs) h = cc
bytes_eq→eq (a ∷ as') [] h = cc
bytes_eq→eq (a ∷ as') (b ∷ bs) h = ground (arith, bytes_eq→eq as' bs)

pub bytes_eq_iff : (a b : Bytes) → (bytes_eq a b ≡ true) ↔ (a ≡ b)
bytes_eq_iff a b = (bytes_eq→eq a b, λ e. rw e (bytes_eq_self b))

-- `binary.BigEndian.PutUint16/32/64`: the low `n` bytes of `v`, the highest first.
unfoldable pub put_be : ℕ → ℕ → Bytes
put_be zero v = []
put_be (suc n) v = put_be n (v / 256) ++ (v % 256 ∷ [])

get_be_from : ℕ → Bytes → ℕ
get_be_from acc [] = acc
get_be_from acc (b ∷ bs) = get_be_from (acc * 256 + b) bs

-- `binary.BigEndian.Uint16/32/64`.
unfoldable pub get_be : Bytes → ℕ
unfolding get_be_from
get_be bs = get_be_from 0 bs

pub length-put_be : (n v : ℕ) → length (put_be n v) ≡ n
unfolding put_be
length-put_be zero v = refl
length-put_be (suc n) v =
    omega (arith, length-append (put_be n (v / 256)) (v % 256 ∷ []), length-put_be n (v / 256))

get_be_from-append :
    (acc b : ℕ) (xs : Bytes) → get_be_from acc (xs ++ (b ∷ [])) ≡ get_be_from acc xs * 256 + b
unfolding get_be_from
get_be_from-append acc b [] = refl
get_be_from-append acc b (x ∷ xs) = get_be_from-append (acc * 256 + x) b xs

-- A number that fits is read back.
pub get_be-put_be : (n v : ℕ) → v < 256 ^ n → get_be (put_be n v) ≡ v
unfolding get_be put_be get_be_from
get_be-put_be zero v h = omega arith
get_be-put_be (suc n) v h =
    let h' : v < 256 ^ n * 256 = rw pow-suc at h in
    get_be_from-append 0 (v % 256) (put_be n (v / 256))
    ∙ omega (arith, get_be-put_be n (v / 256) (omega arith))

-- What stands between a front of `lo` bytes and a back is the slice from `lo`.
pub slice-middle :
    (front mid back : Bytes) (lo hi : ℕ)
    → length front ≡ lo
    → lo + length mid ≡ hi
    → slice (front ++ (mid ++ back)) lo hi ≡ mid
slice-middle front mid back lo hi e e' =
    rw (drop-append lo front (mid ++ back) e) (take-append (hi - lo) mid back (omega arith))

pub slice_last :
    (front mid : Bytes) (lo hi : ℕ)
    → length front ≡ lo
    → lo + length mid ≡ hi
    → slice (front ++ mid) lo hi ≡ mid
slice_last front mid lo hi e e' =
    rw (drop-append lo front mid e) (take_all (hi - lo) mid (omega arith))

pub byte_at-append :
    (front : Bytes) (b : ℕ) (back : Bytes) (i : ℕ)
    → length front ≡ i
    → byte_at (front ++ (b ∷ back)) i ≡ b
byte_at-append [] b back zero e = refl
byte_at-append [] b back (suc i) e = absurd (omega arith)
byte_at-append (x ∷ xs) b back zero e = absurd (omega arith)
byte_at-append (x ∷ xs) b back (suc i) e = byte_at-append xs b back i (omega arith)
