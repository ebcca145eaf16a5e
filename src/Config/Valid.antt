-- ===== src/Config/Valid.antt =====
-- internal/config/config.go, `Validate`: what a configuration without errors is.
use unknowntunnel.Prelude.{
  ℕ, ◌≡◌, ◌≢◌, ◌⊎◌, inl, inr, refl, Bool, true, false, not, List, All, [], ◌∷◌, ◌++◌, Bytes, codes,
  Option, none, some, pos, negsuc, ◌≤◌, arith, bytes_eq, bytes_eq_iff, Option-cases, Bool-cases,
  subst,
}
use unknowntunnel.Config.{
  Text, Forward, check, check_error, errors, between, mem, is_tcp_or_udp, valid_identifier,
  contains_control, split_and_validate_host_port, validate_listen_address, validate_forwards,
  lower_forward, check_forward,
}

pub append-eq-empty : {A : Type 0} (xs ys : List A) → xs ++ ys ≡ [] → (xs ≡ []) × (ys ≡ [])
append-eq-empty [] ys h = (refl, h)
append-eq-empty (x ∷ xs) ys h = cc

pub errors-eq-empty : {E : Type 0} (ess : List (List E)) → errors ess ≡ [] → All (λ es. es ≡ []) ess
unfolding errors
errors-eq-empty [] h = tt
errors-eq-empty (es ∷ ess) h =
    let (here, later) = append-eq-empty es (errors ess) h in (here, errors-eq-empty ess later)

pub check-eq-empty : {E : Type 0} (bad : Bool) (e : E) → check bad e ≡ [] → bad ≡ false
unfolding check
check-eq-empty true e h = cc
check-eq-empty false e h = refl

pub check_error-eq-empty :
    {A E : Type 0} (o : Option A) (f : A → E) → check_error o f ≡ [] → o ≡ none
unfolding check_error
check_error-eq-empty none f h = refl
check_error-eq-empty (some a) f h = cc

abbrev pub IsCarrierName : Bytes → Type 0
IsCarrierName p = (p ≡ codes "tcp") ⊎ (p ≡ codes "udp")

pub is_tcp_or_udp-eq-true : (p : Bytes) → not (is_tcp_or_udp p) ≡ false → IsCarrierName p
unfolding is_tcp_or_udp
is_tcp_or_udp-eq-true p h =
    ground (arith, bytes_eq_iff p (codes "tcp"), bytes_eq_iff p (codes "udp"))

pub mem-eq-false : (x : Bytes) (xs : List Bytes) → mem x xs ≡ false → All (λ y. y ≢ x) xs
unfolding mem
mem-eq-false x [] h = tt
mem-eq-false x (y ∷ ys) h =
    (λ e. ground (arith, bytes_eq_iff y x), mem-eq-false x ys (ground arith))

pub All-mem : (P : Bytes → Type 0) (x : Bytes) (xs : List Bytes) → mem x xs ≡ true → All P xs → P x
unfolding mem
All-mem P x [] h ps = cc
All-mem P x (y ∷ ys) h ps = elim (Bool-cases (bytes_eq y x)) [
  | inl e ↦ subst P ((bytes_eq_iff y x).0 e) ps.0
  | inr e ↦ All-mem P x ys (ground (arith, h, e)) ps.1
]

pub between-eq-true : (lo hi n : ℕ) → between lo hi (pos n) ≡ true → (lo ≤ n) × (n ≤ hi)
unfolding between
between-eq-true lo hi n h = (ground arith, ground arith)

pub between-negsuc : (lo hi n : ℕ) → between lo hi (negsuc n) ≡ false
unfolding between
between-negsuc lo hi n = refl

pub valid_identifier-nonempty : (name : Bytes) → valid_identifier name ≡ true → name ≢ []
unfolding valid_identifier
valid_identifier-nonempty [] ok e = absurd (cc ok)
valid_identifier-nonempty (b ∷ bs) ok e = absurd (cc e)

-- A list in which every text differs from those before it and from those in `seen`.
unfoldable pub Distinct : List Bytes → List Bytes → Type 0
Distinct seen [] = Unit
Distinct seen (x ∷ xs) = All (λ y. y ≢ x) seen × Distinct (x ∷ seen) xs

module _ (text : Text) where
  -- An address with a host and a port from 1 to 65535.
  pub record IsAddress (require_host : Bool) (value : Bytes) : Type 0 where
    pub host : Bytes
    pub port_text : Bytes
    pub port : ℕ
    pub splits : text.split_host_port value ≡ some (host, port_text)
    pub number : text.atoi port_text ≡ some (pos port)
    pub low : 1 ≤ port
    pub high : port ≤ 65535
    pub given : split_and_validate_host_port text value require_host ≡ (some (host, pos port), none)
    pub plain : contains_control host ≡ false
    pub named : require_host ≡ true → text.trim_space host ≢ []

  pub split_and_validate-eq-none :
      (value : Bytes) (require_host : Bool)
      → (split_and_validate_host_port text value require_host).1 ≡ none
      → IsAddress require_host value
  unfolding split_and_validate_host_port
  split_and_validate-eq-none value require_host h =
      elim (Option-cases (text.split_host_port value)) [
        | inl e ↦ ground arith
        | inr ((host, port_text), e) ↦ elim (Option-cases (text.atoi port_text)) [
          | inl e2 ↦ ground arith
          | inr (pos port, e2) ↦
              let fits : between 1 65535 (pos port) ≡ true = ground arith in
              let (low, high) = between-eq-true 1 65535 port fits in
              record {
                host = host;
                port_text = port_text;
                port = port;
                splits = e;
                number = e2;
                low = low;
                high = high;
                given = ground (arith, fits);
                plain = ground arith;
                named = λ q r. ground (arith, bytes_eq_iff (text.trim_space host) []);
              }
          | inr (negsuc n, e2) ↦ absurd (ground (arith, between-negsuc 1 65535 n))
        ]
      ]

  pub record IsForward (f : Forward) : Type 0 where
    pub named : valid_identifier f.name ≡ true
    pub carrier : IsCarrierName f.protocol
    pub listens : IsAddress false f.listen
    pub serves : valid_identifier f.service ≡ true

  abbrev pub names : List Forward → List Bytes
  names [] = []
  names (f ∷ fs) = f.name ∷ names fs

  check_forward-eq-empty :
      (seen : List Bytes) (f : Forward)
      → check_forward text seen f ≡ []
      → IsForward f × All (λ y. y ≢ f.name) seen
  unfolding check_forward validate_listen_address
  check_forward-eq-empty seen f h =
      let (named, (fresh, (carrier, (listens, (serves, _))))) = errors-eq-empty _ h in
      let named' = check-eq-empty (not (valid_identifier f.name)) _ named in
      let serves' = check-eq-empty (not (valid_identifier f.service)) _ serves in
      (
        record {
          named = ground (arith, named');
          carrier = is_tcp_or_udp-eq-true f.protocol (check-eq-empty _ _ carrier);
          listens = split_and_validate-eq-none f.listen false (check_error-eq-empty _ _ listens);
          serves = ground (arith, serves');
        },
        mem-eq-false f.name seen (check-eq-empty _ _ fresh),
      )

  pub validate_forwards-eq-empty :
      (seen : List Bytes) (fs : List Forward)
      → (validate_forwards text seen fs).1 ≡ []
      → All IsForward (validate_forwards text seen fs).0
        × Distinct seen (names (validate_forwards text seen fs).0)
  unfolding validate_forwards lower_forward Distinct
  validate_forwards-eq-empty seen [] h = (tt, tt)
  validate_forwards-eq-empty seen (f ∷ fs) h =
      let (here, later) = append-eq-empty _ _ h in
      let (good, fresh) = check_forward-eq-empty seen (lower_forward text f) here in
      let (goods, distinct) = validate_forwards-eq-empty (f.name ∷ seen) fs later in
      ((good, goods), (fresh, distinct))
