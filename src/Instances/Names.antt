-- ===== src/Instances/Names.antt =====
-- internal/admin/admin.go: the names of instances, and the files that they stand for.
use unknowntunnel.Prelude.{
  ℕ, zero, suc, ◌+◌, ◌≡◌, ◌≢◌, ◌⊎◌, inl, inr, sym, ap, refl, ◌∙◌, subst, Bool, true, false, List,
  All, All-imp, [], ◌∷◌, ◌++◌, append_assoc, Bytes, bytes_eq, bytes_eq_iff, codes, Option, none,
  some, get_elem?, Map, bytes_key, lookup, ℤ, pos, negsuc, Option-cases, Bool-cases, arith,
}
use unknowntunnel.Config.{valid_identifier, mem}
use unknowntunnel.Config.Valid.{All-mem}
use unknowntunnel.Site.{Site, Host, Answer, done, failed, forever, ◌>>=◌, pure, no_instances}
use unknowntunnel.Site.Files.{bind-eq-done}
use unknowntunnel.Console.{prompt}
use unknowntunnel.Console.Loops.Returns.{Returns, repeat-Returns, failed-Returns}
use unknowntunnel.Instances.{
  strip_prefix, strip_suffix, text_le, insert_sorted, sort, keys, instance_of, instances_of,
  instances, numbered_name, selected, select_from, select_instance, interface_used, free_interface,
  next_interface,
}

strip_prefix-append :
    (prefix bs rest : Bytes) → strip_prefix prefix bs ≡ some rest → bs ≡ prefix ++ rest
unfolding strip_prefix
strip_prefix-append [] bs rest h = ground (arith, h)
strip_prefix-append (p ∷ ps) [] rest h = cc
strip_prefix-append (p ∷ ps) (b ∷ bs) rest h = ground (arith, h, strip_prefix-append ps bs rest)

strip_suffix-append :
    (suffix bs name : Bytes) → strip_suffix suffix bs ≡ some name → bs ≡ name ++ suffix
unfolding strip_suffix
strip_suffix-append suffix [] name h = ground (arith, h, bytes_eq_iff suffix [])
strip_suffix-append suffix (b ∷ bs) name h = elim (Bool-cases (bytes_eq (b ∷ bs) suffix)) [
  | inl e ↦ ground (arith, h, e, bytes_eq_iff (b ∷ bs) suffix)
  | inr e ↦ elim (Option-cases (strip_suffix suffix bs)) [
    | inl q ↦ absurd (ground (arith, h, e, q))
    | inr (rest, q) ↦
        let is : b ∷ rest ≡ name = ground (arith, h, e, q) in
        ap (◌∷◌ b) (strip_suffix-append suffix bs rest q) ∙ ap (λ n. n ++ suffix) is
  ]
]

-- What holds of each element holds of the sorted ones.
module _ (P : Bytes → Type 0) where
  All-insert_sorted : (x : Bytes) (xs : List Bytes) → P x → All P xs → All P (insert_sorted x xs)
  unfolding insert_sorted
  All-insert_sorted x [] p ps = (p, tt)
  All-insert_sorted x (y ∷ ys) p ps = elim (Bool-cases (text_le x y)) [
    | inl e ↦ rw (e) (p, ps)
    | inr e ↦ rw (e) (ps.0, All-insert_sorted x ys p ps.1)
  ]

  All-sort : (xs : List Bytes) → All P xs → All P (sort xs)
  unfolding sort
  All-sort [] ps = tt
  All-sort (x ∷ xs) ps = All-insert_sorted x (sort xs) ps.0 (All-sort xs ps.1)

  All-get_elem? : (xs : List Bytes) (i : ℕ) (x : Bytes) → All P xs → get_elem? xs i ≡ some x → P x
  All-get_elem? [] i x ps h = cc
  All-get_elem? (y ∷ ys) zero x ps h = subst P (ground (arith, h)) ps.0
  All-get_elem? (y ∷ ys) (suc i) x ps h = All-get_elem? ys i x ps.1 h

-- The path of an instance, as the directory lists it.
abbrev pub listed_path : Site → Bytes → Bytes
listed_path site name = site.clean site.config_dir ++ codes "/" ++ name ++ codes ".json"

-- A name that stands for a configuration file of the directory.
pub record IsInstance (site : Site) (files : Map Bytes Bytes) (name : Bytes) : Type 0 where
  pub valid : valid_identifier name ≡ true
  pub has_file : lookup (listed_path site name) files ≢ none

module _ (site : Site) where
  instance_of-eq-some :
      (path name : Bytes)
      → instance_of site path ≡ some name
      → (valid_identifier name ≡ true) × (path ≡ listed_path site name)
  unfolding instance_of
  instance_of-eq-some path name h =
      elim (Option-cases (strip_prefix (site.clean site.config_dir ++ codes "/") path)) [
        | inl e ↦ absurd (ground (arith, h, e))
        | inr (base, e) ↦ elim (Option-cases (strip_suffix (codes ".json") base)) [
          | inl q ↦ absurd (ground (arith, h, e, q))
          | inr (inner, q) ↦
              let valid : valid_identifier inner ≡ true = ground (arith, h, e, q) in
              let is : inner ≡ name = ground (arith, h, e, q) in
              (
                ap valid_identifier (sym is) ∙ valid,
                strip_prefix-append (site.clean site.config_dir ++ codes "/") path base e
                    ∙ ap (◌++◌ (site.clean site.config_dir ++ codes "/"))
                        (strip_suffix-append (codes ".json") base inner q)
                    ∙ sym (
                        append_assoc (site.clean site.config_dir ++ codes "/") inner
                          (codes ".json"))
                    ∙ ap (λ n. site.clean site.config_dir ++ codes "/" ++ n ++ codes ".json") is,
              )
        ]
      ]

  All-keys : (files : Map Bytes Bytes) → All (λ path. lookup path files ≢ none) (keys files)
  unfolding keys lookup
  All-keys [] = tt
  All-keys ((path, content) ∷ files) = (
    λ e. absurd (ground (arith, e, bytes_eq_iff path path)),
    All-imp (λ k there e. absurd (ground (arith, e, there))) (keys files) (All-keys files),
  )

  All-instances_of :
      (files : Map Bytes Bytes) (paths : List Bytes)
      → All (λ path. lookup path files ≢ none) paths
      → All (IsInstance site files) (instances_of site paths)
  unfolding instances_of
  All-instances_of files [] ps = tt
  All-instances_of files (path ∷ paths) ps = elim (Option-cases (instance_of site path)) [
    | inl e ↦ rw (e, instances_of) (All-instances_of files paths ps.1)
    | inr (name, e) ↦
        let (valid, same) = instance_of-eq-some path name e in
        rw (e, instances_of)
          (
            record { valid = valid; has_file = subst (λ p. lookup p files ≢ none) same ps.0 },
            All-instances_of files paths ps.1,
          )
  ]

  All-instances : (files : Map Bytes Bytes) → All (IsInstance site files) (instances site files)
  unfolding instances
  All-instances files =
      All-sort (IsInstance site files) (instances_of site (keys files))
        (All-instances_of files (keys files) (All-keys files))

  All-numbered_name :
      (P : Bytes → Type 0) (names : List Bytes) (n : Option ℤ) (name : Bytes)
      → All P names
      → numbered_name site names n ≡ some name
      → P name
  unfolding numbered_name
  All-numbered_name P names none name ps h = cc
  All-numbered_name P names (some (negsuc n)) name ps h = cc
  All-numbered_name P names (some (pos zero)) name ps h = cc
  All-numbered_name P names (some (pos (suc n))) name ps h = All-get_elem? P names n name ps h

  All-selected :
      (P : Bytes → Type 0) (names : List Bytes) (value name : Bytes)
      → All P names
      → selected site names value ≡ some name
      → P name
  unfolding selected
  All-selected P names value name ps h =
      elim (Option-cases (numbered_name site names (site.text.atoi value))) [
        | inl e ↦
            let is : value ≡ name = ground (arith, h, e) in
            let there : mem value names ≡ true = ground (arith, h, e) in
            subst P is (All-mem P value names there ps)
        | inr (other, e) ↦
            let is : other ≡ name = ground (arith, h, e) in
            subst P is (All-numbered_name P names (site.text.atoi value) other ps e)
      ]

  value_of : Answer (Option Bytes) → Option Bytes
  value_of (done v h) = v
  value_of (failed e h) = none
  value_of forever = none

  select_from-Returns :
      (P : Bytes → Type 0) (names : List Bytes)
      → All P names
      → (h : Host) → Returns P (select_from site names h)
  unfolding select_from value_of
  select_from-Returns P [] ps h = failed-Returns P no_instances h
  select_from-Returns P (name ∷ names) ps h =
      repeat-Returns P (prompt site [] >>= λ value. pure (selected site (name ∷ names) value))
        (λ h h' a q.
          let (value, h1, e, q1) =
            bind-eq-done (prompt site [] h) (λ value. pure (selected site (name ∷ names) value))
              q in
          All-selected P (name ∷ names) value a ps (ap value_of q1))
        h

  -- A name that is selected is a valid identifier and has a configuration file.
  pub select_instance-Returns :
      (h : Host) → Returns (IsInstance site h.files) (select_instance site h)
  unfolding select_instance
  select_instance-Returns h =
      select_from-Returns (IsInstance site h.files) (instances site h.files) (All-instances h.files)
        h

  abbrev IsFreeOrFirst : Map Bytes Bytes → Bytes → Bytes → Type 0
  IsFreeOrFirst files excluded name =
      (interface_used site files excluded name ≡ false) ⊎ (name ≡ codes "utun0")

  first_free :
      (files : Map Bytes Bytes) (excluded name later : Bytes) (b : Bool)
      → interface_used site files excluded name ≡ b
      → IsFreeOrFirst files excluded later
      → IsFreeOrFirst files excluded (elim b [ true ↦ later | false ↦ name ])
  first_free files excluded name later true e l = l
  first_free files excluded name later false e l = inl e

  free_interface-free :
      (files : Map Bytes Bytes) (excluded : Bytes) (left number : ℕ)
      → IsFreeOrFirst files excluded (free_interface site files excluded left number)
  unfolding free_interface
  free_interface-free files excluded zero number = inr refl
  free_interface-free files excluded (suc left) number =
      let name = codes "utun" ++ site.itoa (pos number) in
      first_free files excluded name (free_interface site files excluded left (number + 1))
        (interface_used site files excluded name) refl
        (free_interface-free files excluded left (number + 1))

  -- The proposed interface is not used by another instance, unless it is the first of all.
  pub next_interface-free :
      (files : Map Bytes Bytes) (excluded : Bytes)
      → (interface_used site files excluded (next_interface site files excluded) ≡ false)
        ⊎ (next_interface site files excluded ≡ codes "utun0")
  unfolding next_interface
  next_interface-free files excluded = free_interface-free files excluded 1000 0
