-- ===== src/Instances/Shared.antt =====
-- internal/admin/admin.go, `instances` and `secretReferencedElsewhere`: a tunnel of the directory is found.
use unknowntunnel.Prelude.{
  ℕ, ◌≡◌, ◌≢◌, sym, ap, refl, ◌∙◌, subst, Bool, true, false, ◌||◌, List, [], ◌∷◌, ◌++◌, Bytes,
  bytes_eq, bytes_eq_iff, bytes_eq_self, append_assoc, codes, none, some, length, length-append,
  Map, bytes_key, lookup, lookup-remove, remove, ok, err, Option-cases, Bool-cases, inl, inr, arith,
}
use unknowntunnel.Config.{Config, valid_identifier, mem}
use unknowntunnel.Site.{Site, load_from}
use unknowntunnel.Instances.{
  strip_prefix, strip_suffix, insert_sorted, sort, keys, config_path, instance_of, instances_of,
  instances, any_other, secret_referenced_elsewhere,
}
use unknowntunnel.Instances.Names.{listed_path}

strip_prefix_back : (prefix rest : Bytes) → strip_prefix prefix (prefix ++ rest) ≡ some rest
unfolding strip_prefix
strip_prefix_back [] rest = refl
strip_prefix_back (p ∷ ps) rest = ground (arith, strip_prefix_back ps rest)

longer : (b : ℕ) (name suffix : Bytes) → bytes_eq (b ∷ (name ++ suffix)) suffix ≡ false
longer b name suffix = elim (Bool-cases (bytes_eq (b ∷ (name ++ suffix)) suffix)) [
  | inl e ↦ absurd (
      omega (
        arith,
        ap length ((bytes_eq_iff (b ∷ (name ++ suffix)) suffix).0 e),
        length-append name suffix,
      ))
  | inr e ↦ e
]

strip_suffix_back : (name suffix : Bytes) → strip_suffix suffix (name ++ suffix) ≡ some name
unfolding strip_suffix bytes_eq
strip_suffix_back [] [] = refl
strip_suffix_back [] (s ∷ suffix) = ground (arith, bytes_eq_self (s ∷ suffix))
strip_suffix_back (b ∷ name) suffix =
    ground (arith, longer b name suffix, strip_suffix_back name suffix)

mem-insert_sorted :
    (x y : Bytes) (ys : List Bytes) → mem x (y ∷ ys) ≡ true → mem x (insert_sorted y ys) ≡ true
unfolding insert_sorted mem
mem-insert_sorted x y [] h = h
mem-insert_sorted x y (z ∷ ys) h = ground (arith, h, mem-insert_sorted x y ys)

mem-sort : (x : Bytes) (xs : List Bytes) → mem x xs ≡ true → mem x (sort xs) ≡ true
unfolding sort mem
mem-sort x [] h = h
mem-sort x (y ∷ ys) h = mem-insert_sorted x y (sort ys) (ground (arith, h, mem-sort x ys))

mem-keys :
    (path : Bytes) (files : Map Bytes Bytes)
    → lookup path files ≢ none
    → mem path (keys files) ≡ true
unfolding keys mem lookup
mem-keys path [] h = absurd (h refl)
mem-keys path ((k, v) ∷ files) h = ground (arith, h, mem-keys path files)

or-true : (a b : Bool) → b ≡ true → (a || b) ≡ true
or-true true b h = refl
or-true false b h = h

module _ (site : Site) where
  instance_of_back :
      (name : Bytes)
      → valid_identifier name ≡ true
      → instance_of site (listed_path site name) ≡ some name
  unfolding instance_of
  instance_of_back name valid =
      let dir = site.clean site.config_dir ++ codes "/" in
      ap (instance_of site) (append_assoc dir name (codes ".json"))
      ∙ rw (strip_prefix_back dir (name ++ codes ".json"), instance_of)
          (rw (strip_suffix_back name (codes ".json")) (rw (valid) refl))

  mem-instances_of :
      (path name : Bytes) (paths : List Bytes)
      → instance_of site path ≡ some name
      → mem path paths ≡ true
      → mem name (instances_of site paths) ≡ true
  unfolding instances_of mem
  mem-instances_of path name [] e h = cc
  mem-instances_of path name (p ∷ paths) e h = elim (Bool-cases (bytes_eq p path)) [
    | inl same ↦
        let is : instance_of site p ≡ some name =
          ap (instance_of site) ((bytes_eq_iff p path).0 same) ∙ e in
        rw (is, instances_of) (ground (arith, bytes_eq_self name))
    | inr differ ↦
        let there : mem path paths ≡ true = ground (arith, h, differ) in
        let ih = mem-instances_of path name paths e there in
        elim (Option-cases (instance_of site p)) [
          | inl q ↦ rw (q, instances_of) ih
          | inr (other, q) ↦ rw (q, instances_of) (ground (arith, ih))
        ]
  ]

  mem-instances :
      (files : Map Bytes Bytes) (name : Bytes)
      → valid_identifier name ≡ true
      → lookup (listed_path site name) files ≢ none
      → mem name (instances site files) ≡ true
  unfolding instances
  mem-instances files name valid there = mem-sort name (instances_of site (keys files)) (
      mem-instances_of (listed_path site name) name (keys files) (instance_of_back name valid)
        (mem-keys (listed_path site name) files there))

  module _ (test : Config → Bool) (files : Map Bytes Bytes) (excluded : Bytes) where
    any_other_later :
        (name : Bytes) (names : List Bytes)
        → any_other site test files excluded names ≡ true
        → any_other site test files excluded (name ∷ names) ≡ true
    unfolding any_other
    any_other_later name names h = elim (Bool-cases (bytes_eq name excluded)) [
      | inl e ↦ rw (e, any_other) h
      | inr e ↦
          rw (e, any_other)
            (elim (load_from site files (config_path site name))
              as (λ r.
                (elim r [
                  | err _ ↦ any_other site test files excluded names
                  | ok config ↦ test config || any_other site test files excluded names
                ])
                ≡ true) [ err x ↦ h | ok config ↦ or-true (test config) _ h ])
    ]

    any_other_here :
        (name : Bytes) (names : List Bytes) (config : Config)
        → name ≢ excluded
        → load_from site files (config_path site name) ≡ ok config
        → test config ≡ true
        → any_other site test files excluded (name ∷ names) ≡ true
    unfolding any_other
    any_other_here name names config differ loads passes =
        let other : bytes_eq name excluded ≡ false =
          ground (arith, differ, bytes_eq_iff name excluded) in
        rw (other, any_other) (rw (loads) (rw (passes) refl))

    any_other-true :
        (name : Bytes) (config : Config) (names : List Bytes)
        → mem name names ≡ true
        → name ≢ excluded
        → load_from site files (config_path site name) ≡ ok config
        → test config ≡ true
        → any_other site test files excluded names ≡ true
    unfolding mem
    any_other-true name config [] h differ loads passes = cc
    any_other-true name config (n ∷ names) h differ loads passes =
        elim (Bool-cases (bytes_eq n name)) [
          | inl e ↦
              subst (λ x. any_other site test files excluded (x ∷ names) ≡ true)
                (sym ((bytes_eq_iff n name).0 e))
                (any_other_here name names config differ loads passes)
          | inr e ↦
              any_other_later n names
                (any_other-true name config names (ground (arith, h, e)) differ loads passes)
        ]

  -- Another tunnel that uses the secret of a path: its name is one of the directory's, its file is
  -- where the directory lists it, and its configuration loads and names the secret.
  pub record IsSharedBy (files : Map Bytes Bytes) (path excluded other : Bytes) : Type 0 where
    pub valid : valid_identifier other ≡ true
    pub different : other ≢ excluded
    pub placed : site.clean (config_path site other) ≡ listed_path site other
    pub apart : site.clean (config_path site other) ≢ site.clean (config_path site excluded)
    pub config : Config
    pub loads : load_from site files (config_path site other) ≡ ok config
    pub same : site.clean config.auth.secret_file ≡ site.clean path

  loads-file :
      (files : Map Bytes Bytes) (path : Bytes) (config : Config)
      → load_from site files path ≡ ok config
      → lookup (site.clean path) files ≢ none
  unfolding load_from
  loads-file files path config loads absent = ground (arith, loads, absent)

  -- The tunnel of `excluded` may lose its file: the other one is still found.
  pub secret_referenced_elsewhere-IsSharedBy :
      (files : Map Bytes Bytes) (path excluded other : Bytes)
      → IsSharedBy files path excluded other
      → secret_referenced_elsewhere site
          (remove (site.clean (config_path site excluded)) files)
          path
          excluded
        ≡ true
  unfolding secret_referenced_elsewhere load_from
  secret_referenced_elsewhere-IsSharedBy files path excluded other s =
      let left = remove (site.clean (config_path site excluded)) files in
      let at = site.clean (config_path site other) in
      let kept : lookup at left ≡ lookup at files = ground (
        arith,
        s.apart,
        lookup-remove (site.clean (config_path site excluded)) at files,
        bytes_eq_iff (site.clean (config_path site excluded)) at,
      ) in
      let loads : load_from site left (config_path site other) ≡ ok s.config =
        rw (kept, load_from) s.loads in
      let listed = mem-instances left other s.valid (
        subst (λ p. lookup p left ≢ none) s.placed
          (loads-file left (config_path site other) s.config loads)) in
      any_other-true (λ config. bytes_eq (site.clean config.auth.secret_file) (site.clean path))
        left excluded other s.config (instances site left) listed s.different loads
        ((bytes_eq_iff (site.clean s.config.auth.secret_file) (site.clean path)).1 s.same)
