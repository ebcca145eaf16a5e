-- ===== src/Instances.antt =====
-- internal/admin/admin.go, the instances of the tunnel: the configuration files of one directory.
-- Two paths are one file exactly if `filepath.Clean` makes them equal.
pub mod Names
pub mod Shared
use unknowntunnel.Prelude.{
  ℕ, zero, suc, ◌+◌, Bool, true, false, not, ◌&&◌, ◌||◌, ltb, leb, ◌==◌, List, [], ◌∷◌, ◌++◌, Bytes,
  bytes_eq, codes, Option, none, some, if◌then◌else◌, length, get_elem?, Map, bytes_key, lookup, ℤ,
  pos, negsuc, Result, ok, err,
}
use unknowntunnel.Config.{Text, Config, Service, valid_identifier, mem, between}
use unknowntunnel.Site.{
  Site, Host, Answer, done, failed, forever, Console, bind, ◌>>=◌, ◌>>◌, pure, fail, refuse_if,
  from_option, get_files, load_from, Error, no_instances,
}
use unknowntunnel.Console.{repeat, return_if, prompt}

pub strip_prefix : Bytes → Bytes → Option Bytes
strip_prefix [] bs = some bs
strip_prefix (p ∷ ps) [] = none
strip_prefix (p ∷ ps) (b ∷ bs) = let rest = strip_prefix ps bs in if p == b then rest else none

pub strip_suffix : Bytes → Bytes → Option Bytes
strip_suffix suffix [] = if bytes_eq suffix [] then some [] else none
strip_suffix suffix (b ∷ bs) =
    let rest = strip_suffix suffix bs in
    if bytes_eq (b ∷ bs) suffix
    then some []
    else elim rest [ none ↦ none | some name ↦ some (b ∷ name) ]

-- The order of `sort.Strings`.
pub text_le : Bytes → Bytes → Bool
text_le [] bs = true
text_le (a ∷ more) [] = false
text_le (a ∷ more) (b ∷ bs) = let rest = text_le more bs in ltb a b || ((a == b) && rest)

pub insert_sorted : Bytes → List Bytes → List Bytes
insert_sorted x [] = x ∷ []
insert_sorted x (y ∷ ys) =
    let rest = insert_sorted x ys in if text_le x y then x ∷ y ∷ ys else y ∷ rest

pub sort : List Bytes → List Bytes
sort [] = []
sort (x ∷ xs) = insert_sorted x (sort xs)

pub keys : {V : Type 0} → Map Bytes V → List Bytes
keys [] = []
keys ((k, v) ∷ m) = k ∷ keys m

pub sorted_service_names : Map Bytes Service → List Bytes
unfolding sort keys
sorted_service_names services = sort (keys services)

module _ (site : Site) where
  unfoldable pub config_path : Bytes → Bytes
  config_path instance_name =
      site.clean (site.config_dir ++ codes "/" ++ instance_name ++ codes ".json")

  pub unit : Bytes → Bytes
  unit instance_name = codes "unknowntunnel@" ++ instance_name ++ codes ".service"

  -- The name of the instance whose configuration a path is.
  pub instance_of : Bytes → Option Bytes
  unfolding strip_prefix strip_suffix
  instance_of path = elim (strip_prefix (site.clean site.config_dir ++ codes "/") path) [
    | none ↦ none
    | some base ↦ elim (strip_suffix (codes ".json") base) [
      | none ↦ none
      | some name ↦ return_if (valid_identifier name) name
    ]
  ]

  pub instances_of : List Bytes → List Bytes
  unfolding instance_of
  instances_of [] = []
  instances_of (path ∷ paths) =
      let rest = instances_of paths in
      elim (instance_of path) [ none ↦ rest | some name ↦ name ∷ rest ]

  -- `instances`, of what the directory holds.
  pub instances : Map Bytes Bytes → List Bytes
  unfolding instances_of sort keys
  instances files = sort (instances_of (keys files))

  -- The name at a number from 1 on.
  pub numbered_name : List Bytes → Option ℤ → Option Bytes
  numbered_name names none = none
  numbered_name names (some (negsuc n)) = none
  numbered_name names (some (pos zero)) = none
  numbered_name names (some (pos (suc n))) = get_elem? names n

  pub selected : List Bytes → Bytes → Option Bytes
  unfolding numbered_name
  selected names value = elim (numbered_name names (site.text.atoi value)) [
    | some name ↦ some name
    | none ↦ return_if (valid_identifier value && mem value names) value
  ]

  pub select_from : List Bytes → Console Bytes
  unfolding selected
  select_from [] = fail no_instances
  select_from (name ∷ names) =
      repeat (do value ← prompt site []; pure (selected (name ∷ names) value))

  pub select_instance : Console Bytes
  unfolding instances select_from
  select_instance = do files ← get_files; select_from (instances files)

  -- Whether another instance of the list satisfies a test on its configuration.
  pub any_other : (Config → Bool) → Map Bytes Bytes → Bytes → List Bytes → Bool
  any_other test files excluded [] = false
  any_other test files excluded (name ∷ names) =
      let rest = any_other test files excluded names in
      if bytes_eq name excluded then rest else elim (load_from site files (config_path name)) [
        | err _ ↦ rest
        | ok config ↦ test config || rest
      ]

  pub secret_referenced_elsewhere : Map Bytes Bytes → Bytes → Bytes → Bool
  unfolding any_other
  secret_referenced_elsewhere files path excluded =
      any_other (λ config. bytes_eq (site.clean config.auth.secret_file) (site.clean path)) files
        excluded (instances files)

  pub interface_used : Map Bytes Bytes → Bytes → Bytes → Bool
  unfolding any_other
  interface_used files excluded name =
      any_other (λ config. bytes_eq config.l3.interface_name name) files excluded (instances files)

  -- From `number` on, the first name that is free among so many.
  pub free_interface : Map Bytes Bytes → Bytes → ℕ → ℕ → Bytes
  unfolding interface_used
  free_interface files excluded zero number = codes "utun0"
  free_interface files excluded (suc left) number =
      let name = codes "utun" ++ site.itoa (pos number) in
      elim (interface_used files excluded name) [
        | true ↦ free_interface files excluded left (number + 1)
        | false ↦ name
      ]

  pub next_interface : Map Bytes Bytes → Bytes → Bytes
  unfolding free_interface
  next_interface files excluded = free_interface files excluded 1000 0
