-- ===== src/Site.antt =====
-- internal/config/config.go, the files of a configuration and of its secret, and internal/admin/admin.go,
-- `Manager`: what the console reads and changes. What it prints is not kept.
pub mod Files
use unknowntunnel.Prelude.{
  ℕ, ◌+◌, Bool, true, false, not, ◌&&◌, ltb, List, [], ◌∷◌, ◌++◌, Bytes, codes, Option, none, some,
  if◌then◌else◌, length, Map, bytes_key, lookup, insert, remove, Result, ok, err, ℤ,
}
use unknowntunnel.Config.{Text, Config, ConfigError, AddressError, validate}

pub data Error : Type 0 where
  not_root read_failed invalid_instance already_exists no_config unparsable cannot_write : Error
  invalid : List ConfigError → Error
  no_secret short_secret large_secret secret_exists no_randomness cancelled unsupported : Error
  cannot_remove : Error
  duplicate_name bad_route : Bytes → Error
  no_instances command_failed : Error

-- What the program finds outside: Go's text functions and `strconv.Itoa`, the JSON encoder and the two
-- decodes of `Load`, the paths that can be written and those whose file can be removed, `filepath.Clean`, the user, the directory, what `randomSecret` returns,
-- and the exit code of a command after those before it, which is not 0 where it could not be started.
pub record Site : Type 0 where
  pub text : Text
  pub itoa : ℤ → Bytes
  pub marshal : Config → Bytes
  pub unmarshal : Bytes → Option Config
  pub can_write : Bytes → Bool
  pub can_remove : Bytes → Bool
  pub clean : Bytes → Bytes
  pub root : Bool
  pub config_dir : Bytes
  pub random_secret : Option Bytes
  pub exit_code : List (List Bytes) → List Bytes → ℕ

-- The lines still to be read, where `none` is a read that fails; the files by their clean path, and the
-- commands that were run, oldest first, but those that only fetch what is printed.
pub record Host : Type 0 where
  pub input : List (Option Bytes)
  pub files : Map Bytes Bytes
  pub calls : List (List Bytes)

-- A call of the console returns, fails, or waits in a loop that no line will end.
pub data Answer (A : Type 0) : Type 0 where
  done : A → Host → Answer A
  failed : Error → Host → Answer A
  forever : Answer A

abbrev pub Console : Type 0 → Type 0
Console A = Host → Answer A

abbrev pub bind : {A B : Type 0} → Answer A → (A → Console B) → Answer B
bind (done a h) f = f a h
bind (failed e h) f = failed e h
bind forever f = forever

infixl 5 ◌>>=◌ ◌>>◌
abbrev pub ◌>>=◌ : {A B : Type 0} → Console A → (A → Console B) → Console B
(m >>= f) h = bind (m h) f

abbrev pub ◌>>◌ : {A B : Type 0} → Console A → Console B → Console B
m >> k = m >>= λ _. k

abbrev pub pure : {A : Type 0} → A → Console A
pure a h = done a h

abbrev pub fail : {A : Type 0} → Error → Console A
fail e h = failed e h

-- `if bad { return err }`.
abbrev pub refuse_if : Bool → Error → Console (Unit {0})
refuse_if true e h = failed e h
refuse_if false e h = done tt h

abbrev pub get_files : Console (Map Bytes Bytes)
get_files h = done h.files h

abbrev pub put_file : Bytes → Bytes → Console (Unit {0})
put_file path content h = done tt (record h { files = insert path content h.files })

abbrev pub drop_file : Bytes → Console (Unit {0})
drop_file path h = done tt (record h { files = remove path h.files })

unfoldable pub choose : {A : Type 0} → Bool → Console A → Console A → Console A
choose true m k = m
choose false m k = k

abbrev pub from_option : {A : Type 0} → Option A → Error → Console A
from_option none e h = failed e h
from_option (some a) e h = done a h

abbrev pub from_result : {A : Type 0} → Result Error A → Console A
from_result (err e) h = failed e h
from_result (ok a) h = done a h

abbrev pub min_secret : ℕ
min_secret = 32

abbrev pub max_secret : ℕ
max_secret = 4096

unfoldable pub exists_in : Bytes → Map Bytes Bytes → Bool
exists_in path files = elim (lookup path files) [ none ↦ false | some _ ↦ true ]

module _ (site : Site) where
  -- A configuration that Validate left without errors, as it left it.
  unfoldable pub accepted : Config × List ConfigError → Result Error Config
  accepted (c, []) = ok c
  accepted (c, e ∷ es) = err (invalid (e ∷ es))

  unfoldable pub load_from : Map Bytes Bytes → Bytes → Result Error Config
  unfolding accepted
  load_from files path = elim (lookup (site.clean path) files) [
    | none ↦ err no_config
    | some content ↦ elim (site.unmarshal content) [
      | none ↦ err unparsable
      | some config ↦ accepted (validate site.text config)
    ]
  ]

  -- `Load`.
  unfoldable pub load : Bytes → Console Config
  unfolding load_from
  load path = do files ← get_files; from_result (load_from files path)

  -- `Save`. The file is replaced as a whole.
  pub save : Bytes → Config → Console (Unit {0})
  unfolding accepted
  save path config = do
    checked ← from_result (accepted (validate site.text config))
    refuse_if (not (site.can_write path)) cannot_write
    put_file (site.clean path) (site.marshal checked ++ codes "\n")

  -- The check that both secret functions make of the trimmed text.
  unfoldable pub check_secret : Bytes → Console (Unit {0})
  check_secret secret = do
    refuse_if (ltb (length secret) min_secret) short_secret
    refuse_if (ltb max_secret (length secret)) large_secret

  -- `os.Stat` without an error.
  unfoldable pub file_exists : Bytes → Console Bool
  unfolding exists_in
  file_exists path = do files ← get_files; pure (exists_in (site.clean path) files)

  -- `os.Remove`; a file that is not there is no error to its callers.
  unfoldable pub remove_file : Bytes → Console (Unit {0})
  unfolding file_exists
  remove_file path = do
    present ← file_exists path
    refuse_if (present && not (site.can_remove path)) cannot_remove
    drop_file (site.clean path)

  unfoldable pub refuse_existing : Bool → Bytes → Console (Unit {0})
  unfolding file_exists
  refuse_existing true path = pure tt
  refuse_existing false path = do present ← file_exists path; refuse_if present secret_exists

  -- `WriteSecret`.
  unfoldable pub write_secret : Bytes → Bytes → Bool → Console (Unit {0})
  unfolding check_secret refuse_existing
  write_secret path secret overwrite = do
    check_secret (site.text.trim_space secret)
    refuse_existing overwrite path
    refuse_if (not (site.can_write path)) cannot_write
    put_file (site.clean path) (site.text.trim_space secret ++ codes "\n")

  -- `ReadSecret`.
  pub read_secret : Bytes → Console Bytes
  unfolding check_secret
  read_secret path = do
    files ← get_files
    content ← from_option (lookup (site.clean path) files) no_secret
    check_secret (site.text.trim_space content)
    pure (site.text.trim_space content)
