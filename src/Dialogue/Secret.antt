-- ===== src/Dialogue/Secret.antt =====
-- internal/admin/admin.go, `configureSecret`.
pub mod Ready
use unknowntunnel.Prelude.{
  Bool, true, false, not, ltb, [], ◌∷◌, ◌++◌, Bytes, bytes_eq, codes, if◌then◌else◌, length,
  bytes_key,
}
use unknowntunnel.Site.{
  choose, Site, Console, ◌>>=◌, ◌>>◌, pure, fail, refuse_if, from_option, short_secret, cancelled,
  no_randomness, unsupported, min_secret, write_secret, read_secret, file_exists,
}
use unknowntunnel.Console.{read_line, value_or, prompt_required, yes_no, choice}

module _ (site : Site) where
  -- The four actions on the secret: the path of its file, and the secret that was made, if one was.
  pub keep_secret : Bytes → Console (Bytes × Bytes)
  keep_secret path = do read_secret site path; pure (path, [])

  pub use_file : Bytes → Console (Bytes × Bytes)
  use_file old = do path ← prompt_required site old; read_secret site path; pure (path, [])

  pub paste_secret : Bytes → Console (Bytes × Bytes)
  paste_secret default_path = do
    line ← read_line
    let secret = site.text.trim_space line
    refuse_if (ltb (length (site.text.trim_space secret)) min_secret) short_secret
    path ← prompt_required site default_path
    write_secret site path (site.text.trim_space secret) true
    pure (path, [])

  unfoldable pub confirm_overwrite : Bool → Console (Unit {0})
  unfolding choose
  confirm_overwrite present = do
    overwrite ← choose present (yes_no site false) (pure true)
    refuse_if (not overwrite) cancelled

  unfoldable pub generate_secret : Bytes → Console (Bytes × Bytes)
  unfolding confirm_overwrite
  generate_secret default_path = do
    secret ← from_option site.random_secret no_randomness
    path ← prompt_required site default_path
    present ← file_exists site path
    confirm_overwrite present
    write_secret site path secret true
    pure (path, secret)

  unfoldable pub secret_action : Bytes → Bytes → Bytes → Console (Bytes × Bytes)
  unfolding keep_secret use_file paste_secret generate_secret
  secret_action action old default_path =
      if bytes_eq action (codes "keep")
      then keep_secret old
      else if bytes_eq action (codes "file")
      then use_file old
      else if bytes_eq action (codes "paste")
      then paste_secret default_path
      else if bytes_eq action (codes "generate")
      then generate_secret default_path
      else fail unsupported

  -- `configureSecret`.
  unfoldable pub configure_secret : Bytes → Bytes → Bool → Console (Bytes × Bytes)
  unfolding secret_action
  configure_secret instance_name secret_file editing = do
    let default_path = site.clean (site.config_dir ++ codes "/" ++ instance_name ++ codes ".key")
    let actions = codes "generate" ∷ codes "paste" ∷ codes "file" ∷ []
    action ←
        choice site (if editing then codes "keep" ∷ actions else actions)
          (if editing then codes "keep" else codes "generate")
    secret_action action (value_or secret_file default_path) default_path
