-- ===== src/Admin.antt =====
-- internal/admin/admin.go, the commands of the console, and the commands of cmd/unknowntunnel/main.go
-- that work on files. Flags are parsed by Go's library.
pub mod Removal
pub mod Safety
pub mod Tests
pub mod Saved
use unknowntunnel.Prelude.{
  ℕ, ◌+◌, Bool, true, false, not, ◌&&◌, ◌||◌, ◌==◌, List, [], ◌∷◌, ◌++◌, Bytes, bytes_eq, codes,
  Option, none, some, if◌then◌else◌, Map, bytes_key, lookup, ℤ, pos, negsuc, Result, ok, err,
}
use unknowntunnel.Config.{Text, Config, valid_identifier, mem}
use unknowntunnel.Site.{
  choose, Site, Host, Answer, done, failed, forever, Console, bind, ◌>>=◌, ◌>>◌, pure, fail,
  refuse_if, from_option, get_files, remove_file, file_exists, load, load_from, save, read_secret,
  write_secret, Error, not_root, invalid_instance, already_exists, no_config, unsupported,
  command_failed, no_randomness,
}
use unknowntunnel.Console.{repeat, prompt, prompt_identifier, yes_no}
use unknowntunnel.Instances.{
  config_path, unit, instances, select_instance, secret_referenced_elsewhere,
}
use unknowntunnel.Wizard.{wizard}

-- An error is reported, or ignored, and the program goes on.
abbrev pub attempt : {A : Type 0} → Console A → Console (Unit {0})
attempt m h = elim (m h) [ done _ h' ↦ done tt h' | failed _ h' ↦ done tt h' | forever ↦ forever ]

module _ (site : Site) where
  -- A command of the host, and its exit code.
  pub run : List Bytes → Console ℕ
  run args h = done (site.exit_code h.calls args) (record h { calls = h.calls ++ (args ∷ []) })

  pub run_systemctl : List Bytes → Console (Unit {0})
  unfolding run
  run_systemctl args = do
    code ← run (codes "systemctl" ∷ args)
    refuse_if (not (code == 0)) command_failed

  pub daemon_reload : Console (Unit {0})
  unfolding run_systemctl
  daemon_reload = run_systemctl (codes "daemon-reload" ∷ [])

  pub is_active : Bytes → Console Bool
  unfolding run
  is_active instance_name = do
    code ←
        run (codes "systemctl" ∷ codes "is-active" ∷ codes "--quiet" ∷ unit site instance_name ∷ [])
    pure (code == 0)

  pub enable_now : Bytes → Console (Unit {0})
  unfolding run_systemctl
  enable_now instance_name =
      run_systemctl (codes "enable" ∷ codes "--now" ∷ unit site instance_name ∷ [])

  pub actions : List Bytes
  actions = codes "start" ∷ codes "stop" ∷ codes "restart" ∷ codes "enable" ∷ codes "disable" ∷ []

  -- The exit code 3 says that the service is not running, and is no error.
  pub show_status : Bytes → Console (Unit {0})
  unfolding run
  show_status instance_name = do
    code ← run (
        codes "systemctl"
        ∷ codes "status"
        ∷ codes "--no-pager"
        ∷ codes "--full"
        ∷ unit site instance_name
        ∷ [])
    refuse_if (not ((code == 0) || (code == 3))) command_failed

  pub act : Bytes → Bytes → Console (Unit {0})
  unfolding run_systemctl actions show_status
  act instance_name action =
      if mem action actions
      then run_systemctl (action ∷ unit site instance_name ∷ [])
      else if bytes_eq action (codes "status")
      then show_status instance_name
      else fail unsupported

  -- `Service`.
  pub service : Bytes → Bytes → Console (Unit {0})
  unfolding act
  service instance_name action = do
    refuse_if (not site.root) not_root
    refuse_if (not (valid_identifier instance_name)) invalid_instance
    present ← file_exists site (config_path site instance_name)
    refuse_if (not present) no_config
    act instance_name action

  pub lines_or : ℤ → ℤ
  lines_or (pos n) = if n == 0 then pos 100 else pos n
  lines_or (negsuc n) = pos 100

  -- `Logs`.
  pub logs : Bytes → ℤ → Bool → Console (Unit {0})
  unfolding run lines_or
  logs instance_name lines follow = do
    refuse_if (not (valid_identifier instance_name)) invalid_instance
    let flags = if follow then codes "-f" ∷ [] else []
    code ← run (
        (codes "journalctl"
          ∷ codes "-u"
          ∷ unit site instance_name
          ∷ codes "--no-pager"
          ∷ codes "-n"
          ∷ site.itoa (lines_or lines)
          ∷ [])
        ++ flags)
    refuse_if (not (code == 0)) command_failed

  -- `Show`, up to the printing.
  pub show : Bytes → Console Config
  show instance_name = load site (config_path site instance_name)

  -- What a failed start of a new tunnel leads to.
  pub or_status : Bytes → Answer (Unit {0}) → Answer (Unit {0})
  unfolding service
  or_status instance_name (done tt h) = done tt h
  or_status instance_name (failed _ h) = attempt (service instance_name (codes "status")) h
  or_status instance_name forever = forever

  pub start_new : Bytes → Console (Unit {0})
  unfolding enable_now or_status
  start_new instance_name h = or_status instance_name (enable_now instance_name h)

  pub name_or_ask : Bytes → Console Bytes
  name_or_ask instance_name =
      choose (bytes_eq instance_name []) (prompt_identifier site (codes "tunnel1"))
        (pure instance_name)

  -- `Setup`.
  pub setup : Bytes → Console (Unit {0})
  unfolding name_or_ask daemon_reload start_new
  setup given = do
    refuse_if (not site.root) not_root
    instance_name ← name_or_ask given
    refuse_if (not (valid_identifier instance_name)) invalid_instance
    present ← file_exists site (config_path site instance_name)
    refuse_if present already_exists
    made ← wizard site instance_name none
    save site (config_path site instance_name) made.0
    daemon_reload
    start ← yes_no site true
    choose start (start_new instance_name) (pure tt)

  pub after_edit : Bytes → Bool → Console (Unit {0})
  unfolding service enable_now
  after_edit instance_name active = do
    agreed ← yes_no site active
    choose agreed
        (choose active (service instance_name (codes "restart")) (enable_now instance_name))
        (pure tt)

  -- `Edit`.
  pub edit : Bytes → Console (Unit {0})
  unfolding is_active after_edit
  edit instance_name = do
    refuse_if (not site.root) not_root
    current ← load site (config_path site instance_name)
    active ← is_active instance_name
    made ← wizard site instance_name (some current)
    save site (config_path site instance_name) made.0
    after_edit instance_name active

  pub check_instance : Bytes → Console (Unit {0})
  check_instance instance_name = do
    config ← load site (config_path site instance_name)
    read_secret site config.auth.secret_file
    pure tt

  -- The error of an instance, and those of all, as `errors.Join` takes them.
  pub fault : Bytes → Answer (Unit {0}) → List (Bytes × Error)
  fault instance_name (failed e _) = (instance_name, e) ∷ []
  fault instance_name _ = []

  pub check_all : List Bytes → Host → List (Bytes × Error)
  unfolding check_instance fault
  check_all [] h = []
  check_all (name ∷ names) h = fault name (check_instance name h) ++ check_all names h

  -- `ValidateAll`: the errors that are joined.
  pub validate_all : Host → List (Bytes × Error)
  unfolding check_all
  validate_all h = check_all (instances site h.files) h

  -- The answer on the secret of a deleted tunnel.
  pub ask_remove_secret : Bytes → Bool → Bytes → Console Bool
  ask_remove_secret instance_name force path = do
    files ← get_files
    choose (secret_referenced_elsewhere site files path instance_name || force) (pure false)
        (yes_no site false)

  pub remove_if : Bool → Bytes → Console (Unit {0})
  remove_if agreed path = choose agreed (attempt (remove_file site path)) (pure tt)

  pub delete_confirmed : Bytes → Bool → Config → Console (Unit {0})
  unfolding run_systemctl ask_remove_secret remove_if
  delete_confirmed instance_name force config = do
    attempt (run_systemctl (codes "disable" ∷ codes "--now" ∷ unit site instance_name ∷ []))
    remove_file site (config_path site instance_name)
    agreed ← ask_remove_secret instance_name force config.auth.secret_file
    remove_if agreed config.auth.secret_file

  -- `Delete`.
  pub delete : Bytes → Bool → Console (Unit {0})
  unfolding delete_confirmed
  delete instance_name force = do
    refuse_if (not site.root) not_root
    config ← load site (config_path site instance_name)
    sure ← choose force (pure true) (yes_no site false)
    choose sure (delete_confirmed instance_name force config) (pure tt)

  -- A choice of the menu on a selected tunnel.
  pub on_selected : (Bytes → Console (Unit {0})) → Console (Unit {0})
  on_selected command = do name ← select_instance site; command name

  pub menu_action : Bytes → Option Bytes
  menu_action choice =
      if bytes_eq choice (codes "4")
      then some (codes "start")
      else if bytes_eq choice (codes "5")
      then some (codes "stop")
      else if bytes_eq choice (codes "6")
      then some (codes "restart")
      else if bytes_eq choice (codes "7")
      then some (codes "enable")
      else if bytes_eq choice (codes "8")
      then some (codes "disable")
      else if bytes_eq choice (codes "9")
      then some (codes "status")
      else none

  -- The choices that end the program are not among these; those that only print change nothing.
  pub menu_command : Bytes → Console (Unit {0})
  unfolding menu_action on_selected setup edit service logs delete
  menu_command choice = elim (menu_action choice) [
    | some action ↦ on_selected (λ name. service name action)
    | none ↦
        if bytes_eq choice (codes "1")
        then setup []
        else if bytes_eq choice (codes "2")
        then on_selected edit
        else if bytes_eq choice (codes "10")
        then on_selected (λ name. logs name (pos 100) false)
        else if bytes_eq choice (codes "11")
        then on_selected (λ name. do show name; pure tt)
        else if bytes_eq choice (codes "12")
        then on_selected (λ name. delete name false)
        else pure tt
  ]

  pub is_exit : Bytes → Bool
  is_exit choice = mem choice (codes "0" ∷ codes "q" ∷ codes "quit" ∷ codes "exit" ∷ [])

  pub menu_round : Console (Option (Unit {0}))
  unfolding menu_command is_exit
  menu_round = do
    choice ← prompt site []
    choose (is_exit choice) (pure (some tt)) (do attempt (menu_command choice); pure none)

  -- `Menu`.
  pub menu : Console (Unit {0})
  unfolding menu_round
  menu = do refuse_if (not site.root) not_root; repeat menu_round

  -- `loadConfigAndSecret` and `keygenCommand` of the program.
  pub load_config_and_secret : Bytes → Console (Config × Bytes)
  load_config_and_secret path = do
    config ← load site path
    secret ← read_secret site config.auth.secret_file
    pure (config, secret)

  pub keygen_command : Bytes → Bool → Console (Unit {0})
  keygen_command out force = do
    secret ← from_option site.random_secret no_randomness
    write_secret site out secret force
