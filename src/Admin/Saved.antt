-- ===== src/Admin/Saved.antt =====
-- internal/admin/admin.go, `Setup`: the file that it leaves.
use unknowntunnel.Prelude.{
  ◌≡◌, ap, refl, ◌∙◌, subst, Bool, true, false, not, [], Bytes, bytes_eq, codes, none, bytes_key,
}
use unknowntunnel.Config.{Config, validate, valid_identifier}
use unknowntunnel.Config.Stable.{IsLower}
use unknowntunnel.Config.Accepted.{IsValid, validate-IsValid}
use unknowntunnel.Site.{
  choose, Site, Host, Answer, done, failed, forever, Console, ◌>>=◌, ◌>>◌, pure, refuse_if,
  file_exists, exists_in, load, save, not_root, invalid_instance, already_exists,
}
use unknowntunnel.Site.Files.{host_of, bind-eq-done, HasJson, load-save, save-IsSaved, load-kept}
use unknowntunnel.Console.{yes_no, prompt_identifier}
use unknowntunnel.Console.Loops.{reads}
use unknowntunnel.Console.Loops.Keeps.{
  Keeps, Reads-Keeps, done-Keeps, bind-Keeps, same-Keeps, refuse_if-Keeps,
}
use unknowntunnel.Console.Loops.Prompts.{prompt_identifier-IsReading}
use unknowntunnel.Instances.{config_path}
use unknowntunnel.Wizard.{wizard}
use unknowntunnel.Admin.{
  attempt, daemon_reload, enable_now, service, or_status, start_new, name_or_ask, setup,
}
use unknowntunnel.Admin.Safety.{service-IsGuarded}
use unknowntunnel.Admin.Removal.{yes_no-Keeps, run_systemctl-Keeps, attempt-Keeps, choose-Keeps}

host-Keeps : {A : Type 0} (h : Host) (x : Answer A) → (host_of h x).files ≡ h.files → Keeps h x
unfolding Keeps
host-Keeps h (done a h') e = e
host-Keeps h (failed f h') e = e
host-Keeps h forever e = tt

Keeps-trans :
    {A : Type 0} (h h' : Host) (x : Answer A) → h'.files ≡ h.files → Keeps h' x → Keeps h x
unfolding Keeps
Keeps-trans h h' (done a h'') e k = k ∙ e
Keeps-trans h h' (failed f h'') e k = k ∙ e
Keeps-trans h h' forever e k = tt

module _ (site : Site) where
  service-Keeps : (name action : Bytes) (h : Host) → Keeps h (service site name action h)
  service-Keeps name action h =
      host-Keeps h (service site name action h) (service-IsGuarded site name action h).files

  or_status-Keeps :
      (name : Bytes) (h : Host) (x : Answer (Unit {0}))
      → Keeps h x
      → Keeps h (or_status site name x)
  unfolding or_status Keeps
  or_status-Keeps name h (done tt h') k = k
  or_status-Keeps name h (failed e h') k =
      Keeps-trans h h' (attempt (service site name (codes "status")) h') k (
        attempt-Keeps site h' (service site name (codes "status") h')
          (service-Keeps name (codes "status") h'))
  or_status-Keeps name h forever k = tt

  start_new-Keeps : (name : Bytes) (h : Host) → Keeps h (start_new site name h)
  unfolding start_new enable_now
  start_new-Keeps name h =
      or_status-Keeps name h (enable_now site name h) (run_systemctl-Keeps site _ h)

  -- What follows the saving of a new configuration.
  finishing-Keeps :
      (name : Bytes) (h : Host)
      → Keeps h (
          (do
            daemon_reload site
            start ← yes_no site true
            choose start (start_new site name) (pure tt))
            h)
  unfolding daemon_reload
  finishing-Keeps name h =
      bind-Keeps h (daemon_reload site h) _ (run_systemctl-Keeps site _ h) (λ _ h1.
        bind-Keeps h1 (yes_no site true h1) _ (yes_no-Keeps site true h1) (λ start h2.
          choose-Keeps site start h2 (start_new site name) (pure tt) (start_new-Keeps name h2)
            (same-Keeps tt h2 h2 refl)))

  name_or_ask-Keeps : (given : Bytes) (h : Host) → Keeps h (name_or_ask site given h)
  unfolding name_or_ask
  name_or_ask-Keeps given h =
      choose-Keeps site (bytes_eq given []) h (prompt_identifier site (codes "tunnel1"))
        (pure given)
        (Reads-Keeps h _ (
          reads (prompt_identifier site (codes "tunnel1"))
            (prompt_identifier-IsReading site (codes "tunnel1")) h))
        (same-Keeps given h h refl)

  -- A new tunnel: its configuration was not there, and can be loaded and is valid now.
  pub record IsNewTunnel (name : Bytes) (h h' : Host) : Type 0 where
    pub was_free : exists_in (site.clean (config_path site name)) h.files ≡ false
    pub config : Config
    pub loads : load site (config_path site name) h' ≡ done config h'
    pub valid : IsValid site.text config

  was_absent : (b : Bool) (h h' : Host) → refuse_if b already_exists h ≡ done tt h' → b ≡ false
  was_absent false h h' q = refl
  was_absent true h h' q = cc

  bool_of : Answer Bool → Bool
  bool_of (done b h) = b
  bool_of (failed e h) = true
  bool_of forever = true

  -- The parts of `setup` from the name on.
  abbrev finishing : Bytes → Console (Unit {0})
  finishing name = do
    daemon_reload site
    start ← yes_no site true
    choose start (start_new site name) (pure tt)

  abbrev saving : Bytes → Config × Bytes → Console (Unit {0})
  saving name made = do save site (config_path site name) made.0; finishing name

  abbrev making : Bytes → Console (Unit {0})
  making name = do made ← wizard site name none; saving name made

  abbrev checking : Bytes → Bool → Console (Unit {0})
  checking name present = do refuse_if present already_exists; making name

  abbrev named_setup : Bytes → Console (Unit {0})
  named_setup name = do present ← file_exists site (config_path site name); checking name present

  abbrev valid_setup : Bytes → Console (Unit {0})
  valid_setup name = do refuse_if (not (valid_identifier name)) invalid_instance; named_setup name

  abbrev named_given : Bytes → Console (Unit {0})
  named_given given = do name ← name_or_ask site given; valid_setup name

  saved_rest :
      IsLower site.text
      → HasJson site
      → (name : Bytes) (h h' : Host) → named_setup name h ≡ done tt h'
      → IsNewTunnel name h h'
  unfolding bool_of file_exists
  saved_rest low json name h h' q =
      let path = config_path site name in
      let (present, h1, e1, q1) = bind-eq-done (file_exists site path h) (checking name) q in
      let (_, h2, e2, q2) =
        bind-eq-done (refuse_if present already_exists h1) (λ _. making name) q1 in
      let (made, h3, e3, q3) = bind-eq-done (wizard site name none h2) (saving name) q2 in
      let (_, h4, e4, q4) = bind-eq-done (save site path made.0 h3) (λ _. finishing name) q3 in
      let kept = done-Keeps h4 h' tt (subst (Keeps h4) q4 (finishing-Keeps name h4)) in
      record {
        was_free = ap bool_of e1 ∙ was_absent present h1 h2 e2;
        config = (validate site.text made.0).0;
        loads =
            load-kept site path (validate site.text made.0).0 h4 h'
              (load-save site low json path made.0 h3 h4 e4) kept;
        valid =
            validate-IsValid site.text made.0 (save-IsSaved site path made.0 h3 h4 e4).no_errors;
      }

  -- Where lower-casing is idempotent and the JSON codec reads what it wrote: a setup that
  -- returns found no configuration under the name, and has left one that loads and is valid.
  pub setup-IsNewTunnel :
      IsLower site.text
      → HasJson site
      → (given : Bytes) (h h' : Host) → setup site given h ≡ done tt h'
      → (name : Bytes) × IsNewTunnel name h h'
  unfolding setup
  setup-IsNewTunnel low json given h h' q =
      let (_, h1, e1, q1) =
        bind-eq-done (refuse_if (not site.root) not_root h) (λ _. named_given given) q in
      let (name, h2, e2, q2) = bind-eq-done (name_or_ask site given h1) valid_setup q1 in
      let (_, h3, e3, q3) =
        bind-eq-done (refuse_if (not (valid_identifier name)) invalid_instance h2)
          (λ _. named_setup name) q2 in
      let s = saved_rest low json name h3 h' q3 in
      let k1 =
        done-Keeps h h1 tt (subst (Keeps h) e1 (refuse_if-Keeps (not site.root) not_root h)) in
      let k2 = done-Keeps h1 h2 name (subst (Keeps h1) e2 (name_or_ask-Keeps given h1)) in
      let k3 =
        done-Keeps h2 h3 tt (
          subst (Keeps h2) e3
            (refuse_if-Keeps (not (valid_identifier name)) invalid_instance h2)) in
      (
        name,
        record {
          was_free =
              subst (λ f. exists_in (site.clean (config_path site name)) f ≡ false) (k3 ∙ k2 ∙ k1)
                s.was_free;
          config = s.config;
          loads = s.loads;
          valid = s.valid;
        },
      )
