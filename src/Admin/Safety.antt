-- ===== src/Admin/Safety.antt =====
-- internal/admin/admin.go, `Service` and `Delete`: what they run and which files they change.
use unknowntunnel.Prelude.{
  ℕ, ◌≡◌, ◌⊎◌, inl, inr, sym, refl, subst, Bool, true, false, not, ◌||◌, ◌==◌, List, [], ◌∷◌, ◌++◌,
  Bytes, bytes_eq, codes, if◌then◌else◌, bytes_key, arith,
}
use unknowntunnel.Config.{valid_identifier, mem}
use unknowntunnel.Site.{
  Site, Host, Console, bind, refuse_if, file_exists, exists_in, Error, not_root, invalid_instance,
  no_config, command_failed,
}
use unknowntunnel.Site.Files.{host_of}
use unknowntunnel.Instances.{config_path, unit}
use unknowntunnel.Admin.{run, run_systemctl, actions, show_status, act, service}

-- From one host to another at most one command is run, with the action on the unit of a valid name
-- that has a configuration, by root.
pub record IsGuarded (site : Site) (name : Bytes) (h h' : Host) : Type 0 where
  pub files : h'.files ≡ h.files
  pub commands :
      (h'.calls ≡ h.calls)
      ⊎ ((site.root ≡ true)
          × (valid_identifier name ≡ true)
          × (exists_in (site.clean (config_path site name)) h.files ≡ true)
          × (args : List Bytes) × (h'.calls ≡ h.calls ++ (args ∷ [])))

-- At most one command is run, and nothing else is changed.
record RunsOne (h h' : Host) : Type 0 where
  files : h'.files ≡ h.files
  commands : (h'.calls ≡ h.calls) ⊎ ((args : List Bytes) × (h'.calls ≡ h.calls ++ (args ∷ [])))

refuse-host : (h h' : Host) (b : Bool) (e : Error) → host_of h (refuse_if b e h') ≡ h'
refuse-host h h' true e = refl
refuse-host h h' false e = refl

module _ (site : Site) where
  run-RunsOne :
      (h : Host) (args : List Bytes) (b : ℕ → Bool)
      → RunsOne h (host_of h (bind (run site args h) (λ code. refuse_if (b code) command_failed)))
  unfolding run
  run-RunsOne h args b =
      let h' = record h { calls = h.calls ++ (args ∷ []) } in
      subst (RunsOne h) (sym (refuse-host h h' (b (site.exit_code h.calls args)) command_failed))
        (record { files = refl; commands = inr (args, refl) })

  branch-RunsOne :
      (h : Host) (b : Bool) (m k : Console (Unit {0}))
      → RunsOne h (host_of h (m h))
      → RunsOne h (host_of h (k h))
      → RunsOne h (host_of h ((if b then m else k) h))
  branch-RunsOne h true m k rm rk = rm
  branch-RunsOne h false m k rm rk = rk

  act-RunsOne : (name action : Bytes) (h : Host) → RunsOne h (host_of h (act site name action h))
  unfolding act run_systemctl show_status
  act-RunsOne name action h =
      branch-RunsOne h (mem action (actions site)) _ _
        (run-RunsOne h (codes "systemctl" ∷ action ∷ unit site name ∷ []) (λ code. not (code == 0)))
        (branch-RunsOne h (bytes_eq action (codes "status")) _ _
          (run-RunsOne h
            (codes "systemctl"
              ∷ codes "status"
              ∷ codes "--no-pager"
              ∷ codes "--full"
              ∷ unit site name
              ∷ [])
            (λ code. not ((code == 0) || (code == 3))))
          (record { files = refl; commands = inl refl }))

  guard-IsGuarded :
      (name : Bytes) (h : Host) (b : Bool) (e : Error) (k : Console (Unit {0}))
      → (b ≡ false → IsGuarded site name h (host_of h (k h)))
      → IsGuarded site name h (host_of h (bind (refuse_if b e h) (λ _. k)))
  guard-IsGuarded name h true e k g = record { files = refl; commands = inl refl }
  guard-IsGuarded name h false e k g = g refl

  not-false : (b : Bool) → not b ≡ false → b ≡ true
  not-false b e = ground (arith, e)

  -- Service changes no file and runs at most one command, and that only for root and a valid
  -- instance name whose configuration file exists.
  pub service-IsGuarded :
      (name action : Bytes) (h : Host)
      → IsGuarded site name h (host_of h (service site name action h))
  unfolding service file_exists
  service-IsGuarded name action h = guard-IsGuarded name h (not site.root) not_root _ (λ root.
      guard-IsGuarded name h (not (valid_identifier name)) invalid_instance _ (λ valid.
        guard-IsGuarded name h (not (exists_in (site.clean (config_path site name)) h.files))
          no_config _
          (λ there.
            let r = act-RunsOne name action h in
            record {
              files = r.files;
              commands = elim r.commands [
                | inl same ↦ inl same
                | inr (args, one) ↦ inr (
                  not-false site.root root,
                  not-false (valid_identifier name) valid,
                  not-false (exists_in (site.clean (config_path site name)) h.files) there,
                  args,
                  one,
                )
              ];
            })))
