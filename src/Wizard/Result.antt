-- ===== src/Wizard/Result.antt =====
-- internal/admin/admin.go, `wizard`: the configuration that it returns, and the secret that it names.
use unknowntunnel.Prelude.{◌≡◌, sym, subst, Bytes, Option, Result, inl, inr}
use unknowntunnel.Config.{Config, validate}
use unknowntunnel.Config.Stable.{validate-secret_file}
use unknowntunnel.Config.Accepted.{IsValid, validate-IsValid}
use unknowntunnel.Site.{Site, Host, Answer, done, bind, pure, from_result, Error}
use unknowntunnel.Site.Files.{accepted-cases, TrimsNewline}
use unknowntunnel.Dialogue.Secret.{configure_secret}
use unknowntunnel.Dialogue.Secret.Ready.{
  Ends, bind-Ends, done-Ends, failed-Ends, Ends-done, CanRead, IsReady, configure_secret-IsReady,
}
use unknowntunnel.Console.{choice, prompt_identifier}
use unknowntunnel.Dialogue.Endpoints.{configure_transport}
use unknowntunnel.Dialogue.Layer3.{configure_l3}
use unknowntunnel.Dialogue.Services.{configure_services, configure_forwards}
use unknowntunnel.Wizard.{ask_prefer, ask_config, checked_config, wizard}

module _ (site : Site) (trims : TrimsNewline site) where
  -- A valid configuration, whose secret can be read.
  abbrev pub IsGoodResult : Config × Bytes → Host → Type 0
  IsGoodResult made h = IsValid site.text made.0 × CanRead site made.0.auth.secret_file h

  abbrev NamesReadable : Config × Bytes → Host → Type 0
  NamesReadable asked h = CanRead site asked.0.auth.secret_file h

  ask_config-Ends :
      (name : Bytes) (current : Option Config) (h : Host)
      → Ends NamesReadable (ask_config site name current h)
  unfolding ask_config
  ask_config-Ends name current h = bind-Ends NamesReadable (choice site _ _ h) _ (λ _ h1 _.
      bind-Ends NamesReadable (prompt_identifier site _ h1) _ (λ _ h2 _.
        bind-Ends NamesReadable (prompt_identifier site _ h2) _ (λ _ h3 _.
          bind-Ends NamesReadable (choice site _ _ h3) _ (λ _ h4 _.
            bind-Ends NamesReadable (ask_prefer site _ _ h4) _ (λ _ h5 _.
              bind-Ends NamesReadable (configure_transport site _ _ h5) _ (λ _ h6 _.
                bind-Ends NamesReadable (configure_l3 site _ _ _ h6) _ (λ _ h7 _.
                  bind-Ends NamesReadable (configure_services site _ _ h7) _ (λ _ h8 _.
                    bind-Ends NamesReadable (configure_forwards site _ _ h8) _ (λ _ h9 _.
                      bind-Ends NamesReadable (configure_secret site name _ _ h9) _ (λ made h10 q.
                        done-Ends NamesReadable _ h10 (
                          Ends-done (IsReady site) made h10 (
                            subst (Ends (IsReady site)) q
                              (configure_secret-IsReady site trims name _ _ h9)))))))))))))

  then_secret : Bytes → Host → Result Error Config → Answer (Config × Bytes)
  then_secret secret h r = bind (from_result r h) (λ checked. pure (checked, secret))

  checked_config-Ends :
      (asked : Config × Bytes) (h : Host)
      → CanRead site asked.0.auth.secret_file h
      → Ends IsGoodResult (checked_config site asked h)
  unfolding checked_config then_secret
  checked_config-Ends (c, secret) h there = elim (accepted-cases site (validate site.text c)) [
    | inl (e, q) ↦
        subst (λ r. Ends IsGoodResult (then_secret secret h r)) (sym q)
          (failed-Ends IsGoodResult e h)
    | inr (q, none_bad) ↦
        subst (λ r. Ends IsGoodResult (then_secret secret h r)) (sym q)
          (done-Ends IsGoodResult ((validate site.text c).0, secret) h
            (
              validate-IsValid site.text c none_bad,
              subst (λ p. CanRead site p h) (sym (validate-secret_file site.text c)) there,
            ))
  ]

  -- Where trimming takes off the newline that is written: whatever is answered, a
  -- configuration that the wizard returns is valid, and its secret file holds a secret that
  -- can be read.
  pub wizard-Returns :
      (name : Bytes) (current : Option Config) (made : Config × Bytes) (h h' : Host)
      → wizard site name current h ≡ done made h'
      → IsValid site.text made.0 × CanRead site made.0.auth.secret_file h'
  unfolding wizard
  wizard-Returns name current made h h' q = Ends-done IsGoodResult made h' (
      subst (Ends IsGoodResult) q (
        bind-Ends IsGoodResult (ask_config site name current h) (checked_config site) (λ asked h1 e.
          checked_config-Ends asked h1 (
            Ends-done NamesReadable asked h1
              (subst (Ends NamesReadable) e (ask_config-Ends name current h))))))
