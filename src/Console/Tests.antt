-- ===== src/Console/Tests.antt =====
-- internal/admin/admin.go: the prompts at the end of their input.
use unknowntunnel.Prelude.{ℕ, ◌≡◌, refl, true, not, [], bytes_eq, codes, replicate, some}
use unknowntunnel.Config.{between}
use unknowntunnel.Config.Tests.{plain_text, client_config}
use unknowntunnel.Site.{Site, Host, forever, ◌>>=◌, pure}
use unknowntunnel.Console.{again, return_if, prompt, prompt_required, prompt_port, is_number}
use unknowntunnel.Console.Loops.Prompts.{IsPrompt, prompt_port-IsPrompt, prompt_required_forever}

-- A machine on which everything works and each file holds the same configuration.
abbrev pub home : Site
home = record {
  text = plain_text;
  itoa = λ n. codes "1";
  marshal = λ c. [];
  unmarshal = λ content. some client_config;
  can_write = λ path. true;
  can_remove = λ path. true;
  clean = λ path. path;
  root = true;
  config_dir = codes "/etc/u";
  random_secret = some (replicate 48 65);
  exit_code = λ calls args. 0;
}

abbrev pub silent : Host
silent = record { input = []; files = []; calls = [] }

prompt_port-IsPrompt_example : IsPrompt (prompt_port home (codes "8443")) (codes "8443")
unfolding is_number between
prompt_port-IsPrompt_example =
    prompt_port-IsPrompt home refl (codes "8443") (λ e. absurd (cc e)) refl

prompt_required_forever_example :
    (prompt_required home [] silent ≡ forever)
    × ((fuel : ℕ)
        → again fuel
            (do value ← prompt home []; pure (return_if (not (bytes_eq value [])) value))
            silent
          ≡ forever)
prompt_required_forever_example = prompt_required_forever home refl silent refl
