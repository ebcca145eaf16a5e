-- ===== src/Wizard/Tests.antt =====
-- internal/admin/admin.go, `wizard`: the answers of a new client over TCP.
use unknowntunnel.Prelude.{
  ℕ, ◌==◌, ◌≡◌, refl, ap, ◌∙◌, false, [], ◌∷◌, ◌++◌, Bytes, bytes_eq, codes, some, none, pos,
  replicate, if◌then◌else◌, lookup, insert, bytes_key, arith,
}
use unknowntunnel.Console.{
  again, repeat, take_line, read_line, value_or, prompt, prompt_required, prompt_identifier,
  is_number, prompt_port, yes_or_no, yes_no, choice, first_endpoint,
}
use unknowntunnel.Dialogue.Endpoints.{
  has_colon, join_host_port, is_mode, endpoint_or, ask_separate, endpoints, connect_endpoints,
  configure_transport,
}
use unknowntunnel.Dialogue.Layer3.{no_l3, configure_l3}
use unknowntunnel.Dialogue.Services.{configure_services, configure_forwards}
use unknowntunnel.Dialogue.Secret.{
  confirm_overwrite, generate_secret, secret_action, configure_secret,
}
use unknowntunnel.Wizard.{
  is_given, default_config, start_config, ask_prefer, ask_config, checked_config, wizard,
}
use unknowntunnel.Config.{
  Config, validate, validate_transport, normal_transport, check_transport, validate_l3, normal_l3,
  check_l3, validate_services, validate_forwards, errors, check, check_error, is_tcp_or_udp,
  valid_identifier, valid_interface, is_alphanumeric, is_safe, all_safe, contains_control, between,
  split_and_validate_host_port, validate_listen_address, validate_dial_address, default_prefer,
  refuse_unspecified, check_endpoints, mem,
}
use unknowntunnel.Site.{
  Site, Host, done, choose, file_exists, accepted, check_secret, refuse_existing, write_secret,
  exists_in,
}
use unknowntunnel.Config.Accepted.{IsValid}
use unknowntunnel.Config.Tests.{plain_text}
use unknowntunnel.Console.Tests.{home}
use unknowntunnel.Dialogue.Secret.Ready.{CanRead}
use unknowntunnel.Site.Files.{TrimsNewline}
use unknowntunnel.Wizard.Result.{wizard-Returns}

-- A text without the newlines at its end.
before_newline : ℕ → Bytes → Bytes
before_newline b [] = if b == 10 then [] else b ∷ []
before_newline b (c ∷ cs) = b ∷ c ∷ cs

chomp : Bytes → Bytes
chomp [] = []
chomp (b ∷ bs) = before_newline b (chomp bs)

chomp-newline : (s : Bytes) → chomp (s ++ codes "\n") ≡ chomp s
unfolding chomp before_newline
chomp-newline [] = refl
chomp-newline (b ∷ bs) = ap (before_newline b) (chomp-newline bs)

chomp-before_newline :
    (b : ℕ) (bs : Bytes) → chomp bs ≡ bs → chomp (before_newline b bs) ≡ before_newline b bs
unfolding chomp before_newline
chomp-before_newline b [] h = ground arith
chomp-before_newline b (c ∷ cs) h = ap (before_newline b) h

chomp-chomp : (s : Bytes) → chomp (chomp s) ≡ chomp s
unfolding chomp
chomp-chomp [] = refl
chomp-chomp (b ∷ bs) = chomp-before_newline b (chomp bs) (chomp-chomp bs)

-- A machine on which every number is 1000.
abbrev office : Site
office = record home {
  text = record plain_text { atoi = λ t. some (pos 1000); trim_space = chomp };
}

trims : TrimsNewline office
unfolding TrimsNewline
trims s = chomp-newline (chomp s) ∙ chomp-chomp s

abbrev tunnel : Bytes
tunnel = codes "t1"

abbrev answers : Host
answers = record {
  input =
      some []
      ∷ some []
      ∷ some []
      ∷ some (codes "tcp")
      ∷ some (codes "h")
      ∷ some []
      ∷ some (codes "n")
      ∷ some (codes "n")
      ∷ some (codes "n")
      ∷ some []
      ∷ some []
      ∷ [];
  files = [];
  calls = [];
}

abbrev made_config : Config
made_config = record {
  node_id = tunnel;
  peer_id = codes "peer";
  role = codes "client";
  auth = record { secret_file = codes "/etc/u/t1.key" };
  transport = record {
    mode = codes "tcp";
    prefer = codes "tcp";
    listen_tcp = [];
    listen_udp = [];
    connect_tcp = codes "h:8443";
    connect_udp = [];
  };
  l3 = record {
    enabled = false;
    interface_name = [];
    address = [];
    mtu = pos 0;
    routes = [];
    allow_protocols = [];
  };
  services = [];
  forwards = [];
}

abbrev afterwards : Host
afterwards = record {
  input = [];
  files = (codes "/etc/u/t1.key", replicate 48 65 ++ codes "\n") ∷ [];
  calls = [];
}

answered : wizard office tunnel none answers ≡ done (made_config, replicate 48 65) afterwards
unfolding chomp before_newline choose file_exists accepted bytes_eq lookup insert again repeat
    take_line read_line value_or prompt prompt_required prompt_identifier is_number prompt_port
    yes_or_no yes_no choice first_endpoint has_colon join_host_port is_mode endpoint_or ask_separate
    endpoints connect_endpoints configure_transport no_l3 configure_l3 configure_services
    configure_forwards confirm_overwrite generate_secret secret_action configure_secret is_given
    default_config start_config ask_prefer ask_config checked_config wizard validate
    validate_transport normal_transport check_transport validate_l3 normal_l3 check_l3
    validate_services validate_forwards errors check check_error is_tcp_or_udp valid_identifier
    valid_interface is_alphanumeric is_safe all_safe contains_control between
    split_and_validate_host_port validate_listen_address validate_dial_address default_prefer
    refuse_unspecified check_endpoints check_secret refuse_existing write_secret exists_in mem
answered = refl

wizard-Returns_example :
    IsValid office.text made_config × CanRead office (codes "/etc/u/t1.key") afterwards
wizard-Returns_example =
    wizard-Returns office trims tunnel none (made_config, replicate 48 65) answers afterwards
      answered
