-- ===== src/Config/Tests.antt =====
-- internal/config/config.go: a configuration that passes.
use unknowntunnel.Prelude.{◌≡◌, refl, true, [], ◌∷◌, codes, bytes_eq, some, pos}
use unknowntunnel.Config.{
  Text, Config, errors, check, check_error, is_tcp_or_udp, valid_identifier, valid_interface,
  is_alphanumeric, is_safe, all_safe, contains_control, between, mem, split_and_validate_host_port,
  validate_listen_address, validate_dial_address, normal_transport, check_transport,
  validate_transport, normal_l3, check_l3, validate_l3, validate_services, validate_forwards,
  validate,
}
use unknowntunnel.Config.Stable.{validate-validate}
use unknowntunnel.Config.Accepted.{IsValid, validate-IsValid}

-- Addresses of one fixed host and port, in lower case.
abbrev pub plain_text : Text
plain_text = record {
  to_lower = λ t. t;
  trim_space = λ t. t;
  split_host_port = λ t. some (codes "10.0.0.1", codes "443");
  atoi = λ t. some (pos 443);
  is_cidr = λ t. true;
}

abbrev pub client_config : Config
client_config = record {
  node_id = codes "a";
  peer_id = codes "b";
  role = codes "client";
  auth = record { secret_file = codes "/s" };
  transport = record {
    mode = codes "both";
    prefer = [];
    listen_tcp = [];
    listen_udp = [];
    connect_tcp = codes "h:1";
    connect_udp = codes "h:1";
  };
  l3 = record {
    enabled = true;
    interface_name = codes "ut0";
    address = codes "10.9.0.1/24";
    mtu = pos 0;
    routes = [];
    allow_protocols = [];
  };
  services = (codes "web", record { network = codes "tcp"; address = codes "h:1" }) ∷ [];
  forwards =
      record {
        name = codes "dns";
        protocol = codes "udp";
        listen = codes "h:1";
        service = codes "web";
      }
      ∷ [];
}

-- What Validate makes of it.
abbrev pub checked_config : Config
checked_config = record client_config {
  transport = record client_config.transport { prefer = codes "udp" };
  l3 = record client_config.l3 { mtu = pos 1200; allow_protocols = codes "tcp" ∷ codes "udp" ∷ [] };
}

pub client_config_passes : validate plain_text client_config ≡ (checked_config, [])
unfolding validate validate_transport normal_transport check_transport validate_l3 normal_l3
    check_l3 validate_services validate_forwards errors check check_error is_tcp_or_udp
    valid_identifier valid_interface is_alphanumeric is_safe all_safe contains_control between mem
    bytes_eq split_and_validate_host_port validate_listen_address validate_dial_address
client_config_passes = refl

validate-IsValid_example : IsValid plain_text (validate plain_text client_config).0
unfolding validate validate_transport normal_transport check_transport validate_l3 normal_l3
    check_l3 validate_services validate_forwards errors check check_error is_tcp_or_udp
    valid_identifier valid_interface is_alphanumeric is_safe all_safe contains_control between mem
    bytes_eq split_and_validate_host_port validate_listen_address validate_dial_address
validate-IsValid_example = validate-IsValid plain_text client_config refl

validate-validate_example :
    validate plain_text (validate plain_text client_config).0 ≡ validate plain_text client_config
validate-validate_example =
    validate-validate plain_text
      (record { twice = λ s. refl; tcp = refl; udp = refl; empty = refl }) client_config
