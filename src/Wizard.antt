-- ===== src/Wizard.antt =====
-- internal/admin/admin.go, `wizard`: the dialogue that makes or changes a configuration.
pub mod Result
pub mod Tests
use unknowntunnel.Prelude.{
  ℕ, zero, suc, ◌+◌, Bool, true, false, not, ◌&&◌, ◌||◌, ltb, leb, ◌==◌, List, [], ◌∷◌, ◌++◌, Bytes,
  bytes_eq, codes, Option, none, some, if◌then◌else◌, length, get_elem?, map, Map, bytes_key,
  lookup, insert, ℤ, pos, negsuc,
}
use unknowntunnel.Config.{
  Text, Config, TransportConfig, L3Config, Service, Forward, validate, valid_identifier, mem,
}
use unknowntunnel.Site.{
  choose, Site, Host, Answer, done, failed, forever, Console, bind, ◌>>=◌, ◌>>◌, pure, fail,
  refuse_if, from_option, from_result, Error, duplicate_name, bad_route, short_secret, cancelled,
  no_randomness, accepted, unsupported, min_secret, write_secret, read_secret, file_exists, load,
  get_files,
}
use unknowntunnel.Instances.{next_interface, sorted_service_names}
use unknowntunnel.Console.{
  read_line, value_or, prompt, prompt_required, prompt_identifier, prompt_interface, prompt_cidr,
  prompt_port, prompt_int, yes_no, choice, first_endpoint, protocols_choice, split_csv,
}
use unknowntunnel.Dialogue.Endpoints.{configure_transport}
use unknowntunnel.Dialogue.Layer3.{configure_l3}
use unknowntunnel.Dialogue.Services.{configure_services, configure_forwards}
use unknowntunnel.Dialogue.Secret.{configure_secret}

unfoldable pub is_given : {A : Type 0} → Option A → Bool
is_given none = false
is_given (some a) = true

module _ (site : Site) where
  unfoldable pub default_config : Bytes → Config
  default_config instance_name = record {
    node_id = instance_name;
    peer_id = codes "peer";
    role = codes "client";
    auth = record { secret_file = [] };
    transport = record {
      mode = codes "both";
      prefer = codes "udp";
      listen_tcp = [];
      listen_udp = [];
      connect_tcp = [];
      connect_udp = [];
    };
    l3 = record {
      enabled = true;
      interface_name = [];
      address = [];
      mtu = pos 1200;
      routes = [];
      allow_protocols = codes "tcp" ∷ codes "udp" ∷ [];
    };
    services = [];
    forwards = [];
  }

  unfoldable pub start_config : Bytes → Option Config → Config
  unfolding default_config
  start_config instance_name none = default_config instance_name
  start_config instance_name (some current) = current

  unfoldable pub ask_prefer : Bytes → Bytes → Console Bytes
  unfolding choose
  ask_prefer mode prefer =
      choose (bytes_eq mode (codes "both")) (choice site (codes "udp" ∷ codes "tcp" ∷ []) prefer)
        (pure mode)

  -- `wizard` up to the last check: the configuration as it was answered, and the secret that was made.
  unfoldable pub ask_config : Bytes → Option Config → Console (Config × Bytes)
  unfolding start_config ask_prefer
  ask_config instance_name current = do
    let c = start_config instance_name current
    role ← choice site (codes "server" ∷ codes "client" ∷ []) c.role
    node_id ← prompt_identifier site c.node_id
    peer_id ← prompt_identifier site c.peer_id
    mode ← choice site (codes "tcp" ∷ codes "udp" ∷ codes "both" ∷ []) c.transport.mode
    prefer ← ask_prefer mode c.transport.prefer
    transport ← configure_transport site role (record c.transport { mode = mode; prefer = prefer })
    l3 ← configure_l3 site instance_name role c.l3
    services ← configure_services site role c.services
    forwards ← configure_forwards site role c.forwards
    secret ← configure_secret site instance_name c.auth.secret_file (is_given current)
    pure (
      record {
        node_id = node_id;
        peer_id = peer_id;
        role = role;
        auth = record { secret_file = secret.0 };
        transport = transport;
        l3 = l3;
        services = services;
        forwards = forwards;
      },
      secret.1,
    )

  unfoldable pub checked_config : Config × Bytes → Console (Config × Bytes)
  checked_config (c, secret) = do
    checked ← from_result (accepted site (validate site.text c))
    pure (checked, secret)

  -- `wizard`: the configuration, and the secret that was made.
  unfoldable pub wizard : Bytes → Option Config → Console (Config × Bytes)
  unfolding ask_config checked_config
  wizard instance_name current = do asked ← ask_config instance_name current; checked_config asked
