-- ===== src/Config.antt =====
-- internal/config/config.go: the configuration, and how it is checked and completed.
-- Text is a list of bytes. The functions of Go's libraries that it calls are parameters, `Text`.
pub mod Valid
pub mod Tests
pub mod Accepted
pub mod Stable
use unknowntunnel.Prelude.{
  ℕ, ◌^◌, Bool, true, false, not, ◌&&◌, ◌||◌, ◌==◌, ltb, leb, List, [], ◌∷◌, ◌++◌, Bytes, codes,
  bytes_eq, Option, none, some, if◌then◌else◌, length, Map, bytes_key, lookup, insert, ℤ, pos,
  negsuc,
}

pub record AuthConfig : Type 0 where
  pub secret_file : Bytes

pub record TransportConfig : Type 0 where
  pub mode : Bytes
  pub prefer : Bytes
  pub listen_tcp : Bytes
  pub listen_udp : Bytes
  pub connect_tcp : Bytes
  pub connect_udp : Bytes

pub record L3Config : Type 0 where
  pub enabled : Bool
  pub interface_name : Bytes
  pub address : Bytes
  pub mtu : ℤ
  pub routes : List Bytes
  pub allow_protocols : List Bytes

pub record Service : Type 0 where
  pub network : Bytes
  pub address : Bytes

pub record Forward : Type 0 where
  pub name : Bytes
  pub protocol : Bytes
  pub listen : Bytes
  pub service : Bytes

pub record Config : Type 0 where
  pub node_id : Bytes
  pub peer_id : Bytes
  pub role : Bytes
  pub auth : AuthConfig
  pub transport : TransportConfig
  pub l3 : L3Config
  pub services : Map Bytes Service
  pub forwards : List Forward

-- `strings.ToLower`, `strings.TrimSpace`, `net.SplitHostPort`, `strconv.Atoi`, and whether
-- `net.ParseCIDR` takes a text.
pub record Text : Type 0 where
  pub to_lower : Bytes → Bytes
  pub trim_space : Bytes → Bytes
  pub split_host_port : Bytes → Option (Bytes × Bytes)
  pub atoi : Bytes → Option ℤ
  pub is_cidr : Bytes → Bool

pub data AddressError : Type 0 where
  value_required no_host_port control_characters host_required bad_port unspecified_host :
      AddressError

pub data ConfigError : Type 0 where
  bad_node_id bad_peer_id same_id bad_role no_secret_file : ConfigError
  bad_mode bad_prefer prefer_mismatch : ConfigError
  bad_listen_tcp bad_listen_udp bad_connect_tcp bad_connect_udp : AddressError → ConfigError
  bad_interface bad_l3_address bad_mtu : ConfigError
  bad_route unsupported_protocol duplicate_protocol : Bytes → ConfigError
  bad_service_name bad_network : Bytes → ConfigError
  bad_service_address : Bytes → AddressError → ConfigError
  bad_forward_name bad_forward_service duplicate_forward bad_protocol : Bytes → ConfigError
  bad_listen : Bytes → AddressError → ConfigError

within : ℕ → ℕ → ℕ → Bool
within lo hi b = leb lo b && leb b hi

-- The classes `[a-zA-Z0-9]` and `[a-zA-Z0-9_.-]`.
unfoldable pub is_alphanumeric : ℕ → Bool
unfolding within
is_alphanumeric b = within 97 122 b || within 65 90 b || within 48 57 b

unfoldable pub is_safe : ℕ → Bool
is_safe b = is_alphanumeric b || (b == 95) || (b == 46) || (b == 45)

unfoldable pub all_safe : Bytes → Bool
all_safe [] = true
all_safe (b ∷ bs) = is_safe b && all_safe bs

-- `identifierRE` and `interfaceRE`.
unfoldable pub valid_identifier : Bytes → Bool
valid_identifier [] = false
valid_identifier (b ∷ bs) = is_alphanumeric b && leb (length bs) 63 && all_safe bs

unfoldable pub valid_interface : Bytes → Bool
valid_interface bs = leb 1 (length bs) && leb (length bs) 15 && all_safe bs

unfoldable pub contains_control : Bytes → Bool
contains_control [] = false
contains_control (b ∷ bs) = (b == 13) || (b == 10) || (b == 9) || contains_control bs

unfoldable pub between : ℕ → ℕ → ℤ → Bool
between lo hi (pos n) = leb lo n && leb n hi
between lo hi (negsuc n) = false

unfoldable pub mem : Bytes → List Bytes → Bool
mem x [] = false
mem x (y ∷ ys) = bytes_eq y x || mem x ys

-- `if bad { errs = append(errs, e) }`.
unfoldable pub check : {E : Type 0} → Bool → E → List E
check true e = e ∷ []
check false e = []

unfoldable pub check_error : {A E : Type 0} → Option A → (A → E) → List E
check_error none wrap = []
check_error (some e) wrap = wrap e ∷ []

-- `errors.Join`.
unfoldable pub errors : {E : Type 0} → List (List E) → List E
errors [] = []
errors (es ∷ ess) = es ++ errors ess

unfoldable pub is_tcp_or_udp : Bytes → Bool
is_tcp_or_udp p = bytes_eq p (codes "tcp") || bytes_eq p (codes "udp")

module _ (text : Text) where
  check_port : Bytes → Option ℤ → Option (Bytes × ℤ) × Option AddressError
  check_port host none = (none, some bad_port)
  check_port host (some port) =
      if not (between 1 65535 port) then (none, some bad_port) else (some (host, port), none)

  -- The host and the port, or the error.
  unfoldable pub split_and_validate_host_port :
      Bytes → Bool → Option (Bytes × ℤ) × Option AddressError
  unfolding check_port
  split_and_validate_host_port value require_host =
      if bytes_eq value [] then (none, some value_required) else elim (text.split_host_port value) [
        | none ↦ (none, some no_host_port)
        | some (host, port_text) ↦
            if contains_control host
            then (none, some control_characters)
            else if require_host && bytes_eq (text.trim_space host) []
            then (none, some host_required)
            else check_port host (text.atoi port_text)
      ]

  unfoldable pub validate_listen_address : Bytes → Option AddressError
  validate_listen_address value = (split_and_validate_host_port value false).1

  unfoldable pub refuse_unspecified : Option (Bytes × ℤ) × Option AddressError → Option AddressError
  refuse_unspecified (_, some e) = some e
  refuse_unspecified (none, none) = none
  refuse_unspecified (some (host, port), none) =
      if bytes_eq host (codes "0.0.0.0") || bytes_eq host (codes "::")
      then some unspecified_host
      else none

  unfoldable pub validate_dial_address : Bytes → Option AddressError
  unfolding refuse_unspecified
  validate_dial_address value = refuse_unspecified (split_and_validate_host_port value true)

  -- The preferred carrier where the configuration names none.
  unfoldable pub default_prefer : Bytes → Bytes → Bytes
  default_prefer mode prefer =
      if bytes_eq prefer []
      then (if bytes_eq mode (codes "both") then codes "udp" else mode)
      else prefer

  unfoldable pub normal_transport : TransportConfig → TransportConfig
  unfolding default_prefer
  normal_transport t =
      let mode = text.to_lower t.mode in
      record t { mode = mode; prefer = default_prefer mode (text.to_lower t.prefer) }

  unfoldable pub check_endpoints : Bytes → Bool → Bool → TransportConfig → List ConfigError
  check_endpoints role needs_tcp needs_udp t =
      if bytes_eq role (codes "server")
      then (if needs_tcp
          then check_error (validate_listen_address t.listen_tcp) bad_listen_tcp
          else [])
        ++ (if needs_udp
            then check_error (validate_listen_address t.listen_udp) bad_listen_udp
            else [])
      else if bytes_eq role (codes "client")
      then (if needs_tcp
          then check_error (validate_dial_address t.connect_tcp) bad_connect_tcp
          else [])
        ++ (if needs_udp
            then check_error (validate_dial_address t.connect_udp) bad_connect_udp
            else [])
      else []

  unfoldable pub check_transport : Bytes → TransportConfig → List ConfigError
  unfolding check_endpoints
  check_transport role t =
      let both = bytes_eq t.mode (codes "both") in
      errors (
        check (not (is_tcp_or_udp t.mode || both)) bad_mode
        ∷ check (not (is_tcp_or_udp t.prefer)) bad_prefer
        ∷ check (not both && not (bytes_eq t.prefer t.mode)) prefer_mismatch
        ∷ check_endpoints role (bytes_eq t.mode (codes "tcp") || both)
            (bytes_eq t.mode (codes "udp") || both) t
        ∷ [])

  -- `validateTransport`: the transport as it is left, and the errors.
  unfoldable pub validate_transport : Bytes → TransportConfig → TransportConfig × List ConfigError
  unfolding normal_transport check_transport
  validate_transport role t = (normal_transport t, check_transport role (normal_transport t))

  pub check_routes : List Bytes → List ConfigError
  check_routes [] = []
  check_routes (route ∷ routes) =
      check (not (text.is_cidr route)) (bad_route route) ++ check_routes routes

  pub check_protocols : List Bytes → List Bytes → List ConfigError
  check_protocols seen [] = []
  check_protocols seen (p ∷ ps) = errors (
      check (not (is_tcp_or_udp p)) (unsupported_protocol p)
      ∷ check (mem p seen) (duplicate_protocol p)
      ∷ check_protocols (p ∷ seen) ps
      ∷ [])

  pub lower_all : List Bytes → List Bytes
  lower_all [] = []
  lower_all (p ∷ ps) = text.to_lower p ∷ lower_all ps

  pub default_mtu : ℤ → ℤ
  default_mtu (pos n) = if n == 0 then pos 1200 else pos n
  default_mtu (negsuc n) = negsuc n

  pub default_protocols : List Bytes → List Bytes
  default_protocols [] = codes "tcp" ∷ codes "udp" ∷ []
  default_protocols (p ∷ ps) = p ∷ ps

  unfoldable pub normal_l3 : L3Config → L3Config
  unfolding lower_all default_mtu default_protocols
  normal_l3 l = record l {
    mtu = default_mtu l.mtu;
    allow_protocols = lower_all (default_protocols l.allow_protocols);
  }

  unfoldable pub check_l3 : L3Config → List ConfigError
  unfolding check_routes check_protocols
  check_l3 l = errors (
      check (not (valid_interface l.interface_name)) bad_interface
      ∷ check (not (text.is_cidr l.address)) bad_l3_address
      ∷ check (not (between 576 1300 l.mtu)) bad_mtu
      ∷ check_routes l.routes
      ∷ check_protocols [] l.allow_protocols
      ∷ [])

  -- `validateL3`.
  unfoldable pub validate_l3 : L3Config → L3Config × List ConfigError
  validate_l3 l = if not l.enabled then (l, []) else (normal_l3 l, check_l3 (normal_l3 l))

  pub lower_service : Bytes × Service → Bytes × Service
  lower_service (name, svc) =
      if valid_identifier name
      then (name, record svc { network = text.to_lower svc.network })
      else (name, svc)

  pub check_service : Bytes × Service → List ConfigError
  check_service (name, svc) =
      if not (valid_identifier name)
      then bad_service_name name ∷ []
      else errors (
          check (not (is_tcp_or_udp svc.network)) (bad_network name)
          ∷ check_error (validate_dial_address svc.address) (bad_service_address name)
          ∷ [])

  -- The loop over the services, in the order in which the map yields them.
  unfoldable pub validate_services : Map Bytes Service → Map Bytes Service × List ConfigError
  unfolding lower_service check_service
  validate_services [] = ([], [])
  validate_services (entry ∷ rest) =
      let lowered = lower_service entry in
      let (services, later) = validate_services rest in
      (lowered ∷ services, check_service lowered ++ later)

  pub lower_forward : Forward → Forward
  lower_forward f = record f { protocol = text.to_lower f.protocol }

  pub check_forward : List Bytes → Forward → List ConfigError
  check_forward seen f = errors (
      check (not (valid_identifier f.name)) (bad_forward_name f.name)
      ∷ check (mem f.name seen) (duplicate_forward f.name)
      ∷ check (not (is_tcp_or_udp f.protocol)) (bad_protocol f.name)
      ∷ check_error (validate_listen_address f.listen) (bad_listen f.name)
      ∷ check (not (valid_identifier f.service)) (bad_forward_service f.name)
      ∷ [])

  -- The loop over the forwards; `seen` holds the names before.
  unfoldable pub validate_forwards : List Bytes → List Forward → List Forward × List ConfigError
  unfolding lower_forward check_forward
  validate_forwards seen [] = ([], [])
  validate_forwards seen (f ∷ rest) =
      let lowered = lower_forward f in
      let (forwards, later) = validate_forwards (f.name ∷ seen) rest in
      (lowered ∷ forwards, check_forward seen lowered ++ later)

  -- `Validate`: the configuration as it is left, and the errors that are joined.
  unfoldable pub validate : Config → Config × List ConfigError
  validate c =
      let role = text.to_lower c.role in
      let (transport, transport_errors) = validate_transport role c.transport in
      let (l3, l3_errors) = validate_l3 c.l3 in
      let (services, service_errors) = validate_services c.services in
      let (forwards, forward_errors) = validate_forwards [] c.forwards in
      (
        record c {
          role = role;
          transport = transport;
          l3 = l3;
          services = services;
          forwards = forwards;
        },
        errors (
            check (not (valid_identifier c.node_id)) bad_node_id
            ∷ check (not (valid_identifier c.peer_id)) bad_peer_id
            ∷ check (bytes_eq c.node_id c.peer_id && not (bytes_eq c.node_id [])) same_id
            ∷ check (not (bytes_eq role (codes "server") || bytes_eq role (codes "client")))
                bad_role
            ∷ check (bytes_eq c.auth.secret_file []) no_secret_file
            ∷ transport_errors
            ∷ l3_errors
            ∷ service_errors
            ∷ forward_errors
            ∷ []),
      )
