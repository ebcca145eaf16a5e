-- ===== src/Config/Accepted.antt =====
-- internal/config/config.go, `Validate`: what a configuration that passes is.
use unknowntunnel.Prelude.{
  ℕ, ◌≡◌, ◌≢◌, ◌⊎◌, inl, inr, refl, Bool, true, false, not, ◌&&◌, ◌||◌, List, All, [], ◌∷◌, Bytes,
  codes, bytes_eq, Option, none, some, ℤ, pos, negsuc, ◌≤◌, arith, bytes_eq_iff, Bool-cases, Map,
  if◌then◌else◌, subst, sym,
}
use unknowntunnel.Config.{
  Text, TransportConfig, L3Config, Service, Config, AddressError, ConfigError, bad_service_name,
  bad_network, bad_service_address, check, check_error, errors, between, is_tcp_or_udp,
  valid_identifier, valid_interface, validate_listen_address, validate_dial_address,
  refuse_unspecified, validate_transport, normal_transport, check_transport, check_endpoints,
  validate_l3, normal_l3, check_l3, check_routes, check_protocols, validate_services, check_service,
  lower_service, validate,
}
use unknowntunnel.Config.Valid.{
  append-eq-empty, errors-eq-empty, check-eq-empty, check_error-eq-empty, is_tcp_or_udp-eq-true,
  mem-eq-false, between-eq-true, between-negsuc, Distinct, IsCarrierName, IsAddress, IsForward,
  names, split_and_validate-eq-none, validate_forwards-eq-empty,
}

check_error-if :
    {A E : Type 0} (needed : Bool) (o : Option A) (f : A → E)
    → (if needed then check_error o f else []) ≡ []
    → needed ≡ true
    → o ≡ none
check_error-if true o f h e = check_error-eq-empty o f h
check_error-if false o f h e = cc

needs_tcp :
    (mode : Bytes)
    → IsCarrierName mode ⊎ (mode ≡ codes "both")
    → mode ≢ codes "udp"
    → bytes_eq mode (codes "tcp") || bytes_eq mode (codes "both") ≡ true
needs_tcp mode h n =
    ground (arith, bytes_eq_iff mode (codes "tcp"), bytes_eq_iff mode (codes "both"))

needs_udp :
    (mode : Bytes)
    → IsCarrierName mode ⊎ (mode ≡ codes "both")
    → mode ≢ codes "tcp"
    → bytes_eq mode (codes "udp") || bytes_eq mode (codes "both") ≡ true
needs_udp mode h n =
    ground (arith, bytes_eq_iff mode (codes "udp"), bytes_eq_iff mode (codes "both"))

if-not : {A : Type 0} (b : Bool) → b ≡ true → (x y : A) → (if not b then x else y) ≡ y
if-not true h x y = refl
if-not false h x y = cc

known_mode :
    (mode : Bytes)
    → not (is_tcp_or_udp mode || bytes_eq mode (codes "both")) ≡ false
    → IsCarrierName mode ⊎ (mode ≡ codes "both")
unfolding is_tcp_or_udp
known_mode mode h = ground (
  arith,
  bytes_eq_iff mode (codes "tcp"),
  bytes_eq_iff mode (codes "udp"),
  bytes_eq_iff mode (codes "both"),
)

module _ (text : Text) where
  pub record IsDialable (value : Bytes) : Type 0 where
    pub address : IsAddress text true value
    pub specified : (address.host ≢ codes "0.0.0.0") × (address.host ≢ codes "::")

  refuse_unspecified-eq-none :
      (r : Option (Bytes × ℤ) × Option AddressError) → refuse_unspecified text r ≡ none → r.1 ≡ none
  unfolding refuse_unspecified
  refuse_unspecified-eq-none (o, none) h = refl
  refuse_unspecified-eq-none (o, some e) h = cc

  validate_dial_address-eq-none :
      (value : Bytes) → validate_dial_address text value ≡ none → IsDialable value
  unfolding validate_dial_address refuse_unspecified
  validate_dial_address-eq-none value h =
      let a = split_and_validate-eq-none text value true (refuse_unspecified-eq-none _ h) in
      let q : refuse_unspecified text (some (a.host, pos a.port), none) ≡ none =
        subst (λ r. refuse_unspecified text r ≡ none) a.given h in
      record {
        address = a;
        specified = (
          λ e. ground (arith, q, bytes_eq_iff a.host (codes "0.0.0.0")),
          λ e. ground (arith, q, bytes_eq_iff a.host (codes "::")),
        );
      }

  pub record IsTransport (role : Bytes) (t : TransportConfig) : Type 0 where
    pub carrier : IsCarrierName t.mode ⊎ (t.mode ≡ codes "both")
    pub preferred : IsCarrierName t.prefer
    pub matches : (t.mode ≡ codes "both") ⊎ (t.prefer ≡ t.mode)
    pub listens_tcp :
        role ≡ codes "server" → t.mode ≢ codes "udp" → IsAddress text false t.listen_tcp
    pub listens_udp :
        role ≡ codes "server" → t.mode ≢ codes "tcp" → IsAddress text false t.listen_udp
    pub dials_tcp : role ≡ codes "client" → t.mode ≢ codes "udp" → IsDialable t.connect_tcp
    pub dials_udp : role ≡ codes "client" → t.mode ≢ codes "tcp" → IsDialable t.connect_udp

  endpoints-server :
      (a b : Bool) (t : TransportConfig)
      → check_endpoints text (codes "server") a b t ≡ []
      → (a ≡ true → validate_listen_address text t.listen_tcp ≡ none)
        × (b ≡ true → validate_listen_address text t.listen_udp ≡ none)
  unfolding check_endpoints bytes_eq
  endpoints-server a b t h =
      let (x, y) = append-eq-empty _ _ h in
      (
        check_error-if a (validate_listen_address text t.listen_tcp) _ x,
        check_error-if b (validate_listen_address text t.listen_udp) _ y,
      )

  endpoints-client :
      (a b : Bool) (t : TransportConfig)
      → check_endpoints text (codes "client") a b t ≡ []
      → (a ≡ true → validate_dial_address text t.connect_tcp ≡ none)
        × (b ≡ true → validate_dial_address text t.connect_udp ≡ none)
  unfolding check_endpoints bytes_eq
  endpoints-client a b t h =
      let (x, y) = append-eq-empty _ _ h in
      (
        check_error-if a (validate_dial_address text t.connect_tcp) _ x,
        check_error-if b (validate_dial_address text t.connect_udp) _ y,
      )

  check_transport-eq-empty :
      (role : Bytes) (t : TransportConfig) → check_transport text role t ≡ [] → IsTransport role t
  unfolding check_transport validate_listen_address
  check_transport-eq-empty role t h =
      let both = bytes_eq t.mode (codes "both") in
      let tcp = bytes_eq t.mode (codes "tcp") || both in
      let udp = bytes_eq t.mode (codes "udp") || both in
      let (mode, (prefer, (matching, (endpoints, _)))) = errors-eq-empty _ h in
      let mode' = check-eq-empty (not (is_tcp_or_udp t.mode || both)) _ mode in
      let matching' = check-eq-empty (not both && not (bytes_eq t.prefer t.mode)) _ matching in
      let carrier : IsCarrierName t.mode ⊎ (t.mode ≡ codes "both") = known_mode t.mode mode' in
      record {
        carrier = carrier;
        preferred = is_tcp_or_udp-eq-true t.prefer (check-eq-empty _ _ prefer);
        matches =
            ground
              (arith, bytes_eq_iff t.mode (codes "both"), bytes_eq_iff t.prefer t.mode, matching');
        listens_tcp = λ server other. split_and_validate-eq-none text t.listen_tcp false (
            (endpoints-server tcp udp t
                (subst (λ r. check_endpoints text r tcp udp t ≡ []) server endpoints)).0
              (needs_tcp t.mode carrier other));
        listens_udp = λ server other. split_and_validate-eq-none text t.listen_udp false (
            (endpoints-server tcp udp t
                (subst (λ r. check_endpoints text r tcp udp t ≡ []) server endpoints)).1
              (needs_udp t.mode carrier other));
        dials_tcp = λ client other. validate_dial_address-eq-none t.connect_tcp (
            (endpoints-client tcp udp t
                (subst (λ r. check_endpoints text r tcp udp t ≡ []) client endpoints)).0
              (needs_tcp t.mode carrier other));
        dials_udp = λ client other. validate_dial_address-eq-none t.connect_udp (
            (endpoints-client tcp udp t
                (subst (λ r. check_endpoints text r tcp udp t ≡ []) client endpoints)).1
              (needs_udp t.mode carrier other));
      }

  pub record IsL3 (l : L3Config) : Type 0 where
    pub named : valid_interface l.interface_name ≡ true
    pub addressed : text.is_cidr l.address ≡ true
    pub sized : (n : ℕ) × (l.mtu ≡ pos n) × (576 ≤ n) × (n ≤ 1300)
    pub routed : All (λ r. text.is_cidr r ≡ true) l.routes
    pub carried : All IsCarrierName l.allow_protocols
    pub distinct : Distinct [] l.allow_protocols

  check_routes-eq-empty :
      (rs : List Bytes) → check_routes text rs ≡ [] → All (λ r. text.is_cidr r ≡ true) rs
  unfolding check_routes
  check_routes-eq-empty [] h = tt
  check_routes-eq-empty (r ∷ rs) h =
      let (x, y) = append-eq-empty _ _ h in
      let x' = check-eq-empty (not (text.is_cidr r)) _ x in
      (ground (arith, x'), check_routes-eq-empty rs y)

  check_protocols-eq-empty :
      (seen ps : List Bytes)
      → check_protocols text seen ps ≡ []
      → All IsCarrierName ps × Distinct seen ps
  unfolding check_protocols Distinct
  check_protocols-eq-empty seen [] h = (tt, tt)
  check_protocols-eq-empty seen (p ∷ ps) h =
      let (x, (y, (z, _))) = errors-eq-empty _ h in
      let (carried, distinct) = check_protocols-eq-empty (p ∷ seen) ps z in
      (
        (is_tcp_or_udp-eq-true p (check-eq-empty _ _ x), carried),
        (mem-eq-false p seen (check-eq-empty _ _ y), distinct),
      )

  between-known :
      (n : ℤ) → between 576 1300 n ≡ true → (k : ℕ) × (n ≡ pos k) × (576 ≤ k) × (k ≤ 1300)
  between-known (pos k) h = let (lo, hi) = between-eq-true 576 1300 k h in (k, refl, lo, hi)
  between-known (negsuc k) h = absurd (ground (arith, between-negsuc 576 1300 k))

  check_l3-eq-empty : (l : L3Config) → check_l3 text l ≡ [] → IsL3 l
  unfolding check_l3
  check_l3-eq-empty l h =
      let (named, (addressed, (sized, (routed, (protocols, _))))) = errors-eq-empty _ h in
      let named' = check-eq-empty (not (valid_interface l.interface_name)) _ named in
      let addressed' = check-eq-empty (not (text.is_cidr l.address)) _ addressed in
      let sized' = check-eq-empty (not (between 576 1300 l.mtu)) _ sized in
      let fits : between 576 1300 l.mtu ≡ true = ground (arith, sized') in
      let (carried, distinct) = check_protocols-eq-empty [] l.allow_protocols protocols in
      record {
        named = ground (arith, named');
        addressed = ground (arith, addressed');
        sized = between-known l.mtu fits;
        routed = check_routes-eq-empty l.routes routed;
        carried = carried;
        distinct = distinct;
      }

  validate_l3-eq-empty :
      (l : L3Config) → (validate_l3 text l).1 ≡ [] → l.enabled ≡ true → IsL3 (validate_l3 text l).0
  unfolding validate_l3
  validate_l3-eq-empty l h on =
      let e =
        if-not {A = L3Config × List ConfigError} l.enabled on (l, [])
          (normal_l3 text l, check_l3 text (normal_l3 text l)) in
      subst (λ r. IsL3 r.0) (sym e) (check_l3-eq-empty (normal_l3 text l) (cc (e, h)))

  pub record IsService (entry : Bytes × Service) : Type 0 where
    pub named : valid_identifier entry.0 ≡ true
    pub carrier : IsCarrierName entry.1.network
    pub dials : IsDialable entry.1.address

  check_service-eq-empty :
      (entry : Bytes × Service) → check_service text entry ≡ [] → IsService entry
  unfolding check_service
  check_service-eq-empty (name, svc) h = elim (Bool-cases (valid_identifier name)) [
    | inl good ↦
        let (x, (y, _)) = errors-eq-empty _ (
          subst
            (λ b.
              (if not b
                then bad_service_name name ∷ []
                else errors (
                    check (not (is_tcp_or_udp svc.network)) (bad_network name)
                    ∷ check_error (validate_dial_address text svc.address)
                        (bad_service_address name)
                    ∷ []))
              ≡ [])
            good h) in
        record {
          named = good;
          carrier = is_tcp_or_udp-eq-true svc.network (check-eq-empty _ _ x);
          dials = validate_dial_address-eq-none svc.address (check_error-eq-empty _ _ y);
        }
    | inr bad ↦ absurd (ground (arith, bad, h))
  ]

  validate_services-eq-empty :
      (m : Map Bytes Service)
      → (validate_services text m).1 ≡ []
      → All IsService (validate_services text m).0
  unfolding validate_services
  validate_services-eq-empty [] h = tt
  validate_services-eq-empty (entry ∷ rest) h =
      let (here, later) = append-eq-empty _ _ h in
      (
        check_service-eq-empty (lower_service text entry) here,
        validate_services-eq-empty rest later,
      )

  pub record IsValid (c : Config) : Type 0 where
    pub node_id : valid_identifier c.node_id ≡ true
    pub peer_id : valid_identifier c.peer_id ≡ true
    pub differ : c.node_id ≢ c.peer_id
    pub role : (c.role ≡ codes "server") ⊎ (c.role ≡ codes "client")
    pub secret : c.auth.secret_file ≢ []
    pub transport : IsTransport c.role c.transport
    pub l3 : c.l3.enabled ≡ true → IsL3 c.l3
    pub services : All IsService c.services
    pub forwards : All (IsForward text) c.forwards
    pub distinct : Distinct [] (names text c.forwards)

  enabled-validate_l3 : (l : L3Config) → (validate_l3 text l).0.enabled ≡ l.enabled
  unfolding validate_l3 normal_l3
  enabled-validate_l3 l = elim (Bool-cases l.enabled) [
    | inl e ↦ ground (arith, e)
    | inr e ↦ ground (arith, e)
  ]

  different :
      (a b : Bytes)
      → bytes_eq a b && not (bytes_eq a []) ≡ false
      → valid_identifier a ≡ true
      → a ≢ b
  unfolding valid_identifier
  different a b h v = ground (arith, bytes_eq_iff a b, bytes_eq_iff a [])

  known_role :
      (role : Bytes)
      → not (bytes_eq role (codes "server") || bytes_eq role (codes "client")) ≡ false
      → (role ≡ codes "server") ⊎ (role ≡ codes "client")
  known_role role h =
      ground (arith, bytes_eq_iff role (codes "server"), bytes_eq_iff role (codes "client"))

  -- A configuration that Validate leaves without errors is valid: identifiers are well formed
  -- and differ, the role is server or client, a secret file is named, modes and preferred
  -- carrier match, every address that the role and the mode need has a host and a port from 1
  -- to 65535 and is no unspecified address where it is dialled, an enabled L3 part has an MTU
  -- from 576 to 1300 and distinct protocols tcp or udp, every service and forward is well
  -- formed, and forward names are distinct.
  pub validate-IsValid : (c : Config) → (validate text c).1 ≡ [] → IsValid (validate text c).0
  unfolding validate validate_transport
  validate-IsValid c h =
      let (node, (peer, (same, (role, (secret, (transport, (l3, (services, (forwards, _))))))))) =
        errors-eq-empty _ h in
      let node' = check-eq-empty (not (valid_identifier c.node_id)) _ node in
      let peer' = check-eq-empty (not (valid_identifier c.peer_id)) _ peer in
      let node_good : valid_identifier c.node_id ≡ true = ground (arith, node') in
      let secret' = check-eq-empty (bytes_eq c.auth.secret_file []) _ secret in
      let (all, distinct) = validate_forwards-eq-empty text [] c.forwards forwards in
      record {
        node_id = node_good;
        peer_id = ground (arith, peer');
        differ = different c.node_id c.peer_id (check-eq-empty _ _ same) node_good;
        role = known_role (text.to_lower c.role) (check-eq-empty _ _ role);
        secret = λ e. ground (arith, secret', bytes_eq_iff c.auth.secret_file []);
        transport =
            check_transport-eq-empty (text.to_lower c.role) (normal_transport text c.transport)
              transport;
        l3 = λ on. validate_l3-eq-empty c.l3 l3 (cc (enabled-validate_l3 c.l3, on));
        services = validate_services-eq-empty c.services services;
        forwards = all;
        distinct = distinct;
      }
