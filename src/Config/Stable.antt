-- ===== src/Config/Stable.antt =====
-- internal/config/config.go, `Validate` on a configuration that it has completed.
use unknowntunnel.Prelude.{
  ◌≡◌, ap, ap₂, refl, ◌∙◌, Bool, true, false, not, ◌&&◌, ◌||◌, List, [], ◌∷◌, ◌++◌, Bytes, codes,
  bytes_eq, bytes_eq_iff, Map, pos, negsuc, ℤ, if◌then◌else◌, arith,
}
use unknowntunnel.Config.{
  Text, Config, ConfigError, check, errors, bad_node_id, bad_peer_id, same_id, bad_role,
  no_secret_file, TransportConfig, L3Config, Service, Forward, default_prefer, normal_transport,
  validate_transport, lower_all, default_mtu, default_protocols, normal_l3, check_transport,
  check_l3, validate_l3, lower_service, check_service, validate_services, lower_forward,
  check_forward, validate_forwards, validate, valid_identifier,
}

-- What `strings.ToLower` does to a text that it returned, and to the two names that are lower case.
pub record IsLower (text : Text) : Type 0 where
  pub twice : (s : Bytes) → text.to_lower (text.to_lower s) ≡ text.to_lower s
  pub tcp : text.to_lower (codes "tcp") ≡ codes "tcp"
  pub udp : text.to_lower (codes "udp") ≡ codes "udp"
  pub empty : text.to_lower [] ≡ []

-- Validate leaves the path of the secret as it is.
pub validate-secret_file :
    (text : Text) (c : Config) → (validate text c).0.auth.secret_file ≡ c.auth.secret_file
unfolding validate
validate-secret_file text c = refl

module _ (text : Text) (low : IsLower text) where
  lower-default_prefer :
      (mode prefer : Bytes)
      → text.to_lower mode ≡ mode
      → text.to_lower prefer ≡ prefer
      → text.to_lower (default_prefer text mode prefer) ≡ default_prefer text mode prefer
  unfolding default_prefer
  lower-default_prefer mode prefer m p = ground (arith, m, p, low.udp)

  default_prefer-default_prefer :
      (mode prefer : Bytes)
      → default_prefer text mode (default_prefer text mode prefer) ≡ default_prefer text mode prefer
  unfolding default_prefer
  default_prefer-default_prefer mode prefer =
      ground (arith, bytes_eq_iff prefer [], bytes_eq_iff mode [])

  normal_transport-normal_transport :
      (t : TransportConfig)
      → normal_transport text (normal_transport text t) ≡ normal_transport text t
  unfolding normal_transport
  normal_transport-normal_transport t =
      let prefer =
        ap₂ (default_prefer text) (low.twice t.mode) (
          lower-default_prefer (text.to_lower t.mode) (text.to_lower t.prefer) (low.twice t.mode)
            (low.twice t.prefer))
        ∙ default_prefer-default_prefer (text.to_lower t.mode) (text.to_lower t.prefer) in
      λ i. record t { mode = low.twice t.mode i; prefer = prefer i }

  lower_all-lower_all : (ps : List Bytes) → lower_all text (lower_all text ps) ≡ lower_all text ps
  unfolding lower_all
  lower_all-lower_all [] = refl
  lower_all-lower_all (p ∷ ps) = ap₂ ◌∷◌ (low.twice p) (lower_all-lower_all ps)

  default_mtu-default_mtu :
      (mtu : ℤ) → default_mtu text (default_mtu text mtu) ≡ default_mtu text mtu
  unfolding default_mtu
  default_mtu-default_mtu (pos n) = ground arith
  default_mtu-default_mtu (negsuc n) = refl

  protocols-protocols :
      (ps : List Bytes)
      → lower_all text (default_protocols text (lower_all text (default_protocols text ps)))
        ≡ lower_all text (default_protocols text ps)
  unfolding lower_all default_protocols
  protocols-protocols [] =
      ap₂ (λ a b. a ∷ b ∷ []) (low.twice (codes "tcp")) (low.twice (codes "udp"))
  protocols-protocols (p ∷ ps) = lower_all-lower_all (p ∷ ps)

  lower_valid :
      (name : Bytes) (svc : Service) (b : Bool)
      → valid_identifier name ≡ b
      → lower_service text (lower_service text (name, svc)) ≡ lower_service text (name, svc)
  unfolding lower_service
  lower_valid name svc true e =
      rw (e, e) (λ i. (name, record svc { network = low.twice svc.network i }))
  lower_valid name svc false e = rw (e, e) refl

  lower_service-lower_service :
      (entry : Bytes × Service)
      → lower_service text (lower_service text entry) ≡ lower_service text entry
  lower_service-lower_service (name, svc) = lower_valid name svc (valid_identifier name) refl

  lower_forward-lower_forward :
      (f : Forward) → lower_forward text (lower_forward text f) ≡ lower_forward text f
  unfolding lower_forward
  lower_forward-lower_forward f = λ i. record f { protocol = low.twice f.protocol i }

  transport-transport :
      (role : Bytes) (t : TransportConfig)
      → validate_transport text role (validate_transport text role t).0
        ≡ validate_transport text role t
  unfolding validate_transport
  transport-transport role t =
      ap (λ n. (n, check_transport text role n)) (normal_transport-normal_transport t)

  -- `validate_l3` by whether the network layer is enabled.
  l3_by : Bool → L3Config → L3Config × List ConfigError
  l3_by b l = if not b then (l, []) else (normal_l3 text l, check_l3 text (normal_l3 text l))

  normal_l3-normal_l3 : (l : L3Config) → normal_l3 text (normal_l3 text l) ≡ normal_l3 text l
  unfolding normal_l3
  normal_l3-normal_l3 l = λ i. record l {
    mtu = default_mtu-default_mtu l.mtu i;
    allow_protocols = protocols-protocols l.allow_protocols i;
  }

  l3_by-l3_by :
      (b : Bool) (l : L3Config) → l.enabled ≡ b → validate_l3 text (l3_by b l).0 ≡ l3_by b l
  unfolding validate_l3 l3_by normal_l3
  l3_by-l3_by true l e =
      ap (λ b. l3_by b (normal_l3 text l)) e
      ∙ ap (λ n. (n, check_l3 text n)) (normal_l3-normal_l3 l)
  l3_by-l3_by false l e = ap (λ b. l3_by b l) e

  l3-l3 : (l : L3Config) → validate_l3 text (validate_l3 text l).0 ≡ validate_l3 text l
  unfolding validate_l3 l3_by
  l3-l3 l = l3_by-l3_by l.enabled l refl

  services-services :
      (services : Map Bytes Service)
      → validate_services text (validate_services text services).0 ≡ validate_services text services
  unfolding validate_services
  services-services [] = refl
  services-services (entry ∷ rest) =
      ap₂
        (λ (e : Bytes × Service) (r : Map Bytes Service × List ConfigError).
          (e ∷ r.0, check_service text e ++ r.1))
        (lower_service-lower_service entry) (services-services rest)

  forwards-forwards :
      (seen : List Bytes) (forwards : List Forward)
      → validate_forwards text seen (validate_forwards text seen forwards).0
        ≡ validate_forwards text seen forwards
  unfolding validate_forwards
  forwards-forwards seen [] = refl
  forwards-forwards seen (f ∷ rest) =
      ap₂
        (λ (e : Forward) (r : List Forward × List ConfigError).
          (e ∷ r.0, check_forward text seen e ++ r.1))
        (lower_forward-lower_forward f) (forwards-forwards (f.name ∷ seen) rest)

  -- `validate`, of what it makes of each part.
  together :
      Config
      → Bytes
      → TransportConfig × List ConfigError
      → L3Config × List ConfigError
      → Map Bytes Service × List ConfigError
      → List Forward × List ConfigError
      → Config × List ConfigError
  together c role t l s f = (
    record c { role = role; transport = t.0; l3 = l.0; services = s.0; forwards = f.0 },
    errors (
        check (not (valid_identifier c.node_id)) bad_node_id
        ∷ check (not (valid_identifier c.peer_id)) bad_peer_id
        ∷ check (bytes_eq c.node_id c.peer_id && not (bytes_eq c.node_id [])) same_id
        ∷ check (not (bytes_eq role (codes "server") || bytes_eq role (codes "client"))) bad_role
        ∷ check (bytes_eq c.auth.secret_file []) no_secret_file
        ∷ t.1
        ∷ l.1
        ∷ s.1
        ∷ f.1
        ∷ []),
  )

  -- If lower-casing is idempotent and leaves tcp, udp and the empty text alone, Validate on
  -- the configuration that it has left gives the same configuration and the same errors.
  pub validate-validate : (c : Config) → validate text (validate text c).0 ≡ validate text c
  unfolding validate together
  validate-validate c =
      let role = low.twice c.role in
      let t =
        ap
          (λ r.
            validate_transport text r
              (validate_transport text (text.to_lower c.role) c.transport).0)
          role
        ∙ transport-transport (text.to_lower c.role) c.transport in
      λ i.
        together c (role i) (t i) (l3-l3 c.l3 i) (services-services c.services i)
          (forwards-forwards [] c.forwards i)
