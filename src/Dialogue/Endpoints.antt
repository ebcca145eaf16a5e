-- ===== src/Dialogue/Endpoints.antt =====
-- internal/admin/admin.go, `configureTransport`.
use unknowntunnel.Prelude.{
  Bool, false, ◌&&◌, ◌||◌, ◌==◌, [], ◌∷◌, ◌++◌, Bytes, bytes_eq, codes, Option, none, some,
  if◌then◌else◌, bytes_key,
}
use unknowntunnel.Config.{TransportConfig}
use unknowntunnel.Site.{choose, Site, Console, ◌>>=◌, pure}
use unknowntunnel.Console.{prompt, prompt_required, prompt_port, yes_no, first_endpoint}

-- `net.JoinHostPort`: a host with a colon stands in brackets.
unfoldable pub has_colon : Bytes → Bool
has_colon [] = false
has_colon (b ∷ bs) = (b == 58) || has_colon bs

unfoldable pub join_host_port : Bytes → Bytes → Bytes
unfolding has_colon
join_host_port host port =
    if has_colon host then codes "[" ++ host ++ codes "]:" ++ port else host ++ codes ":" ++ port

unfoldable pub is_mode : Bytes → Bytes → Bool
is_mode name mode = bytes_eq mode name || bytes_eq mode (codes "both")

module _ (site : Site) where
  -- The old endpoint's host and port, or the program's.
  unfoldable pub endpoint_or : Bytes → Option (Bytes × Bytes) → Bytes × Bytes
  endpoint_or host none = (host, codes "8443")
  endpoint_or host (some pair) = pair

  -- The second question of a dialogue with both carriers.
  unfoldable pub ask_separate : Bytes → Console Bool
  unfolding choose
  ask_separate mode = choose (bytes_eq mode (codes "both")) (yes_no site false) (pure false)

  -- The endpoints of one role: for TCP and for UDP, empty where the carrier is not used.
  unfoldable pub endpoints : Bytes → Bytes → Bytes → Console (Bytes × Bytes)
  unfolding ask_separate choose is_mode join_host_port
  endpoints mode host port = do
    separate ← ask_separate mode
    let tcp = if is_mode (codes "tcp") mode then join_host_port host port else []
    udp_port ← choose (is_mode (codes "udp") mode && separate) (prompt_port site port) (pure port)
    pure (tcp, if is_mode (codes "udp") mode then join_host_port host udp_port else [])

  pub listen_endpoints : TransportConfig → Console TransportConfig
  unfolding endpoint_or endpoints
  listen_endpoints t = do
    let (old_host, old_port) =
        endpoint_or (codes "0.0.0.0") (first_endpoint site (t.listen_tcp ∷ t.listen_udp ∷ []))
    host ← prompt site old_host
    port ← prompt_port site old_port
    pair ← endpoints t.mode host port
    pure (record t { listen_tcp = pair.0; listen_udp = pair.1; connect_tcp = []; connect_udp = [] })

  unfoldable pub connect_endpoints : TransportConfig → Console TransportConfig
  unfolding endpoint_or endpoints
  connect_endpoints t = do
    let (old_host, old_port) =
        endpoint_or [] (first_endpoint site (t.connect_tcp ∷ t.connect_udp ∷ []))
    host ← prompt_required site old_host
    port ← prompt_port site old_port
    pair ← endpoints t.mode host port
    pure (record t { listen_tcp = []; listen_udp = []; connect_tcp = pair.0; connect_udp = pair.1 })

  -- `configureTransport`.
  unfoldable pub configure_transport : Bytes → TransportConfig → Console TransportConfig
  unfolding listen_endpoints connect_endpoints choose
  configure_transport role t =
      choose (bytes_eq role (codes "server")) (listen_endpoints t) (connect_endpoints t)
