-- ===== src/Dialogue/Layer3.antt =====
-- internal/admin/admin.go, `configureL3`.
use unknowntunnel.Prelude.{
  true, false, ◌==◌, List, [], ◌∷◌, ◌++◌, Bytes, bytes_eq, codes, Option, none, some, if◌then◌else◌,
  bytes_key, ℤ, pos, negsuc,
}
use unknowntunnel.Config.{L3Config}
use unknowntunnel.Site.{choose, Site, Console, ◌>>=◌, ◌>>◌, pure, fail, bad_route, get_files}
use unknowntunnel.Instances.{next_interface}
use unknowntunnel.Console.{
  value_or, prompt, prompt_interface, prompt_cidr, prompt_int, yes_no, choice, protocols_choice,
  split_csv,
}

-- `strings.Join` with a comma.
pub join_comma : List Bytes → Bytes
join_comma [] = []
join_comma (x ∷ []) = x
join_comma (x ∷ y ∷ ys) = x ++ codes "," ++ join_comma (y ∷ ys)

module _ (site : Site) where
  pub packet_types : Bytes → List Bytes
  packet_types mode =
      if bytes_eq mode (codes "both") then codes "tcp" ∷ codes "udp" ∷ [] else mode ∷ []

  pub bad_routes : List Bytes → Option Bytes
  bad_routes [] = none
  bad_routes (route ∷ routes) =
      let rest = bad_routes routes in if site.text.is_cidr route then rest else some route

  pub check_routes : Option Bytes → Console (Unit {0})
  check_routes none = pure tt
  check_routes (some route) = fail (bad_route route)

  pub default_address : Bytes → Bytes
  default_address role =
      if bytes_eq role (codes "server") then codes "10.77.0.2/30" else codes "10.77.0.1/30"

  pub mtu_or : ℤ → ℤ
  mtu_or (pos n) = if n == 0 then pos 1200 else pos n
  mtu_or (negsuc n) = negsuc n

  unfoldable pub no_l3 : L3Config
  no_l3 = record {
    enabled = false;
    interface_name = [];
    address = [];
    mtu = pos 0;
    routes = [];
    allow_protocols = [];
  }

  -- `configureL3`, where the network layer is wanted.
  pub enabled_l3 : Bytes → Bytes → L3Config → Console L3Config
  unfolding packet_types bad_routes check_routes default_address mtu_or
  enabled_l3 instance_name role l = do
    files ← get_files
    interface_name ←
        prompt_interface site (value_or l.interface_name (next_interface site files instance_name))
    address ← prompt_cidr site (value_or l.address (default_address role))
    mtu ← prompt_int site (mtu_or l.mtu) 576 1300
    packet_mode ←
        choice site (codes "tcp" ∷ codes "udp" ∷ codes "both" ∷ [])
          (protocols_choice site l.allow_protocols)
    routes_text ← prompt site (join_comma l.routes)
    let routes = split_csv site routes_text
    check_routes (bad_routes routes)
    pure (record {
      enabled = true;
      interface_name = interface_name;
      address = address;
      mtu = mtu;
      routes = routes;
      allow_protocols = packet_types packet_mode;
    })

  unfoldable pub configure_l3 : Bytes → Bytes → L3Config → Console L3Config
  unfolding enabled_l3 no_l3 choose
  configure_l3 instance_name role l = do
    enabled ← yes_no site l.enabled
    choose enabled (enabled_l3 instance_name role l) (pure no_l3)
