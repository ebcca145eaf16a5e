-- ===== src/Admin/Tests.antt =====
-- internal/admin/admin.go: the commands on a machine with one tunnel.
use unknowntunnel.Prelude.{
  ◌≡◌, refl, bytes_eq_iff, ap, false, inr, bytes_key, [], ◌∷◌, Bytes, bytes_eq, codes, some, lookup,
}
use unknowntunnel.Config.{valid_identifier, is_alphanumeric, is_safe, all_safe}
use unknowntunnel.Config.Tests.{checked_config, client_config_passes}
use unknowntunnel.Site.{Host, done, load, load_from, from_result, accepted}
use unknowntunnel.Site.Files.{host_of}
use unknowntunnel.Console.Tests.{home}
use unknowntunnel.Instances.{config_path}
use unknowntunnel.Instances.Shared.{IsSharedBy}
use unknowntunnel.Admin.{service, delete}
use unknowntunnel.Admin.Safety.{IsGuarded, service-IsGuarded}
use unknowntunnel.Admin.Removal.{IsSpared, delete-spares}

abbrev tunnel : Bytes
tunnel = codes "t1"

abbrev other : Bytes
other = codes "t2"

abbrev host : Host
host = record {
  input = some (codes "y") ∷ some (codes "y") ∷ [];
  files =
      (config_path home tunnel, []) ∷ (config_path home other, []) ∷ (codes "/s", codes "k") ∷ [];
  calls = [];
}

service-IsGuarded_example :
    IsGuarded home tunnel host (host_of host (service home tunnel (codes "restart") host))
service-IsGuarded_example = service-IsGuarded home tunnel (codes "restart") host

loads_tunnel : load home (config_path home tunnel) host ≡ done checked_config host
unfolding load config_path lookup bytes_eq
loads_tunnel = ap (λ r. from_result (accepted home r) host) client_config_passes

-- The other tunnel, whose configuration names the same secret.
IsSharedBy-other : IsSharedBy home host.files (codes "/s") tunnel other
unfolding config_path load_from lookup bytes_eq valid_identifier is_alphanumeric is_safe all_safe
IsSharedBy-other = record {
  valid = refl;
  different = λ e. absurd (cc ((bytes_eq_iff other tunnel).1 e));
  placed = refl;
  apart = λ e. absurd (cc ((bytes_eq_iff (config_path home other) (config_path home tunnel)).1 e));
  config = checked_config;
  loads = ap (accepted home) client_config_passes;
  same = refl;
}

delete-spares_example :
    lookup (codes "/s") (host_of host (delete home tunnel false host)).files
    ≡ lookup (codes "/s") host.files
unfolding config_path IsSpared
delete-spares_example =
    delete-spares home tunnel false checked_config (codes "/s") host loads_tunnel
      (λ e. absurd (cc e)) (inr (other, IsSharedBy-other))
