-- ===== src/Dialogue/Services.antt =====
-- internal/admin/admin.go, `configureServices` and `configureForwards`.
use unknowntunnel.Prelude.{
  ℕ, zero, suc, ◌+◌, Bool, true, false, ◌||◌, ltb, List, [], ◌∷◌, ◌++◌, Bytes, bytes_eq, codes,
  Option, none, some, length, get_elem?, Map, bytes_key, lookup, insert, ℤ, pos, negsuc,
}
use unknowntunnel.Config.{Service, Forward, mem}
use unknowntunnel.Site.{choose, Site, Console, ◌>>=◌, ◌>>◌, pure, refuse_if, duplicate_name}
use unknowntunnel.Instances.{sorted_service_names}
use unknowntunnel.Console.{value_or, prompt_required, prompt_identifier, prompt_int, yes_no, choice}

pub has_service : Bytes → Map Bytes Service → Bool
has_service name services = elim (lookup name services) [ none ↦ false | some _ ↦ true ]

module _ (site : Site) where
  pub numbered_text : Bytes → ℕ → Bytes
  numbered_text prefix i = prefix ++ site.itoa (pos (i + 1))

  pub service_at : Map Bytes Service → Option Bytes → Bytes × Service
  service_at services none = ([], record { network = codes "tcp"; address = codes "127.0.0.1:443" })
  service_at services (some name) = elim (lookup name services) [
    | none ↦ (name, record { network = []; address = [] })
    | some svc ↦ (name, svc)
  ]

  -- One round of the loop over the services, and the loop, with the number of rounds that are left.
  pub ask_service :
      Map Bytes Service → List Bytes → ℕ → Map Bytes Service → Console (Map Bytes Service)
  unfolding service_at numbered_text has_service
  ask_service old names i services = do
    let (old_name, svc) = service_at old (get_elem? names i)
    name ← prompt_identifier site (value_or old_name (numbered_text (codes "service-") i))
    refuse_if (has_service name services) (duplicate_name name)
    network ← choice site (codes "tcp" ∷ codes "udp" ∷ []) (value_or svc.network (codes "tcp"))
    address ← prompt_required site (value_or svc.address (codes "127.0.0.1:443"))
    pure (insert name (record { network = network; address = address }) services)

  pub ask_services :
      Map Bytes Service → List Bytes → ℕ → ℕ → Map Bytes Service → Console (Map Bytes Service)
  unfolding ask_service
  ask_services old names i zero services = pure services
  ask_services old names i (suc left) services = do
    more ← ask_service old names i services
    ask_services old names (i + 1) left more

  pub count_of : ℤ → ℕ
  count_of (pos n) = n
  count_of (negsuc n) = 0

  pub wanted_services : Map Bytes Service → Console (Map Bytes Service)
  unfolding ask_services count_of
  wanted_services services = do
    let names = sorted_service_names services
    count ← prompt_int site (pos (length names)) 0 256
    ask_services services names 0 (count_of count) []

  unfoldable pub configure_services : Bytes → Map Bytes Service → Console (Map Bytes Service)
  unfolding wanted_services choose
  configure_services role services = do
    configure ← yes_no site (bytes_eq role (codes "server") || ltb 0 (length services))
    choose configure (wanted_services services) (pure [])

  pub forward_at : Option Forward → Forward
  forward_at none = record {
    name = [];
    protocol = codes "tcp";
    listen = codes "0.0.0.0:443";
    service = codes "service-1";
  }
  forward_at (some f) = f

  pub ask_forward : List Forward → ℕ → List Bytes → Console Forward
  unfolding forward_at numbered_text
  ask_forward old i seen = do
    let f = forward_at (get_elem? old i)
    name ← prompt_identifier site (value_or f.name (numbered_text (codes "forward-") i))
    refuse_if (mem name seen) (duplicate_name name)
    protocol ← choice site (codes "tcp" ∷ codes "udp" ∷ []) (value_or f.protocol (codes "tcp"))
    listen ← prompt_required site (value_or f.listen (codes "0.0.0.0:443"))
    service ← prompt_identifier site (value_or f.service (codes "service-1"))
    pure (record { name = name; protocol = protocol; listen = listen; service = service })

  -- The loop over the forwards; `seen` holds the names before.
  pub ask_forwards : List Forward → ℕ → ℕ → List Bytes → Console (List Forward)
  unfolding ask_forward
  ask_forwards old i zero seen = pure []
  ask_forwards old i (suc left) seen = do
    f ← ask_forward old i seen
    rest ← ask_forwards old (i + 1) left (f.name ∷ seen)
    pure (f ∷ rest)

  pub wanted_forwards : List Forward → Console (List Forward)
  unfolding ask_forwards count_of
  wanted_forwards old = do
    count ← prompt_int site (pos (length old)) 0 256
    ask_forwards old 0 (count_of count) []

  unfoldable pub configure_forwards : Bytes → List Forward → Console (List Forward)
  unfolding wanted_forwards choose
  configure_forwards role old = do
    configure ← yes_no site (bytes_eq role (codes "client") || ltb 0 (length old))
    choose configure (wanted_forwards old) (pure [])
