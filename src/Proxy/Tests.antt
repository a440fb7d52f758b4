-- ===== src/Proxy/Tests.antt =====
-- A small proxy, and the theorems on routes at it.
use mpp_movement.Prelude.{◌≡◌, refl, [], ◌∷◌, ◌++◌, some, if◌then◌else◌, leb, ◌-◌, ◌&&◌, map}
use mpp_movement.Text.{Text, codes, split_whitespace, is_whitespace, trim, trim_end_matches}
use mpp_movement.Proxy.{
  free, Service, parse_route_pattern, segments_of, path_matches, match_route, match_route_path_only,
}
use mpp_movement.Map.{insert}
use mpp_movement.Proxy.Builder
use mpp_movement.Proxy.Builder.{route, bearer}
use mpp_movement.Proxy.Config
use mpp_movement.Proxy.Config.{ProxyConfig, ParsedRoute, strip_base, parse_path, route_for}
use mpp_movement.Proxy.Routing.{IsRouted, match_route_sound, match_route_glued}
use mpp_movement.Proxy.Discovery.{handle_discovery}
use mpp_movement.Proxy.Secrecy.{bare, handle_discovery_hides}

-- Upper case of ASCII.
abbrev upper : Text → Text
upper = map (λ c. if leb 97 c && leb c 122 then c - 32 else c)

abbrev toy_service : Service
toy_service = record {
  id = codes "openai";
  base_url = codes "https://api.openai.com";
  routes =
      record {
        method = some (codes "GET");
        path = codes "/v1/models/:id";
        pattern = codes "GET /v1/models/:id";
        endpoint = free;
      }
      ∷ [];
  headers = (codes "Authorization", codes "Bearer sk") ∷ [];
}

-- The same service, from the builder.
builds :
    route upper
      (codes "get /v1/models/:id")
      free
      (bearer (codes "sk") (Builder.new (codes "openai") (codes "https://api.openai.com")))
    ≡ record toy_service {
      routes =
          record {
            method = some (codes "GET");
            path = codes "/v1/models/:id";
            pattern = codes "get /v1/models/:id";
            endpoint = free;
          }
          ∷ [];
    }
unfolding route bearer Builder.new parse_route_pattern split_whitespace is_whitespace trim insert
builds = refl

abbrev toy_config : ProxyConfig
toy_config = record { base_path = some (codes "/api"); services = toy_service ∷ [] }

abbrev toy_parsed : ParsedRoute
toy_parsed = record {
  service = toy_service;
  route = record {
    method = some (codes "GET");
    path = codes "/v1/models/:id";
    pattern = codes "GET /v1/models/:id";
    endpoint = free;
  };
  upstream_path = codes "/v1/models/gpt";
}

-- A `POST` takes the free route of the `GET`.
routes :
    Config.match_route toy_config (codes "POST") (codes "/api/openai/v1//models/gpt/")
    ≡ some toy_parsed
unfolding Config.match_route strip_base parse_path route_for match_route match_route_path_only
    path_matches segments_of trim_end_matches
routes = refl

match_route_sound_example :
    IsRouted toy_config (codes "POST") (codes "/api/openai/v1//models/gpt/") toy_parsed
match_route_sound_example = match_route_sound toy_config _ _ toy_parsed routes

match_route_glued_example :
    Config.match_route toy_config
      (codes "GET")
      (trim_end_matches b'/' (codes "/api") ++ codes "openai/v1/models/gpt")
    ≡ Config.match_route toy_config
        (codes "GET")
        (trim_end_matches b'/' (codes "/api") ++ b'/' ∷ codes "openai/v1/models/gpt")
match_route_glued_example =
    match_route_glued (toy_service ∷ []) (codes "/api") (codes "GET") (codes "openai/v1/models/gpt")

handle_discovery_hides_example :
    handle_discovery
      (record toy_config { services = bare toy_service ∷ [] })
      (codes "GET")
      (codes "/api/services/openai")
    ≡ handle_discovery toy_config (codes "GET") (codes "/api/services/openai")
handle_discovery_hides_example =
    handle_discovery_hides toy_config (codes "GET") (codes "/api/services/openai")
