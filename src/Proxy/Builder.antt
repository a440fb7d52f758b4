-- ===== src/Proxy/Builder.antt =====
-- src/proxy/service.rs: the builder of a service.
use mpp_movement.Prelude.{[], ◌∷◌, ◌++◌}
use mpp_movement.Text.{Text, codes}
use mpp_movement.Map.{insert}
use mpp_movement.Proxy.{Endpoint, Service, parse_route_pattern}

unfoldable pub new : Text → Text → Service
new id base_url = record { id = id; base_url = base_url; routes = []; headers = [] }

unfoldable pub header : Text → Text → Service → Service
header name value s = record s { headers = insert name value s.headers }

unfoldable pub bearer : Text → Service → Service
bearer token s = record s {
  headers = insert (codes "Authorization") (codes "Bearer " ++ token) s.headers;
}

unfoldable pub route : (Text → Text) → Text → Endpoint → Service → Service
route to_uppercase pattern endpoint s = record s {
  routes =
      s.routes
      ++ (record {
        method = (parse_route_pattern to_uppercase pattern).0;
        path = (parse_route_pattern to_uppercase pattern).1;
        pattern = pattern;
        endpoint = endpoint;
      })
        ∷ [];
}
