-- ===== src/Proxy/Config.antt =====
-- src/proxy/service.rs: `ProxyConfig`, which leads a request to a service and a route.
use mpp_movement.Prelude.{Bool, List, [], ◌∷◌, Option, none, some, if◌then◌else◌, find, and_then}
use mpp_movement.Text.{
  Text, codes, text_eq, join, trim_end_matches, strip_prefix, eq_ignore_ascii_case,
}
use mpp_movement.Proxy
use mpp_movement.Proxy.{Route, Service, segments_of, match_route_path_only}

pub record ProxyConfig : Type 0 where
  pub base_path : Option Text
  pub services : List Service

pub record ParsedRoute : Type 0 where
  pub service : Service
  pub route : Route
  pub upstream_path : Text

unfoldable pub strip_base : ProxyConfig → Text → Option Text
strip_base config path = elim config.base_path [
  | none ↦ some path
  | some base ↦ strip_prefix (trim_end_matches b'/' base) path
]

abbrev pub path_of : List Text → Option (Text × Text)
path_of [] = none
path_of (service_id ∷ segments) = some (service_id, b'/' ∷ join (codes "/") segments)

unfoldable pub parse_path : Text → Option (Text × Text)
parse_path path = path_of (segments_of path)

abbrev pub fallback : Option Route → Bool → Option Route → Option Route
fallback (some r) post by_path = some r
fallback none post by_path = if post then by_path else none

-- An exact match, or for a `POST` one by the path alone.
unfoldable pub route_for : List Route → Text → Text → Option Route
route_for routes method path =
    fallback (Proxy.match_route routes method path) (eq_ignore_ascii_case method (codes "POST"))
      (match_route_path_only routes path)

abbrev pub route_in : Text → Text → Service → Option ParsedRoute
route_in method upstream_path service =
    and_then (route_for service.routes method upstream_path)
      λ route. some (record { service = service; route = route; upstream_path = upstream_path })

abbrev pub service_in : ProxyConfig → Text → Text × Text → Option ParsedRoute
service_in config method (service_id, upstream_path) =
    and_then (find (λ s. text_eq s.id service_id) config.services) (route_in method upstream_path)

unfoldable pub match_route : ProxyConfig → Text → Text → Option ParsedRoute
unfolding strip_base parse_path
match_route config method path =
    and_then (strip_base config path)
      λ stripped. and_then (parse_path stripped) (service_in config method)
