-- ===== src/Proxy.antt =====
-- src/proxy/service.rs: the routes of a paid proxy, and which of them a request takes.
pub mod Builder
pub mod Config
pub mod Segments
pub mod Routing
pub mod Discovery
pub mod Secrecy
pub mod Tests
use mpp_movement.Prelude.{
  ℕ, Bool, true, false, not, ◌&&◌, ◌||◌, List, [], ◌∷◌, ◌++◌, Option, none, some, leb, ◌==◌,
  if◌then◌else◌, length, is_empty, find, filter, and_then,
}
use mpp_movement.Text.{
  Text, codes, text_eq, elem, split, split_whitespace, join, trim, trim_end_matches, strip_prefix,
  starts_with, eq_ignore_ascii_case,
}
use mpp_movement.Map.{Map, insert}

pub record PaidEndpoint : Type 0 where
  pub intent : Text
  pub amount : Text
  pub unit_type : Option Text
  pub description : Option Text

pub data Endpoint : Type 0 where
  free : Endpoint
  paid : PaidEndpoint → Endpoint

pub record Route : Type 0 where
  pub method : Option Text
  pub path : Text
  pub pattern : Text
  pub endpoint : Endpoint

-- A `ServiceBuilder` has the fields of the service that it builds.
pub record Service : Type 0 where
  pub id : Text
  pub base_url : Text
  pub routes : List Route
  pub headers : Map Text

abbrev pub http_methods : List Text
http_methods =
    codes "GET"
    ∷ codes "POST"
    ∷ codes "PUT"
    ∷ codes "DELETE"
    ∷ codes "PATCH"
    ∷ codes "HEAD"
    ∷ codes "OPTIONS"
    ∷ []

-- `str::to_uppercase`, which reads Unicode's tables, is the parameter `to_uppercase`.
abbrev pub pattern_of : (Text → Text) → Text → List Text → Option Text × Text
pattern_of to_uppercase pattern (token ∷ more ∷ tokens) =
    if elem (to_uppercase token) http_methods
    then (some (to_uppercase token), join (codes " ") (more ∷ tokens))
    else (none, trim pattern)
pattern_of to_uppercase pattern _ = (none, trim pattern)

unfoldable pub parse_route_pattern : (Text → Text) → Text → Option Text × Text
parse_route_pattern to_uppercase pattern =
    pattern_of to_uppercase pattern (split_whitespace pattern)

-- `split('/').filter(|s| !s.is_empty())`
unfoldable pub segments_of : Text → List Text
segments_of path = filter (λ s. not (is_empty s)) (split b'/' path)

-- The walk over the two lists of segments, in step.
abbrev pub segments_match : List Text → List Text → Bool
segments_match (pat ∷ pats) (seg ∷ segs) =
    (starts_with (codes ":") pat || text_eq pat seg) && segments_match pats segs
segments_match _ _ = true

unfoldable pub path_matches : Text → Text → Bool
path_matches pattern path =
    if not (length (segments_of pattern) == length (segments_of path))
    then false
    else segments_match (segments_of pattern) (segments_of path)

abbrev pub method_allows : Option Text → Text → Bool
method_allows none method = true
method_allows (some m) method = eq_ignore_ascii_case m method

unfoldable pub match_route : List Route → Text → Text → Option Route
match_route routes method path =
    find (λ r. method_allows r.method method && path_matches r.path path) routes

unfoldable pub match_route_path_only : List Route → Text → Option Route
match_route_path_only routes path = find (λ r. path_matches r.path path) routes
