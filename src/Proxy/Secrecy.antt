-- ===== src/Proxy/Secrecy.antt =====
-- src/proxy/service.rs: the headers for the upstream service, which carry its credentials, and
-- the catalogue.
use mpp_movement.Prelude.{
  ◌≡◌, refl, ap, inl, inr, not, ◌&&◌, ◌||◌, List, [], ◌∷◌, ◌++◌, map, Option, none, some, find,
  and_then, Bool-cases, is_empty, if◌then◌else◌,
}
use mpp_movement.Text.{
  Text, codes, text_eq, join, strip_prefix, trim_end_matches, contains_char, eq_ignore_ascii_case,
}
use mpp_movement.Json.{Json}
use mpp_movement.Proxy.{Service}
use mpp_movement.Proxy.Config.{ProxyConfig, strip_base}
use mpp_movement.Proxy.Discovery.{
  serialize_service, serialize_services, summary_line, section_of, sections_of, to_llms_txt,
  DiscoveryResponse, json, llms_txt, described, one_service, discovered, handle_discovery, array_of,
  preamble,
}

-- A service with other headers.
abbrev pub bare : Service → Service
bare s = record s { headers = [] }

map-bare :
    {B : Type 0} (f : Service → B)
    → ((s : Service) → f (bare s) ≡ f s)
    → (services : List Service) → map f (map bare services) ≡ map f services
map-bare f h [] = refl
map-bare f h (s ∷ services) = cc (h s, map-bare f h services)

sections_bare : (services : List Service) → sections_of (map bare services) ≡ sections_of services
unfolding section_of
sections_bare [] = refl
sections_bare (s ∷ services) = ap (λ x. section_of s ++ x) (sections_bare services)

llms_bare : (services : List Service) → to_llms_txt (map bare services) ≡ to_llms_txt services
unfolding to_llms_txt
llms_bare [] = refl
llms_bare (s ∷ services) =
    ap
      (λ (x : List Text × List Text).
        join (codes "\n") (preamble ++ codes "## Services" ∷ [] ∷ (x.0 ++ x.1)))
      (λ i. (map-bare summary_line same (s ∷ services) i, sections_bare (s ∷ services) i))
  where
    same : (s : Service) → summary_line (bare s) ≡ summary_line s
    same s = refl

services_bare :
    (services : List Service) → serialize_services (map bare services) ≡ serialize_services services
unfolding serialize_services serialize_service
services_bare services =
    ap (λ vs. Json.arr (array_of vs)) (map-bare serialize_service (λ s. refl) services)

described-bare :
    (id : Text) (services : List Service)
    → described (find (λ s. text_eq s.id id) (map bare services))
      ≡ described (find (λ s. text_eq s.id id) services)
unfolding serialize_service
described-bare id [] = refl
described-bare id (s ∷ services) = elim (Bool-cases (text_eq s.id id)) [
  | inl named ↦ rw named refl
  | inr other ↦ rw other (described-bare id services)
]

one_service-bare :
    (services : List Service) (id : Text)
    → one_service (map bare services) id ≡ one_service services id
one_service-bare services id =
    ap (λ x. if not (is_empty id) && not (contains_char b'/' id) then x else none)
      (described-bare id services)

discovered-bare :
    (services : List Service) (stripped : Text)
    → discovered (map bare services) stripped ≡ discovered services stripped
discovered-bare services stripped =
    ap
      (λ (x : Text × Json × Option DiscoveryResponse).
        if text_eq stripped (codes "/llms.txt")
        then some (llms_txt x.0)
        else if text_eq stripped (codes "/services") || text_eq stripped (codes "/services/")
        then some (json x.1)
        else x.2)
      (λ i. (
        llms_bare services i,
        services_bare services i,
        below (strip_prefix (codes "/services/") stripped) i,
      ))
  where
    below :
        (o : Option Text)
        → and_then o (λ rest. one_service (map bare services) (trim_end_matches b'/' rest))
          ≡ and_then o (λ rest. one_service services (trim_end_matches b'/' rest))
    below none = refl
    below (some rest) = one_service-bare services (trim_end_matches b'/' rest)

-- No answer of the catalogue shows anything of the headers for the upstream services: with all of
-- them taken out of the configuration, every request has the same answer.
pub handle_discovery_hides :
    (config : ProxyConfig) (method path : Text)
    → handle_discovery (record config { services = map bare config.services }) method path
      ≡ handle_discovery config method path
unfolding handle_discovery strip_base
handle_discovery_hides config method path =
    ap (λ x. if not (eq_ignore_ascii_case method (codes "GET")) then none else x)
      (answers (strip_base config path))
  where
    answers :
        (o : Option Text)
        → and_then o (discovered (map bare config.services))
          ≡ and_then o (discovered config.services)
    answers none = refl
    answers (some stripped) = discovered-bare config.services stripped
