-- ===== src/Proxy/Discovery.antt =====
-- src/proxy/service.rs: the catalogue of services, as JSON and as text for language models.
use mpp_movement.Prelude.{
  ℕ, ◌-◌, Bool, true, false, not, ◌&&◌, ◌||◌, List, [], ◌∷◌, ◌++◌, map, Option, none, some, ltb,
  if◌then◌else◌, length, is_empty, find, filter, and_then,
}
use mpp_movement.Text.{
  Text, codes, text_eq, join, trim_end_matches, strip_prefix, contains_char, eq_ignore_ascii_case,
}
use mpp_movement.Text.Number.{to_string}
use mpp_movement.Json.{Json, null, str, arr, obj, Items, nil, item, Fields, end, field}
use mpp_movement.Proxy.{PaidEndpoint, Endpoint, free, paid, Route, Service}
use mpp_movement.Proxy.Config.{ProxyConfig, strip_base}

abbrev or_null : Option Text → Json
or_null none = null
or_null (some s) = str s

-- `m.insert(key, …)` where the option is there.
abbrev field_if : Text → Option Text → Fields → Fields
field_if key none fields = fields
field_if key (some s) fields = field key (str s) fields

unfoldable pub serialize_payment : Endpoint → Json
serialize_payment free = null
serialize_payment (paid p) = obj (
    field (codes "intent") (str p.intent) (
      field (codes "amount") (str p.amount) (
        field_if (codes "unitType") p.unit_type
          (field_if (codes "description") p.description end))))

unfoldable pub serialize_route : Route → Json
unfolding serialize_payment
serialize_route r = obj (
    field (codes "method") (or_null r.method) (
      field (codes "path") (str r.path) (
        field (codes "pattern") (str r.pattern)
          (field (codes "payment") (serialize_payment r.endpoint) end))))

abbrev pub array_of : List Json → Items
array_of [] = nil
array_of (v ∷ vs) = item v (array_of vs)

unfoldable pub serialize_service : Service → Json
unfolding serialize_route
serialize_service s = obj (
    field (codes "id") (str s.id) (
      field (codes "baseUrl") (str s.base_url)
        (field (codes "routes") (arr (array_of (map serialize_route s.routes))) end)))

unfoldable pub serialize_services : List Service → Json
serialize_services services = arr (array_of (map serialize_service services))

abbrev pub is_free : Route → Bool
is_free r = elim r.endpoint [ free ↦ true | paid p ↦ false ]

abbrev counted : ℕ → Text → List Text
counted n word = if ltb 0 n then (to_string n ++ word) ∷ [] else []

-- A line of the overview.
unfoldable pub summary_line : Service → Text
summary_line s =
    let free_count = length (filter is_free s.routes) in
    let paid_count = length s.routes - free_count in
    codes "- ["
    ++ (s.id
        ++ (codes "]("
            ++ (s.base_url
                ++ (codes "): "
                    ++ join (codes ", ") (
                        counted paid_count (codes " paid")
                        ++ counted free_count (codes " free"))))))

abbrev unit_part : PaidEndpoint → Text
unit_part p = elim p.unit_type [
  | none ↦ p.amount ++ codes " units"
  | some unit ↦ p.amount ++ (codes " units per " ++ unit)
]

abbrev quoted : Option Text → List Text
quoted none = []
quoted (some desc) = (codes "\"" ++ (desc ++ codes "\"")) ∷ []

abbrev route_price : Endpoint → Text
route_price free = codes "Free"
route_price (paid p) = join (codes " — ") (p.intent ∷ unit_part p ∷ quoted p.description)

route_line : Route → Text
route_line r = codes "- `" ++ (r.pattern ++ (codes "`: " ++ route_price r.endpoint))

unfoldable pub section_of : Service → List Text
unfolding route_line
section_of s = [] ∷ (codes "## " ++ s.id) ∷ [] ∷ map route_line s.routes

abbrev pub sections_of : List Service → List Text
sections_of [] = []
sections_of (s ∷ services) = section_of s ++ sections_of services

abbrev pub preamble : List Text
preamble =
    codes "# API Proxy"
    ∷ []
    ∷ codes "> Paid API proxy powered by [Machine Payments Protocol](https://mpp.dev)."
    ∷ []
    ∷ codes "For machine-readable service data, use `GET /services` (JSON)."
    ∷ []
    ∷ []

unfoldable pub to_llms_txt : List Service → Text
unfolding summary_line section_of
to_llms_txt [] = join (codes "\n") preamble
to_llms_txt (s ∷ services) = join (codes "\n") (
    preamble
    ++ codes "## Services" ∷ [] ∷ (map summary_line (s ∷ services) ++ sections_of (s ∷ services)))

pub data DiscoveryResponse : Type 0 where
  json : Json → DiscoveryResponse
  llms_txt : Text → DiscoveryResponse

abbrev pub described : Option Service → Option DiscoveryResponse
described none = none
described (some s) = some (json (serialize_service s))

abbrev pub one_service : List Service → Text → Option DiscoveryResponse
one_service services id =
    if not (is_empty id) && not (contains_char b'/' id)
    then described (find (λ s. text_eq s.id id) services)
    else none

abbrev pub discovered : List Service → Text → Option DiscoveryResponse
discovered services stripped =
    if text_eq stripped (codes "/llms.txt")
    then some (llms_txt (to_llms_txt services))
    else if text_eq stripped (codes "/services") || text_eq stripped (codes "/services/")
    then some (json (serialize_services services))
    else and_then (strip_prefix (codes "/services/") stripped)
        (λ rest. one_service services (trim_end_matches b'/' rest))

unfoldable pub handle_discovery : ProxyConfig → Text → Text → Option DiscoveryResponse
handle_discovery config method path =
    if not (eq_ignore_ascii_case method (codes "GET"))
    then none
    else and_then (strip_base config path) (discovered config.services)
