-- ===== src/Proxy/Routing.antt =====
-- src/proxy/service.rs: what the route of a request has in common with it.
use mpp_movement.Prelude.{
  ◌≡◌, refl, sym, ap, ◌∙◌, subst, inl, inr, ◌⊎◌, Bool, true, false, ◌&&◌, List, [], ◌∷◌, ◌++◌,
  Option, none, some, arith, find, and_then, All, Any, Bool-cases, and-eq-true,
}
use mpp_movement.Text.{Text, codes, text_eq, trim_end_matches, eq_ignore_ascii_case}
use mpp_movement.Text.Equality.{text_eq_sound, strip_prefix-append}
use mpp_movement.Proxy
use mpp_movement.Proxy.{
  Route, Service, segments_of, method_allows, path_matches, match_route_path_only,
}
use mpp_movement.Proxy.Config.{
  ProxyConfig, ParsedRoute, strip_base, parse_path, fallback, route_for, match_route,
}
use mpp_movement.Proxy.Segments.{Fits, parse_path_segments, path_matches_iff, segments_of-slash}

module _ {A : Type 0} (p : A → Bool) where
  find-eq-some : (xs : List A) (x : A) → find p xs ≡ some x → (p x ≡ true) × Any (λ y. y ≡ x) xs
  find-eq-some [] x e = absurd (cc)
  find-eq-some (y ∷ ys) x e = elim (Bool-cases (p y)) [
    | inl holds ↦
        let same : y ≡ x = ground (arith, e, holds) in
        (subst (λ z. p z ≡ true) same holds, inl same)
    | inr fails ↦
        let (holds, found) = find-eq-some ys x (ground (arith, e, fails)) in (holds, inr found)
  ]

  find-eq-none : (xs : List A) → find p xs ≡ none → All (λ x. p x ≡ false) xs
  find-eq-none [] e = tt
  find-eq-none (y ∷ ys) e = elim (Bool-cases (p y)) [
    | inl holds ↦ absurd (ground (arith, e, holds))
    | inr fails ↦ (fails, find-eq-none ys (ground (arith, e, fails)))
  ]

and_then-eq-some :
    {A B : Type 0} (o : Option A) (f : A → Option B) (b : B)
    → and_then o f ≡ some b
    → (a : A) × (o ≡ some a) × (f a ≡ some b)
and_then-eq-some none f b e = absurd (cc)
and_then-eq-some (some a) f b e = (a, refl, e)

some-injective : {A : Type 0} {a b : A} → some a ≡ some b → a ≡ b
some-injective e = cc

-- A route takes a request if it allows its method, or if the request is a `POST` that no route of
-- the service takes by its method.
abbrev pub Takes : List Route → Text → Text → Route → Type 0
Takes routes method upstream r =
    (method_allows r.method method ≡ true)
    ⊎ ((eq_ignore_ascii_case method (codes "POST") ≡ true)
        × All (λ q. (method_allows q.method method && path_matches q.path upstream) ≡ false) routes)

fallback-eq-some :
    (o by_path : Option Route) (post : Bool) (r : Route)
    → fallback o post by_path ≡ some r
    → (o ≡ some r) ⊎ ((o ≡ none) × (post ≡ true) × (by_path ≡ some r))
fallback-eq-some (some q) by_path post r e = inl e
fallback-eq-some none by_path true r e = inr (refl, refl, e)
fallback-eq-some none by_path false r e = absurd (cc)

route_for_sound :
    (routes : List Route) (method upstream : Text) (r : Route)
    → route_for routes method upstream ≡ some r
    → Any (λ q. q ≡ r) routes
      × Fits (segments_of r.path) (segments_of upstream)
      × Takes routes method upstream r
unfolding route_for Proxy.match_route match_route_path_only
route_for_sound routes method upstream r e = elim (fallback-eq-some _ _ _ r e) [
  | inl found ↦
      let (holds, listed) = find-eq-some exact routes r found in
      let (allowed, fits) = and-eq-true _ _ holds in
      (listed, (path_matches_iff r.path upstream).0 fits, inl allowed)
  | inr (missing, post, found) ↦
      let (holds, listed) = find-eq-some by_path routes r found in
      (
        listed,
        (path_matches_iff r.path upstream).0 holds,
        inr (post, find-eq-none exact routes missing),
      )
]
  where
    exact : Route → Bool
    exact q = method_allows q.method method && path_matches q.path upstream

    by_path : Route → Bool
    by_path q = path_matches q.path upstream

-- What the route of a request has in common with it.
pub record IsRouted (config : ProxyConfig) (method path : Text) (p : ParsedRoute) : Type 0 where
  pub stripped : Text
  pub under_base : strip_base config path ≡ some stripped
  pub divided : segments_of stripped ≡ p.service.id ∷ segments_of p.upstream_path
  pub served : Any (λ s. s ≡ p.service) config.services
  pub listed : Any (λ r. r ≡ p.route) p.service.routes
  pub fits : Fits (segments_of p.route.path) (segments_of p.upstream_path)
  pub taken : Takes p.service.routes method p.upstream_path p.route

-- A request that finds a route lies under the base path; the segments behind the base are the id of
-- the service and those of the upstream path; the service is one of the configuration's, the route is
-- one of the service's, and its pattern fits the upstream path segment by segment; and the route
-- allows the method, or the request is a `POST` that no route of the service takes by its method.
pub match_route_sound :
    (config : ProxyConfig) (method path : Text) (p : ParsedRoute)
    → match_route config method path ≡ some p
    → IsRouted config method path p
unfolding match_route
match_route_sound config method path p e =
    let (stripped, under, e1) = and_then-eq-some (strip_base config path) _ p e in
    let ((id, upstream), divided, e2) = and_then-eq-some (parse_path stripped) _ p e1 in
    let (service, found, e3) =
      and_then-eq-some (find (λ s. text_eq s.id id) config.services) _ p e2 in
    let (route, taken, e4) = and_then-eq-some (route_for service.routes method upstream) _ p e3 in
    let (named, served) = find-eq-some (λ s. text_eq s.id id) config.services service found in
    let (listed, fits, takes) = route_for_sound service.routes method upstream route taken in
    let parts = parse_path_segments stripped id upstream divided in
    subst (IsRouted config method path) (some-injective e4) (record {
      stripped = stripped;
      under_base = under;
      divided =
          parts ∙ ap (λ i. i ∷ segments_of upstream) (sym (text_eq_sound service.id id named));
      served = served;
      listed = listed;
      fits = fits;
      taken = takes;
    })

-- Nothing need separate the base path from what follows it: with a slash between them or without
-- one, a request finds the same route.
pub match_route_glued :
    (services : List Service) (base method rest : Text)
    → match_route
        (record { base_path = some base; services = services })
        method
        (trim_end_matches b'/' base ++ rest)
      ≡ match_route
          (record { base_path = some base; services = services })
          method
          (trim_end_matches b'/' base ++ b'/' ∷ rest)
unfolding match_route strip_base parse_path
match_route_glued services base method rest =
    rw
      (
        strip_prefix-append (trim_end_matches b'/' base) rest,
        strip_prefix-append (trim_end_matches b'/' base) (b'/' ∷ rest),
        segments_of-slash rest,
      )
      refl
