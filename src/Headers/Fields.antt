-- ===== src/Headers/Fields.antt =====
-- src/protocol/core/headers.rs: the parameters of a `WWW-Authenticate` header one by one.
use mathlib.Core.List.{append_assoc, append-nil}
use mpp_movement.Prelude.{
  not-eq-true, ℕ, ◌≡◌, refl, sym, ap, ◌∙◌, Bool, true, false, not, ◌&&◌, ◌||◌, List, [], ◌∷◌, ◌++◌,
  Option, none, some, ok, if◌then◌else◌, all, map, arith, and-eq-true,
}
use mpp_movement.Text.{
  Text, codes, text_eq, is_whitespace, is_ascii_lowercase, lower, to_ascii_lowercase, contains_char,
}
use mpp_movement.Text.Equality.{text_eq_refl}
use mpp_movement.Map.{Map, lookup, insert}
use mpp_movement.Headers.{escape_quoted_value, contains_key, format_params, if_some}
use mpp_movement.Headers.Params.{is_key, formatted, all_fresh, inserted}

-- No carriage return and no line feed.
abbrev pub is_clean : Text → Bool
is_clean s = not (contains_char 13 s || contains_char 10 s)

abbrev pub values_clean : List (Text × Text) → Bool
values_clean [] = true
values_clean ((key, value) ∷ ps) = is_clean value && values_clean ps

pub format_params-formatted :
    (ps : List (Text × Text)) → values_clean ps ≡ true → format_params ps ≡ ok (map formatted ps)
unfolding escape_quoted_value
format_params-formatted [] h = refl
format_params-formatted ((key, value) ∷ ps) h =
    let (clean, rest) = and-eq-true (is_clean value) _ h in
    rw (not-eq-true _ clean, escape_quoted_value) (rw (format_params-formatted ps rest) refl)

insert_new :
    (key value : Text) (params : Map Text)
    → contains_key key params ≡ false
    → insert key value params ≡ params ++ (key, value) ∷ []
unfolding insert lookup
insert_new key value [] h = refl
insert_new key value ((j, v) ∷ params) h =
    let (e, fresh) = other (text_eq j key) (lookup key params) h in
    rw (e, insert) (ap (λ ps. (j, v) ∷ ps) (insert_new key value params fresh))
  where
    other :
        (b : Bool) (o : Option Text)
        → elim (if b then some v else o) [ none ↦ false | some w ↦ true ] ≡ false
        → (b ≡ false) × (elim o [ none ↦ false | some w ↦ true ] ≡ false)
    other true o k = cc
    other false o k = (refl, k)

-- Fresh parameters are kept in their order.
pub inserted-append :
    (params : Map Text) (ps : List (Text × Text))
    → all_fresh params ps ≡ true
    → inserted params ps ≡ params ++ ps
inserted-append params [] h = sym (append-nil params)
inserted-append params ((key, value) ∷ ps) h =
    let (_, rest) = and-eq-true (is_key key) _ h in
    let (new, later) = and-eq-true (not (contains_key key params)) _ rest in
    inserted-append (insert key value params) ps later
    ∙ (ap (λ m. m ++ ps) (insert_new key value params (not-eq-true _ new))
        ∙ append_assoc params ((key, value) ∷ []) ps)

pub fresh_keys :
    (i r m n q : Text) (e d g o : Option Text)
    → all_fresh [] (
        (codes "id", i)
        ∷ (codes "realm", r)
        ∷ (codes "method", m)
        ∷ (codes "intent", n)
        ∷ (codes "request", q)
        ∷ (if_some (codes "expires") e
            ++ (if_some (codes "description") d
                ++ (if_some (codes "digest") g ++ if_some (codes "opaque") o))))
      ≡ true
unfolding lookup insert is_whitespace
fresh_keys i r m n q none none none none = refl
fresh_keys i r m n q none none none (some o) = refl
fresh_keys i r m n q none none (some g) none = refl
fresh_keys i r m n q none none (some g) (some o) = refl
fresh_keys i r m n q none (some d) none none = refl
fresh_keys i r m n q none (some d) none (some o) = refl
fresh_keys i r m n q none (some d) (some g) none = refl
fresh_keys i r m n q none (some d) (some g) (some o) = refl
fresh_keys i r m n q (some e) none none none = refl
fresh_keys i r m n q (some e) none none (some o) = refl
fresh_keys i r m n q (some e) none (some g) none = refl
fresh_keys i r m n q (some e) none (some g) (some o) = refl
fresh_keys i r m n q (some e) (some d) none none = refl
fresh_keys i r m n q (some e) (some d) none (some o) = refl
fresh_keys i r m n q (some e) (some d) (some g) none = refl
fresh_keys i r m n q (some e) (some d) (some g) (some o) = refl

pub lookup-if_some :
    (key other : Text) (o : Option Text) (m : Map Text)
    → text_eq other key ≡ false
    → lookup key (if_some other o ++ m) ≡ lookup key m
unfolding lookup
lookup-if_some key other none m h = refl
lookup-if_some key other (some v) m h = rw (h, lookup) refl

pub found_if_some :
    (key : Text) (o : Option Text) (m : Map Text)
    → lookup key m ≡ none
    → lookup key (if_some key o ++ m) ≡ o
unfolding lookup
found_if_some key none m h = h
found_if_some key (some v) m h = rw (text_eq_refl key, lookup) refl

pub lower_of_lowercase : (s : Text) → all is_ascii_lowercase s ≡ true → to_ascii_lowercase s ≡ s
lower_of_lowercase [] h = refl
lower_of_lowercase (c ∷ s) h =
    let (here, rest) = and-eq-true (is_ascii_lowercase c) _ h in
    cc (lower_char c here, lower_of_lowercase s rest)
  where
    lower_char : (c : ℕ) → is_ascii_lowercase c ≡ true → lower c ≡ c
    lower_char c k = ground (arith, k)
