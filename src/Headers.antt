-- ===== src/Headers.antt =====
-- src/protocol/core/headers.rs: the HTTP headers of the protocol. A suffix of the text stands for the
-- index into its characters.
pub mod Params
pub mod Fields
pub mod RoundTrip
pub mod Tokens
pub mod Fuel
pub mod Scheme
mod Tests
use mpp_movement.Prelude.{
  or_else, ℕ, zero, suc, ◌≡◌, refl, Bool, true, false, not, ◌&&◌, ◌||◌, List, [], ◌∷◌, ◌++◌, Option,
  none, some, Result, ok, err, ◌>>=◌, ◌>>◌, require, ok_or, ◌==◌, if◌then◌else◌, is_empty, all,
  length, find, map,
}
use mpp_movement.Text.{
  Text, codes, is_whitespace, is_ascii_lowercase, eq_ignore_ascii_case, trim, trim_start, split,
  split_at, join, starts_with, contains_char,
}
use mpp_movement.Map.{Map, lookup, insert}
use mpp_movement.Challenge.Types.{
  Codec, PaymentChallenge, ChallengeError, invalid_challenge, invalid_base64, new_name,
  is_valid_method,
}

abbrev pub bad_header : ChallengeError
bad_header = invalid_challenge none

-- The text behind a prefix of a given length in bytes that matches without regard to case.
abbrev pub rest_behind : Text → Option (Text × Text) → Option Text
rest_behind prefix none = none
rest_behind prefix (some (s, t)) = if eq_ignore_ascii_case s prefix then some t else none

unfoldable pub strip_payment_scheme : Text → Option Text
strip_payment_scheme header = rest_behind (codes "Payment") (split_at 7 (trim_start header))

abbrev pub is_payment : Text → Bool
is_payment s = elim (rest_behind (codes "payment ") (split_at 8 s)) [ none ↦ false | some t ↦ true ]

unfoldable pub extract_payment_scheme : Text → Option Text
extract_payment_scheme header = find is_payment (map trim (split b',' header))

-- `str::replace` of one character.
abbrev pub replace : ℕ → Text → Text → Text
replace x by [] = []
replace x by (c ∷ s) = if c == x then by ++ replace x by s else c ∷ replace x by s

abbrev pub backslash : ℕ
backslash = 92

abbrev pub quote : ℕ
quote = 34

unfoldable pub escape_quoted_value : Text → Result ChallengeError Text
escape_quoted_value s =
    if contains_char 13 s || contains_char 10 s
    then err bad_header
    else ok
        (replace quote (backslash ∷ quote ∷ []) (replace backslash (backslash ∷ backslash ∷ []) s))

-- The loops of `parse_auth_params`.
unfoldable pub skip_separators : Text → Text
skip_separators [] = []
skip_separators (c ∷ s) = elim (is_whitespace c || c == b',') [
  | true ↦ skip_separators s
  | false ↦ c ∷ s
]

abbrev pub cons_first : ℕ → Text × Text → Text × Text
cons_first c p = (c ∷ p.0, p.1)

unfoldable pub take_key : Text → Text × Text
take_key [] = ([], [])
take_key (c ∷ s) = elim (not (c == b'=') && not (is_whitespace c)) [
  | true ↦ cons_first c (take_key s)
  | false ↦ ([], c ∷ s)
]

unfoldable pub take_bare : Text → Text × Text
take_bare [] = ([], [])
take_bare (c ∷ s) = elim (not (is_whitespace c) && not (c == b',')) [
  | true ↦ cons_first c (take_bare s)
  | false ↦ ([], c ∷ s)
]

-- Behind the opening quote. A backslash at the very end stands for itself.
unfoldable pub take_quoted : Text → Text × Text
take_quoted [] = ([], [])
take_quoted (c ∷ []) = if c == quote then ([], []) else (c ∷ [], [])
take_quoted (c ∷ d ∷ s) = elim (c == quote) [
  | true ↦ ([], d ∷ s)
  | false ↦ elim (c == backslash) [
    | true ↦ cons_first d (take_quoted s)
    | false ↦ cons_first c (take_quoted (d ∷ s))
  ]
]

abbrev pub take_value : Text → Text × Text
take_value [] = ([], [])
take_value (c ∷ s) = if c == quote then take_quoted s else take_bare (c ∷ s)

abbrev pub contains_key : Text → Map Text → Bool
contains_key key params = elim (lookup key params) [ none ↦ false | some v ↦ true ]

-- What is left of the loop: none where the fuel runs out.
abbrev pub Rest : Type 0
Rest = Map Text → Text → Option (Result ChallengeError (Map Text))

-- A round of the loop, on fuel: each round takes a character at least. `go_on` is the rest of it.
abbrev pub round : Rest → Map Text → Text × Text → Option (Result ChallengeError (Map Text))
round go_on params (key, []) = go_on params []
round go_on params (key, c ∷ s) = elim (c == b'=') [
  | false ↦ go_on params (take_bare (c ∷ s)).1
  | true ↦ elim s [
    | [] ↦ some (ok params)
    | d ∷ t ↦ elim (contains_key key params) [
      | true ↦ some (err bad_header)
      | false ↦ let value = take_value (d ∷ t) in go_on (insert key value.0 params) value.1
    ]
  ]
]

abbrev pub at_token : Rest → Map Text → Text → Option (Result ChallengeError (Map Text))
at_token go_on params [] = some (ok params)
at_token go_on params (c ∷ s) = round go_on params (take_key (c ∷ s))

unfoldable pub params_loop : ℕ → Map Text → Text → Option (Result ChallengeError (Map Text))
params_loop zero params s = none
params_loop (suc fuel) params s = at_token (params_loop fuel) params (skip_separators s)

-- The fuel does not run out: each round takes a character of the text.
unfoldable pub parse_auth_params : Text → Result ChallengeError (Map Text)
parse_auth_params s = or_else (params_loop (suc (length s)) [] s) (err bad_header)

abbrev pub is_valid_digest_format : Text → Bool
is_valid_digest_format d = starts_with (codes "sha-256=") d

abbrev pub digest_fits : Option Text → Bool
digest_fits none = true
digest_fits (some d) = is_valid_digest_format d

abbrev pub strip_blank : Text → Option Text
strip_blank [] = none
strip_blank (c ∷ s) = if c == 32 || c == 9 then some s else none

module _ (codec : Codec) where
  open codec use {base64url_decode, from_slice}

  -- The challenge that the parameters describe.
  unfoldable pub read_challenge : Map Text → Result ChallengeError PaymentChallenge
  read_challenge params = do
    id ← ok_or (lookup (codes "id") params) bad_header
    require (not (is_empty id)) bad_header
    realm ← ok_or (lookup (codes "realm") params) bad_header
    method_raw ← ok_or (lookup (codes "method") params) bad_header
    require (is_valid_method method_raw) bad_header
    intent ← ok_or (lookup (codes "intent") params) bad_header
    request ← ok_or (lookup (codes "request") params) bad_header
    bytes ← ok_or (base64url_decode request) invalid_base64
    _ ← ok_or (from_slice bytes) bad_header
    let digest = lookup (codes "digest") params
    require (digest_fits digest) bad_header
    ok (record {
      id = id;
      realm = realm;
      method = new_name method_raw;
      intent = new_name intent;
      request = request;
      expires = lookup (codes "expires") params;
      description = lookup (codes "description") params;
      digest = digest;
      opaque = lookup (codes "opaque") params;
    })

  unfoldable pub parse_www_authenticate : Text → Result ChallengeError PaymentChallenge
  parse_www_authenticate header = do
    rest ← ok_or (strip_payment_scheme header) bad_header
    params_str ← ok_or (strip_blank rest) bad_header
    params ← parse_auth_params (trim_start params_str)
    read_challenge params

  unfoldable pub parse_www_authenticate_all :
      List Text → List (Result ChallengeError PaymentChallenge)
  parse_www_authenticate_all [] = []
  parse_www_authenticate_all (h ∷ hs) =
      if is_payment (trim_start h)
      then parse_www_authenticate h ∷ parse_www_authenticate_all hs
      else parse_www_authenticate_all hs

-- `key="value"`, escaped.
abbrev pub format_param : Text × Text → Result ChallengeError Text
format_param (key, value) = do
  escaped ← escape_quoted_value value
  ok (key ++ b'=' ∷ quote ∷ (escaped ++ quote ∷ []))

abbrev pub format_params : List (Text × Text) → Result ChallengeError (List Text)
format_params [] = ok []
format_params (p ∷ ps) = do part ← format_param p; parts ← format_params ps; ok (part ∷ parts)

abbrev pub if_some : Text → Option Text → List (Text × Text)
if_some key none = []
if_some key (some value) = (key, value) ∷ []

abbrev pub params_of : PaymentChallenge → List (Text × Text)
params_of c =
    (codes "id", c.id)
    ∷ (codes "realm", c.realm)
    ∷ (codes "method", c.method)
    ∷ (codes "intent", c.intent)
    ∷ (codes "request", c.request)
    ∷ (if_some (codes "expires") c.expires
        ++ (if_some (codes "description") c.description
            ++ (if_some (codes "digest") c.digest ++ if_some (codes "opaque") c.opaque)))

unfoldable pub format_www_authenticate : PaymentChallenge → Result ChallengeError Text
format_www_authenticate c = do
  parts ← format_params (params_of c)
  ok (codes "Payment " ++ join (codes ", ") parts)
