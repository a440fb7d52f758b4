-- ===== src/Server/Building.antt =====
-- src/server/mod.rs, and `Mpp::create_movement` of src/server/mpp.rs: the configuration of a server.
-- The variables of the environment are a parameter.
use mpp_movement.Prelude.{
  ℕ, List, [], ◌∷◌, Option, none, some, Result, ok, ok_or, and_then, is_empty, if◌then◌else◌, ◌>>=◌,
}
use mpp_movement.Text.{Text, codes, contains, trim, trim_end_matches}
use mpp_movement.Server.{Mpp, IssueError, invalid_config}

-- src/protocol/methods/movement/network.rs.
pub data MovementNetwork : Type 0 where
  mainnet testnet : MovementNetwork

pub record MovementBuilder : Type 0 where
  pub currency : Text
  pub recipient : Text
  pub rest_url : Text
  pub realm : Text
  pub secret_key : Option Text
  pub decimals : ℕ
  pub network : Option MovementNetwork

unfoldable pub network_from_rest_url : Text → MovementNetwork
network_from_rest_url url = if contains (codes "testnet") url then testnet else mainnet

abbrev or_network : Option MovementNetwork → MovementNetwork → MovementNetwork
or_network none n = n
or_network (some m) n = m

-- `rest_url`: the network follows the URL where it has not been set.
unfoldable pub with_rest_url : Text → MovementBuilder → MovementBuilder
unfolding network_from_rest_url
with_rest_url url b = record b {
  rest_url = url;
  network = some (or_network b.network (network_from_rest_url url));
}

abbrev pub with_network : MovementNetwork → MovementBuilder → MovementBuilder
with_network n b = record b { network = some n }

abbrev pub with_currency : Text → MovementBuilder → MovementBuilder
with_currency addr b = record b { currency = addr }

abbrev pub with_realm : Text → MovementBuilder → MovementBuilder
with_realm realm b = record b { realm = realm }

abbrev pub with_key : Text → MovementBuilder → MovementBuilder
with_key key b = record b { secret_key = some key }

abbrev pub with_decimals : ℕ → MovementBuilder → MovementBuilder
with_decimals d b = record b { decimals = d }

-- The server with the URL of its payment method.
pub record Created : Type 0 where
  pub mpp : Mpp
  pub method_url : Text

abbrev pub secret_key_env_var : Text
secret_key_env_var = codes "MPP_SECRET_KEY"

abbrev pub realm_env_vars : List Text
realm_env_vars =
    codes "MPP_REALM"
    ∷ codes "FLY_APP_NAME"
    ∷ codes "HEROKU_APP_NAME"
    ∷ codes "HOST"
    ∷ codes "HOSTNAME"
    ∷ codes "RAILWAY_PUBLIC_DOMAIN"
    ∷ codes "RENDER_EXTERNAL_HOSTNAME"
    ∷ codes "VERCEL_URL"
    ∷ codes "WEBSITE_HOSTNAME"
    ∷ []

abbrev pub or_else_env : Option Text → Option Text → Option Text
or_else_env none o = o
or_else_env (some t) o = some t

-- A key that is more than blanks.
abbrev pub filled : Text → Option Text
filled value = if is_empty (trim value) then none else some value

module _ (env : Text → Option Text) where
  -- The value, unless it is missing or empty.
  abbrev pub named_or : Option Text → Text → Text
  named_or none rest = rest
  named_or (some value) rest = if is_empty value then rest else value

  unfoldable pub realm_in : List Text → Text
  realm_in [] = codes "MPP Payment"
  realm_in (name ∷ names) = named_or (env name) (realm_in names)

  unfoldable pub detect_realm : Text
  detect_realm = realm_in realm_env_vars

  unfoldable pub movement : Text → MovementBuilder
  movement recipient = record {
    currency = codes "0xa";
    recipient = recipient;
    rest_url = codes "https://mainnet.movementnetwork.xyz/v1";
    realm = detect_realm;
    secret_key = none;
    decimals = 8;
    network = none;
  }

  unfoldable pub create_movement : MovementBuilder → Result IssueError Created
  create_movement b = do
    secret_key ←
        ok_or (and_then (or_else_env b.secret_key (env secret_key_env_var)) filled) invalid_config
    ok (record {
      mpp = record {
        realm = b.realm;
        secret_key = secret_key;
        currency = some b.currency;
        recipient = some b.recipient;
        decimals = b.decimals;
      };
      method_url = trim_end_matches b'/' b.rest_url;
    })
