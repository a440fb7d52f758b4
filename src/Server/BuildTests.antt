-- ===== src/Server/BuildTests.antt =====
-- A server with its key from the environment.
use mpp_movement.Prelude.{◌≡◌, refl, Option, none, some, ok, err, if◌then◌else◌}
use mpp_movement.Text.{trim_end_matches, Text, codes, text_eq, trim, is_whitespace}
use mpp_movement.Server.{invalid_config}
use mpp_movement.Server.Building.{
  Created, movement, create_movement, with_key, with_rest_url, mainnet, network_from_rest_url,
  detect_realm, realm_in, secret_key_env_var,
}
use mpp_movement.Server.Created.{IsReady, create_movement-IsReady}

abbrev toy_env : Text → Option Text
toy_env name =
    if text_eq name secret_key_env_var
    then some (codes "k1")
    else if text_eq name (codes "HOST")
    then some (codes "api")
    else none

abbrev toy_created : Created
toy_created = record {
  mpp = record {
    realm = codes "api";
    secret_key = codes "k1";
    currency = some (codes "0xa");
    recipient = some (codes "0xb");
    decimals = 8;
  };
  method_url = codes "https://mainnet.movementnetwork.xyz/v1";
}

creates : create_movement toy_env (movement toy_env (codes "0xb")) ≡ ok toy_created
unfolding create_movement movement detect_realm realm_in trim is_whitespace trim_end_matches
creates = refl

-- A key of the builder that is blank hides that of the environment.
blank_refused :
    create_movement toy_env (with_key (codes " ") (movement toy_env (codes "0xb")))
    ≡ err invalid_config
unfolding create_movement movement trim is_whitespace
blank_refused = refl

-- The network follows the first URL alone.
first_url :
    (with_rest_url
      (codes "https://testnet.x")
      (with_rest_url (codes "https://main.x") (movement toy_env (codes "0xb")))).network
    ≡ some mainnet
unfolding with_rest_url network_from_rest_url movement
first_url = refl

create_movement-IsReady_example : IsReady toy_env (movement toy_env (codes "0xb")) toy_created
create_movement-IsReady_example =
    create_movement-IsReady toy_env (movement toy_env (codes "0xb")) toy_created creates
