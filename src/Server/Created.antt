-- ===== src/Server/Created.antt =====
-- src/server/mpp.rs: what a server that `create_movement` makes is ready for.
use mpp_movement.Prelude.{
  ◌≡◌, refl, subst, ap, Bool, true, false, Option, none, some, ok, bind-eq-ok, ok_or-eq-ok,
  is_empty, and_then, if◌then◌else◌, ok_or,
}
use mpp_movement.Text.{Text, trim}
use mpp_movement.Server.{invalid_config}
use mpp_movement.Server.Issue.{require_movement_config}
use mpp_movement.Server.Issued.{ok_injective}
use mpp_movement.Server.Building.{
  MovementBuilder, Created, create_movement, secret_key_env_var, or_else_env, filled,
}

kept_sound :
    (blank : Bool) (value : Text) {key : Text}
    → (if blank then none else some value) ≡ some key
    → (value ≡ key) × (blank ≡ false)
kept_sound true value h = cc
kept_sound false value h = (cc, refl)

filled_sound :
    (o : Option Text) {key : Text}
    → and_then o filled ≡ some key
    → (o ≡ some key) × (is_empty (trim key) ≡ false)
filled_sound none h = cc
filled_sound (some value) h =
    let (same, full) = kept_sound (is_empty (trim value)) value h in
    (ap (λ t. some t) same, subst (λ t. is_empty (trim t) ≡ false) same full)

-- A server that holds what its builder was given.
pub record IsReady (env : Text → Option Text) (b : MovementBuilder) (c : Created) : Type 0 where
  pub keyed : or_else_env b.secret_key (env secret_key_env_var) ≡ some c.mpp.secret_key
  pub not_blank : is_empty (trim c.mpp.secret_key) ≡ false
  pub configured : require_movement_config c.mpp ≡ ok (b.currency, b.recipient)
  pub realm : c.mpp.realm ≡ b.realm
  pub decimals : c.mpp.decimals ≡ b.decimals

-- A server that `create_movement` makes never has a blank key: its key is the builder's, or the
-- environment's where the builder has none; and it has a currency and a recipient, those of the
-- builder, so that its charges do not fail for want of them.
pub create_movement-IsReady :
    (env : Text → Option Text) (b : MovementBuilder) (c : Created)
    → create_movement env b ≡ ok c
    → IsReady env b c
unfolding create_movement require_movement_config
create_movement-IsReady env b c h =
    let given = and_then (or_else_env b.secret_key (env secret_key_env_var)) filled in
    let (key, found, made) = bind-eq-ok (ok_or given invalid_config) _ h in
    let (keyed, full) = filled_sound _ (ok_or-eq-ok given invalid_config found) in
    subst (IsReady env b) (ok_injective made)
      (record { keyed = keyed; not_blank = full; configured = refl; realm = refl; decimals = refl })
