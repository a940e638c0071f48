-- ===== src/Ca/Guard.antt =====
-- The `EnvironmentPolicy` trait of implementations/rust/crates/ca-core/src/lib.rs and its
-- implementations.
use secure_pub_sub.Prelude.{◌≡◌, Bool, true, ◌&&◌, &&-eq-true, Option, none, Result, ok, is_ok}
use secure_pub_sub.Protocol.Types.{AgentId, TypeId}
use secure_pub_sub.Protocol.Environment.{EnvironmentRef}
use secure_pub_sub.Ca.Policy
use secure_pub_sub.Ca.Policy.{EnvironmentPolicyError, StaticEnvironmentPolicy}

-- What the authority asks of its policy.
pub record EnvironmentPolicy : Type 0 where
  pub validate_environment :
      AgentId → Option EnvironmentRef → EnvironmentRef → Result EnvironmentPolicyError (Unit {0})
  pub authorize_delivery : AgentId → EnvironmentRef → AgentId → EnvironmentRef → TypeId → Bool

-- A delivery is authorized only between environments that the policy accepts.
pub record IsPolicy (policy : EnvironmentPolicy) : Type 0 where
  pub authorizes :
      (publisher_id : AgentId) (publisher : EnvironmentRef) (subscriber_id : AgentId)
      (subscriber : EnvironmentRef) (type_id : TypeId)
      → policy.authorize_delivery publisher_id publisher subscriber_id subscriber type_id ≡ true
      → (is_ok (policy.validate_environment publisher_id none publisher) ≡ true)
        × (is_ok (policy.validate_environment subscriber_id none subscriber) ≡ true)

-- The trait's own `authorize_delivery`, over the two other methods.
abbrev pub with_default :
    (AgentId → Option EnvironmentRef → EnvironmentRef → Result EnvironmentPolicyError (Unit {0}))
    → (TypeId → EnvironmentRef → EnvironmentRef → Bool)
    → EnvironmentPolicy
with_default validate allows = record {
  validate_environment = validate;
  authorize_delivery = λ publisher_id publisher subscriber_id subscriber type_id.
      is_ok (validate publisher_id none publisher)
      && (is_ok (validate subscriber_id none subscriber) && allows type_id publisher subscriber);
}

-- `AllowAllEnvironmentPolicy`
abbrev pub allow_all : EnvironmentPolicy
allow_all = with_default (λ agent current proposed. ok tt) (λ type_id publisher subscriber. true)

-- `StaticEnvironmentPolicy`, and one snapshot of `DynamicEnvironmentPolicy`.
abbrev pub static_policy : StaticEnvironmentPolicy → EnvironmentPolicy
static_policy p =
    with_default (λ agent current proposed. Policy.validate_environment agent proposed p)
      (λ type_id publisher subscriber. Policy.allows_delivery type_id publisher subscriber p)

pub with_default-IsPolicy :
    (validate : AgentId
      → Option EnvironmentRef
      → EnvironmentRef
      → Result EnvironmentPolicyError (Unit {0}))
    (allows : TypeId → EnvironmentRef → EnvironmentRef → Bool)
    → IsPolicy (with_default validate allows)
with_default-IsPolicy validate allows = record {
  authorizes = λ publisher_id publisher subscriber_id subscriber type_id h.
      let (a, rest) = &&-eq-true (is_ok (validate publisher_id none publisher)) _ h in
      let (b, _) = &&-eq-true (is_ok (validate subscriber_id none subscriber)) _ rest in (a, b);
}
