-- ===== src/Ca/Policy.antt =====
-- `StaticEnvironmentPolicy` of implementations/rust/crates/ca-core/src/lib.rs: which attributes an
-- agent may set, and which deliveries are allowed.
pub mod Decision
pub mod Isolation
pub mod Changes
use secure_pub_sub.Prelude.{
  ℕ, ℤ, pos, negsuc, Bool, true, false, ◌&&◌, ◌||◌, not, List, [], ◌∷◌, ◌++◌, Option, none, some,
  leb, nat_eq, any, all, length, Bytes, Result, ok, err, ◌>>=◌, ◌>>◌, ensure, ok_or, is_ok, is_some,
  if◌then◌else◌, ◌==◌, ℕ-Eq, List-Eq, Pair-Eq,
}
use secure_pub_sub.Prelude.Map
use secure_pub_sub.Prelude.Map.{Map}
use secure_pub_sub.Protocol.Types.{AgentId, AttributeId, TypeId, max_clauses, max_attribute_bytes}
use secure_pub_sub.Protocol.Values
use secure_pub_sub.Protocol.Values.{ValueRef, AttributeRef}
use secure_pub_sub.Protocol.Environment.{EnvironmentRef, entries, get}
use secure_pub_sub.Ca.Values.{
  AttributeType, bool_type, i64_type, bytes_type, type_eq, matches, AttributeAuthority,
  self_declared, ca_issued, authority_eq, AttributeValue, bool, i64, bytes, attribute_type, bool_eq,
  i64_eq, matches_ref, to_ref, from_ref, ref_eq, contains,
}

pub data EnvironmentPolicyError : Type 0 where
  unknown_attribute wrong_attribute_type ca_approval_required : EnvironmentPolicyError
  value_not_allowed invalid_configuration : EnvironmentPolicyError

pub record AttributeRule : Type 0 where
  pub rule_type : AttributeType
  pub authority : AttributeAuthority

pub record StaticEnvironmentPolicy : Type 0 where
  pub rules : Map AttributeId AttributeRule
  pub allowed_values : Map AttributeId (List AttributeValue)
  pub approvals : Map (AgentId × AttributeId) AttributeValue
  pub isolation : Map TypeId (List AttributeId)
  pub subscriber_requirements : Map (TypeId × AttributeId) (List AttributeValue)

abbrev pub new : StaticEnvironmentPolicy
new = record {
  rules = [];
  allowed_values = [];
  approvals = [];
  isolation = [];
  subscriber_requirements = [];
}

-- `AttributeValue::bytes`
unfoldable pub bounded_bytes : Bytes → Result EnvironmentPolicyError AttributeValue
bounded_bytes value = do
  ensure (leb (length value) max_attribute_bytes) invalid_configuration
  ok (bytes value)

unfoldable pub register_rule :
    AttributeId
    → AttributeType
    → AttributeAuthority
    → StaticEnvironmentPolicy
    → Result EnvironmentPolicyError StaticEnvironmentPolicy
register_rule attribute t authority p = elim (Map.get attribute p.rules) [
  | some existing ↦
      if type_eq existing.rule_type t && authority_eq existing.authority authority
      then ok p
      else err invalid_configuration
  | none ↦ ok (record p {
    rules = Map.insert attribute (record { rule_type = t; authority = authority }) p.rules;
  })
]

unfoldable pub register_self_declared :
    AttributeId
    → AttributeType
    → StaticEnvironmentPolicy
    → Result EnvironmentPolicyError StaticEnvironmentPolicy
register_self_declared attribute t p = register_rule attribute t self_declared p

unfoldable pub register_ca_issued :
    AttributeId
    → AttributeType
    → StaticEnvironmentPolicy
    → Result EnvironmentPolicyError StaticEnvironmentPolicy
register_ca_issued attribute t p = register_rule attribute t ca_issued p

abbrev pub values_or_default : Option (List AttributeValue) → List AttributeValue
values_or_default none = []
values_or_default (some values) = values

-- `if !values.contains(&value) { values.push(value) }`
abbrev pub push_new : AttributeValue → List AttributeValue → List AttributeValue
push_new value values = if contains values value then values else values ++ value ∷ []

unfoldable pub allow_value :
    AttributeId
    → AttributeValue
    → StaticEnvironmentPolicy
    → Result EnvironmentPolicyError StaticEnvironmentPolicy
allow_value attribute value p = do
  rule ← ok_or (Map.get attribute p.rules) invalid_configuration
  ensure (type_eq rule.rule_type (attribute_type value)) invalid_configuration
  let values = values_or_default (Map.get attribute p.allowed_values)
  ok (record p { allowed_values = Map.insert attribute (push_new value values) p.allowed_values })

-- The allow-list is absent or empty, or holds the value.
abbrev pub is_allowed : (AttributeValue → Bool) → Option (List AttributeValue) → Bool
is_allowed test none = true
is_allowed test (some []) = true
is_allowed test (some (v ∷ values)) = any test (v ∷ values)

unfoldable pub validate_configured_value :
    AttributeId
    → AttributeValue
    → StaticEnvironmentPolicy
    → Result EnvironmentPolicyError (Unit {0})
validate_configured_value attribute value p = do
  rule ← ok_or (Map.get attribute p.rules) invalid_configuration
  ensure (type_eq rule.rule_type (attribute_type value)) invalid_configuration
  ensure (is_allowed (λ v. matches_ref v (to_ref value)) (Map.get attribute p.allowed_values))
      value_not_allowed
  ok tt

unfoldable pub approve :
    AgentId
    → AttributeId
    → AttributeValue
    → StaticEnvironmentPolicy
    → Result EnvironmentPolicyError StaticEnvironmentPolicy
approve agent attribute value p = do
  rule ← ok_or (Map.get attribute p.rules) invalid_configuration
  ensure (authority_eq rule.authority ca_issued) invalid_configuration
  validate_configured_value attribute value p
  ok (record p { approvals = Map.insert (agent, attribute) value p.approvals })

-- The rounds of `isolate`.
unfoldable pub check_isolated :
    List AttributeId → StaticEnvironmentPolicy → Result EnvironmentPolicyError (Unit {0})
check_isolated [] p = ok tt
check_isolated (attribute ∷ rest) p = do
  rule ← ok_or (Map.get attribute p.rules) invalid_configuration
  ensure (authority_eq rule.authority ca_issued) invalid_configuration
  check_isolated rest p

unfoldable pub isolate :
    TypeId
    → List AttributeId
    → StaticEnvironmentPolicy
    → Result EnvironmentPolicyError StaticEnvironmentPolicy
isolate type_id attributes p = do
  ensure (not (nat_eq (length attributes) 0) && leb (length attributes) max_clauses)
      invalid_configuration
  check_isolated attributes p
  ok (record p { isolation = Map.insert type_id attributes p.isolation })

unfoldable pub allow_subscriber_value :
    TypeId
    → AttributeId
    → AttributeValue
    → StaticEnvironmentPolicy
    → Result EnvironmentPolicyError StaticEnvironmentPolicy
allow_subscriber_value type_id attribute value p = do
  rule ← ok_or (Map.get attribute p.rules) invalid_configuration
  ensure (authority_eq rule.authority ca_issued && type_eq rule.rule_type (attribute_type value))
      invalid_configuration
  validate_configured_value attribute value p
  let values = values_or_default (Map.get (type_id, attribute) p.subscriber_requirements)
  ok (record p {
    subscriber_requirements =
        Map.insert (type_id, attribute) (push_new value values) p.subscriber_requirements;
  })

abbrev pub approved_as : Option AttributeValue → ValueRef → Bool
approved_as none value = false
approved_as (some approved) value = matches_ref approved value

-- One round over the attributes of `validate_environment`.
unfoldable pub validate_attribute :
    AgentId → StaticEnvironmentPolicy → AttributeRef → Result EnvironmentPolicyError (Unit {0})
validate_attribute agent p a = do
  rule ← ok_or (Map.get a.id p.rules) unknown_attribute
  ensure (matches rule.rule_type a.value) wrong_attribute_type
  ensure (is_allowed (λ v. matches_ref v a.value) (Map.get a.id p.allowed_values)) value_not_allowed
  ensure
      (not (authority_eq rule.authority ca_issued)
        || approved_as (Map.get (agent, a.id) p.approvals) a.value)
      ca_approval_required
  ok tt

unfoldable pub validate_attributes :
    AgentId → StaticEnvironmentPolicy → List AttributeRef → Result EnvironmentPolicyError (Unit {0})
validate_attributes agent p [] = ok tt
validate_attributes agent p (a ∷ rest) = do
  validate_attribute agent p a
  validate_attributes agent p rest

abbrev pub shows : AttributeValue → Option ValueRef → Bool
shows value none = false
shows value (some candidate) = matches_ref value candidate

-- The rounds over the approvals.
unfoldable pub validate_approvals :
    AgentId
    → EnvironmentRef
    → List ((AgentId × AttributeId) × AttributeValue)
    → Result EnvironmentPolicyError (Unit {0})
validate_approvals agent proposed [] = ok tt
validate_approvals agent proposed (((approved_agent, attribute), value) ∷ rest) = do
  ensure (not (approved_agent == agent) || shows value (get attribute proposed))
      ca_approval_required
  validate_approvals agent proposed rest

unfoldable pub validate_environment :
    AgentId → EnvironmentRef → StaticEnvironmentPolicy → Result EnvironmentPolicyError (Unit {0})
validate_environment agent proposed p = do
  validate_attributes agent p (entries proposed)
  validate_approvals agent proposed p.approvals

-- `left.zip(right).is_some_and(|(l, r)| l == r)`
abbrev pub agree : Option ValueRef → Option ValueRef → Bool
agree (some a) (some b) = ref_eq a b
agree _ _ = false

unfoldable pub isolated : List AttributeId → EnvironmentRef → EnvironmentRef → Bool
isolated [] publisher subscriber = true
isolated (attribute ∷ rest) publisher subscriber =
    agree (get attribute publisher) (get attribute subscriber) && isolated rest publisher subscriber

abbrev pub admitted : List AttributeValue → Option ValueRef → Bool
admitted values none = false
admitted values (some candidate) = any (λ v. matches_ref v candidate) values

-- The rounds over the requirements of this type.
unfoldable pub required :
    TypeId → EnvironmentRef → List ((TypeId × AttributeId) × List AttributeValue) → Bool
required type_id subscriber [] = true
required type_id subscriber (((required_type, attribute), values) ∷ rest) =
    (not (nat_eq required_type type_id) || admitted values (get attribute subscriber))
    && required type_id subscriber rest

unfoldable pub allows_delivery :
    TypeId → EnvironmentRef → EnvironmentRef → StaticEnvironmentPolicy → Bool
allows_delivery type_id publisher subscriber p =
    elim (Map.get type_id p.isolation) [
      | none ↦ true
      | some attributes ↦ isolated attributes publisher subscriber
    ]
    && required type_id subscriber p.subscriber_requirements

unfoldable pub authorize_delivery :
    AgentId → EnvironmentRef → AgentId → EnvironmentRef → TypeId → StaticEnvironmentPolicy → Bool
authorize_delivery publisher_id publisher subscriber_id subscriber type_id p =
    is_ok (validate_environment publisher_id publisher p)
    && (is_ok (validate_environment subscriber_id subscriber p)
        && allows_delivery type_id publisher subscriber p)
