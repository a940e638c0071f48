-- ===== src/Ca/Policy/Changes.antt =====
-- The operations that configure a policy, and what they preserve.
use secure_pub_sub.Prelude.{
  ◌≡◌, refl, sym, ap, ◌∙◌, subst, List, [], ◌∷◌, some, arith, nat_eq, nat_eq_iff, Bool-cases,
  Option-cases, inl, inr, Result, ok, ensure-eq-ok, >>=-eq-ok, ok_or, ok-injective, ℕ-Eq,
}
use secure_pub_sub.Prelude.Map
use secure_pub_sub.Prelude.Map.{get-insert}
use secure_pub_sub.Protocol.Types.{AgentId, AttributeId, TypeId}
use secure_pub_sub.Ca.Policy.{
  StaticEnvironmentPolicy, AttributeRule, EnvironmentPolicyError, register_rule, allow_value,
  approve, check_isolated, isolate, allow_subscriber_value, validate_configured_value,
  invalid_configuration,
}
use secure_pub_sub.Ca.Values.{AttributeType, AttributeAuthority, AttributeValue}
use secure_pub_sub.Ca.Policy.Isolation.{IsIsolating}

pub data Change : Type 0 where
  registers : AttributeId → AttributeType → AttributeAuthority → Change
  allows : AttributeId → AttributeValue → Change
  approves : AgentId → AttributeId → AttributeValue → Change
  isolates : TypeId → List AttributeId → Change
  requires : TypeId → AttributeId → AttributeValue → Change

abbrev pub apply :
    Change → StaticEnvironmentPolicy → Result EnvironmentPolicyError StaticEnvironmentPolicy
apply (registers attribute t authority) p = register_rule attribute t authority p
apply (allows attribute value) p = allow_value attribute value p
apply (approves agent attribute value) p = approve agent attribute value p
apply (isolates type_id attributes) p = isolate type_id attributes p
apply (requires type_id attribute value) p = allow_subscriber_value type_id attribute value p

-- Every attribute that isolates a type is issued by the CA.
abbrev pub IsPolicy : StaticEnvironmentPolicy → Type 0
IsPolicy p =
    (t : TypeId) (attributes : List AttributeId)
    → Map.get t p.isolation ≡ some attributes
    → IsIsolating p attributes

-- The rules of the one policy are rules of the other.
abbrev Extends : StaticEnvironmentPolicy → StaticEnvironmentPolicy → Type 0
Extends p p' =
    (id : AttributeId) (rule : AttributeRule)
    → Map.get id p.rules ≡ some rule
    → Map.get id p'.rules ≡ some rule

Extends-IsIsolating :
    (p p' : StaticEnvironmentPolicy) (attributes : List AttributeId)
    → Extends p p'
    → IsIsolating p attributes
    → IsIsolating p' attributes
Extends-IsIsolating p p' [] f h = tt
Extends-IsIsolating p p' (id ∷ rest) f ((rule, e, c), hs) =
    ((rule, f id rule e, c), Extends-IsIsolating p p' rest f hs)

check_isolated-IsIsolating :
    (p : StaticEnvironmentPolicy) (attributes : List AttributeId)
    → check_isolated attributes p ≡ ok tt
    → IsIsolating p attributes
unfolding check_isolated
check_isolated-IsIsolating p [] h = tt
check_isolated-IsIsolating p (id ∷ rest) h =
    let (rule, e, k) = >>=-eq-ok (ok_or (Map.get id p.rules) invalid_configuration) _ h in
    let (c, k') = ensure-eq-ok _ _ _ k in
    ((rule, ground arith, ground arith), check_isolated-IsIsolating p rest k')

registered-Extends :
    (attribute : AttributeId) (t : AttributeType) (authority : AttributeAuthority)
    (p p' : StaticEnvironmentPolicy)
    → register_rule attribute t authority p ≡ ok p'
    → Extends p p' × (p'.isolation ≡ p.isolation)
unfolding register_rule
registered-Extends attribute t authority p p' h = elim (Option-cases (Map.get attribute p.rules)) [
  | inr (existing, e) ↦
      let same : p ≡ p' = ground arith in
      (λ id rule k. ap (λ q. Map.get id q.rules) (sym same) ∙ k, ap (λ q. q.isolation) (sym same))
  | inl n ↦
      let r : AttributeRule = record { rule_type = t; authority = authority } in
      let same : record p { rules = Map.insert attribute r p.rules } ≡ p' = ground arith in
      (
        λ id rule k.
            ap (λ q. Map.get id q.rules) (sym same)
            ∙ ground (arith, get-insert attribute id r p.rules, nat_eq_iff id attribute),
        ap (λ q. q.isolation) (sym same),
      )
]

kept-IsPolicy :
    (p p' : StaticEnvironmentPolicy)
    → Extends p p'
    → p'.isolation ≡ p.isolation
    → IsPolicy p
    → IsPolicy p'
kept-IsPolicy p p' f same h t attributes e =
    Extends-IsIsolating p p' attributes f (h t attributes (sym (ap (Map.get t) same) ∙ e))

isolated-IsPolicy :
    (t : TypeId) (ids : List AttributeId) (p : StaticEnvironmentPolicy)
    → IsIsolating p ids
    → IsPolicy p
    → IsPolicy (record p { isolation = Map.insert t ids p.isolation })
isolated-IsPolicy t ids p rules h t' attributes e = elim (Bool-cases (nat_eq t' t)) [
  | inl k ↦
      let same : ids ≡ attributes = ground (arith, get-insert t t' ids p.isolation) in
      subst (IsIsolating p) same rules
  | inr k ↦ h t' attributes (ground (arith, get-insert t t' ids p.isolation))
]

-- Two policies that differ in values only.
values-IsPolicy :
    (p q p' : StaticEnvironmentPolicy)
    → ◌≡◌ {A = Result EnvironmentPolicyError StaticEnvironmentPolicy} (ok q) (ok p')
    → q.rules ≡ p.rules
    → q.isolation ≡ p.isolation
    → IsPolicy p
    → IsPolicy p'
values-IsPolicy p q p' e rules same =
    let one = ok-injective e in
    kept-IsPolicy p p'
      (λ id rule k. ap (λ r. Map.get id r.rules) (sym one) ∙ ap (Map.get id) rules ∙ k)
      (ap (λ r. r.isolation) (sym one) ∙ same)

-- Every change to a policy that succeeds keeps the isolating attributes among those that the CA
-- issues.
pub apply-IsPolicy :
    (change : Change) (p p' : StaticEnvironmentPolicy)
    → IsPolicy p
    → apply change p ≡ ok p'
    → IsPolicy p'
unfolding allow_value approve isolate allow_subscriber_value
apply-IsPolicy (registers attribute t authority) p p' h e =
    let (f, same) = registered-Extends attribute t authority p p' e in kept-IsPolicy p p' f same h
apply-IsPolicy (allows attribute value) p p' h e =
    let (rule, _, k) = >>=-eq-ok (ok_or (Map.get attribute p.rules) invalid_configuration) _ e in
    let (_, k') = ensure-eq-ok _ _ _ k in values-IsPolicy p _ p' k' refl refl h
apply-IsPolicy (approves agent attribute value) p p' h e =
    let (rule, _, k) = >>=-eq-ok (ok_or (Map.get attribute p.rules) invalid_configuration) _ e in
    let (_, k') = ensure-eq-ok _ _ _ k in
    let (_, _, k2) = >>=-eq-ok (validate_configured_value attribute value p) _ k' in
    values-IsPolicy p _ p' k2 refl refl h
apply-IsPolicy (isolates t ids) p p' h e =
    let (_, k) = ensure-eq-ok _ _ _ e in
    let (_, checked, k') = >>=-eq-ok (check_isolated ids p) _ k in
    subst IsPolicy (ok-injective k')
      (isolated-IsPolicy t ids p (check_isolated-IsIsolating p ids checked) h)
apply-IsPolicy (requires t attribute value) p p' h e =
    let (rule, _, k) = >>=-eq-ok (ok_or (Map.get attribute p.rules) invalid_configuration) _ e in
    let (_, k') = ensure-eq-ok _ _ _ k in
    let (_, _, k2) = >>=-eq-ok (validate_configured_value attribute value p) _ k' in
    values-IsPolicy p _ p' k2 refl refl h
