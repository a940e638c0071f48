-- ===== src/Ca/Policy/Decision.antt =====
-- What the policy's decisions mean.
use secure_pub_sub.Prelude.{
  ◌≡◌, ◌↔◌, Bool, ℤ, Bytes, Member, any-Member, refl, sym, ap, ◌∙◌, true, ◌||◌, not, List, [], ◌∷◌,
  Option, none, some, arith, nat_eq_iff, Result, ok, err, ◌>>◌, ◌==◌, ==_iff, pos, negsuc, All,
  ℕ-Eq, List-Eq, Pair-Eq, Option-cases, Bool-cases, inl, inr, ensure-eq-ok,
}
use secure_pub_sub.Prelude.Map
use secure_pub_sub.Protocol.Types.{AgentId, AttributeId}
use secure_pub_sub.Protocol.Values
use secure_pub_sub.Protocol.Values.{ValueRef, AttributeRef}
use secure_pub_sub.Protocol.Environment.{EnvironmentRef, entries, get}
use secure_pub_sub.Ca.Policy.{
  StaticEnvironmentPolicy, AttributeRule, is_allowed, approved_as, validate_attribute,
  validate_attributes, shows, validate_approvals, validate_environment,
}
use secure_pub_sub.Ca.Values.{
  AttributeValue, AttributeAuthority, bool, i64, bytes, self_declared, ca_issued, authority_eq,
  matches, matches_ref, to_ref, from_ref, AttributeType, bool_type, i64_type, bytes_type,
}

pub matches_ref_iff :
    (v : AttributeValue) (r : ValueRef) → (matches_ref v r ≡ true) ↔ (v ≡ from_ref r)
matches_ref_iff (bool a) (Values.bool b) = ground arith
matches_ref_iff (i64 (pos a)) (Values.i64 (pos b)) = ground (arith, nat_eq_iff a b)
matches_ref_iff (i64 (pos a)) (Values.i64 (negsuc b)) = ground arith
matches_ref_iff (i64 (negsuc a)) (Values.i64 (pos b)) = ground arith
matches_ref_iff (i64 (negsuc a)) (Values.i64 (negsuc b)) = ground (arith, nat_eq_iff a b)
matches_ref_iff (bytes a) (Values.bytes b) = ground (arith, ==_iff a b)
matches_ref_iff (bool a) (Values.i64 b) = ground arith
matches_ref_iff (bool a) (Values.bytes b) = ground arith
matches_ref_iff (i64 a) (Values.bool b) = ground arith
matches_ref_iff (i64 a) (Values.bytes b) = ground arith
matches_ref_iff (bytes a) (Values.bool b) = ground arith
matches_ref_iff (bytes a) (Values.i64 b) = ground arith

to_ref-from : (v : AttributeValue) (r : ValueRef) → v ≡ from_ref r → r ≡ to_ref v
to_ref-from v (Values.bool a) e = rw e refl
to_ref-from v (Values.i64 a) e = rw e refl
to_ref-from v (Values.bytes a) e = rw e refl

from-to_ref : (v : AttributeValue) (r : ValueRef) → r ≡ to_ref v → v ≡ from_ref r
from-to_ref (bool a) r e = rw e refl
from-to_ref (i64 a) r e = rw e refl
from-to_ref (bytes a) r e = rw e refl

-- Both of two runs succeed.
both_ok :
    {E : Type 0} (m n : Result E (Unit {0})) → ((m >> n) ≡ ok tt) ↔ ((m ≡ ok tt) × (n ≡ ok tt))
both_ok (ok _) n = (λ e. (refl, e), λ e. e.1)
both_ok (err x) n = (λ e. absurd (cc), λ e. absurd (cc (e.0)))

-- A value of a type.
pub data HasType : AttributeType → ValueRef → Type 0 where
  is_bool : {b : Bool} → HasType bool_type (Values.bool b)
  is_i64 : {z : ℤ} → HasType i64_type (Values.i64 z)
  is_bytes : {bs : Bytes} → HasType bytes_type (Values.bytes bs)

matches→HasType : (t : AttributeType) (v : ValueRef) → matches t v ≡ true → HasType t v
matches→HasType bool_type (Values.bool b) h = is_bool
matches→HasType i64_type (Values.i64 z) h = is_i64
matches→HasType bytes_type (Values.bytes bs) h = is_bytes
matches→HasType bool_type (Values.i64 z) h = absurd (cc)
matches→HasType bool_type (Values.bytes bs) h = absurd (cc)
matches→HasType i64_type (Values.bool b) h = absurd (cc)
matches→HasType i64_type (Values.bytes bs) h = absurd (cc)
matches→HasType bytes_type (Values.bool b) h = absurd (cc)
matches→HasType bytes_type (Values.i64 z) h = absurd (cc)

HasType→matches : {t : AttributeType} {v : ValueRef} → HasType t v → matches t v ≡ true
HasType→matches is_bool = refl
HasType→matches is_i64 = refl
HasType→matches is_bytes = refl

-- No value is configured for the attribute, or the value is one of those that are.
abbrev pub IsListed : Option (List AttributeValue) → AttributeValue → Type 0
IsListed none v = Unit {0}
IsListed (some []) v = Unit {0}
IsListed (some (w ∷ values)) v = Member v (w ∷ values)

is_allowed_iff :
    (o : Option (List AttributeValue)) (r : ValueRef)
    → (is_allowed (λ v. matches_ref v r) o ≡ true) ↔ IsListed o (from_ref r)
is_allowed_iff none r = (λ _. tt, λ _. refl)
is_allowed_iff (some []) r = (λ _. tt, λ _. refl)
is_allowed_iff (some (w ∷ values)) r =
    any-Member (λ v. matches_ref v r) (from_ref r) (w ∷ values)
      (λ v. let same = matches_ref_iff v r in (λ e. sym (same.0 e), λ e. same.1 (sym e)))

module _ (agent : AgentId) (p : StaticEnvironmentPolicy) where
  -- An attribute with a rule for its type and an allowed value, which the CA approved for this agent
  -- when the rule says that it issues the value.
  abbrev pub Admitted : AttributeRef → Type 0
  Admitted a =
      (rule : AttributeRule) × (Map.get a.id p.rules ≡ some rule)
      × HasType rule.rule_type a.value
      × IsListed (Map.get a.id p.allowed_values) (from_ref a.value)
      × (rule.authority ≡ ca_issued → Map.get (agent, a.id) p.approvals ≡ some (from_ref a.value))

  approved_iff :
      (rule : AttributeRule) (a : AttributeRef)
      → ((not (authority_eq rule.authority ca_issued)
            || approved_as (Map.get (agent, a.id) p.approvals) a.value)
          ≡ true)
        ↔ (rule.authority ≡ ca_issued → Map.get (agent, a.id) p.approvals ≡ some (from_ref a.value))
  approved_iff rule a = approved (Map.get (agent, a.id) p.approvals) rule.authority
    where
      approved :
          (o : Option AttributeValue) (t : AttributeAuthority)
          → ((not (authority_eq t ca_issued) || approved_as o a.value) ≡ true)
            ↔ (t ≡ ca_issued → o ≡ some (from_ref a.value))
      approved o self_declared = (λ _ e. absurd (cc), λ _. refl)
      approved none ca_issued = (λ e. absurd (cc), λ f. absurd (cc (f refl)))
      approved (some v) ca_issued = (
        λ e _. ap some ((matches_ref_iff v a.value).0 e),
        λ f. (matches_ref_iff v a.value).1 (ground (arith, f refl)),
      )

  validate_attribute_iff : (a : AttributeRef) → (validate_attribute agent p a ≡ ok tt) ↔ Admitted a
  unfolding validate_attribute
  validate_attribute_iff a = elim (Option-cases (Map.get a.id p.rules)) [
    | inl n ↦ rw (validate_attribute, n) (λ e. absurd (cc), λ (rule, e, _, _, _). absurd (cc))
    | inr (rule, e) ↦
        rw (validate_attribute, e)
          (
            λ h.
                let (h1, k1) = ensure-eq-ok _ _ _ h in
                let (h2, k2) = ensure-eq-ok _ _ _ k1 in
                let (h3, k3) = ensure-eq-ok _ _ _ k2 in
                (
                  rule,
                  refl,
                  matches→HasType rule.rule_type a.value h1,
                  (is_allowed_iff (Map.get a.id p.allowed_values) a.value).0 h2,
                  (approved_iff rule a).0 h3,
                ),
            λ (rule', e', h1, h2, f).
                let same : rule' ≡ rule = ground arith in
                let h1' : matches rule.rule_type a.value ≡ true =
                  ap (λ r. matches r.rule_type a.value) (sym same) ∙ HasType→matches h1 in
                let h3 = (approved_iff rule a).1 (λ c. f (ap (λ r. r.authority) same ∙ c)) in
                rw (h1', (is_allowed_iff (Map.get a.id p.allowed_values) a.value).1 h2, h3) refl,
          )
  ]

  validate_attributes_iff :
      (attributes : List AttributeRef)
      → (validate_attributes agent p attributes ≡ ok tt) ↔ All Admitted attributes
  unfolding validate_attributes
  validate_attributes_iff [] = (λ _. tt, λ _. refl)
  validate_attributes_iff (a ∷ rest) = (
    λ h.
        let (one, others) =
          (both_ok (validate_attribute agent p a) (validate_attributes agent p rest)).0 h in
        ((validate_attribute_iff a).0 one, (validate_attributes_iff rest).0 others),
    λ (w, ws). rw ((validate_attribute_iff a).1 w) ((validate_attributes_iff rest).1 ws),
  )

  -- The proposed environment shows the value that was approved for this agent.
  abbrev pub Shown : EnvironmentRef → (AgentId × AttributeId) × AttributeValue → Type 0
  Shown proposed ((approved_agent, attribute), value) =
      approved_agent ≡ agent → get attribute proposed ≡ some (to_ref value)

  shows_iff :
      (v : AttributeValue) (o : Option ValueRef) → (shows v o ≡ true) ↔ (o ≡ some (to_ref v))
  shows_iff v none = (λ e. absurd (cc), λ e. absurd (cc))
  shows_iff v (some r) = (
    λ e. ap some (to_ref-from v r ((matches_ref_iff v r).0 e)),
    λ e. (matches_ref_iff v r).1 (from-to_ref v r (ground arith)),
  )

  validate_approvals_iff :
      (proposed : EnvironmentRef) (approvals : List ((AgentId × AttributeId) × AttributeValue))
      → (validate_approvals agent proposed approvals ≡ ok tt) ↔ All (Shown proposed) approvals
  unfolding validate_approvals
  validate_approvals_iff proposed [] = (λ _. tt, λ _. refl)
  validate_approvals_iff proposed (((approved_agent, attribute), value) ∷ rest) = (
    λ h.
        let (h1, k1) = ensure-eq-ok _ _ _ h in
        (
          λ own.
              (shows_iff value (get attribute proposed)).0
                (ground (arith, ==_iff approved_agent agent)),
          (validate_approvals_iff proposed rest).0 k1,
        ),
    λ (w, ws).
        rw (shown_test approved_agent attribute value proposed w)
          ((validate_approvals_iff proposed rest).1 ws),
  )
    where
      shown_test :
          (approved_agent : AgentId) (attribute : AttributeId) (value : AttributeValue)
          (proposed : EnvironmentRef)
          → Shown proposed ((approved_agent, attribute), value)
          → (not (approved_agent == agent) || shows value (get attribute proposed)) ≡ true
      shown_test approved_agent attribute value proposed w =
          elim (Bool-cases (approved_agent == agent)) [
            | inr f ↦ rw f refl
            | inl t ↦
                rw
                  (
                    t,
                    (shows_iff value (get attribute proposed)).1
                        (w ((==_iff approved_agent agent).0 t)),
                  )
                  refl
          ]

  -- The policy accepts an environment exactly when each attribute has a rule, is of the rule's type,
  -- has a value that is in the list of allowed values, if one is configured and not empty, and, if the
  -- CA issues it, the value approved for the agent; and when each value that the CA approved for the
  -- agent is in the environment.
  pub validate_environment_iff :
      (proposed : EnvironmentRef)
      → (validate_environment agent proposed p ≡ ok tt)
        ↔ (All Admitted (entries proposed) × All (Shown proposed) p.approvals)
  unfolding validate_environment
  validate_environment_iff proposed =
      let both =
        both_ok (validate_attributes agent p (entries proposed))
          (validate_approvals agent proposed p.approvals) in
      let attributes = validate_attributes_iff (entries proposed) in
      let approvals = validate_approvals_iff proposed p.approvals in
      (
        λ h. (attributes.0 (both.0 h).0, approvals.0 (both.0 h).1),
        λ (a, b). both.1 (attributes.1 a, approvals.1 b),
      )
