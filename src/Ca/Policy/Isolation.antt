-- ===== src/Ca/Policy/Isolation.antt =====
-- Isolated types: a delivery needs approved and equal values of both agents.
use secure_pub_sub.Prelude.{
  ◌≡◌, refl, sym, ap, subst, ◌∙◌, Bool, true, List, [], ◌∷◌, Option, none, some, arith, nat_eq,
  nat_eq_iff, Result, ok, err, is_ok, All, ℕ-Eq, List-Eq, Pair-Eq, Bool-cases, inl, inr, &&-eq-true,
}
use secure_pub_sub.Prelude.Map
use secure_pub_sub.Protocol.Types.{AgentId, AttributeId, TypeId}
use secure_pub_sub.Protocol.Values
use secure_pub_sub.Protocol.Values.{ValueRef, AttributeRef}
use secure_pub_sub.Ca.Policy.{
  StaticEnvironmentPolicy, AttributeRule, agree, isolated, allows_delivery,
}
use secure_pub_sub.Ca.Values.{ca_issued, to_ref, from_ref}
use secure_pub_sub.Protocol.Environment.Meaning.{
  AllAttributes, environment_of, value_of, get-environment_of, entries-environment_of,
}
use secure_pub_sub.Ca.Policy.{authorize_delivery}
use secure_pub_sub.Ca.Values.{ref_eq}
use secure_pub_sub.Ca.Policy.Decision.{Admitted, matches_ref_iff, validate_environment_iff}

-- Each isolating attribute has a rule that says that the CA issues it.
abbrev pub IsIsolating : StaticEnvironmentPolicy → List AttributeId → Type 0
IsIsolating p attributes =
    All
      (λ id.
        (rule : AttributeRule) × (Map.get id p.rules ≡ some rule) × (rule.authority ≡ ca_issued))
      attributes

-- The value that an admitted environment gives to an attribute with a rule of the CA was approved.
value_of-approved :
    (agent : AgentId) (p : StaticEnvironmentPolicy) (id : AttributeId) (rule : AttributeRule)
    (attributes : List AttributeRef) (v : ValueRef)
    → All (Admitted agent p) attributes
    → Map.get id p.rules ≡ some rule
    → rule.authority ≡ ca_issued
    → value_of id attributes ≡ some v
    → Map.get (agent, id) p.approvals ≡ some (from_ref v)
unfolding value_of
value_of-approved agent p id rule [] v w e c h = absurd (cc)
value_of-approved agent p id rule (a ∷ rest) v ((rule', e', _, _, f), ws) e c h =
    elim (Bool-cases (nat_eq a.id id)) [
      | inr n ↦ value_of-approved agent p id rule rest v ws e c (ground arith)
      | inl t ↦
          let here : a.id ≡ id = (nat_eq_iff a.id id).0 t in
          let shown : a.value ≡ v = ground arith in
          let one : ◌≡◌ {A = Option AttributeRule} (some rule') (some rule) =
            sym e' ∙ ap (λ k. Map.get k p.rules) here ∙ e in
          let issued : rule'.authority ≡ ca_issued = ground arith in
          ap (λ k. Map.get (agent, k) p.approvals) (sym here)
          ∙ f issued
          ∙ ap (λ r. some (from_ref r)) shown
    ]

to_from_ref : (a : ValueRef) → to_ref (from_ref a) ≡ a
to_from_ref (Values.bool a) = refl
to_from_ref (Values.i64 a) = refl
to_from_ref (Values.bytes a) = refl

is_ok-≡ : {E : Type 0} (m : Result E (Unit {0})) → is_ok m ≡ true → m ≡ ok tt
is_ok-≡ (ok _) h = refl
is_ok-≡ (err e) h = absurd (cc)

ref_eq-≡ : (a b : ValueRef) → ref_eq a b ≡ true → a ≡ b
ref_eq-≡ a b h =
    sym (to_from_ref a) ∙ ap to_ref ((matches_ref_iff (from_ref a) b).0 h) ∙ to_from_ref b

agree-both :
    (a b : Option ValueRef) → agree a b ≡ true → (v : ValueRef) × (a ≡ some v) × (b ≡ some v)
agree-both none b h = absurd (cc)
agree-both (some a) none h = absurd (cc)
agree-both (some a) (some b) h = (a, refl, ap some (sym (ref_eq-≡ a b h)))

abbrev pub Agreed :
    StaticEnvironmentPolicy
    → AgentId
    → AgentId
    → List AttributeRef
    → List AttributeRef
    → AttributeId
    → Type 0
Agreed p publisher_id subscriber_id publisher subscriber id =
    (v : ValueRef) × (value_of id publisher ≡ some v)
    × (value_of id subscriber ≡ some v)
    × (Map.get (publisher_id, id) p.approvals ≡ some (from_ref v))
    × (Map.get (subscriber_id, id) p.approvals ≡ some (from_ref v))

module _ (p : StaticEnvironmentPolicy) (publisher_id subscriber_id : AgentId)
    (publisher subscriber : List AttributeRef) (w : AllAttributes publisher)
    (w' : AllAttributes subscriber) where
  isolated-Agreed :
      (attributes : List AttributeId)
      → IsIsolating p attributes
      → All (Admitted publisher_id p) publisher
      → All (Admitted subscriber_id p) subscriber
      → isolated attributes (environment_of publisher) (environment_of subscriber) ≡ true
      → All (Agreed p publisher_id subscriber_id publisher subscriber) attributes
  unfolding isolated
  isolated-Agreed [] rules a b h = tt
  isolated-Agreed (id ∷ rest) ((rule, e, c), rules) a b h =
      let (h1, h2) = &&-eq-true _ _ h in
      let (v, of_publisher, of_subscriber) = agree-both _ _ h1 in
      let left = sym (get-environment_of id publisher w) ∙ of_publisher in
      let right = sym (get-environment_of id subscriber w') ∙ of_subscriber in
      (
        (
          v,
          left,
          right,
          value_of-approved publisher_id p id rule publisher v a e c left,
          value_of-approved subscriber_id p id rule subscriber v b e c right,
        ),
        isolated-Agreed rest rules a b h2,
      )

  -- When the isolating attributes of a type have rules of the CA, a delivery of the type is
  -- authorized only between two agents whose (valid) environments give one value to each of these
  -- attributes, which the CA approved for both agents.
  pub authorize_delivery-Agreed :
      (type_id : TypeId) (attributes : List AttributeId)
      → Map.get type_id p.isolation ≡ some attributes
      → IsIsolating p attributes
      → authorize_delivery publisher_id
          (environment_of publisher)
          subscriber_id
          (environment_of subscriber)
          type_id
          p
        ≡ true
      → All (Agreed p publisher_id subscriber_id publisher subscriber) attributes
  unfolding authorize_delivery allows_delivery
  authorize_delivery-Agreed type_id attributes listed rules h =
      let (h1, h2) = &&-eq-true _ _ h in
      let (h3, h4) = &&-eq-true _ _ h2 in
      let (a, _) =
        (validate_environment_iff publisher_id p (environment_of publisher)).0 (is_ok-≡ _ h1) in
      let (b, _) =
        (validate_environment_iff subscriber_id p (environment_of subscriber)).0 (is_ok-≡ _ h3) in
      isolated-Agreed attributes rules
        (subst (All (Admitted publisher_id p)) (entries-environment_of publisher w) a)
        (subst (All (Admitted subscriber_id p)) (entries-environment_of subscriber w') b)
        (all_agree attributes listed (&&-eq-true _ _ h4).0)
    where
      all_agree :
          (attributes : List AttributeId)
          → Map.get type_id p.isolation ≡ some attributes
          → ◌≡◌ {A = Bool}
              (elim (Map.get type_id p.isolation) [
                | none ↦ true
                | some ids ↦ isolated ids (environment_of publisher) (environment_of subscriber)
              ])
              true
          → isolated attributes (environment_of publisher) (environment_of subscriber) ≡ true
      all_agree attributes e k = ground arith
