-- ===== src/Ca/Store/Subscriptions/Claim.antt =====
-- The claim of a subscription before its delivery.
use secure_pub_sub.Prelude.{
  ◌≡◌, ◌↔◌, refl, ap, ◌∙◌, Bool, true, false, ◌&&◌, List, [], ◌∷◌, none, some, arith, is_some,
  if◌then◌else◌, ==_iff, ==_refl, ℕ-Eq, List-Eq, Bool-cases, Option-cases, ◌⊎◌, inl, inr,
}
use secure_pub_sub.Prelude.Map
use secure_pub_sub.Prelude.Map.{get-insert}
use secure_pub_sub.Protocol.Types.{AgentId, HandlerId, TypeId}
use secure_pub_sub.Ca.Store.{
  MemoryStore, StoredSubscription, one_shot, kind_eq, subscriptions_for, take_out,
  claim_subscription,
}
use secure_pub_sub.Ca.Store.Bucket.{has_key, find, Unique, find-take_out}
use secure_pub_sub.Ca.Store.Bucket.{subscription_eq-≡, subscription_eq_refl, earlier-has_key}
use secure_pub_sub.Ca.Store.{subscription_eq}
use secure_pub_sub.Ca.Store.Subscriptions.{
  lookup, addressed, bucket, with_bucket, lookup_bucket, lookup_here,
}

-- A claim finds what the map holds under the key.
find-take_out_cases :
    (s : StoredSubscription) (b : List StoredSubscription)
    → Unique b
    → (is_some (take_out s b) ≡ true) ↔ (find s.subscriber s.handler b ≡ some s)
unfolding find take_out
find-take_out_cases s [] u = (λ e. absurd (cc), λ e. absurd (cc))
find-take_out_cases s (x ∷ b) u = elim (Bool-cases (subscription_eq x s)) [
  | inl t ↦
      let same = subscription_eq-≡ x s t in
      rw t (
        λ _. ground (arith, same, ==_iff x.subscriber s.subscriber, ==_iff x.handler s.handler),
        λ _. refl,
      )
  | inr f ↦ rw f (
    λ e. elim (Option-cases (take_out s b)) [
      | inl n ↦ absurd (ground arith)
      | inr (c, k) ↦
          let own : has_key s.subscriber s.handler s ≡ true =
            ground (arith, ==_refl s.subscriber, ==_refl s.handler) in
          ground (
            arith,
            (find-take_out_cases s b u.1).0,
            earlier-has_key s x b c s.subscriber s.handler u k,
          )
    ],
    λ e. elim (Bool-cases (has_key s.subscriber s.handler x)) [
      | inl t ↦
          let same : x ≡ s = ground arith in
          let eq_true : subscription_eq x s ≡ true =
            ap (λ y. subscription_eq y s) same ∙ subscription_eq_refl s in
          absurd (cc (eq_true, f))
      | inr n ↦ ground (arith, (find-take_out_cases s b u.1).1)
    ],
  )
]

module _ (s : StoredSubscription) (st : MemoryStore)
    (u : Unique (subscriptions_for s.type_id st)) where
  -- The two ways through a claim.
  pub claim-cases :
      ((claim_subscription s st ≡ (st, false)) × (take_out s (bucket s st) ≡ none))
      ⊎ ((b : List StoredSubscription) × (take_out s (bucket s st) ≡ some b)
          × (claim_subscription s st
              ≡ (if kind_eq s.kind one_shot then (with_bucket s st b, true) else (st, true))))
  unfolding claim_subscription take_out
  claim-cases = elim (Option-cases (Map.get s.type_id st.subscriptions)) [
    | inl n ↦ inl (rw (claim_subscription, n) refl, rw n refl)
    | inr (b, e) ↦ elim (Option-cases (take_out s b)) [
      | inl k ↦ inl (rw (claim_subscription, e, k) refl, rw (e, k) refl)
      | inr (c, k) ↦ inr (c, rw (e, k) refl, rw (claim_subscription, e, k) refl)
    ]
  ]

  bucket-Unique : Unique (bucket s st)
  unfolding subscriptions_for
  bucket-Unique = u

  -- When the bucket of the type holds each key once, a claim succeeds exactly when the store still
  -- holds the subscription as it was read.
  pub claim_iff :
      ((claim_subscription s st).1 ≡ true) ↔ (lookup s.type_id s.subscriber s.handler st ≡ some s)
  unfolding lookup subscriptions_for
  claim_iff =
      let held = find-take_out_cases s (bucket s st) bucket-Unique in
      elim claim-cases [
        | inl (e, k) ↦ rw e (λ x. absurd (cc), λ x. absurd (cc (held.1 x, ap is_some k)))
        | inr (b, k, e) ↦
            (λ _. held.0 (ap is_some k), λ _. rw e (claimed (kind_eq s.kind one_shot) b))
      ]
    where
      claimed :
          (one : Bool) (b : List StoredSubscription)
          → (◌≡◌ {A = Bool}
              (if◌then◌else◌ {A = MemoryStore × Bool} one (with_bucket s st b, true) (st, true)).1
              true)
      claimed true b = refl
      claimed false b = refl

  -- When the bucket of the type holds each key once, a claim that succeeds removes a one-shot
  -- subscription; a claim changes nothing else.
  pub lookup-claim_subscription :
      (t : TypeId) (a : AgentId) (h : HandlerId)
      → lookup t a h (claim_subscription s st).0 ≡ (
          if (claim_subscription s st).1 && (kind_eq s.kind one_shot && addressed t a h s)
          then none
          else lookup t a h st)
  lookup-claim_subscription t a h = elim claim-cases [
    | inl (e, k) ↦ rw e refl
    | inr (b, k, e) ↦ rw e (
        ground (
          arith,
          lookup_bucket s st t a h b,
          lookup_here s st t a h,
          find-take_out a h s (bucket s st) b bucket-Unique k,
        ))
  ]
