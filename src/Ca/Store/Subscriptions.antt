-- ===== src/Ca/Store/Subscriptions.antt =====
-- The subscriptions of the store as a finite map from types, subscribers and handlers.
pub mod Claim
pub mod Valid
use secure_pub_sub.Prelude.{
  ℕ, suc, ◌+◌, ◌≤◌, ◌≡◌, ◌↔◌, refl, sym, ap, ap₂, ◌∙◌, subst, Bool, true, false, ◌&&◌, List, [],
  ◌∷◌, ◌++◌, Option, none, some, arith, leb, nat_eq, nat_eq_iff, length, Result, ok, err, is_some,
  if◌then◌else◌, ==_iff, ==_refl, ◌==◌, ℕ-Eq, List-Eq, Bool-cases, Option-cases, ◌⊎◌, inl, inr,
}
use secure_pub_sub.Prelude.Map
use secure_pub_sub.Prelude.Map.{get-insert}
use secure_pub_sub.Protocol.Types.{AgentId, HandlerId, TypeId, Error, capacity}
use secure_pub_sub.Ca.Store.{
  MemoryStore, StoredSubscription, one_shot, kind_eq, count, replace, sort_by_key, or_default,
  put_subscription, subscriptions_for, take_out, claim_subscription,
}
use secure_pub_sub.Ca.Store.Bucket.{
  has_key, find, Unique, find-take_out, take_out-found, take_out-cases,
}

-- The subscription of a subscriber to a type for one of its handlers.
unfoldable pub lookup : TypeId → AgentId → HandlerId → MemoryStore → Option StoredSubscription
lookup t a h s = find a h (subscriptions_for t s)

-- A subscription to this type, of this subscriber, for this handler.
abbrev pub addressed : TypeId → AgentId → HandlerId → StoredSubscription → Bool
addressed t a h s = nat_eq t s.type_id && has_key a h s

module _ (s : StoredSubscription) (st : MemoryStore) where
  abbrev pub bucket : List StoredSubscription
  bucket = or_default (Map.get s.type_id st.subscriptions)

  abbrev pub with_bucket : List StoredSubscription → MemoryStore
  with_bucket b = record st { subscriptions = Map.insert s.type_id b st.subscriptions }

  pub bucket-insert :
      (b : List StoredSubscription) (t : TypeId)
      → subscriptions_for t (with_bucket b)
        ≡ (if nat_eq t s.type_id then b else subscriptions_for t st)
  unfolding subscriptions_for
  bucket-insert b t = ground (arith, get-insert s.type_id t b st.subscriptions)

  -- The three ways through the storing of a subscription.
  pub put-cases :
      ((b : List StoredSubscription) × (replace s bucket ≡ some b)
        × (put_subscription s st ≡ (with_bucket b, ok tt)))
      ⊎ ((replace s bucket ≡ none)
          × (st.limits.subscriptions ≤ count st.subscriptions)
          × (put_subscription s st ≡ (with_bucket bucket, err capacity)))
      ⊎ ((replace s bucket ≡ none)
          × (suc (count st.subscriptions) ≤ st.limits.subscriptions)
          × (put_subscription s st ≡ (with_bucket (sort_by_key (bucket ++ s ∷ [])), ok tt)))
  unfolding put_subscription
  put-cases = elim (Option-cases (replace s bucket)) [
    | inr (b, e) ↦ inl (b, e, rw (put_subscription, e) refl)
    | inl e ↦ elim (Bool-cases (leb st.limits.subscriptions (count st.subscriptions))) [
      | inl l ↦ inr (inl (e, ground arith, rw (put_subscription, e, l) refl))
      | inr l ↦ inr (inr (e, ground arith, rw (put_subscription, e, l) refl))
    ]
  ]

  module _ (t : TypeId) (a : AgentId) (h : HandlerId) where
    pub lookup_bucket :
        (b : List StoredSubscription)
        → lookup t a h (with_bucket b)
          ≡ (if nat_eq t s.type_id then find a h b else lookup t a h st)
    unfolding lookup
    lookup_bucket b = ground (arith, ap (find a h) (bucket-insert b t))

    pub lookup_here : nat_eq t s.type_id ≡ true → lookup t a h st ≡ find a h bucket
    unfolding lookup subscriptions_for
    lookup_here e =
        ap (λ k. find a h (or_default (Map.get k st.subscriptions))) ((nat_eq_iff t s.type_id).0 e)
