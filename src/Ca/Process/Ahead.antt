-- ===== src/Ca/Process/Ahead.antt =====
-- The subscriptions that the rounds of a publication have before them, in
-- `CertificateAuthority::process` of implementations/rust/crates/ca-core/src/lib.rs.
use secure_pub_sub.Prelude.{
  ◌≡◌, refl, sym, ap, subst, ◌∙◌, true, false, All, List, ◌∷◌, some, is_some, Bool-cases, inl, inr,
  arith, ℕ-Eq, List-Eq,
}
use secure_pub_sub.Prelude.Map
use secure_pub_sub.Prelude.Map.{Map}
use secure_pub_sub.Protocol.Types.{AgentId, TypeId}
use secure_pub_sub.Ca.Store
use secure_pub_sub.Ca.Store.{
  MemoryStore, PublicKeys, StoredSubscription, one_shot, kind_eq, subscriptions_for,
  claim_subscription,
}
use secure_pub_sub.Ca.Store.Bucket.{has_key, Unique}
use secure_pub_sub.Ca.Store.Entries.{All-map, All-both, Unique-apart}
use secure_pub_sub.Ca.Store.Subscriptions.{lookup}
use secure_pub_sub.Ca.Store.Subscriptions.Claim.{claim-cases, claim_iff, lookup-claim_subscription}
use secure_pub_sub.Ca.Guard.{EnvironmentPolicy}
use secure_pub_sub.Ca.Process.Served.{IsEntry, IsServed}
use secure_pub_sub.Ca.Process.Served.Kept.{claim_subscription-IsServed, IsEntry-mono}

pub claim-environments :
    (s : MemoryStore) (e : StoredSubscription)
    → Unique (subscriptions_for e.type_id s)
    → (claim_subscription e s).0.environments ≡ s.environments
claim-environments s e u = elim (claim-cases e s u) [
  | inl (p, _) ↦ ap (λ q. q.0.environments) p
  | inr (b, k, p) ↦ elim (Bool-cases (kind_eq e.kind one_shot)) [
    | inl one ↦ rw (p, one) refl
    | inr many ↦ rw (p, many) refl
  ]
]

pub environment-eq :
    (s s' : MemoryStore) (agent : AgentId)
    → s.environments ≡ s'.environments
    → Store.environment agent s ≡ Store.environment agent s'
unfolding Store.environment
environment-eq s s' agent same = ap (λ m. Map.get agent m) same

module _ (policy : EnvironmentPolicy) (directory : Map AgentId PublicKeys) (type_id : TypeId) where
  -- The subscriptions that are still to be served.
  pub record IsAhead (s : MemoryStore) (l : List StoredSubscription) : Type 0 where
    pub served : IsServed policy directory s
    pub entries : All (IsEntry s type_id) l
    pub held : All (λ e. lookup type_id e.subscriber e.handler s ≡ some e) l
    pub unique : Unique l

  pub claimed :
      (s : MemoryStore) (e : StoredSubscription)
      → IsServed policy directory s
      → e.type_id ≡ type_id
      → lookup type_id e.subscriber e.handler s ≡ some e
      → (claim_subscription e s).1 ≡ true
  claimed s e v typed held =
      (claim_iff e s (v.valid.unique e.type_id)).1
        (subst (λ t. lookup t e.subscriber e.handler s ≡ some e) (sym typed) held)

  -- The claim of the first subscription leaves the others.
  pub claim-IsAhead :
      (s : MemoryStore) (e : StoredSubscription) (l : List StoredSubscription)
      → IsAhead s (e ∷ l)
      → IsAhead (claim_subscription e s).0 l
  claim-IsAhead s e l h = record {
    served = claim_subscription-IsServed policy directory s h.served e;
    entries =
        All-map (IsEntry s type_id) (IsEntry (claim_subscription e s).0 type_id) l entry
          h.entries.1;
    held =
        All-map
          (λ x.
            (has_key x.subscriber x.handler e ≡ false)
            × (lookup type_id x.subscriber x.handler s ≡ some x))
          (λ x. lookup type_id x.subscriber x.handler (claim_subscription e s).0 ≡ some x) l
          (λ x q. kept x q.0 q.1) (All-both _ _ l (Unique-apart e l h.unique) h.held.1);
    unique = h.unique.1;
  }
    where
      own : Unique (subscriptions_for e.type_id s)
      own = h.served.valid.unique e.type_id

      entry :
          (x : StoredSubscription)
          → IsEntry s type_id x
          → IsEntry (claim_subscription e s).0 type_id x
      entry x hx = IsEntry-mono s (claim_subscription e s).0 type_id x hx (
          ap is_some
            (environment-eq (claim_subscription e s).0 s x.subscriber (claim-environments s e own))
          ∙ hx.settled)

      kept :
          (x : StoredSubscription)
          → has_key x.subscriber x.handler e ≡ false
          → lookup type_id x.subscriber x.handler s ≡ some x
          → lookup type_id x.subscriber x.handler (claim_subscription e s).0 ≡ some x
      kept x f found =
          ground (arith, lookup-claim_subscription e s own type_id x.subscriber x.handler)

  pub ahead-rest :
      (s : MemoryStore) (e : StoredSubscription) (l : List StoredSubscription)
      → IsAhead s (e ∷ l)
      → IsAhead s l
  ahead-rest s e l h = record {
    served = h.served;
    entries = h.entries.1;
    held = h.held.1;
    unique = h.unique.1;
  }
