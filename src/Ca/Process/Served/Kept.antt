-- ===== src/Ca/Process/Served/Kept.antt =====
-- Each operation of the store keeps the invariant.
use secure_pub_sub.Prelude.{
  ℕ, ◌≡◌, sym, ap, subst, ◌∙◌, true, not, ◌&&◌, List, [], ◌∷◌, ◌++◌, some, is_some, All, All-append,
  Bytes, ◌==◌, ==_iff, nat_eq, nat_eq_iff, ℕ-Eq, List-Eq, Bool-cases, inl, inr, arith, leb, length,
  if◌then◌else◌,
}
use secure_pub_sub.Prelude.Map
use secure_pub_sub.Prelude.Map.{Map, get-insert}
use secure_pub_sub.Protocol.Types.{AgentId, SessionId, TypeId}
use secure_pub_sub.Ca.Replay.Once
use secure_pub_sub.Ca.Store.{
  MemoryStore, PublicKeys, StoredSubscription, one_shot, kind_eq, environment, set_environment,
  subscriptions_for, check_and_mark, put_subscription, claim_subscription, sort_by_key,
}
use secure_pub_sub.Ca.Store.Entries.{replace-All, sort_by_key-All, take_out-All, All-map}
use secure_pub_sub.Ca.Store.Subscriptions.{bucket, with_bucket, bucket-insert, put-cases}
use secure_pub_sub.Ca.Store.Subscriptions.Claim.{claim-cases}
use secure_pub_sub.Ca.Store.Subscriptions.Valid
use secure_pub_sub.Ca.Store.Subscriptions.Valid.{
  put_subscription-IsValid, claim_subscription-IsValid,
}
use secure_pub_sub.Ca.Guard.{EnvironmentPolicy}
use secure_pub_sub.Ca.Process.Served.{IsEntry, IsSetting, IsServed}

-- An entry stays one where its subscriber keeps an environment.
pub IsEntry-mono :
    (s s' : MemoryStore) (t : TypeId) (e : StoredSubscription)
    → IsEntry s t e
    → is_some (environment e.subscriber s') ≡ true
    → IsEntry s' t e
IsEntry-mono s s' t e h kept = record {
  typed = h.typed;
  handled = h.handled;
  operation = h.operation;
  predicate = h.predicate;
  encoded = h.encoded;
  matching = h.matching;
  settled = kept;
}

module _ (policy : EnvironmentPolicy) (directory : Map AgentId PublicKeys) (s : MemoryStore)
    (v : IsServed policy directory s) where
  -- Only the buckets differ, and each of them keeps its entries.
  with_bucket-IsServed :
      (e : StoredSubscription) (b : List StoredSubscription)
      → Valid.IsValid (with_bucket e s b)
      → All (IsEntry s e.type_id) b
      → IsServed policy directory (with_bucket e s b)
  unfolding environment
  with_bucket-IsServed e b valid all = record {
    provisioned = v.provisioned;
    valid = valid;
    sessions = v.sessions;
    entries =
        λ t. subst (All (IsEntry (with_bucket e s b) t)) (sym (bucket-insert e s b t)) (entries t);
    settings = v.settings;
  }
    where
      moved :
          (t : TypeId) (c : List StoredSubscription)
          → All (IsEntry s t) c
          → All (IsEntry (with_bucket e s b) t) c
      moved t c =
          All-map (IsEntry s t) (IsEntry (with_bucket e s b) t) c
            (λ x h. IsEntry-mono s (with_bucket e s b) t x h h.settled)

      entries :
          (t : TypeId)
          → All
              (IsEntry (with_bucket e s b) t)
              (if nat_eq t e.type_id then b else subscriptions_for t s)
      entries t = elim (Bool-cases (nat_eq t e.type_id)) [
        | inl here ↦ rw here (
            moved t b
              (subst (λ k. All (IsEntry s k) b) (sym ((nat_eq_iff t e.type_id).0 here)) all))
        | inr other ↦ rw other (moved t (subscriptions_for t s) (v.entries t))
      ]

  pub check_and_mark-IsServed :
      (sender : AgentId) (session : SessionId) (now : ℕ)
      → IsServed policy directory (check_and_mark sender session now s).0
  unfolding check_and_mark environment subscriptions_for
  check_and_mark-IsServed sender session now = record {
    provisioned = v.provisioned;
    valid = record { unique = v.valid.unique; bounded = v.valid.bounded };
    sessions = Once.check_and_mark-IsValid sender session now s.replay v.sessions;
    entries = λ t.
        All-map (IsEntry s t) (IsEntry (check_and_mark sender session now s).0 t)
          (subscriptions_for t s)
          (λ e h. IsEntry-mono s (check_and_mark sender session now s).0 t e h h.settled)
          (v.entries t);
    settings = v.settings;
  }

  own : (e : StoredSubscription) → All (IsEntry s e.type_id) (bucket e s)
  unfolding subscriptions_for
  own e = v.entries e.type_id

  pub put_subscription-IsServed :
      (e : StoredSubscription)
      → IsEntry s e.type_id e
      → IsServed policy directory (put_subscription e s).0
  put_subscription-IsServed e entry =
      let valid = put_subscription-IsValid e s v.valid in
      elim (put-cases e s) [
        | inl (b, k, p) ↦ rw p (
            with_bucket-IsServed e b (subst Valid.IsValid (ap (λ q. q.0) p) valid)
              (replace-All (IsEntry s e.type_id) e (bucket e s) entry (own e) k))
        | inr (inl (_, _, p)) ↦ rw p (
            with_bucket-IsServed e (bucket e s) (subst Valid.IsValid (ap (λ q. q.0) p) valid)
              (own e))
        | inr (inr (_, _, p)) ↦ rw p (
            with_bucket-IsServed e (sort_by_key (bucket e s ++ e ∷ []))
              (subst Valid.IsValid (ap (λ q. q.0) p) valid)
              (sort_by_key-All (IsEntry s e.type_id) (bucket e s ++ e ∷ [])
                (All-append (IsEntry s e.type_id) (bucket e s) (e ∷ []) (own e) (entry, tt))))
      ]

  pub claim_subscription-IsServed :
      (e : StoredSubscription) → IsServed policy directory (claim_subscription e s).0
  claim_subscription-IsServed e =
      let valid = claim_subscription-IsValid e s v.valid in
      elim (claim-cases e s (v.valid.unique e.type_id)) [
        | inl (p, _) ↦ rw p v
        | inr (b, k, p) ↦ elim (Bool-cases (kind_eq e.kind one_shot)) [
          | inl one ↦
              rw (p, one)
                (with_bucket-IsServed e b
                  (subst Valid.IsValid
                    (ap (λ q. q.0)
                      (p ∙ ap (λ k. if k then (with_bucket e s b, true) else (s, true)) one))
                    valid)
                  (take_out-All (IsEntry s e.type_id) e (bucket e s) (own e) k))
          | inr many ↦ rw (p, many) v
        ]
      ]

  -- The environment of one agent is set.
  with_environment-IsServed :
      (agent : AgentId) (encoded : Bytes)
      → IsSetting policy directory agent encoded
      → IsServed policy directory
          (record s { environments = Map.insert agent encoded s.environments })
  unfolding environment subscriptions_for
  with_environment-IsServed agent encoded setting = record {
    provisioned = v.provisioned;
    valid = record { unique = v.valid.unique; bounded = v.valid.bounded };
    sessions = v.sessions;
    entries =
        λ t. All-map (IsEntry s t) (IsEntry s' t) (subscriptions_for t s) (entry t) (v.entries t);
    settings = settings;
  }
    where
      s' : MemoryStore
      s' = record s { environments = Map.insert agent encoded s.environments }

      entry : (t : TypeId) (e : StoredSubscription) → IsEntry s t e → IsEntry s' t e
      entry t e h =
          IsEntry-mono s s' t e h
            (ground (arith, get-insert agent e.subscriber encoded s.environments, h.settled))

      settings :
          (a : AgentId) (found : Bytes)
          → environment a s' ≡ some found
          → IsSetting policy directory a found
      settings a found h = elim (Bool-cases (a == agent)) [
        | inl t ↦
            let found_here : encoded ≡ found =
              ground (arith, get-insert agent a encoded s.environments) in
            subst (λ x. IsSetting policy directory x found) (sym ((==_iff a agent).0 t))
              (subst (IsSetting policy directory agent) found_here setting)
        | inr f ↦ v.settings a found (ground (arith, get-insert agent a encoded s.environments))
      ]

  pub set_environment-IsServed :
      (agent : AgentId) (encoded : Bytes)
      → IsSetting policy directory agent encoded
      → IsServed policy directory (set_environment agent encoded s).0
  unfolding set_environment
  set_environment-IsServed agent encoded setting =
      elim (Bool-cases (
        not (Map.contains_key agent s.environments)
        && leb s.limits.environments (length s.environments))) [
          | inl t ↦ rw t v
          | inr f ↦ rw f (with_environment-IsServed agent encoded setting)
        ]
