-- ===== src/Ca/Store/Subscriptions/Valid.antt =====
-- The store keeps its buckets apart and its subscriptions within their limit.
use secure_pub_sub.Prelude.{
  suc, ◌+◌, ◌≤◌, ◌≡◌, refl, ap, ◌∙◌, true, false, List, [], ◌∷◌, ◌++◌, none, some, arith, nat_eq,
  nat_eq_iff, length, length-append, if◌then◌else◌, ==_refl, ℕ-Eq, List-Eq, Bool-cases, inl, inr,
}
use secure_pub_sub.Prelude.Map
use secure_pub_sub.Prelude.Map.{Map, get-insert}
use secure_pub_sub.Protocol.Types.{TypeId}
use secure_pub_sub.Ca.Store.{
  MemoryStore, StoredSubscription, one_shot, kind_eq, count, replace, insert_sorted, sort_by_key,
  or_default, put_subscription, subscriptions_for, take_out, claim_subscription,
}
use secure_pub_sub.Ca.Store.Bucket.{Unique, find-replace-none, replace-cases, take_out-cases}
use secure_pub_sub.Ca.Store.Unique.{
  replace-Unique, sort_by_key-Unique, append-Unique, take_out-Unique,
}
use secure_pub_sub.Ca.Store.Subscriptions.{bucket, with_bucket, bucket-insert, put-cases, lookup}
use secure_pub_sub.Ca.Store.Subscriptions.Claim.{claim-cases, claim_iff, lookup-claim_subscription}

pub record IsValid (st : MemoryStore) : Type 0 where
  pub unique : (t : TypeId) → Unique (subscriptions_for t st)
  pub bounded : count st.subscriptions ≤ st.limits.subscriptions

count-insert :
    (t : TypeId) (b : List StoredSubscription) (m : Map TypeId (List StoredSubscription))
    → count (Map.insert t b m) + length (or_default (Map.get t m)) ≡ count m + length b
unfolding count Map.insert Map.get
count-insert t b [] = omega arith
count-insert t b ((k, c) ∷ m) = ground (arith, count-insert t b m)

length-replace :
    (s : StoredSubscription) (b b' : List StoredSubscription)
    → replace s b ≡ some b'
    → length b' ≡ length b
unfolding replace
length-replace s [] b' e = absurd (cc)
length-replace s (x ∷ b) b' e = elim (replace-cases s x b b' e) [
  | inl (_, e') ↦ rw e' refl
  | inr (_, c, k, e') ↦ rw e' (ap suc (length-replace s b c k))
]

length-take_out :
    (s : StoredSubscription) (b b' : List StoredSubscription)
    → take_out s b ≡ some b'
    → suc (length b') ≡ length b
unfolding take_out
length-take_out s [] b' e = absurd (cc)
length-take_out s (x ∷ b) b' e = elim (take_out-cases s x b b' e) [
  | inl (_, e') ↦ rw e' refl
  | inr (c, k, e') ↦ rw e' (ap suc (length-take_out s b c k))
]

length-insert_sorted :
    (s : StoredSubscription) (b : List StoredSubscription)
    → length (insert_sorted s b) ≡ suc (length b)
unfolding insert_sorted
length-insert_sorted s [] = refl
length-insert_sorted s (x ∷ b) = ground (arith, length-insert_sorted s b)

length-sort_by_key : (b : List StoredSubscription) → length (sort_by_key b) ≡ length b
unfolding sort_by_key
length-sort_by_key [] = refl
length-sort_by_key (x ∷ b) = length-insert_sorted x (sort_by_key b) ∙ ap suc (length-sort_by_key b)

module _ (s : StoredSubscription) (st : MemoryStore) (v : IsValid st) where
  with_bucket-IsValid :
      (b : List StoredSubscription)
      → Unique b
      → count st.subscriptions + length b ≤ st.limits.subscriptions + length (bucket s st)
      → IsValid (with_bucket s st b)
  with_bucket-IsValid b u fits = record {
    unique = λ t. other t (bucket-insert s st b t);
    bounded = omega (arith, count-insert s.type_id b st.subscriptions);
  }
    where
      other :
          (t : TypeId)
          → subscriptions_for t (with_bucket s st b)
            ≡ (if nat_eq t s.type_id then b else subscriptions_for t st)
          → Unique (subscriptions_for t (with_bucket s st b))
      other t e = elim (Bool-cases (nat_eq t s.type_id)) [
        | inl k ↦ rw (e, k) u
        | inr k ↦ rw (e, k) (v.unique t)
      ]

  own : Unique (bucket s st)
  unfolding subscriptions_for
  own = v.unique s.type_id

  -- Storing a subscription keeps the keys of each bucket apart and the number of subscriptions
  -- within the limit.
  pub put_subscription-IsValid : IsValid (put_subscription s st).0
  put_subscription-IsValid = elim (put-cases s st) [
    | inl (b, e, p) ↦ rw p (
        with_bucket-IsValid b (replace-Unique s (bucket s st) b e own)
          (omega (arith, length-replace s (bucket s st) b e, v.bounded)))
    | inr (inl (_, _, p)) ↦ rw p (with_bucket-IsValid (bucket s st) own (omega (arith, v.bounded)))
    | inr (inr (e, room, p)) ↦ rw p (
        with_bucket-IsValid (sort_by_key (bucket s st ++ s ∷ []))
          (sort_by_key-Unique (bucket s st ++ s ∷ []) (
            append-Unique s (bucket s st)
              (find-replace-none s.subscriber s.handler s (bucket s st) e
                (ground (arith, ==_refl s.subscriber, ==_refl s.handler)))
              own))
          (omega (
            arith,
            length-sort_by_key (bucket s st ++ s ∷ []),
            length-append (bucket s st) (s ∷ []),
            room,
          )))
  ]

  -- A claim keeps the keys of each bucket apart and the number of subscriptions within the limit.
  pub claim_subscription-IsValid : IsValid (claim_subscription s st).0
  claim_subscription-IsValid = elim (claim-cases s st (v.unique s.type_id)) [
    | inl (e, _) ↦ rw e v
    | inr (b, k, e) ↦ elim (Bool-cases (kind_eq s.kind one_shot)) [
      | inl one ↦
          rw (e, one)
            (with_bucket-IsValid b (take_out-Unique s (bucket s st) b k own)
              (omega (arith, length-take_out s (bucket s st) b k, v.bounded)))
      | inr many ↦ rw (e, many) v
    ]
  ]

  -- In a valid store, a one-shot subscription that was claimed cannot be claimed again.
  pub claim_once :
      s.kind ≡ one_shot
      → (claim_subscription s st).1 ≡ true
      → (claim_subscription s (claim_subscription s st).0).1 ≡ false
  claim_once one claimed =
      let st' = (claim_subscription s st).0 in
      let gone : lookup s.type_id s.subscriber s.handler st' ≡ none =
        lookup-claim_subscription s st (v.unique s.type_id) s.type_id s.subscriber s.handler
        ∙ rw
            (
              claimed,
              ap (λ k. kind_eq k one_shot) one,
              (nat_eq_iff s.type_id s.type_id).1 refl,
              ==_refl s.subscriber,
              ==_refl s.handler,
            )
            refl in
      elim (Bool-cases (claim_subscription s st').1) [
        | inr f ↦ f
        | inl t ↦
            let found = (claim_iff s st' (claim_subscription-IsValid.unique s.type_id)).0 t in
            absurd (cc (gone, found))
      ]
