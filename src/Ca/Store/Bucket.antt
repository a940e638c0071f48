-- ===== src/Ca/Store/Bucket.antt =====
-- One bucket of subscriptions as a finite map from subscribers and handlers.
use secure_pub_sub.Prelude.{
  ◌≡◌, refl, sym, ap₂, ◌∙◌, Bool, true, false, ◌&&◌, List, [], ◌∷◌, ◌++◌, Option, none, some, arith,
  nat_eq_iff, Bytes, is_some, if◌then◌else◌, ==_iff, ==_refl, ◌==◌, ℕ-Eq, List-Eq, Bool-cases,
  Option-cases, ◌⊎◌, inl, inr,
}
use secure_pub_sub.Protocol.Types.{AgentId, HandlerId}
use secure_pub_sub.Ca.Store.{
  StoredSubscription, same_key, replace, bytes_ltb, key_ltb, insert_sorted, sort_by_key,
  subscription_eq, take_out,
}

abbrev pub has_key : AgentId → HandlerId → StoredSubscription → Bool
has_key a h entry = (entry.subscriber == a) && (entry.handler == h)

-- The subscription of this subscriber for this handler.
unfoldable pub find : AgentId → HandlerId → List StoredSubscription → Option StoredSubscription
find a h [] = none
find a h (entry ∷ rest) = if has_key a h entry then some entry else find a h rest

-- No entry has the key of an earlier one.
abbrev pub Unique : List StoredSubscription → Type 0
Unique [] = Unit {0}
Unique (entry ∷ rest) = (find entry.subscriber entry.handler rest ≡ none) × Unique rest

pub subscription_eq-≡ : (x s : StoredSubscription) → subscription_eq x s ≡ true → x ≡ s
subscription_eq-≡ x s e =
    let e1 : x.subscriber ≡ s.subscriber = ground (arith, ==_iff x.subscriber s.subscriber) in
    let e2 : x.type_id ≡ s.type_id = ground (arith, nat_eq_iff x.type_id s.type_id) in
    let e3 : x.handler ≡ s.handler = ground (arith, ==_iff x.handler s.handler) in
    let e4 : x.kind ≡ s.kind = ground arith in
    let e5 : x.encoded ≡ s.encoded = ground (arith, ==_iff x.encoded s.encoded) in
    λ i. record { subscriber = e1 i; type_id = e2 i; handler = e3 i; kind = e4 i; encoded = e5 i }

pub subscription_eq_refl : (s : StoredSubscription) → subscription_eq s s ≡ true
subscription_eq_refl s = ground (
  arith,
  ==_refl s.subscriber,
  ==_refl s.handler,
  ==_refl s.encoded,
  nat_eq_iff s.type_id s.type_id,
)

pub same_key-has_key :
    (x s : StoredSubscription) (a : AgentId) (h : HandlerId)
    → same_key x s ≡ true
    → has_key a h x ≡ has_key a h s
same_key-has_key x s a h e =
    let e1 : x.subscriber ≡ s.subscriber = ground (arith, ==_iff x.subscriber s.subscriber) in
    let e2 : x.handler ≡ s.handler = ground (arith, ==_iff x.handler s.handler) in
    ap₂ (λ i j. (i == a) && (j == h)) e1 e2

pub has_key-same_key :
    (x s : StoredSubscription) (a : AgentId) (h : HandlerId)
    → has_key a h x ≡ true
    → has_key a h s ≡ true
    → same_key x s ≡ true
has_key-same_key x s a h e k = ground (
  arith,
  ==_iff x.subscriber a,
  ==_iff x.handler h,
  ==_iff s.subscriber a,
  ==_iff s.handler h,
  ==_refl a,
  ==_refl h,
)

pub replace-cases :
    (s x : StoredSubscription) (b b' : List StoredSubscription)
    → replace s (x ∷ b) ≡ some b'
    → ((same_key x s ≡ true) × (b' ≡ s ∷ b))
      ⊎ ((same_key x s ≡ false)
          × (c : List StoredSubscription) × (replace s b ≡ some c)
          × (b' ≡ x ∷ c))
unfolding replace
replace-cases s x b b' e = elim (Bool-cases (same_key x s)) [
  | inl t ↦ inl (t, ground arith)
  | inr f ↦ elim (Option-cases (replace s b)) [
    | inl n ↦ absurd (ground arith)
    | inr (c, k) ↦ inr (f, c, k, ground arith)
  ]
]

pub take_out-cases :
    (s x : StoredSubscription) (b b' : List StoredSubscription)
    → take_out s (x ∷ b) ≡ some b'
    → ((x ≡ s) × (b' ≡ b))
      ⊎ ((c : List StoredSubscription) × (take_out s b ≡ some c) × (b' ≡ x ∷ c))
unfolding take_out
take_out-cases s x b b' e = elim (Bool-cases (subscription_eq x s)) [
  | inl t ↦ inl (subscription_eq-≡ x s t, ground arith)
  | inr f ↦ elim (Option-cases (take_out s b)) [
    | inl n ↦ absurd (ground arith)
    | inr (c, k) ↦ inr (c, k, ground arith)
  ]
]

bytes_ltb_irrefl : (a : Bytes) → bytes_ltb a a ≡ false
unfolding bytes_ltb
bytes_ltb_irrefl [] = refl
bytes_ltb_irrefl (x ∷ a) = ground (arith, bytes_ltb_irrefl a)

-- Entries in a strict order have different keys.
key_ltb-key :
    (e s : StoredSubscription) (a : AgentId) (h : HandlerId)
    → key_ltb e s ≡ true
    → has_key a h s ≡ true
    → has_key a h e ≡ false
key_ltb-key e s a h l k = ground (
  arith,
  ==_iff s.subscriber a,
  ==_iff s.handler h,
  ==_iff e.subscriber a,
  ==_iff e.handler h,
  bytes_ltb_irrefl a,
  bytes_ltb_irrefl h,
)

-- What is taken out was there.
pub take_out-found :
    (s : StoredSubscription) (b c : List StoredSubscription)
    → take_out s b ≡ some c
    → is_some (find s.subscriber s.handler b) ≡ true
unfolding find take_out
take_out-found s [] c k = absurd (cc)
take_out-found s (x ∷ b) c k = elim (take_out-cases s x b c k) [
  | inl (same, _) ↦
      ground (arith, same, ==_iff x.subscriber s.subscriber, ==_iff x.handler s.handler)
  | inr (d, k', _) ↦ ground (arith, take_out-found s b d k')
]

pub earlier-has_key :
    (s x : StoredSubscription) (b c : List StoredSubscription) (a : AgentId) (h : HandlerId)
    → Unique (x ∷ b)
    → take_out s b ≡ some c
    → has_key a h x ≡ true
    → has_key a h s ≡ false
earlier-has_key s x b c a h u k t = elim (Bool-cases (has_key a h s)) [
  | inr f ↦ f
  | inl same ↦
      let x1 : x.subscriber ≡ a = ground (arith, ==_iff x.subscriber a) in
      let x2 : x.handler ≡ h = ground (arith, ==_iff x.handler h) in
      let s1 : s.subscriber ≡ a = ground (arith, ==_iff s.subscriber a) in
      let s2 : s.handler ≡ h = ground (arith, ==_iff s.handler h) in
      let found : is_some (find x.subscriber x.handler b) ≡ true =
        ap₂ (λ i j. is_some (find i j b)) (x1 ∙ sym s1) (x2 ∙ sym s2) ∙ take_out-found s b c k in
      absurd (cc (u.0, found))
]

module _ (a : AgentId) (h : HandlerId) where
  pub find-insert_sorted :
      (s : StoredSubscription) (b : List StoredSubscription)
      → find a h (insert_sorted s b) ≡ find a h (s ∷ b)
  unfolding find insert_sorted
  find-insert_sorted s [] = refl
  find-insert_sorted s (e ∷ b) = ground (arith, find-insert_sorted s b, key_ltb-key e s a h)

  -- Sorting changes no entry's place in the map.
  pub find-sort_by_key : (b : List StoredSubscription) → find a h (sort_by_key b) ≡ find a h b
  unfolding find sort_by_key
  find-sort_by_key [] = refl
  find-sort_by_key (e ∷ b) =
      find-insert_sorted e (sort_by_key b) ∙ ground (arith, find-sort_by_key b)

  pub find-append :
      (b : List StoredSubscription) (s : StoredSubscription)
      → find a h (b ++ s ∷ [])
        ≡ (if is_some (find a h b) then find a h b else if has_key a h s then some s else none)
  unfolding find
  find-append [] s = refl
  find-append (e ∷ b) s = ground (arith, find-append b s)

  -- The entry with the key is the new one.
  pub find-replace :
      (s : StoredSubscription) (b b' : List StoredSubscription)
      → replace s b ≡ some b'
      → find a h b' ≡ (if has_key a h s then some s else find a h b)
  unfolding find replace
  find-replace s [] b' e = absurd (cc)
  find-replace s (x ∷ b) b' e = elim (replace-cases s x b b' e) [
    | inl (t, e') ↦ rw e' (ground (arith, same_key-has_key x s a h t))
    | inr (f, c, k, e') ↦ rw e' (ground (arith, find-replace s b c k, has_key-same_key x s a h))
  ]

  -- A key that no entry has is not replaced.
  pub find-replace-none :
      (s : StoredSubscription) (b : List StoredSubscription)
      → replace s b ≡ none
      → has_key a h s ≡ true
      → find a h b ≡ none
  unfolding find replace
  find-replace-none s [] e k = refl
  find-replace-none s (x ∷ b) e k = elim (Option-cases (replace s b)) [
    | inl n ↦ ground (arith, find-replace-none s b n k, has_key-same_key x s a h)
    | inr (c, n) ↦ absurd (ground arith)
  ]

  -- The entry that is taken out is gone, and no other.
  pub find-take_out :
      (s : StoredSubscription) (b b' : List StoredSubscription)
      → Unique b
      → take_out s b ≡ some b'
      → find a h b' ≡ (if has_key a h s then none else find a h b)
  unfolding find take_out
  find-take_out s [] b' u e = absurd (cc)
  find-take_out s (x ∷ b) b' u e = elim (take_out-cases s x b b' e) [
    | inl (same, e') ↦
        rw (e', sym same) (ground (arith, u.0, ==_iff x.subscriber a, ==_iff x.handler h))
    | inr (c, k, e') ↦
        rw e' (ground (arith, find-take_out s b c u.1 k, earlier-has_key s x b c a h u k))
  ]
