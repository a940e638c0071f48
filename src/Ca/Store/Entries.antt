-- ===== src/Ca/Store/Entries.antt =====
-- Properties of every entry of a bucket, under the operations of `MemoryStore` of
-- implementations/rust/crates/ca-core/src/lib.rs.
use secure_pub_sub.Prelude.{
  ◌≡◌, false, ==_iff, ==_refl, ℕ-Eq, List-Eq, List, [], ◌∷◌, none, some, arith, All, Bool-cases,
  inl, inr, Option-cases,
}
use secure_pub_sub.Protocol.Types.{AgentId, HandlerId}
use secure_pub_sub.Ca.Store.Bucket.{find, has_key, Unique}
use secure_pub_sub.Ca.Store.{
  StoredSubscription, same_key, replace, key_ltb, insert_sorted, sort_by_key, subscription_eq,
  take_out,
}

module _ (P : StoredSubscription → Type 0) where
  pub replace-All :
      (s : StoredSubscription) (b : List StoredSubscription) {b' : List StoredSubscription}
      → P s
      → All P b
      → replace s b ≡ some b'
      → All P b'
  unfolding replace
  replace-All s [] p h e = cc
  replace-All s (x ∷ b) p h e = elim (Bool-cases (same_key x s)) [
    | inl t ↦ ground arith
    | inr f ↦ elim (Option-cases (replace s b)) [
      | inl n ↦ absurd (ground arith)
      | inr (c, k) ↦ ground (arith, replace-All s b p h.1 k)
    ]
  ]

  insert_sorted-All :
      (s : StoredSubscription) (b : List StoredSubscription)
      → P s
      → All P b
      → All P (insert_sorted s b)
  unfolding insert_sorted
  insert_sorted-All s [] p h = (p, tt)
  insert_sorted-All s (x ∷ b) p h = elim (Bool-cases (key_ltb x s)) [
    | inl t ↦ rw t (h.0, insert_sorted-All s b p h.1)
    | inr f ↦ rw f (p, h)
  ]

  pub sort_by_key-All : (b : List StoredSubscription) → All P b → All P (sort_by_key b)
  unfolding sort_by_key
  sort_by_key-All [] h = tt
  sort_by_key-All (x ∷ b) h = insert_sorted-All x (sort_by_key b) h.0 (sort_by_key-All b h.1)

  pub take_out-All :
      (s : StoredSubscription) (b : List StoredSubscription) {b' : List StoredSubscription}
      → All P b
      → take_out s b ≡ some b'
      → All P b'
  unfolding take_out
  take_out-All s [] h e = cc
  take_out-All s (x ∷ b) h e = elim (Bool-cases (subscription_eq x s)) [
    | inl t ↦ ground arith
    | inr f ↦ elim (Option-cases (take_out s b)) [
      | inl n ↦ absurd (ground arith)
      | inr (c, k) ↦ ground (arith, take_out-All s b h.1 k)
    ]
  ]

pub All-map :
    (P Q : StoredSubscription → Type 0) (b : List StoredSubscription)
    → ((s : StoredSubscription) → P s → Q s)
    → All P b
    → All Q b
All-map P Q [] f h = tt
All-map P Q (x ∷ b) f h = (f x h.0, All-map P Q b f h.1)

pub All-both :
    (P Q : StoredSubscription → Type 0) (b : List StoredSubscription)
    → All P b
    → All Q b
    → All (λ s. P s × Q s) b
All-both P Q [] h k = tt
All-both P Q (x ∷ b) h k = ((h.0, k.0), All-both P Q b h.1 k.1)

pub has_key-sym :
    (x e : StoredSubscription)
    → has_key x.subscriber x.handler e ≡ false
    → has_key e.subscriber e.handler x ≡ false
has_key-sym x e h = ground (
  arith,
  ==_iff e.subscriber x.subscriber,
  ==_iff e.handler x.handler,
  ==_iff x.subscriber e.subscriber,
  ==_iff x.handler e.handler,
)

-- In a bucket without two entries of one key, each entry is found under its key.
find-none-All :
    (a : AgentId) (h : HandlerId) (l : List StoredSubscription)
    → find a h l ≡ none
    → All (λ e. has_key a h e ≡ false) l
unfolding find
find-none-All a h [] n = tt
find-none-All a h (x ∷ l) n = elim (Bool-cases (has_key a h x)) [
  | inl t ↦ absurd (ground arith)
  | inr f ↦ (f, find-none-All a h l (ground arith))
]

-- No later entry has the key of the first one.
pub Unique-apart :
    (x : StoredSubscription) (l : List StoredSubscription)
    → Unique (x ∷ l)
    → All (λ e. has_key e.subscriber e.handler x ≡ false) l
Unique-apart x l u =
    All-map (λ e. has_key x.subscriber x.handler e ≡ false)
      (λ e. has_key e.subscriber e.handler x ≡ false) l (has_key-sym x)
      (find-none-All x.subscriber x.handler l u.0)

find-later :
    (x : StoredSubscription) (l : List StoredSubscription) (e : StoredSubscription)
    → (has_key e.subscriber e.handler x ≡ false) × (find e.subscriber e.handler l ≡ some e)
    → find e.subscriber e.handler (x ∷ l) ≡ some e
unfolding find
find-later x l e (f, h) = rw f h

pub Unique-find :
    (l : List StoredSubscription) → Unique l → All (λ e. find e.subscriber e.handler l ≡ some e) l
unfolding find
Unique-find [] u = tt
Unique-find (x ∷ l) u = (
  ground (arith, ==_refl x.subscriber, ==_refl x.handler),
  All-map
      (λ e. (has_key e.subscriber e.handler x ≡ false) × (find e.subscriber e.handler l ≡ some e))
      (λ e. find e.subscriber e.handler (x ∷ l) ≡ some e) l (find-later x l)
      (All-both _ _ l (Unique-apart x l u) (Unique-find l u.1)),
)
