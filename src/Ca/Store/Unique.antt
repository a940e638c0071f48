-- ===== src/Ca/Store/Unique.antt =====
-- The operations on a bucket keep its keys apart.
use secure_pub_sub.Prelude.{
  ◌≡◌, refl, sym, ap₂, ◌∙◌, true, List, [], ◌∷◌, ◌++◌, none, some, arith, ==_iff, ==_refl, ℕ-Eq,
  List-Eq, Bool-cases, inl, inr,
}
use secure_pub_sub.Ca.Store.{
  StoredSubscription, key_ltb, replace, insert_sorted, sort_by_key, take_out,
}
use secure_pub_sub.Ca.Store.Bucket.{
  has_key, find, Unique, replace-cases, take_out-cases, has_key-same_key, find-insert_sorted,
  find-sort_by_key, find-append, find-replace, find-take_out,
}

key_refl : (s : StoredSubscription) → has_key s.subscriber s.handler s ≡ true
key_refl s = ground (arith, ==_refl s.subscriber, ==_refl s.handler)

key_sym :
    (x s : StoredSubscription)
    → has_key x.subscriber x.handler s ≡ true
    → has_key s.subscriber s.handler x ≡ true
key_sym x s e = ground (
  arith,
  ==_iff s.subscriber x.subscriber,
  ==_iff s.handler x.handler,
  ==_iff x.subscriber s.subscriber,
  ==_iff x.handler s.handler,
)

pub replace-Unique :
    (s : StoredSubscription) (b b' : List StoredSubscription)
    → replace s b ≡ some b'
    → Unique b
    → Unique b'
unfolding replace find
replace-Unique s [] b' e u = absurd (cc)
replace-Unique s (x ∷ b) b' e u = elim (replace-cases s x b b' e) [
  | inl (t, e') ↦
      let same1 : x.subscriber ≡ s.subscriber = ground (arith, ==_iff x.subscriber s.subscriber) in
      let same2 : x.handler ≡ s.handler = ground (arith, ==_iff x.handler s.handler) in
      rw e' (ap₂ (λ i j. find i j b) (sym same1) (sym same2) ∙ u.0, u.1)
  | inr (f, c, k, e') ↦ rw e' (
    ground (
      arith,
      find-replace x.subscriber x.handler s b c k,
      has_key-same_key x s x.subscriber x.handler (key_refl x),
      u.0,
    ),
    replace-Unique s b c k u.1,
  )
]

insert_sorted-Unique :
    (s : StoredSubscription) (b : List StoredSubscription)
    → Unique (s ∷ b)
    → Unique (insert_sorted s b)
unfolding insert_sorted find
insert_sorted-Unique s [] u = u
insert_sorted-Unique s (x ∷ b) u = elim (Bool-cases (key_ltb x s)) [
  | inl t ↦ rw t (
    ground (arith, find-insert_sorted x.subscriber x.handler s b, key_sym x s, u.0, u.1.0),
    insert_sorted-Unique s b (ground (arith, u.0), u.1.1),
  )
  | inr f ↦ rw f u
]

find-key :
    (s : StoredSubscription) (b : List StoredSubscription)
    → find s.subscriber s.handler (sort_by_key b) ≡ find s.subscriber s.handler b
find-key s b = find-sort_by_key s.subscriber s.handler b

pub sort_by_key-Unique : (b : List StoredSubscription) → Unique b → Unique (sort_by_key b)
unfolding sort_by_key
sort_by_key-Unique [] u = u
sort_by_key-Unique (x ∷ b) u =
    insert_sorted-Unique x (sort_by_key b) (find-key x b ∙ u.0, sort_by_key-Unique b u.1)

pub append-Unique :
    (s : StoredSubscription) (b : List StoredSubscription)
    → find s.subscriber s.handler b ≡ none
    → Unique b
    → Unique (b ++ s ∷ [])
unfolding find
append-Unique s [] e u = (refl, tt)
append-Unique s (x ∷ b) e u = (
  ground (arith, find-append x.subscriber x.handler b s, key_sym x s, u.0),
  append-Unique s b (ground arith) u.1,
)

pub take_out-Unique :
    (s : StoredSubscription) (b b' : List StoredSubscription)
    → take_out s b ≡ some b'
    → Unique b
    → Unique b'
unfolding take_out
take_out-Unique s [] b' e u = absurd (cc)
take_out-Unique s (x ∷ b) b' e u = elim (take_out-cases s x b b' e) [
  | inl (_, e') ↦ rw e' u.1
  | inr (c, k, e') ↦ rw e' (
    ground (arith, find-take_out x.subscriber x.handler s b c u.1 k, u.0),
    take_out-Unique s b c k u.1,
  )
]
