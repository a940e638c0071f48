-- ===== src/Link/Dedup/Memory.antt =====
-- How long an acquired identifier is recognised.
use secure_pub_sub.Prelude.{
  ℕ, suc, ◌+◌, ◌<◌, ◌≤◌, ◌≡◌, sym, ap, ◌∙◌, true, false, List, [], ◌∷◌, ◌++◌, arith, length,
  length-append, drop, if◌then◌else◌, ==_iff, ==_refl, ◌==◌, ℕ-Eq, List-Eq,
}
use secure_pub_sub.Prelude.Keys.{mem, mem-append}
use secure_pub_sub.Link.Codec.{MessageId}
use secure_pub_sub.Link.Dedup.{DedupWindow, contains, insert}
use secure_pub_sub.Link.Dedup.Window.{
  IsValid, slide, contains-mem, order-insert, insert-IsValid, maximum-insert, mem-drop,
}

-- How many identifiers came after this one.
after : MessageId → List MessageId → ℕ
after id [] = 0
after id (j ∷ order) = if id == j then length order else after id order

after-lt :
    (id : MessageId) (order : List MessageId) → mem id order ≡ true → after id order < length order
unfolding mem after
after-lt id [] h = cc
after-lt id (j ∷ order) h = ground (arith, after-lt id order)

after-append :
    (id j : MessageId) (order : List MessageId)
    → mem id order ≡ true
    → after id (order ++ j ∷ []) ≡ suc (after id order)
unfolding mem after
after-append id j [] h = cc
after-append id j (i ∷ order) h =
    ground (arith, after-append id j order, length-append order (j ∷ []))

oldest_dropped :
    (id : MessageId) (order : List MessageId)
    → mem id order ≡ true
    → suc (after id order) < length order
    → (mem id (drop 1 order) ≡ true) × (after id (drop 1 order) ≡ after id order)
unfolding mem after
oldest_dropped id [] h l = cc
oldest_dropped id (j ∷ order) h l = ground (arith, ==_iff id j)

-- One more identifier makes this one older by one at most.
slide_keeps :
    (maximum : ℕ) (id j : MessageId) (order : List MessageId)
    → mem id order ≡ true
    → suc (after id order) < maximum
    → let order' = (slide maximum j order).0 in
      (mem id order' ≡ true) × (after id order' ≤ suc (after id order))
unfolding slide
slide_keeps maximum id j order h l = ground (
  arith,
  oldest_dropped id order h,
  mem-append id order (j ∷ []),
  mem-append id (drop 1 order) (j ∷ []),
  after-append id j order,
  after-append id j (drop 1 order),
)

pub acquire : DedupWindow → List MessageId → DedupWindow
acquire w [] = w
acquire w (id ∷ ids) = acquire (insert id w).0 ids

acquire_keeps :
    (w : DedupWindow) (id : MessageId) (ids : List MessageId)
    → IsValid w
    → mem id w.order ≡ true
    → after id w.order + length ids < w.maximum
    → contains id (acquire w ids) ≡ true
unfolding acquire
acquire_keeps w id [] v h l = contains-mem id w v ∙ h
acquire_keeps w id (j ∷ ids) v h l =
    let moved = order-insert j w v in
    let (h', l') = slide_keeps w.maximum id j w.order h (omega (arith, l)) in
    acquire_keeps (insert j w).0 id ids (insert-IsValid j w v) (ap (λ r. mem id r.0) moved ∙ h')
      (omega (arith, l, l', maximum-insert j w, ap (λ r. after id r.0) moved))

append_fresh :
    (id : MessageId) (order : List MessageId)
    → mem id order ≡ false
    → (mem id (order ++ id ∷ []) ≡ true) × (after id (order ++ id ∷ []) ≡ 0)
unfolding mem after
append_fresh id [] h = ground (arith, ==_refl id)
append_fresh id (j ∷ order) h = ground (arith, append_fresh id order)

slide_fresh :
    (maximum : ℕ) (id : MessageId) (order : List MessageId)
    → 0 < maximum
    → mem id order ≡ false
    → let order' = (slide maximum id order).0 in (mem id order' ≡ true) × (after id order' ≡ 0)
unfolding slide
slide_fresh maximum id order h absent =
    ground (arith, append_fresh id order, append_fresh id (drop 1 order), mem-drop id order absent)

-- From a valid window with room for one identifier, an identifier that it does not hold is
-- recognised once it is inserted, and stays so while fewer than `maximum` insertions follow.
pub contains-acquire :
    (w : DedupWindow) (id : MessageId) (ids : List MessageId)
    → IsValid w
    → contains id w ≡ false
    → length ids < w.maximum
    → contains id (acquire (insert id w).0 ids) ≡ true
contains-acquire w id ids v absent l =
    let moved = order-insert id w v in
    let (held, young) =
      slide_fresh w.maximum id w.order (omega arith) (sym (contains-mem id w v) ∙ absent) in
    acquire_keeps (insert id w).0 id ids (insert-IsValid id w v) (ap (λ r. mem id r.0) moved ∙ held)
      (omega (arith, l, young, maximum-insert id w, ap (λ r. after id r.0) moved))
