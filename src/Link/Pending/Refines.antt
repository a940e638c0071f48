-- ===== src/Link/Pending/Refines.antt =====
-- The collection behaves as one queue of identified frames, oldest first.
use secure_pub_sub.Prelude.{
  ℕ, ◌≤◌, ◌≡◌, refl, sym, ◌∙◌, Bool, true, false, List, [], ◌∷◌, ◌++◌, map, none, some, arith, leb,
  length, length-append, Bytes, Result, ok, err, is_some, if◌then◌else◌, ==_iff, ==_refl, ℕ-Eq,
  List-Eq,
}
use secure_pub_sub.Prelude.Map
use secure_pub_sub.Prelude.Map.{Map, IsMap}
use secure_pub_sub.Prelude.Keys.{
  mem, without, IsNodup, mem-append, mem-without, without-IsNodup, append-IsNodup, without_absent,
  length-without,
}
use secure_pub_sub.Link.Codec.{MessageId, LinkError, invalid_frame, queue_full}
use secure_pub_sub.Link.Pending.{PendingFrames, new, insert, acknowledge, retransmit, snapshot, len}

-- The map and the order hold the same identifiers, each once, and no more than the maximum.
pub record IsValid (p : PendingFrames) : Type 0 where
  pub mapped : IsMap p.frames
  pub distinct : IsNodup p.order
  pub same : (id : MessageId) → mem id p.order ≡ is_some (Map.get id p.frames)
  pub sized : length p.order ≡ length p.frames
  pub bounded : length p.frames ≤ p.maximum

pub new-IsValid : (maximum : ℕ) → IsValid (new maximum)
unfolding new mem Map.get
new-IsValid maximum = record {
  mapped = tt;
  distinct = tt;
  same = λ id. refl;
  sized = refl;
  bounded = omega arith;
}

module _ (id : MessageId) (p : PendingFrames) (v : IsValid p) where
  pub insert-IsValid : (encoded : Bytes) → IsValid (insert id encoded p).0
  unfolding insert Map.contains_key mem
  insert-IsValid encoded = record {
    mapped = ground (arith, Map.insert-IsMap id encoded p.frames v.mapped);
    distinct = ground (arith, v.same id, append-IsNodup id p.order, v.distinct);
    same = λ j. ground (
      arith,
      v.same j,
      mem-append j p.order (id ∷ []),
      Map.get-insert id j encoded p.frames,
      ==_iff j id,
    );
    sized =
        ground
          (arith, v.sized, length-append p.order (id ∷ []), Map.length-insert id encoded p.frames);
    bounded = ground (arith, v.bounded, Map.length-insert id encoded p.frames);
  }

  pub acknowledge-IsValid : IsValid (acknowledge id p).0
  unfolding acknowledge
  acknowledge-IsValid = record {
    mapped = ground (arith, Map.remove-IsMap id p.frames v.mapped, v.mapped);
    distinct = ground (arith, without-IsNodup id p.order v.distinct, v.distinct);
    same = λ j.
        ground (arith, v.same j, mem-without j id p.order, Map.get-remove id j p.frames v.mapped);
    sized = ground (
      arith,
      v.sized,
      v.same id,
      length-without id p.order v.distinct,
      Map.length-remove id p.frames,
    );
    bounded = ground (arith, v.bounded, Map.length-remove id p.frames);
  }

-- The queue: each identifier of the order beside its frame.
pairs : Map MessageId Bytes → List MessageId → List (MessageId × Bytes)
pairs frames [] = []
pairs frames (id ∷ order) = elim (Map.get id frames) [
  | none ↦ pairs frames order
  | some wired ↦ (id, wired) ∷ pairs frames order
]

unfoldable pub view : PendingFrames → List (MessageId × Bytes)
unfolding pairs
view p = pairs p.frames p.order

abbrev pub holds : MessageId → List (MessageId × Bytes) → Bool
holds id q = is_some (Map.get id q)

-- What the queue promises: a new identifier joins at the end while there is room, and an
-- acknowledged one leaves.
abbrev pub Queue : Type 0
Queue = List (MessageId × Bytes)

unfoldable pub enqueue : ℕ → MessageId → Bytes → Queue → Queue × Result LinkError (Unit {0})
enqueue maximum id encoded q =
    if holds id q
    then (q, err invalid_frame)
    else if leb maximum (length q)
    then (q, err queue_full)
    else (q ++ (id, encoded) ∷ [], ok tt)

unfoldable pub dequeue : MessageId → Queue → Queue × Bool
dequeue id q = (Map.remove id q, holds id q)

module _ (m : Map MessageId Bytes) where
  get-pairs :
      (id : MessageId) (order : List MessageId)
      → Map.get id (pairs m order) ≡ (if mem id order then Map.get id m else none)
  unfolding pairs mem Map.get
  get-pairs id [] = refl
  get-pairs id (j ∷ order) = ground (arith, get-pairs id order, ==_iff id j)

  length-pairs :
      (order : List MessageId)
      → ((id : MessageId) → mem id order ≡ true → is_some (Map.get id m) ≡ true)
      → length (pairs m order) ≡ length order
  unfolding pairs mem
  length-pairs [] h = refl
  length-pairs (j ∷ order) h =
      ground (arith, h j, ==_refl j, length-pairs order (λ id e. h id (ground arith)))

  retransmit-pairs : (order : List MessageId) → retransmit m order ≡ map (λ e. e.1) (pairs m order)
  unfolding pairs retransmit
  retransmit-pairs [] = refl
  retransmit-pairs (j ∷ order) = ground (arith, retransmit-pairs order)

  pairs-append : (xs ys : List MessageId) → pairs m (xs ++ ys) ≡ pairs m xs ++ pairs m ys
  unfolding pairs
  pairs-append [] ys = refl
  pairs-append (j ∷ xs) ys = ground (arith, pairs-append xs ys)

  pairs-insert :
      (id : MessageId) (w : Bytes) (order : List MessageId)
      → mem id order ≡ false
      → pairs (Map.insert id w m) order ≡ pairs m order
  unfolding pairs mem
  pairs-insert id w [] h = refl
  pairs-insert id w (j ∷ order) h =
      ground (arith, pairs-insert id w order, Map.get-insert id j w m, ==_iff id j, ==_iff j id)

  pairs-removed :
      (id : MessageId) (order : List MessageId)
      → IsMap m
      → mem id order ≡ false
      → pairs (Map.remove id m) order ≡ pairs m order
  unfolding pairs mem
  pairs-removed id [] h d = refl
  pairs-removed id (j ∷ order) h d =
      ground (arith, pairs-removed id order h, Map.get-remove id j m h, ==_iff id j, ==_iff j id)

  pairs-remove :
      (id : MessageId) (order : List MessageId)
      → IsMap m
      → IsNodup order
      → pairs (Map.remove id m) (without id order) ≡ Map.remove id (pairs m order)
  unfolding pairs mem without Map.remove
  pairs-remove id [] h d = refl
  pairs-remove id (j ∷ order) h d = ground (
    arith,
    pairs-remove id order h d.1,
    Map.get-remove id j m h,
    without_absent id order,
    pairs-removed id order h,
    ==_iff id j,
    ==_iff j id,
  )

module _ (p : PendingFrames) (v : IsValid p) where
  holds-view : (id : MessageId) → holds id (view p) ≡ is_some (Map.get id p.frames)
  unfolding view
  holds-view id = ground (arith, get-pairs p.frames id p.order, v.same id)

  length-view : length (view p) ≡ length p.frames
  unfolding view
  length-view = length-pairs p.frames p.order (λ id e. ground (arith, v.same id)) ∙ v.sized

  -- On a valid collection `insert` is `enqueue` on the queue, result and all.
  pub view-insert :
      (id : MessageId) (encoded : Bytes)
      → (view (insert id encoded p).0, (insert id encoded p).1)
        ≡ enqueue p.maximum id encoded (view p)
  unfolding insert enqueue view Map.contains_key pairs
  view-insert id encoded = ground (
    arith,
    holds-view id,
    length-view,
    v.same id,
    pairs-append (Map.insert id encoded p.frames) p.order (id ∷ []),
    pairs-insert p.frames id encoded p.order,
    Map.get-insert_self id encoded p.frames,
  )

  -- On a valid collection `acknowledge` is `dequeue` on the queue, result and all.
  pub view-acknowledge :
      (id : MessageId) → (view (acknowledge id p).0, (acknowledge id p).1) ≡ dequeue id (view p)
  unfolding acknowledge dequeue view
  view-acknowledge id = ground (
    arith,
    holds-view id,
    pairs-remove p.frames id p.order v.mapped v.distinct,
    Map.remove_absent id (view p),
  )

  -- The retransmission is the frames of the queue, oldest first.
  pub snapshot-view : snapshot p ≡ map (λ e. e.1) (view p)
  unfolding snapshot view
  snapshot-view = retransmit-pairs p.frames p.order

  pub len-view : len p ≡ length (view p)
  unfolding len
  len-view = sym length-view
