-- ===== src/Link/Dedup/Window.antt =====
-- The window holds the last identifiers acquired, each once, and at most its maximum.
use secure_pub_sub.Prelude.{
  ℕ, ◌<◌, ◌≤◌, ◌≡◌, refl, ap, ◌∙◌, subst, inl, inr, Bool-cases, length-drop, false, List, [], ◌∷◌,
  ◌++◌, arith, nat_eq, length, length-append, drop, Result, ok, err, is_some, if◌then◌else◌, ==_iff,
  ==_refl, ℕ-Eq, List-Eq,
}
use secure_pub_sub.Prelude.Map
use secure_pub_sub.Prelude.Map.{IsMap}
use secure_pub_sub.Prelude.Keys.{mem, IsNodup, mem-append, append-IsNodup}
use secure_pub_sub.Link.Codec.{MessageId, LinkError, queue_full}
use secure_pub_sub.Link.Dedup.{DedupWindow, new, contains, evict, insert}

pub record IsValid (w : DedupWindow) : Type 0 where
  pub mapped : IsMap w.ids
  pub distinct : IsNodup w.order
  pub same : (id : MessageId) → is_some (Map.get id w.ids) ≡ mem id w.order
  pub sized : length w.ids ≡ length w.order
  pub bounded : length w.order ≤ w.maximum

pub new-IsValid : (maximum : ℕ) → IsValid (new maximum)
unfolding new mem Map.get
new-IsValid maximum = record {
  mapped = tt;
  distinct = tt;
  same = λ id. refl;
  sized = refl;
  bounded = omega arith;
}

module _ (w : DedupWindow) (v : IsValid w) (oldest : MessageId) (rest : List MessageId)
    (e : w.order ≡ oldest ∷ rest) where
  oldest_once : IsNodup (oldest ∷ rest)
  oldest_once = subst IsNodup e v.distinct

  evicted_same : (id : MessageId) → is_some (Map.get id (Map.remove oldest w.ids)) ≡ mem id rest
  unfolding mem
  evicted_same id = ground (
    arith,
    Map.get-remove oldest id w.ids v.mapped,
    v.same id,
    ap (mem id) e,
    oldest_once,
    ==_iff id oldest,
  )

  evicted_sized : length (Map.remove oldest w.ids) ≡ length rest
  unfolding mem
  evicted_sized = ground (
    arith,
    Map.length-remove oldest w.ids,
    v.sized,
    v.same oldest,
    ap (mem oldest) e,
    ap length e,
    ==_refl oldest,
  )

  evict-IsValid : IsValid (evict (oldest ∷ rest) w)
  unfolding evict
  evict-IsValid = record {
    mapped = Map.remove-IsMap oldest w.ids v.mapped;
    distinct = oldest_once.1;
    same = evicted_same;
    sized = evicted_sized;
    bounded = omega (arith, v.bounded, ap length e);
  }

-- The oldest identifier goes, if there is one.
evict_room :
    (w : DedupWindow) (order : List MessageId)
    → w.order ≡ order
    → IsValid w
    → IsValid (evict order w) × ((evict order w).order ≡ drop 1 order)
unfolding evict
evict_room w [] e v = (v, e)
evict_room w (oldest ∷ rest) e v = (evict-IsValid w v oldest rest e, refl)

maximum-evict : (w : DedupWindow) (order : List MessageId) → (evict order w).maximum ≡ w.maximum
unfolding evict
maximum-evict w [] = refl
maximum-evict w (oldest ∷ rest) = refl

pub mem-drop :
    (id : MessageId) (order : List MessageId) → mem id order ≡ false → mem id (drop 1 order) ≡ false
unfolding mem
mem-drop id [] h = h
mem-drop id (j ∷ order) h = ground arith

-- A new identifier behind the others.
append-IsValid :
    (id : MessageId) (w : DedupWindow)
    → IsValid w
    → mem id w.order ≡ false
    → length w.order < w.maximum
    → IsValid (record w { order = w.order ++ id ∷ []; ids = Map.insert id tt w.ids })
unfolding mem
append-IsValid id w v absent room = record {
  mapped = Map.insert-IsMap id tt w.ids v.mapped;
  distinct = append-IsNodup id w.order absent v.distinct;
  same = λ j.
      ground (
        arith,
        v.same j,
        mem-append j w.order (id ∷ []),
        Map.get-insert id j tt w.ids,
        ==_iff j id,
      );
  sized =
      ground
        (arith, v.sized, v.same id, Map.length-insert id tt w.ids, length-append w.order (id ∷ []));
  bounded = omega (arith, room, length-append w.order (id ∷ []));
}

-- What the window promises of its list of identifiers, oldest first.
unfoldable pub slide : ℕ → MessageId → List MessageId → List MessageId × Result LinkError (Unit {0})
slide maximum id order =
    if nat_eq maximum 0
    then (order, err queue_full)
    else if mem id order
    then (order, ok tt)
    else ((if nat_eq (length order) maximum then drop 1 order else order) ++ id ∷ [], ok tt)

module _ (id : MessageId) (w : DedupWindow) (v : IsValid w) where
  -- The set answers for the list.
  pub contains-mem : contains id w ≡ mem id w.order
  unfolding contains Map.contains_key
  contains-mem = v.same id

  -- `insert` slides the list, result and all.
  pub order-insert : ((insert id w).0.order, (insert id w).1) ≡ slide w.maximum id w.order
  unfolding insert slide Map.contains_key
  order-insert = ground (arith, v.same id, v.sized, (evict_room w w.order refl v).1)

  insert_full :
      mem id w.order ≡ false
      → nat_eq w.maximum 0 ≡ false
      → let w' = evict w.order w in
        IsValid (record w' { order = w'.order ++ id ∷ []; ids = Map.insert id tt w'.ids })
  insert_full absent room =
      let (v', shorter) = evict_room w w.order refl v in
      append-IsValid id (evict w.order w) v' (ap (mem id) shorter ∙ mem-drop id w.order absent)
        (ground (arith, maximum-evict w w.order, shorter, length-drop 1 w.order, v.bounded))

  pub insert-IsValid : IsValid (insert id w).0
  unfolding insert Map.contains_key
  insert-IsValid = elim (Bool-cases (nat_eq w.maximum 0)) [
    | inl z ↦ rw z v
    | inr z ↦ elim (Bool-cases (is_some (Map.get id w.ids))) [
      | inl known ↦ rw (z, known) v
      | inr fresh ↦ elim (Bool-cases (nat_eq (length w.ids) w.maximum)) [
        | inl full ↦ rw (z, fresh, full) (insert_full (ground (arith, v.same id)) z)
        | inr room ↦
            rw (z, fresh, room)
              (append-IsValid id w v (ground (arith, v.same id))
                (ground (arith, v.bounded, v.sized)))
      ]
    ]
  ]

pub maximum-insert : (id : MessageId) (w : DedupWindow) → (insert id w).0.maximum ≡ w.maximum
unfolding insert
maximum-insert id w = ground (arith, maximum-evict w w.order)
