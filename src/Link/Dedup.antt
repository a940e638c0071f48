-- ===== src/Link/Dedup.antt =====
-- `DedupWindow` of implementations/rust/crates/infrastructure-link/src/lib.rs: the identifiers that
-- a receiver has acquired last.
pub mod Window
pub mod Memory
use secure_pub_sub.Prelude.{
  ℕ, ◌++◌, Bool, List, [], ◌∷◌, nat_eq, length, Result, ok, err, if◌then◌else◌, ℕ-Eq, List-Eq,
}
use secure_pub_sub.Prelude.Map
use secure_pub_sub.Prelude.Map.{Map}
use secure_pub_sub.Link.Codec.{MessageId, LinkError, queue_full}

-- A `BTreeSet` is a map to the unit type.
pub record DedupWindow : Type 0 where
  pub maximum : ℕ
  pub order : List MessageId
  pub ids : Map MessageId (Unit {0})

unfoldable pub new : ℕ → DedupWindow
new maximum = record { maximum = maximum; order = []; ids = [] }

unfoldable pub contains : MessageId → DedupWindow → Bool
contains id w = Map.contains_key id w.ids

-- `order.pop_front()`, and the removal of what it returns from the set.
evict : List MessageId → DedupWindow → DedupWindow
evict [] w = w
evict (oldest ∷ rest) w = record w { order = rest; ids = Map.remove oldest w.ids }

unfoldable pub insert : MessageId → DedupWindow → DedupWindow × Result LinkError (Unit {0})
unfolding evict
insert id w =
    if nat_eq w.maximum 0
    then (w, err queue_full)
    else if Map.contains_key id w.ids
    then (w, ok tt)
    else (let w' = if nat_eq (length w.ids) w.maximum then evict w.order w else w in
        (record w' { order = w'.order ++ id ∷ []; ids = Map.insert id tt w'.ids }, ok tt))
