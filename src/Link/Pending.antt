-- ===== src/Link/Pending.antt =====
-- `PendingFrames` of implementations/rust/crates/infrastructure-link/src/lib.rs: the frames that
-- were sent and not yet acknowledged.
pub mod Refines
pub mod Histories
use secure_pub_sub.Prelude.{
  ℕ, suc, ◌+◌, ◌-◌, ◌≤◌, ◌≡◌, Bool, true, false, List, [], ◌∷◌, ◌++◌, Option, none, some, leb,
  nat_eq, length, Bytes, Result, ok, err, is_some, if◌then◌else◌, ℕ-Eq, List-Eq,
}
use secure_pub_sub.Prelude.Map
use secure_pub_sub.Prelude.Map.{Map}
use secure_pub_sub.Prelude.Keys.{without}
use secure_pub_sub.Link.Codec.{MessageId, LinkError, invalid_frame, queue_full}

pub record PendingFrames : Type 0 where
  pub maximum : ℕ
  pub frames : Map MessageId Bytes
  pub order : List MessageId

unfoldable pub new : ℕ → PendingFrames
new maximum = record { maximum = maximum; frames = []; order = [] }

-- A method that changes the collection returns it beside its result.
unfoldable pub insert :
    MessageId → Bytes → PendingFrames → PendingFrames × Result LinkError (Unit {0})
insert id encoded p =
    if Map.contains_key id p.frames
    then (p, err invalid_frame)
    else if leb p.maximum (length p.frames)
    then (p, err queue_full)
    else (record p { frames = Map.insert id encoded p.frames; order = p.order ++ id ∷ [] }, ok tt)

unfoldable pub acknowledge : MessageId → PendingFrames → PendingFrames × Bool
acknowledge id p =
    if is_some (Map.get id p.frames)
    then (record p { frames = Map.remove id p.frames; order = without id p.order }, true)
    else (p, false)

-- `order.iter().filter_map(|id| frames.get(id).cloned())`
unfoldable pub retransmit : Map MessageId Bytes → List MessageId → List Bytes
retransmit frames [] = []
retransmit frames (id ∷ order) = elim (Map.get id frames) [
  | none ↦ retransmit frames order
  | some wired ↦ wired ∷ retransmit frames order
]

unfoldable pub snapshot : PendingFrames → List Bytes
unfolding retransmit
snapshot p = retransmit p.frames p.order

unfoldable pub len : PendingFrames → ℕ
len p = length p.frames

unfoldable pub is_empty : PendingFrames → Bool
is_empty p = nat_eq (length p.frames) 0

unfoldable pub is_full : PendingFrames → Bool
is_full p = leb p.maximum (length p.frames)

-- `saturating_sub`
unfoldable pub remaining : PendingFrames → ℕ
remaining p = p.maximum - length p.frames
