-- ===== src/Broker/Offline.antt =====
-- `MemoryOfflineQueueStore` of implementations/rust/crates/broker-core/src/lib.rs: the deliveries
-- for agents that are not connected, one queue for each agent.
pub mod Refines
use secure_pub_sub.Prelude.{
  ℕ, List, [], ◌∷◌, ◌++◌, Option, none, some, ltb, leb, nat_eq, length, take, Bytes, Result, ok,
  err, if◌then◌else◌, ℕ-Eq, List-Eq,
}
use secure_pub_sub.Prelude.Map
use secure_pub_sub.Prelude.Map.{Map}
use secure_pub_sub.Protocol.Types.{AgentId}
use secure_pub_sub.Broker.Errors.{RouteError, offline_queue_full}

pub record OfflineStore : Type 0 where
  pub depth : ℕ
  pub queues : Map AgentId (List Bytes)

unfoldable pub new : ℕ → OfflineStore
new depth = record { depth = depth; queues = [] }

-- `unwrap_or_default` on a queue.
abbrev pub or_default : Option (List Bytes) → List Bytes
or_default none = []
or_default (some queue) = queue

-- `entry(identity).or_default()` stores the empty queue also on the path that then fails.
unfoldable pub enqueue :
    AgentId → Bytes → OfflineStore → OfflineStore × Result RouteError (Unit {0})
enqueue identity frame s =
    if nat_eq s.depth 0
    then (s, err offline_queue_full)
    else let queue = or_default (Map.get identity s.queues) in
      let entered = Map.insert identity queue s.queues in
      if leb s.depth (length queue)
      then (record s { queues = entered }, err offline_queue_full)
      else (record s { queues = Map.insert identity (queue ++ frame ∷ []) entered }, ok tt)

unfoldable pub take_all : AgentId → OfflineStore → OfflineStore × List Bytes
take_all identity s =
    (record s { queues = Map.remove identity s.queues }, or_default (Map.get identity s.queues))

unfoldable pub prepend :
    AgentId → List Bytes → OfflineStore → OfflineStore × Result RouteError (Unit {0})
prepend identity frames s =
    let all_frames = frames ++ or_default (Map.get identity s.queues) in
    let removed = Map.remove identity s.queues in
    let kept = take s.depth all_frames in
    let stored = if nat_eq (length kept) 0 then removed else Map.insert identity kept removed in
    (
      record s { queues = stored },
      if ltb s.depth (length all_frames) then err offline_queue_full else ok tt,
    )

unfoldable pub len : AgentId → OfflineStore → ℕ
len identity s = length (or_default (Map.get identity s.queues))
