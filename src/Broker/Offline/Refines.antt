-- ===== src/Broker/Offline/Refines.antt =====
-- The store keeps one bounded queue for each agent.
use secure_pub_sub.Prelude.{
  ℕ, ◌≤◌, ◌≡◌, List, [], ◌∷◌, ◌++◌, arith, ltb, leb, length, length-append, take, length-take_bound,
  length-eq-zero, Bytes, Result, ok, err, if◌then◌else◌, ==_iff, ◌==◌, ℕ-Eq, List-Eq,
}
use secure_pub_sub.Prelude.Map
use secure_pub_sub.Prelude.Map.{IsMap, get-insert, get-remove, insert-IsMap, remove-IsMap}
use secure_pub_sub.Protocol.Types.{AgentId}
use secure_pub_sub.Broker.Errors.{RouteError, offline_queue_full}
use secure_pub_sub.Broker.Offline.{OfflineStore, new, or_default, enqueue, take_all, prepend}

-- The queue of an agent.
abbrev pub queue : OfflineStore → AgentId → List Bytes
queue s j = or_default (Map.get j s.queues)

pub record IsValid (s : OfflineStore) : Type 0 where
  pub is_map : IsMap s.queues
  pub bounded : (j : AgentId) → length (queue s j) ≤ s.depth

-- Queues as a function of the agent, all with room for `depth` frames.
abbrev pub Queues : Type 0
Queues = AgentId → List Bytes

abbrev pub update : AgentId → List Bytes → Queues → Queues
update identity frames q j = if j == identity then frames else q j

unfoldable pub push_back : ℕ → AgentId → Bytes → Queues → Queues × Result RouteError (Unit {0})
push_back depth identity frame q =
    if leb depth (length (q identity))
    then (q, err offline_queue_full)
    else (update identity (q identity ++ frame ∷ []) q, ok tt)

unfoldable pub push_front :
    ℕ → AgentId → List Bytes → Queues → Queues × Result RouteError (Unit {0})
push_front depth identity frames q =
    let all_frames = frames ++ q identity in
    (
      update identity (take depth all_frames) q,
      if ltb depth (length all_frames) then err offline_queue_full else ok tt,
    )

pub new-IsValid : (depth : ℕ) → IsValid (new depth)
unfolding new Map.get
new-IsValid depth = record { is_map = tt; bounded = λ j. omega arith }

module _ (s : OfflineStore) (h : IsValid s) (identity : AgentId) where
  -- On a valid store `enqueue` is `push_back` on the agents' queues, result and all: the frame goes
  -- to the back of its agent's queue when that has room, and no other queue changes.
  pub queue-enqueue :
      (frame : Bytes) (j : AgentId)
      → (queue (enqueue identity frame s).0 j ≡ (push_back s.depth identity frame (queue s)).0 j)
        × ((enqueue identity frame s).1 ≡ (push_back s.depth identity frame (queue s)).1)
  unfolding enqueue push_back
  queue-enqueue frame j =
      let q = or_default (Map.get identity s.queues) in
      let entered = Map.insert identity q s.queues in
      ground (
        arith,
        ==_iff j identity,
        h.bounded identity,
        get-insert identity j q s.queues,
        get-insert identity j (q ++ frame ∷ []) entered,
      )

  enqueue-bounded :
      (frame : Bytes) (j : AgentId) → length (queue (enqueue identity frame s).0 j) ≤ s.depth
  unfolding push_back
  enqueue-bounded frame j = rw ((queue-enqueue frame j).0) (
      ground
        (arith, h.bounded j, h.bounded identity, length-append (queue s identity) (frame ∷ [])))

  enqueue-depth : (frame : Bytes) → (enqueue identity frame s).0.depth ≡ s.depth
  unfolding enqueue
  enqueue-depth frame = ground arith

  enqueue-IsMap : (frame : Bytes) → IsMap (enqueue identity frame s).0.queues
  unfolding enqueue
  enqueue-IsMap frame =
      let q = or_default (Map.get identity s.queues) in
      let entered = Map.insert identity q s.queues in
      let entered_map = insert-IsMap identity q s.queues h.is_map in
      ground
        (arith, h.is_map, entered_map, insert-IsMap identity (q ++ frame ∷ []) entered entered_map)

  pub enqueue-IsValid : (frame : Bytes) → IsValid (enqueue identity frame s).0
  enqueue-IsValid frame = record {
    is_map = enqueue-IsMap frame;
    bounded = λ j. omega (arith, enqueue-bounded frame j, enqueue-depth frame);
  }

  pub queue-take_all :
      (j : AgentId)
      → (queue (take_all identity s).0 j ≡ update identity [] (queue s) j)
        × ((take_all identity s).1 ≡ queue s identity)
  unfolding take_all
  queue-take_all j = ground (arith, get-remove identity j s.queues h.is_map)

  pub take_all-IsValid : IsValid (take_all identity s).0
  unfolding take_all
  take_all-IsValid = record {
    is_map = remove-IsMap identity s.queues h.is_map;
    bounded = λ j. ground (arith, h.bounded j, get-remove identity j s.queues h.is_map);
  }

  -- On a valid store `prepend` is `push_front` on the agents' queues, result and all: the frames go
  -- to the front of the agent's queue, which is cut at the end to its depth, with an error when
  -- some were cut; no other queue changes.
  pub queue-prepend :
      (frames : List Bytes) (j : AgentId)
      → (queue (prepend identity frames s).0 j ≡ (push_front s.depth identity frames (queue s)).0 j)
        × ((prepend identity frames s).1 ≡ (push_front s.depth identity frames (queue s)).1)
  unfolding prepend push_front
  queue-prepend frames j =
      let kept = take s.depth (frames ++ queue s identity) in
      let removed = Map.remove identity s.queues in
      ground (
        arith,
        ==_iff j identity,
        length-eq-zero kept,
        get-remove identity j s.queues h.is_map,
        get-insert identity j kept removed,
      )

  prepend-bounded :
      (frames : List Bytes) (j : AgentId) → length (queue (prepend identity frames s).0 j) ≤ s.depth
  unfolding push_front
  prepend-bounded frames j =
      rw ((queue-prepend frames j).0)
        (ground (arith, h.bounded j, length-take_bound s.depth (frames ++ queue s identity)))

  prepend-IsMap : (frames : List Bytes) → IsMap (prepend identity frames s).0.queues
  unfolding prepend
  prepend-IsMap frames =
      let removed = Map.remove identity s.queues in
      let removed_map = remove-IsMap identity s.queues h.is_map in
      ground (
        arith,
        removed_map,
        insert-IsMap identity (take s.depth (frames ++ queue s identity)) removed removed_map,
      )

  pub prepend-IsValid : (frames : List Bytes) → IsValid (prepend identity frames s).0
  unfolding prepend
  prepend-IsValid frames = record {
    is_map = prepend-IsMap frames;
    bounded = prepend-bounded frames;
  }
